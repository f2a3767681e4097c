-- ===== src/Revision/Order.antt =====
-- A cursor over the bucket `key` meets the revisions in their order.
use etcd_space_inspector.Prelude.{
  ℕ, zero, suc, ◌/◌, ◌%◌, ◌^◌, ◌<◌, ◌≡◌, refl, ◌∙◌, ◌⊎◌, inl, inr, true, false, [], ◌∷◌, ◌++◌,
  append_assoc, arith, ltb, Bool-cases,
}
use etcd_space_inspector.Prelude.Bytes.{Bytes, less, less-head, less-append}
use etcd_space_inspector.Revision.{RevisionKey}
use etcd_space_inspector.Revision.BigEndian.{bytes_of}
use etcd_space_inspector.Revision.RoundTrip.{InRange, encode_key, mark}
use native.Mathlib.Nat.{pow-suc}

-- Fixed-width numbers are ordered as their bytes are, whatever follows.
less-bytes_of :
    (n x y : ℕ) (r s : Bytes)
    → x < 256 ^ n
    → y < 256 ^ n
    → x < y
    → less (bytes_of n x ++ r) (bytes_of n y ++ s) ≡ true
unfolding bytes_of
less-bytes_of zero x y r s hx hy h = absurd (omega arith)
less-bytes_of (suc n) x y r s hx hy h =
    rw
      (
        append_assoc (bytes_of n (x / 256)) (x % 256 ∷ []) r,
        append_assoc (bytes_of n (y / 256)) (y % 256 ∷ []) s,
      )
      (elim (Bool-cases (ltb (x / 256) (y / 256))) [
        | inl lt ↦
            less-bytes_of n (x / 256) (y / 256) (x % 256 ∷ r) (y % 256 ∷ s)
              (omega (arith, pow-suc 256 n)) (omega (arith, pow-suc 256 n)) (ground arith)
        | inr ge ↦ rw (same_high x y h ge) (
            less-append (bytes_of n (y / 256)) (x % 256 ∷ r) (y % 256 ∷ s)
            ∙ less-head (x % 256) (y % 256) r s (low x y h ge))
      ])
  where
    same_high : (x y : ℕ) → x < y → ltb (x / 256) (y / 256) ≡ false → x / 256 ≡ y / 256
    same_high x y h ge = ground arith

    low : (x y : ℕ) → x < y → ltb (x / 256) (y / 256) ≡ false → x % 256 < y % 256
    low x y h ge = ground arith

-- Main revision first, then sub revision, and a tombstone behind the revision that it marks.
abbrev pub Precedes : RevisionKey → RevisionKey → Type 0
Precedes j k =
    (j.main < k.main)
    ⊎ ((j.main ≡ k.main)
        × ((j.sub < k.sub) ⊎ ((j.sub ≡ k.sub) × (j.tombstone ≡ false) × (k.tombstone ≡ true))))

-- Of two revisions in range the one that precedes has the smaller key, so that a cursor over the
-- keys in byte order meets revisions in the order of their main and then their sub revision.
pub less-encode_key :
    (j k : RevisionKey)
    → InRange j
    → InRange k
    → Precedes j k
    → less (encode_key j) (encode_key k) ≡ true
unfolding encode_key
less-encode_key j k hj hk (inl h) =
    less-bytes_of 8 j.main k.main _ _ (omega (arith, hj.main_bound)) (omega (arith, hk.main_bound))
      h
less-encode_key j k hj hk (inr (e, inl h)) =
    rw
      (
        e,
        less-append (bytes_of 8 k.main),
        less-append (b'_' ∷ []) (bytes_of 8 j.sub ++ mark j.tombstone)
            (bytes_of 8 k.sub ++ mark k.tombstone),
      )
      (less-bytes_of 8 j.sub k.sub _ _ (omega (arith, hj.sub_bound)) (omega (arith, hk.sub_bound))
        h)
less-encode_key j k hj hk (inr (e, inr (f, g, h))) =
    rw
      (
        e,
        f,
        g,
        h,
        less-append (bytes_of 8 k.main),
        less-append (b'_' ∷ []) (bytes_of 8 k.sub ++ mark false) (bytes_of 8 k.sub ++ mark true),
        less-append (bytes_of 8 k.sub),
      )
      (unfold less in refl)
