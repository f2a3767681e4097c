-- ===== src/Revision/RoundTrip.antt =====
-- The key format that decode_key accepts, stated by a writer of it.
use etcd_space_inspector.Prelude.{
  ℕ, ◌^◌, ◌<◌, ◌≡◌, refl, sym, ap, ◌∙◌, Bool, true, false, [], ◌∷◌, ◌++◌, length, All, arith, subst,
}
use etcd_space_inspector.Prelude.Bytes.{Bytes}
use etcd_space_inspector.Revision.{RevisionKey, decoded, big_endian, check_revision, decode_key}
use etcd_space_inspector.Revision.BigEndian.{
  IsByte, bytes_of, length-bytes_of, big_endian-bytes_of, bytes_of-big_endian,
}

abbrev pub mark : Bool → Bytes
mark true = b't' ∷ []
mark false = []

-- Eight bytes of the main revision, `_`, eight bytes of the sub revision, and `t` on a tombstone.
unfoldable pub encode_key : RevisionKey → Bytes
encode_key k = bytes_of 8 k.main ++ (b'_' ∷ (bytes_of 8 k.sub ++ mark k.tombstone))

-- The revisions that etcd writes: a positive int64 and one that is not negative.
pub record InRange (k : RevisionKey) : Type 0 where
  pub main_pos : 0 < k.main
  pub main_bound : k.main < 2 ^ 63
  pub sub_bound : k.sub < 2 ^ 63

-- A key cut at its separator.
decode_parts :
    (xs ys : Bytes) (t : Bool)
    → length xs ≡ 8
    → length ys ≡ 8
    → decode_key (xs ++ (b'_' ∷ (ys ++ mark t)))
      ≡ check_revision (big_endian 0 xs) (big_endian 0 ys) t
unfolding decode_key
decode_parts (x0 ∷ x1 ∷ x2 ∷ x3 ∷ x4 ∷ x5 ∷ x6 ∷ x7 ∷ [])
      (y0 ∷ y1 ∷ y2 ∷ y3 ∷ y4 ∷ y5 ∷ y6 ∷ y7 ∷ []) true hx hy =
    refl
decode_parts (x0 ∷ x1 ∷ x2 ∷ x3 ∷ x4 ∷ x5 ∷ x6 ∷ x7 ∷ [])
      (y0 ∷ y1 ∷ y2 ∷ y3 ∷ y4 ∷ y5 ∷ y6 ∷ y7 ∷ []) false hx hy =
    refl
decode_parts _ _ t hx hy = absurd (omega arith)

check_revision-InRange :
    (k : RevisionKey) → InRange k → check_revision k.main k.sub k.tombstone ≡ decoded k
unfolding check_revision
check_revision-InRange k h = ground (arith, h.main_pos, h.main_bound, h.sub_bound)

-- A key that is written for a revision in range is decoded to that revision.
pub decode_key-encode_key : (k : RevisionKey) → InRange k → decode_key (encode_key k) ≡ decoded k
unfolding encode_key
decode_key-encode_key k h =
    decode_parts (bytes_of 8 k.main) (bytes_of 8 k.sub) k.tombstone (length-bytes_of 8 k.main)
      (length-bytes_of 8 k.sub)
    ∙ rw
        (
          big_endian-bytes_of 8 k.main (omega (arith, h.main_bound)),
          big_endian-bytes_of 8 k.sub (omega (arith, h.sub_bound)),
        )
        (check_revision-InRange k h)

check_revision-decoded :
    (main sub : ℕ) (t : Bool) (k : RevisionKey)
    → check_revision main sub t ≡ decoded k
    → (k.main ≡ main) × (k.sub ≡ sub) × (k.tombstone ≡ t) × InRange k
unfolding check_revision
check_revision-decoded main sub t k h = (
  ground arith,
  ground arith,
  ground arith,
  record { main_pos = ground arith; main_bound = ground arith; sub_bound = ground arith },
)

-- The parts of a value that is not refused.
decode_key-parts :
    (value : Bytes) (k : RevisionKey)
    → decode_key value ≡ decoded k
    → (xs : Bytes) × (ys : Bytes) × (t : Bool) × (length xs ≡ 8)
      × (length ys ≡ 8)
      × (value ≡ xs ++ (b'_' ∷ (ys ++ mark t)))
unfolding decode_key
decode_key-parts
      (x0 ∷ x1 ∷ x2 ∷ x3 ∷ x4 ∷ x5 ∷ x6 ∷ x7 ∷ s ∷ y0 ∷ y1 ∷ y2 ∷ y3 ∷ y4 ∷ y5 ∷ y6 ∷ y7 ∷ []) k h =
    (
      x0 ∷ x1 ∷ x2 ∷ x3 ∷ x4 ∷ x5 ∷ x6 ∷ x7 ∷ [],
      y0 ∷ y1 ∷ y2 ∷ y3 ∷ y4 ∷ y5 ∷ y6 ∷ y7 ∷ [],
      false,
      refl,
      refl,
      ground arith,
    )
decode_key-parts
      (x0 ∷ x1 ∷ x2 ∷ x3 ∷ x4 ∷ x5 ∷ x6 ∷ x7 ∷ s ∷ y0 ∷ y1 ∷ y2 ∷ y3 ∷ y4 ∷ y5 ∷ y6 ∷ y7 ∷ m ∷ []) k
      h =
    (
      x0 ∷ x1 ∷ x2 ∷ x3 ∷ x4 ∷ x5 ∷ x6 ∷ x7 ∷ [],
      y0 ∷ y1 ∷ y2 ∷ y3 ∷ y4 ∷ y5 ∷ y6 ∷ y7 ∷ [],
      true,
      refl,
      refl,
      ground arith,
    )
decode_key-parts _ k h = absurd (ground arith)

All-append : (xs ys : Bytes) → All IsByte (xs ++ ys) → All IsByte xs × All IsByte ys
All-append [] ys h = (tt, h)
All-append (x ∷ xs) ys h = let (a, b) = All-append xs ys h.1 in ((h.0, a), b)

eight-bytes : (xs : Bytes) → length xs ≡ 8 → All IsByte xs → bytes_of 8 (big_endian 0 xs) ≡ xs
eight-bytes xs e h = ap (λ (n : ℕ). bytes_of n (big_endian 0 xs)) (sym e) ∙ bytes_of-big_endian xs h

-- A list of bytes that is decoded to a revision is the key that is written for it, and the
-- revision is in range. Two such lists that decode to one revision are thus equal.
pub encode_key-decode_key :
    (value : Bytes) (k : RevisionKey)
    → All IsByte value
    → decode_key value ≡ decoded k
    → (encode_key k ≡ value) × InRange k
unfolding encode_key
encode_key-decode_key value k bytes h =
    let (xs, ys, t, hx, hy, e) = decode_key-parts value k h in
    let ranges : All IsByte (xs ++ (b'_' ∷ (ys ++ mark t))) = subst (All IsByte) e bytes in
    let (bx, brest) = All-append xs (b'_' ∷ (ys ++ mark t)) ranges in
    let (by, bt) = All-append ys (mark t) brest.1 in
    let (m, s, d, r) =
      check_revision-decoded (big_endian 0 xs) (big_endian 0 ys) t k
        (sym (decode_parts xs ys t hx hy) ∙ sym (ap decode_key e) ∙ h) in
    (rw (m, s, d, eight-bytes xs hx bx, eight-bytes ys hy by) (sym e), r)
