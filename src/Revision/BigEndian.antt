-- ===== src/Revision/BigEndian.antt =====
-- Eight bytes, most significant first, and the number that they stand for.
use etcd_space_inspector.Prelude.{
  ℕ, zero, suc, ◌+◌, ◌*◌, ◌/◌, ◌%◌, ◌^◌, ◌<◌, ◌≡◌, refl, ap, ◌∙◌, [], ◌∷◌, ◌++◌, length,
  length-append, append-nil, append_assoc, All, arith,
}
use etcd_space_inspector.Prelude.Bytes.{Bytes}
use etcd_space_inspector.Revision.{big_endian}
use native.Mathlib.Nat.{pow-suc}

abbrev pub IsByte : ℕ → Type 0
IsByte b = b < 256

-- The low `n` bytes of a number, most significant first.
unfoldable pub bytes_of : ℕ → ℕ → Bytes
bytes_of zero x = []
bytes_of (suc n) x = bytes_of n (x / 256) ++ x % 256 ∷ []

pub length-bytes_of : (n x : ℕ) → length (bytes_of n x) ≡ n
unfolding bytes_of
length-bytes_of zero x = refl
length-bytes_of (suc n) x =
    omega (arith, length-append (bytes_of n (x / 256)) (x % 256 ∷ []), length-bytes_of n (x / 256))

big_endian-append :
    (acc : ℕ) (xs ys : Bytes) → big_endian acc (xs ++ ys) ≡ big_endian (big_endian acc xs) ys
unfolding big_endian
big_endian-append acc [] ys = refl
big_endian-append acc (x ∷ xs) ys = big_endian-append (acc * 256 + x) xs ys

-- Reading back what was written.
pub big_endian-bytes_of : (n x : ℕ) → x < 256 ^ n → big_endian 0 (bytes_of n x) ≡ x
unfolding bytes_of
big_endian-bytes_of zero x h = unfold big_endian in omega arith
big_endian-bytes_of (suc n) x h =
    big_endian-append 0 (bytes_of n (x / 256)) (x % 256 ∷ [])
    ∙ rw (big_endian-bytes_of n (x / 256) (omega (arith, pow-suc 256 n)))
        (unfold big_endian in omega arith)

bytes_of-snoc : (n x b : ℕ) → IsByte b → bytes_of (suc n) (x * 256 + b) ≡ bytes_of n x ++ b ∷ []
unfolding bytes_of
bytes_of-snoc n x b h = rw (div_part, mod_part)
  where
    div_part : (x * 256 + b) / 256 ≡ x
    div_part = omega arith

    mod_part : (x * 256 + b) % 256 ≡ b
    mod_part = omega arith

-- With the bytes `ps` read already.
bytes_of-big_endian_from :
    (ps ys : Bytes) (acc : ℕ)
    → All IsByte ys
    → bytes_of (length ps) acc ≡ ps
    → bytes_of (length (ps ++ ys)) (big_endian acc ys) ≡ ps ++ ys
unfolding big_endian
bytes_of-big_endian_from ps [] acc h e = rw append-nil e
bytes_of-big_endian_from ps (b ∷ ys) acc h e = rw (← append_assoc ps (b ∷ []) ys) (
    bytes_of-big_endian_from (ps ++ b ∷ []) ys (acc * 256 + b) h.1 (
      ap (λ (n : ℕ). bytes_of n (acc * 256 + b)) one_more
      ∙ bytes_of-snoc (length ps) acc b h.0
      ∙ ap (λ (l : Bytes). l ++ b ∷ []) e))
  where
    one_more : length (ps ++ b ∷ []) ≡ suc (length ps)
    one_more = omega (arith, length-append ps (b ∷ []))

-- Writing back what was read.
pub bytes_of-big_endian : (xs : Bytes) → All IsByte xs → bytes_of (length xs) (big_endian 0 xs) ≡ xs
bytes_of-big_endian xs h = bytes_of-big_endian_from [] xs 0 h (unfold bytes_of in refl)
