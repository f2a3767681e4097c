-- ===== src/Revision.antt =====
-- internal/mvcc/etcd34/revision.go: the key of a revision in the etcd 3.4 backend. A byte slice is
-- a list of bytes, and an int64 its bit pattern, so that `main <= 0` and `sub < 0` are tests on it.
pub mod BigEndian
pub mod RoundTrip
pub mod Order
use etcd_space_inspector.Prelude.{
  ℕ, zero, suc, ◌+◌, ◌*◌, ◌/◌, ◌%◌, ◌^◌, ◌≡◌, Bool, true, false, ◌&&◌, ◌||◌, not, List, [], ◌∷◌,
  ◌++◌, length, take, drop, leb, ◌==◌, if◌then◌else◌,
}
use etcd_space_inspector.Prelude.Bytes.{Bytes}

pub data KeyError : Type 0 where
  bad_length : KeyError
  bad_separator : KeyError
  unknown_mark : KeyError
  invalid_revision : KeyError

pub record RevisionKey : Type 0 where
  pub main : ℕ
  pub sub : ℕ
  pub tombstone : Bool

pub data Decoded : Type 0 where
  decoded : RevisionKey → Decoded
  refused : KeyError → Decoded

abbrev pub byte_at : Bytes → ℕ → ℕ
byte_at [] i = 0
byte_at (x ∷ xs) zero = x
byte_at (x ∷ xs) (suc i) = byte_at xs i

-- binary.BigEndian.Uint64, on any number of bytes.
unfoldable pub big_endian : ℕ → Bytes → ℕ
big_endian acc [] = acc
big_endian acc (b ∷ bs) = big_endian (acc * 256 + b) bs

-- The sign bit of an int64.
abbrev pub is_negative : ℕ → Bool
is_negative n = leb (2 ^ 63) n

abbrev pub key_length : ℕ
key_length = 17

-- The last checks, on the two numbers.
unfoldable pub check_revision : ℕ → ℕ → Bool → Decoded
check_revision main sub tombstone =
    if is_negative main || main == 0 || is_negative sub
    then refused invalid_revision
    else decoded (record { main = main; sub = sub; tombstone = tombstone })

unfoldable pub decode_key : Bytes → Decoded
unfolding check_revision big_endian
decode_key value =
    let main = big_endian 0 (take 8 value) in
    let sub = big_endian 0 (take 8 (drop 9 value)) in
    if not (length value == key_length) && not (length value == key_length + 1)
    then refused bad_length
    else if not (byte_at value 8 == b'_')
    then refused bad_separator
    else if length value == key_length + 1
    then (if not (byte_at value key_length == b't')
        then refused unknown_mark
        else check_revision main sub true)
    else check_revision main sub false
