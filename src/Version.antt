-- ===== src/Version.antt =====
-- internal/etcdversion/detector.go, and the version gate of internal/mvcc/etcd34/adapter.go. The
-- bbolt file is the parameter `Backend`: what opening it and reading one bucket answers.
pub mod Family
pub mod Evidence
use etcd_space_inspector.Prelude.{
  ℕ, zero, suc, ◌+◌, ◌-◌, ◌*◌, ◌<◌, ◌^◌, Bool, true, false, ◌&&◌, ◌||◌, not, Option, none, some,
  List, [], ◌∷◌, length, ltb, leb, ◌==◌, if◌then◌else◌,
}
use etcd_space_inspector.Prelude.Bytes.{Bytes, text, same}
use etcd_space_inspector.Prelude.Strings.{split, trim_prefix, is_some}

-- strconv.ParseUint(part, 10, 32), of Go's standard library: digits only, below 2^32.
unfoldable pub digits_value : ℕ → Bytes → Option ℕ
digits_value acc [] = some acc
digits_value acc (c ∷ cs) =
    let rest = digits_value (acc * 10 + (c - b'0')) cs in
    if leb b'0' c && leb c b'9' then rest else none

abbrev pub below_limit : Option ℕ → Option ℕ
below_limit none = none
below_limit (some n) = if ltb n (2 ^ 32) then some n else none

unfoldable pub parse_uint : Bytes → Option ℕ
unfolding digits_value
parse_uint [] = none
parse_uint (c ∷ cs) = below_limit (digits_value 0 (c ∷ cs))

-- The test that the loops of `Family` and `IsExact` make of one part.
unfoldable pub is_number : Bytes → Bool
unfolding parse_uint
is_number part = not (same part []) && is_some (parse_uint part)

unfoldable pub all_numbers : List Bytes → Bool
unfolding is_number
all_numbers [] = true
all_numbers (p ∷ ps) = is_number p && all_numbers ps

abbrev pub version_34 : Bytes
version_34 = text "3.4"

abbrev family_of : List Bytes → Bytes
family_of (a ∷ b ∷ c ∷ []) = if same a (text "3") && same b (text "4") then version_34 else []
family_of _ = []

unfoldable pub family : Bytes → Bytes
unfolding all_numbers
family version =
    let parts = split b'.' (trim_prefix version (text "v")) in
    if not (length parts == 3) then [] else if all_numbers parts then family_of parts else []

unfoldable pub is_exact : Bytes → Bool
unfolding all_numbers
is_exact version =
    let parts = split b'.' (trim_prefix version (text "v")) in
    if not (length parts == 3) then false else all_numbers parts

unfoldable pub is_exact34 : Bytes → Bool
unfolding family
is_exact34 version = same (family version) version_34

-- Opening the file fails; or there is no bucket `cluster`; or that is the value under
-- `clusterVersion`, empty when there is none.
pub data Backend : Type 0 where
  unreadable : Backend
  no_cluster : Backend
  cluster_version : Bytes → Backend

pub record VersionResult : Type 0 where
  pub family : Bytes
  pub raw : Bytes

abbrev pub unknown_version : VersionResult
unknown_version = record { family = []; raw = [] }

unfoldable pub detect : Backend → VersionResult
unfolding family
detect unreadable = unknown_version
detect no_cluster = unknown_version
detect (cluster_version raw) =
    if length raw == 0 || ltb 32 (length raw)
    then unknown_version
    else if same (family raw) version_34
    then record { family = family raw; raw = raw }
    else unknown_version

abbrev pub database_metadata : Bytes
database_metadata = text "database_metadata"

-- Adapter.Supports
unfoldable pub supports : Bytes → Bytes → Bool
unfolding is_exact34
supports version source =
    if same source database_metadata then same version version_34 else is_exact34 version
