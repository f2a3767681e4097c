-- ===== src/Tests/Keys.antt =====
-- Versions, revision keys and registry keys, for internal/etcdversion, internal/mvcc/etcd34 and
-- internal/kube/registry.
use etcd_space_inspector.Prelude.{
  ◌≡◌, refl, inr, true, false, some, [], ◌∷◌, ◌++◌, ◌↔◌, All, arith, if◌then◌else◌,
}
use etcd_space_inspector.Prelude.Bytes.{Bytes, text, same, less}
use etcd_space_inspector.Prelude.Strings.{split, trim_prefix, trim, strip_prefix, contains_byte}
use etcd_space_inspector.Version.{family, is_number, is_exact34, version_34}
use etcd_space_inspector.Version.Family.{family_iff}
use etcd_space_inspector.Revision.{RevisionKey, decoded, decode_key}
use etcd_space_inspector.Revision.BigEndian.{IsByte}
use etcd_space_inspector.Revision.RoundTrip.{
  InRange, encode_key, decode_key-encode_key, encode_key-decode_key,
}
use etcd_space_inspector.Revision.Order.{less-encode_key}
use etcd_space_inspector.Kube.Registry.{
  Identity, parse, listed, table_get, cluster_scoped_resources, registry_prefix,
}
use etcd_space_inspector.Kube.Registry.Redaction.{Shown, parse-Shown}
use etcd_space_inspector.Kube.Registry.Scope.{
  IsSegment, IsBuiltIn, Located, parse_namespaced, parse_two_parts,
}

family_iff_example : (family (text "v3.4.27") ≡ version_34) ↔ (
    (patch : Bytes) × (is_number patch ≡ true)
    × (trim_prefix (text "v3.4.27") (text "v") ≡ text "3.4." ++ patch))
family_iff_example = family_iff (text "v3.4.27")

is_exact34-holds : is_exact34 (text "3.4.27") ≡ true
unfolding is_exact34 split trim_prefix same
is_exact34-holds = refl

abbrev first_key : RevisionKey
first_key = record { main = 258; sub = 1; tombstone = false }

abbrev deleted_key : RevisionKey
deleted_key = record { main = 258; sub = 1; tombstone = true }

first-InRange : InRange first_key
first-InRange = record { main_pos = omega arith; main_bound = omega arith; sub_bound = omega arith }

deleted-InRange : InRange deleted_key
deleted-InRange = record {
  main_pos = omega arith;
  main_bound = omega arith;
  sub_bound = omega arith;
}

decode_key-encode_key_example : decode_key (encode_key deleted_key) ≡ decoded deleted_key
decode_key-encode_key_example = decode_key-encode_key deleted_key deleted-InRange

abbrev stored : Bytes
stored = 0 ∷ 0 ∷ 0 ∷ 0 ∷ 0 ∷ 0 ∷ 1 ∷ 2 ∷ b'_' ∷ 0 ∷ 0 ∷ 0 ∷ 0 ∷ 0 ∷ 0 ∷ 0 ∷ 1 ∷ b't' ∷ []

stored-IsByte : All IsByte stored
stored-IsByte = ground arith

stored-decoded : decode_key stored ≡ decoded deleted_key
unfolding decode_key
stored-decoded = refl

encode_key-decode_key_example : (encode_key deleted_key ≡ stored) × InRange deleted_key
encode_key-decode_key_example =
    encode_key-decode_key stored deleted_key stored-IsByte stored-decoded

less-encode_key_example : less (encode_key first_key) (encode_key deleted_key) ≡ true
less-encode_key_example =
    less-encode_key first_key deleted_key first-InRange deleted-InRange
      (inr (refl, inr (refl, refl, refl)))

abbrev secret_key : Bytes
secret_key = text "/registry/secrets/default/token"

abbrev hash : Bytes
hash = text "0123456789abcdef"

abbrev secret : Identity
secret = record {
  storage_prefix = text "/registry/secrets";
  api_group = [];
  resource = text "secrets";
  namespace = text "default";
  name = text "token";
  display_name = text "redacted:0123456789ab";
  crd = false;
  cluster_scoped = false;
  sensitive = true;
}

secret-parsed : parse secret_key hash ≡ some secret
unfolding parse split trim strip_prefix contains_byte same listed table_get
secret-parsed = refl

parse-Shown_example : Shown hash secret
parse-Shown_example = parse-Shown secret_key hash secret secret-parsed

pods-IsBuiltIn : IsBuiltIn (text "pods")
unfolding contains_byte same
pods-IsBuiltIn = record {
  segment = record { nonempty = λ e. ground arith; whole = refl };
  no_group = refl;
  not_services = refl;
}

default-IsSegment : IsSegment (text "default")
unfolding contains_byte
default-IsSegment = record { nonempty = λ e. ground arith; whole = refl }

web-IsSegment : IsSegment (text "web-0")
unfolding contains_byte
web-IsSegment = record { nonempty = λ e. ground arith; whole = refl }

pods-namespaced : listed (text "pods") cluster_scoped_resources ≡ false
unfolding listed same
pods-namespaced = refl

parse_namespaced_example :
    Located
      (parse
        (registry_prefix ++ (text "pods" ++ (b'/' ∷ (text "default" ++ (b'/' ∷ text "web-0")))))
        hash)
      (text "pods")
      (text "default")
      (text "web-0")
      false
parse_namespaced_example =
    parse_namespaced (text "pods") (text "default") (text "web-0") hash pods-IsBuiltIn
      default-IsSegment web-IsSegment pods-namespaced

-- A cluster-scoped resource that the table does not have.
abbrev roles : Bytes
roles = text "clusterroles"

roles-IsBuiltIn : IsBuiltIn roles
unfolding contains_byte same
roles-IsBuiltIn = record {
  segment = record { nonempty = λ e. ground arith; whole = refl };
  no_group = refl;
  not_services = refl;
}

admin-IsSegment : IsSegment (text "admin")
unfolding contains_byte
admin-IsSegment = record { nonempty = λ e. ground arith; whole = refl }

parse_two_parts_example :
    Located
      (parse (registry_prefix ++ (roles ++ (b'/' ∷ text "admin"))) hash)
      roles
      (if listed roles cluster_scoped_resources then [] else text "admin")
      (if listed roles cluster_scoped_resources then text "admin" else [])
      (listed roles cluster_scoped_resources)
parse_two_parts_example = parse_two_parts roles (text "admin") hash roles-IsBuiltIn admin-IsSegment
