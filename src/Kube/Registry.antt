-- ===== src/Kube/Registry.antt =====
-- internal/kube/registry/parser.go: the identity that an etcd registry key stands for.
pub mod Redaction
pub mod Scope
use etcd_space_inspector.Prelude.{
  ℕ, zero, suc, Bool, true, false, ◌&&◌, ◌||◌, not, Option, none, some, List, [], ◌∷◌, ◌++◌, length,
  take, ltb, if◌then◌else◌,
}
use etcd_space_inspector.Prelude.Bytes.{Bytes, text, same}
use etcd_space_inspector.Prelude.Strings.{split, trim, strip_prefix, contains_byte}

pub record Identity : Type 0 where
  pub storage_prefix : Bytes
  pub api_group : Bytes
  pub resource : Bytes
  pub namespace : Bytes
  pub name : Bytes
  pub display_name : Bytes
  pub crd : Bool
  pub cluster_scoped : Bool
  pub sensitive : Bool

abbrev pub no_identity : Identity
no_identity = record {
  storage_prefix = [];
  api_group = [];
  resource = [];
  namespace = [];
  name = [];
  display_name = [];
  crd = false;
  cluster_scoped = false;
  sensitive = false;
}

-- The tables: a missing key reads as the empty text.
unfoldable pub table_get : Bytes → List (Bytes × Bytes) → Bytes
table_get k [] = []
table_get k ((j, v) ∷ rest) = if same j k then v else table_get k rest

unfoldable pub listed : Bytes → List Bytes → Bool
listed k [] = false
listed k (j ∷ rest) = same j k || listed k rest

abbrev pub api_groups : List (Bytes × Bytes)
api_groups =
    (text "deployments", text "apps")
    ∷ (text "daemonsets", text "apps")
    ∷ (text "statefulsets", text "apps")
    ∷ (text "replicasets", text "apps")
    ∷ (text "jobs", text "batch")
    ∷ (text "cronjobs", text "batch")
    ∷ (text "leases", text "coordination.k8s.io")
    ∷ (text "ingresses", text "networking.k8s.io")
    ∷ (text "networkpolicies", text "networking.k8s.io")
    ∷ (text "storageclasses", text "storage.k8s.io")
    ∷ (text "csinodes", text "storage.k8s.io")
    ∷ []

abbrev pub cluster_scoped_resources : List Bytes
cluster_scoped_resources =
    text "namespaces"
    ∷ text "nodes"
    ∷ text "persistentvolumes"
    ∷ text "storageclasses"
    ∷ text "csinodes"
    ∷ []

abbrev pub sensitive_resources : List Bytes
sensitive_resources =
    text "secrets" ∷ text "serviceaccounts" ∷ text "certificatesigningrequests" ∷ []

abbrev pub registry_prefix : Bytes
registry_prefix = text "/registry/"

abbrev cluster_name : List Bytes → Identity → Identity
cluster_name (n ∷ []) i = record i { name = n }
cluster_name _ i = i

abbrev namespaced_name : List Bytes → Identity → Identity
namespaced_name [] i = i
namespaced_name (ns ∷ n ∷ []) i = record i { namespace = ns; name = n }
namespaced_name (ns ∷ rest) i = record i { namespace = ns }

unfoldable pub assign_built_in_scope : List Bytes → Identity → Identity
assign_built_in_scope remainder i =
    if i.cluster_scoped then cluster_name remainder i else namespaced_name remainder i

unfoldable pub assign_crd_scope : List Bytes → Identity → Identity
assign_crd_scope (n ∷ []) i = record i { name = n; cluster_scoped = true }
assign_crd_scope (ns ∷ n ∷ []) i = record i { namespace = ns; name = n }
assign_crd_scope _ i = i

-- The three ways to read the parts.
unfoldable pub read_service : Bytes → List Bytes → Identity
unfolding assign_built_in_scope
read_service kind rest = assign_built_in_scope rest (record no_identity {
  resource = (if same kind (text "specs") then text "services" else text "endpoints");
  storage_prefix = text "/registry/services/" ++ kind;
})

unfoldable pub read_crd : Bytes → Bytes → List Bytes → Identity
unfolding assign_crd_scope
read_crd group resource rest = assign_crd_scope rest (record no_identity {
  api_group = group;
  resource = resource;
  crd = true;
  storage_prefix = text "/registry/" ++ (group ++ (text "/" ++ resource));
})

unfoldable pub read_built_in : Bytes → List Bytes → Identity
unfolding assign_built_in_scope
read_built_in resource rest = assign_built_in_scope rest (record no_identity {
  resource = resource;
  api_group = table_get resource api_groups;
  storage_prefix = text "/registry/" ++ resource;
  cluster_scoped = listed resource cluster_scoped_resources;
})

unfoldable pub read_parts : Bytes → List Bytes → Identity
unfolding read_service read_crd read_built_in
read_parts first [] = read_built_in first []
read_parts first (second ∷ rest) =
    if same first (text "services")
      && (same second (text "specs") || same second (text "endpoints"))
    then read_service second rest
    else if contains_byte b'.' first
    then read_crd first second rest
    else read_built_in first (second ∷ rest)

-- The end of `Parse`: what is shown of a sensitive object is the beginning of its key's hash.
unfoldable pub redact : Bytes → Identity → Identity
redact key_hash i =
    let hidden = listed i.resource sensitive_resources in
    record i {
      sensitive = hidden;
      display_name =
          (if hidden
            then text "redacted:"
              ++ (if ltb 12 (length key_hash) then take 12 key_hash else key_hash)
            else i.name);
    }

unfoldable pub parse_segments : Bytes → List Bytes → Identity
unfolding read_parts redact
parse_segments key_hash [] = no_identity
parse_segments key_hash (first ∷ rest) =
    if same first [] then no_identity else redact key_hash (read_parts first rest)

-- Behind the prefix, if the key has it.
unfoldable pub identify : Bytes → Option Bytes → Option Identity
unfolding parse_segments
identify key_hash none = none
identify key_hash (some rest) = some (parse_segments key_hash (split b'/' (trim b'/' rest)))

unfoldable pub parse : Bytes → Bytes → Option Identity
unfolding identify
parse key_text key_hash = identify key_hash (strip_prefix registry_prefix key_text)
