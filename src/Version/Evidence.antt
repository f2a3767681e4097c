-- ===== src/Version/Evidence.antt =====
-- The version that an imported task records, and whether it opens the MVCC decoder.
use etcd_space_inspector.Prelude.{◌≡◌, refl, Bool, true, false, ◌||◌, not, [], if◌then◌else◌, arith}
use etcd_space_inspector.Prelude.Bytes.{Bytes, text, same, same-iff_eq}
use etcd_space_inspector.Version.{
  Backend, unreadable, no_cluster, cluster_version, detect, family, is_exact, version_34,
  database_metadata,
}

-- What Service.Create of internal/task/service.go records: the source, the version and whether it is
-- exact. `provided` is trimmed, and `detected` is empty when nothing was found.
pub record VersionFields : Type 0 where
  pub etcd_version : Bytes
  pub etcd_version_source : Bytes
  pub etcd_version_exact : Bool

unfoldable pub choose_version : Bytes → Bytes → VersionFields
choose_version detected provided =
    if not (same provided [])
    then record {
      etcd_version = provided;
      etcd_version_source = text "manual";
      etcd_version_exact = is_exact provided;
    }
    else if not (same detected [])
    then record {
      etcd_version = detected;
      etcd_version_source = database_metadata;
      etcd_version_exact = false;
    }
    else record {
      etcd_version = [];
      etcd_version_source = text "unknown";
      etcd_version_exact = false;
    }

-- A detection finds the family 3.4 or nothing.
detect_family :
    (d : Backend) → (same (detect d).family version_34 || same (detect d).family []) ≡ true
unfolding detect same
detect_family unreadable = refl
detect_family no_cluster = refl
detect_family (cluster_version raw) = ground (arith, same-iff_eq (family raw) version_34)
