-- ===== src/Diff/Groups.antt =====
-- The grouped rows of internal/diff/calculator.go: prefixes, resources and namespaces. All of their
-- items are reported.
use etcd_space_inspector.Prelude.{ℕ, false, [], if◌then◌else◌}
use etcd_space_inspector.Prelude.Bytes.{Bytes, same}
use etcd_space_inspector.Prelude.Word.{add64, sub64}
use etcd_space_inspector.Diff.Aligner.{Aligner}

pub record PrefixState : Type 0 where
  pub key : Bytes
  pub current_keys : ℕ
  pub current_bytes : ℕ
  pub history_versions : ℕ
  pub history_bytes : ℕ
  pub tombstones : ℕ
  pub tombstone_bytes : ℕ

abbrev pub no_prefix : PrefixState
no_prefix = record {
  key = [];
  current_keys = 0;
  current_bytes = 0;
  history_versions = 0;
  history_bytes = 0;
  tombstones = 0;
  tombstone_bytes = 0;
}

pub record PrefixDelta : Type 0 where
  pub prefix : Bytes
  pub current_key_count_delta : ℕ
  pub current_bytes_delta : ℕ
  pub historical_versions_delta : ℕ
  pub historical_bytes_delta : ℕ
  pub tombstone_count_delta : ℕ
  pub tombstone_bytes_delta : ℕ
  pub total_bytes_delta : ℕ

unfoldable pub prefix_delta : PrefixState → PrefixState → PrefixDelta
prefix_delta baseline target =
    let key = if same target.key [] then baseline.key else target.key in
    let current = sub64 target.current_bytes baseline.current_bytes in
    let historical = sub64 target.history_bytes baseline.history_bytes in
    let tombstone = sub64 target.tombstone_bytes baseline.tombstone_bytes in
    record {
      prefix = key;
      current_key_count_delta = sub64 target.current_keys baseline.current_keys;
      current_bytes_delta = current;
      historical_versions_delta = sub64 target.history_versions baseline.history_versions;
      historical_bytes_delta = historical;
      tombstone_count_delta = sub64 target.tombstones baseline.tombstones;
      tombstone_bytes_delta = tombstone;
      total_bytes_delta = add64 (add64 current historical) tombstone;
    }

unfoldable pub prefix_aligner : Aligner PrefixState PrefixDelta
unfolding prefix_delta
prefix_aligner = record {
  key = λ s. s.key;
  only_target = λ t. prefix_delta no_prefix t;
  only_baseline = λ b. prefix_delta b no_prefix;
  both = prefix_delta;
  unchanged = λ _. false;
}

pub record ResourceState : Type 0 where
  pub key : Bytes
  pub group : Bytes
  pub resource : Bytes
  pub objects : ℕ
  pub current_bytes : ℕ
  pub historical_bytes : ℕ

abbrev pub no_resource : ResourceState
no_resource = record {
  key = [];
  group = [];
  resource = [];
  objects = 0;
  current_bytes = 0;
  historical_bytes = 0;
}

pub record ResourceDelta : Type 0 where
  pub api_group : Bytes
  pub resource : Bytes
  pub current_objects_delta : ℕ
  pub current_bytes_delta : ℕ
  pub historical_bytes_delta : ℕ
  pub total_bytes_delta : ℕ

unfoldable pub resource_delta : ResourceState → ResourceState → ResourceDelta
resource_delta baseline target =
    let identity = if same target.key [] then baseline else target in
    let current = sub64 target.current_bytes baseline.current_bytes in
    let historical = sub64 target.historical_bytes baseline.historical_bytes in
    record {
      api_group = identity.group;
      resource = identity.resource;
      current_objects_delta = sub64 target.objects baseline.objects;
      current_bytes_delta = current;
      historical_bytes_delta = historical;
      total_bytes_delta = add64 current historical;
    }

unfoldable pub resource_aligner : Aligner ResourceState ResourceDelta
unfolding resource_delta
resource_aligner = record {
  key = λ s. s.key;
  only_target = λ t. resource_delta no_resource t;
  only_baseline = λ b. resource_delta b no_resource;
  both = resource_delta;
  unchanged = λ _. false;
}

pub record NamespaceState : Type 0 where
  pub key : Bytes
  pub objects : ℕ
  pub current_bytes : ℕ
  pub historical_bytes : ℕ

abbrev pub no_namespace : NamespaceState
no_namespace = record { key = []; objects = 0; current_bytes = 0; historical_bytes = 0 }

pub record NamespaceDelta : Type 0 where
  pub namespace : Bytes
  pub current_objects_delta : ℕ
  pub current_bytes_delta : ℕ
  pub historical_bytes_delta : ℕ
  pub total_bytes_delta : ℕ

unfoldable pub namespace_delta : NamespaceState → NamespaceState → NamespaceDelta
namespace_delta baseline target =
    let key = if same target.key [] then baseline.key else target.key in
    let current = sub64 target.current_bytes baseline.current_bytes in
    let historical = sub64 target.historical_bytes baseline.historical_bytes in
    record {
      namespace = key;
      current_objects_delta = sub64 target.objects baseline.objects;
      current_bytes_delta = current;
      historical_bytes_delta = historical;
      total_bytes_delta = add64 current historical;
    }

unfoldable pub namespace_aligner : Aligner NamespaceState NamespaceDelta
unfolding namespace_delta
namespace_aligner = record {
  key = λ s. s.key;
  only_target = λ t. namespace_delta no_namespace t;
  only_baseline = λ b. namespace_delta b no_namespace;
  both = namespace_delta;
  unchanged = λ _. false;
}
