-- ===== src/Diff/Delta.antt =====
-- The states and deltas of internal/diff/calculator.go and internal/diff/model.go, and the five
-- comparisons as aligners. An int64 is its bit pattern, so a difference is `sub64`.
pub mod Totals
pub mod Changes
use etcd_space_inspector.Prelude.{
  ℕ, suc, ◌+◌, Bool, true, false, ◌&&◌, not, List, [], ◌∷◌, length, ◌==◌, if◌then◌else◌,
}
use etcd_space_inspector.Prelude.Bytes.{Bytes, same}
use etcd_space_inspector.Prelude.Word.{add64, sub64}
use etcd_space_inspector.Diff.Rows.{Result, Rows, answers}
use etcd_space_inspector.Diff.Aligner.{Aligner, Env, Run, Outcome, compare_rows}

pub data ChangeType : Type 0 where
  change_added change_deleted change_modified : ChangeType

abbrev pub is_deleted : ChangeType → Bool
is_deleted change_deleted = true
is_deleted _ = false

abbrev pub is_modified : ChangeType → Bool
is_modified change_modified = true
is_modified _ = false

-- The classification of a row that only the target has.
unfoldable pub change_of_new : Bool → ChangeType
change_of_new present = if not present then change_deleted else change_added

-- The classification of a row that both have.
unfoldable pub change_of_both : Bool → Bool → ChangeType
change_of_both before after =
    if before && not after
    then change_deleted
    else if not before && after
    then change_added
    else change_modified

pub record KeyState : Type 0 where
  pub hash : Bytes
  pub key_text : Bytes
  pub prefix : Bytes
  pub present : Bool
  pub current : ℕ
  pub historical : ℕ
  pub tombstone : ℕ
  pub revisions : ℕ

abbrev pub no_key : KeyState
no_key = record {
  hash = [];
  key_text = [];
  prefix = [];
  present = false;
  current = 0;
  historical = 0;
  tombstone = 0;
  revisions = 0;
}

pub record KeyDelta : Type 0 where
  pub key_hash : Bytes
  pub key_text : Bytes
  pub prefix : Bytes
  pub change_type : ChangeType
  pub current_bytes_delta : ℕ
  pub historical_bytes_delta : ℕ
  pub tombstone_bytes_delta : ℕ
  pub revision_count_delta : ℕ
  pub total_bytes_delta : ℕ

unfoldable pub key_delta : KeyState → KeyState → ChangeType → KeyDelta
key_delta baseline target change =
    let identity = if is_deleted change && not (same baseline.hash []) then baseline else target in
    let current = sub64 target.current baseline.current in
    let historical = sub64 target.historical baseline.historical in
    let tombstone = sub64 target.tombstone baseline.tombstone in
    record {
      key_hash = identity.hash;
      key_text = identity.key_text;
      prefix = identity.prefix;
      change_type = change;
      current_bytes_delta = current;
      historical_bytes_delta = historical;
      tombstone_bytes_delta = tombstone;
      revision_count_delta = sub64 target.revisions baseline.revisions;
      total_bytes_delta = add64 (add64 current historical) tombstone;
    }

-- A modified key with no difference is not reported.
unfoldable pub key_unchanged : KeyDelta → Bool
key_unchanged item =
    is_modified item.change_type
    && item.current_bytes_delta == 0
    && item.historical_bytes_delta == 0
    && item.tombstone_bytes_delta == 0
    && item.revision_count_delta == 0

unfoldable pub key_aligner : Aligner KeyState KeyDelta
unfolding key_delta key_unchanged change_of_new change_of_both
key_aligner = record {
  key = λ s. s.hash;
  only_target = λ t. key_delta no_key t (change_of_new t.present);
  only_baseline = λ b. key_delta b no_key change_deleted;
  both = λ b t. key_delta b t (change_of_both b.present t.present);
  unchanged = key_unchanged;
}

pub record ObjectState : Type 0 where
  pub hash : Bytes
  pub group : Bytes
  pub resource : Bytes
  pub namespace : Bytes
  pub display : Bytes
  pub present : Bool
  pub current : ℕ
  pub historical : ℕ
  pub revisions : ℕ

abbrev pub no_object : ObjectState
no_object = record {
  hash = [];
  group = [];
  resource = [];
  namespace = [];
  display = [];
  present = false;
  current = 0;
  historical = 0;
  revisions = 0;
}

pub record ObjectDelta : Type 0 where
  pub key_hash : Bytes
  pub api_group : Bytes
  pub resource : Bytes
  pub namespace : Bytes
  pub display_name : Bytes
  pub change_type : ChangeType
  pub current_bytes_delta : ℕ
  pub historical_bytes_delta : ℕ
  pub revision_count_delta : ℕ
  pub total_bytes_delta : ℕ

unfoldable pub object_delta : ObjectState → ObjectState → ChangeType → ObjectDelta
object_delta baseline target change =
    let identity = if is_deleted change && not (same baseline.hash []) then baseline else target in
    let current = sub64 target.current baseline.current in
    let historical = sub64 target.historical baseline.historical in
    record {
      key_hash = identity.hash;
      api_group = identity.group;
      resource = identity.resource;
      namespace = identity.namespace;
      display_name = identity.display;
      change_type = change;
      current_bytes_delta = current;
      historical_bytes_delta = historical;
      revision_count_delta = sub64 target.revisions baseline.revisions;
      total_bytes_delta = add64 current historical;
    }

unfoldable pub object_unchanged : ObjectDelta → Bool
object_unchanged item =
    is_modified item.change_type
    && item.current_bytes_delta == 0
    && item.historical_bytes_delta == 0
    && item.revision_count_delta == 0

unfoldable pub object_aligner : Aligner ObjectState ObjectDelta
unfolding object_delta object_unchanged change_of_new change_of_both
object_aligner = record {
  key = λ s. s.hash;
  only_target = λ t. object_delta no_object t (change_of_new t.present);
  only_baseline = λ b. object_delta b no_object change_deleted;
  both = λ b t. object_delta b t (change_of_both b.present t.present);
  unchanged = object_unchanged;
}
