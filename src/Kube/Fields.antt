-- ===== src/Kube/Fields.antt =====
-- CompareFields of internal/kube/diff.go. A Go map is a list of entries with different paths; a `range`
-- over it gives them in some order, so the two lists of `compare_maps` are the entries in the order of
-- one run.
pub mod Balance
pub mod Paths
pub mod Flags
pub mod Index
use etcd_space_inspector.Prelude.{
  ℕ, ◌+◌, Bool, true, false, ◌&&◌, ◌||◌, not, Option, none, some, List, [], ◌∷◌, ◌++◌, ◌==◌,
  if◌then◌else◌,
}
use etcd_space_inspector.Prelude.Bytes.{Bytes, text, same, less}
use etcd_space_inspector.Prelude.Strings.{has_prefix, is_some}
use etcd_space_inspector.Prelude.Word.{add64, sub64}

pub record FieldStat : Type 0 where
  pub path : Bytes
  pub byte_size : ℕ
  pub type_class : Bytes
  pub hash : Bytes

pub record DiffRecord : Type 0 where
  pub added_paths : List Bytes
  pub removed_paths : List Bytes
  pub modified_paths : List Bytes
  pub byte_delta : ℕ
  pub timestamp_only : Bool
  pub status_only : Bool
  pub managed_fields_only : Bool

-- The variables of the two loops.
pub record Changes : Type 0 where
  pub added : List Bytes
  pub removed : List Bytes
  pub modified : List Bytes
  pub delta : ℕ
  pub changed : List Bytes

unfoldable pub look : Bytes → List FieldStat → Option FieldStat
look p [] = none
look p (f ∷ fs) = if same f.path p then some f else look p fs

-- result[field.Path] = field
unfoldable pub put_field : FieldStat → List FieldStat → List FieldStat
put_field f [] = f ∷ []
put_field f (g ∷ gs) = if same g.path f.path then f ∷ gs else g ∷ put_field f gs

unfoldable pub index_on : List FieldStat → List FieldStat → List FieldStat
unfolding put_field
index_on m [] = m
index_on m (f ∷ fs) = index_on (put_field f m) fs

unfoldable pub index_fields : List FieldStat → List FieldStat
unfolding index_on
index_fields fields = index_on [] fields

-- One turn of the loop over the old fields, given the new field of that path.
unfoldable pub see_before : Option FieldStat → FieldStat → Changes → Changes
see_before none f c = record c {
  removed = c.removed ++ f.path ∷ [];
  delta = sub64 c.delta f.byte_size;
  changed = c.changed ++ f.path ∷ [];
}
see_before (some n) f c =
    if not (same f.hash n.hash) || not (f.byte_size == n.byte_size)
    then record c {
      modified = c.modified ++ f.path ∷ [];
      delta = add64 c.delta (sub64 n.byte_size f.byte_size);
      changed = c.changed ++ f.path ∷ [];
    }
    else c

unfoldable pub loop_before : List FieldStat → List FieldStat → Changes → Changes
unfolding see_before look
loop_before after [] c = c
loop_before after (f ∷ fs) c = loop_before after fs (see_before (look f.path after) f c)

-- One turn of the loop over the new fields, given the old field of that path.
unfoldable pub see_after : Option FieldStat → FieldStat → Changes → Changes
see_after (some g) f c = c
see_after none f c = record c {
  added = c.added ++ f.path ∷ [];
  delta = add64 c.delta f.byte_size;
  changed = c.changed ++ f.path ∷ [];
}

unfoldable pub loop_after : List FieldStat → List FieldStat → Changes → Changes
unfolding see_after look
loop_after before [] c = c
loop_after before (f ∷ fs) c = loop_after before fs (see_after (look f.path before) f c)

-- sort.Strings, by insertion.
unfoldable pub insert_path : Bytes → List Bytes → List Bytes
insert_path p [] = p ∷ []
insert_path p (q ∷ qs) = let rest = insert_path p qs in if less q p then q ∷ rest else p ∷ q ∷ qs

unfoldable pub sort_paths : List Bytes → List Bytes
unfolding insert_path
sort_paths [] = []
sort_paths (p ∷ ps) = insert_path p (sort_paths ps)

unfoldable pub all_hold : (Bytes → Bool) → List Bytes → Bool
all_hold test [] = true
all_hold test (p ∷ ps) = test p && all_hold test ps

unfoldable pub all_paths : (Bytes → Bool) → List Bytes → Bool
unfolding all_hold
all_paths test [] = false
all_paths test (p ∷ ps) = all_hold test (p ∷ ps)

unfoldable pub is_managed : Bytes → Bool
is_managed p =
    same p (text "metadata.managedFields") || has_prefix p (text "metadata.managedFields.")

unfoldable pub is_status : Bytes → Bool
is_status p = same p (text "status") || has_prefix p (text "status.")

module _ (is_timestamp : Bytes → Bool) where
  -- timestampOnly, with `found` as it stands.
  unfoldable pub timestamp_on : Bool → List Bytes → Bool
  timestamp_on found [] = found
  timestamp_on found (p ∷ ps) =
      let skipped = timestamp_on found ps in
      let counted = timestamp_on true ps in
      if same p (text "metadata") || same p (text "spec") || same p (text "status")
      then skipped
      else if not (is_timestamp p)
      then false
      else counted

abbrev pub no_changes : Changes
no_changes = record { added = []; removed = []; modified = []; delta = 0; changed = [] }

-- strings.HasSuffix
unfoldable pub has_suffix : Bytes → Bytes → Bool
has_suffix [] suffix = same [] suffix
has_suffix (x ∷ xs) suffix = same (x ∷ xs) suffix || has_suffix xs suffix

abbrev pub timestamp_names : List Bytes
timestamp_names =
    text "creationTimestamp"
    ∷ text "deletionTimestamp"
    ∷ text "lastTimestamp"
    ∷ text "eventTime"
    ∷ text "heartbeatTime"
    ∷ text "renewTime"
    ∷ text "lastTransitionTime"
    ∷ text "lastUpdateTime"
    ∷ []

unfoldable pub is_timestamp_path : List Bytes → Bytes → Bool
unfolding has_suffix
is_timestamp_path [] p = false
is_timestamp_path (s ∷ ss) p = (has_suffix p (text "." ++ s) || same p s) || is_timestamp_path ss p

unfoldable pub finish_record : Changes → DiffRecord
unfolding sort_paths all_paths is_managed is_status timestamp_on is_timestamp_path
finish_record c = record {
  added_paths = sort_paths c.added;
  removed_paths = sort_paths c.removed;
  modified_paths = sort_paths c.modified;
  byte_delta = c.delta;
  timestamp_only = timestamp_on (is_timestamp_path timestamp_names) false c.changed;
  status_only = all_paths is_status c.changed;
  managed_fields_only = all_paths is_managed c.changed;
}

unfoldable pub compare_maps : List FieldStat → List FieldStat → DiffRecord
unfolding loop_before loop_after finish_record
compare_maps before after =
    finish_record (loop_after before after (loop_before after before no_changes))
