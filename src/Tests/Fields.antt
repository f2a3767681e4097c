-- ===== src/Tests/Fields.antt =====
-- Two field lists of one object, for internal/kube/diff.go.
use etcd_space_inspector.Prelude.{ℕ, ◌≡◌, refl, true, ◌&&◌, not, List, [], ◌∷◌}
use etcd_space_inspector.Prelude.Bytes.{Bytes, text, same}
use etcd_space_inspector.Prelude.Strings.{is_some, has_prefix}
use etcd_space_inspector.Prelude.Word.{sub64, total}
use etcd_space_inspector.Kube.Fields.{FieldStat, look, compare_maps}
use etcd_space_inspector.Kube.Fields.Balance.{Unique, byte_delta-compare_maps}
use etcd_space_inspector.Kube.Fields.Paths.{contains, differ, paths-compare_maps}
use etcd_space_inspector.Kube.Fields.Flags.{is_changed}

abbrev field : Bytes → ℕ → Bytes → FieldStat
field path size hash = record {
  path = path;
  byte_size = size;
  type_class = text "string";
  hash = hash;
}

abbrev old_fields : List FieldStat
old_fields =
    field (text "spec") 10 (text "a")
    ∷ field (text "status.phase") 7 (text "b")
    ∷ field (text "kind") 4 (text "c")
    ∷ []

abbrev new_fields : List FieldStat
new_fields =
    field (text "kind") 4 (text "c")
    ∷ field (text "spec") 12 (text "d")
    ∷ field (text "metadata") 3 (text "e")
    ∷ []

old-Unique : Unique old_fields
unfolding look same
old-Unique = (refl, (refl, (refl, tt)))

new-Unique : Unique new_fields
unfolding look same
new-Unique = (refl, (refl, (refl, tt)))

byte_delta-compare_maps_example :
    (compare_maps old_fields new_fields).byte_delta
    ≡ sub64 (total (λ f. f.byte_size) new_fields) (total (λ f. f.byte_size) old_fields)
byte_delta-compare_maps_example =
    byte_delta-compare_maps old_fields new_fields old-Unique new-Unique

paths-compare_maps_example :
    (contains (text "spec") (compare_maps old_fields new_fields).added_paths
      ≡ (is_some (look (text "spec") new_fields) && not (is_some (look (text "spec") old_fields))))
    × (contains (text "spec") (compare_maps old_fields new_fields).removed_paths ≡ (
        is_some (look (text "spec") old_fields) && not (is_some (look (text "spec") new_fields))))
    × (contains (text "spec") (compare_maps old_fields new_fields).modified_paths
        ≡ differ (look (text "spec") old_fields) (look (text "spec") new_fields))
paths-compare_maps_example = paths-compare_maps old_fields new_fields (text "spec") old-Unique

abbrev repeated : List FieldStat
repeated =
    field (text "spec") 10 (text "a")
    ∷ field (text "kind") 4 (text "c")
    ∷ field (text "spec") 12 (text "d")
    ∷ []

abbrev old_status : List FieldStat
old_status = field (text "kind") 4 (text "c") ∷ field (text "status.phase") 7 (text "b") ∷ []

abbrev new_status : List FieldStat
new_status = field (text "kind") 4 (text "c") ∷ field (text "status.phase") 9 (text "d") ∷ []

status-Unique : Unique old_status
unfolding look same
status-Unique = (refl, (refl, tt))

status-marked : (compare_maps old_status new_status).status_only ≡ true
unfolding compare_maps look same has_prefix
status-marked = refl

phase-changed :
    is_changed (look (text "status.phase") old_status) (look (text "status.phase") new_status)
    ≡ true
unfolding look same
phase-changed = refl

abbrev managed : Bytes
managed = text "metadata.managedFields"

abbrev old_managed : List FieldStat
old_managed = field managed 4 (text "c") ∷ []

abbrev new_managed : List FieldStat
new_managed = field managed 14 (text "d") ∷ []

managed-Unique : Unique old_managed
unfolding look
managed-Unique = (refl, tt)

managed-marked : (compare_maps old_managed new_managed).managed_fields_only ≡ true
unfolding compare_maps look same has_prefix
managed-marked = refl

managed-changed : is_changed (look managed old_managed) (look managed new_managed) ≡ true
unfolding look same
managed-changed = refl
