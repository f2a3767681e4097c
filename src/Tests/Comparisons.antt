-- ===== src/Tests/Comparisons.antt =====
-- Two small analyses compared, for internal/diff/calculator.go.
use etcd_space_inspector.Prelude.{
  ℕ, ◌-◌, ◌/◌, ◌≡◌, ◌≤◌, refl, Bool, true, false, ◌||◌, none, some, List, [], ◌∷◌, ◌↔◌, arith,
  if◌then◌else◌, ◌==◌,
}
use etcd_space_inspector.Prelude.Bytes.{Bytes, text, same, less}
use etcd_space_inspector.Prelude.Strings.{split}
use etcd_space_inspector.Prelude.Word.{sub64, add64}
use etcd_space_inspector.Diff.Rows.{
  Result, ok, Rows, broken, row, query_failed, store_failed, of_list, answers, rows_read,
}
use etcd_space_inspector.Diff.Join.{Pair, paired}
use etcd_space_inspector.Diff.Aligner.{Env, Run, Outcome, compare_rows}
use etcd_space_inspector.Diff.Aligner.Delivery.{Ends}
use etcd_space_inspector.Diff.Aligner.Delivered.{reported}
use etcd_space_inspector.Diff.Delta.{KeyState, KeyDelta, key_aligner, ObjectState, object_aligner}
use etcd_space_inspector.Diff.Delta.Totals.{total-key_items, key_items}
use etcd_space_inspector.Diff.Delta.Changes.{
  Says, report, differs, change-exact, key_items-Ascending, was_present, is_present, one_sided,
}
use etcd_space_inspector.Diff.Delta.{change_added, change_deleted, change_modified, KeyDelta}
use etcd_space_inspector.Diff.Join.{join, Ascending}
use etcd_space_inspector.Prelude.Word.{total}
use etcd_space_inspector.Diff.Summary.{
  compare_mvcc, compare_physical, compare_kubernetes, compatible_versions,
}
use etcd_space_inspector.Diff.Parts.{
  Floats, found, no_rows, SourceTask, MvccSummary, KubernetesSummary, MvccPart,
}
use etcd_space_inspector.Diff.Summary.{no_mvcc}
use etcd_space_inspector.Diff.Parts.{incompatible_versions}
use etcd_space_inspector.Diff.Compare.{
  Database, Call, compare, compare_with, store_keys, check_context, compare_distinct, send,
  save_and_compare, summarize, semantic_rows, kubernetes_rows, compare_keys, compare_prefixes,
  compare_objects, compare_resources, compare_namespaces,
}
use etcd_space_inspector.Diff.Groups.{prefix_aligner, resource_aligner, namespace_aligner}
use etcd_space_inspector.Diff.Compare.Complete.{Reached, compare_with-Ends}
use etcd_space_inspector.Diff.Compare.Whole.{Complete, compare-Complete, compare-Reached}

-- Numbers in place of floats.
abbrev floats : Floats ℕ
floats = record { none_yet = 0; minus = λ a b. a - b; ratio = λ a b. a / b }

abbrev key_row : Bytes → Bool → ℕ → KeyState
key_row hash present bytes = record {
  hash = hash;
  key_text = text "key";
  prefix = text "/registry";
  present = present;
  current = bytes;
  historical = 2;
  tombstone = 0;
  revisions = 1;
}

abbrev object_row : Bytes → ℕ → ObjectState
object_row hash bytes = record {
  hash = hash;
  group = text "apps";
  resource = text "deployments";
  namespace = text "default";
  display = text "web";
  present = true;
  current = bytes;
  historical = 0;
  revisions = 1;
}

abbrev old_keys : List KeyState
old_keys = key_row (text "a") true 10 ∷ key_row (text "b") true 20 ∷ key_row (text "c") true 30 ∷ []

abbrev new_keys : List KeyState
new_keys = key_row (text "b") true 25 ∷ key_row (text "c") true 30 ∷ key_row (text "d") true 7 ∷ []

abbrev semantics : ℕ → MvccSummary
semantics n = record {
  available = true;
  revisions = n;
  current_keys = 3;
  current_bytes = 60;
  history_versions = 3;
  history_bytes = 6;
  tombstones = 0;
  tombstone_bytes = 0;
}

abbrev objects : ℕ → KubernetesSummary
objects n = record { available = true; objects = n; current_bytes = 10; history_bytes = 0 }

abbrev database : List KeyState → List ObjectState → Database ℕ
database keys objs = record {
  physical = no_rows;
  mvcc = found (semantics 5);
  kubernetes = found (objects 1);
  keys = ok (of_list keys);
  prefixes = ok (of_list []);
  objects = ok (of_list objs);
  resources = ok (of_list []);
  namespaces = ok (of_list []);
}

abbrev baseline : SourceTask
baseline = record { id = text "one"; etcd_version = text "3.4.1" }

abbrev target : SourceTask
target = record { id = text "two"; etcd_version = text "3.4.9" }

abbrev quiet : Env
quiet = record { poll = λ n. none; fault = λ n. none }

abbrev silent : Run (Call ℕ)
silent = record { log = []; polls = 0 }

abbrev one_key : Database ℕ
one_key = database (key_row (text "a") true 10 ∷ []) []

abbrev two_keys : Database ℕ
two_keys = database (key_row (text "a") true 12 ∷ []) (object_row (text "o") 9 ∷ [])

abbrev end_of : Outcome (Call ℕ) → Run (Call ℕ)
end_of none = silent
end_of (some (e, r)) = r

abbrev fine : Outcome (Call ℕ) → Bool
fine (some (none, r)) = true
fine _ = false

abbrev compared : Outcome (Call ℕ)
compared = compare floats baseline target 3000000000 quiet 2 one_key two_keys silent

fine-end : (x : Outcome (Call ℕ)) → fine x ≡ true → x ≡ some (none, end_of x)
fine-end none h = absurd (ground arith)
fine-end (some (none, r)) h = refl
fine-end (some (some e, r)) h = absurd (ground arith)

compared-fine : fine compared ≡ true
unfolding compare check_context compare_distinct send same save_and_compare summarize
    compare_physical compare_mvcc compare_kubernetes semantic_rows kubernetes_rows compare_keys
    compare_prefixes compare_objects compare_resources compare_namespaces compatible_versions split
    of_list less answers rows_read compare_with compare_rows key_aligner object_aligner
    prefix_aligner resource_aligner namespace_aligner sub64 add64
compared-fine = refl

two_pos : 1 ≤ 2
two_pos = omega arith

compare-Complete_example :
    Complete floats baseline target 3000000000 quiet 2 two_pos one_key two_keys []
      (end_of compared).log
compare-Complete_example =
    compare-Complete floats baseline target 3000000000 quiet 2 two_pos one_key two_keys silent
      (end_of compared) (fine-end compared compared-fine)

compare-Reached_example :
    Reached (compare floats baseline target 3000000000 quiet 2 one_key two_keys silent)
compare-Reached_example =
    compare-Reached floats baseline target 3000000000 quiet 2 two_pos one_key two_keys silent

-- The target's query breaks off, and the second call of the sink fails.
abbrev broken_rows : Result (Rows KeyState)
broken_rows =
    ok
      (row (key_row (text "b") true 25) (row (key_row (text "d") true 7) (broken (query_failed 1))))

abbrev failing : Env
failing = record { poll = λ n. none; fault = λ n. if n == 1 then some (store_failed n) else none }

abbrev stored_keys : List KeyDelta → Call ℕ
stored_keys l = store_keys l

compare_with-Ends_example :
    Ends key_aligner stored_keys failing 2 two_pos [] []
      (reported key_aligner
        (join key_aligner.key (answers (ok (of_list old_keys))) (answers broken_rows)))
      (compare_with key_aligner stored_keys failing 2 (ok (of_list old_keys)) broken_rows silent)
compare_with-Ends_example =
    compare_with-Ends key_aligner stored_keys failing 2 two_pos (ok (of_list old_keys)) broken_rows
      silent

total-key_items_example :
    (total (λ d. d.current_bytes_delta) (key_items old_keys new_keys)
      ≡ sub64 (total (λ s. s.current) new_keys) (total (λ s. s.current) old_keys))
    × (total (λ d. d.historical_bytes_delta) (key_items old_keys new_keys)
        ≡ sub64 (total (λ s. s.historical) new_keys) (total (λ s. s.historical) old_keys))
    × (total (λ d. d.tombstone_bytes_delta) (key_items old_keys new_keys)
        ≡ sub64 (total (λ s. s.tombstone) new_keys) (total (λ s. s.tombstone) old_keys))
    × (total (λ d. d.revision_count_delta) (key_items old_keys new_keys)
        ≡ sub64 (total (λ s. s.revisions) new_keys) (total (λ s. s.revisions) old_keys))
total-key_items_example = total-key_items old_keys new_keys

abbrev old_objects : List ObjectState
old_objects = object_row (text "a") 10 ∷ object_row (text "c") 5 ∷ []

abbrev new_objects : List ObjectState
new_objects = object_row (text "a") 4 ∷ object_row (text "b") 6 ∷ []

abbrev revived : Pair KeyState
revived = paired (key_row (text "b") false 0) (key_row (text "b") true 4)

change-exact_example :
    (Says change_added revived ↔ ((was_present revived ≡ false) × (is_present revived ≡ true)))
    × (Says change_deleted revived
        ↔ ((is_present revived ≡ false) × ((was_present revived || one_sided revived) ≡ true)))
    × (Says change_modified revived ↔ (
        (one_sided revived ≡ false)
        × (was_present revived ≡ is_present revived)
        × (differs revived ≡ true)))
    × ((report revived ≡ []) ↔ (
        (one_sided revived ≡ false)
        × (was_present revived ≡ is_present revived)
        × (differs revived ≡ false)))
change-exact_example = change-exact revived

old-Ascending : Ascending (λ s. s.hash) old_keys
unfolding less
old-Ascending = ((refl, (refl, tt)), ((refl, tt), (tt, tt)))

new-Ascending : Ascending (λ s. s.hash) new_keys
unfolding less
new-Ascending = ((refl, (refl, tt)), ((refl, tt), (tt, tt)))

key_items-Ascending_example : Ascending (λ d. d.key_hash) (key_items old_keys new_keys)
key_items-Ascending_example = key_items-Ascending old_keys new_keys old-Ascending new-Ascending

abbrev found_part : MvccPart ℕ
found_part = no_mvcc floats incompatible_versions

abbrev old_release : SourceTask
old_release = record { id = text "zero"; etcd_version = text "3.3.9" }

gate-computes :
    compare_mvcc floats old_release target 0 (found (semantics 5)) (found (semantics 9))
    ≡ ok found_part
unfolding compare_mvcc compatible_versions split same
gate-computes = refl
