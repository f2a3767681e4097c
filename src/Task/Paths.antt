-- ===== src/Task/Paths.antt =====
-- The path checks of internal/task/service.go. A clean absolute path is the list of its parts, and
-- the Go functions on paths are those of a Unix system: Join cleans what it joins, and Rel is `..`
-- for each part left of its base and then the rest of its target, in parts.
pub mod Contained
use etcd_space_inspector.Prelude.{
  ℕ, ◌≡◌, Bool, true, false, ◌&&◌, ◌||◌, not, Option, none, some, List, [], ◌∷◌, ◌++◌, ◌==◌,
  if◌then◌else◌,
}
use etcd_space_inspector.Prelude.Bytes.{Bytes, text, same}
use etcd_space_inspector.Prelude.Strings.{split, contains_byte, trim_right}

abbrev pub backslash : ℕ
backslash = 92

abbrev pub up : Bytes
up = text ".."

abbrev pub here : Bytes
here = text "."

-- The last part, or `last` where there is none.
abbrev pub last_part : Bytes → List Bytes → Bytes
last_part last [] = last
last_part last (p ∷ ps) = last_part p ps

-- filepath.Base
unfoldable pub base : Bytes → Bytes
unfolding same split trim_right
base path =
    if same path []
    then here
    else if same (trim_right b'/' path) []
    then text "/"
    else last_part [] (split b'/' (trim_right b'/' path))

-- validID, and validTaskID of internal/worker/protocol.go; true is valid.
unfoldable pub valid_id : Bytes → Bool
unfolding base contains_byte
valid_id id =
    not (same id [])
    && not (same id here)
    && not (same id up)
    && same (base id) id
    && not (contains_byte b'/' id)
    && not (contains_byte backslash id)

-- All but the last part; the root stays.
abbrev pub parent : List Bytes → List Bytes
parent [] = []
parent (p ∷ []) = []
parent (p ∷ q ∷ ps) = p ∷ parent (q ∷ ps)

-- One part of a path, on the clean path before it.
unfoldable pub enter : List Bytes → Bytes → List Bytes
unfolding same
enter dir part =
    if same part [] || same part here
    then dir
    else if same part up
    then parent dir
    else dir ++ part ∷ []

-- filepath.Join of a clean absolute path and a relative one.
unfoldable pub join : List Bytes → List Bytes → List Bytes
unfolding enter
join dir [] = dir
join dir (p ∷ ps) = join (enter dir p) ps

abbrev pub ups : List Bytes → List Bytes → List Bytes
ups [] rest = rest
ups (p ∷ ps) rest = up ∷ ups ps rest

-- filepath.Rel; `[]` is the path `.`.
unfoldable pub rel : List Bytes → List Bytes → List Bytes
unfolding same
rel [] target = target
rel (p ∷ ps) [] = ups (p ∷ ps) []
rel (p ∷ ps) (t ∷ ts) = let rest = rel ps ts in if same p t then rest else ups (p ∷ ps) (t ∷ ts)

-- The path is `..` or starts with it.
abbrev pub leads_up : List Bytes → Bool
leads_up [] = false
leads_up (p ∷ ps) = same p up

pub data PathError : Type 0 where
  bad_id : PathError
  bad_path : PathError
  absolute : PathError
  escapes : PathError

pub data Resolved : Type 0 where
  resolved : List Bytes → Resolved
  refused : PathError → Resolved

abbrev pub is_absolute : Bytes → Bool
is_absolute [] = false
is_absolute (c ∷ cs) = c == b'/'

abbrev pub within_root : List Bytes → List Bytes → Resolved
within_root root target = if leads_up (rel root target) then refused escapes else resolved target

-- The directory that removeTaskPath removes.
abbrev pub one_part : List Bytes → List Bytes → Resolved
one_part target (p ∷ []) =
    if same p up then refused escapes else if valid_id p then resolved target else refused bad_id
one_part target [] = refused escapes
one_part target (p ∷ q ∷ ps) = if same p up then refused escapes else refused bad_id

module _ (data_dir : List Bytes) where
  abbrev pub tasks_dir : List Bytes
  tasks_dir = data_dir ++ text "tasks" ∷ []

  -- TaskDir, for an id of any form.
  unfoldable pub task_dir : Bytes → List Bytes
  unfolding join split
  task_dir id = join tasks_dir (split b'/' id)

  -- ResolveTaskRelative
  unfoldable pub resolve_task_relative : Bytes → Bytes → Resolved
  unfolding valid_id task_dir rel
  resolve_task_relative id relative =
      if not (valid_id id)
      then refused bad_id
      else if same relative [] || contains_byte backslash relative
      then refused bad_path
      else if is_absolute relative
      then refused absolute
      else within_root (task_dir id) (join (task_dir id) (split b'/' relative))

  unfoldable pub remove_task_path : Bytes → Resolved
  unfolding task_dir rel valid_id
  remove_task_path id = one_part (task_dir id) (rel tasks_dir (task_dir id))
