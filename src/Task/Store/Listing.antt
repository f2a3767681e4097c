-- ===== src/Task/Store/Listing.antt =====
-- List of internal/task/service.go: every task, the newest first. sort.Slice is an insertion.
use etcd_space_inspector.Prelude.{
  ℕ, ◌+◌, ◌≤◌, ◌≡◌, ◌⊎◌, inl, inr, refl, ◌∙◌, Bool, true, false, ◌&&◌, List, [], ◌∷◌, if◌then◌else◌,
  Bool-cases, All, arith, ltb,
}
use etcd_space_inspector.Prelude.Sums.{sum}
use etcd_space_inspector.Prelude.Bytes.{Bytes}
use etcd_space_inspector.Task.Manifest.{Manifest}
use etcd_space_inspector.Task.Paths.{valid_id}
use etcd_space_inspector.Task.Store.{list_failed, Dirs, Result, ok, failed, get}

pub record Entry : Type 0 where
  pub name : Bytes
  pub is_dir : Bool

-- os.ReadDir
pub data Entries : Type 0 where
  no_tasks : Entries
  not_read : Entries
  entries : List Entry → Entries

unfoldable pub is_task : Entry → Bool
unfolding valid_id
is_task e = e.is_dir && valid_id e.name

abbrev pub IsFailed : {A : Type 0} → Result A → Type 0
IsFailed (ok a) = ⊥
IsFailed (failed e) = Unit

module _ {F : Type 0} where
  abbrev pub prepend : Result (Manifest F) → Result (List (Manifest F)) → Result (List (Manifest F))
  prepend (failed e) rest = failed e
  prepend (ok m) (failed e) = failed e
  prepend (ok m) (ok ms) = ok (m ∷ ms)

  -- The loop over the entries.
  unfoldable pub list_items : Bool → Dirs F → List Entry → Result (List (Manifest F))
  unfolding is_task get
  list_items fails dirs [] = ok []
  list_items fails dirs (e ∷ es) =
      let rest = list_items fails dirs es in
      if is_task e then prepend (get fails e.name dirs) rest else rest

  unfoldable pub insert_newest : Manifest F → List (Manifest F) → List (Manifest F)
  insert_newest m [] = m ∷ []
  insert_newest m (n ∷ ns) =
      let rest = insert_newest m ns in
      if ltb m.created_at n.created_at then n ∷ rest else m ∷ n ∷ ns

  unfoldable pub newest_first : List (Manifest F) → List (Manifest F)
  unfolding insert_newest
  newest_first [] = []
  newest_first (m ∷ ms) = insert_newest m (newest_first ms)

  abbrev pub sorted_items : Result (List (Manifest F)) → Result (List (Manifest F))
  sorted_items (failed e) = failed e
  sorted_items (ok ms) = ok (newest_first ms)

  unfoldable pub list : Bool → Dirs F → Entries → Result (List (Manifest F))
  unfolding list_items newest_first
  list fails dirs no_tasks = ok []
  list fails dirs not_read = failed list_failed
  list fails dirs (entries es) = sorted_items (list_items fails dirs es)

  -- Newest first.
  abbrev pub Descending : List (Manifest F) → Type 0
  Descending [] = Unit
  Descending (m ∷ ms) = All (λ (n : Manifest F). n.created_at ≤ m.created_at) ms × Descending ms

  -- What an entry has to give to the list.
  abbrev pub weight_of : (Manifest F → ℕ) → Result (Manifest F) → ℕ
  weight_of f (failed e) = 0
  weight_of f (ok m) = f m

  abbrev pub entry_weight : Bool → Dirs F → (Manifest F → ℕ) → Entry → ℕ
  entry_weight fails dirs f e = if is_task e then weight_of f (get fails e.name dirs) else 0

  -- An entry that List takes for a task and whose manifest Get does not give.
  pub data Unread (fails : Bool) (dirs : Dirs F) : List Entry → Type 0 where
    this :
        {e : Entry} {es : List Entry}
        → is_task e ≡ true
        → IsFailed (get fails e.name dirs)
        → Unread fails dirs (e ∷ es)
    that : {e : Entry} {es : List Entry} → Unread fails dirs es → Unread fails dirs (e ∷ es)

  insert_newest-sum :
      (f : Manifest F → ℕ) (m : Manifest F) (ms : List (Manifest F))
      → sum f (insert_newest m ms) ≡ f m + sum f ms
  unfolding insert_newest
  insert_newest-sum f m [] = refl
  insert_newest-sum f m (n ∷ ns) = ground (arith, insert_newest-sum f m ns)

  newest_first-sum :
      (f : Manifest F → ℕ) (ms : List (Manifest F)) → sum f (newest_first ms) ≡ sum f ms
  unfolding newest_first
  newest_first-sum f [] = refl
  newest_first-sum f (m ∷ ms) =
      ground (arith, insert_newest-sum f m (newest_first ms), newest_first-sum f ms)

  abbrev Older : ℕ → List (Manifest F) → Type 0
  Older t ms = All (λ (n : Manifest F). n.created_at ≤ t) ms

  insert_newest-Older :
      (t : ℕ) (m : Manifest F) (ms : List (Manifest F))
      → m.created_at ≤ t
      → Older t ms
      → Older t (insert_newest m ms)
  unfolding insert_newest
  insert_newest-Older t m [] h a = (h, tt)
  insert_newest-Older t m (n ∷ ns) h (b, a) =
      let ih = insert_newest-Older t m ns h a in ground arith

  Older-weaker : (s t : ℕ) (ms : List (Manifest F)) → s ≤ t → Older s ms → Older t ms
  Older-weaker s t [] h a = tt
  Older-weaker s t (n ∷ ns) h (b, a) = (omega arith, Older-weaker s t ns h a)

  insert_newest-Descending :
      (m : Manifest F) (ms : List (Manifest F)) → Descending ms → Descending (insert_newest m ms)
  unfolding insert_newest
  insert_newest-Descending m [] h = (tt, tt)
  insert_newest-Descending m (n ∷ ns) (a, d) =
      let ih = insert_newest-Descending m ns d in
      elim (Bool-cases (ltb m.created_at n.created_at)) [
        | inl e ↦ rw e (insert_newest-Older n.created_at m ns (ground arith) a, ih)
        | inr e ↦
            rw e
              (((ground arith), Older-weaker n.created_at m.created_at ns (ground arith) a), (a, d))
      ]

  newest_first-Descending : (ms : List (Manifest F)) → Descending (newest_first ms)
  unfolding newest_first
  newest_first-Descending [] = tt
  newest_first-Descending (m ∷ ms) =
      insert_newest-Descending m (newest_first ms) (newest_first-Descending ms)

  -- What the loop over the entries gives.
  abbrev Looped : Bool → Dirs F → List Entry → Result (List (Manifest F)) → Type 0
  Looped fails dirs es (failed e) = Unread fails dirs es
  Looped fails dirs es (ok ms) =
      ((f : Manifest F → ℕ) → sum f ms ≡ sum (entry_weight fails dirs f) es)
      × ¬ Unread fails dirs es

  nothing-Unread : (fails : Bool) (dirs : Dirs F) → ¬ Unread fails dirs []
  nothing-Unread fails dirs h = elim h [ ]

  read_here :
      (fails : Bool) (dirs : Dirs F) (e : Entry) (es : List Entry)
      → (is_task e ≡ false) ⊎ ((m : Manifest F) × (get fails e.name dirs ≡ ok m))
      → ¬ Unread fails dirs es
      → ¬ Unread fails dirs (e ∷ es)
  read_here fails dirs e es (inl h) k (this t x) = absurd (ground arith)
  read_here fails dirs e es (inr (m, h)) k (this t x) = rw h at x
  read_here fails dirs e es h k (that u) = k u

  prepend-Looped :
      (fails : Bool) (dirs : Dirs F) (e : Entry) (es : List Entry)
      → is_task e ≡ true
      → (r : Result (Manifest F)) → get fails e.name dirs ≡ r
      → (rest : Result (List (Manifest F))) → Looped fails dirs es rest
      → Looped fails dirs (e ∷ es) (prepend r rest)
  prepend-Looped fails dirs e es t (failed x) h rest l = this t (rw h tt)
  prepend-Looped fails dirs e es t (ok m) h (failed x) l = that l
  prepend-Looped fails dirs e es t (ok m) h (ok ms) (l, k) =
      (λ f. ground (arith, l f), read_here fails dirs e es (inr (m, h)) k)

  Looped-if :
      (fails : Bool) (dirs : Dirs F) (e : Entry) (es : List Entry) (b : Bool)
      (r : Result (Manifest F))
      → is_task e ≡ b
      → get fails e.name dirs ≡ r
      → (rest : Result (List (Manifest F))) → Looped fails dirs es rest
      → Looped fails dirs (e ∷ es) (if b then prepend r rest else rest)
  Looped-if fails dirs e es true r t h rest l = prepend-Looped fails dirs e es t r h rest l
  Looped-if fails dirs e es false r t h (failed x) l = that l
  Looped-if fails dirs e es false r t h (ok ms) (l, k) =
      (λ f. ground (arith, l f), read_here fails dirs e es (inl t) k)

  list_items-Looped :
      (fails : Bool) (dirs : Dirs F) (es : List Entry)
      → Looped fails dirs es (list_items fails dirs es)
  unfolding list_items
  list_items-Looped fails dirs [] = (λ f. refl, nothing-Unread fails dirs)
  list_items-Looped fails dirs (e ∷ es) =
      Looped-if fails dirs e es (is_task e) (get fails e.name dirs) refl refl
        (list_items fails dirs es) (list_items-Looped fails dirs es)

  -- An answer of List: with an error, the tasks could not be read or one of them has no manifest
  -- that can be; otherwise each task is listed as often as its directory, and the newest first.
  abbrev pub Listed : Bool → Dirs F → Entries → Result (List (Manifest F)) → Type 0
  Listed fails dirs no_tasks r = r ≡ ok []
  Listed fails dirs not_read r = r ≡ failed list_failed
  Listed fails dirs (entries es) (failed e) = Unread fails dirs es
  Listed fails dirs (entries es) (ok ms) =
      ((f : Manifest F → ℕ) → sum f ms ≡ sum (entry_weight fails dirs f) es)
      × ¬ Unread fails dirs es
      × Descending ms

  sorted_items-Listed :
      (fails : Bool) (dirs : Dirs F) (es : List Entry) (r : Result (List (Manifest F)))
      → Looped fails dirs es r
      → Listed fails dirs (entries es) (sorted_items r)
  sorted_items-Listed fails dirs es (failed e) l = l
  sorted_items-Listed fails dirs es (ok ms) (l, k) =
      (λ f. newest_first-sum f ms ∙ l f, k, newest_first-Descending ms)

  -- List gives every directory with a valid id once, the newest task first; it gives an error instead
  -- exactly where the directory of the tasks, or the manifest of one task in it, cannot be read.
  pub list-Listed :
      (fails : Bool) (dirs : Dirs F) (es : Entries) → Listed fails dirs es (list fails dirs es)
  unfolding list
  list-Listed fails dirs no_tasks = refl
  list-Listed fails dirs not_read = refl
  list-Listed fails dirs (entries es) =
      sorted_items-Listed fails dirs es (list_items fails dirs es) (list_items-Looped fails dirs es)
