-- ===== src/App/Recovery/Swept.antt =====
-- What a start of the application does to the tasks that it finds.
use etcd_space_inspector.Prelude.{
  ℕ, ◌≡◌, ◌≢◌, ◌≤◌, ◌<◌, ◌⊎◌, inl, inr, refl, ◌∙◌, Bool, true, false, ◌&&◌, ◌||◌, not, Option, none,
  some, List, [], ◌∷◌, arith, All, Bool-cases, ap, sym, leb, ◌==◌, if◌then◌else◌,
}
use etcd_space_inspector.Prelude.Bytes.{Bytes, same, same-iff_eq}
use etcd_space_inspector.Task.Status.{Status}
use etcd_space_inspector.Task.Manifest.{Manifest}
use etcd_space_inspector.Task.Paths.{valid_id}
use etcd_space_inspector.Task.Lease.{
  LockFile, absent, unreadable, holds, LeaseRecord, age, lease_stale,
}
use etcd_space_inspector.Task.Store.{
  readable, Dir, Dirs, Faults, Result, ok, failed, manifest_of, save,
}
use etcd_space_inspector.Task.Store.Kept.{Either, Either-if, Written, write_manifest-Either}
use etcd_space_inspector.App.Recovery.{
  Start, stale_after, is_managed_input, in_progress, is_pending, database_fails, interrupted,
  not_recovered, lease_verdict, verdict, settle, and_then, recover_items, recover_listed,
  recover_tasks, listed_tasks,
}

-- A lock file without a heartbeat in the last fifteen seconds, and one with.
abbrev pub Silent : ℕ → LockFile → Type 0
Silent now absent = Unit
Silent now unreadable = ⊥
Silent now (holds r) = stale_after ≤ age now r.heartbeat_at

abbrev pub Beating : ℕ → LockFile → Type 0
Beating now absent = ⊥
Beating now unreadable = ⊥
Beating now (holds r) = age now r.heartbeat_at < stale_after

late_enough : (a : ℕ) → (stale_after == 0 || leb stale_after a) ≡ true → stale_after ≤ a
late_enough a h = ground arith

soon_enough : (a : ℕ) → (stale_after == 0 || leb stale_after a) ≡ false → a < stale_after
soon_enough a h = ground arith

is_silent :
    (now : ℕ) (id : Bytes) (r : LeaseRecord)
    → (same id [] || (stale_after == 0 || leb stale_after (age now r.heartbeat_at))) ≡ true
    → (id ≡ []) ⊎ (stale_after ≤ age now r.heartbeat_at)
is_silent now id r h = elim (Bool-cases (same id [])) [
  | inl e ↦ inl ((same-iff_eq id []).0 e)
  | inr e ↦ inr (late_enough (age now r.heartbeat_at) (rw e at h))
]

is_beating :
    (now : ℕ) (id : Bytes) (r : LeaseRecord)
    → (same id [] || (stale_after == 0 || leb stale_after (age now r.heartbeat_at))) ≡ false
    → (id ≢ []) × (age now r.heartbeat_at < stale_after)
is_beating now id r h = elim (Bool-cases (same id [])) [
  | inl e ↦ absurd (ground arith)
  | inr e ↦ (
    λ i. absurd (ground (arith, (same-iff_eq id []).1 i)),
    soon_enough (age now r.heartbeat_at) (rw e at h),
  )
]

module _ {F : Type 0} where
  -- A task that is lost, and what it is saved as.
  pub data Lost (s : Start F) (m : Manifest F) : Manifest F → Type 0 where
    no_lease :
        in_progress m.status ≡ true → s.lease m.id ≡ unreadable → Lost s m (not_recovered s.now m)
    no_run :
        in_progress m.status ≡ true
        → (m.run_id ≡ []) ⊎ Silent s.now (s.lease m.id)
        → s.lease m.id ≢ unreadable
        → Lost s m (interrupted s.now m)
    no_database :
        in_progress m.status ≡ false
        → (is_pending m.status && is_managed_input m.input_type) ≡ false
        → database_fails (s.database m.id) m ≡ true
        → Lost s m (not_recovered s.now m)

  -- A task that is left as it is.
  pub data Sound (s : Start F) (m : Manifest F) : Type 0 where
    alive : in_progress m.status ≡ true → m.run_id ≢ [] → Beating s.now (s.lease m.id) → Sound s m
    waiting : (is_pending m.status && is_managed_input m.input_type) ≡ true → Sound s m
    recovered :
        in_progress m.status ≡ false → database_fails (s.database m.id) m ≡ false → Sound s m

  abbrev Judged : Start F → Manifest F → Option (Manifest F) → Type 0
  Judged s m none = Sound s m
  Judged s m (some m') = Lost s m m'

  Judged-if :
      (s : Start F) (m : Manifest F) (b : Bool) (x y : Option (Manifest F))
      → (b ≡ true → Judged s m x)
      → (b ≡ false → Judged s m y)
      → Judged s m (if b then x else y)
  Judged-if s m true x y h k = h refl
  Judged-if s m false x y h k = k refl

  by_lease :
      (s : Start F) (m : Manifest F) (l : LockFile)
      → s.lease m.id ≡ l
      → in_progress m.status ≡ true
      → Judged s m (lease_verdict s.now m (lease_stale s.now stale_after l))
  unfolding lease_stale
  by_lease s m absent e p =
      Judged-if s m (same m.run_id [] || true) _ _ (λ b. no_run p (inr (rw e tt)) (ground arith))
        (λ b. absurd (ground arith))
  by_lease s m unreadable e p = no_lease p e
  by_lease s m (holds r) e p =
      Judged-if s m _ _ _
        (λ b.
          no_run p (elim (is_silent s.now m.run_id r b) [ inl i ↦ inl i | inr a ↦ inr (rw e a) ])
            (ground arith))
        (λ b. let (i, a) = is_beating s.now m.run_id r b in alive p i (rw e a))

  verdict-Judged : (s : Start F) (m : Manifest F) → Judged s m (verdict s m)
  unfolding verdict
  verdict-Judged s m =
      Judged-if s m (in_progress m.status) _ _ (λ p. by_lease s m (s.lease m.id) refl p)
        (λ p.
          Judged-if s m (is_pending m.status && is_managed_input m.input_type) _ _ (λ w. waiting w)
            (λ w.
              Judged-if s m (database_fails (s.database m.id) m) _ _ (λ d. no_database p w d)
                (λ d. recovered p d)))

  Lost-same : (s : Start F) (m m' : Manifest F) → Lost s m m' → m'.id ≡ m.id
  Lost-same s m m' (no_lease p e) = refl
  Lost-same s m m' (no_run p e n) = refl
  Lost-same s m m' (no_database p w d) = refl

  Lost-failed : (s : Start F) (m m' : Manifest F) → Lost s m m' → m'.status ≡ Status.failed
  Lost-failed s m m' (no_lease p e) = refl
  Lost-failed s m m' (no_run p e n) = refl
  Lost-failed s m m' (no_database p w d) = refl

  save-Either :
      (f : Faults) (item : Manifest F) (dirs : Dirs F)
      → Either (Written item dirs) dirs (save f item dirs)
  unfolding save
  save-Either f item dirs =
      Either-if (Written item dirs) dirs (not (valid_id item.id)) _ _ (λ b. refl)
        (λ b. write_manifest-Either f item dirs)

  -- The directory of a listed task that is lost, with the manifest that says so.
  pub data Given (s : Start F) (x : Bytes) (o : Option (Dir F)) : List (Manifest F) → Type 0 where
    this :
        {m m' : Manifest F} {ms : List (Manifest F)}
        → m.id ≡ x
        → Lost s m m'
        → manifest_of o ≡ some (readable m')
        → Given s x o (m ∷ ms)
    that : {m : Manifest F} {ms : List (Manifest F)} → Given s x o ms → Given s x o (m ∷ ms)

  abbrev Fate : Start F → List (Manifest F) → Dirs F → Dirs F → Bytes → Type 0
  Fate s ms dirs after x = (after x ≡ dirs x) ⊎ Given s x (after x) ms

  pub record HasFailed (o : Option (Dir F)) : Type 0 where
    pub manifest : Manifest F
    pub stored : manifest_of o ≡ some (readable manifest)
    pub status : manifest.status ≡ Status.failed

  -- A listed task is sound, or its manifest now says that it has failed.
  abbrev Handled : Start F → Dirs F → Manifest F → Type 0
  Handled s after m = Sound s m ⊎ HasFailed (after m.id)

  Given-HasFailed :
      (s : Start F) (x : Bytes) (o : Option (Dir F)) (ms : List (Manifest F))
      → Given s x o ms
      → HasFailed o
  Given-HasFailed s x o [] g = elim g [ ]
  Given-HasFailed s x o (m ∷ ms) (this {m' = m'} i l h) = record {
    manifest = m';
    stored = h;
    status = Lost-failed s m m' l;
  }
  Given-HasFailed s x o (m ∷ ms) (that g) = Given-HasFailed s x o ms g

  -- What the loop leaves when it ends, and what more it has done where it ends without an error.
  abbrev pub Swept : Start F → List (Manifest F) → Dirs F → Result Unit × Dirs F → Type 0
  Swept s ms dirs (failed e, after) = (x : Bytes) → Fate s ms dirs after x
  Swept s ms dirs (ok u, after) =
      ((x : Bytes) → Fate s ms dirs after x) × All (λ (m : Manifest F). Handled s after m) ms

  saved-Swept :
      (s : Start F) (m m' : Manifest F) (dirs : Dirs F) (r : Result Unit × Dirs F)
      → Lost s m m'
      → Either (Written m' dirs) dirs r
      → Swept s (m ∷ []) dirs r
  saved-Swept s m m' dirs (failed e, after) l h = λ x. inl (ap (λ (d : Dirs F). d x) h)
  saved-Swept s m m' dirs (ok u, after) l w = (
    λ x. elim (Bool-cases (same x m'.id)) [
      | inl e ↦
          let i : x ≡ m'.id = (same-iff_eq x m'.id).0 e in
          inr (
            this (sym (i ∙ Lost-same s m m' l)) l
              (ap (λ (y : Bytes). manifest_of (after y)) i ∙ w.manifest))
      | inr e ↦ inl (w.others x (ground (arith, same-iff_eq x m'.id)))
    ],
    (
      inr (record {
        manifest = m';
        stored = ap (λ (y : Bytes). manifest_of (after y)) (sym (Lost-same s m m' l)) ∙ w.manifest;
        status = Lost-failed s m m' l;
      }),
      tt,
    ),
  )

  settle-Swept :
      (s : Start F) (m : Manifest F) (dirs : Dirs F) (o : Option (Manifest F))
      → Judged s m o
      → Swept s (m ∷ []) dirs (settle s o dirs)
  settle-Swept s m dirs none j = (λ x. inl refl, (inl j, tt))
  settle-Swept s m dirs (some m') j =
      saved-Swept s m m' dirs (save (s.faults m') m' dirs) j (save-Either (s.faults m') m' dirs)

  Given-first :
      (s : Start F) (x : Bytes) (o : Option (Dir F)) (m : Manifest F) (ms : List (Manifest F))
      → Given s x o (m ∷ [])
      → Given s x o (m ∷ ms)
  Given-first s x o m ms (this i l h) = this i l h
  Given-first s x o m ms (that g) = elim g [ ]

  join :
      (s : Start F) (m : Manifest F) (ms : List (Manifest F)) (dirs mid after : Dirs F) (x : Bytes)
      → Fate s (m ∷ []) dirs mid x
      → Fate s ms mid after x
      → Fate s (m ∷ ms) dirs after x
  join s m ms dirs mid after x f (inr g) = inr (that g)
  join s m ms dirs mid after x (inl e) (inl h) = inl (h ∙ e)
  join s m ms dirs mid after x (inr g) (inl h) = inr (Given-first s x (after x) m ms (rw h g))

  still :
      (s : Start F) (m : Manifest F) (ms : List (Manifest F)) (mid after : Dirs F)
      → Handled s mid m
      → Fate s ms mid after m.id
      → Handled s after m
  still s m ms mid after (inl j) f = inl j
  still s m ms mid after (inr h) (inl e) = inr (rw e h)
  still s m ms mid after (inr h) (inr g) = inr (Given-HasFailed s m.id (after m.id) ms g)

  joined :
      (s : Start F) (m : Manifest F) (ms : List (Manifest F)) (dirs mid : Dirs F)
      (r : Result Unit × Dirs F)
      → Swept s (m ∷ []) dirs (ok tt, mid)
      → Swept s ms mid r
      → Swept s (m ∷ ms) dirs r
  joined s m ms dirs mid (failed e, after) (f, h) g = λ x. join s m ms dirs mid after x (f x) (g x)
  joined s m ms dirs mid (ok u, after) (f, (h, t)) (g, a) =
      (λ x. join s m ms dirs mid after x (f x) (g x), (still s m ms mid after h (g m.id), a))

  and_then-Swept :
      (s : Start F) (m : Manifest F) (ms : List (Manifest F)) (dirs : Dirs F)
      (r : Result Unit × Dirs F) (next : Dirs F → Result Unit × Dirs F)
      → Swept s (m ∷ []) dirs r
      → ((d : Dirs F) → Swept s ms d (next d))
      → Swept s (m ∷ ms) dirs (and_then r next)
  and_then-Swept s m ms dirs (failed e, after) next f k =
      λ x. join s m ms dirs after after x (f x) (inl refl)
  and_then-Swept s m ms dirs (ok u, mid) next f k = joined s m ms dirs mid (next mid) f (k mid)

  recover_items-Swept :
      (s : Start F) (ms : List (Manifest F)) (dirs : Dirs F)
      → Swept s ms dirs (recover_items s ms dirs)
  unfolding recover_items
  recover_items-Swept s [] dirs = (λ x. inl refl, tt)
  recover_items-Swept s (m ∷ ms) dirs =
      and_then-Swept s m ms dirs (settle s (verdict s m) dirs) (λ d. recover_items s ms d)
        (settle-Swept s m dirs (verdict s m) (verdict-Judged s m)) (λ d. recover_items-Swept s ms d)

  abbrev pub Recovered :
      Start F → Dirs F → Result (List (Manifest F)) → Result Unit × Dirs F → Type 0
  Recovered s dirs (failed e) r = r ≡ (failed e, dirs)
  Recovered s dirs (ok ms) r = Swept s ms dirs r

  recover_listed-Recovered :
      (s : Start F) (dirs : Dirs F) (l : Result (List (Manifest F)))
      → Recovered s dirs l (recover_listed s l dirs)
  recover_listed-Recovered s dirs (failed e) = refl
  recover_listed-Recovered s dirs (ok ms) = recover_items-Swept s ms dirs

  -- Whatever fails at the start, a directory is changed only where it belongs to a listed task that
  -- is lost, and then its manifest says so: a task in progress without a run or without a heartbeat in
  -- the last fifteen seconds, one whose lock file cannot be read, or one whose database fails. Where no
  -- error is returned, each listed task is sound or its manifest now says that it has failed.
  pub recover_tasks-Recovered :
      (s : Start F) (dirs : Dirs F) → Recovered s dirs (listed_tasks s dirs) (recover_tasks s dirs)
  unfolding recover_tasks
  recover_tasks-Recovered s dirs = recover_listed-Recovered s dirs (listed_tasks s dirs)
