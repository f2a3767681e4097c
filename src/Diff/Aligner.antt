-- ===== src/Diff/Aligner.antt =====
-- The merge loop of internal/diff/calculator.go. The five functions compareObjects, compareKeys,
-- mergePrefixes, compareResources and compareNamespaces are this one loop, with the column that is
-- ordered, the three ways to build an item and the test that drops one as an `Aligner`.
pub mod Turns
pub mod Delivered
pub mod Delivery
use etcd_space_inspector.Prelude.{
  ℕ, zero, suc, ◌+◌, Bool, true, false, Option, none, some, List, [], ◌∷◌, ◌++◌, length, ◌==◌,
  if◌then◌else◌,
}
use etcd_space_inspector.Prelude.Bytes.{Bytes, less}
use etcd_space_inspector.Diff.Rows.{Error, Result, ok, err, ◌>>=◌, Rows, Cursor, next}

pub record Aligner (A B : Type 0) : Type 0 where
  pub key : A → Bytes
  pub only_target : A → B
  pub only_baseline : A → B
  pub both : A → A → B
  pub unchanged : B → Bool

-- One turn of the loop: the item, and the two cursors moved on.
pub record Turn (A B : Type 0) : Type 0 where
  pub item : B
  pub baseline : Cursor A
  pub target : Cursor A

-- What surrounds the loop: `ctx.Err()` at its n-th poll, and the error of the n-th call of the sink.
pub record Env : Type 0 where
  pub poll : ℕ → Option Error
  pub fault : ℕ → Option Error

-- A call of the sink: an error leaves no trace of the call.
unfoldable pub call : {C : Type 0} → Env → C → List C → Option Error × List C
call env c log = elim (env.fault (length log)) [
  | none ↦ (none, log ++ c ∷ [])
  | some e ↦ (some e, log)
]

-- The log and the number of polls made so far.
pub record Run (C : Type 0) : Type 0 where
  pub log : List C
  pub polls : ℕ

abbrev pub Outcome : Type 0 → Type 0
Outcome C = Option (Option Error × Run C)

abbrev tick : {C : Type 0} → Run C → Run C
tick r = record r { polls = r.polls + 1 }

module _ {A B : Type 0} (c : Aligner A B) where
  unfoldable pub take_target : Cursor A → A → Rows A → Result (Turn A B)
  unfolding next
  take_target b t rest = do
    t' ← next rest
    ok (record { item = c.only_target t; baseline = b; target = t' })

  unfoldable pub take_baseline : A → Rows A → Cursor A → Result (Turn A B)
  unfolding next
  take_baseline b rest t = do
    b' ← next rest
    ok (record { item = c.only_baseline b; baseline = b'; target = t })

  unfoldable pub take_both : A → Rows A → A → Rows A → Result (Turn A B)
  unfolding next
  take_both b brest t trest = do
    b' ← next brest
    t' ← next trest
    ok (record { item = c.both b t; baseline = b'; target = t' })

  -- The loop's condition and its `switch`; `none` when neither cursor has a row.
  unfoldable pub choose : Option A → Rows A → Option A → Rows A → Option (Result (Turn A B))
  unfolding take_target take_baseline take_both
  choose none brest none trest = none
  choose none brest (some t) trest =
      some (take_target (record { current = none; rest = brest }) t trest)
  choose (some b) brest none trest =
      some (take_baseline b brest (record { current = none; rest = trest }))
  choose (some b) brest (some t) trest = some (
      if less (c.key t) (c.key b)
      then take_target (record { current = some b; rest = brest }) t trest
      else if less (c.key b) (c.key t)
      then take_baseline b brest (record { current = some t; rest = trest })
      else take_both b brest t trest)

  unfoldable pub turn : Cursor A → Cursor A → Option (Result (Turn A B))
  unfolding choose
  turn b t = choose b.current b.rest t.current t.rest

  module _ {C : Type 0} (wrap : List B → C) (env : Env) (size : ℕ) where
    unfoldable pub store : List B → Run C → Option Error × Run C
    unfolding call
    store batch r = let (e, log) = call env (wrap batch) r.log in (e, record r { log = log })

    -- What follows the loop: the last batch, if it holds anything.
    unfoldable pub flush : List B → Run C → Option Error × Run C
    unfolding store
    flush [] r = (none, r)
    flush (x ∷ xs) r = store (x ∷ xs) r

    -- The batch after an append: a full one is handed over and emptied.
    unfoldable pub hand_over : List B → Run C → Option Error × List B × Run C
    unfolding store
    hand_over batch r =
        if length batch == size
        then (let (e, r') = store batch r in (e, [], r'))
        else (none, batch, r)

    -- The end of a turn: drop the item, or append it.
    unfoldable pub add : List B → B → Run C → Option Error × List B × Run C
    unfolding hand_over
    add batch item r =
        if c.unchanged item then (none, batch, r) else hand_over (batch ++ item ∷ []) r

    abbrev pub Rest : Type 0
    Rest = Cursor A → Cursor A → List B → Run C → Outcome C

    unfoldable pub resume : Rest → Turn A B → Option Error × List B × Run C → Outcome C
    resume k m (none, batch, r) = k m.baseline m.target batch r
    resume k m (some e, batch, r) = some (some e, r)

    unfoldable pub after_switch : Rest → List B → Run C → Result (Turn A B) → Outcome C
    unfolding resume add
    after_switch k batch r (err e) = some (some e, r)
    after_switch k batch r (ok m) = resume k m (add batch m.item r)

    unfoldable pub after_poll : Rest → List B → Run C → Result (Turn A B) → Option Error → Outcome C
    unfolding after_switch
    after_poll k batch r x none = after_switch k batch r x
    after_poll k batch r x (some e) = some (some e, r)

    unfoldable pub body : Rest → List B → Run C → Option (Result (Turn A B)) → Outcome C
    unfolding flush after_poll
    body k batch r none = some (flush batch r)
    body k batch r (some x) = after_poll k batch (tick r) x (env.poll r.polls)

    -- The loop, on fuel: `none` when the fuel runs out.
    unfoldable pub loop : ℕ → Rest
    unfolding body turn
    loop zero b t batch r = none
    loop (suc fuel) b t batch r = body (loop fuel) batch r (turn b t)

    -- The first row of each cursor, and then the loop.
    unfoldable pub start : Rest → Run C → Result (Cursor A) → Result (Cursor A) → Outcome C
    start k r (err e) t = some (some e, r)
    start k r (ok b) (err e) = some (some e, r)
    start k r (ok b) (ok t) = k b t [] r

    -- The whole function: the two queries first.
    unfoldable pub compare_rows : ℕ → Result (Rows A) → Result (Rows A) → Run C → Outcome C
    unfolding loop start next
    compare_rows fuel (err e) target r = some (some e, r)
    compare_rows fuel (ok baseline) (err e) r = some (some e, r)
    compare_rows fuel (ok baseline) (ok target) r =
        start (loop fuel) r (next baseline) (next target)
