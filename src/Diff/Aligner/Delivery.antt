-- ===== src/Diff/Aligner/Delivery.antt =====
-- What the merge loop hands to the sink, whatever the cursors, the context and the sink do.
use etcd_space_inspector.Prelude.{
  ℕ, zero, suc, ◌+◌, ◌<◌, ◌≤◌, ◌≡◌, refl, ap, ◌⊎◌, inl, inr, true, false, Option, none, some, List,
  [], ◌∷◌, ◌++◌, length, length-append, if◌then◌else◌, arith, Bool-cases, Option-cases, ◌==◌,
}
use etcd_space_inspector.Diff.Rows.{Error, Result, ok, err, Rows, Cursor, next, rows_read, answers}
use etcd_space_inspector.Diff.Join.{join}
use etcd_space_inspector.Diff.Aligner.{
  Aligner, Turn, Env, Run, Outcome, call, turn, tick, store, flush, hand_over, add, resume,
  after_switch, after_poll, body, loop, start, compare_rows,
}
use etcd_space_inspector.Diff.Aligner.Turns.{left, aligned, Steps, turn-Steps, turn-none, next-held}
use etcd_space_inspector.Diff.Aligner.Delivered.{
  reported, Delivered, skip_Delivered, push_Delivered, ship_Delivered, stop_Delivered,
}

module _ {A B C : Type 0} (c : Aligner A B) (wrap : List B → C) (env : Env) (size : ℕ)
    (pos : 1 ≤ size) where
  -- An outcome that was reached, and what it delivered.
  abbrev pub Ends : List C → List B → List B → Outcome C → Type 0
  Ends log batch expected x =
      (o : Option Error × Run C) × (x ≡ some o) × Delivered wrap size log batch expected o.0 o.1.log

  store-cases :
      (batch : List B) (r : Run C)
      → (store c wrap env size batch r ≡ (none, record r { log = r.log ++ wrap batch ∷ [] }))
        ⊎ ((e : Error) × (store c wrap env size batch r ≡ (some e, r)))
  unfolding store call
  store-cases batch r = elim (Option-cases (env.fault (length r.log))) [
    | inl fine ↦ inl (ground arith)
    | inr (e, bad) ↦ inr (e, ground arith)
  ]

  store-Ends :
      (batch : List B) (r : Run C)
      → 1 ≤ length batch
      → length batch ≤ size
      → Ends r.log batch [] (some (store c wrap env size batch r))
  store-Ends batch r h k = elim (store-cases batch r) [
    | inl fine ↦ (
      (none, record r { log = r.log ++ wrap batch ∷ [] }),
      ap some fine,
      ship_Delivered wrap size batch [] h k (skip_Delivered wrap size [] [] refl refl refl),
    )
    | inr (e, bad) ↦ ((some e, r), ap some bad, stop_Delivered wrap size r.log batch [] e)
  ]

  hand_over-full :
      (batch : List B) (r : Run C)
      → (length batch == size) ≡ true
      → (o : Option Error × Run C) → store c wrap env size batch r ≡ o
      → hand_over c wrap env size batch r ≡ (o.0, [], o.1)
  unfolding hand_over
  hand_over-full batch r h o e = rw h (
      ap (λ (x : Option Error × Run C). let y : Option Error × List B × Run C = (x.0, [], x.1) in y)
        e)

  hand_over-room :
      (batch : List B) (r : Run C)
      → (length batch == size) ≡ false
      → hand_over c wrap env size batch r ≡ (none, batch, r)
  unfolding hand_over
  hand_over-room batch r h = rw h

  full-le : (batch : List B) → (length batch == size) ≡ true → length batch ≤ size
  full-le batch h = ground arith

  grow :
      (x : B) (batch : List B)
      → length batch < size
      → (length (batch ++ x ∷ []) == size) ≡ false
      → length (batch ++ x ∷ []) < size
  grow x batch h e = ground (arith, length-append batch (x ∷ []))

  flush-Ends :
      (batch : List B) (r : Run C)
      → length batch ≤ size
      → Ends r.log batch [] (some (flush c wrap env size batch r))
  unfolding flush
  flush-Ends [] r h = ((none, r), refl, skip_Delivered wrap size [] [] refl refl refl)
  flush-Ends (x ∷ xs) r h = store-Ends (x ∷ xs) r (omega arith) h

  module _ (k : Cursor A → Cursor A → List B → Run C → Outcome C) (n : ℕ)
      (K : (b t : Cursor A) (batch : List B) (r : Run C)
        → left c b t < n
        → length batch < size
        → Ends r.log batch (reported c (aligned c b t)) (k b t batch r)) where
    reported-Steps :
        (b t : Cursor A) (m : Turn A B) (s : Steps c b t m)
        → reported c (aligned c b t) ≡ (
            if c.unchanged m.item
            then reported c (aligned c m.baseline m.target)
            else m.item ∷ reported c (aligned c m.baseline m.target))
    unfolding reported
    reported-Steps b t m s = rw (s.aligned_eq, s.item_eq)

    append-Ends :
        (m : Turn A B) (batch : List B) (r : Run C)
        → left c m.baseline m.target < n
        → length batch < size
        → Ends r.log batch
            (m.item ∷ reported c (aligned c m.baseline m.target))
            (resume c wrap env size k m (hand_over c wrap env size (batch ++ m.item ∷ []) r))
    append-Ends m batch r h f = elim (Bool-cases (length (batch ++ m.item ∷ []) == size)) [
      | inl full ↦ elim (store-cases (batch ++ m.item ∷ []) r) [
        | inl fine ↦
            rw
              (hand_over-full _ r full
                (none, record r { log = r.log ++ wrap (batch ++ m.item ∷ []) ∷ [] }) fine)
              (unfold resume in
                let (o, p, d) =
                  K m.baseline m.target []
                    (record r { log = r.log ++ wrap (batch ++ m.item ∷ []) ∷ [] }) h pos in
                (
                  o,
                  p,
                  push_Delivered wrap size batch _ m.item (
                      ship_Delivered wrap size (batch ++ m.item ∷ []) _
                        (omega (arith, length-append batch (m.item ∷ []))) (full-le _ full) d),
                ))
        | inr (e, bad) ↦
            rw (hand_over-full _ r full (some e, r) bad)
              (unfold resume in ((some e, r), refl, stop_Delivered wrap size r.log batch _ e))
      ]
      | inr room ↦ rw (hand_over-room _ r room) (
          unfold resume in
          let (o, p, d) =
            K m.baseline m.target (batch ++ m.item ∷ []) r h (grow m.item batch f room) in
          (o, p, push_Delivered wrap size batch _ m.item d))
    ]

    switch-Ends :
        (b t : Cursor A) (batch : List B) (r : Run C) (m : Turn A B)
        → Steps c b t m
        → left c b t < suc n
        → length batch < size
        → Ends r.log batch
            (reported c (aligned c b t))
            (after_switch c wrap env size k batch r (ok m))
    unfolding after_switch add
    switch-Ends b t batch r m s h f =
        rw (reported-Steps b t m s) (elim (Bool-cases (c.unchanged m.item)) [
          | inl same ↦ rw same (K m.baseline m.target batch r (omega (arith, s.fewer)) f)
          | inr changed ↦ rw changed (append-Ends m batch r (omega (arith, s.fewer)) f)
        ])

    body-Ends :
        (b t : Cursor A) (batch : List B) (r : Run C) (x : Option (Result (Turn A B)))
        → turn c b t ≡ x
        → left c b t < suc n
        → length batch < size
        → Ends r.log batch (reported c (aligned c b t)) (body c wrap env size k batch r x)
    unfolding body
    body-Ends b t batch r none e h f =
        rw (turn-none c b t e) (unfold reported in flush-Ends batch r (omega arith))
    body-Ends b t batch r (some (err x)) e h f = elim (Option-cases (env.poll r.polls)) [
      | inl fine ↦
          rw (fine, after_poll)
            (unfold after_switch in
              ((some x, tick r), refl, stop_Delivered wrap size r.log batch _ x))
      | inr (y, late) ↦
          rw (late, after_poll) ((some y, tick r), refl, stop_Delivered wrap size r.log batch _ y)
    ]
    body-Ends b t batch r (some (ok m)) e h f = elim (Option-cases (env.poll r.polls)) [
      | inl fine ↦
          rw (fine, after_poll) (switch-Ends b t batch (tick r) m (turn-Steps c b t m e) h f)
      | inr (y, late) ↦
          rw (late, after_poll) ((some y, tick r), refl, stop_Delivered wrap size r.log batch _ y)
    ]

  -- With fuel for every row that is left, the loop ends, and it delivers the join.
  pub loop-Ends :
      (fuel : ℕ) (b t : Cursor A) (batch : List B) (r : Run C)
      → left c b t < fuel
      → length batch < size
      → Ends r.log batch (reported c (aligned c b t)) (loop c wrap env size fuel b t batch r)
  unfolding loop
  loop-Ends zero b t batch r h f = absurd (omega arith)
  loop-Ends (suc fuel) b t batch r h f =
      body-Ends (loop c wrap env size fuel) fuel (loop-Ends fuel) b t batch r (turn c b t) refl h f

  start-Ends :
      (fuel : ℕ) (baseline target : Rows A) (r : Run C) (x y : Result (Cursor A))
      → next baseline ≡ x
      → next target ≡ y
      → length (rows_read baseline) + length (rows_read target) < fuel
      → Ends r.log []
          (reported c (join c.key (rows_read baseline) (rows_read target)))
          (start c wrap env size (loop c wrap env size fuel) r x y)
  unfolding start
  start-Ends fuel baseline target r (err e) y p q h =
      ((some e, r), refl, stop_Delivered wrap size r.log [] _ e)
  start-Ends fuel baseline target r (ok b) (err e) p q h =
      ((some e, r), refl, stop_Delivered wrap size r.log [] _ e)
  start-Ends fuel baseline target r (ok b) (ok t) p q h =
      rw (← next-held baseline b p, ← next-held target t q)
        (loop-Ends fuel b t [] r
          (omega (
            arith,
            ap (length {A = A}) (next-held baseline b p),
            ap (length {A = A}) (next-held target t q),
          ))
          pos)

  -- Any queries, cursors, context and sink.
  pub compare_rows-Ends :
      (fuel : ℕ) (baseline target : Result (Rows A)) (r : Run C)
      → length (answers baseline) + length (answers target) < fuel
      → Ends r.log []
          (reported c (join c.key (answers baseline) (answers target)))
          (compare_rows c wrap env size fuel baseline target r)
  unfolding compare_rows answers
  compare_rows-Ends fuel (err e) target r h =
      ((some e, r), refl, stop_Delivered wrap size r.log [] _ e)
  compare_rows-Ends fuel (ok baseline) (err e) r h =
      ((some e, r), refl, stop_Delivered wrap size r.log [] _ e)
  compare_rows-Ends fuel (ok baseline) (ok target) r h =
      start-Ends fuel baseline target r (next baseline) (next target) refl refl h
