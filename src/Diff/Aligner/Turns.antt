-- ===== src/Diff/Aligner/Turns.antt =====
-- One turn of the merge loop takes the head off the join of what the two cursors still hold.
use etcd_space_inspector.Prelude.{
  ℕ, ◌+◌, ◌<◌, ◌≡◌, refl, inl, inr, Option, none, some, List, [], ◌∷◌, length, arith, Bool-cases,
}
use etcd_space_inspector.Prelude.Bytes.{less}
use etcd_space_inspector.Diff.Rows.{
  Result, ok, err, ◌>>=◌, Rows, end, broken, unscanned, row, Cursor, next, rows_read, held,
}
use etcd_space_inspector.Diff.Join.{Pair, added, removed, paired, join}
use etcd_space_inspector.Diff.Aligner.{
  Aligner, Turn, turn, take_target, take_baseline, take_both, choose,
}

pub next-held :
    {A : Type 0} (rows : Rows A) (c : Cursor A) → next rows ≡ ok c → held c ≡ rows_read rows
unfolding next rows_read
next-held end c h = ground arith
next-held (broken e) c h = ground arith
next-held (unscanned e) c h = ground arith
next-held (row a rest) c h = ground arith

module _ {A B : Type 0} (c : Aligner A B) where
  unfoldable pub item_of : Pair A → B
  item_of (added t) = c.only_target t
  item_of (removed b) = c.only_baseline b
  item_of (paired b t) = c.both b t

  -- How many rows are left in the two cursors.
  abbrev pub left : Cursor A → Cursor A → ℕ
  left b t = length (held b) + length (held t)

  abbrev pub aligned : Cursor A → Cursor A → List (Pair A)
  aligned b t = join c.key (held b) (held t)

  -- A turn that fails says nothing; one that succeeds produces the first pair of the join.
  pub record Steps (b t : Cursor A) (m : Turn A B) : Type 0 where
    pub pair : Pair A
    pub item_eq : m.item ≡ item_of pair
    pub aligned_eq : aligned b t ≡ pair ∷ aligned m.baseline m.target
    pub fewer : left m.baseline m.target < left b t

  take_target-Steps :
      (b : Cursor A) (t : A) (rest : Rows A) (m : Turn A B)
      → aligned b (record { current = some t; rest = rest })
        ≡ added t ∷ join c.key (held b) (rows_read rest)
      → take_target c b t rest ≡ ok m
      → Steps b (record { current = some t; rest = rest }) m
  unfolding take_target rows_read item_of next
  take_target-Steps b t end m p h = record {
    pair = added t;
    item_eq = ground arith;
    aligned_eq = ground arith;
    fewer = ground arith;
  }
  take_target-Steps b t (broken e) m p h = absurd (ground arith)
  take_target-Steps b t (unscanned e) m p h = absurd (ground arith)
  take_target-Steps b t (row a rest) m p h = record {
    pair = added t;
    item_eq = ground arith;
    aligned_eq = ground arith;
    fewer = ground arith;
  }

  take_baseline-Steps :
      (b : A) (rest : Rows A) (t : Cursor A) (m : Turn A B)
      → aligned (record { current = some b; rest = rest }) t
        ≡ removed b ∷ join c.key (rows_read rest) (held t)
      → take_baseline c b rest t ≡ ok m
      → Steps (record { current = some b; rest = rest }) t m
  unfolding take_baseline rows_read item_of next
  take_baseline-Steps b end t m p h = record {
    pair = removed b;
    item_eq = ground arith;
    aligned_eq = ground arith;
    fewer = ground arith;
  }
  take_baseline-Steps b (broken e) t m p h = absurd (ground arith)
  take_baseline-Steps b (unscanned e) t m p h = absurd (ground arith)
  take_baseline-Steps b (row a rest) t m p h = record {
    pair = removed b;
    item_eq = ground arith;
    aligned_eq = ground arith;
    fewer = ground arith;
  }

  take_both-Steps :
      (b : A) (brest : Rows A) (t : A) (trest : Rows A) (m : Turn A B)
      → aligned
          (record { current = some b; rest = brest })
          (record { current = some t; rest = trest })
        ≡ paired b t ∷ join c.key (rows_read brest) (rows_read trest)
      → take_both c b brest t trest ≡ ok m
      → Steps
          (record { current = some b; rest = brest })
          (record { current = some t; rest = trest })
          m
  unfolding take_both item_of
  take_both-Steps b brest t trest m p h = both_read (next brest) (next trest) refl refl h
    where
      both_read :
          (x y : Result (Cursor A))
          → next brest ≡ x
          → next trest ≡ y
          → (x >>= λ b'. y >>= λ t'. ok (record { item = c.both b t; baseline = b'; target = t' }))
            ≡ ok m
          → Steps
              (record { current = some b; rest = brest })
              (record { current = some t; rest = trest })
              m
      both_read (err e) y hx hy k = absurd (ground arith)
      both_read (ok b') (err e) hx hy k = absurd (ground arith)
      both_read (ok b') (ok t') hx hy k = record {
        pair = paired b t;
        item_eq = ground arith;
        aligned_eq = ground (arith, next-held brest b' hx, next-held trest t' hy);
        fewer = ground (arith, next-held brest b' hx, next-held trest t' hy);
      }

  choose-Steps :
      (bc : Option A) (brest : Rows A) (tc : Option A) (trest : Rows A) (m : Turn A B)
      → choose c bc brest tc trest ≡ some (ok m)
      → Steps (record { current = bc; rest = brest }) (record { current = tc; rest = trest }) m
  unfolding choose join
  choose-Steps none brest none trest m h = absurd (ground arith)
  choose-Steps none brest (some t) trest m h =
      take_target-Steps (record { current = none; rest = brest }) t trest m refl (ground arith)
  choose-Steps (some b) brest none trest m h =
      take_baseline-Steps b brest (record { current = none; rest = trest }) m refl (ground arith)
  choose-Steps (some b) brest (some t) trest m h = elim (Bool-cases (less (c.key t) (c.key b))) [
    | inl lt ↦
        take_target-Steps (record { current = some b; rest = brest }) t trest m (ground arith)
          (ground arith)
    | inr ge ↦ elim (Bool-cases (less (c.key b) (c.key t))) [
      | inl lt ↦
          take_baseline-Steps b brest (record { current = some t; rest = trest }) m (ground arith)
            (ground arith)
      | inr ge' ↦ take_both-Steps b brest t trest m (ground arith) (ground arith)
    ]
  ]

  choose-none :
      (bc : Option A) (brest : Rows A) (tc : Option A) (trest : Rows A)
      → choose c bc brest tc trest ≡ none
      → aligned (record { current = bc; rest = brest }) (record { current = tc; rest = trest }) ≡ []
  unfolding choose join
  choose-none none brest none trest h = refl
  choose-none none brest (some t) trest h = absurd (ground arith)
  choose-none (some b) brest none trest h = absurd (ground arith)
  choose-none (some b) brest (some t) trest h = absurd (ground arith)

  -- The loop's condition fails only when both cursors are at their end.
  pub turn-none : (b t : Cursor A) → turn c b t ≡ none → aligned b t ≡ []
  unfolding turn
  turn-none b t h = choose-none b.current b.rest t.current t.rest h

  -- A turn that succeeds produces the first pair of the join, and leaves fewer rows.
  pub turn-Steps : (b t : Cursor A) (m : Turn A B) → turn c b t ≡ some (ok m) → Steps b t m
  unfolding turn
  turn-Steps b t m h = choose-Steps b.current b.rest t.current t.rest m h
