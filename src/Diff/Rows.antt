-- ===== src/Diff/Rows.antt =====
-- What the comparison reads: `*sql.Rows` as the sequence of answers that the driver will give, and
-- the `next…` helpers of internal/diff/calculator.go, which read one row.
use etcd_space_inspector.Prelude.{ℕ, Option, none, some, List, [], ◌∷◌}

-- Errors are told apart only by where they come from.
pub data Error : Type 0 where
  cancelled : Error
  same_task : Error
  query_failed : ℕ → Error
  store_failed : ℕ → Error

pub data Result {ℓ} (A : Type ℓ) : Type ℓ where
  ok : A → Result A
  err : Error → Result A

infixl 10 ◌>>=◌
abbrev pub ◌>>=◌ {ℓ κ} : {A : Type ℓ} {B : Type κ} → Result A → (A → Result B) → Result B
ok a >>= f = f a
err e >>= f = err e

-- The answers of a cursor: `rows.Next()` is false and `rows.Err()` is nil (`end`) or not
-- (`broken`); or there is a row, and `rows.Scan` fails (`unscanned`) or fills the state (`row`).
pub data Rows (A : Type 0) : Type 0 where
  end : Rows A
  broken : Error → Rows A
  unscanned : Error → Rows A
  row : A → Rows A → Rows A

-- The current row (`none` when `has…` is false) and the answers still to come.
pub record Cursor (A : Type 0) : Type 0 where
  pub current : Option A
  pub rest : Rows A

module _ {A : Type 0} where
  unfoldable pub next : Rows A → Result (Cursor A)
  next end = ok (record { current = none; rest = end })
  next (broken e) = err e
  next (unscanned e) = err e
  next (row a rest) = ok (record { current = some a; rest = rest })

  -- The rows that are read before the end or the first failure.
  unfoldable pub rows_read : Rows A → List A
  rows_read end = []
  rows_read (broken e) = []
  rows_read (unscanned e) = []
  rows_read (row a rest) = a ∷ rows_read rest

  -- A query whose rows are all read without a failure.
  unfoldable pub of_list : List A → Rows A
  of_list [] = end
  of_list (a ∷ l) = row a (of_list l)

  -- The rows still to come from a cursor: one that has no row is not read again.
  abbrev pub held : Cursor A → List A
  held c = elim c.current [ none ↦ [] | some a ↦ a ∷ rows_read c.rest ]

  -- The rows that a query has to give; none if it is refused.
  unfoldable pub answers : Result (Rows A) → List A
  unfolding rows_read
  answers (ok rows) = rows_read rows
  answers (err e) = []
