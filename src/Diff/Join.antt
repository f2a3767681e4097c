-- ===== src/Diff/Join.antt =====
-- The specification of the comparison loop: a full outer join of two lists ordered by their keys.
pub mod Lookup
pub mod Balance
use etcd_space_inspector.Prelude.{
  ℕ, zero, suc, ◌+◌, ◌≤◌, ◌<◌, ◌≡◌, refl, ◌⊎◌, inl, inr, Bool, true, false, Option, none, some,
  List, [], ◌∷◌, ◌++◌, length, ◌==◌, if◌then◌else◌, arith, All,
}
use etcd_space_inspector.Prelude.Bytes.{Bytes, less, same}

pub data Pair (A : Type 0) : Type 0 where
  added : A → Pair A
  removed : A → Pair A
  paired : A → A → Pair A

module _ {A : Type 0} (key : A → Bytes) where
  unfoldable pub join : List A → List A → List (Pair A)
  join [] [] = []
  join [] (t ∷ ts) = added t ∷ join [] ts
  join (b ∷ bs) [] = removed b ∷ join bs []
  join (b ∷ bs) (t ∷ ts) = elim (less (key t) (key b)) [
    | true ↦ added t ∷ join (b ∷ bs) ts
    | false ↦ elim (less (key b) (key t)) [
      | true ↦ removed b ∷ join bs (t ∷ ts)
      | false ↦ paired b t ∷ join bs ts
    ]
  ]

  -- Strictly ascending keys, as `ORDER BY` gives over a unique column.
  abbrev pub Ascending : List A → Type 0
  Ascending [] = Unit
  Ascending (a ∷ l) = All (λ x. less (key a) (key x) ≡ true) l × Ascending l

  unfoldable pub find : Bytes → List A → Option A
  find k [] = none
  find k (a ∷ l) = if same (key a) k then some a else find k l

module _ {A : Type 0} where
  unfoldable pub pair_key : (A → Bytes) → Pair A → Bytes
  pair_key key (added t) = key t
  pair_key key (removed b) = key b
  pair_key key (paired b t) = key b

  -- What the join says of one key, given what the two sides hold under it.
  abbrev pub match_up : Option A → Option A → Option (Pair A)
  match_up none none = none
  match_up none (some t) = some (added t)
  match_up (some b) none = some (removed b)
  match_up (some b) (some t) = some (paired b t)
