-- ===== src/Diff/Aligner/Delivered.antt =====
-- The batches that the merge loop of internal/diff/calculator.go has delivered, as a record of proofs.
use etcd_space_inspector.Prelude.{
  ℕ, ◌≤◌, ◌≡◌, refl, sym, ap, ◌∙◌, ◌⊎◌, inl, inr, Option, none, some, List, [], ◌∷◌, ◌++◌, map,
  append-nil, append_assoc, length, concat, All, if◌then◌else◌, arith,
}
use etcd_space_inspector.Diff.Rows.{Error}
use etcd_space_inspector.Diff.Join.{Pair}
use etcd_space_inspector.Diff.Aligner.{Aligner}
use etcd_space_inspector.Diff.Aligner.Turns.{item_of}

module _ {A B : Type 0} (c : Aligner A B) where
  -- The items of a list of pairs, less those that the aligner drops.
  unfoldable pub reported : List (Pair A) → List B
  reported [] = []
  reported (p ∷ ps) =
      let rest = reported ps in if c.unchanged (item_of c p) then rest else item_of c p ∷ rest

-- There was an error.
abbrev pub Failed : Option Error → Type 0
Failed none = ⊥
Failed (some e) = Unit

module _ {B C : Type 0} (wrap : List B → C) (size : ℕ) where
  -- `log` grew to `log'` by batches of between one and `size` items. Put together they are the
  -- pending batch and the expected items in order, less what was lost, and nothing is lost
  -- without an error.
  pub record Delivered (log : List C) (batch expected : List B) (e : Option Error) (log' : List C)
      : Type 0 where
    pub batches : List (List B)
    pub lost : List B
    pub logged : log' ≡ log ++ map wrap batches
    pub order : concat batches ++ lost ≡ batch ++ expected
    pub complete : (lost ≡ []) ⊎ Failed e
    pub sizes : All (λ b. (1 ≤ length b) × (length b ≤ size)) batches

  module _ {log log' : List C} {e : Option Error} where
    pub skip_Delivered :
        (batch expected : List B)
        → batch ≡ []
        → expected ≡ []
        → log' ≡ log
        → Delivered log batch expected e log'
    skip_Delivered batch expected p q h = record {
      batches = [];
      lost = [];
      logged = h ∙ sym (append-nil log);
      order = ground arith;
      complete = inl refl;
      sizes = tt;
    }

    pub push_Delivered :
        (batch expected : List B) (item : B)
        → Delivered log (batch ++ item ∷ []) expected e log'
        → Delivered log batch (item ∷ expected) e log'
    push_Delivered batch expected item d = record {
      batches = d.batches;
      lost = d.lost;
      logged = d.logged;
      order = d.order ∙ append_assoc batch (item ∷ []) expected;
      complete = d.complete;
      sizes = d.sizes;
    }

    pub ship_Delivered :
        (batch expected : List B)
        → 1 ≤ length batch
        → length batch ≤ size
        → Delivered (log ++ wrap batch ∷ []) [] expected e log'
        → Delivered log batch expected e log'
    ship_Delivered batch expected h k d = record {
      batches = batch ∷ d.batches;
      lost = d.lost;
      logged = d.logged ∙ append_assoc log (wrap batch ∷ []) (map wrap d.batches);
      order =
          append_assoc batch (concat d.batches) d.lost ∙ ap (λ (x : List B). batch ++ x) d.order;
      complete = d.complete;
      sizes = ((h, k), d.sizes);
    }

  pub stop_Delivered :
      (log : List C) (batch expected : List B) (e : Error)
      → Delivered log batch expected (some e) log
  stop_Delivered log batch expected e = record {
    batches = [];
    lost = batch ++ expected;
    logged = sym (append-nil log);
    order = refl;
    complete = inr tt;
    sizes = tt;
  }
