-- ===== src/Diff/Compare/Complete.antt =====
-- The whole comparison: it always ends, and without an error it has delivered everything.
use etcd_space_inspector.Prelude.{
  ℕ, suc, ◌+◌, ◌≤◌, ◌≡◌, refl, sym, ap, ◌∙◌, Bool, true, false, Option, none, some, List, [], ◌∷◌,
  ◌++◌, map, append-nil, append_assoc, length, concat, All, arith, inl, inr, ◌⊎◌,
}
use etcd_space_inspector.Diff.Rows.{Error, Result, Rows, answers}
use etcd_space_inspector.Diff.Join.{join}
use etcd_space_inspector.Diff.Aligner.{Aligner, Env, Run, Outcome}
use etcd_space_inspector.Diff.Aligner.Delivery.{compare_rows-Ends, Ends}
use etcd_space_inspector.Diff.Aligner.Delivered.{reported, Failed}
use etcd_space_inspector.Diff.Delta.{KeyDelta, key_aligner, ObjectDelta, object_aligner}
use etcd_space_inspector.Diff.Groups.{
  PrefixDelta, prefix_aligner, ResourceDelta, resource_aligner, NamespaceDelta, namespace_aligner,
}
use etcd_space_inspector.Diff.Compare.{
  Database, Call, store_keys, store_prefixes, store_objects, store_resources, store_namespaces,
  and_then, compare_with, compare_keys, compare_prefixes, compare_objects, compare_resources,
  compare_namespaces, send, semantic_rows, kubernetes_rows,
}

module _ {A B C : Type 0} (c : Aligner A B) (wrap : List B → C) (env : Env) (size : ℕ)
    (pos : 1 ≤ size) where
  -- One comparison of rows ends, whatever the queries, the cursors, the context and the sink do. It
  -- hands over batches of one to `size` items that are, in order, a beginning of the reported items of
  -- the join; without an error, all of them.
  pub compare_with-Ends :
      (baseline target : Result (Rows A)) (r : Run C)
      → Ends c wrap env size pos r.log []
          (reported c (join c.key (answers baseline) (answers target)))
          (compare_with c wrap env size baseline target r)
  unfolding compare_with
  compare_with-Ends baseline target r =
      compare_rows-Ends c wrap env size pos
        (suc (length (answers baseline) + length (answers target))) baseline target r (omega arith)

-- Items cut into batches of one to `size`.
pub record Batches {B : Type 0} (size : ℕ) (items : List B) : Type 0 where
  pub lists : List (List B)
  pub whole : concat lists ≡ items
  pub sizes : All (λ b. (1 ≤ length b) × (length b ≤ size)) lists

-- The items of a part, if it is available.
abbrev pub when : {B : Type 0} → Bool → List B → List B
when true l = l
when false l = []

abbrev no_batches : {B : Type 0} (size : ℕ) → Batches {B = B} size []
no_batches size = record { lists = []; whole = refl; sizes = tt }

module _ {C : Type 0} where
  -- A sequence that ended without an error is two that did.
  pub and_then-ok :
      (x : Outcome C) (k : Run C → Outcome C) (r' : Run C)
      → and_then x k ≡ some (none, r')
      → (r : Run C) × (x ≡ some (none, r)) × (k r ≡ some (none, r'))
  and_then-ok none k r' h = absurd (ground arith)
  and_then-ok (some (none, r)) k r' h = (r, refl, h)
  and_then-ok (some (some e, r)) k r' h = absurd (ground arith)

  abbrev pub Reached : Outcome C → Type 0
  Reached x = (o : Option Error × Run C) × (x ≡ some o)

  pub and_then-Reached :
      (x : Outcome C) (k : Run C → Outcome C)
      → Reached x
      → ((r : Run C) → Reached (k r))
      → Reached (and_then x k)
  and_then-Reached none k h g = absurd (ground arith)
  and_then-Reached (some (none, r)) k h g = g r
  and_then-Reached (some (some e, r)) k h g = ((some e, r), refl)

  pub none_done : {r r' : Run C} → ◌≡◌ {A = Outcome C} (some (none, r)) (some (none, r')) → r ≡ r'
  none_done h = ground arith

  same_outcome :
      {x : Outcome C} {o : Option Error × Run C} {r' : Run C}
      → x ≡ some o
      → x ≡ some (none, r')
      → (o.0 ≡ none) × (o.1 ≡ r')
  same_outcome p h = (ground arith, ground arith)

  -- Two stretches of the log, one behind the other.
  pub chain :
      (l₀ : List C) {l₁ l₂ : List C} (xs ys : List C)
      → l₁ ≡ l₀ ++ xs
      → l₂ ≡ l₁ ++ ys
      → l₂ ≡ l₀ ++ (xs ++ ys)
  chain l₀ xs ys p q = q ∙ ap (λ (l : List C). l ++ ys) p ∙ append_assoc l₀ xs ys

-- Nothing is lost without an error.
no_loss :
    {B : Type 0} (e : Option Error) (lost : List B) → e ≡ none → (lost ≡ []) ⊎ Failed e → lost ≡ []
no_loss e lost h (inl none_lost) = none_lost
no_loss none lost h (inr f) = absurd f
no_loss (some x) lost h (inr f) = absurd (ground arith)

module _ {A B C : Type 0} (c : Aligner A B) (wrap : List B → C) (env : Env) (size : ℕ)
    (pos : 1 ≤ size) where
  rows-ok :
      (baseline target : Result (Rows A)) (r r' : Run C)
      → compare_with c wrap env size baseline target r ≡ some (none, r')
      → (k : Batches size (reported c (join c.key (answers baseline) (answers target)))) × (r'.log
          ≡ r.log ++ map wrap k.lists)
  rows-ok baseline target r r' h =
      let (o, p, d) = compare_with-Ends c wrap env size pos baseline target r in
      let (fine, end) = same_outcome p h in
      (
        record {
          lists = d.batches;
          whole =
              sym (append-nil (concat d.batches))
              ∙ ap (λ (l : List B). concat d.batches ++ l)
                  (sym (no_loss o.0 d.lost fine d.complete))
              ∙ d.order;
          sizes = d.sizes;
        },
        ap (λ (x : Run C). x.log) (sym end) ∙ d.logged,
      )

  rows-Reached :
      (baseline target : Result (Rows A)) (r : Run C)
      → Reached (compare_with c wrap env size baseline target r)
  rows-Reached baseline target r =
      let (o, p, d) = compare_with-Ends c wrap env size pos baseline target r in (o, p)

module _ {F : Type 0} (env : Env) (size : ℕ) (pos : 1 ≤ size) (b t : Database F) where
  abbrev pub keys_of : List KeyDelta
  keys_of = reported key_aligner (join key_aligner.key (answers b.keys) (answers t.keys))

  abbrev pub prefixes_of : List PrefixDelta
  prefixes_of =
      reported prefix_aligner (join prefix_aligner.key (answers b.prefixes) (answers t.prefixes))

  abbrev pub objects_of : List ObjectDelta
  objects_of =
      reported object_aligner (join object_aligner.key (answers b.objects) (answers t.objects))

  abbrev pub resources_of : List ResourceDelta
  resources_of =
      reported resource_aligner
        (join resource_aligner.key (answers b.resources) (answers t.resources))

  abbrev pub namespaces_of : List NamespaceDelta
  namespaces_of =
      reported namespace_aligner
        (join namespace_aligner.key (answers b.namespaces) (answers t.namespaces))

  pub semantic_rows-ok :
      (available : Bool) (r r' : Run (Call F))
      → semantic_rows env size available b t r ≡ some (none, r')
      → (k : Batches size (when available keys_of)) × (p : Batches size
          (when available prefixes_of))
        × (r'.log ≡ r.log ++ (map store_keys k.lists ++ map store_prefixes p.lists))
  unfolding semantic_rows
  semantic_rows-ok false r r' h = (
    no_batches size,
    no_batches size,
    ap (λ (x : Run (Call F)). x.log) (sym (none_done h)) ∙ sym (append-nil r.log),
  )
  semantic_rows-ok true r r' h =
      let (r₁, h₁, h₂) =
        and_then-ok (compare_keys env size b t r) (compare_prefixes env size b t) r' h in
      let (k, e₁) = rows-ok key_aligner store_keys env size pos b.keys t.keys r r₁ h₁ in
      let (p, e₂) =
        rows-ok prefix_aligner store_prefixes env size pos b.prefixes t.prefixes r₁ r' h₂ in
      (k, p, chain r.log (map store_keys k.lists) (map store_prefixes p.lists) e₁ e₂)

  pub kubernetes_rows-ok :
      (available : Bool) (r r' : Run (Call F))
      → kubernetes_rows env size available b t r ≡ some (none, r')
      → (o : Batches size (when available objects_of)) × (q : Batches size
          (when available resources_of))
        × (n : Batches size (when available namespaces_of)) × (r'.log
            ≡ r.log
              ++ (map store_objects o.lists
                  ++ (map store_resources q.lists ++ map store_namespaces n.lists)))
  unfolding kubernetes_rows
  kubernetes_rows-ok false r r' h = (
    no_batches size,
    no_batches size,
    no_batches size,
    ap (λ (x : Run (Call F)). x.log) (sym (none_done h)) ∙ sym (append-nil r.log),
  )
  kubernetes_rows-ok true r r' h =
      let (r₁, h₁, h₂) =
        and_then-ok (compare_objects env size b t r)
          (λ x. and_then (compare_resources env size b t x) (compare_namespaces env size b t)) r'
          h in
      let (r₂, h₃, h₄) =
        and_then-ok (compare_resources env size b t r₁) (compare_namespaces env size b t) r' h₂ in
      let (o, e₁) = rows-ok object_aligner store_objects env size pos b.objects t.objects r r₁ h₁ in
      let (q, e₂) =
        rows-ok resource_aligner store_resources env size pos b.resources t.resources r₁ r₂ h₃ in
      let (n, e₃) =
        rows-ok namespace_aligner store_namespaces env size pos b.namespaces t.namespaces r₂ r'
          h₄ in
      (
        o,
        q,
        n,
        chain r.log (map store_objects o.lists)
            (map store_resources q.lists ++ map store_namespaces n.lists) e₁
            (chain r₁.log (map store_resources q.lists) (map store_namespaces n.lists) e₂ e₃),
      )

  pub send-ok :
      (c : Call F) (r r' : Run (Call F))
      → send env size c r ≡ some (none, r')
      → r'.log ≡ r.log ++ c ∷ []
  unfolding send
  send-ok c r r' h = ground arith

  pub send-Reached : (c : Call F) (r : Run (Call F)) → Reached (send env size c r)
  unfolding send
  send-Reached c r = (_, refl)

  pub semantic_rows-Reached :
      (available : Bool) (r : Run (Call F)) → Reached (semantic_rows env size available b t r)
  unfolding semantic_rows
  semantic_rows-Reached false r = (_, refl)
  semantic_rows-Reached true r =
      and_then-Reached _ (compare_prefixes env size b t)
        (rows-Reached key_aligner store_keys env size pos b.keys t.keys r)
        (λ r. rows-Reached prefix_aligner store_prefixes env size pos b.prefixes t.prefixes r)

  pub kubernetes_rows-Reached :
      (available : Bool) (r : Run (Call F)) → Reached (kubernetes_rows env size available b t r)
  unfolding kubernetes_rows
  kubernetes_rows-Reached false r = (_, refl)
  kubernetes_rows-Reached true r =
      and_then-Reached _
        (λ x. and_then (compare_resources env size b t x) (compare_namespaces env size b t))
        (rows-Reached object_aligner store_objects env size pos b.objects t.objects r)
        (λ r.
          and_then-Reached _ (compare_namespaces env size b t)
            (rows-Reached resource_aligner store_resources env size pos b.resources t.resources r)
            (λ r.
              rows-Reached namespace_aligner store_namespaces env size pos b.namespaces t.namespaces
                r))
