-- ===== src/Diff/Compare/Whole.antt =====
-- Calculator.Compare from its first check to its last batch.
use etcd_space_inspector.Prelude.{
  ℕ, ◌≤◌, ◌≡◌, refl, ap, ◌∙◌, Bool, true, false, none, some, List, [], ◌∷◌, ◌++◌, map, arith,
}
use etcd_space_inspector.Prelude.Bytes.{same}
use etcd_space_inspector.Diff.Rows.{Result, ok, err}
use etcd_space_inspector.Diff.Aligner.{Env, Run}
use etcd_space_inspector.Diff.Parts.{Floats, SourceTask, Summary}
use etcd_space_inspector.Diff.Compare.{
  Database, Call, reset_results, save_summary, store_keys, store_prefixes, store_objects,
  store_resources, store_namespaces, and_then, send, check_context, semantic_rows, kubernetes_rows,
  summarize, save_and_compare, compare_distinct, compare, new_calculator,
}
use etcd_space_inspector.Diff.Compare.Complete.{
  Batches, when, Reached, and_then-ok, and_then-Reached, semantic_rows-ok, kubernetes_rows-ok,
  send-ok, send-Reached, semantic_rows-Reached, kubernetes_rows-Reached, chain, keys_of,
  prefixes_of, objects_of, resources_of, namespaces_of,
}

-- A calculator never works with an empty batch.
pub new_calculator-pos : (size : ℕ) → 1 ≤ new_calculator size
unfolding new_calculator
new_calculator-pos size = ground arith

module _ {F : Type 0} (ops : Floats F) (baseline target : SourceTask) (window : ℕ) (env : Env)
    (size : ℕ) (pos : 1 ≤ size) (b t : Database F) where
  -- What a comparison that ended without an error has told the sink.
  pub record Complete (log log' : List (Call F)) : Type 0 where
    pub distinct : same baseline.id target.id ≡ false
    pub summary : Summary F
    pub read : summarize ops baseline target window b t ≡ ok summary
    pub keys : Batches size (when summary.mvcc.available (keys_of env size pos b t))
    pub prefixes : Batches size (when summary.mvcc.available (prefixes_of env size pos b t))
    pub objects : Batches size (when summary.kubernetes.available (objects_of env size pos b t))
    pub resources : Batches size (when summary.kubernetes.available (resources_of env size pos b t))
    pub namespaces :
        Batches size (when summary.kubernetes.available (namespaces_of env size pos b t))
    pub logged :
        log'
        ≡ log
          ++ (reset_results
              ∷ save_summary summary
              ∷ ((map store_keys keys.lists ++ map store_prefixes prefixes.lists)
                  ++ (map store_objects objects.lists
                      ++ (map store_resources resources.lists
                          ++ map store_namespaces namespaces.lists))))

  saved-Complete :
      (x : Result (Summary F))
      → summarize ops baseline target window b t ≡ x
      → same baseline.id target.id ≡ false
      → (log : List (Call F)) (r r' : Run (Call F)) → r.log ≡ log ++ reset_results ∷ []
      → save_and_compare ops baseline target window env size b t x r ≡ some (none, r')
      → Complete log r'.log
  unfolding save_and_compare
  saved-Complete (err e) read d log r r' start h = absurd (ground arith)
  saved-Complete (ok s) read d log r r' start h =
      let (r₁, h₁, h₂) =
        and_then-ok (send env size (save_summary s) r)
          (λ x.
            and_then (semantic_rows env size s.mvcc.available b t x)
              (λ y. kubernetes_rows env size s.kubernetes.available b t y))
          r' h in
      let (r₂, h₃, h₄) =
        and_then-ok (semantic_rows env size s.mvcc.available b t r₁)
          (λ y. kubernetes_rows env size s.kubernetes.available b t y) r' h₂ in
      let e₁ = send-ok env size pos b t (save_summary s) r r₁ h₁ in
      let (k, p, e₂) = semantic_rows-ok env size pos b t s.mvcc.available r₁ r₂ h₃ in
      let (o, q, n, e₃) = kubernetes_rows-ok env size pos b t s.kubernetes.available r₂ r' h₄ in
      record {
        distinct = d;
        summary = s;
        read = read;
        keys = k;
        prefixes = p;
        objects = o;
        resources = q;
        namespaces = n;
        logged = chain log (reset_results ∷ []) _ start (
            chain r.log (save_summary s ∷ []) _ e₁
              (chain r₁.log (map store_keys k.lists ++ map store_prefixes p.lists) _ e₂ e₃));
      }

  distinct-Complete :
      (same_ids : Bool) (r r₀ r' : Run (Call F))
      → same baseline.id target.id ≡ same_ids
      → r.log ≡ r₀.log
      → compare_distinct ops baseline target window env size b t r ≡ some (none, r')
      → Complete r₀.log r'.log
  unfolding compare_distinct
  distinct-Complete true r r₀ r' e l h = absurd (ground arith)
  distinct-Complete false r r₀ r' e l h =
      let k =
        save_and_compare ops baseline target window env size b t
          (summarize ops baseline target window b t) in
      let (r₁, h₁, h₂) = and_then-ok (send env size reset_results r) k r' (rw e at h) in
      saved-Complete (summarize ops baseline target window b t) refl e r₀.log r₁ r'
        (send-ok env size pos b t reset_results r r₁ h₁
          ∙ ap (λ (x : List (Call F)). x ++ reset_results ∷ []) l)
        h₂

  -- A comparison that returns no error was between two different tasks, has read the summary, and has
  -- told the sink, in this order: to reset, the summary, and the reported rows of the full outer joins, in batches of one
  -- to `size` items, the keys and prefixes exactly when the MVCC part is available, the objects, resources and namespaces
  -- exactly when the Kubernetes part is.
  pub compare-Complete :
      (r r' : Run (Call F))
      → compare ops baseline target window env size b t r ≡ some (none, r')
      → Complete r.log r'.log
  unfolding compare
  compare-Complete r r' h =
      let (r₁, h₁, h₂) =
        and_then-ok (check_context env size r)
          (compare_distinct ops baseline target window env size b t) r' h in
      distinct-Complete (same baseline.id target.id) r₁ r r' refl (ground arith) h₂

  save_and_compare-Reached :
      (x : Result (Summary F)) (r : Run (Call F))
      → Reached (save_and_compare ops baseline target window env size b t x r)
  unfolding save_and_compare
  save_and_compare-Reached (err e) r = (_, refl)
  save_and_compare-Reached (ok s) r =
      and_then-Reached _
        (λ x.
          and_then (semantic_rows env size s.mvcc.available b t x)
            (λ y. kubernetes_rows env size s.kubernetes.available b t y))
        (send-Reached env size pos b t (save_summary s) r)
        (λ x.
          and_then-Reached _ (λ y. kubernetes_rows env size s.kubernetes.available b t y)
            (semantic_rows-Reached env size pos b t s.mvcc.available x)
            (kubernetes_rows-Reached env size pos b t s.kubernetes.available))

  distinct-Reached :
      (same_ids : Bool) (r : Run (Call F))
      → same baseline.id target.id ≡ same_ids
      → Reached (compare_distinct ops baseline target window env size b t r)
  unfolding compare_distinct
  distinct-Reached true r e = rw e (_, refl)
  distinct-Reached false r e = rw e (
      and_then-Reached _
        (save_and_compare ops baseline target window env size b t
          (summarize ops baseline target window b t))
        (send-Reached env size pos b t reset_results r)
        (save_and_compare-Reached (summarize ops baseline target window b t)))

  -- A comparison always returns: the fuel of its five loops is enough, whatever the databases, the
  -- context and the sink answer.
  pub compare-Reached :
      (r : Run (Call F)) → Reached (compare ops baseline target window env size b t r)
  unfolding compare
  compare-Reached r =
      and_then-Reached _ (compare_distinct ops baseline target window env size b t) (_, refl)
        (λ x. distinct-Reached (same baseline.id target.id) x refl)
