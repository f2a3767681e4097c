-- ===== src/Mvcc/Pipeline/Ends.antt =====
-- Every run can come to its end.
use etcd_space_inspector.Prelude.{
  ℕ, zero, suc, ◌≤◌, ◌≡◌, ◌≢◌, inl, inr, false, Option, none, List, arith,
}
use etcd_space_inspector.Mvcc.Pipeline.{Cause, Pipeline, Coder, Line, Reach, later, Ended, is_done}
use etcd_space_inspector.Mvcc.Pipeline.Phases.{Proper, Reach-Phases}
use etcd_space_inspector.Mvcc.Pipeline.Bound.{left, Step-left}
use etcd_space_inspector.Mvcc.Pipeline.Live.{Reach-Next}

-- An end of the run, and a calm one where nothing has gone wrong before.
pub record Ending {A R : Type 0} (coder : Coder A R) (p : Pipeline) (source : List A)
    (s t : Line A R) : Type 0 where
  pub reached : Reach coder p source t
  pub ended : Ended t
  pub calm : is_done s ≡ false → is_done t ≡ false

module _ {A R : Type 0} {coder : Coder A R} {p : Pipeline} (sizes : Proper p)
    (kept : (g : Option Cause) (e : Cause) → coder.joined g e ≢ none) {source : List A} where
  ends_within :
      (n : ℕ) (s : Line A R)
      → left s ≤ n
      → Reach coder p source s
      → (t : Line A R) × Ending coder p source s t
  ends_within zero s h r = elim (Reach-Next coder p sizes kept r) [
    | inr e ↦ (s, record { reached = r; ended = e; calm = λ d. d })
    | inl (t, st, d) ↦ absurd (omega (arith, Step-left st (Reach-Phases sizes kept r)))
  ]
  ends_within (suc n) s h r = elim (Reach-Next coder p sizes kept r) [
    | inr e ↦ (s, record { reached = r; ended = e; calm = λ d. d })
    | inl (t, st, d) ↦
        let (u, e) =
          ends_within n t (omega (arith, Step-left st (Reach-Phases sizes kept r))) (later r st) in
        (u, record { reached = e.reached; ended = e.ended; calm = λ q. e.calm (d q) })
  ]

  -- From every state of a run its goroutines can go on until all have returned; where nothing has
  -- failed and nobody has cancelled, so that nothing has at the end.
  pub Reach-ends :
      (s : Line A R) → Reach coder p source s → (t : Line A R) × Ending coder p source s t
  Reach-ends s r = ends_within (left s) s (omega arith) r
