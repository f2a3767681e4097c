-- ===== src/Mvcc/Pipeline/Whole.antt =====
-- What a run without an error has done.
use etcd_space_inspector.Prelude.{
  ℕ, zero, suc, ◌+◌, ◌≡◌, ◌≢◌, refl, Option, none, List, [], ◌∷◌, length, All, arith,
}
use etcd_space_inspector.Prelude.Sums.{sum}
use etcd_space_inspector.Mvcc.Pipeline.{
  Cause, Pipeline, Coder, Line, Worker, stopped, all_ready, init, Reach, start, later, Ended,
}
use etcd_space_inspector.Mvcc.Pipeline.Sums.{value, carried, held, Step-held}
use etcd_space_inspector.Mvcc.Pipeline.Counts.{
  Reach-Counts, uncounted, faulty, faulty_in, tombstone, unmarked,
}
use etcd_space_inspector.Mvcc.Pipeline.Phases.{
  Phases, Proper, Sized, Reach-Phases, is_running, gave_up, finished, running-all_stopped,
}

module _ {A R : Type 0} (coder : Coder A R) (p : Pipeline) where
  sum-ready : (f : R → ℕ) (n : ℕ) → sum (carried coder f) (all_ready n) ≡ 0
  sum-ready f zero = ground arith
  sum-ready f (suc n) = omega (arith, sum-ready f n)

  -- Whatever a record weighs, the line holds the weight of the whole bucket at any time.
  pub Reach-held :
      {source : List A} {s : Line A R} (f : R → ℕ)
      → Reach coder p source s
      → held coder f s ≡ sum (value coder f) source
  unfolding init
  Reach-held f start = ground (arith, sum-ready f p.workers)
  Reach-held f (later r st) = omega (arith, Reach-held f r, Step-held coder f st)

  -- The workers have returned, all at the end of the channel.
  module _ (ws : List (Worker A R)) where
    abbrev Through : Type 0
    Through = (sum is_running ws ≡ 0) × (sum gave_up ws ≡ 0)

  carried_none : (f : R → ℕ) (ws : List (Worker A R)) → Through ws → sum (carried coder f) ws ≡ 0
  carried_none f [] h = ground arith
  carried_none f (stopped none ∷ ws) h = ground (arith, carried_none f ws)
  carried_none f (w ∷ ws) h = ground arith

  uncounted_none : (ws : List (Worker A R)) → Through ws → sum (uncounted coder) ws ≡ 0
  uncounted_none [] h = ground arith
  uncounted_none (w ∷ ws) h = ground (arith, uncounted_none ws)

  faulty_none : (ws : List (Worker A R)) → Through ws → sum (faulty_in coder) ws ≡ 0
  faulty_none [] h = ground arith
  faulty_none (w ∷ ws) h = ground (arith, faulty_none ws)

  unmarked_none : (ws : List (Worker A R)) → Through ws → sum (unmarked coder) ws ≡ 0
  unmarked_none [] h = ground arith
  unmarked_none (w ∷ ws) h = ground (arith, unmarked_none ws)

  finished_all : (ws : List (Worker A R)) → Through ws → sum finished ws ≡ length ws
  finished_all [] h = ground arith
  finished_all (w ∷ ws) h = ground (arith, finished_all ws)

  -- All that was in the bucket is where it belongs.
  pub record Faithful (source : List A) (s : Line A R) : Type 0 where
    pub all_stored : (f : R → ℕ) → sum (sum f) s.sunk ≡ sum (value coder f) source
    pub all_sized : All (Sized p) s.sunk
    pub scanned : s.stats.scanned ≡ length source
    pub decode_errors : s.stats.decode_errors ≡ sum (faulty coder) source
    pub decoded : s.stats.decoded + s.stats.decode_errors ≡ s.stats.scanned
    pub written : s.stats.written ≡ s.stats.decoded
    pub tombstones : s.stats.tombstones ≡ sum (value coder (tombstone coder)) source

  size-sum : (l : List R) → sum (λ (r : R). 1) l ≡ length l
  size-sum [] = refl
  size-sum (x ∷ l) = omega (arith, size-sum l)

  sizes_sum : (l : List (List R)) → sum (sum (λ (r : R). 1)) l ≡ sum (length {A = R}) l
  sizes_sum [] = refl
  sizes_sum (x ∷ l) = omega (arith, size-sum x, sizes_sum l)

  -- A raw record decodes or does not.
  value-faulty : (l : List A) → sum (value coder (λ (r : R). 1)) l + sum (faulty coder) l ≡ length l
  value-faulty [] = ground arith
  value-faulty (x ∷ l) = ground (arith, value-faulty l)

  stored_weight :
      {source : List A} {s : Line A R}
      → Ended s
      → s.failure ≡ none
      → Phases p s
      → Through s.workers
      → Proper p
      → Reach coder p source s
      → (f : R → ℕ) → sum (sum f) s.sunk ≡ sum (value coder f) source
  stored_weight {source} {s} e ok phases through sizes r f =
      ground (arith, Reach-held f r, carried_none f s.workers, finished_all s.workers)

  -- A run that ends without an error has handed every record of the bucket that decodes to the
  -- sink, once, in batches of one up to the batch size, and its counters are exact.
  pub ended-Faithful :
      {source : List A} {s : Line A R}
      → Proper p
      → ((g : Option Cause) (e : Cause) → coder.joined g e ≢ none)
      → Reach coder p source s
      → Ended s
      → s.failure ≡ none
      → Faithful source s
  ended-Faithful {source} {s} sizes kept r e ok =
      let phases = Reach-Phases sizes kept r in
      let counts = Reach-Counts coder r in
      let quiet = running-all_stopped s.workers e.workers in
      let through : Through s.workers = (quiet, phases.none_gave_up ok) in
      let stored = stored_weight e ok phases through sizes r in
      record {
        all_stored = stored;
        all_sized = phases.all_sized;
        scanned = ground arith;
        decode_errors = ground (arith, faulty_none s.workers, finished_all s.workers);
        decoded = ground (
          arith,
          faulty_none s.workers,
          uncounted_none s.workers,
          finished_all s.workers,
          stored (λ (r : R). 1),
          sizes_sum s.sunk,
          value-faulty source,
        );
        written = ground (arith, uncounted_none s.workers);
        tombstones = ground (arith, unmarked_none s.workers, stored (tombstone coder));
      }
