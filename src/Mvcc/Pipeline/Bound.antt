-- ===== src/Mvcc/Pipeline/Bound.antt =====
-- No run goes on for ever.
use etcd_space_inspector.Prelude.{
  ℕ, zero, suc, ◌+◌, ◌*◌, ◌≤◌, ◌<◌, ◌≡◌, ◌≢◌, refl, ap, Bool, true, false, Option, none, List, [],
  ◌∷◌, length, length-append, arith,
}
use etcd_space_inspector.Prelude.Sums.{sum, sum-append}
use etcd_space_inspector.Mvcc.Pipeline.{
  Cause, Pipeline, Coder, Line, Producer, reading, counting, returned, Worker, ready, decoding,
  failing, sending, sent, marking, stopped, Writer, receiving, storing, stored, written, ended,
  all_ready, init, Move, take, finish, decode_fails, decode_ok, count_error, send, give_up,
  count_tombstone, count_record, mark, Step, cancel, scan, count_scanned, scan_end, scan_stop, work,
  close, receive, flush, flush_last, write_end, store, store_fails, count_written, show_written,
  Reach, start, later,
}
use etcd_space_inspector.Mvcc.Pipeline.Sums.{Move-Frame}
use etcd_space_inspector.Mvcc.Pipeline.Phases.{Phases, Proper, Reach-Phases, length-nonempty}

abbrev pub producer_weight : Producer → ℕ
producer_weight reading = 1
producer_weight counting = 2
producer_weight returned = 0

abbrev pub writer_weight : Writer → ℕ
writer_weight receiving = 5
writer_weight (storing last) = 4
writer_weight (stored last n) = 7
writer_weight (written last) = 6
writer_weight ended = 0

abbrev pub unless : Bool → ℕ
unless true = 0
unless false = 1

module _ {A R : Type 0} where
  abbrev pub worker_weight : Worker A R → ℕ
  worker_weight ready = 1
  worker_weight (decoding x) = 10
  worker_weight failing = 2
  worker_weight (sending r) = 9
  worker_weight (sent r) = 3
  worker_weight marking = 2
  worker_weight (stopped r) = 0

  -- It gets smaller with each step.
  abbrev pub left : Line A R → ℕ
  left s =
      12 * length s.source
      + producer_weight s.producer
      + 10 * length s.raw_channel
      + sum worker_weight s.workers
      + 5 * length s.decoded_channel
      + unless s.closed
      + 4 * length s.batch
      + writer_weight s.writer
      + unless s.outside

  abbrev between_channels : Line A R → ℕ
  between_channels s = 10 * length s.raw_channel + 5 * length s.decoded_channel

module _ {A R : Type 0} {coder : Coder A R} {p : Pipeline} where
  Move-outside : {s t : Line A R} {w v : Worker A R} → Move coder p s w t v → t.outside ≡ s.outside
  Move-outside (take e) = refl
  Move-outside m = refl

  Move-left :
      {s t : Line A R} {w v : Worker A R}
      → Move coder p s w t v
      → between_channels t + worker_weight v < between_channels s + worker_weight w
  Move-left (take e) = ground (arith, ap length e)
  Move-left (finish e q) = ground arith
  Move-left (decode_fails e) = ground arith
  Move-left (decode_ok e) = ground arith
  Move-left count_error = ground arith
  Move-left {s} (send {r} h) = ground (arith, length-append s.decoded_channel (r ∷ []))
  Move-left (give_up h) = ground arith
  Move-left (count_tombstone h) = ground arith
  Move-left (count_record h) = ground arith
  Move-left mark = ground arith

  pub Step-left : {s t : Line A R} → Step coder p s t → Phases p s → left t < left s
  Step-left (cancel e) c = ground arith
  Step-left {s} (scan {x} a e b) c =
      ground (arith, length-append s.raw_channel (x ∷ []), ap length e)
  Step-left (count_scanned e) c = ground arith
  Step-left (scan_end a e) c = ground arith
  Step-left (scan_stop a b h) c = ground arith
  Step-left {s} (work before after {w} {v} {t} e m) c =
      let frame = Move-Frame m in
      ground (
        arith,
        Move-left m,
        Move-outside m,
        sum-append worker_weight before (w ∷ after),
        sum-append worker_weight before (v ∷ after),
        ap (sum worker_weight) e,
      )
  Step-left (close a e) c = ground arith
  Step-left {s} (receive {r} a b e) c = ground (arith, length-append s.batch (r ∷ []), ap length e)
  Step-left (flush a b) c = ground arith
  Step-left (flush_last a b x d e) c = ground arith
  Step-left (write_end a b x d) c = ground arith
  Step-left {s} (store a) c = ground (arith, length-nonempty s.batch)
  Step-left (store_fails e a) c = ground arith
  Step-left (count_written a) c = ground arith
  Step-left (show_written {last} a) c = ground arith

  abbrev pub steps : {source : List A} {s : Line A R} → Reach coder p source s → ℕ
  steps start = 0
  steps (later r st) = suc (steps r)

sum-all_ready : (A R : Type 0) (n : ℕ) → sum (worker_weight {A = A} {R = R}) (all_ready n) ≡ n
sum-all_ready A R zero = refl
sum-all_ready A R (suc n) = omega (arith, sum-all_ready A R n)

module _ {A R : Type 0} {coder : Coder A R} {p : Pipeline} (sizes : Proper p)
    (kept : (g : Option Cause) (e : Cause) → coder.joined g e ≢ none) where
  steps-left :
      {source : List A} {s : Line A R} (r : Reach coder p source s)
      → steps r + left s ≤ 12 * length source + p.workers + 8
  unfolding init
  steps-left start = omega (arith, sum-all_ready A R p.workers)
  steps-left (later r st) = omega (arith, steps-left r, Step-left st (Reach-Phases sizes kept r))

  -- However the goroutines are interleaved, a run makes at most twelve steps for each record of the
  -- bucket, one for each worker and eight more.
  pub steps_bound :
      {source : List A} {s : Line A R} (r : Reach coder p source s)
      → steps r ≤ 12 * length source + p.workers + 8
  steps_bound r = omega (arith, steps-left r)
