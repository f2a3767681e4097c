-- ===== src/Mvcc/Pipeline/Phases.antt =====
-- Who has returned, and what then is empty; how full the channels and the batch are.
use etcd_space_inspector.Prelude.{
  ℕ, zero, suc, ◌≤◌, ◌<◌, ◌≡◌, ◌≢◌, refl, ap, Bool, true, false, Option, none, some, List, [], ◌∷◌,
  ◌++◌, length, length-append, All, arith,
}
use etcd_space_inspector.Prelude.Sums.{sum, sum-append}
use etcd_space_inspector.Mvcc.Pipeline.{
  Cause, Pipeline, new_pipeline, Coder, Line, returned, Worker, stopped, Writer, storing, stored,
  written, ended, all_ready, init, all_stopped, Move, take, finish, decode_fails, decode_ok,
  count_error, send, give_up, count_tombstone, count_record, mark, Step, cancel, scan,
  count_scanned, scan_end, scan_stop, work, close, receive, flush, flush_last, write_end, store,
  store_fails, count_written, show_written, Reach, start, later,
}
use etcd_space_inspector.Mvcc.Pipeline.Sums.{Move-Frame}

-- The batch behind the loop is being stored, or has been.
abbrev pub at_last : Writer → Bool
at_last (storing last) = last
at_last (stored last n) = last
at_last (written last) = last
at_last _ = false

abbrev pub is_storing : Writer → Bool
is_storing (storing last) = true
is_storing _ = false

abbrev pub between : Writer → Bool
between (stored last n) = true
between (written last) = true
between _ = false

-- What NewPipeline makes sure of.
pub record Proper (p : Pipeline) : Type 0 where
  pub workers : 0 < p.workers
  pub channel_size : 0 < p.channel_size
  pub batch_size : 0 < p.batch_size

pub new_pipeline-Proper : (w c b : ℕ) → Proper (new_pipeline w c b)
unfolding new_pipeline
new_pipeline-Proper w c b = ground arith

-- A batch handed to the sink: not empty, and not above the batch size.
abbrev pub Sized : {R : Type 0} → Pipeline → List R → Type 0
Sized p b = (0 < length b) × (length b ≤ p.batch_size)

module _ {A R : Type 0} where
  abbrev pub is_running : Worker A R → ℕ
  is_running (stopped r) = 0
  is_running _ = 1

  -- Returned with an error.
  abbrev pub gave_up : Worker A R → ℕ
  gave_up (stopped (some r)) = 1
  gave_up _ = 0

  -- Returned at the end of the raw channel.
  abbrev pub finished : Worker A R → ℕ
  finished (stopped none) = 1
  finished _ = 0

  pub running-all_stopped : (ws : List (Worker A R)) → all_stopped ws ≡ true → sum is_running ws ≡ 0
  running-all_stopped [] h = refl
  running-all_stopped (w ∷ ws) h = ground (arith, running-all_stopped ws)

  pub all_stopped-running : (ws : List (Worker A R)) → sum is_running ws ≡ 0 → all_stopped ws ≡ true
  all_stopped-running [] h = refl
  all_stopped-running (w ∷ ws) h = ground (arith, all_stopped-running ws)

  pub record Phases (p : Pipeline) (s : Line A R) : Type 0 where
    pub raw_fits : length s.raw_channel ≤ p.channel_size
    pub decoded_fits : length s.decoded_channel ≤ p.channel_size
    pub batch_fits : length s.batch ≤ p.batch_size
    pub storing_some : is_storing s.writer ≡ true → s.batch ≢ []
    pub stored_all : between s.writer ≡ true → s.batch ≡ []
    pub all_sized : All (Sized p) s.sunk
    pub scanned_all : s.producer ≡ returned → s.failure ≡ none → s.source ≡ []
    pub finished_late : 0 < sum finished s.workers → (s.producer ≡ returned) × (s.raw_channel ≡ [])
    pub none_gave_up : s.failure ≡ none → sum gave_up s.workers ≡ 0
    pub closed_late : s.closed ≡ true → sum is_running s.workers ≡ 0
    pub last_late : at_last s.writer ≡ true → (s.closed ≡ true) × (s.decoded_channel ≡ [])
    pub ended_late :
        s.writer ≡ ended
        → s.failure ≡ none
        → (s.closed ≡ true) × (s.decoded_channel ≡ []) × (s.batch ≡ [])
    pub as_many : length s.workers ≡ p.workers

module _ {R : Type 0} where
  All-append :
      (p : Pipeline) (l : List (List R)) (b : List R)
      → All (Sized p) l
      → Sized p b
      → All (Sized p) (l ++ b ∷ [])
  All-append p [] b a h = (h, tt)
  All-append p (x ∷ l) b (h, a) k = (h, All-append p l b a k)

  pub length-nonempty : (l : List R) → l ≢ [] → 0 < length l
  length-nonempty [] h = absurd (h refl)
  length-nonempty (x ∷ l) h = omega arith

all_ready-sums :
    (A R : Type 0) (n : ℕ)
    → (sum finished (all_ready {A = A} {R = R} n) ≡ 0)
      × (sum gave_up (all_ready {A = A} {R = R} n) ≡ 0)
      × (sum is_running (all_ready {A = A} {R = R} n) ≡ n)
      × (length (all_ready {A = A} {R = R} n) ≡ n)
all_ready-sums A R zero = ground arith
all_ready-sums A R (suc n) = let h = all_ready-sums A R n in ground arith

-- What one worker does to the channels and the error.
record Turn {A R : Type 0} (p : Pipeline) (s : Line A R) (w : Worker A R) (t : Line A R)
    (v : Worker A R) : Type 0 where
  raw_less : length t.raw_channel ≤ length s.raw_channel
  raw_stays : s.raw_channel ≡ [] → t.raw_channel ≡ []
  decoded_fits :
      length s.decoded_channel ≤ p.channel_size → length t.decoded_channel ≤ p.channel_size
  was_running : is_running w ≡ 1
  was_finished : finished w ≡ 0
  fails_or : t.failure ≡ none → (s.failure ≡ none) × (gave_up v ≡ gave_up w)
  finishes : 0 < finished v → (s.producer ≡ returned) × (s.raw_channel ≡ [])

module _ {A R : Type 0} {coder : Coder A R} {p : Pipeline} (sizes : Proper p)
    (kept : (g : Option Cause) (e : Cause) → coder.joined g e ≢ none) where
  Move-Turn : {s t : Line A R} {w v : Worker A R} → Move coder p s w t v → Turn p s w t v
  Move-Turn (take e) = ground (arith, ap length e)
  Move-Turn (finish e q) = ground arith
  Move-Turn (decode_fails e) = ground arith
  Move-Turn (decode_ok e) = ground arith
  Move-Turn count_error = ground arith
  Move-Turn {s} (send {r} h) = ground (arith, length-append s.decoded_channel (r ∷ []))
  Move-Turn {s} (give_up h) = ground (arith, kept s.failure Cause.context_done)
  Move-Turn (count_tombstone h) = ground arith
  Move-Turn (count_record h) = ground arith
  Move-Turn mark = ground arith

  Step-Phases : {s t : Line A R} → Step coder p s t → Phases p s → Phases p t
  Step-Phases (cancel e) c = ground arith
  Step-Phases {s} (scan {x} a e b) c = ground (arith, length-append s.raw_channel (x ∷ []))
  Step-Phases (count_scanned e) c = ground arith
  Step-Phases (scan_end a e) c = ground arith
  Step-Phases {s} (scan_stop a b h) c = ground (arith, kept s.failure Cause.context_done)
  Step-Phases {s} (work before after {w} {v} {t} e m) c =
      let frame = Move-Frame m in
      let turn = Move-Turn m in
      ground (
        arith,
        sum-append is_running before (w ∷ after),
        sum-append is_running before (v ∷ after),
        sum-append gave_up before (w ∷ after),
        sum-append gave_up before (v ∷ after),
        sum-append finished before (w ∷ after),
        sum-append finished before (v ∷ after),
        length-append before (w ∷ after),
        length-append before (v ∷ after),
        ap (sum is_running) e,
        ap (sum gave_up) e,
        ap (sum finished) e,
        ap length e,
      )
  Step-Phases {s} (close a e) c = ground (arith, running-all_stopped s.workers e)
  Step-Phases {s} (receive {r} a b e) c =
      ground (arith, length-append s.batch (r ∷ []), ap length e)
  Step-Phases {s} (flush a b) c = ground (arith, sizes.batch_size)
  Step-Phases (flush_last a b x d e) c = ground arith
  Step-Phases (write_end a b x d) c = ground arith
  Step-Phases {s} (store a) c = ground (arith, length-nonempty s.batch, All-append p s.sunk s.batch)
  Step-Phases {s} (store_fails e a) c = ground (arith, kept s.failure e)
  Step-Phases (count_written a) c = ground arith
  Step-Phases (show_written {last} a) c = ground arith

  pub Reach-Phases : {source : List A} {s : Line A R} → Reach coder p source s → Phases p s
  unfolding init
  Reach-Phases start = let h = all_ready-sums A R p.workers in ground arith
  Reach-Phases (later r st) = Step-Phases st (Reach-Phases r)
