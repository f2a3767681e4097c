-- ===== src/Mvcc/Pipeline.antt =====
-- internal/mvcc/pipeline.go: the goroutines of one run, interleaved in any order. A step is one
-- operation on a channel, on an atomic counter or on the sink, and the choice of a `select` with
-- both cases ready is free. The five counters of one progress message are read in one step. What the
-- error group keeps of the errors of its goroutines is the parameter `joined`, and its context is
-- done when the run is cancelled from outside or the group has an error.
pub mod Sums
pub mod Counts
pub mod Phases
pub mod Bound
pub mod Live
pub mod Ends
pub mod Whole
use etcd_space_inspector.Prelude.{
  ℕ, zero, suc, ◌+◌, ◌<◌, ◌≡◌, ◌≢◌, Bool, true, false, ◌||◌, Option, none, some, List, [], ◌∷◌,
  ◌++◌, length, ltb, if◌then◌else◌,
}
use etcd_space_inspector.Prelude.Bytes.{Bytes}
use etcd_space_inspector.Prelude.Strings.{is_some}

-- What ends a goroutine with an error.
pub data Cause : Type 0 where
  context_done : Cause
  sink_failed : Bytes → Cause

pub record Pipeline : Type 0 where
  pub workers : ℕ
  pub channel_size : ℕ
  pub batch_size : ℕ

abbrev pub at_least_one : ℕ → ℕ
at_least_one n = if ltb n 1 then 1 else n

-- NewPipeline; a negative argument counts as zero.
unfoldable pub new_pipeline : ℕ → ℕ → ℕ → Pipeline
new_pipeline workers channel_size batch_size = record {
  workers = at_least_one workers;
  channel_size = at_least_one channel_size;
  batch_size = at_least_one batch_size;
}

pub record PipelineStats : Type 0 where
  pub scanned : ℕ
  pub decoded : ℕ
  pub written : ℕ
  pub total : ℕ
  pub decode_errors : ℕ
  pub tombstones : ℕ

pub data Phase : Type 0 where
  mvcc_scan mvcc_write : Phase

pub record Progress : Type 0 where
  pub stage : Phase
  pub stats : PipelineStats

-- The scan: between two records, between a send and its count, or returned (with the raw channel
-- closed).
pub data Producer : Type 0 where
  reading counting returned : Producer

-- A worker: at the head of its loop, with a raw record, with a decoding error or a sent record or
-- its tombstone still to be counted, before the send, or returned, with the record it gave up.
pub data Worker (A R : Type 0) : Type 0 where
  ready : Worker A R
  decoding : A → Worker A R
  failing : Worker A R
  sending : R → Worker A R
  sent : R → Worker A R
  marking : Worker A R
  stopped : Option R → Worker A R

-- The writer: at the head of its loop, at the store of a batch, at the count of a stored one, at the
-- message about it, or returned. True is the batch behind the loop.
pub data Writer : Type 0 where
  receiving : Writer
  storing : Bool → Writer
  stored : Bool → ℕ → Writer
  written : Bool → Writer
  ended : Writer

pub record Line (A R : Type 0) : Type 0 where
  pub source : List A
  pub producer : Producer
  pub raw_channel : List A
  pub workers : List (Worker A R)
  pub decoded_channel : List R
  pub closed : Bool
  pub batch : List R
  pub writer : Writer
  pub sunk : List (List R)
  pub stats : PipelineStats
  pub shown : List Progress
  pub failure : Option Cause
  pub outside : Bool

abbrev pub no_stats : ℕ → PipelineStats
no_stats total = record {
  scanned = 0;
  decoded = 0;
  written = 0;
  total = total;
  decode_errors = 0;
  tombstones = 0;
}

abbrev pub next_writer : Bool → Writer
next_writer true = ended
next_writer false = receiving

module _ {A R : Type 0} where
  -- groupContext.Done()
  abbrev pub is_done : Line A R → Bool
  is_done s = s.outside || is_some s.failure

  abbrev pub is_stopped : Worker A R → Bool
  is_stopped (stopped r) = true
  is_stopped _ = false

  abbrev pub all_stopped : List (Worker A R) → Bool
  all_stopped [] = true
  all_stopped (w ∷ ws) = if is_stopped w then all_stopped ws else false

  abbrev pub all_ready : ℕ → List (Worker A R)
  all_ready zero = []
  all_ready (suc n) = ready ∷ all_ready n

  -- emit
  abbrev pub emit : Phase → Line A R → List Progress
  emit phase s = s.shown ++ record { stage = phase; stats = s.stats } ∷ []

  unfoldable pub init : Pipeline → List A → Line A R
  init p source = record {
    source = source;
    producer = reading;
    raw_channel = [];
    workers = all_ready p.workers;
    decoded_channel = [];
    closed = false;
    batch = [];
    writer = receiving;
    sunk = [];
    stats = no_stats (length source);
    shown = record { stage = mvcc_scan; stats = no_stats (length source) } ∷ [];
    failure = none;
    outside = false;
  }

-- How the records are decoded, and what the error group keeps.
pub record Coder (A R : Type 0) : Type 0 where
  pub decode : A → Option R
  pub is_tombstone : R → Bool
  pub joined : Option Cause → Cause → Option Cause

module _ {A R : Type 0} (coder : Coder A R) (p : Pipeline) where
  -- One worker, beside the rest of the line.
  pub data Move (s : Line A R) : Worker A R → Line A R → Worker A R → Type 0 where
    take :
        {x : A} {xs : List A}
        → s.raw_channel ≡ x ∷ xs
        → Move s ready (record s { raw_channel = xs }) (decoding x)
    finish : s.raw_channel ≡ [] → s.producer ≡ returned → Move s ready s (stopped none)
    decode_fails : {x : A} → coder.decode x ≡ none → Move s (decoding x) s failing
    decode_ok : {x : A} {r : R} → coder.decode x ≡ some r → Move s (decoding x) s (sending r)
    count_error :
        Move s failing
          (record s { stats = record s.stats { decode_errors = s.stats.decode_errors + 1 } })
          ready
    send :
        {r : R}
        → length s.decoded_channel < p.channel_size
        → Move s (sending r) (record s { decoded_channel = s.decoded_channel ++ r ∷ [] }) (sent r)
    give_up :
        {r : R}
        → is_done s ≡ true
        → Move s
            (sending r)
            (record s { failure = coder.joined s.failure context_done })
            (stopped (some r))
    count_tombstone :
        {r : R}
        → coder.is_tombstone r ≡ true
        → Move s
            (sent r)
            (record s { stats = record s.stats { decoded = s.stats.decoded + 1 } })
            marking
    count_record :
        {r : R}
        → coder.is_tombstone r ≡ false
        → Move s
            (sent r)
            (record s { stats = record s.stats { decoded = s.stats.decoded + 1 } })
            ready
    mark :
        Move s marking
          (record s { stats = record s.stats { tombstones = s.stats.tombstones + 1 } })
          ready

  -- One step of any goroutine, or a cancellation from outside.
  pub data Step (s : Line A R) : Line A R → Type 0 where
    cancel : s.outside ≡ false → Step s (record s { outside = true })
    scan :
        {x : A} {xs : List A}
        → s.producer ≡ reading
        → s.source ≡ x ∷ xs
        → length s.raw_channel < p.channel_size
        → Step s
            (record s { source = xs; raw_channel = s.raw_channel ++ x ∷ []; producer = counting })
    count_scanned :
        s.producer ≡ counting
        → Step s (record s {
          producer = reading;
          stats = record s.stats { scanned = s.stats.scanned + 1 };
        })
    scan_end : s.producer ≡ reading → s.source ≡ [] → Step s (record s { producer = returned })
    scan_stop :
        s.producer ≡ reading
        → s.source ≢ []
        → is_done s ≡ true
        → Step s (record s { producer = returned; failure = coder.joined s.failure context_done })
    work :
        (before after : List (Worker A R)) {w v : Worker A R} {t : Line A R}
        → s.workers ≡ before ++ w ∷ after
        → Move s w t v
        → Step s (record t { workers = before ++ v ∷ after })
    close : s.closed ≡ false → all_stopped s.workers ≡ true → Step s (record s { closed = true })
    receive :
        {r : R} {rs : List R}
        → s.writer ≡ receiving
        → length s.batch < p.batch_size
        → s.decoded_channel ≡ r ∷ rs
        → Step s (record s { decoded_channel = rs; batch = s.batch ++ r ∷ [] })
    flush :
        s.writer ≡ receiving
        → length s.batch ≡ p.batch_size
        → Step s (record s { writer = storing false; shown = emit mvcc_scan s })
    flush_last :
        s.writer ≡ receiving
        → length s.batch < p.batch_size
        → s.closed ≡ true
        → s.decoded_channel ≡ []
        → s.batch ≢ []
        → Step s (record s { writer = storing true; shown = emit mvcc_scan s })
    write_end :
        s.writer ≡ receiving
        → s.closed ≡ true
        → s.decoded_channel ≡ []
        → s.batch ≡ []
        → Step s (record s { writer = ended })
    store :
        {last : Bool}
        → s.writer ≡ storing last
        → Step s (record s {
          sunk = s.sunk ++ s.batch ∷ [];
          batch = [];
          writer = stored last (length s.batch);
        })
    store_fails :
        {last : Bool} (e : Cause)
        → s.writer ≡ storing last
        → Step s (record s { writer = ended; failure = coder.joined s.failure e })
    count_written :
        {last : Bool} {n : ℕ}
        → s.writer ≡ stored last n
        → Step s (record s {
          writer = written last;
          stats = record s.stats { written = s.stats.written + n };
        })
    show_written :
        {last : Bool}
        → s.writer ≡ written last
        → Step s (record s { writer = next_writer last; shown = emit mvcc_write s })

  pub data Reach (source : List A) : Line A R → Type 0 where
    start : Reach source (init p source)
    later : {s t : Line A R} → Reach source s → Step s t → Reach source t

-- group.Wait() returns: every goroutine has.
pub record Ended {A R : Type 0} (s : Line A R) : Type 0 where
  pub producer : s.producer ≡ returned
  pub workers : all_stopped s.workers ≡ true
  pub closed : s.closed ≡ true
  pub writer : s.writer ≡ ended
