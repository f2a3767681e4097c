-- ===== src/Mvcc/Run.antt =====
-- RunWithProgress of internal/mvcc/pipeline.go around its goroutines. What the caller gives, the
-- sink and bbolt answer is a `Call`; the bucket's number of keys is the length of its list. The
-- progress messages are those of a caller that wants them.
pub mod Results
use etcd_space_inspector.Prelude.{
  ℕ, ◌≡◌, Bool, true, false, Option, none, some, List, [], ◌∷◌, ◌++◌, length, ltb, if◌then◌else◌,
}
use etcd_space_inspector.Prelude.Bytes.{Bytes}
use etcd_space_inspector.Version.{supports}
use etcd_space_inspector.Mvcc.Pipeline.{
  Cause, Coder, Line, PipelineStats, Progress, Phase, mvcc_scan, mvcc_write, no_stats,
}
use etcd_space_inspector.Mvcc.Decode.{Codec, SafeRecord, decode_record, record_of}

pub record RawRecord : Type 0 where
  pub key : Bytes
  pub value : Bytes

pub record Call : Type 0 where
  pub version : Bytes
  pub version_source : Bytes
  pub reset_fault : Option Bytes
  pub open_fault : Option Bytes
  -- the records of the bucket "key", where there is one
  pub bucket : Option (List RawRecord)

pub data RunError : Type 0 where
  semantic_unavailable : RunError
  reset_failed : Bytes → RunError
  open_failed : Bytes → RunError
  group_failed : Cause → RunError

-- What a run returns, and what it did to the sink: whether it was reset, and the batches stored.
pub record RunResult (R : Type 0) : Type 0 where
  pub stats : PipelineStats
  pub error : Option RunError
  pub was_reset : Bool
  pub sunk : List (List R)
  pub shown : List Progress

module _ {K : Type 0} (codec : Codec K) where
  -- The decoder of the workers, with what the error group does.
  unfoldable pub coder_of : (Option Cause → Cause → Option Cause) → Coder RawRecord (SafeRecord K)
  unfolding decode_record
  coder_of joined = record {
    decode = λ raw. record_of codec (decode_record codec raw.key raw.value);
    is_tombstone = λ r. r.revision.tombstone;
    joined = joined;
  }

-- The last message.
abbrev pub last_progress : PipelineStats → Progress
last_progress stats = record {
  stage = (if ltb 0 stats.written then mvcc_write else mvcc_scan);
  stats = stats;
}

abbrev pub as_error : Option Cause → Option RunError
as_error none = none
as_error (some c) = some (group_failed c)

module _ {R : Type 0} where
  abbrev pub refused_run : RunError → Bool → RunResult R
  refused_run e was_reset = record {
    stats = no_stats 0;
    error = some e;
    was_reset = was_reset;
    sunk = [];
    shown = [];
  }

  abbrev pub on_bucket : (List RawRecord → Line RawRecord R) → Option (List RawRecord) → RunResult R
  on_bucket finish none = record {
    stats = no_stats 0;
    error = some semantic_unavailable;
    was_reset = true;
    sunk = [];
    shown = last_progress (no_stats 0) ∷ [];
  }
  on_bucket finish (some source) =
      let line = finish source in
      record {
        stats = line.stats;
        error = as_error line.failure;
        was_reset = true;
        sunk = line.sunk;
        shown = line.shown ++ last_progress line.stats ∷ [];
      }

  abbrev pub after_open : (List RawRecord → Line RawRecord R) → Option Bytes → Call → RunResult R
  after_open finish (some e) call = refused_run (open_failed e) true
  after_open finish none call = on_bucket finish call.bucket

  abbrev pub after_reset : (List RawRecord → Line RawRecord R) → Option Bytes → Call → RunResult R
  after_reset finish (some e) call = refused_run (reset_failed e) true
  after_reset finish none call = after_open finish call.open_fault call

  -- `finish` is the state in which the goroutines leave the line.
  unfoldable pub run_with_progress : (List RawRecord → Line RawRecord R) → Call → RunResult R
  unfolding supports
  run_with_progress finish call =
      if supports call.version call.version_source
      then after_reset finish call.reset_fault call
      else refused_run semantic_unavailable false
