-- ===== src/Mvcc/Run/Results.antt =====
-- What a run of the pipeline returns.
use etcd_space_inspector.Prelude.{
  ℕ, ◌+◌, ◌≡◌, ◌≢◌, inl, inr, refl, true, Option, none, some, List, length, All, arith, Bool-cases,
}
use etcd_space_inspector.Prelude.Bytes.{Bytes}
use etcd_space_inspector.Prelude.Sums.{sum}
use etcd_space_inspector.Version.{supports}
use etcd_space_inspector.Mvcc.Pipeline.{Cause, Coder, Pipeline, Line, Reach, Ended}
use etcd_space_inspector.Mvcc.Pipeline.Sums.{value}
use etcd_space_inspector.Mvcc.Pipeline.Counts.{faulty, tombstone}
use etcd_space_inspector.Mvcc.Pipeline.Phases.{Proper, Sized}
use etcd_space_inspector.Mvcc.Pipeline.Whole.{ended-Faithful}
use etcd_space_inspector.Mvcc.Decode.{Codec, SafeRecord}
use etcd_space_inspector.Mvcc.Run.{
  RawRecord, Call, RunResult, coder_of, on_bucket, after_reset, run_with_progress,
}

-- The goroutines have left the line in this state, for a bucket of these records.
pub record Finished {K : Type 0} (coder : Coder RawRecord (SafeRecord K)) (p : Pipeline)
    (source : List RawRecord) (s : Line RawRecord (SafeRecord K)) : Type 0 where
  pub reached : Reach coder p source s
  pub ended : Ended s

-- The result of a run that stored the whole bucket.
pub record Success {K : Type 0} (coder : Coder RawRecord (SafeRecord K)) (p : Pipeline)
    (call : Call) (r : RunResult (SafeRecord K)) : Type 0 where
  pub source : List RawRecord
  pub supported : supports call.version call.version_source ≡ true
  pub bucket : call.bucket ≡ some source
  pub all_stored : (f : SafeRecord K → ℕ) → sum (sum f) r.sunk ≡ sum (value coder f) source
  pub all_sized : All (Sized p) r.sunk
  pub scanned : r.stats.scanned ≡ length source
  pub decode_errors : r.stats.decode_errors ≡ sum (faulty coder) source
  pub decoded : r.stats.decoded + r.stats.decode_errors ≡ r.stats.scanned
  pub written : r.stats.written ≡ r.stats.decoded
  pub tombstones : r.stats.tombstones ≡ sum (value coder (tombstone coder)) source

module _ {K : Type 0} (codec : Codec K) (joined : Option Cause → Cause → Option Cause)
    (kept : (g : Option Cause) (e : Cause) → joined g e ≢ none) (p : Pipeline) (sizes : Proper p)
    (finish : List RawRecord → Line RawRecord (SafeRecord K))
    (finished : (source : List RawRecord)
      → Finished (coder_of codec joined) p source (finish source)) where
  bucket-Success :
      (call : Call)
      → supports call.version call.version_source ≡ true
      → (b : Option (List RawRecord)) → call.bucket ≡ b
      → (on_bucket finish b).error ≡ none
      → Success (coder_of codec joined) p call (on_bucket finish b)
  unfolding coder_of
  bucket-Success call v none e h = absurd (ground arith)
  bucket-Success call v (some source) e h =
      let f =
        ended-Faithful (coder_of codec joined) p sizes kept (finished source).reached
          (finished source).ended (ground arith) in
      record {
        source = source;
        supported = v;
        bucket = e;
        all_stored = f.all_stored;
        all_sized = f.all_sized;
        scanned = f.scanned;
        decode_errors = f.decode_errors;
        decoded = f.decoded;
        written = f.written;
        tombstones = f.tombstones;
      }

  open_Success :
      (call : Call)
      → supports call.version call.version_source ≡ true
      → (a b : Option Bytes) → (after_reset finish a (record call { open_fault = b })).error ≡ none
      → Success
          (coder_of codec joined)
          p
          call
          (after_reset finish a (record call { open_fault = b }))
  open_Success call v (some a) b h = absurd (ground arith)
  open_Success call v none (some b) h = absurd (ground arith)
  open_Success call v none none h = bucket-Success call v call.bucket refl h

  -- A run that returns no error was asked for a supported version and has handed every record of
  -- the bucket that decodes to the sink exactly once, in batches of one up to the batch size; its
  -- statistics are the exact counts of what was scanned, refused by the decoder, decoded and written,
  -- and of the tombstones.
  pub run_with_progress-Success :
      (call : Call)
      → (run_with_progress finish call).error ≡ none
      → Success (coder_of codec joined) p call (run_with_progress finish call)
  unfolding run_with_progress
  run_with_progress-Success call h = elim (Bool-cases (supports call.version call.version_source)) [
    | inl e ↦ rw e (open_Success call e call.reset_fault call.open_fault (rw e at h))
    | inr e ↦ absurd (ground arith)
  ]
