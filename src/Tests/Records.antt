-- ===== src/Tests/Records.antt =====
-- Runs of the MVCC pipeline over a small bucket, for internal/mvcc.
use etcd_space_inspector.Prelude.{
  ℕ, ◌+◌, ◌*◌, ◌≤◌, ◌≡◌, ◌≢◌, ◌⊎◌, refl, true, false, Option, none, some, List, [], ◌∷◌, length,
  arith,
}
use etcd_space_inspector.Prelude.Bytes.{Bytes, text, same}
use etcd_space_inspector.Mvcc.Pipeline.{
  Cause, Pipeline, Coder, Line, new_pipeline, init, Reach, start, later, scan, count_scanned, work,
  take, ready, decoding, no_stats, reading, receiving, mvcc_scan, Ended, is_done,
}
use etcd_space_inspector.Mvcc.Pipeline.Counts.{Counts, Reach-Counts}
use etcd_space_inspector.Mvcc.Pipeline.Phases.{Proper, new_pipeline-Proper}
use etcd_space_inspector.Mvcc.Pipeline.Bound.{steps, steps_bound}
use etcd_space_inspector.Mvcc.Pipeline.Live.{Next, Reach-Next}
use etcd_space_inspector.Mvcc.Pipeline.Ends.{Ending, Reach-ends}
use etcd_space_inspector.Mvcc.Decode.{SafeRecord, Codec, decode_record, record_of}
use etcd_space_inspector.Version.{supports, is_exact34}
use etcd_space_inspector.Prelude.Strings.{split, trim_prefix}
use etcd_space_inspector.Mvcc.Decode.ValueFree.{decode_record-value_free}
use etcd_space_inspector.Mvcc.Run.{RawRecord, Call, coder_of, run_with_progress}
use etcd_space_inspector.Mvcc.Run.Results.{Finished, Success, run_with_progress-Success}

-- A value is its own pair, under one key; its digest is its first byte.
abbrev plain : Codec Bytes
plain = record {
  unmarshal = λ v. some (record {
    key = text "/a";
    value = v;
    create_revision = 1;
    mod_revision = 2;
    version = 1;
    lease = 0;
  });
  sha256 = λ v. elim v [ [] ↦ [] | x ∷ xs ↦ x ∷ [] ];
  is_utf8 = λ v. true;
  analyzer = none;
}

-- errgroup keeps the first error.
abbrev first_error : Option Cause → Cause → Option Cause
first_error none e = some e
first_error (some g) e = some g

first_error-kept : (g : Option Cause) (e : Cause) → first_error g e ≢ none
first_error-kept none e = ground arith
first_error-kept (some g) e = ground arith

abbrev coder : Coder RawRecord (SafeRecord Bytes)
coder = record {
  decode = λ raw. record_of plain (decode_record plain raw.key raw.value);
  is_tombstone = λ r. r.revision.tombstone;
  joined = first_error;
}

abbrev small : Pipeline
small = record { workers = 2; channel_size = 1; batch_size = 2 }

small-Proper : Proper small
unfolding new_pipeline
small-Proper = new_pipeline-Proper 2 1 2

abbrev revision_key : ℕ → Bytes
revision_key n = 0 ∷ 0 ∷ 0 ∷ 0 ∷ 0 ∷ 0 ∷ 0 ∷ n ∷ b'_' ∷ 0 ∷ 0 ∷ 0 ∷ 0 ∷ 0 ∷ 0 ∷ 0 ∷ 0 ∷ []

-- Two records, one of which has no revision for its key.
abbrev first_raw : RawRecord
first_raw = record { key = revision_key 3; value = text "v" }

abbrev bad_raw : RawRecord
bad_raw = record { key = []; value = [] }

abbrev bucket : List RawRecord
bucket = first_raw ∷ bad_raw ∷ []

-- The first record is sent and counted, and a worker has taken it.
abbrev taken : Line RawRecord (SafeRecord Bytes)
taken = record {
  source = bad_raw ∷ [];
  producer = reading;
  raw_channel = [];
  workers = decoding first_raw ∷ ready ∷ [];
  decoded_channel = [];
  closed = false;
  batch = [];
  writer = receiving;
  sunk = [];
  stats = record (no_stats 2) { scanned = 1 };
  shown = record { stage = mvcc_scan; stats = no_stats 2 } ∷ [];
  failure = none;
  outside = false;
}

taken-Reach : Reach coder small bucket taken
unfolding init
taken-Reach =
    later (later (later start (scan refl refl (omega arith))) (count_scanned refl))
      (work [] (ready ∷ []) refl (take refl))

Reach-Counts_example : Counts coder bucket taken
Reach-Counts_example = Reach-Counts coder taken-Reach

steps_bound_example : steps taken-Reach ≤ 12 * length bucket + small.workers + 8
steps_bound_example = steps_bound small-Proper first_error-kept taken-Reach

Reach-Next_example : Next coder small taken ⊎ Ended taken
Reach-Next_example = Reach-Next coder small small-Proper first_error-kept taken-Reach

-- A run of every bucket.
finish : List RawRecord → Line RawRecord (SafeRecord Bytes)
finish source =
    (Reach-ends {coder = coder} small-Proper first_error-kept (init small source) start).0

finish-Ending :
    (source : List RawRecord) → Ending coder small source (init small source) (finish source)
unfolding finish
finish-Ending source =
    (Reach-ends {coder = coder} small-Proper first_error-kept (init small source) start).1

finish-Finished :
    (source : List RawRecord) → Finished (coder_of plain first_error) small source (finish source)
unfolding coder_of
finish-Finished source = record {
  reached = (finish-Ending source).reached;
  ended = (finish-Ending source).ended;
}

abbrev call : Call
call = record {
  version = text "3.4.3";
  version_source = text "flag";
  reset_fault = none;
  open_fault = none;
  bucket = some bucket;
}

calm-none : (s : Line RawRecord (SafeRecord Bytes)) → is_done s ≡ false → s.failure ≡ none
calm-none s h = ground arith

run_succeeds : (run_with_progress finish call).error ≡ none
unfolding run_with_progress supports init is_exact34 split trim_prefix same
run_succeeds = rw (calm-none (finish bucket) ((finish-Ending bucket).calm refl)) refl

run_with_progress-Success_example :
    Success (coder_of plain first_error) small call (run_with_progress finish call)
run_with_progress-Success_example =
    run_with_progress-Success plain first_error first_error-kept small small-Proper finish
      finish-Finished call run_succeeds

-- Two values with one digest and one length.
decode_record-value_free_example :
    decode_record plain (revision_key 3) (text "vx")
    ≡ decode_record plain (revision_key 3) (text "vy")
decode_record-value_free_example =
    decode_record-value_free plain (revision_key 3) (text "vy") (text "vx")
      (record {
        key = text "/a";
        value = text "vy";
        create_revision = 1;
        mod_revision = 2;
        version = 1;
        lease = 0;
      })
      (record {
        key = text "/a";
        value = text "vx";
        create_revision = 1;
        mod_revision = 2;
        version = 1;
        lease = 0;
      })
      refl refl refl
      (record {
        key = refl;
        create_revision = refl;
        mod_revision = refl;
        version = refl;
        lease = refl;
        size = refl;
        digest = refl;
      })
      refl
