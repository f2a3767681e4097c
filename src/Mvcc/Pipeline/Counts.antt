-- ===== src/Mvcc/Pipeline/Counts.antt =====
-- The five counters of a run, between two atomic operations of its goroutines.
use etcd_space_inspector.Prelude.{
  ℕ, zero, suc, ◌+◌, ◌≡◌, ap, Bool, true, false, Option, none, some, List, [], ◌∷◌, length,
  length-append, arith,
}
use etcd_space_inspector.Prelude.Sums.{sum, sum-append}
use etcd_space_inspector.Mvcc.Pipeline.{
  Pipeline, Coder, Line, Producer, counting, Worker, decoding, failing, sent, marking, Writer,
  stored, all_ready, init, Move, take, finish, decode_fails, decode_ok, count_error, send, give_up,
  count_tombstone, count_record, mark, Step, cancel, scan, count_scanned, scan_end, scan_stop, work,
  close, receive, flush, flush_last, write_end, store, store_fails, count_written, show_written,
  Reach, start, later,
}
use etcd_space_inspector.Mvcc.Pipeline.Sums.{Move-Frame}

-- A record sent but not yet counted as scanned.
abbrev pub unscanned : Producer → ℕ
unscanned counting = 1
unscanned _ = 0

-- Records stored but not yet counted as written.
abbrev pub unwritten : Writer → ℕ
unwritten (stored last n) = n
unwritten _ = 0

abbrev pub as_count : Bool → ℕ
as_count true = 1
as_count false = 0

module _ {A R : Type 0} (coder : Coder A R) where
  -- A record decoded and sent but not yet counted as decoded.
  abbrev pub uncounted : Worker A R → ℕ
  uncounted (sent r) = 1
  uncounted _ = 0

  abbrev refused : Option R → ℕ
  refused none = 1
  refused (some r) = 0

  -- One for a raw record that does not decode.
  abbrev pub faulty : A → ℕ
  faulty x = refused (coder.decode x)

  abbrev pub faulty_in : Worker A R → ℕ
  faulty_in (decoding x) = faulty x
  faulty_in failing = 1
  faulty_in _ = 0

  abbrev pub tombstone : R → ℕ
  tombstone r = as_count (coder.is_tombstone r)

  abbrev pub unmarked : Worker A R → ℕ
  unmarked (sent r) = tombstone r
  unmarked marking = 1
  unmarked _ = 0

  pub record Counts (source : List A) (s : Line A R) : Type 0 where
    pub scanned : s.stats.scanned + unscanned s.producer + length s.source ≡ length source
    pub decoded :
        s.stats.decoded + sum uncounted s.workers
        ≡ length s.decoded_channel + length s.batch + sum (length {A = R}) s.sunk
    pub written : s.stats.written + unwritten s.writer ≡ sum (length {A = R}) s.sunk
    pub errors :
        s.stats.decode_errors
          + sum faulty s.source
          + sum faulty s.raw_channel
          + sum faulty_in s.workers
        ≡ sum faulty source
    pub tombstones :
        s.stats.tombstones + sum unmarked s.workers
        ≡ sum tombstone s.decoded_channel + sum tombstone s.batch + sum (sum tombstone) s.sunk

  -- What one worker changes.
  record Effects (s : Line A R) (w : Worker A R) (t : Line A R) (v : Worker A R) : Type 0 where
    decoded :
        t.stats.decoded + uncounted v + length s.decoded_channel
        ≡ s.stats.decoded + uncounted w + length t.decoded_channel
    errors :
        t.stats.decode_errors + sum faulty t.raw_channel + faulty_in v
        ≡ s.stats.decode_errors + sum faulty s.raw_channel + faulty_in w
    tombstones :
        t.stats.tombstones + unmarked v + sum tombstone s.decoded_channel
        ≡ s.stats.tombstones + unmarked w + sum tombstone t.decoded_channel

  module _ {p : Pipeline} where
    Move-Effects : {s t : Line A R} {w v : Worker A R} → Move coder p s w t v → Effects s w t v
    Move-Effects (take e) = ground (arith, ap (sum faulty) e)
    Move-Effects (finish e q) = ground arith
    Move-Effects (decode_fails e) = ground arith
    Move-Effects (decode_ok e) = ground arith
    Move-Effects count_error = ground arith
    Move-Effects {s} (send {r} h) = ground (
      arith,
      length-append s.decoded_channel (r ∷ []),
      sum-append tombstone s.decoded_channel (r ∷ []),
    )
    Move-Effects (give_up h) = ground arith
    Move-Effects (count_tombstone h) = ground arith
    Move-Effects (count_record h) = ground arith
    Move-Effects mark = ground arith

    Step-Counts :
        {source : List A} {s t : Line A R} → Step coder p s t → Counts source s → Counts source t
    Step-Counts (cancel e) c = ground arith
    Step-Counts {s = s} (scan {x} a e b) c =
        ground (arith, sum-append faulty s.raw_channel (x ∷ []), ap (sum faulty) e, ap length e)
    Step-Counts (count_scanned e) c = ground arith
    Step-Counts (scan_end a e) c = ground arith
    Step-Counts (scan_stop a b h) c = ground arith
    Step-Counts {s = s} (work before after {w} {v} {t} e m) c =
        let frame = Move-Frame m in
        let effects = Move-Effects m in
        ground (
          arith,
          sum-append uncounted before (w ∷ after),
          sum-append uncounted before (v ∷ after),
          sum-append faulty_in before (w ∷ after),
          sum-append faulty_in before (v ∷ after),
          sum-append unmarked before (w ∷ after),
          sum-append unmarked before (v ∷ after),
          ap (sum uncounted) e,
          ap (sum faulty_in) e,
          ap (sum unmarked) e,
        )
    Step-Counts (close a e) c = ground arith
    Step-Counts {s = s} (receive {r} a b e) c = ground (
      arith,
      length-append s.batch (r ∷ []),
      sum-append tombstone s.batch (r ∷ []),
      ap length e,
      ap (sum tombstone) e,
    )
    Step-Counts (flush a b) c = ground arith
    Step-Counts (flush_last a b x d e) c = ground arith
    Step-Counts (write_end a b x d) c = ground arith
    Step-Counts {s = s} (store a) c = ground (
      arith,
      sum-append (length {A = R}) s.sunk (s.batch ∷ []),
      sum-append (sum tombstone) s.sunk (s.batch ∷ []),
    )
    Step-Counts (store_fails e a) c = ground arith
    Step-Counts (count_written a) c = ground arith
    Step-Counts (show_written {last} a) c = ground arith

  sum-all_ready :
      (n : ℕ)
      → (sum uncounted (all_ready n) ≡ 0)
        × (sum faulty_in (all_ready n) ≡ 0)
        × (sum unmarked (all_ready n) ≡ 0)
  sum-all_ready zero = ground arith
  sum-all_ready (suc n) = let h = sum-all_ready n in ground arith

  -- The counters of a run and what is in flight add up, after any number of steps of its goroutines.
  pub Reach-Counts :
      {p : Pipeline} {source : List A} {s : Line A R} → Reach coder p source s → Counts source s
  unfolding init
  Reach-Counts {p} start = let h = sum-all_ready p.workers in ground arith
  Reach-Counts (later r st) = Step-Counts st (Reach-Counts r)
