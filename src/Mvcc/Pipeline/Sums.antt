-- ===== src/Mvcc/Pipeline/Sums.antt =====
-- What is where on the line, in sums of a weight over its parts.
use etcd_space_inspector.Prelude.{ℕ, ◌+◌, ◌≡◌, refl, ap, Option, none, some, [], ◌∷◌, arith}
use etcd_space_inspector.Prelude.Sums.{sum, sum-append}
use etcd_space_inspector.Mvcc.Pipeline.{
  Pipeline, Coder, Line, Worker, decoding, sending, stopped, Move, take, finish, decode_fails,
  decode_ok, count_error, send, give_up, count_tombstone, count_record, mark, Step, cancel, scan,
  count_scanned, scan_end, scan_stop, work, close, receive, flush, flush_last, write_end, store,
  store_fails, count_written, show_written,
}

-- What a worker leaves alone.
pub record Frame {A R : Type 0} (s t : Line A R) : Type 0 where
  pub source : t.source ≡ s.source
  pub producer : t.producer ≡ s.producer
  pub closed : t.closed ≡ s.closed
  pub batch : t.batch ≡ s.batch
  pub writer : t.writer ≡ s.writer
  pub sunk : t.sunk ≡ s.sunk
  pub scanned : t.stats.scanned ≡ s.stats.scanned
  pub stored : t.stats.written ≡ s.stats.written
  pub total : t.stats.total ≡ s.stats.total

module _ {A R : Type 0} {coder : Coder A R} {p : Pipeline} where
  pub Move-Frame : {s t : Line A R} {w v : Worker A R} → Move coder p s w t v → Frame s t
  Move-Frame (take e) = record {
    source = refl;
    producer = refl;
    closed = refl;
    batch = refl;
    writer = refl;
    sunk = refl;
    scanned = refl;
    stored = refl;
    total = refl;
  }
  Move-Frame m = record {
    source = refl;
    producer = refl;
    closed = refl;
    batch = refl;
    writer = refl;
    sunk = refl;
    scanned = refl;
    stored = refl;
    total = refl;
  }

module _ {A R : Type 0} (coder : Coder A R) (f : R → ℕ) where
  abbrev weight : Option R → ℕ
  weight none = 0
  weight (some r) = f r

  -- The weight of what a raw record decodes to.
  abbrev pub value : A → ℕ
  value x = weight (coder.decode x)

  abbrev pub carried : Worker A R → ℕ
  carried (decoding x) = value x
  carried (sending r) = f r
  carried (stopped r) = weight r
  carried _ = 0

  abbrev pub held : Line A R → ℕ
  held s =
      sum value s.source
      + sum value s.raw_channel
      + sum carried s.workers
      + sum f s.decoded_channel
      + sum f s.batch
      + sum (sum f) s.sunk

  -- The parts that a worker moves between.
  abbrev beside : Line A R → ℕ
  beside s = sum value s.raw_channel + sum f s.decoded_channel

  module _ {p : Pipeline} where
    Move-beside :
        {s t : Line A R} {w v : Worker A R}
        → Move coder p s w t v
        → beside t + carried v ≡ beside s + carried w
    Move-beside (take e) = ground arith
    Move-beside (finish e q) = ground arith
    Move-beside (decode_fails e) = ground arith
    Move-beside (decode_ok e) = ground arith
    Move-beside count_error = ground arith
    Move-beside {s} (send {r} h) = ground (arith, sum-append f s.decoded_channel (r ∷ []))
    Move-beside (give_up h) = ground arith
    Move-beside (count_tombstone h) = ground arith
    Move-beside (count_record h) = ground arith
    Move-beside mark = ground arith

  -- A step takes no record from the line and adds none.
  pub Step-held : {p : Pipeline} {s t : Line A R} → Step coder p s t → held s ≡ held t
  Step-held (cancel e) = refl
  Step-held {s = s} (scan {x} a e b) =
      ground (arith, sum-append value s.raw_channel (x ∷ []), ap (sum value) e)
  Step-held (count_scanned e) = refl
  Step-held (scan_end a e) = refl
  Step-held (scan_stop a b c) = refl
  Step-held {s = s} (work before after {w} {v} {t} e m) =
      let frame = Move-Frame m in
      ground (
        arith,
        Move-beside m,
        sum-append carried before (w ∷ after),
        sum-append carried before (v ∷ after),
        ap (sum carried) e,
        frame,
      )
  Step-held (close a e) = refl
  Step-held {s = s} (receive {r} a b e) =
      ground (arith, sum-append f s.batch (r ∷ []), ap (sum f) e)
  Step-held (flush a b) = refl
  Step-held (flush_last a b c d e) = refl
  Step-held (write_end a b c d) = refl
  Step-held {s = s} (store a) = ground (arith, sum-append (sum f) s.sunk (s.batch ∷ []))
  Step-held (store_fails e a) = refl
  Step-held (count_written a) = refl
  Step-held (show_written a) = refl
