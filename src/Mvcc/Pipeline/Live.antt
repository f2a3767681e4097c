-- ===== src/Mvcc/Pipeline/Live.antt =====
-- No run blocks.
use etcd_space_inspector.Prelude.{
  ◌+◌, ◌≤◌, ◌<◌, ◌≡◌, ◌≢◌, ◌⊎◌, inl, inr, refl, true, false, Option, none, some, List, [], ◌∷◌,
  ◌++◌, length, append_assoc, All, Bool-cases, Option-cases, ltb, ltb→lt, arith, sym, ◌∙◌,
}
use etcd_space_inspector.Prelude.Sums.{sum}
use etcd_space_inspector.Mvcc.Pipeline.{
  Cause, Pipeline, Coder, Line, Producer, reading, counting, returned, Worker, ready, decoding,
  failing, sending, sent, marking, stopped, Writer, receiving, storing, stored, written, ended,
  Move, take, finish, decode_fails, decode_ok, count_error, send, give_up, count_tombstone,
  count_record, mark, Step, scan, count_scanned, scan_end, scan_stop, work, close, receive, flush,
  flush_last, write_end, store, count_written, show_written, Reach,
}
use etcd_space_inspector.Mvcc.Pipeline.{is_done, Ended}
use etcd_space_inspector.Mvcc.Pipeline.Phases.{
  Phases, Proper, Reach-Phases, is_running, finished, gave_up, all_stopped-running,
}

producer_cases : (q : Producer) → (q ≡ returned) ⊎ (q ≢ returned)
producer_cases q = ground arith

list_cases : {B : Type 0} (l : List B) → (l ≡ []) ⊎ ((x : B) × (xs : List B) × (l ≡ x ∷ xs))
list_cases [] = inl refl
list_cases (x ∷ xs) = inr (x, xs, refl)

module _ {A R : Type 0} (p : Pipeline) where
  -- What a worker waits for that cannot move.
  data Waits (s : Line A R) : Worker A R → Type 0 where
    gone : {o : Option R} → Waits s (stopped o)
    for_raw : s.raw_channel ≡ [] → s.producer ≢ returned → Waits s ready
    for_room :
        {r : R}
        → p.channel_size ≤ length s.decoded_channel
        → is_done s ≡ false
        → Waits s (sending r)

  -- What all the workers wait for.
  abbrev Blocked : Line A R → List (Worker A R) → Type 0
  Blocked s ws =
      (sum is_running ws ≡ 0)
      ⊎ ((s.raw_channel ≡ []) × (s.producer ≢ returned))
      ⊎ ((p.channel_size ≤ length s.decoded_channel) × (is_done s ≡ false))

  all-Blocked : (s : Line A R) (ws : List (Worker A R)) → All (Waits s) ws → Blocked s ws
  all-Blocked s [] h = inl refl
  all-Blocked s (w ∷ ws) (gone, h) = elim (all-Blocked s ws h) [
    | inl e ↦ inl (omega (arith, e))
    | inr x ↦ inr x
  ]
  all-Blocked s (w ∷ ws) (for_raw a b, h) = inr (inl (a, b))
  all-Blocked s (w ∷ ws) (for_room a b, h) = inr (inr (a, b))

module _ {A R : Type 0} (coder : Coder A R) (p : Pipeline) where
  -- A step after which nothing has failed or been cancelled that had not before it.
  abbrev pub Next : Line A R → Type 0
  Next s = (t : Line A R) × Step coder p s t × (is_done s ≡ false → is_done t ≡ false)

  abbrev Moves : Line A R → Worker A R → Type 0
  Moves s w =
      (t : Line A R) × (v : Worker A R) × Move coder p s w t v
      × (is_done s ≡ false → is_done t ≡ false)

  worker-Moves : (s : Line A R) (w : Worker A R) → Moves s w ⊎ Waits p s w
  worker-Moves s ready = elim (list_cases s.raw_channel) [
    | inl e ↦ elim (producer_cases s.producer) [
      | inl q ↦ inl (_, _, finish e q, λ d. d)
      | inr q ↦ inr (for_raw e q)
    ]
    | inr (x, xs, e) ↦ inl (_, _, take e, λ d. d)
  ]
  worker-Moves s (decoding x) = elim (Option-cases (coder.decode x)) [
    | inl e ↦ inl (_, _, decode_fails e, λ d. d)
    | inr (r, e) ↦ inl (_, _, decode_ok e, λ d. d)
  ]
  worker-Moves s failing = inl (_, _, count_error, λ d. d)
  worker-Moves s (sending r) = elim (Bool-cases (ltb (length s.decoded_channel) p.channel_size)) [
    | inl e ↦ inl (_, _, send (ltb→lt _ _ e), λ d. d)
    | inr e ↦ elim (Bool-cases (is_done s)) [
      | inl d ↦ inl (_, _, give_up d, λ q. ground arith)
      | inr d ↦ inr (for_room (ground arith) d)
    ]
  ]
  worker-Moves s (sent r) = elim (Bool-cases (coder.is_tombstone r)) [
    | inl e ↦ inl (_, _, count_tombstone e, λ d. d)
    | inr e ↦ inl (_, _, count_record e, λ d. d)
  ]
  worker-Moves s marking = inl (_, _, mark, λ d. d)
  worker-Moves s (stopped o) = inr gone

  -- One of the workers can move, or all of them wait.
  workers-Next :
      (s : Line A R) (before after : List (Worker A R))
      → s.workers ≡ before ++ after
      → Next s ⊎ All (Waits p s) after
  workers-Next s before [] e = inr tt
  workers-Next s before (w ∷ after) e =
      let rest =
        workers-Next s (before ++ w ∷ []) after (e ∙ sym (append_assoc before (w ∷ []) after)) in
      elim (worker-Moves s w) [
        | inl (t, v, m, d) ↦ inl (_, work before after e m, d)
        | inr x ↦ elim rest [ inl n ↦ inl n | inr y ↦ inr (x, y) ]
      ]

  -- The writer, in its loop, with something to receive or nothing more to come.
  writer_moves :
      (s : Line A R)
      → Phases p s
      → s.writer ≡ receiving
      → (s.decoded_channel ≢ []) ⊎ (s.closed ≡ true)
      → Next s
  writer_moves s phases e h = elim (Bool-cases (ltb (length s.batch) p.batch_size)) [
    | inr full ↦ (_, flush e (ground arith), λ d. d)
    | inl room ↦ elim (list_cases s.decoded_channel) [
      | inr (x, xs, q) ↦ (_, receive e (ltb→lt _ _ room) q, λ d. d)
      | inl q ↦ elim (list_cases s.batch) [
        | inl none_left ↦ (_, write_end e (ground arith) q none_left, λ d. d)
        | inr (x, xs, some_left) ↦
            (_, flush_last e (ltb→lt _ _ room) (ground arith) q (ground arith), λ d. d)
      ]
    ]
  ]

  -- The scan, when it may send or stop.
  scan_moves :
      (s : Line A R)
      → s.producer ≡ reading
      → (length s.raw_channel < p.channel_size) ⊎ (is_done s ≡ true)
      → Next s
  scan_moves s e h = elim (list_cases s.source) [
    | inl q ↦ (_, scan_end e q, λ d. d)
    | inr (x, xs, q) ↦ elim h [
      | inl room ↦ (_, scan e q room, λ d. d)
      | inr d ↦ (_, scan_stop e (ground arith) d, λ q. ground arith)
    ]
  ]

  all_kinds :
      (ws : List (Worker A R)) → sum is_running ws + sum finished ws + sum gave_up ws ≡ length ws
  all_kinds [] = ground arith
  all_kinds (ready ∷ ws) = ground (arith, all_kinds ws)
  all_kinds (stopped none ∷ ws) = ground (arith, all_kinds ws)
  all_kinds (stopped (some r) ∷ ws) = ground (arith, all_kinds ws)
  all_kinds (w ∷ ws) = ground (arith, all_kinds ws)

  -- With the channel still open, workers return by an error alone.
  quit_early :
      (s : Line A R)
      → Proper p
      → Phases p s
      → sum is_running s.workers ≡ 0
      → s.producer ≡ reading
      → is_done s ≡ true
  quit_early s sizes phases quiet e = ground (arith, all_kinds s.workers)

  -- The writer at its loop or returned, and no record between its send and its count.
  module _ (s : Line A R) (sizes : Proper p) (phases : Phases p s) where
    settled :
        sum is_running s.workers ≡ 0
        → (s.producer ≡ reading) ⊎ (s.producer ≡ returned)
        → (s.writer ≡ receiving) ⊎ (s.writer ≡ ended)
        → Next s ⊎ Ended s
    settled quiet producer writer = elim (Bool-cases s.closed) [
      | inr e ↦ inl (_, close e (all_stopped-running s.workers quiet), λ d. d)
      | inl e ↦ elim writer [
        | inl w ↦ inl (writer_moves s phases w (inr e))
        | inr w ↦ elim producer [
          | inl q ↦ inl (scan_moves s q (inr (quit_early s sizes phases quiet q)))
          | inr q ↦ inr (record {
            producer = q;
            workers = all_stopped-running s.workers quiet;
            closed = e;
            writer = w;
          })
        ]
      ]
    ]

    pausing :
        (s.producer ≡ reading) ⊎ (s.producer ≡ returned)
        → (s.writer ≡ receiving) ⊎ (s.writer ≡ ended)
        → Next s ⊎ Ended s
    pausing producer writer = elim (workers-Next s [] s.workers refl) [
      | inl n ↦ inl n
      | inr waits ↦ elim (all-Blocked p s s.workers waits) [
        | inl quiet ↦ settled quiet producer writer
        | inr (inl (empty, open_still)) ↦ elim producer [
          | inl q ↦ inl (scan_moves s q (inl (ground (arith, sizes.channel_size))))
          | inr q ↦ absurd (open_still q)
        ]
        | inr (inr (full, going)) ↦ elim writer [
          | inl w ↦ inl (writer_moves s phases w (inl (ground (arith, sizes.channel_size))))
          | inr w ↦ absurd (ground (arith, sizes.channel_size))
        ]
      ]
    ]

    at_writer :
        (s.producer ≡ reading) ⊎ (s.producer ≡ returned)
        → (w : Writer) → s.writer ≡ w
        → Next s ⊎ Ended s
    at_writer producer receiving e = pausing producer (inl e)
    at_writer producer (storing last) e = inl (_, store e, λ d. d)
    at_writer producer (stored last n) e = inl (_, count_written e, λ d. d)
    at_writer producer (written last) e = inl (_, show_written e, λ d. d)
    at_writer producer ended e = pausing producer (inr e)

    at_producer : (q : Producer) → s.producer ≡ q → Next s ⊎ Ended s
    at_producer reading e = at_writer (inl e) s.writer refl
    at_producer counting e = inl (_, count_scanned e, λ d. d)
    at_producer returned e = at_writer (inr e) s.writer refl

  -- As long as a goroutine has not returned, one of them can make a step: the bounded channels
  -- never block the run, whatever has failed.
  pub Reach-Next :
      Proper p
      → ((g : Option Cause) (e : Cause) → coder.joined g e ≢ none)
      → {source : List A} {s : Line A R} → Reach coder p source s
      → Next s ⊎ Ended s
  Reach-Next sizes kept {s = s} r = at_producer s sizes (Reach-Phases sizes kept r) s.producer refl
