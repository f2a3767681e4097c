-- ===== src/Ingest/Success.antt =====
-- A copy that meets no error succeeds.
use etcd_space_inspector.Prelude.{
  ℕ, ◌+◌, ◌≤◌, ◌≡◌, refl, true, false, ◌||◌, Option, [], ◌∷◌, ◌++◌, length, length-append,
  append_assoc, ltb, ◌==◌, arith,
}
use etcd_space_inspector.Prelude.Bytes.{Bytes}
use etcd_space_inspector.Ingest.{
  Reads, more, last_eof, last_error, Host, Files, Metadata, copied, Written, Step, go, halt,
  take_bytes, and_go, next_turn, copy_loop, settle_copy, nothing_written, copy_with_progress,
}
use etcd_space_inspector.Ingest.Atomic.{content, Sound, Takes, take_bytes-Takes, next_turn-Sound}

module _ (host : Host) (max_bytes : ℕ) where
  -- Nothing goes wrong on the way.
  pub record Healthy : Type 0 where
    pub regular : (host.lstat_fails ≡ false) × (host.is_regular ≡ true)
    pub opens :
        (host.open_fails ≡ false)
        × (host.mkdir_fails ≡ false)
        × (host.remove_fails ≡ false)
        × (host.create_fails ≡ false)
    pub ends : (host.sync_fails ≡ false) × (host.close_fails ≡ false) × (host.rename_fails ≡ false)
    pub runs :
        (n : ℕ)
        → (host.is_cancelled n ≡ false)
          × (host.write_fails n ≡ false)
          × (host.progress_fails n ≡ false)

  -- Every read ends without an error.
  abbrev pub EndsWell : Reads → Type 0
  EndsWell (more bytes rest) = EndsWell rest
  EndsWell (last_eof bytes) = Unit
  EndsWell (last_error bytes) = ⊥

  -- A step that went on.
  abbrev Goes : Step → Type 0
  Goes (go w) = Unit
  Goes (halt e p) = ⊥

  take_bytes-Goes :
      Healthy
      → (bytes : Bytes) (w : Written) → w.written + length bytes ≤ max_bytes
      → Goes (take_bytes host max_bytes bytes w)
  unfolding take_bytes
  take_bytes-Goes h [] w b = tt
  take_bytes-Goes h (x ∷ xs) w b = rw (small w (x ∷ xs) b, (h.runs w.turn).1, (h.runs w.turn).2) tt
    where
      small :
          (w : Written) (l : Bytes)
          → w.written + length l ≤ max_bytes
          → ltb max_bytes (w.written + length l) ≡ false
      small w l b = ground arith

  and_go-Goes :
      (bytes : Bytes) (w : Written) (x : Step) (k : Written → Step)
      → Goes x
      → Takes host max_bytes bytes w x
      → ((v : Written) → Sound host max_bytes v → v.partial ≡ w.partial ++ bytes → Goes (k v))
      → Goes (and_go host max_bytes x k)
  and_go-Goes bytes w (halt e p) k g t f = absurd g
  and_go-Goes bytes w (go v) k g t f = f v t.0 t.1

  copy_loop-Goes :
      Healthy
      → (reads : Reads) (w : Written) → EndsWell reads
      → Sound host max_bytes w
      → length (w.partial ++ content reads) ≤ max_bytes
      → Goes (copy_loop host max_bytes reads w)
  unfolding copy_loop content
  copy_loop-Goes h (last_error bytes) w e s b = absurd e
  copy_loop-Goes h (last_eof bytes) w e s b = rw (h.runs w.turn).0 (
      and_go-Goes bytes w (take_bytes host max_bytes bytes w) go
        (take_bytes-Goes h bytes w (omega (arith, s.count_eq, length-append w.partial bytes)))
        (take_bytes-Takes host max_bytes bytes w s) (λ v t e. tt))
  copy_loop-Goes h (more bytes rest) w e s b = rw (h.runs w.turn).0 (
      and_go-Goes bytes w (take_bytes host max_bytes bytes w)
        (λ v. copy_loop host max_bytes rest (next_turn host max_bytes v))
        (take_bytes-Goes h bytes w (
          omega (
            arith,
            s.count_eq,
            length-append w.partial (bytes ++ content rest),
            length-append bytes (content rest),
          )))
        (take_bytes-Takes host max_bytes bytes w s)
        (λ v t q.
          copy_loop-Goes h rest (next_turn host max_bytes v) e (next_turn-Sound host max_bytes v t)
            (rw (q, append_assoc w.partial bytes (content rest)) b)))

  settle_copy-copied :
      Healthy
      → (old : Option Bytes) (x : Step) → Goes x
      → (m : Metadata) × ((settle_copy host max_bytes old x).0 ≡ copied m)
  unfolding settle_copy
  settle_copy-copied h old (halt e p) g = absurd g
  settle_copy-copied h old (go w) g = rw (h.ends.0, h.ends.1, h.ends.2) (_, refl)

  -- A regular input that is not larger than a positive bound, neither by its recorded size nor by what is
  -- read of it, is copied, if no call fails and the context is not cancelled.
  pub copy-copied :
      Healthy
      → EndsWell host.reads
      → 1 ≤ max_bytes
      → host.size ≤ max_bytes
      → length (content host.reads) ≤ max_bytes
      → (files : Files) → (m : Metadata) × ((copy_with_progress host max_bytes files).0 ≡ copied m)
  unfolding copy_with_progress
  copy-copied h e p s b files =
      rw
        (
          h.regular.0,
          h.regular.1,
          in_bound max_bytes host.size p s,
          h.opens.0,
          h.opens.1,
          h.opens.2,
          h.opens.3,
        )
        (settle_copy-copied h files.destination
          (copy_loop host max_bytes host.reads (nothing_written host max_bytes))
          (copy_loop-Goes h host.reads (nothing_written host max_bytes) e
            (record { hash_eq = refl; count_eq = refl; bounded = omega arith }) b))
    where
      in_bound : (m n : ℕ) → 1 ≤ m → n ≤ m → (m == 0 || ltb m n) ≡ false
      in_bound m n p s = ground arith
