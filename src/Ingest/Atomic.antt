-- ===== src/Ingest/Atomic.antt =====
-- A copy is complete or leaves the destination as it was.
use etcd_space_inspector.Prelude.{
  ℕ, ◌+◌, ◌≤◌, ◌≡◌, refl, sym, ap, ◌∙◌, ◌⊎◌, inl, inr, Bool, true, false, ◌||◌, not, none, some, [],
  ◌∷◌, ◌++◌, length, length-append, append-nil, append_assoc, ltb, ◌==◌, if◌then◌else◌, arith,
  Bool-cases,
}
use etcd_space_inspector.Prelude.Bytes.{Bytes}
use etcd_space_inspector.Ingest.{
  Reads, more, last_eof, last_error, CopyError, Host, Files, Copy, copied, refused, Written, Step,
  go, halt, take_bytes, and_go, next_turn, unless_cancelled, break_off, copy_loop, clean,
  sync_failed, close_failed, rename_failed, settle_copy, nothing_written, copy_with_progress,
}

-- The whole input.
unfoldable pub content : Reads → Bytes
content (more bytes rest) = bytes ++ content rest
content (last_eof bytes) = bytes
content (last_error bytes) = bytes

module _ (host : Host) (max_bytes : ℕ) where
  -- The loop's variables agree with one another, and nothing is above the bound.
  pub record Sound (w : Written) : Type 0 where
    pub hash_eq : w.hashed ≡ w.partial
    pub count_eq : w.written ≡ length w.partial
    pub bounded : w.written ≤ max_bytes

  -- A step that went on has taken exactly these bytes.
  abbrev pub Takes : Bytes → Written → Step → Type 0
  Takes bytes w (go v) = Sound v × (v.partial ≡ w.partial ++ bytes)
  Takes bytes w (halt e p) = Unit

  pub take_bytes-Takes :
      (bytes : Bytes) (w : Written) → Sound w → Takes bytes w (take_bytes host max_bytes bytes w)
  unfolding take_bytes
  take_bytes-Takes [] w s = (s, sym (append-nil w.partial))
  take_bytes-Takes (x ∷ xs) w s = elim (Bool-cases (ltb max_bytes (w.written + length (x ∷ xs)))) [
    | inl large ↦ rw large tt
    | inr small ↦ elim (Bool-cases (host.write_fails w.turn)) [
      | inl torn ↦ rw (small, torn) tt
      | inr fine ↦ elim (Bool-cases (host.progress_fails w.turn)) [
        | inl stop ↦ rw (small, fine, stop) tt
        | inr on ↦
            rw (small, fine, on)
              (
                record {
                  hash_eq = ap (λ (l : Bytes). l ++ (x ∷ xs)) s.hash_eq;
                  count_eq = omega (arith, s.count_eq, length-append w.partial (x ∷ xs));
                  bounded = ground arith;
                },
                refl,
              )
      ]
    ]
  ]

  unless_cancelled-Takes :
      (bytes : Bytes) (w : Written) (x : Step)
      → Takes bytes w x
      → Takes bytes w (unless_cancelled host max_bytes w x)
  unless_cancelled-Takes bytes w x h = elim (Bool-cases (host.is_cancelled w.turn)) [
    | inl stop ↦ rw stop tt
    | inr on ↦ rw on h
  ]

  break_off-Takes :
      (bytes : Bytes) (w : Written) (x : Step)
      → Takes bytes w (and_go host max_bytes x (break_off host max_bytes))
  break_off-Takes bytes w (go v) = tt
  break_off-Takes bytes w (halt e p) = tt

  and_go-Takes :
      (xs ys : Bytes) (w : Written) (x : Step) (k : Written → Step)
      → Takes xs w x
      → ((v : Written) → Sound v → Takes ys v (k v))
      → Takes (xs ++ ys) w (and_go host max_bytes x k)
  and_go-Takes xs ys w (halt e p) k h g = tt
  and_go-Takes xs ys w (go v) k h g = joined (k v) (g v h.0)
    where
      joined : (y : Step) → Takes ys v y → Takes (xs ++ ys) w y
      joined (halt e p) t = tt
      joined (go u) t = (t.0, t.1 ∙ ap (λ (l : Bytes). l ++ ys) h.1 ∙ append_assoc w.partial xs ys)

  go-Takes : (w : Written) → Sound w → Takes [] w (go w)
  go-Takes w s = (s, sym (append-nil w.partial))

  pub next_turn-Sound : (w : Written) → Sound w → Sound (next_turn host max_bytes w)
  next_turn-Sound w s = record { hash_eq = s.hash_eq; count_eq = s.count_eq; bounded = s.bounded }

  moved-Takes :
      (bytes : Bytes) (v : Written) (x : Step)
      → Takes bytes (next_turn host max_bytes v) x
      → Takes bytes v x
  moved-Takes bytes v (go u) h = h
  moved-Takes bytes v (halt e p) h = h

  copy_loop-Takes :
      (reads : Reads) (w : Written)
      → Sound w
      → Takes (content reads) w (copy_loop host max_bytes reads w)
  unfolding copy_loop content
  copy_loop-Takes (more bytes rest) w s = unless_cancelled-Takes (bytes ++ content rest) w _ (
      and_go-Takes bytes (content rest) w (take_bytes host max_bytes bytes w)
        (λ v. copy_loop host max_bytes rest (next_turn host max_bytes v))
        (take_bytes-Takes bytes w s)
        (λ v t.
          moved-Takes (content rest) v _
            (copy_loop-Takes rest (next_turn host max_bytes v) (next_turn-Sound v t))))
  copy_loop-Takes (last_eof bytes) w s =
      unless_cancelled-Takes bytes w _
        (ended bytes (take_bytes host max_bytes bytes w) (take_bytes-Takes bytes w s))
    where
      ended :
          (bytes : Bytes) (x : Step) → Takes bytes w x → Takes bytes w (and_go host max_bytes x go)
      ended bytes (go v) h = h
      ended bytes (halt e p) h = h
  copy_loop-Takes (last_error bytes) w s =
      unless_cancelled-Takes bytes w _ (break_off-Takes bytes w (take_bytes host max_bytes bytes w))

  -- What a copy leaves behind.
  abbrev pub Outcome : Files → Copy × Files → Type 0
  Outcome old (copied m, new) =
      (new.destination ≡ some (content host.reads))
      × (new.partial ≡ none)
      × (m.size ≡ length (content host.reads))
      × (m.size ≤ max_bytes)
      × (m.sha256 ≡ host.digest (content host.reads))
  Outcome old (refused e, new) =
      (new.destination ≡ old.destination)
      × ((new.partial ≡ old.partial) ⊎ ((new.partial ≡ none) ⊎ (host.cleanup_fails ≡ true)))

  clean-Outcome :
      (old : Files) (e : CopyError) (p : Bytes)
      → Outcome old (refused e, clean host max_bytes old.destination p)
  clean-Outcome old e p = (
    refl,
    inr (elim (Bool-cases host.cleanup_fails) [ inl stays ↦ inr stays | inr goes ↦ inl (rw goes) ]),
  )

  settle_copy-Outcome :
      (old : Files) (x : Step)
      → Takes (content host.reads) (nothing_written host max_bytes) x
      → Outcome old (settle_copy host max_bytes old.destination x)
  unfolding settle_copy
  settle_copy-Outcome old (halt e p) h = clean-Outcome old e p
  settle_copy-Outcome old (go w) h = elim (Bool-cases host.sync_fails) [
    | inl bad ↦ rw bad (clean-Outcome old sync_failed w.partial)
    | inr synced ↦ elim (Bool-cases host.close_fails) [
      | inl bad ↦ rw (synced, bad) (clean-Outcome old close_failed w.partial)
      | inr closed ↦ elim (Bool-cases host.rename_fails) [
        | inl bad ↦ rw (synced, closed, bad) (clean-Outcome old rename_failed w.partial)
        | inr renamed ↦
            rw (synced, closed, renamed)
              (
                ap some h.1,
                refl,
                h.0.count_eq ∙ ap (length {A = ℕ}) h.1,
                h.0.bounded,
                ap host.digest (h.0.hash_eq ∙ h.1),
              )
      ]
    ]
  ]

  guard-Outcome :
      (old : Files) (b : Bool) (x y : Copy × Files)
      → Outcome old x
      → Outcome old y
      → Outcome old (if b then x else y)
  guard-Outcome old true x y h g = h
  guard-Outcome old false x y h g = g

  copied-Outcome :
      (old : Files)
      → Outcome old (
          settle_copy host max_bytes old.destination
            (copy_loop host max_bytes host.reads (nothing_written host max_bytes)))
  copied-Outcome old =
      settle_copy-Outcome old (copy_loop host max_bytes host.reads (nothing_written host max_bytes))
        (copy_loop-Takes host.reads (nothing_written host max_bytes)
          (record { hash_eq = refl; count_eq = refl; bounded = omega arith }))

  -- Whatever the file system, the context and the progress function answer, a copy that succeeds has put
  -- the whole input in the place of the destination, with its size, within the bound, and its
  -- hash; a copy that fails leaves the destination as it was, and its partial file is
  -- removed, unless it was not reached or cannot be removed.
  pub copy-Outcome : (files : Files) → Outcome files (copy_with_progress host max_bytes files)
  unfolding copy_with_progress
  copy-Outcome files = guard-Outcome files host.lstat_fails _ _ (unreached files) (
      guard-Outcome files (not host.is_regular) _ _ (unreached files) (
        guard-Outcome files (max_bytes == 0 || ltb max_bytes host.size) _ _ (unreached files) (
          guard-Outcome files host.open_fails _ _ (unreached files) (
            guard-Outcome files host.mkdir_fails _ _ (unreached files) (
              guard-Outcome files host.remove_fails _ _ (unreached files) (
                guard-Outcome files host.create_fails _ _ (refl, inr (inl refl))
                  (copied-Outcome files)))))))
    where
      unreached :
          (files : Files)
          → (files.destination ≡ files.destination)
            × ((files.partial ≡ files.partial)
                ⊎ ((files.partial ≡ none) ⊎ (host.cleanup_fails ≡ true)))
      unreached files = (refl, inl refl)
