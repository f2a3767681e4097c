-- ===== src/Ingest.antt =====
-- CopyWithProgress of internal/ingest/file.go: an untrusted input is copied to a partial file, which
-- then takes the place of the destination. The file system, the context and the progress function
-- are a `Host`: what each call answers. `hash.Write` never fails, as Go's documentation says, and a
-- bound that is negative acts as zero does.
pub mod Atomic
pub mod Success
use etcd_space_inspector.Prelude.{
  ℕ, suc, ◌+◌, Bool, true, false, ◌||◌, not, Option, none, some, List, [], ◌∷◌, ◌++◌, length, ltb,
  ◌==◌, if◌then◌else◌,
}
use etcd_space_inspector.Prelude.Bytes.{Bytes}

-- What `in.Read` will answer: bytes, and in the end io.EOF or another error beside the last ones.
pub data Reads : Type 0 where
  more : Bytes → Reads → Reads
  last_eof : Bytes → Reads
  last_error : Bytes → Reads

pub data CopyError : Type 0 where
  inspect_failed not_regular too_large open_failed mkdir_failed remove_failed create_failed :
      CopyError
  cancelled write_failed progress_failed read_failed sync_failed close_failed rename_failed :
      CopyError

pub record Host : Type 0 where
  pub lstat_fails : Bool
  pub is_regular : Bool
  pub size : ℕ
  pub mod_time : ℕ
  pub reads : Reads
  pub open_fails : Bool
  pub mkdir_fails : Bool
  pub remove_fails : Bool
  pub create_fails : Bool
  -- by the number of the turn
  pub is_cancelled : ℕ → Bool
  pub write_fails : ℕ → Bool
  pub torn : ℕ → Bytes
  pub progress_fails : ℕ → Bool
  pub sync_fails : Bool
  pub close_fails : Bool
  pub rename_fails : Bool
  pub cleanup_fails : Bool
  pub digest : Bytes → Bytes

pub record Files : Type 0 where
  pub destination : Option Bytes
  pub partial : Option Bytes

pub record Metadata : Type 0 where
  pub size : ℕ
  pub sha256 : Bytes
  pub mod_time : ℕ

pub data Copy : Type 0 where
  copied : Metadata → Copy
  refused : CopyError → Copy

-- The loop's variables: what is in the partial file and in the hash.
pub record Written : Type 0 where
  pub partial : Bytes
  pub hashed : Bytes
  pub written : ℕ
  pub turn : ℕ

pub data Step : Type 0 where
  go : Written → Step
  halt : CopyError → Bytes → Step

module _ (host : Host) (max_bytes : ℕ) where
  -- The bytes of one read.
  unfoldable pub take_bytes : Bytes → Written → Step
  take_bytes [] w = go w
  take_bytes (x ∷ xs) w =
      let written = w.written + length (x ∷ xs) in
      if ltb max_bytes written
      then halt too_large w.partial
      else if host.write_fails w.turn
      then halt write_failed (w.partial ++ host.torn w.turn)
      else if host.progress_fails w.turn
      then halt progress_failed (w.partial ++ (x ∷ xs))
      else go (record {
        partial = w.partial ++ (x ∷ xs);
        hashed = w.hashed ++ (x ∷ xs);
        written = written;
        turn = w.turn;
      })

  abbrev pub and_go : Step → (Written → Step) → Step
  and_go (go w) k = k w
  and_go (halt e p) k = halt e p

  abbrev pub next_turn : Written → Written
  next_turn w = record w { turn = w.turn + 1 }

  abbrev pub break_off : Written → Step
  break_off w = halt read_failed w.partial

  abbrev pub unless_cancelled : Written → Step → Step
  unless_cancelled w step = if host.is_cancelled w.turn then halt cancelled w.partial else step

  unfoldable pub copy_loop : Reads → Written → Step
  unfolding take_bytes
  copy_loop (more bytes rest) w =
      unless_cancelled w (and_go (take_bytes bytes w) (λ v. copy_loop rest (next_turn v)))
  copy_loop (last_eof bytes) w = unless_cancelled w (and_go (take_bytes bytes w) go)
  copy_loop (last_error bytes) w = unless_cancelled w (and_go (take_bytes bytes w) break_off)

  -- The deferred clean-up of a copy that is not complete.
  abbrev pub clean : Option Bytes → Bytes → Files
  clean destination partial = record {
    destination = destination;
    partial = (if host.cleanup_fails then some partial else none);
  }

  -- After the loop.
  unfoldable pub settle_copy : Option Bytes → Step → Copy × Files
  settle_copy old (halt e p) = (refused e, clean old p)
  settle_copy old (go w) =
      if host.sync_fails
      then (refused sync_failed, clean old w.partial)
      else if host.close_fails
      then (refused close_failed, clean old w.partial)
      else if host.rename_fails
      then (refused rename_failed, clean old w.partial)
      else (
        copied
            (record { size = w.written; sha256 = host.digest w.hashed; mod_time = host.mod_time }),
        record { destination = some w.partial; partial = none },
      )

  abbrev pub nothing_written : Written
  nothing_written = record { partial = []; hashed = []; written = 0; turn = 0 }

  unfoldable pub copy_with_progress : Files → Copy × Files
  unfolding copy_loop settle_copy
  copy_with_progress files =
      if host.lstat_fails
      then (refused inspect_failed, files)
      else if not host.is_regular
      then (refused not_regular, files)
      else if max_bytes == 0 || ltb max_bytes host.size
      then (refused too_large, files)
      else if host.open_fails
      then (refused open_failed, files)
      else if host.mkdir_fails
      then (refused mkdir_failed, files)
      else if host.remove_fails
      then (refused remove_failed, files)
      else if host.create_fails
      then (refused create_failed, record files { partial = none })
      else settle_copy files.destination (copy_loop host.reads nothing_written)
