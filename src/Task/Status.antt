-- ===== src/Task/Status.antt =====
-- The lifecycle table: Status, transitions and ValidateTransition of internal/task/model.go.
use etcd_space_inspector.Prelude.{◌≡◌, refl, ◌↔◌, ◌≢◌, Bool, true, false, List, [], ◌∷◌, arith}

pub data Status : Type 0 where
  pending importing running completed failed cancelled : Status

-- `transitions[from][to]`; a missing entry reads as false.
unfoldable pub valid_transition : Status → Status → Bool
valid_transition pending importing = true
valid_transition pending running = true
valid_transition pending cancelled = true
valid_transition pending failed = true
valid_transition importing pending = true
valid_transition importing cancelled = true
valid_transition importing failed = true
valid_transition running completed = true
valid_transition running cancelled = true
valid_transition running failed = true
valid_transition _ _ = false

abbrev pub is_terminal : Status → Bool
is_terminal completed = true
is_terminal failed = true
is_terminal cancelled = true
is_terminal _ = false

-- A life: statuses that follow one another by valid transitions.
pub data Life : Status → Status → Type 0 where
  here : {s : Status} → Life s s
  next : {s u : Status} (t : Status) → valid_transition s t ≡ true → Life t u → Life s u

-- The statuses of a life, the first one included.
unfoldable pub visits : {s u : Status} → Life s u → List Status
visits {s} here = s ∷ []
visits {s} (next t h l) = s ∷ visits l

unfoldable pub has_running : List Status → Bool
has_running [] = false
has_running (running ∷ l) = true
has_running (_ ∷ l) = has_running l

no_exit : (s t : Status) → is_terminal s ≡ true → valid_transition s t ≡ true → ⊥
unfolding valid_transition
no_exit s t h v = ground arith

terminal_final : {s u : Status} → is_terminal s ≡ true → Life s u → s ≡ u
terminal_final h here = refl
terminal_final {s} h (next t v l) = absurd (no_exit s t h v)

leaves_pending : ((u : Status) → Life pending u → pending ≡ u) → ⊥
unfolding valid_transition
leaves_pending h = ground (arith, h cancelled (next cancelled refl here))

leaves_importing : ((u : Status) → Life importing u → importing ≡ u) → ⊥
unfolding valid_transition
leaves_importing h = ground (arith, h cancelled (next cancelled refl here))

leaves_running : ((u : Status) → Life running u → running ≡ u) → ⊥
unfolding valid_transition
leaves_running h = ground (arith, h cancelled (next cancelled refl here))

-- The statuses that no life ever leaves are completed, failed and cancelled, and no others.
pub terminal_iff : (s : Status) → (is_terminal s ≡ true) ↔ ((u : Status) → Life s u → s ≡ u)
terminal_iff pending = (λ h. absurd (ground arith), λ h. absurd (leaves_pending h))
terminal_iff importing = (λ h. absurd (ground arith), λ h. absurd (leaves_importing h))
terminal_iff running = (λ h. absurd (ground arith), λ h. absurd (leaves_running h))
terminal_iff completed = (λ h u l. terminal_final h l, λ h. refl)
terminal_iff failed = (λ h u l. terminal_final h l, λ h. refl)
terminal_iff cancelled = (λ h u l. terminal_final h l, λ h. refl)

only_from_running : (s : Status) → valid_transition s completed ≡ true → s ≡ running
unfolding valid_transition
only_from_running s h = ground arith

has_running-cons :
    (s : Status) (l : List Status) → has_running l ≡ true → has_running (s ∷ l) ≡ true
unfolding has_running
has_running-cons running l h = refl
has_running-cons _ l h = h

-- A life that leads from another status to `completed` passes through `running`: neither an import
-- nor a pending task is ever completed directly.
pub completed_was_running :
    {s : Status} (l : Life s completed) → s ≢ completed → has_running (visits l) ≡ true
unfolding visits
completed_was_running here h = absurd (h refl)
completed_was_running {s} (next completed v l) h =
    rw (only_from_running s v) (unfold has_running in refl)
completed_was_running {s} (next t v l) h =
    has_running-cons s (visits l) (completed_was_running l (λ e. cc))
