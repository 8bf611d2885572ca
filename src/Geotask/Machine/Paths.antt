-- ===== src/Geotask/Machine/Paths.antt =====
-- What the table of transitions allows: paths of legal moves, and where they lead.
use geo_nexus_sdk.Base.{◌≡◌, refl, ◌↔◌, true, false, not, Bool-cases, arith, ◌⊎◌, inl, inr}
use geo_nexus_sdk.Geotask.Model.{
  TaskState, created, queued, blocked, scheduled, running, succeeded, failed, cancelled, skipped,
  same_state,
}
use geo_nexus_sdk.Geotask.Machine.{can_transition, is_terminal_state}

pub same_state_refl : (s : TaskState) → same_state s s ≡ true
same_state_refl created = refl
same_state_refl _ = refl

pub same_state_eq : (s t : TaskState) → same_state s t ≡ true → s ≡ t
same_state_eq s t h = ground arith

no_loop : (s : TaskState) → can_transition s s ≡ false
unfolding can_transition
no_loop created = refl
no_loop _ = refl

-- A run of the machine: a sequence of moves that the gate lets through.
pub data Run : TaskState → TaskState → Type 0 where
  here : {s : TaskState} → Run s s
  move : {s t u : TaskState} → can_transition s t ≡ true → Run t u → Run s u

pub can_transition_terminal :
    (s t : TaskState) → is_terminal_state s ≡ true → can_transition s t ≡ false
unfolding can_transition is_terminal_state
can_transition_terminal created t h = ground arith
can_transition_terminal _ t h = ground arith

-- Whatever run of legal moves starts in a final state ends where it began.
pub Run-terminal : {s t : TaskState} → Run s t → is_terminal_state s ≡ true → t ≡ s
Run-terminal here h = refl
Run-terminal (move {s = s} {t = t} step rest) h = cc (can_transition_terminal s t h)

-- Any state that is not final can be cancelled in one legal move, and a final one cannot.
pub can_transition-cancelled :
    (s : TaskState) → can_transition s cancelled ≡ not (is_terminal_state s)
unfolding can_transition is_terminal_state
can_transition-cancelled created = refl
can_transition-cancelled _ = refl

-- The edges of the contract's diagram, grouped by the state that they leave.
pub data Edge : TaskState → TaskState → Type 0 where
  submit : Edge created queued
  pick : Edge queued scheduled
  block : Edge queued blocked
  unblock : Edge blocked queued
  give_up : Edge blocked failed
  skip : Edge blocked skipped
  start : Edge scheduled running
  put_back : Edge scheduled queued
  fail_early : Edge scheduled failed
  finish : Edge running succeeded
  fail : Edge running failed
  retry : Edge running queued
  cancel : {s : TaskState} → is_terminal_state s ≡ false → Edge s cancelled

-- The table holds a pair just when the diagram has that edge.
pub can_transition→Edge : (s t : TaskState) → can_transition s t ≡ true → Edge s t
unfolding can_transition is_terminal_state
can_transition→Edge created queued h = submit
can_transition→Edge queued scheduled h = pick
can_transition→Edge queued blocked h = block
can_transition→Edge blocked queued h = unblock
can_transition→Edge blocked failed h = give_up
can_transition→Edge blocked skipped h = skip
can_transition→Edge scheduled running h = start
can_transition→Edge scheduled queued h = put_back
can_transition→Edge scheduled failed h = fail_early
can_transition→Edge running succeeded h = finish
can_transition→Edge running failed h = fail
can_transition→Edge running queued h = retry
can_transition→Edge created cancelled h = cancel refl
can_transition→Edge queued cancelled h = cancel refl
can_transition→Edge blocked cancelled h = cancel refl
can_transition→Edge scheduled cancelled h = cancel refl
can_transition→Edge running cancelled h = cancel refl
can_transition→Edge _ _ h = cc

Edge→can_transition : {s t : TaskState} → Edge s t → can_transition s t ≡ true
unfolding can_transition
Edge→can_transition submit = refl
Edge→can_transition (cancel {s = s} h) = rw (can_transition-cancelled s, h)
Edge→can_transition _ = refl

-- The gate lets a move through just when the diagram of the contract has that edge.
pub can_transition_iff : (s t : TaskState) → (can_transition s t ≡ true) ↔ Edge s t
can_transition_iff s t = (can_transition→Edge s t, Edge→can_transition)

-- A task succeeds only out of running, is skipped only out of blocked, and fails only out of
-- blocked, scheduled or running.
Edge_sources :
    (s : TaskState)
    → (can_transition s succeeded ≡ true → s ≡ running)
      × (can_transition s skipped ≡ true → s ≡ blocked)
      × (can_transition s failed ≡ true → (s ≡ blocked) ⊎ (s ≡ scheduled) ⊎ (s ≡ running))
unfolding can_transition
Edge_sources created = ground arith
Edge_sources _ = ground arith

-- No edge leads from a state to itself.
pub can_transition-other : (s t : TaskState) → can_transition s t ≡ true → same_state s t ≡ false
can_transition-other s t legal = elim (Bool-cases (same_state s t)) [
  | inl same ↦ cc (no_loop s, same_state_eq s t same)
  | inr other ↦ other
]
