-- ===== src/Geotask/Machine.antt =====
-- geotask/machine.py: the table of transitions, the only gate that a change of state passes.
pub mod Paths
mod Tests
use geo_nexus_sdk.Base.{
  ℕ, ◌≡◌, refl, String, Bool, true, false, ◌&&◌, ◌||◌, List, [], ◌∷◌, some_of, eqb, if◌then◌else◌,
  Outcome, return, raise,
}
use geo_nexus_sdk.Geotask.Model.{
  TaskState, created, queued, blocked, scheduled, running, succeeded, failed, cancelled, skipped,
  position, same_state, GeoTask,
}

-- What the modules of geotask raise: IllegalTransition, TaskNotFound, EventHistoryGone, the
-- ValueError of `build_event`, the five uses of TaskGraphError, and the KeyError of a bare index.
pub data Error : Type 0 where
  illegal_transition : TaskState → TaskState → Error
  task_not_found : String → Error
  event_history_gone : String → ℕ → ℕ → Error
  unknown_event : String → Error
  duplicate_task : String → Error
  missing_dependency : String → String → Error
  self_dependency : String → Error
  cyclic : List String → Error
  unknown_task : String → Error
  key_error : String → Error

abbrev pub initial_state : TaskState
initial_state = created

abbrev pub terminal_states : List TaskState
terminal_states = succeeded ∷ failed ∷ cancelled ∷ skipped ∷ []

-- `state in states`
unfoldable pub in_states : TaskState → List TaskState → Bool
in_states s states = some_of (same_state s) states

abbrev pub transitions : List (TaskState × TaskState)
transitions =
    (created, queued)
    ∷ (created, cancelled)
    ∷ (queued, scheduled)
    ∷ (queued, blocked)
    ∷ (queued, cancelled)
    ∷ (blocked, queued)
    ∷ (blocked, failed)
    ∷ (blocked, skipped)
    ∷ (blocked, cancelled)
    ∷ (scheduled, running)
    ∷ (scheduled, queued)
    ∷ (scheduled, failed)
    ∷ (scheduled, cancelled)
    ∷ (running, succeeded)
    ∷ (running, failed)
    ∷ (running, cancelled)
    ∷ (running, queued)
    ∷ []

unfoldable pub can_transition : TaskState → TaskState → Bool
can_transition src dst = some_of (λ e. same_state src e.0 && same_state dst e.1) transitions

unfoldable pub assert_transition : TaskState → TaskState → Outcome Error (Unit {0})
assert_transition src dst =
    if can_transition src dst then return tt else raise (illegal_transition src dst)

unfoldable pub is_terminal_state : TaskState → Bool
unfolding in_states
is_terminal_state s = in_states s terminal_states

-- GeoTask.is_terminal
unfoldable pub is_terminal : GeoTask → Bool
unfolding is_terminal_state
is_terminal t = is_terminal_state t.state
