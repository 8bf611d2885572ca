-- ===== src/Geotask/Events.antt =====
-- geotask/events.py: the event types of the contract, and the construction of an event.
use geo_nexus_sdk.Base.{
  ℕ, String, List, [], ◌∷◌, contains, Dict, Json, Outcome, return, raise, if◌then◌else◌,
}
use geo_nexus_sdk.Geotask.Machine.{Error, unknown_event}

abbrev pub task_created : String
task_created = "task.created"

abbrev pub task_state_changed : String
task_state_changed = "task.state_changed"

abbrev pub task_progress : String
task_progress = "task.progress"

abbrev pub task_output : String
task_output = "task.output"

abbrev pub task_failed : String
task_failed = "task.failed"

abbrev pub task_cancelled : String
task_cancelled = "task.cancelled"

abbrev pub event_types : List String
event_types =
    task_created ∷ task_state_changed ∷ task_progress ∷ task_output ∷ task_failed ∷ task_cancelled
    ∷ []

pub record Event : Type 0 where
  pub task_id : String
  pub seq : ℕ
  pub event : String
  pub payload : Dict Json
  pub attempt : ℕ
  pub timestamp : ℕ

-- `now` is the timestamp, given or read from the clock.
unfoldable pub build_event : ℕ → String → ℕ → String → Dict Json → ℕ → Outcome Error Event
build_event now task_id seq event payload attempt =
    if contains event event_types
    then return (record {
      task_id = task_id;
      seq = seq;
      event = event;
      payload = payload;
      attempt = attempt;
      timestamp = now;
    })
    else raise (unknown_event event)
