-- ===== src/Geotask/Runner.antt =====
-- geotask/runner.py: what the runner does with an outcome. The runner's store is
-- the one that its graph is bound to. The values of TaskOutcome are those of geotask/backend.py.
pub mod Settle
pub mod Loop
pub mod Held
pub mod Triples
pub mod Admitted
pub mod Leak
mod Tests
use Prim.Native.String.{◌++◌ as text_append}
use geo_nexus_sdk.Base.{
  ℕ, ◌+◌, ◌-◌, ◌≡◌, String, Bool, true, false, ◌&&◌, Option, none, some, List, [], ◌∷◌, Dict,
  Fields, end, field, str, get_or, if◌then◌else◌, Outcome, return, raise, Action, get_state, modify,
  pure, and_then, ◌>>=◌, ◌>>◌, for_each, min,
}
use geo_nexus_sdk.Geotask.Model.{
  TaskState, created, queued, blocked, scheduled, running, succeeded, failed, cancelled, skipped,
  same_state, TaskError, error_of_code, TaskResult, GeoTask, allows_another_attempt, backoff_for,
}
use geo_nexus_sdk.Geotask.Machine.{Error, unknown_task}
use geo_nexus_sdk.Geotask.Store.{TaskStore, set_lease}
use geo_nexus_sdk.Geotask.Graph.{
  TaskGraph, GraphAction, task, set_node, mark_done, mark_cancelled, mark_retry, mark_failed,
}
use geo_nexus_sdk.Geotask.Scheduler.{Scheduler, defer, forget, release, next_wakeup}

pub record TaskOutcome : Type 0 where
  pub state : TaskState
  pub progress : ℕ
  pub message : String
  pub outputs : Fields
  pub error : Option TaskError

abbrev pub success_outcome : Fields → String → TaskOutcome
success_outcome outputs message = record {
  state = succeeded;
  progress = 1000000;
  message = message;
  outputs = outputs;
  error = none;
}

abbrev pub failure_outcome : String → String → TaskOutcome
failure_outcome code message = record {
  state = failed;
  progress = 0;
  message = "";
  outputs = end;
  error = some (error_of_code code message none);
}

abbrev pub cancelled_outcome : String → TaskOutcome
cancelled_outcome message = record {
  state = cancelled;
  progress = 0;
  message = message;
  outputs = end;
  error = none;
}

pub record Runner : Type 0 where
  pub graph : TaskGraph
  pub scheduler : Option Scheduler

abbrev pub RunnerAction : Type 0 → Type 0
RunnerAction A = Action Error Runner A

-- A method of the graph, and one of the scheduler, if there is one.
abbrev pub on_graph : {A : Type 0} → GraphAction A → RunnerAction A
on_graph action r = let (out, g) = action r.graph in (out, record r { graph = g })

abbrev pub on_scheduler : (Scheduler → Scheduler) → RunnerAction Unit
on_scheduler change r = elim r.scheduler [
  | none ↦ (return tt, r)
  | some s ↦ (return tt, record r { scheduler = some (change s) })
]

-- `self.store.set_lease(task_id, expires_at=...)`; an unbound graph has no store.
unfoldable pub lease_in : Option TaskStore → String → ℕ → Option String → GraphAction Unit
lease_in none task_id expires_at executor g = (return tt, g)
lease_in (some s) task_id expires_at executor g =
    let (out, s') = set_lease task_id expires_at executor s in
    (elim out [ return t ↦ return tt | raise e ↦ raise e ], record g { store = some s' })

unfoldable pub lease : String → ℕ → Option String → GraphAction Unit
lease task_id expires_at executor g = lease_in g.store task_id expires_at executor g

-- `_release`
unfoldable pub release_share : String → RunnerAction Unit
unfolding release
release_share task_id = on_scheduler (release task_id)

-- The test of `_apply`: the error may be tried again, and the task has an attempt left.
abbrev pub may_retry : Option TaskError → GeoTask → Bool
may_retry none t = false
may_retry (some e) t = e.retryable && allows_another_attempt t.retry t.attempt

abbrev pub result_of : TaskOutcome → TaskResult
result_of o = record {
  outputs = o.outputs;
  elapsed = 0;
  meta = field "message" (str o.message) end;
}

abbrev pub code_of : Option TaskError → String
code_of none = "execution_error"
code_of (some e) = e.code

abbrev pub message_of : Option TaskError → String
message_of none = ""
message_of (some e) = e.message

-- The retry branch of `_apply`.
unfoldable pub retry : ℕ → String → GeoTask → RunnerAction Unit
retry now task_id t =
    on_graph (modify (set_node task_id (record t { attempt = t.attempt + 1 })))
    >> (on_graph (mark_retry now task_id)
        >> (on_graph (lease task_id 0 none)
            >> on_scheduler (defer now task_id (backoff_for t.retry t.attempt))))

-- `_apply`
unfoldable pub apply : ℕ → String → TaskOutcome → RunnerAction Unit
apply now task_id o =
    if same_state o.state succeeded
    then on_graph (mark_done now task_id (some (result_of o)))
    else if same_state o.state cancelled
    then on_graph (mark_cancelled now task_id)
    else (on_graph (task task_id) >>= λ t.
        if may_retry o.error t
        then retry now task_id t
        else (on_graph (mark_failed now task_id (code_of o.error) (message_of o.error))
            >> on_scheduler (forget task_id)))

-- `_wait_for_backoff`: how long to sleep; `none` if nobody waits.
unfoldable pub wait_for_backoff : ℕ → ℕ → Runner → Option ℕ
unfolding next_wakeup
wait_for_backoff now cap r = elim r.scheduler [
  | none ↦ none
  | some s ↦ elim (next_wakeup now s) [ none ↦ none | some delay ↦ some (min delay cap) ]
]

pub record RunReport : Type 0 where
  pub total : ℕ
  pub succeeded_count : ℕ
  pub failed_count : ℕ
  pub cancelled_count : ℕ
  pub skipped_count : ℕ
  pub blocked_count : ℕ
  pub rejected_count : ℕ
  pub max_parallel : ℕ

-- The counts of `_summarize` for one task.
unfoldable pub count_state : TaskState → RunReport → RunReport
count_state succeeded r = record r { succeeded_count = r.succeeded_count + 1 }
count_state failed r = record r { failed_count = r.failed_count + 1 }
count_state cancelled r = record r { cancelled_count = r.cancelled_count + 1 }
count_state skipped r = record r { skipped_count = r.skipped_count + 1 }
count_state blocked r = record r { blocked_count = r.blocked_count + 1 }
count_state _ r = r
