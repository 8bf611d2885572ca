-- ===== src/Geotask/Store.antt =====
-- geotask/store.py, the memory store: tasks, their events and the last sequence number of each.
-- A method holds the lock from start to end, so it is one step. `now` is what the clock reads
-- while it runs. A method that raises keeps what it wrote before.
pub mod Log
pub mod Effects
pub mod Invariant
pub mod Moves
pub mod Reconcile
pub mod Listing
mod Tests
use geo_nexus_sdk.Base.{
  finite, ℕ, ◌+◌, ◌-◌, ◌≤◌, String, Bool, true, false, not, ◌&&◌, ◌||◌, Option, none, some, List,
  [], ◌∷◌, ◌++◌, Dict, lookup, insert, remove, get_or, set_default, values, has, keys, Json, str,
  float, pos, bool, length, drop, take, keep, ltb, leb, eqb, min, if◌then◌else◌, or_else, is_none,
  is_some, Outcome, return, raise, Action, get_state, modify, pure, throw, and_then, lift, ◌>>=◌,
  ◌>>◌, ℤ, leb_int, eqb_int, ◌==◌,
}
use geo_nexus_sdk.Geotask.Model.{
  TaskState, created, queued, blocked, scheduled, running, failed, cancelled, same_state,
  state_value, kind_value, TaskError, error_of_code, TaskResult, GeoTask, allows_another_attempt,
}
use geo_nexus_sdk.Geotask.Machine.{
  Error, illegal_transition, task_not_found, event_history_gone, assert_transition, is_terminal,
  is_terminal_state, in_states,
}
use geo_nexus_sdk.Geotask.Events.{
  Event, build_event, task_created, task_state_changed, task_progress, task_failed, task_cancelled,
}

pub record TaskStore : Type 0 where
  pub tasks : Dict GeoTask
  pub events : Dict (List Event)
  pub seqs : Dict ℕ
  pub event_retention : ℕ

abbrev pub StoreAction : Type 0 → Type 0
StoreAction A = Action Error TaskStore A

-- TaskStore(event_retention=...)
abbrev pub memory : ℕ → TaskStore
memory retention = record { tasks = []; events = []; seqs = []; event_retention = retention }

-- The object under `task_id` is mutated in place.
abbrev pub set_task : String → GeoTask → TaskStore → TaskStore
set_task task_id task s = record s { tasks = insert task_id task s.tasks }

-- `attempt or (task.attempt if task else 0)`
abbrev pub event_attempt : ℕ → Option GeoTask → ℕ
event_attempt attempt none = attempt
event_attempt attempt (some t) = if eqb attempt 0 then t.attempt else attempt

-- `history.append(payload)`, and the oldest events are deleted beyond the limit.
unfoldable pub retain : ℕ → List Event → Event → List Event
retain limit history payload =
    let longer = history ++ payload ∷ [] in
    if ltb limit (length longer) then drop (length longer - limit) longer else longer

unfoldable pub append_event : ℕ → String → String → Dict Json → ℕ → StoreAction ℕ
unfolding get_or
append_event now task_id event payload attempt s =
    let seq = get_or task_id 0 s.seqs + 1 in
    and_then
      (build_event now task_id seq event payload (event_attempt attempt (lookup task_id s.tasks)))
      (λ built s'. (
        return seq,
        record s' {
          events =
              insert task_id (retain s.event_retention (get_or task_id [] s.events) built) s.events;
        },
      ))
      (record s { seqs = insert task_id seq s.seqs })

-- A new task with an empty log; a log that is there already goes on.
abbrev pub add_task : GeoTask → TaskStore → TaskStore
add_task task s = record s {
  tasks = insert task.task_id task s.tasks;
  events = set_default task.task_id [] s.events;
  seqs = set_default task.task_id 0 s.seqs;
}

unfoldable pub put : ℕ → GeoTask → StoreAction GeoTask
put now task s = elim (lookup task.task_id s.tasks) [
  | some existing ↦ (return existing, s)
  | none ↦
      (append_event now task.task_id task_created (("kind", str (kind_value task.kind)) ∷ []) 0
          >>= λ _. pure task)
        (add_task task s)
]

unfoldable pub get : String → TaskStore → Option GeoTask
get task_id s = lookup task_id s.tasks

unfoldable pub require : String → StoreAction GeoTask
unfolding get
require task_id s = elim (get task_id s) [
  | none ↦ (raise (task_not_found task_id), s)
  | some t ↦ (return t, s)
]

-- The filters of `list`; `none` stands for an argument that is not given.
unfoldable pub listed : Option (List TaskState) → Option String → Option String → GeoTask → Bool
listed states owner tenant t =
    elim states [ none ↦ true | some wanted ↦ in_states t.state wanted ]
    && (elim owner [ none ↦ true | some o ↦ elim t.owner [ none ↦ false | some p ↦ p == o ] ]
        && elim tenant [ none ↦ true | some o ↦ elim t.tenant [ none ↦ false | some p ↦ p == o ] ])

-- The sort key `(-priority, created_at)`: `a` goes before `b`, or ties with it.
unfoldable pub list_before : GeoTask → GeoTask → Bool
list_before a b =
    if eqb_int a.priority b.priority
    then leb a.created_at b.created_at
    else leb_int b.priority a.priority

-- A stable sort: a task goes behind those that it ties with.
unfoldable pub insert_sorted : GeoTask → List GeoTask → List GeoTask
insert_sorted t [] = t ∷ []
insert_sorted t (u ∷ us) = if list_before t u then t ∷ u ∷ us else u ∷ insert_sorted t us

unfoldable pub sort_tasks : List GeoTask → List GeoTask
sort_tasks [] = []
sort_tasks (t ∷ ts) = insert_sorted t (sort_tasks ts)

unfoldable pub list_tasks :
    Option (List TaskState) → Option String → Option String → ℕ → TaskStore → List GeoTask
unfolding listed list_before insert_sorted sort_tasks
list_tasks states owner tenant limit s =
    take limit (sort_tasks (keep (listed states owner tenant) (values s.tasks)))

unfoldable pub remove_task : String → TaskStore → TaskStore
remove_task task_id s = record s {
  tasks = remove task_id s.tasks;
  events = remove task_id s.events;
  seqs = remove task_id s.seqs;
}

-- What `transition` writes to the fields of the task.
unfoldable pub settle : ℕ → TaskState → Option TaskError → Option TaskResult → GeoTask → GeoTask
unfolding is_terminal_state
settle now to error result t =
    let moved : GeoTask = record t {
      state = to;
      started_at = if same_state to running && is_none t.started_at then some now else t.started_at;
      finished_at = if is_terminal_state to then some now else t.finished_at;
      error = or_else error t.error;
      result = or_else result t.result;
    } in
    if same_state to queued && same_state t.state running
    then record moved { error = none; started_at = none; cancel_requested = false }
    else moved

abbrev pub change_data : TaskState → TaskState → String → Dict Json
change_data src to reason =
    let ends : Dict Json = ("from", str (state_value src)) ∷ ("to", str (state_value to)) ∷ [] in
    if reason == "" then ends else ends ++ ("reason", str reason) ∷ []

abbrev pub failure_data : TaskState → Option TaskError → Dict Json
failure_data src none =
    ("code", str "execution_error")
    ∷ ("message", str "")
    ∷ ("retryable", bool true)
    ∷ ("from", str (state_value src))
    ∷ []
failure_data src (some e) =
    ("code", str e.code)
    ∷ ("message", str e.message)
    ∷ ("retryable", bool e.retryable)
    ∷ ("from", str (state_value src))
    ∷ []

abbrev pub cancel_data : TaskState → String → Dict Json
cancel_data src reason =
    ("from", str (state_value src))
    ∷ ("reason", str (if reason == "" then "user_requested" else reason))
    ∷ []

-- The second event, for a failure or a cancellation.
unfoldable pub announce : ℕ → String → TaskState → TaskState → String → GeoTask → StoreAction Unit
announce now task_id src to reason task =
    if same_state to failed
    then append_event now task_id task_failed (failure_data src task.error) 0 >>= (λ _. pure tt)
    else if same_state to cancelled
    then append_event now task_id task_cancelled (cancel_data src reason) 0 >>= (λ _. pure tt)
    else pure tt

unfoldable pub transition :
    ℕ → String → TaskState → String → Option TaskError → Option TaskResult → StoreAction GeoTask
transition now task_id to reason error result = do
  task ← require task_id
  lift (assert_transition task.state to)
  let moved = settle now to error result task
  modify (set_task task_id moved)
  append_event now task_id task_state_changed (change_data task.state to reason) 0
  announce now task_id task.state to reason moved
  pure moved

unfoldable pub set_lease : String → ℕ → Option String → StoreAction GeoTask
set_lease task_id expires_at executor = do
  task ← require task_id
  let leased : GeoTask = record task {
    lease_expires_at = some expires_at;
    scheduled_to = or_else executor task.scheduled_to;
  }
  modify (set_task task_id leased)
  pure leased

-- A progress of 1.0, in millionths.
abbrev pub whole : ℕ
whole = 1000000

unfoldable pub report_progress : ℕ → String → ℕ → String → StoreAction Unit
report_progress now task_id progress message = do
  task ← require task_id
  let told : GeoTask = record task {
    progress = min whole progress;
    message = if message == "" then task.message else message;
  }
  modify (set_task task_id told)
  append_event now task_id task_progress
      (("progress", float (finite (pos told.progress))) ∷ ("message", str told.message) ∷ [])
      told.attempt
  pure tt

unfoldable pub request_cancel : ℕ → String → StoreAction GeoTask
request_cancel now task_id = do
  task ← require task_id
  if is_terminal task then throw (illegal_transition task.state cancelled) else pure tt
  let asked : GeoTask = record task { cancel_requested = true }
  modify (set_task task_id asked)
  if in_states task.state (created ∷ queued ∷ blocked ∷ [])
      then transition now task_id cancelled "cancelled_before_start" none none
      else pure asked

pub record ReconcileReport : Type 0 where
  pub requeued : ℕ
  pub failed_count : ℕ
  pub checked : ℕ

abbrev pub lease_expired : ℕ → Option ℕ → Bool
lease_expired now none = true
lease_expired now (some t) = leb t now

abbrev pub executor_lost : TaskError
unfolding error_of_code
executor_lost = error_of_code "executor_lost" "执行者租约过期：重启后没有存活的执行者认领该任务" none

-- The loop's body for the object `task`.
unfoldable pub reconcile_task : ℕ → ReconcileReport → GeoTask → StoreAction ReconcileReport
reconcile_task now report task =
    if not (in_states task.state (scheduled ∷ running ∷ []))
    then pure report
    else (let seen : ReconcileReport = record report { checked = report.checked + 1 } in
        if not (lease_expired now task.lease_expires_at)
        then pure seen
        else if allows_another_attempt task.retry task.attempt
        then (modify (set_task task.task_id (record task { attempt = task.attempt + 1 }))
            >> (transition now task.task_id queued "lease_expired" none none >>= λ _.
                pure (record seen { requeued = seen.requeued + 1 })))
        else (transition now task.task_id failed "lease_expired" (some executor_lost) none >>= λ _.
            pure (record seen { failed_count = seen.failed_count + 1 })))

-- The snapshot holds the objects themselves, so each is read when its turn comes.
unfoldable pub reconcile_from : ℕ → ReconcileReport → List String → StoreAction ReconcileReport
reconcile_from now report [] = pure report
reconcile_from now report (id ∷ ids) =
    require id >>= λ task. reconcile_task now report task >>= λ next. reconcile_from now next ids

unfoldable pub reconcile : ℕ → StoreAction ReconcileReport
reconcile now s =
    reconcile_from now (record { requeued = 0; failed_count = 0; checked = 0 }) (keys s.tasks) s

abbrev pub oldest : List Event → ℕ
oldest [] = 0
oldest (e ∷ es) = e.seq

-- `history and since and since < history[0]["seq"] - 1`
unfoldable pub cut_off : List Event → ℕ → Bool
cut_off history since = ltb 0 (length history) && (ltb 0 since && ltb since (oldest history - 1))

unfoldable pub events_since : String → ℕ → StoreAction (List Event × ℕ)
unfolding cut_off get_or
events_since task_id since s =
    let history = get_or task_id [] s.events in
    let latest = get_or task_id 0 s.seqs in
    if cut_off history since
    then (raise (event_history_gone task_id since (oldest history)), s)
    else (return (keep (λ e. ltb since e.seq) history, latest), s)

unfoldable pub subscribe : String → ℕ → StoreAction (List Event)
unfolding events_since
subscribe task_id since = events_since task_id since >>= λ r. pure r.0
