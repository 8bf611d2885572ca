-- ===== src/Geotask/Store/Effects.antt =====
-- geotask/store.py: what each method writes, with the log as a function of the store.
use geo_nexus_sdk.Base.{
  ℕ, ◌+◌, ◌≡◌, refl, true, false, Option, none, some, String, lookup, insert, get_or-insert,
  Distinct, Distinct-insert, keys, ◌==◌, Bool-cases, inl, inr, ◌∙◌, subst, sym, Dict, Json,
  contains, if◌then◌else◌, return, raise,
}
use geo_nexus_sdk.Geotask.Model.{
  GeoTask, TaskState, TaskError, TaskResult, failed, cancelled, same_state,
}
use geo_nexus_sdk.Geotask.Machine.{
  can_transition, illegal_transition, task_not_found, assert_transition,
}
use geo_nexus_sdk.Geotask.Events.{
  Event, event_types, build_event, task_state_changed, task_failed, task_cancelled,
}
use geo_nexus_sdk.Geotask.Store.{
  TaskStore, append_event, retain, event_attempt, transition, require, settle, announce, set_task,
  change_data, failure_data, cancel_data,
}
use geo_nexus_sdk.Geotask.Store.Log.{IsLog, history_of, latest_of, retain-IsLog}

-- The store with one more event in the log of `task_id`, under the next number.
abbrev pub next_event : ℕ → String → String → Dict Json → ℕ → TaskStore → Event
next_event now task_id event payload attempt s = record {
  task_id = task_id;
  seq = latest_of s task_id + 1;
  event = event;
  payload = payload;
  attempt = event_attempt attempt (lookup task_id s.tasks);
  timestamp = now;
}

abbrev pub logged : String → Event → TaskStore → TaskStore
logged task_id e s = record s {
  seqs = insert task_id e.seq s.seqs;
  events = insert task_id (retain s.event_retention (history_of s task_id) e) s.events;
}

-- An event of a known type is appended, and its number is the answer.
pub append_event-known :
    (now : ℕ) (task_id event : String) (payload : Dict Json) (attempt : ℕ) (s : TaskStore)
    → contains event event_types ≡ true
    → append_event now task_id event payload attempt s ≡ (
      return (latest_of s task_id + 1),
      logged task_id (next_event now task_id event payload attempt s) s,
    )
unfolding append_event build_event
append_event-known now task_id event payload attempt s known = rw known

-- Every log of the store is in order, and the two dictionaries hold no key twice.
pub record IsLogged (s : TaskStore) : Type 0 where
  pub log : (id : String) → IsLog s.event_retention (latest_of s id) (history_of s id)
  pub one_history : Distinct (keys s.events)
  pub one_seq : Distinct (keys s.seqs)

-- What a write to a log leaves alone, and what it keeps.
pub record LogStep (s s' : TaskStore) : Type 0 where
  pub same_tasks : s'.tasks ≡ s.tasks
  pub same_limit : s'.event_retention ≡ s.event_retention
  pub logs : IsLogged s → IsLogged s'

pub LogStep-refl : (s : TaskStore) → LogStep s s
LogStep-refl s = record { same_tasks = refl; same_limit = refl; logs = λ l. l }

pub LogStep-trans : {s t u : TaskStore} → LogStep s t → LogStep t u → LogStep s u
LogStep-trans a b = record {
  same_tasks = b.same_tasks ∙ a.same_tasks;
  same_limit = b.same_limit ∙ a.same_limit;
  logs = λ l. b.logs (a.logs l);
}

logged-IsLogged :
    (task_id : String) (e : Event) (s : TaskStore)
    → e.seq ≡ latest_of s task_id + 1
    → IsLogged s
    → IsLogged (logged task_id e s)
logged-IsLogged task_id e s numbered logs = record {
  log = λ id. elim (Bool-cases (task_id == id)) [
    | inl same ↦
        rw (get_or-insert task_id id e.seq 0 s.seqs, get_or-insert task_id id, same)
          (subst
            (λ n. IsLog s.event_retention n (retain s.event_retention (history_of s task_id) e))
            (sym numbered) (retain-IsLog _ _ _ e (logs.log task_id) numbered))
    | inr other ↦
        rw (get_or-insert task_id id e.seq 0 s.seqs, get_or-insert task_id id, other) (logs.log id)
  ];
  one_history = Distinct-insert task_id _ s.events logs.one_history;
  one_seq = Distinct-insert task_id _ s.seqs logs.one_seq;
}

pub append_event-LogStep :
    (now : ℕ) (task_id event : String) (payload : Dict Json) (attempt : ℕ) (s : TaskStore)
    → contains event event_types ≡ true
    → ((append_event now task_id event payload attempt s).0 ≡ return (latest_of s task_id + 1))
      × LogStep s (append_event now task_id event payload attempt s).1
append_event-LogStep now task_id event payload attempt s known =
    rw (append_event-known now task_id event payload attempt s known) (
      refl,
      record {
        same_tasks = refl;
        same_limit = refl;
        logs = logged-IsLogged task_id (next_event now task_id event payload attempt s) s refl;
      },
    )

announce-LogStep :
    (now : ℕ) (task_id : String) (src to : TaskState) (reason : String) (task : GeoTask)
    (s : TaskStore)
    → ((announce now task_id src to reason task s).0 ≡ return tt)
      × LogStep s (announce now task_id src to reason task s).1
unfolding announce
announce-LogStep now task_id src to reason task s = elim (Bool-cases (same_state to failed)) [
  | inl fails ↦
      let (numbered, step) =
        append_event-LogStep now task_id task_failed (failure_data src task.error) 0 s refl in
      rw (fails, numbered) (refl, step)
  | inr other ↦ elim (Bool-cases (same_state to cancelled)) [
    | inl cancels ↦
        let (numbered, step) =
          append_event-LogStep now task_id task_cancelled (cancel_data src reason) 0 s refl in
        rw (other, cancels, numbered) (refl, step)
    | inr quiet ↦ rw (other, quiet) (refl, LogStep-refl s)
  ]
]

pub require-some :
    (task_id : String) (s : TaskStore) {task : GeoTask}
    → lookup task_id s.tasks ≡ some task
    → require task_id s ≡ (return task, s)
unfolding require
require-some task_id s found = rw (found, require)

pub require-none :
    (task_id : String) (s : TaskStore)
    → lookup task_id s.tasks ≡ none
    → require task_id s ≡ (raise (task_not_found task_id), s)
unfolding require
require-none task_id s absent = rw (absent, require)

pub assert_transition_lem :
    (src to : TaskState)
    → assert_transition src to
      ≡ (if can_transition src to then return tt else raise (illegal_transition src to))
unfolding assert_transition
assert_transition_lem src to = refl

module _ (now : ℕ) (task_id : String) (to : TaskState) (reason : String) (error : Option TaskError)
    (result : Option TaskResult) (s : TaskStore) where
  pub transition-missing :
      lookup task_id s.tasks ≡ none
      → transition now task_id to reason error result s ≡ (raise (task_not_found task_id), s)
  unfolding transition
  transition-missing absent = rw (require-none task_id s absent)

  module _ (task : GeoTask) (found : lookup task_id s.tasks ≡ some task) where
    -- An illegal move changes nothing.
    pub transition-illegal :
        can_transition task.state to ≡ false
        → transition now task_id to reason error result s
          ≡ (raise (illegal_transition task.state to), s)
    unfolding transition
    transition-illegal illegal =
        rw (require-some task_id s found, assert_transition_lem task.state to, illegal)

    -- A legal move writes the task, and then only to the logs.
    pub transition-legal :
        can_transition task.state to ≡ true
        → ((transition now task_id to reason error result s).0
            ≡ return (settle now to error result task))
          × LogStep
              (set_task task_id (settle now to error result task) s)
              (transition now task_id to reason error result s).1
    unfolding transition
    transition-legal legal =
        let moved = settle now to error result task in
        let stored = set_task task_id moved s in
        let (numbered, first) =
          append_event-LogStep now task_id task_state_changed (change_data task.state to reason) 0
            stored refl in
        let told =
          (append_event now task_id task_state_changed (change_data task.state to reason) 0
            stored).1 in
        let (quiet, second) = announce-LogStep now task_id task.state to reason moved told in
        rw
          (
            require-some task_id s found,
            assert_transition_lem task.state to,
            legal,
            numbered,
            quiet,
          )
          (refl, LogStep-trans first second)
