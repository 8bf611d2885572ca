-- ===== src/Geotask/Store/Tests.antt =====
-- The theorems about the store at concrete inputs, and runs of its methods.
use geo_nexus_sdk.Base.{
  ℕ, ◌≡◌, ◌-◌, ◌+◌, refl, none, some, List, [], ◌∷◌, String, lookup, return, raise, arith, pos,
  insert, get_or,
}
use geo_nexus_sdk.Geotask.Model.{
  GeoTask, new_task, no_resources, default_retry, skill, queued, scheduled, running, succeeded,
}
use geo_nexus_sdk.Geotask.Machine.{
  event_history_gone, is_terminal, is_terminal_state, can_transition, in_states, assert_transition,
}
use geo_nexus_sdk.Geotask.Events.{Event, build_event}
use geo_nexus_sdk.Geotask.Store.{
  TaskStore, memory, reconcile, ReconcileReport, events_since, put, get, transition, require,
  settle, announce, append_event, set_lease,
}
use geo_nexus_sdk.Geotask.Store.Log.{
  IsLog, Consecutive, latest_of, events_since-gapless, events_since-gone, events_since_zero,
}
use geo_nexus_sdk.Geotask.Store.Invariant.{IsSound}
use geo_nexus_sdk.Geotask.Store.Reconcile.{IsOwned, reconcile-IsOwned}
use geo_nexus_sdk.Geotask.Store.Moves.{
  Call, puts, transitions, leases, cancels, reconciles, perform, perform_all, perform_all-Keeps,
  memory-IsSound,
}

abbrev survey : GeoTask
survey = new_task 1 "survey" skill [] (pos 0) no_resources default_retry none

-- The task is submitted, taken up and given a lease; then the process goes down. Four events, of
-- which the store keeps three.
abbrev before_crash : List (ℕ × Call)
before_crash =
    (1, puts survey)
    ∷ (2, transitions "survey" queued "" none none)
    ∷ (3, transitions "survey" scheduled "" none none)
    ∷ (4, transitions "survey" running "" none none)
    ∷ (5, leases "survey" 50 (some "worker-1"))
    ∷ []

after_crash : ℕ → TaskStore
after_crash retention = perform_all (memory retention) before_crash

-- `after_crash` is what the calls leave, so it is sound.
after_crash-IsSound : (retention : ℕ) → IsSound (after_crash retention)
unfolding after_crash
after_crash-IsSound retention =
    (perform_all-Keeps (memory retention) before_crash (memory-IsSound retention)).sound

reconcile-IsOwned_example :
    ((r : ReconcileReport) × ((reconcile 60 (after_crash 3)).0 ≡ return r))
    × IsSound (reconcile 60 (after_crash 3)).1
    × ((id : String) → IsOwned 60 (reconcile 60 (after_crash 3)).1 id)
reconcile-IsOwned_example = reconcile-IsOwned 60 (after_crash 3) (after_crash-IsSound 3)

-- The numbers of the log: four events were written, and as many are kept as the limit allows.
after_crash-latest :
    (retention : ℕ)
    → (latest_of (after_crash retention) "survey" ≡ 4)
      × ((after_crash retention).event_retention ≡ retention)
unfolding after_crash perform_all perform put get transition require settle announce append_event
    build_event set_lease lookup get_or is_terminal is_terminal_state can_transition
    assert_transition in_states insert
after_crash-latest retention = (refl, refl)

events_since-gapless_example :
    (es : List Event) × (events_since "survey" 2 (after_crash 3)
      ≡ (return (es, latest_of (after_crash 3) "survey"), after_crash 3))
    × Consecutive 2 es (latest_of (after_crash 3) "survey")
events_since-gapless_example =
    events_since-gapless (after_crash 3) "survey" 2 ((after_crash-IsSound 3).logs.log "survey")
      (omega (arith, after_crash-latest 3)) (omega (arith, after_crash-latest 3))

events_since-gone_example : events_since "survey" 1 (after_crash 1) ≡ (
  raise (
      event_history_gone "survey" 1
        (latest_of (after_crash 1) "survey" - (after_crash 1).event_retention + 1)),
  after_crash 1,
)
events_since-gone_example =
    events_since-gone (after_crash 1) "survey" 1 ((after_crash-IsSound 1).logs.log "survey")
      (omega arith) (omega (arith, after_crash-latest 1)) (omega (arith, after_crash-latest 1))

events_since_zero_example :
    (es : List Event) × (events_since "survey" 0 (after_crash 1)
      ≡ (return (es, latest_of (after_crash 1) "survey"), after_crash 1))
    × Consecutive
        (latest_of (after_crash 1) "survey" - (after_crash 1).event_retention)
        es
        (latest_of (after_crash 1) "survey")
events_since_zero_example =
    events_since_zero (after_crash 1) "survey" ((after_crash-IsSound 1).logs.log "survey")
      (omega (arith, after_crash-latest 1)) (omega (arith, after_crash-latest 1))

-- Two events of one task.
abbrev first_event : Event
first_event = record {
  task_id = "survey";
  seq = 1;
  event = "task_created";
  payload = [];
  attempt = 0;
  timestamp = 1;
}

abbrev second_event : Event
second_event = record first_event { seq = 2; event = "task_state_changed" }

first-IsLog : IsLog 1 1 (first_event ∷ [])
first-IsLog = record { kept = refl; gapless = (refl, refl) }

-- A task that has succeeded, and calls that try to move it all the same.
abbrev to_the_end : List (ℕ × Call)
to_the_end = (6, transitions "survey" succeeded "" none none) ∷ []

abbrev too_late : List (ℕ × Call)
too_late =
    (7, cancels "survey") ∷ (8, transitions "survey" running "" none none) ∷ (9, reconciles) ∷ []

finished : TaskStore
finished = perform_all (after_crash 3) to_the_end

abbrev surveyed : GeoTask
surveyed = record survey {
  state = succeeded;
  scheduled_to = some "worker-1";
  lease_expires_at = some 50;
  started_at = some 4;
  finished_at = some 6;
}
