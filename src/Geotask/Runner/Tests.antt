-- ===== src/Geotask/Runner/Tests.antt =====
-- The theorems about the runner at concrete inputs, and a run of two attempts.
use geo_nexus_sdk.Base.{
  insert, remove, ◌≡◌, refl, subst, arith, none, some, [], ◌∷◌, lookup, get_or, pos, eq_iff, ℕ,
  String, List, end, return, false,
}
use geo_nexus_sdk.Geotask.Model.{
  backoff_for, GeoTask, RetryPolicy, new_task, no_resources, skill, created, running, queued,
  failed, error_of_code, allows_another_attempt,
}
use geo_nexus_sdk.Geotask.Graph.{
  ready, task, mark_running, ensure_queued, move, move_to, mark_retry, set_node, mark_done,
  TaskGraph, node,
}
use geo_nexus_sdk.Geotask.Graph.Cascade.Step.{IsClosed}
use geo_nexus_sdk.Geotask.Store.{
  put, append_event, set_lease, require, transition, announce, settle, TaskStore,
}
use geo_nexus_sdk.Geotask.Scheduler.{
  available, defer, Scheduler, Reservation, new_scheduler, Shortage, Reason,
}
use geo_nexus_sdk.Geotask.Scheduler.Safe.{run_calls, run_calls-IsSafe}
use geo_nexus_sdk.Geotask.Scheduler.Holders.{Shares}
use geo_nexus_sdk.Geotask.Events.{build_event}
use geo_nexus_sdk.Geotask.Scheduler.Admission.{admit, place, sift, rejection_for}
use geo_nexus_sdk.Geotask.Scheduler.Order.{fair_order}
use geo_nexus_sdk.Geotask.Runner.{
  lease, lease_in, retry, Runner, TaskOutcome, failure_outcome, success_outcome, apply,
}
use geo_nexus_sdk.Geotask.Machine.{in_states, can_transition}
use geo_nexus_sdk.Geotask.Runner.Loop.{Run, Turn, new_report, run}
use geo_nexus_sdk.Geotask.Runner.Triples.{Owns, Post}
use geo_nexus_sdk.Geotask.Runner.Leak.{run-Owns}
use geo_nexus_sdk.Geotask.Runner.Settle.{Settled, outcome_state, apply-Settled}

-- A task that runs for the first time of two.
abbrev twice_at_most : RetryPolicy
twice_at_most = record { max_attempts = 2; backoff = 1000; multiplier = 200; max_backoff = 60000 }

abbrev download : GeoTask
download = record (new_task 1 "download" skill [] (pos 0) no_resources twice_at_most none) {
  state = running;
}

abbrev solo : TaskGraph
solo = record {
  nodes = ("download", download) ∷ [];
  order = "download" ∷ [];
  errors = [];
  store = none;
  topo = "download" ∷ [];
}

abbrev solo_runner : Runner
solo_runner = record { graph = solo; scheduler = none }

-- The task before it runs, on a node for one task.
abbrev waiting_solo : TaskGraph
waiting_solo = record solo { nodes = ("download", record download { state = created }) ∷ [] }

abbrev node_of_four : Reservation
node_of_four = record { cpu_cores = 4000; memory_mb = 8192; gpu_count = 0; gpu_kind = none }

abbrev empty_store : TaskStore
empty_store = record { tasks = []; events = []; seqs = []; event_retention = 100 }

abbrev small_node : Scheduler
small_node = new_scheduler node_of_four (some 1)

abbrev idle_run : Run
idle_run = record {
  runner = record { graph = waiting_solo; scheduler = some small_node };
  in_flight = [];
  report = new_report 0;
}

-- The first attempt times out, the second one is after the time that its task has to wait.
abbrev attempt_at : ℕ → TaskOutcome → Turn
attempt_at now o = record {
  now = now;
  stop = false;
  submit = λ _. none;
  first_done = λ id _. id;
  outcome = λ _. o;
}

abbrev two_attempts : List Turn
two_attempts =
    attempt_at 9 (failure_outcome "timeout" "slow")
    ∷ attempt_at 5000 (success_outcome end "done")
    ∷ []

solo-node : node solo "download" ≡ some download
unfolding node lookup
solo-node = refl

solo-IsClosed : IsClosed solo
solo-IsClosed id listed =
    subst (λ k. (t : GeoTask) × (node solo k ≡ some t)) ((eq_iff "download" id).0 (ground arith))
      (download, solo-node)

apply-Settled_example :
    Settled "download"
      (outcome_state (failure_outcome "timeout" "slow") download)
      (apply 9 "download" (failure_outcome "timeout" "slow") solo_runner)
apply-Settled_example =
    apply-Settled 9 "download" (failure_outcome "timeout" "slow") solo_runner download solo-IsClosed
      solo-node refl

-- A failure that may be tried again puts the task back; one that may not ends it.
outcome_states :
    (outcome_state (failure_outcome "timeout" "slow") download ≡ queued)
    × (outcome_state (failure_outcome "invalid_spec" "no key") download ≡ failed)
unfolding error_of_code allows_another_attempt get_or lookup
outcome_states = (refl, refl)

abbrev write_shortage : Shortage → String
write_shortage _ = "short"

abbrev write_reason : Reason → String
write_reason _ = "later"

-- The run of two attempts returns.
two_attempts-result :
    (run write_shortage write_reason 60000 "local" 1 empty_store two_attempts idle_run).0
    ≡ return (record (new_report 1) { succeeded_count = 1 })
unfolding run lookup put append_event build_event ready node insert in_states task admit place
    fair_order sift rejection_for available lease lease_in set_lease require mark_running
    ensure_queued move move_to transition can_transition announce settle apply error_of_code
    allows_another_attempt retry mark_retry set_node defer backoff_for remove mark_done
two_attempts-result = refl

small_node-Shares : Shares [] small_node
unfolding run_calls lookup
small_node-Shares = record {
  safe = run_calls-IsSafe node_of_four (some 1) [];
  held = record { one = tt; listed = λ k m. m };
}

run-Owns_example :
    Post
      (λ _. Owns [])
      (run write_shortage write_reason 60000 "local" 1 empty_store two_attempts idle_run)
run-Owns_example =
    run-Owns write_shortage write_reason 60000 "local" 1 empty_store two_attempts idle_run
      small_node-Shares
