-- ===== src/Geotask/Runner/Settle.antt =====
-- geotask/runner.py, `_apply`: where an outcome leaves a task that was running.
use geo_nexus_sdk.Base.{
  or_else, ℕ, ◌+◌, ◌≡◌, refl, ap, subst, ◌∙◌, true, false, Bool-cases, Option-cases, inl, inr,
  Option, none, some, String, if◌then◌else◌, Outcome, return, lookup,
}
use geo_nexus_sdk.Geotask.Model.{
  backoff_for, TaskState, queued, running, succeeded, failed, cancelled, same_state, GeoTask,
}
use geo_nexus_sdk.Geotask.Machine.{Error, is_terminal_state}
use geo_nexus_sdk.Geotask.Machine.Paths.{here}
use geo_nexus_sdk.Geotask.Store.{TaskStore, set_lease, set_task}
use geo_nexus_sdk.Geotask.Store.Effects.{require-some}
use geo_nexus_sdk.Geotask.Graph.{TaskGraph, node, set_node, mark_retry}
use geo_nexus_sdk.Geotask.Graph.Effects.{
  set_store-Sets, node-bound_some, Moves, task-some, set_node-Sets,
}
use geo_nexus_sdk.Geotask.Graph.Marks.{Moves-refl, mark_done-Moves, mark_retry-Moves}
use geo_nexus_sdk.Geotask.Graph.Cascade.Step.{IsClosed}
use geo_nexus_sdk.Geotask.Graph.Cascade.Failure.{mark_failed-Fails, mark_cancelled-Fails}
use geo_nexus_sdk.Geotask.Scheduler.{Scheduler, forget, defer}
use geo_nexus_sdk.Geotask.Runner.{
  TaskOutcome, Runner, on_scheduler, may_retry, result_of, code_of, message_of, retry, apply, lease,
  lease_in,
}

-- Where an outcome leaves its task.
abbrev pub outcome_state : TaskOutcome → GeoTask → TaskState
outcome_state o t =
    if same_state o.state succeeded
    then succeeded
    else if same_state o.state cancelled
    then cancelled
    else if may_retry o.error t
    then queued
    else failed

-- The task `id` is in the state `to`, and nothing was raised.
pub record Settled (id : String) (to : TaskState) (out : Outcome Error Unit × Runner) : Type 0 where
  pub returned : out.0 ≡ return tt
  pub new : GeoTask
  pub at : node out.1.graph id ≡ some new
  pub reached : new.state ≡ to

scheduler-Settled :
    (id : String) (to : TaskState) (change : Scheduler → Scheduler) (r : Runner) (new : GeoTask)
    → node r.graph id ≡ some new
    → new.state ≡ to
    → Settled id to (on_scheduler change r)
scheduler-Settled id to change r new at reached = elim (Option-cases r.scheduler) [
  | inl absent ↦
      rw (absent, on_scheduler) (record { returned = refl; new = new; at = at; reached = reached })
  | inr (s, found) ↦
      rw (found, on_scheduler) (record { returned = refl; new = new; at = at; reached = reached })
]

running_open : is_terminal_state running ≡ false
unfolding is_terminal_state
running_open = refl

abbrev leased : ℕ → Option String → GeoTask → GeoTask
leased expires_at executor t = record t {
  lease_expires_at = some expires_at;
  scheduled_to = or_else executor t.scheduled_to;
}

set_lease-some :
    (id : String) (expires_at : ℕ) (executor : Option String) (s : TaskStore) (t : GeoTask)
    → lookup id s.tasks ≡ some t
    → set_lease id expires_at executor s
      ≡ (return (leased expires_at executor t), set_task id (leased expires_at executor t) s)
unfolding set_lease
set_lease-some id expires_at executor s t found = rw (require-some id s found) refl

-- A new lease leaves the task where it is.
lease_in-Moves :
    (st : Option TaskStore) (id : String) (expires_at : ℕ) (executor : Option String)
    (g : TaskGraph) (t : GeoTask)
    → g.store ≡ st
    → node g id ≡ some t
    → Moves g id t t.state (lease_in st id expires_at executor g)
unfolding lease_in
lease_in-Moves none id expires_at executor g t e found = Moves-refl g id t t.state found refl
lease_in-Moves (some s) id expires_at executor g t e found =
    let (listed, stored) = node-bound_some g id s e found in
    let new = leased expires_at executor t in
    rw (set_lease-some id expires_at executor s t stored) (record {
      returned = refl;
      new = new;
      reached = refl;
      sets =
          set_store-Sets g id t new s (set_task id new s) e found refl
            (record { run = here; same_id = refl; same_deps = refl });
    })

module _ (now : ℕ) (id : String) (o : TaskOutcome) (r : Runner) (t : GeoTask)
    (closed : IsClosed r.graph) (found : node r.graph id ≡ some t) (at : t.state ≡ running) where
  -- The branch that tries again.
  retry-Settled :
      may_retry o.error t ≡ true
      → same_state o.state succeeded ≡ false
      → same_state o.state cancelled ≡ false
      → Settled id queued (apply now id o r)
  unfolding apply retry lease
  retry-Settled again other bad =
      let more : GeoTask = record t { attempt = t.attempt + 1 } in
      let g = set_node id more r.graph in
      let first =
        set_node-Sets r.graph id t more found
          (record { run = here; same_id = refl; same_deps = refl }) in
      let second = mark_retry-Moves now id g more first.at at in
      let g' = (mark_retry now id g).1 in
      let third = lease_in-Moves g'.store id 0 none g' second.new refl second.sets.at in
      rw (other, bad, task-some id r.graph found, again, second.returned, third.returned)
        (scheduler-Settled id queued (defer now id (backoff_for t.retry t.attempt)) _ third.new
          third.sets.at (third.reached ∙ second.reached))

  -- A running task of a graph whose listed tasks all have nodes is succeeded or cancelled by an
  -- outcome of that state; by any other it goes back to the queue if its error may be tried again
  -- and an attempt is left, and fails otherwise; nothing is raised.
  pub apply-Settled : Settled id (outcome_state o t) (apply now id o r)
  unfolding apply
  apply-Settled = elim (Bool-cases (same_state o.state succeeded)) [
    | inl done ↦
        let m = mark_done-Moves now id r.graph t found (some (result_of o)) (inr at) in
        rw done (record { returned = m.returned; new = m.new; at = m.sets.at; reached = m.reached })
    | inr other ↦ elim (Bool-cases (same_state o.state cancelled)) [
      | inl stopped ↦
          let m =
            mark_cancelled-Fails now id r.graph t closed found
              (ap is_terminal_state at ∙ running_open) in
          rw (other, stopped)
            (record { returned = m.returned; new = m.new; at = m.at; reached = m.reached })
      | inr bad ↦ elim (Bool-cases (may_retry o.error t)) [
        | inl again ↦
            subst (λ to. Settled id to (apply now id o r)) (rw (other, bad, again) refl)
              (retry-Settled again other bad)
        | inr over ↦
            let m =
              mark_failed-Fails now id r.graph t closed found (code_of o.error) (message_of o.error)
                (ap is_terminal_state at ∙ running_open) in
            rw (other, bad, task-some id r.graph found, over, m.returned)
              (scheduler-Settled id failed (forget id) _ m.new m.at m.reached)
      ]
    ]
  ]
