-- ===== src/Geotask/Runner/Held.antt =====
-- geotask/runner.py: whose share of the node is held, step by step.
use geo_nexus_sdk.Base.{
  ℕ, ◌+◌, String, Bool, true, false, none, some, Option-cases, inl, inr, if◌then◌else◌, Outcome,
  return, raise, modify, and_then, ◌>>=◌, ◌>>◌,
}
use geo_nexus_sdk.Geotask.Model.{GeoTask, backoff_for, same_state, succeeded, cancelled}
use geo_nexus_sdk.Geotask.Machine.{Error}
use geo_nexus_sdk.Geotask.Graph.{task, set_node, mark_retry, mark_failed, mark_cancelled, mark_done}
use geo_nexus_sdk.Geotask.Scheduler.{Scheduler, forget, defer}
use geo_nexus_sdk.Geotask.Runner.{
  TaskOutcome, Runner, RunnerAction, on_graph, on_scheduler, apply, retry, may_retry, lease,
  code_of, message_of, result_of,
}

-- A property of the runner that does not look at the graph, so that a method of the graph keeps it,
-- and the other actions that keep it, also when they raise.
abbrev pub OfScheduler : (Scheduler → Type 0) → Runner → Type 0
OfScheduler P r = elim r.scheduler [ none ↦ Unit | some s ↦ P s ]

module _ (P : Scheduler → Type 0) where
  abbrev pub Keeps : {A : Type 0} → RunnerAction A → Type 0
  Keeps m = (r : Runner) → OfScheduler P r → OfScheduler P (m r).1

  next-Keeps :
      {A B : Type 0} (f : A → RunnerAction B)
      → ((a : A) → Keeps (f a))
      → (s : Outcome Error A × Runner) → OfScheduler P s.1
      → OfScheduler P (and_then s.0 f s.1).1
  next-Keeps f hf (return a, r) h = hf a r h
  next-Keeps f hf (raise e, r) h = h

  pub bind-Keeps :
      {A B : Type 0} (m : RunnerAction A) (f : A → RunnerAction B)
      → Keeps m
      → ((a : A) → Keeps (f a))
      → Keeps (m >>= f)
  bind-Keeps m f hm hf r h = next-Keeps f hf (m r) (hm r h)

  pub on_scheduler-Keeps :
      (change : Scheduler → Scheduler)
      → ((s : Scheduler) → P s → P (change s))
      → Keeps (on_scheduler change)
  on_scheduler-Keeps change step r h = elim (Option-cases r.scheduler) [
    | inl absent ↦ rw (absent, on_scheduler) h
    | inr (s, found) ↦ let p : P s = rw found at h in rw (found, on_scheduler) (step s p)
  ]

  if-Keeps :
      {A : Type 0} (b : Bool) (m n : RunnerAction A)
      → Keeps m
      → Keeps n
      → Keeps (if b then m else n)
  if-Keeps true m n hm hn = hm
  if-Keeps false m n hm hn = hn

  -- Two actions, one behind the other.
  then-Keeps :
      {A B : Type 0} (m : RunnerAction A) (n : RunnerAction B) → Keeps m → Keeps n → Keeps (m >> n)
  then-Keeps m n hm hn = bind-Keeps m (λ _. n) hm (λ _. hn)

  module _
      (deferred : (now : ℕ) (id : String) (wait : ℕ) (s : Scheduler)
        → P s
        → P (defer now id wait s))
      (forgotten : (id : String) (s : Scheduler) → P s → P (forget id s)) where
    retry-Keeps : (now : ℕ) (id : String) (t : GeoTask) → Keeps (retry now id t)
    unfolding retry
    retry-Keeps now id t =
        let counted : RunnerAction Unit =
          on_graph (modify (set_node id (record t { attempt = t.attempt + 1 }))) in
        let requeued : RunnerAction Unit = on_graph (mark_retry now id) in
        let leased : RunnerAction Unit = on_graph (lease id 0 none) in
        let noted : RunnerAction Unit =
          on_scheduler (defer now id (backoff_for t.retry t.attempt)) in
        then-Keeps counted (requeued >> (leased >> noted)) (λ r h. h)
          (then-Keeps requeued (leased >> noted) (λ r h. h)
            (then-Keeps leased noted (λ r h. h)
              (on_scheduler-Keeps (defer now id (backoff_for t.retry t.attempt))
                (deferred now id (backoff_for t.retry t.attempt)))))

    fail-Keeps :
        (now : ℕ) (id : String) (o : TaskOutcome)
        → Keeps (
            on_graph (mark_failed now id (code_of o.error) (message_of o.error))
            >> on_scheduler (forget id))
    fail-Keeps now id o =
        then-Keeps (on_graph (mark_failed now id (code_of o.error) (message_of o.error)))
          (on_scheduler (forget id)) (λ r h. h) (on_scheduler-Keeps (forget id) (forgotten id))

    -- `_apply`, where the property survives what the scheduler notes.
    pub apply-Keeps : (now : ℕ) (id : String) (o : TaskOutcome) → Keeps (apply now id o)
    unfolding apply
    apply-Keeps now id o =
        let failing : RunnerAction Unit =
          on_graph (mark_failed now id (code_of o.error) (message_of o.error))
          >> on_scheduler (forget id) in
        let rest : GeoTask → RunnerAction Unit =
          λ t. if may_retry o.error t then retry now id t else failing in
        let cancelling : RunnerAction Unit = on_graph (mark_cancelled now id) in
        if-Keeps (same_state o.state succeeded) (on_graph (mark_done now id (some (result_of o))))
          (if same_state o.state cancelled then cancelling else (on_graph (task id) >>= rest))
          (λ r h. h)
          (if-Keeps (same_state o.state cancelled) cancelling (on_graph (task id) >>= rest)
            (λ r h. h)
            (bind-Keeps (on_graph (task id)) rest (λ r h. h)
              λ t.
                if-Keeps (may_retry o.error t) (retry now id t) failing (retry-Keeps now id t)
                  (fail-Keeps now id o)))
