-- ===== src/Geotask/Runner/Leak.antt =====
-- geotask/runner.py, `run`: no share of the node outlives its task's time in flight.
use geo_nexus_sdk.Base.{
  ℕ, ◌+◌, arith, String, Bool, true, false, not, Option, none, some, List, [], ◌∷◌, ◌++◌, keep,
  contains-append, contains-keep, Option-cases, inl, inr, if◌then◌else◌, Outcome, return, raise,
  modify, pure, ◌>>=◌, ◌>>◌, for_each, ◌==◌, eq_iff,
}
use Prim.Native.String.{◌++◌ as text_append}
use geo_nexus_sdk.Geotask.Model.{GeoTask}
use geo_nexus_sdk.Geotask.Machine.{Error}
use geo_nexus_sdk.Geotask.Store.{TaskStore}
use geo_nexus_sdk.Geotask.Graph.{bind, TaskGraph, GraphAction, task, mark_cancelled, mark_running}
use geo_nexus_sdk.Geotask.Scheduler.{Shortage, Reason, note_peak}
use geo_nexus_sdk.Geotask.Scheduler.Safe.{IsSafe}
use geo_nexus_sdk.Geotask.Scheduler.Holders.{Shares, note_peak-Shares}
use geo_nexus_sdk.Geotask.Runner.{
  on_graph, on_scheduler, release_share, apply, lease, failure_outcome, wait_for_backoff, RunReport,
  count_state,
}
use geo_nexus_sdk.Geotask.Runner.Held.{OfScheduler, on_scheduler-Keeps}
use geo_nexus_sdk.Geotask.Runner.Triples.{
  Owns, Post, Triple, OfScheduler-more, Shares-more, bind-Triple, then-Triple, on_graph-Triple,
  Keeps-Triple, release_share-Triple, apply-Triple, for_each-Triple,
}
use geo_nexus_sdk.Geotask.Runner.Admitted.{admit_ready-Triple}
use geo_nexus_sdk.Geotask.Runner.Loop.{
  Run, RunAction, on_runner, admit_ready, Turn, set_flight, add_flight, submit_leased, submit_one,
  note_parallel, Next, go_on, leave, sleep, finish_one, wait_or_finish, run_turn, run_turns,
  count_task, summarize, start, run,
}

if-Triple :
    {A : Type 0} (b : Bool) (P : Run → Type 0) (Q : A → Run → Type 0) (m n : RunAction A)
    → Triple P m Q
    → Triple P n Q
    → Triple P (if b then m else n) Q
if-Triple true P Q m n hm hn = hm
if-Triple false P Q m n hm hn = hn

module _ (turn : Turn) where
  module _ (lease_ms : ℕ) (executor_id : String) where
    submitted :
        (rest : List String) (id : String) (r : Run)
        → Owns (id ∷ rest) r
        → Owns rest (add_flight id r)
    submitted rest id r h =
        OfScheduler-more (Shares (id ∷ (rest ++ r.in_flight)))
          (Shares (rest ++ (add_flight id r).in_flight))
          (Shares-more (id ∷ (rest ++ r.in_flight)) (rest ++ (add_flight id r).in_flight) λ k m.
            ground (
              arith,
              contains-append k rest r.in_flight,
              contains-append k rest (add_flight id r).in_flight,
              contains-append k r.in_flight (id ∷ []),
              eq_iff k id,
              eq_iff id k,
            ))
          r.runner h

    submit_leased-Triple :
        (rest : List String) (id : String)
        → Triple (Owns (id ∷ rest)) (submit_leased lease_ms executor_id turn id) (λ _. Owns rest)
    unfolding submit_leased
    submit_leased-Triple rest id r h = elim (Option-cases (turn.submit id)) [
      | inl accepted ↦
          let run : RunAction Unit = on_runner (on_graph (mark_running turn.now id)) in
          let flying : RunAction Unit = modify (add_flight id) in
          rw (submit_leased, accepted)
            (then-Triple (id ∷ rest) (id ∷ rest) rest run flying
              (on_graph-Triple (id ∷ rest) (mark_running turn.now id)) (submitted rest id) r h)
      | inr (error, failed) ↦
          let o = failure_outcome "execution_error" (text_append "提交失败: " error) in
          let freeing : RunAction Unit = on_runner (release_share id) in
          let failing : RunAction Unit = on_runner (apply turn.now id o) in
          rw (submit_leased, failed)
            (then-Triple (id ∷ rest) rest rest freeing failing (release_share-Triple rest id)
              (apply-Triple rest turn.now id o) r h)
    ]

    submit_one-Triple :
        (rest : List String) (id : String)
        → Triple (Owns (id ∷ rest)) (submit_one lease_ms executor_id turn id) (λ _. Owns rest)
    unfolding submit_one
    submit_one-Triple rest id =
        let look : RunAction GeoTask = on_runner (on_graph (task id)) in
        let cancelling : RunAction Unit = on_runner (on_graph (mark_cancelled turn.now id)) in
        let freeing : RunAction Unit = on_runner (release_share id) in
        let lent : GraphAction Unit = lease id (turn.now + lease_ms) (some executor_id) in
        let leasing : RunAction Unit = on_runner (on_graph lent) in
        let submitting : RunAction Unit = submit_leased lease_ms executor_id turn id in
        bind-Triple (Owns (id ∷ rest)) (λ _. Owns (id ∷ rest)) (λ _. Owns rest) look
          (λ t. if t.cancel_requested then (cancelling >> freeing) else (leasing >> submitting))
          (on_graph-Triple (id ∷ rest) (task id))
          (λ t.
            if-Triple t.cancel_requested (Owns (id ∷ rest)) (λ _. Owns rest) (cancelling >> freeing)
              (leasing >> submitting)
              (then-Triple (id ∷ rest) (id ∷ rest) rest cancelling freeing
                (on_graph-Triple (id ∷ rest) (mark_cancelled turn.now id))
                (release_share-Triple rest id))
              (then-Triple (id ∷ rest) (id ∷ rest) rest leasing submitting
                (on_graph-Triple (id ∷ rest) lent) (submit_leased-Triple rest id)))

    -- Every task that was admitted is in flight afterwards or has given its share back.
    submit_all-Triple :
        (ids : List String)
        → Triple (Owns ids) (for_each (submit_one lease_ms executor_id turn) ids) (λ _. Owns [])
    unfolding for_each
    submit_all-Triple [] r h = h
    submit_all-Triple (id ∷ ids) r h =
        then-Triple (id ∷ ids) ids [] (submit_one lease_ms executor_id turn id)
          (for_each (submit_one lease_ms executor_id turn) ids) (submit_one-Triple ids id)
          (submit_all-Triple ids) r h

  finish_one-Triple : (id : String) → Triple (Owns []) (finish_one turn id) (λ _. Owns [])
  unfolding finish_one
  finish_one-Triple id r h =
      let freeing : RunAction Unit = on_runner (release_share id) in
      let applying : RunAction Unit = on_runner (apply turn.now id (turn.outcome id)) in
      let answer : RunAction Next = pure go_on in
      let rest = keep (λ j. not (j == id)) r.in_flight in
      bind-Triple (Owns (id ∷ [])) (λ _. Owns []) (λ _. Owns []) freeing (λ _. applying >> answer)
        (release_share-Triple [] id)
        (λ _.
          bind-Triple (Owns []) (λ _. Owns []) (λ _. Owns []) applying (λ _. answer)
            (apply-Triple [] turn.now id (turn.outcome id)) (λ _ r h. h))
        (set_flight rest r)
        (OfScheduler-more (Shares r.in_flight) (Shares (id ∷ rest))
          (Shares-more r.in_flight (id ∷ rest) λ k m.
            ground
              (arith, contains-keep (λ j. not (j == id)) k r.in_flight, eq_iff k id, eq_iff id k))
          r.runner h)

  waiting-Post :
      (o : Option ℕ) (r : Run)
      → Owns [] r
      → Post
          (λ _. Owns [])
          (elim o as (λ _. Outcome Error Next × Run) [
            | none ↦ (return leave, r)
            | some delay ↦ (return (sleep delay), r)
          ])
  waiting-Post none r h = h
  waiting-Post (some delay) r h = h

  chosen-Post :
      (ids : List String) (r : Run)
      → Owns [] r
      → Post
          (λ _. Owns [])
          (elim ids as (λ _. Outcome Error Next × Run) [
            | [] ↦ elim (wait_for_backoff turn.now 5000 r.runner) [
              | none ↦ (return leave, r)
              | some delay ↦ (return (sleep delay), r)
            ]
            | id ∷ ids ↦ finish_one turn (turn.first_done id ids) r
          ])
  chosen-Post [] r h = waiting-Post (wait_for_backoff turn.now 5000 r.runner) r h
  chosen-Post (id ∷ ids) r h = finish_one-Triple (turn.first_done id ids) r h

  wait_or_finish-Triple : Triple (Owns []) (wait_or_finish turn) (λ _. Owns [])
  unfolding wait_or_finish
  wait_or_finish-Triple r h = chosen-Post r.in_flight r h

count_task-Triple : (id : String) → Triple (Owns []) (count_task id) (λ _. Owns [])
unfolding count_task
count_task-Triple id =
    bind-Triple (Owns []) (λ _. Owns []) (λ _. Owns []) (on_runner (on_graph (task id)))
      (λ t. modify (λ r. record r { report = count_state t.state r.report }))
      (on_graph-Triple [] (task id)) (λ t r h. h)

summarize-Triple : Triple (Owns []) summarize (λ _. Owns [])
unfolding summarize
summarize-Triple r h = for_each-Triple [] count_task count_task-Triple r.runner.graph.topo r h

module _ (show_shortage : Shortage → String) (show_reason : Reason → String) (lease_ms : ℕ)
    (executor_id : String) where
  run_turn-Triple :
      (turn : Turn)
      → Triple
          (Owns [])
          (run_turn show_shortage show_reason lease_ms executor_id turn)
          (λ _. Owns [])
  unfolding run_turn
  run_turn-Triple turn =
      let noting : RunAction Unit = modify note_parallel in
      let peaking : RunAction Unit = on_runner (on_scheduler note_peak) in
      let waiting : RunAction Next = wait_or_finish turn in
      let submitting : List String → RunAction Unit =
        for_each (submit_one lease_ms executor_id turn) in
      let settling : RunAction Next = noting >> (peaking >> waiting) in
      let going : RunAction Next =
        admit_ready show_shortage show_reason turn.now >>= λ ids. submitting ids >> settling in
      if-Triple turn.stop (Owns []) (λ _. Owns []) (pure leave) going (λ r h. h)
        (bind-Triple (Owns []) Owns (λ _. Owns []) (admit_ready show_shortage show_reason turn.now)
          (λ ids. submitting ids >> settling)
          (admit_ready-Triple show_shortage show_reason turn.now)
          (λ ids.
            bind-Triple (Owns ids) (λ _. Owns []) (λ _. Owns []) (submitting ids) (λ _. settling)
              (submit_all-Triple turn lease_ms executor_id ids)
              (λ _.
                bind-Triple (Owns []) (λ _. Owns []) (λ _. Owns []) noting (λ _. peaking >> waiting)
                  (λ r h. h)
                  (λ _.
                    bind-Triple (Owns []) (λ _. Owns []) (λ _. Owns []) peaking (λ _. waiting)
                      (Keeps-Triple [] (on_scheduler note_peak)
                        λ ids. on_scheduler-Keeps (Shares ids) note_peak (note_peak-Shares ids))
                      (λ _. wait_or_finish-Triple turn)))))

  pub run_turns-Owns :
      (turns : List Turn) (r : Run)
      → Owns [] r
      → Post (λ _. Owns []) (run_turns show_shortage show_reason lease_ms executor_id turns r)
  unfolding run_turns
  run_turns-Owns [] r h = h
  run_turns-Owns (turn ∷ turns) r h =
      let rest : Next → RunAction Unit = λ next. elim next [
        | go_on ↦ run_turns show_shortage show_reason lease_ms executor_id turns
        | leave ↦ pure tt
        | sleep delay ↦ run_turns show_shortage show_reason lease_ms executor_id turns
      ] in
      bind-Triple (Owns []) (λ _. Owns []) (λ _. Owns [])
        (run_turn show_shortage show_reason lease_ms executor_id turn) rest (run_turn-Triple turn)
        (λ next. elim next as (λ k. Triple (Owns []) (rest k) (λ _. Owns [])) [
          | go_on ↦ run_turns-Owns turns
          | leave ↦ λ r h. h
          | sleep delay ↦ run_turns-Owns turns
        ])
        r h

  -- If no task holds a share of the node when a run begins, then, when the run returns, each share
  -- is that of a task still in flight, no task has two, and what is held fits the capacity and the
  -- limit on the number of tasks; it fits both also where the run raises.
  pub run-Owns :
      (now : ℕ) (store : TaskStore) (turns : List Turn) (r : Run)
      → OfScheduler (Shares []) r.runner
      → Post (λ _. Owns []) (run show_shortage show_reason lease_ms executor_id now store turns r)
  unfolding run
  run-Owns now store turns r h = finish (bind now r.runner.graph store)
    where
      ending : RunAction RunReport
      ending = summarize >>= λ _ r. (return r.report, r)

      finish :
          (g : Outcome Error TaskGraph)
          → Post
              (λ _. Owns [])
              (elim g as (λ _. Outcome Error RunReport × Run) [
                | raise e ↦ (raise e, r)
                | return g ↦
                    (run_turns show_shortage show_reason lease_ms executor_id turns >>= λ _. ending)
                      (start g r)
              ])
      finish (raise e) = OfScheduler-more (Shares []) IsSafe (λ s h. h.safe) r.runner h
      finish (return g) =
          bind-Triple (Owns []) (λ _. Owns []) (λ _. Owns [])
            (run_turns show_shortage show_reason lease_ms executor_id turns) (λ _. ending)
            (run_turns-Owns turns)
            (λ _.
              bind-Triple (Owns []) (λ _. Owns []) (λ _. Owns []) summarize
                (λ _ r. (return r.report, r)) summarize-Triple (λ _ r h. h))
            (start g r) h
