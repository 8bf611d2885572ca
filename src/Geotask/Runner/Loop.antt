-- ===== src/Geotask/Runner/Loop.antt =====
-- geotask/runner.py, `run` and `_admit`. A turn of the loop holds what the world answers in it: the clock,
-- the caller's wish to stop, which submissions fail, which of the tasks in flight is done first and with
-- what outcome. How a reason of the scheduler is written as a text is a parameter.
use geo_nexus_sdk.Base.{
  ℕ, ◌+◌, String, Bool, not, Option, none, some, List, [], ◌∷◌, ◌++◌, Dict, map, keep, length, max,
  get_or, contains, if◌then◌else◌, Outcome, return, raise, Action, modify, pure, ◌>>=◌, ◌>>◌,
  for_each, ◌==◌,
}
use Prim.Native.String.{◌++◌ as text_append}
use geo_nexus_sdk.Geotask.Model.{GeoTask}
use geo_nexus_sdk.Geotask.Machine.{Error}
use geo_nexus_sdk.Geotask.Store.{TaskStore}
use geo_nexus_sdk.Geotask.Graph.{
  TaskGraph, task, ready, bind, mark_failed, mark_blocked, mark_cancelled, mark_running,
  join_reasons,
}
use geo_nexus_sdk.Geotask.Scheduler.{
  Scheduler, Shortage, Reason, ReasonCode, no_compatible_compute, resource_unavailable,
  concurrency_limit, backoff, AdmissionResult, forget, note_peak,
}
use geo_nexus_sdk.Geotask.Scheduler.Admission.{admit}
use geo_nexus_sdk.Geotask.Runner.{
  TaskOutcome, failure_outcome, Runner, RunnerAction, on_graph, on_scheduler, lease, release_share,
  apply, wait_for_backoff, RunReport, count_state,
}

-- The texts of the codes.
abbrev pub code_name : ReasonCode → String
code_name no_compatible_compute = "no_compatible_compute"
code_name resource_unavailable = "resource_unavailable"
code_name concurrency_limit = "concurrency_limit"
code_name backoff = "backoff"

pub record Run : Type 0 where
  pub runner : Runner
  pub in_flight : List String
  pub report : RunReport

abbrev pub RunAction : Type 0 → Type 0
RunAction A = Action Error Run A

abbrev pub on_runner : {A : Type 0} → RunnerAction A → RunAction A
on_runner action r = let (out, s) = action r.runner in (out, record r { runner = s })

abbrev pub reading : {A : Type 0} → (TaskGraph → Outcome Error A) → RunAction A
reading look r = (look r.runner.graph, r)

-- `[graph.task(tid) for tid in ready]`
unfoldable pub collect_tasks : List String → RunAction (List GeoTask)
collect_tasks [] = pure []
collect_tasks (id ∷ ids) =
    on_runner (on_graph (task id)) >>= λ t. collect_tasks ids >>= λ ts. pure (t ∷ ts)

abbrev pub count_rejected : Run → Run
count_rejected r = record r {
  report = record r.report { rejected_count = r.report.rejected_count + 1 };
}

abbrev pub set_scheduler : Scheduler → Run → Run
set_scheduler s r = record r { runner = record r.runner { scheduler = some s } }

pub record Turn : Type 0 where
  pub now : ℕ
  pub stop : Bool
  -- the error of a submission that raises
  pub submit : String → Option String
  -- the first that is done, of a list that is not empty
  pub first_done : String → List String → String
  pub outcome : String → TaskOutcome

abbrev pub set_flight : List String → Run → Run
set_flight ids r = record r { in_flight = ids }

-- `in_flight.add`, on a set.
abbrev pub add_flight : String → Run → Run
add_flight id r =
    set_flight (if contains id r.in_flight then r.in_flight else (r.in_flight ++ id ∷ [])) r

abbrev pub note_parallel : Run → Run
note_parallel r = record r {
  report = record r.report { max_parallel = max r.report.max_parallel (length r.in_flight) };
}

-- What the loop does after a turn.
pub data Next : Type 0 where
  go_on leave : Next
  sleep : ℕ → Next

unfoldable pub finish_one : Turn → String → RunAction Next
unfolding release_share
finish_one turn id =
    modify (λ r. set_flight (keep (λ j. not (j == id)) r.in_flight) r)
    >> (on_runner (release_share id)
        >> (on_runner (apply turn.now id (turn.outcome id)) >> pure go_on))

unfoldable pub wait_or_finish : Turn → RunAction Next
unfolding finish_one wait_for_backoff
wait_or_finish turn r = elim r.in_flight [
  | [] ↦ elim (wait_for_backoff turn.now 5000 r.runner) [
    | none ↦ (return leave, r)
    | some delay ↦ (return (sleep delay), r)
  ]
  | id ∷ ids ↦ finish_one turn (turn.first_done id ids) r
]

module _ (lease_ms : ℕ) (executor_id : String) where
  -- Behind the lease: the submission, and what follows it.
  unfoldable pub submit_leased : Turn → String → RunAction Unit
  unfolding release_share
  submit_leased turn id = elim (turn.submit id) [
    | some error ↦
        on_runner (release_share id)
        >> on_runner
            (apply turn.now id (failure_outcome "execution_error" (text_append "提交失败: " error)))
    | none ↦ on_runner (on_graph (mark_running turn.now id)) >> modify (add_flight id)
  ]

  unfoldable pub submit_one : Turn → String → RunAction Unit
  unfolding submit_leased release_share
  submit_one turn id = on_runner (on_graph (task id)) >>= λ t.
      if t.cancel_requested
      then on_runner (on_graph (mark_cancelled turn.now id)) >> on_runner (release_share id)
      else on_runner (on_graph (lease id (turn.now + lease_ms) (some executor_id)))
        >> submit_leased turn id

abbrev pub new_report : ℕ → RunReport
new_report total = record {
  total = total;
  succeeded_count = 0;
  failed_count = 0;
  cancelled_count = 0;
  skipped_count = 0;
  blocked_count = 0;
  rejected_count = 0;
  max_parallel = 1;
}

-- What `run` has before its loop.
abbrev pub start : TaskGraph → Run → Run
start g r = record {
  runner = record r.runner { graph = g };
  in_flight = [];
  report = new_report (length g.topo);
}

unfoldable pub count_task : String → RunAction Unit
unfolding count_state
count_task id = on_runner (on_graph (task id)) >>= λ t.
    modify (λ r. record r { report = count_state t.state r.report })

-- `_summarize`
unfoldable pub summarize : RunAction Unit
unfolding count_task for_each
summarize r = for_each count_task r.runner.graph.topo r

module _ (show_shortage : Shortage → String) (show_reason : Reason → String) where
  unfoldable pub fail_rejected : ℕ → Dict ReasonCode → String × List Shortage → RunAction Unit
  unfolding forget
  fail_rejected now codes (id, why) =
      on_runner (
        on_graph (
          mark_failed now id (code_name (get_or id no_compatible_compute codes))
            (join_reasons (map show_shortage why))))
      >> (on_runner (on_scheduler (forget id)) >> modify count_rejected)

  unfoldable pub note_waiting : ℕ → Dict ReasonCode → String × List Reason → RunAction Unit
  note_waiting now codes (id, why) = on_runner (
      on_graph (
        mark_blocked now id (map show_reason why)
          (code_name (get_or id resource_unavailable codes))))

  -- What follows the answer of the scheduler.
  unfoldable pub settle_admission : ℕ → AdmissionResult → RunAction (List String)
  unfolding fail_rejected note_waiting for_each
  settle_admission now result =
      for_each (fail_rejected now result.reasons) result.rejected
      >> (for_each (note_waiting now result.reasons) result.blocked >> pure result.admitted)

  unfoldable pub admit_tasks : ℕ → Scheduler → List GeoTask → RunAction (List String)
  unfolding settle_admission
  admit_tasks now s ts r =
      let decided = admit ts now s in settle_admission now decided.0 (set_scheduler decided.1 r)

  -- `_admit`
  unfoldable pub admit_ready : ℕ → RunAction (List String)
  unfolding admit_tasks collect_tasks
  admit_ready now = reading ready >>= λ ids. λ r. elim r.runner.scheduler [
    | none ↦ (return ids, r)
    | some s ↦ (collect_tasks ids >>= λ ts. admit_tasks now s ts) r
  ]

  module _ (lease_ms : ℕ) (executor_id : String) where
    -- One round of `while True`.
    unfoldable pub run_turn : Turn → RunAction Next
    unfolding admit_ready submit_one wait_or_finish for_each note_peak
    run_turn turn =
        if turn.stop
        then pure leave
        else admit_ready turn.now >>= λ ids.
            for_each (submit_one lease_ms executor_id turn) ids
            >> (modify note_parallel >> (on_runner (on_scheduler note_peak) >> wait_or_finish turn))

    unfoldable pub run_turns : List Turn → RunAction Unit
    unfolding run_turn
    run_turns [] = pure tt
    run_turns (turn ∷ turns) = run_turn turn >>= λ next. elim next [
      | go_on ↦ run_turns turns
      | leave ↦ pure tt
      | sleep delay ↦ run_turns turns
    ]

    unfoldable pub run : ℕ → TaskStore → List Turn → RunAction RunReport
    unfolding bind run_turns summarize
    run now store turns r = elim (bind now r.runner.graph store) [
      | raise e ↦ (raise e, r)
      | return g ↦ (run_turns turns >>= λ _. summarize >>= λ _ r. (return r.report, r)) (start g r)
    ]
