-- ===== src/Geotask/Runner/Admitted.antt =====
-- geotask/runner.py, `_admit`: what it takes of the node is what it answers.
use geo_nexus_sdk.Base.{
  ℕ, arith, String, none, some, List, [], ◌++◌, Dict, map, get_or, contains-append, Option-cases,
  inl, inr, return, modify, pure, ◌>>=◌, ◌>>◌, for_each,
}
use geo_nexus_sdk.Geotask.Model.{GeoTask}
use geo_nexus_sdk.Geotask.Graph.{GraphAction, ready, mark_failed, mark_blocked, join_reasons}
use geo_nexus_sdk.Geotask.Scheduler.{
  Scheduler, Shortage, Reason, ReasonCode, AdmissionResult, forget, no_compatible_compute,
  resource_unavailable,
}
use geo_nexus_sdk.Geotask.Scheduler.Admission.{admit}
use geo_nexus_sdk.Geotask.Scheduler.Holders.{Shares, admit-Shares}
use geo_nexus_sdk.Geotask.Runner.{on_graph, on_scheduler}
use geo_nexus_sdk.Geotask.Runner.Triples.{
  Owns, Triple, Owns-IsSafe, Shares-more, settle-Post, next-Triple, bind-Triple, then-Triple,
  on_graph-Triple, forget-Triple, for_each-Triple, collect_tasks-Triple,
}
use geo_nexus_sdk.Geotask.Runner.Loop.{
  Run, RunAction, on_runner, collect_tasks, count_rejected, fail_rejected, note_waiting,
  settle_admission, set_scheduler, admit_tasks, admit_ready, code_name,
}

-- What a run knows between the answer of the graph and that of the scheduler.
abbrev Reading : Scheduler → Run → Type 0
Reading s r = Owns [] r × Shares r.in_flight s

module _ (show_shortage : Shortage → String) (show_reason : Reason → String) where
  fail_rejected-Triple :
      (rest : List String) (now : ℕ) (codes : Dict ReasonCode) (e : String × List Shortage)
      → Triple (Owns rest) (fail_rejected show_shortage show_reason now codes e) (λ _. Owns rest)
  unfolding fail_rejected
  fail_rejected-Triple rest now codes (id, why) =
      let failing : GraphAction Unit =
        mark_failed now id (code_name (get_or id no_compatible_compute codes))
          (join_reasons (map show_shortage why)) in
      let forgetting : RunAction Unit = on_runner (on_scheduler (forget id)) in
      let counting : RunAction Unit = modify count_rejected in
      then-Triple rest rest rest (on_runner (on_graph failing)) (forgetting >> counting)
        (on_graph-Triple rest failing)
        (then-Triple rest rest rest forgetting counting (forget-Triple rest id) (λ r h. h))

  settle_admission-Triple :
      (now : ℕ) (result : AdmissionResult)
      → Triple (Owns result.admitted) (settle_admission show_shortage show_reason now result) Owns
  unfolding settle_admission note_waiting
  settle_admission-Triple now result =
      let ids = result.admitted in
      let failing : RunAction Unit =
        for_each (fail_rejected show_shortage show_reason now result.reasons) result.rejected in
      let waiting : RunAction Unit =
        for_each (note_waiting show_shortage show_reason now result.reasons) result.blocked in
      let answer : RunAction (List String) = pure ids in
      bind-Triple (Owns ids) (λ _. Owns ids) Owns failing (λ _. waiting >> answer)
        (for_each-Triple ids (fail_rejected show_shortage show_reason now result.reasons)
          (fail_rejected-Triple ids now result.reasons) result.rejected)
        (λ _.
          bind-Triple (Owns ids) (λ _. Owns ids) Owns waiting (λ _. answer)
            (for_each-Triple ids (note_waiting show_shortage show_reason now result.reasons)
              (λ (id, why). on_graph-Triple ids (
                mark_blocked now id (map show_reason why)
                  (code_name (get_or id resource_unavailable result.reasons))))
              result.blocked)
            (λ _ r h. h))

  admit_tasks-Triple :
      (now : ℕ) (s : Scheduler) (ts : List GeoTask)
      → Triple (Reading s) (admit_tasks show_shortage show_reason now s ts) Owns
  unfolding admit_tasks
  admit_tasks-Triple now s ts r (_, h) =
      let decided = admit ts now s in
      let ids = decided.0.admitted in
      settle_admission-Triple now decided.0 (set_scheduler decided.1 r) (
        Shares-more (r.in_flight ++ ids) (ids ++ r.in_flight)
          (λ k m.
            ground (arith, contains-append k r.in_flight ids, contains-append k ids r.in_flight))
          decided.1 (admit-Shares r.in_flight ts now s h))

  admit_with-Triple :
      (now : ℕ) (ids : List String)
      → Triple
          (Owns [])
          (λ r. elim r.runner.scheduler [
            | none ↦ (return ids, r)
            | some s ↦
                (collect_tasks ids >>= λ ts. admit_tasks show_shortage show_reason now s ts) r
          ])
          Owns
  admit_with-Triple now ids r h = elim (Option-cases r.runner.scheduler) [
    | inl absent ↦ rw absent (rw absent tt)
    | inr (s, found) ↦
        let p : Shares r.in_flight s = rw found at h in
        let tasks : RunAction (List GeoTask) = collect_tasks ids in
        rw found (
          bind-Triple (Reading s) (λ _. Reading s) Owns tasks
            (admit_tasks show_shortage show_reason now s)
            (collect_tasks-Triple (Reading s) (λ r h. Owns-IsSafe [] r h.0) (λ m r h. h) ids)
            (admit_tasks-Triple now s) r (h, p))
  ]

  pub admit_ready-Triple :
      (now : ℕ) → Triple (Owns []) (admit_ready show_shortage show_reason now) Owns
  unfolding admit_ready
  admit_ready-Triple now r h =
      next-Triple (λ _. Owns []) Owns _ (admit_with-Triple now) (ready r.runner.graph, r)
        (settle-Post [] (ready r.runner.graph) r h)
