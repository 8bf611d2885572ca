-- ===== src/Cafe/Dispatch.antt =====
-- cafe/central.py, dispatch. What a worker does with a request is the parameter `execute`, by the number
-- of the attempt, and `arrange` is the order in which Python walks through a set of texts.
pub mod Detach
pub mod Reach
pub mod Leases
use geo_nexus_sdk.Base.{
  ℕ, suc, zero, ◌+◌, String, Bool, true, false, Option, none, some, List, [], ◌∷◌, ◌++◌, Dict,
  lookup, insert, remove, length, leb_text, if◌then◌else◌, Outcome, return, raise,
}
use geo_nexus_sdk.Cafe.Protocol.{
  succeeded, failed, TaskStatus, queued, running, timeout, PushdownRequest, PushdownResult,
  ResultError, not_routed, worker_not_found, tried, no_error, Worker,
}
use geo_nexus_sdk.Cafe.Central.{RoutingDecision, CentralServer, mark_unhealthy}
use geo_nexus_sdk.Cafe.Routing.{route}

-- sorted(attempted)
unfoldable pub insert_text : String → List String → List String
insert_text x [] = x ∷ []
insert_text x (y ∷ ys) = if leb_text x y then x ∷ y ∷ ys else y ∷ insert_text x ys

unfoldable pub sort_texts : List String → List String
unfolding insert_text
sort_texts [] = []
sort_texts (x ∷ xs) = insert_text x (sort_texts xs)

-- What `workers.pop` takes out, and `workers.update(saved)`, which puts it at the end.
unfoldable pub detach : List String → Dict Worker → Dict Worker × Dict Worker
detach [] workers = ([], workers)
detach (id ∷ ids) workers = elim (lookup id workers) [
  | none ↦ detach ids workers
  | some w ↦ let rest = detach ids (remove id workers) in ((id, w) ∷ rest.0, rest.1)
]

unfoldable pub restore : Dict Worker → Dict Worker → Dict Worker
restore [] workers = workers
restore ((id, w) ∷ saved) workers = restore saved (insert id w workers)

pub data CafeError : Type 0 where
  key_error : String → CafeError
  worker_raised : String → CafeError

abbrev pub error_or_none : Option ResultError → ResultError
error_or_none none = no_error
error_or_none (some e) = e

abbrev pub failed_result : String → ResultError → PushdownResult
failed_result task_id error = record {
  task_id = task_id;
  status = failed;
  result = none;
  error = some error;
  worker_id = none;
  error_code = none;
  retryable = false;
}

abbrev pub has_succeeded : TaskStatus → Bool
has_succeeded succeeded = true
has_succeeded queued = false
has_succeeded running = false
has_succeeded failed = false
has_succeeded timeout = false

module _ (arrange : List String → List String) where
  unfoldable pub route_excluding :
      ℕ → PushdownRequest → List String → CentralServer → RoutingDecision × CentralServer
  unfolding route detach restore
  route_excluding now r [] c = route now r c
  route_excluding now r (a ∷ attempted) c =
      let split = detach (arrange (a ∷ attempted)) c.workers in
      let routed = route now r (record c { workers = split.1 }) in
      (routed.0, record routed.1 { workers = restore split.0 routed.1.workers })

  -- `routed` and `failed_at` are what the clock reads at the start of an attempt and at its failure.
  module _ (execute : ℕ → Worker → PushdownRequest → Outcome String PushdownResult)
      (routed failed_at : ℕ → ℕ) (r : PushdownRequest) (lease_ms : ℕ) where
    unfoldable pub hold_lease : ℕ → String → CentralServer → CentralServer
    hold_lease attempt id c = record c {
      leases =
          insert r.task_id
            (record {
              task_id = r.task_id;
              worker_id = id;
              expires_at = routed attempt + lease_ms;
              attempt = attempt;
            })
            c.leases;
    }

    unfoldable pub drop_lease : CentralServer → CentralServer
    drop_lease c = record c { leases = remove r.task_id c.leases }

    -- Behind the loop: the last failure, with what was tried, or the reason why there was no worker.
    unfoldable pub give_up :
        List String
        → Option PushdownResult
        → CentralServer
        → Outcome CafeError PushdownResult × CentralServer
    unfolding route sort_texts
    give_up attempted (some last) c = (
      return
          (record last { error = some (tried (error_or_none last.error) (sort_texts attempted)) }),
      c,
    )
    give_up attempted none c =
        let decided = route (routed (length attempted)) r c in
        (return (failed_result r.task_id (not_routed decided.0.reason)), decided.1)

    -- `for _ in range(budget + 1)`, with the rounds that are left.
    unfoldable pub dispatch_loop :
        ℕ
        → List String
        → Option PushdownResult
        → CentralServer
        → Outcome CafeError PushdownResult × CentralServer
    unfolding route_excluding hold_lease drop_lease mark_unhealthy give_up
    dispatch_loop zero attempted last c = give_up attempted last c
    dispatch_loop (suc rounds) attempted last c =
        let attempt = length attempted in
        let decided = route_excluding (routed attempt) r attempted c in
        elim decided.0.chosen_worker [
          | none ↦ give_up attempted last decided.1
          | some id ↦ elim (lookup id decided.1.workers) [
            | none ↦ (raise (key_error id), decided.1)
            | some w ↦
                let held = hold_lease attempt w.worker_id decided.1 in
                elim (execute attempt w r) [
                  | raise e ↦ (raise (worker_raised e), held)
                  | return result ↦ elim (has_succeeded result.status) [
                    | true ↦ (return result, drop_lease held)
                    | false ↦ elim result.retryable [
                      | false ↦ (return result, drop_lease held)
                      | true ↦
                          dispatch_loop rounds (attempted ++ w.worker_id ∷ []) (some result)
                            (mark_unhealthy (failed_at attempt) w.worker_id none (drop_lease held))
                    ]
                  ]
                ]
          ]
        ]

    -- `retries=None` is as many as there are workers.
    unfoldable pub dispatch :
        Option ℕ → CentralServer → Outcome CafeError PushdownResult × CentralServer
    unfolding dispatch_loop
    dispatch retries c =
        dispatch_loop (suc (elim retries [ none ↦ length c.workers | some n ↦ n ])) [] none c

    unfoldable pub dispatch_to :
        String → CentralServer → Outcome CafeError PushdownResult × CentralServer
    dispatch_to id c = elim (lookup id c.workers) [
      | none ↦ (return (failed_result r.task_id (worker_not_found id)), c)
      | some w ↦ elim (execute 0 w r) [
        | raise e ↦ (raise (worker_raised e), c)
        | return result ↦ (return result, c)
      ]
    ]
