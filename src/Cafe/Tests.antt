-- ===== src/Cafe/Tests.antt =====
-- The theorems about the central server at concrete inputs, and runs of its functions.
use geo_nexus_sdk.Base.{
  In, ℕ, pos, String, true, none, some, List, [], ◌∷◌, lookup, insert, remove, All, ◌≡◌, refl, inr,
  Outcome, return, raise, if◌then◌else◌, ◌==◌, same_text, starts_with, strip_left, strip_right,
}
use geo_nexus_sdk.Geocard.Model.{absent, whole}
use geo_nexus_sdk.Resource.Sizes.{parse_memory, to_int, leb_size}
use geo_nexus_sdk.Resource.{
  match_resource, search_node, check_node, check_cpu, check_memory, check_gpu, in_gpu_none,
  gpu_norm, gpu_satisfies, is_known,
}
use geo_nexus_sdk.Cafe.Protocol.{
  succeeded, failed, PushdownRequest, PushdownResult, payload_kind, accepts, of_worker, Worker,
  WorkerTags,
}
use geo_nexus_sdk.Cafe.Central.{
  Lease, CentralServer, expired, is_healthy, capacity_of, reclaim_expired, mark_unhealthy,
}
use geo_nexus_sdk.Cafe.Routing.{
  capacity_ok, local_inputs, sift_workers, score_workers, insert_scored, sort_scored, choose,
  in_region, decide, route,
}
use geo_nexus_sdk.Cafe.Routing.Choice.{Best, route-Best}
use geo_nexus_sdk.Cafe.Dispatch.{
  detach, restore, route_excluding, hold_lease, drop_lease, dispatch_loop, dispatch,
}
use geo_nexus_sdk.Cafe.Dispatch.Reach.{Suits, Answers, Reaches, IsReady, dispatch-Reaches}
use geo_nexus_sdk.Cafe.Dispatch.Leases.{live, dispatch-leases, reclaim_expired_lem}

-- A request for code on one input, and two workers of which the first holds the input.
abbrev request : PushdownRequest
request = record {
  code = "result = 1";
  inputs = ("scene", "s1") ∷ [];
  returns = "result";
  task_id = "t";
  timeout_seconds = 60;
  region = none;
  resources = some (record { cpu = whole (pos 2); memory = absent; gpu = none });
  skill = none;
}

abbrev tags : WorkerTags
tags = record { cpu = some (pos 4); memory = absent; gpu = none; region = some "mekong" }

abbrev near : Worker
near = record {
  worker_id = "near";
  data_assets = ("s1", "/data/s1") ∷ [];
  tags = tags;
  payload_kinds = some ("code" ∷ []);
}

abbrev far : Worker
far = record { worker_id = "far"; data_assets = []; tags = tags; payload_kinds = none }

abbrev central : CentralServer
central = record {
  workers = ("far", far) ∷ ("near", near) ∷ [];
  unhealthy_ttl = 30000;
  unhealthy_until = ("near", 500) ∷ [];
  leases = [];
}

-- While its mark runs the near worker is passed over, and afterwards it is chosen.
chosen :
    ((route 400 request central).0.chosen_worker ≡ some "far")
    × ((route 500 request central).0.chosen_worker ≡ some "near")
unfolding route decide choose sort_scored insert_scored score_workers sift_workers is_healthy
    accepts payload_kind capacity_ok capacity_of local_inputs match_resource search_node check_node
    check_cpu check_memory check_gpu in_gpu_none gpu_norm gpu_satisfies is_known parse_memory to_int
    leb_size in_region same_text strip_left strip_right starts_with lookup insert remove
chosen = (refl, refl)

route-Best_example : Best 500 request central "near"
route-Best_example = route-Best 500 request central "near" (refl, tt) chosen.1

abbrev arrange : List String → List String
arrange l = l

-- The near worker cannot do it, and says that another may.
abbrev execute : ℕ → Worker → PushdownRequest → Outcome String PushdownResult
execute n w r = return (record {
  task_id = r.task_id;
  status = if w.worker_id == "far" then succeeded else failed;
  result = none;
  error = some (of_worker "unreachable");
  worker_id = some w.worker_id;
  error_code = none;
  retryable = true;
})

abbrev clock : ℕ → ℕ
clock n = 1000

far-Suits : Suits request central far
unfolding lookup accepts payload_kind capacity_ok capacity_of match_resource search_node check_node
    check_cpu check_memory check_gpu in_gpu_none gpu_norm gpu_satisfies is_known parse_memory to_int
    leb_size same_text strip_left strip_right starts_with
far-Suits = record { there = refl; takes = refl; large = refl }

far-IsReady : IsReady request central far
unfolding lookup
far-IsReady = record {
  one = (refl, (refl, tt));
  own = (refl, (refl, tt));
  marks = (refl, tt);
  unmarked = refl;
}

far-Answers : Answers request central far arrange (λ x l. refl) execute clock clock 300000
far-Answers = record { done = λ n. (_, refl, refl); others = λ n id v h. (_, refl, inr refl) }

dispatch-Reaches_example :
    Reaches request central far arrange
      (λ x l. refl)
      execute
      clock
      clock
      300000
      (dispatch arrange execute clock clock request 300000 none central).0
dispatch-Reaches_example =
    dispatch-Reaches request central far arrange (λ x l. refl) execute clock clock 300000
      far-IsReady far-Suits far-Answers

-- The answer of the only other worker, with one attempt.
abbrev alone : CentralServer
alone = record {
  workers = ("near", near) ∷ [];
  unhealthy_ttl = 30000;
  unhealthy_until = [];
  leases = ("u", record { task_id = "u"; worker_id = "far"; expires_at = 7; attempt = 0 }) ∷ [];
}

abbrev raising : ℕ → Worker → PushdownRequest → Outcome String PushdownResult
raising n w r = raise "connection lost"

-- A worker that raises leaves the lease of its task behind.
leaked :
    lookup "t" (dispatch arrange raising clock clock request 300000 none alone).1.leases
    ≡ some (record { task_id = "t"; worker_id = "near"; expires_at = 301000; attempt = 0 })
unfolding dispatch dispatch_loop route_excluding hold_lease route decide choose sort_scored
    insert_scored score_workers sift_workers is_healthy accepts payload_kind capacity_ok capacity_of
    local_inputs match_resource search_node check_node check_cpu check_memory check_gpu in_gpu_none
    gpu_norm gpu_satisfies is_known parse_memory to_int leb_size in_region same_text strip_left
    strip_right starts_with lookup insert remove
leaked = refl

abbrev served : PushdownResult
served = record {
  task_id = "t";
  status = succeeded;
  result = none;
  error = some (of_worker "unreachable");
  worker_id = some "far";
  error_code = none;
  retryable = true;
}

-- The near worker fails, and the far one is tried next.
retried : (dispatch arrange execute clock clock request 300000 none central).0 ≡ return served
unfolding dispatch dispatch_loop route_excluding detach restore hold_lease drop_lease mark_unhealthy
    route decide choose sort_scored insert_scored score_workers sift_workers is_healthy accepts
    payload_kind capacity_ok capacity_of local_inputs match_resource search_node check_node
    check_cpu check_memory check_gpu in_gpu_none gpu_norm gpu_satisfies is_known parse_memory to_int
    leb_size in_region same_text strip_left strip_right starts_with lookup insert remove
retried = refl

t_absent : lookup "t" central.leases ≡ none
unfolding lookup
t_absent = refl

dispatch-leases_example :
    lookup "t" (dispatch arrange execute clock clock request 300000 none central).1.leases
    ≡ lookup "t" central.leases
dispatch-leases_example =
    dispatch-leases arrange execute clock clock request 300000 none central served tt t_absent
      retried "t"

reclaim_expired_lem_example :
    All (λ l. expired 9 l ≡ true) (reclaim_expired 9 alone).0
    × ((j : String) (l : Lease)
        → lookup j alone.leases ≡ some l
        → expired 9 l ≡ true
        → In l (reclaim_expired 9 alone).0)
    × ((j : String) → lookup j (reclaim_expired 9 alone).1.leases ≡ live 9 (lookup j alone.leases))
reclaim_expired_lem_example = reclaim_expired_lem 9 alone (refl, tt) (refl, tt)
