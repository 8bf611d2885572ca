-- ===== src/Cafe/Routing.antt =====
-- cafe/central.py, route. The clock stands still while a request is routed.
pub mod Eligible
pub mod Choice
use geo_nexus_sdk.Base.{
  ℕ, String, Bool, true, false, not, Option, none, some, List, [], ◌∷◌, ◌++◌, Dict, map, lookup,
  insert, values, contains, keep, length, leb, ltb, if◌then◌else◌, is_some, ◌==◌,
}
use geo_nexus_sdk.Resource.{Reason, match_resource}
use geo_nexus_sdk.Cafe.Protocol.{
  PushdownRequest, payload_kind, Exclusion, wrong_payload, recently_failed, no_capacity, no_worker,
  none_large_enough, data_locality, region_tag, fallback, Worker, accepts,
}
use geo_nexus_sdk.Cafe.Central.{RoutingDecision, CentralServer, capacity_of, is_healthy}

unfoldable pub capacity_ok : Worker → PushdownRequest → Bool × List Reason
unfolding capacity_of
capacity_ok w r = elim r.resources [
  | none ↦ (true, [])
  | some need ↦
      let found = match_resource r.task_id (some need) (capacity_of w ∷ []) false in
      (found.matched, found.reasons)
]

-- A worker that does not say what it accepts is taken for everything.
abbrev pub takes_payload : PushdownRequest → Worker → Bool
takes_payload r w = elim w.payload_kinds [ none ↦ true | some kinds ↦ accepts kinds r ]

-- What the first loop of `route` leaves.
pub record Sifted : Type 0 where
  pub capable : List Worker
  pub excluded : Dict Exclusion
  pub marks : Dict ℕ

unfoldable pub sift_workers : ℕ → PushdownRequest → List Worker → Sifted → Sifted
unfolding is_healthy
sift_workers now r [] s = s
sift_workers now r (w ∷ ws) s = elim (takes_payload r w) [
  | false ↦
      sift_workers now r ws
        (record s { excluded = insert w.worker_id (wrong_payload (payload_kind r)) s.excluded })
  | true ↦
      let health = is_healthy now w.worker_id s.marks in
      elim health.0 [
        | false ↦ sift_workers now r ws (record s {
          excluded = insert w.worker_id recently_failed s.excluded;
          marks = health.1;
        })
        | true ↦
            sift_workers now r ws (record s { capable = s.capable ++ w ∷ []; marks = health.1 })
      ]
]

-- How many inputs the worker resolves.
unfoldable pub local_inputs : PushdownRequest → Worker → ℕ
local_inputs r w = length (keep (λ v. is_some (lookup v w.data_assets)) (values r.inputs))

pub record Scored : Type 0 where
  pub local : ℕ
  pub id : String

unfoldable pub score_workers :
    PushdownRequest → List Worker → Dict Exclusion → List Scored × Dict Exclusion
unfolding capacity_ok local_inputs
score_workers r [] excluded = ([], excluded)
score_workers r (w ∷ ws) excluded = elim (capacity_ok w r).0 [
  | false ↦ score_workers r ws (insert w.worker_id no_capacity excluded)
  | true ↦
      let rest = score_workers r ws excluded in
      ((record { local = local_inputs r w; id = w.worker_id }) ∷ rest.0, rest.1)
]

-- `scored.sort(key=…, reverse=True)`, which keeps the order of equals.
unfoldable pub insert_scored : Scored → List Scored → List Scored
insert_scored x [] = x ∷ []
insert_scored x (y ∷ ys) = if leb y.local x.local then x ∷ y ∷ ys else y ∷ insert_scored x ys

unfoldable pub sort_scored : List Scored → List Scored
unfolding insert_scored
sort_scored [] = []
sort_scored (x ∷ xs) = insert_scored x (sort_scored xs)

abbrev pub ids_of : List Scored → List String
ids_of = map (λ x. x.id)

-- `tags.get("region") == region_hint`; without a hint, the workers without a region fit.
abbrev pub same_region : Option String → Option String → Bool
same_region none none = true
same_region none (some b) = false
same_region (some a) none = false
same_region (some a) (some b) = a == b

unfoldable pub in_region : Dict Worker → Option String → String → Bool
in_region workers hint id = elim (lookup id workers) [
  | none ↦ false
  | some w ↦ same_region w.tags.region hint
]

-- The choice among the workers that are left, by locality, then by region.
unfoldable pub choose : Dict Worker → Option String → List Scored → Dict Exclusion → RoutingDecision
unfolding in_region
choose workers hint [] excluded = record {
  chosen_worker = none;
  candidates = [];
  reason = none_large_enough;
  excluded = excluded;
}
choose workers hint (best ∷ others) excluded =
    let ids = ids_of (best ∷ others) in
    if ltb 0 best.local
    then record {
      chosen_worker = some best.id;
      candidates = ids;
      reason = data_locality best.local;
      excluded = excluded;
    }
    else elim (keep (in_region workers hint) ids) [
      | [] ↦ record {
        chosen_worker = some best.id;
        candidates = ids;
        reason = fallback;
        excluded = excluded;
      }
      | near ∷ nearby ↦ record {
        chosen_worker = some near;
        candidates = (near ∷ nearby) ++ keep (λ i. not (contains i (near ∷ nearby))) ids;
        reason = region_tag hint;
        excluded = excluded;
      }
    ]

unfoldable pub decide :
    Dict Worker → PushdownRequest → List Worker → Dict Exclusion → RoutingDecision
unfolding choose score_workers sort_scored
decide workers r [] excluded = record {
  chosen_worker = none;
  candidates = [];
  reason = no_worker excluded;
  excluded = excluded;
}
decide workers r (w ∷ ws) excluded =
    let scored = score_workers r (w ∷ ws) excluded in
    choose workers r.region (sort_scored scored.0) scored.1

unfoldable pub route : ℕ → PushdownRequest → CentralServer → RoutingDecision × CentralServer
unfolding decide sift_workers
route now r c =
    let sifted =
      sift_workers now r (values c.workers)
        (record { capable = []; excluded = []; marks = c.unhealthy_until }) in
    (decide c.workers r sifted.capable sifted.excluded, record c { unhealthy_until = sifted.marks })
