-- ===== src/Cafe/Central.antt =====
-- cafe/central.py: the state of the central server, its workers, their health and the leases. `now` is
-- what the clock reads.
use geo_nexus_sdk.Base.{
  ℕ, ◌+◌, String, Bool, true, false, Option, none, some, List, [], ◌∷◌, Dict, lookup, insert,
  remove, values, keep, leb, if◌then◌else◌,
}
use geo_nexus_sdk.Resource.Sizes.{parse_memory}
use geo_nexus_sdk.Resource.{ComputeCapability}
use geo_nexus_sdk.Cafe.Protocol.{Exclusion, RoutingReason, Worker}

-- A time is in milliseconds.
abbrev pub default_unhealthy_ttl : ℕ
default_unhealthy_ttl = 30000

pub record Lease : Type 0 where
  pub task_id : String
  pub worker_id : String
  pub expires_at : ℕ
  pub attempt : ℕ

unfoldable pub expired : ℕ → Lease → Bool
expired now l = leb l.expires_at now

pub record RoutingDecision : Type 0 where
  pub chosen_worker : Option String
  pub candidates : List String
  pub reason : RoutingReason
  pub excluded : Dict Exclusion

pub record CentralServer : Type 0 where
  pub workers : Dict Worker
  pub unhealthy_ttl : ℕ
  pub unhealthy_until : Dict ℕ
  pub leases : Dict Lease

abbrev pub new_central : ℕ → CentralServer
new_central ttl = record { workers = []; unhealthy_ttl = ttl; unhealthy_until = []; leases = [] }

unfoldable pub capacity_of : Worker → ComputeCapability
capacity_of w = record {
  node_url = w.worker_id;
  cpu = w.tags.cpu;
  memory_gb = parse_memory w.tags.memory;
  gpu = w.tags.gpu;
}

unfoldable pub register_worker : Worker → CentralServer → CentralServer
register_worker w c = record c { workers = insert w.worker_id w c.workers }

unfoldable pub available_workers : CentralServer → List Worker
available_workers c = values c.workers

unfoldable pub mark_unhealthy : ℕ → String → Option ℕ → CentralServer → CentralServer
mark_unhealthy now id ttl c = record c {
  unhealthy_until =
      insert id (now + elim ttl [ none ↦ c.unhealthy_ttl | some t ↦ t ]) c.unhealthy_until;
}

-- The answer, and the marks that are left: one whose time is over is taken away.
unfoldable pub is_healthy : ℕ → String → Dict ℕ → Bool × Dict ℕ
is_healthy now id marks = elim (lookup id marks) [
  | none ↦ (true, marks)
  | some until ↦ if leb until now then (true, remove id marks) else (false, marks)
]

unfoldable pub active_leases : CentralServer → List Lease
active_leases c = values c.leases

-- The loop that takes the expired leases away.
unfoldable pub drop_leases : List Lease → Dict Lease → Dict Lease
drop_leases [] leases = leases
drop_leases (l ∷ ls) leases = drop_leases ls (remove l.task_id leases)

unfoldable pub reclaim_expired : ℕ → CentralServer → List Lease × CentralServer
unfolding expired drop_leases
reclaim_expired now c =
    let gone = keep (expired now) (values c.leases) in
    (gone, record c { leases = drop_leases gone c.leases })
