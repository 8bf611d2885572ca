-- ===== src/Geotask/Scheduler.antt =====
-- geotask/scheduler.py: reservations, occupancy, the fair order and the admission. A number of
-- cores is in thousandths and a time in milliseconds. `now` is what the clock reads.
pub mod Order
pub mod Turns
pub mod Admission
pub mod Capacity
pub mod Sift
pub mod Safe
pub mod Holders
mod Tests
use geo_nexus_sdk.Base.{
  ℕ, suc, zero, ◌+◌, ◌-◌, ◌%◌, ◌≡◌, max, String, Bool, true, false, not, ◌&&◌, ◌||◌, Option, none,
  some, List, [], ◌∷◌, ◌++◌, Dict, map, lookup, insert, remove, get_or, has, keys, values, length,
  take, drop, keep, every, contains, ltb, leb, eqb, if◌then◌else◌, or_text, is_none, is_some, ℤ,
  leb_int, eqb_int, ◌==◌, codes, lower, same_text,
}
use geo_nexus_sdk.Geotask.Model.{GeoTask, ResourceRequirement, GpuRequirement}

-- A share of a node; a capacity and an occupancy too.
pub record Reservation : Type 0 where
  pub cpu_cores : ℕ
  pub memory_mb : ℕ
  pub gpu_count : ℕ
  pub gpu_kind : Option (List ℕ)

abbrev pub no_reservation : Reservation
no_reservation = record { cpu_cores = 0; memory_mb = 0; gpu_count = 0; gpu_kind = none }

-- `str(gpu.kind).lower() if gpu is not None and gpu.kind else None`
abbrev pub kind_of : List ℕ → Option (List ℕ)
kind_of [] = none
kind_of (c ∷ cs) = some (map lower (c ∷ cs))

-- Reservation.of
unfoldable pub reservation_of : ResourceRequirement → Reservation
reservation_of r = record {
  cpu_cores = r.cpu;
  memory_mb = r.memory_mb;
  gpu_count = elim r.gpu [ none ↦ 0 | some g ↦ g.count ];
  gpu_kind = elim r.gpu [ none ↦ none | some g ↦ kind_of (codes g.kind) ];
}

-- Why a reservation does not fit: what it needs, and what there is. The source writes it as a text.
pub data Shortage : Type 0 where
  cpu_short memory_short gpu_short : ℕ → ℕ → Shortage
  other_gpu : List ℕ → List ℕ → Shortage

-- Both sides name a kind of device, and not the same.
abbrev pub other_kind : Option (List ℕ) → Option (List ℕ) → List Shortage
other_kind (some (a ∷ need)) (some (b ∷ have)) =
    if same_text (a ∷ need) (b ∷ have) then [] else other_gpu (a ∷ need) (b ∷ have) ∷ []
other_kind _ _ = []

abbrev pub gpu_shortage : Reservation → Reservation → List Shortage
gpu_shortage need other =
    if ltb other.gpu_count need.gpu_count
    then gpu_short need.gpu_count other.gpu_count ∷ []
    else if not (eqb need.gpu_count 0) && not (eqb other.gpu_count 0)
    then other_kind need.gpu_kind other.gpu_kind
    else []

unfoldable pub fits_within : Reservation → Reservation → List Shortage
fits_within need other =
    (if ltb other.cpu_cores need.cpu_cores
      then cpu_short need.cpu_cores other.cpu_cores ∷ []
      else [])
    ++ ((if ltb other.memory_mb need.memory_mb
          then memory_short need.memory_mb other.memory_mb ∷ []
          else [])
        ++ gpu_shortage need other)

abbrev pub after_using : Reservation → Reservation → Reservation
after_using r used = record {
  cpu_cores = r.cpu_cores - used.cpu_cores;
  memory_mb = r.memory_mb - used.memory_mb;
  gpu_count = r.gpu_count - used.gpu_count;
  gpu_kind = r.gpu_kind;
}

pub record Occupancy : Type 0 where
  pub capacity : Reservation
  pub held : Dict Reservation

abbrev pub reserve : String → Reservation → Occupancy → Occupancy
reserve task_id r o = record o { held = insert task_id r o.held }

abbrev pub release_held : String → Occupancy → Occupancy
release_held task_id o = record o { held = remove task_id o.held }

-- `sum(f(r) for r in self._held.values())`
abbrev pub total : (Reservation → ℕ) → Dict Reservation → ℕ
total f [] = 0
total f ((id, r) ∷ rs) = f r + total f rs

-- The kinds of device in use; the sum names one only if it is the only one.
abbrev pub kinds_of : List Reservation → List (List ℕ)
kinds_of [] = []
kinds_of (r ∷ rs) = elim r.gpu_kind [
  | none ↦ kinds_of rs
  | some [] ↦ kinds_of rs
  | some (c ∷ cs) ↦ if eqb r.gpu_count 0 then kinds_of rs else (c ∷ cs) ∷ kinds_of rs
]

abbrev pub only_kind : List (List ℕ) → Option (List ℕ)
only_kind [] = none
only_kind (k ∷ ks) = if every (same_text k) ks then some k else none

unfoldable pub held_sum : Occupancy → Reservation
held_sum o = record {
  cpu_cores = total (λ r. r.cpu_cores) o.held;
  memory_mb = total (λ r. r.memory_mb) o.held;
  gpu_count = total (λ r. r.gpu_count) o.held;
  gpu_kind = only_kind (kinds_of (values o.held));
}

unfoldable pub available : Occupancy → Reservation
unfolding held_sum
available o = after_using o.capacity (held_sum o)

abbrev pub active : Occupancy → ℕ
active o = length o.held

-- Why a task is not started: shortages, a wait, or the limit and the number that run.
pub data Reason : Type 0 where
  shortage : Shortage → Reason
  backing_off : ℕ → Reason
  limit_reached : ℕ → ℕ → Reason

pub data ReasonCode : Type 0 where
  no_compatible_compute resource_unavailable concurrency_limit backoff : ReasonCode

pub record AdmissionResult : Type 0 where
  pub admitted : List String
  pub blocked : Dict (List Reason)
  pub rejected : Dict (List Shortage)
  pub reasons : Dict ReasonCode

pub record Scheduler : Type 0 where
  pub occupancy : Occupancy
  pub max_concurrent : Option ℕ
  pub seqs : Dict ℕ
  pub next_seq : ℕ
  pub cursor : List (ℤ × ℕ)
  pub not_before : Dict ℕ
  pub blocked_reasons : Dict (List Reason)
  pub rejected_reasons : Dict (List Shortage)
  pub rejected_codes : Dict ReasonCode
  pub peak_parallel : ℕ
  pub peak_held : Reservation
  pub peak_queue_depth : ℕ

-- Scheduler(capacity, max_concurrent=...)
abbrev pub new_scheduler : Reservation → Option ℕ → Scheduler
new_scheduler capacity max_concurrent = record {
  occupancy = record { capacity = capacity; held = [] };
  max_concurrent = max_concurrent;
  seqs = [];
  next_seq = 0;
  cursor = [];
  not_before = [];
  blocked_reasons = [];
  rejected_reasons = [];
  rejected_codes = [];
  peak_parallel = 0;
  peak_held = no_reservation;
  peak_queue_depth = 0;
}

unfoldable pub enqueue_seq : String → Scheduler → Scheduler
enqueue_seq task_id s =
    if has task_id s.seqs
    then s
    else record s { seqs = insert task_id s.next_seq s.seqs; next_seq = s.next_seq + 1 }

abbrev pub owner_of : GeoTask → String
owner_of task = or_text task.owner (or_text task.tenant "_default")

unfoldable pub defer : ℕ → String → ℕ → Scheduler → Scheduler
defer now task_id wait s =
    if ltb 0 wait then record s { not_before = insert task_id (now + wait) s.not_before } else s

-- The shortest wait, if any task waits.
unfoldable pub soonest : ℕ → List ℕ → Option ℕ
soonest now [] = none
soonest now (t ∷ ts) =
    let rest = soonest now ts in
    if ltb now t
    then elim rest [
      | none ↦ some (t - now)
      | some w ↦ some (if leb (t - now) w then t - now else w)
    ]
    else rest

unfoldable pub next_wakeup : ℕ → Scheduler → Option ℕ
unfolding soonest
next_wakeup now s = soonest now (values s.not_before)

unfoldable pub forget : String → Scheduler → Scheduler
forget task_id s = record s {
  not_before = remove task_id s.not_before;
  blocked_reasons = remove task_id s.blocked_reasons;
  rejected_reasons = remove task_id s.rejected_reasons;
  rejected_codes = remove task_id s.rejected_codes;
}

unfoldable pub release : String → Scheduler → Scheduler
release task_id s = record s { occupancy = release_held task_id s.occupancy }

unfoldable pub note_peak : Scheduler → Scheduler
unfolding held_sum
note_peak s =
    let held = held_sum s.occupancy in
    let risen =
      ltb s.peak_held.cpu_cores held.cpu_cores
      || (ltb s.peak_held.memory_mb held.memory_mb || ltb s.peak_held.gpu_count held.gpu_count) in
    record s {
      peak_parallel = max s.peak_parallel (active s.occupancy);
      peak_held = if risen then held else s.peak_held;
    }
