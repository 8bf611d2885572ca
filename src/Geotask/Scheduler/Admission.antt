-- ===== src/Geotask/Scheduler/Admission.antt =====
-- geotask/scheduler.py, `admit`: the ready tasks are rejected, blocked or admitted.
use geo_nexus_sdk.Base.{
  ℕ, ◌+◌, ◌-◌, max, String, Bool, true, false, Option, none, some, List, [], ◌∷◌, ◌++◌, Dict, map,
  insert, get_or, length, ltb, leb,
}
use geo_nexus_sdk.Geotask.Model.{GeoTask}
use geo_nexus_sdk.Geotask.Scheduler.{
  Scheduler, reservation_of, Shortage, fits_within, Occupancy, available, active, reserve, Reason,
  shortage, backing_off, limit_reached, ReasonCode, no_compatible_compute, resource_unavailable,
  concurrency_limit, backoff, AdmissionResult,
}
use geo_nexus_sdk.Geotask.Scheduler.Order.{fair_order}

abbrev pub reject : String → List Shortage → AdmissionResult → AdmissionResult
reject task_id why r = record r {
  rejected = insert task_id why r.rejected;
  reasons = insert task_id no_compatible_compute r.reasons;
}

abbrev pub block : String → List Reason → ReasonCode → AdmissionResult → AdmissionResult
block task_id why code r = record r {
  blocked = insert task_id why r.blocked;
  reasons = insert task_id code r.reasons;
}

-- What the scheduler itself notes of a rejection.
abbrev pub note_rejection : String → List Shortage → Scheduler → Scheduler
note_rejection task_id why s = record s {
  rejected_reasons = insert task_id why s.rejected_reasons;
  rejected_codes = insert task_id no_compatible_compute s.rejected_codes;
}

-- `_rejection_for`: why the task fits no empty node, if it does not.
unfoldable pub rejection_for : GeoTask → Scheduler → List Shortage
unfolding reservation_of fits_within
rejection_for task s = fits_within (reservation_of task.resources) s.occupancy.capacity

-- The first loop: the candidates, in order, beside the result so far.
unfoldable pub sift :
    ℕ → List GeoTask → AdmissionResult → Scheduler → List GeoTask × AdmissionResult × Scheduler
sift now [] r s = ([], r, s)
sift now (t ∷ ts) r s = elim (rejection_for t s) [
  | why ∷ more ↦
      sift now ts (reject t.task_id (why ∷ more) r) (note_rejection t.task_id (why ∷ more) s)
  | [] ↦ elim (ltb now (get_or t.task_id 0 s.not_before)) [
    | true ↦
        sift now ts
          (block t.task_id (backing_off (get_or t.task_id 0 s.not_before - now) ∷ []) backoff r) s
    | false ↦ let (candidates, r', s') = sift now ts r s in (t ∷ candidates, r', s')
  ]
]

-- `limit is not None and running >= limit`
abbrev pub at_limit : Option ℕ → ℕ → Bool
at_limit none running = false
at_limit (some limit) running = leb limit running

abbrev pub limit_reason : Option ℕ → ℕ → List Reason
limit_reason none running = []
limit_reason (some limit) running = limit_reached limit running ∷ []

-- The second loop, over the fair order.
unfoldable pub place :
    Option ℕ → ℕ → List GeoTask → AdmissionResult → Occupancy → AdmissionResult × Occupancy
place limit running [] r o = (r, o)
place limit running (t ∷ ts) r o = elim (at_limit limit running) [
  | true ↦
      place limit running ts (block t.task_id (limit_reason limit running) concurrency_limit r) o
  | false ↦ elim (fits_within (reservation_of t.resources) (available o)) [
    | why ∷ more ↦
        place limit running ts (block t.task_id (map shortage (why ∷ more)) resource_unavailable r)
          o
    | [] ↦
        place limit (running + 1) ts (record r { admitted = r.admitted ++ t.task_id ∷ [] })
          (reserve t.task_id (reservation_of t.resources) o)
  ]
]

abbrev pub nothing : AdmissionResult
nothing = record { admitted = []; blocked = []; rejected = []; reasons = [] }

-- `for task_id, reasons in result.blocked.items()`
unfoldable pub note_blocked : Dict (List Reason) → Dict (List Reason) → Dict (List Reason)
note_blocked [] notes = notes
note_blocked ((id, why) ∷ rest) notes = note_blocked rest (insert id why notes)

unfoldable pub admit : List GeoTask → ℕ → Scheduler → AdmissionResult × Scheduler
admit ready now s =
    let (candidates, sifted, s') = sift now ready nothing s in
    let running = active s'.occupancy in
    let (ordered, s'') = fair_order candidates s' in
    let (r, occupancy) = place s''.max_concurrent running ordered sifted s''.occupancy in
    (
      r,
      record s'' {
        occupancy = occupancy;
        blocked_reasons = note_blocked r.blocked s''.blocked_reasons;
        peak_queue_depth = max s''.peak_queue_depth (length r.blocked);
      },
    )
