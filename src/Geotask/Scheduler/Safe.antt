-- ===== src/Geotask/Scheduler/Safe.antt =====
-- geotask/scheduler.py: the methods in any order never overbook the node.
use geo_nexus_sdk.Base.{
  ℕ, ◌≡◌, refl, sym, ap, ◌∙◌, subst, Bool-cases, inl, inr, Option, none, some, List, [], ◌∷◌,
  String, ℤ, eqb_int, has, get_or, keep, ltb, arith,
}
use geo_nexus_sdk.Geotask.Model.{GeoTask}
use geo_nexus_sdk.Geotask.Scheduler.{
  Scheduler, Reservation, active, defer, forget, note_peak, new_scheduler, enqueue_seq, release,
  AdmissionResult,
}
use geo_nexus_sdk.Geotask.Scheduler.Order.{
  fair_order, enqueue_all, layers_order, layer_order, priorities,
}
use geo_nexus_sdk.Geotask.Scheduler.Admission.{sift, admit, nothing, rejection_for, note_rejection}
use geo_nexus_sdk.Geotask.Scheduler.Capacity.{
  IsWithin, IsUnder, IsUnder-le, place-Placed, List-cases, length-remove, release_held-IsWithin,
}
use geo_nexus_sdk.Geotask.Scheduler.Sift.{sift-rejected, sift-waiting, sift-candidate}

-- What a call leaves as it is.
pub record SameHeld (s s' : Scheduler) : Type 0 where
  pub same_occupancy : s'.occupancy ≡ s.occupancy
  pub same_limit : s'.max_concurrent ≡ s.max_concurrent

SameHeld-trans : {s t u : Scheduler} → SameHeld s t → SameHeld t u → SameHeld s u
SameHeld-trans a b = record {
  same_occupancy = b.same_occupancy ∙ a.same_occupancy;
  same_limit = b.same_limit ∙ a.same_limit;
}

SameHeld-refl : (s : Scheduler) → SameHeld s s
SameHeld-refl s = record { same_occupancy = refl; same_limit = refl }

pub sift-SameHeld :
    (now : ℕ) (ts : List GeoTask) (r : AdmissionResult) (s : Scheduler)
    → SameHeld s (sift now ts r s).2
unfolding sift
sift-SameHeld now [] r s = SameHeld-refl s
sift-SameHeld now (t ∷ ts) r s = elim (List-cases (rejection_for t s)) [
  | inr (why, more, e) ↦ rw (sift-rejected now t ts r s why more e) (
      SameHeld-trans (record { same_occupancy = refl; same_limit = refl })
        (sift-SameHeld now ts _ (note_rejection t.task_id (why ∷ more) s)))
  | inl e ↦ elim (Bool-cases (ltb now (get_or t.task_id 0 s.not_before))) [
    | inl late ↦ rw (sift-waiting now t ts r s e late) (sift-SameHeld now ts _ s)
    | inr ripe ↦ rw (sift-candidate now t ts r s e ripe) (sift-SameHeld now ts r s)
  ]
]

enqueue_seq-SameHeld : (id : String) (s : Scheduler) → SameHeld s (enqueue_seq id s)
unfolding enqueue_seq
enqueue_seq-SameHeld id s = elim (Bool-cases (has id s.seqs)) [
  | inl old ↦ rw old (SameHeld-refl s)
  | inr new ↦ rw new (record { same_occupancy = refl; same_limit = refl })
]

enqueue_all-SameHeld : (ts : List GeoTask) (s : Scheduler) → SameHeld s (enqueue_all ts s)
unfolding enqueue_all
enqueue_all-SameHeld [] s = SameHeld-refl s
enqueue_all-SameHeld (t ∷ ts) s =
    SameHeld-trans (enqueue_seq-SameHeld t.task_id s)
      (enqueue_all-SameHeld ts (enqueue_seq t.task_id s))

layers_order-SameHeld :
    (ts : List GeoTask) (ps : List ℤ) (s : Scheduler) → SameHeld s (layers_order ts ps s).1
unfolding layers_order layer_order
layers_order-SameHeld ts [] s = SameHeld-refl s
layers_order-SameHeld ts (p ∷ ps) s =
    SameHeld-trans (record { same_occupancy = refl; same_limit = refl })
      (layers_order-SameHeld ts ps (layer_order (keep (λ t. eqb_int t.priority p) ts) p s).1)

pub fair_order-SameHeld : (ts : List GeoTask) (s : Scheduler) → SameHeld s (fair_order ts s).1
unfolding fair_order
fair_order-SameHeld ts s =
    SameHeld-trans (enqueue_all-SameHeld ts s)
      (layers_order-SameHeld ts (priorities ts) (enqueue_all ts s))

-- What is held fits the node, and the tasks that hold it are as many as the limit allows.
pub record IsSafe (s : Scheduler) : Type 0 where
  pub within : IsWithin s.occupancy
  pub under : IsUnder s.max_concurrent (active s.occupancy)

pub IsSafe-SameHeld : {s s' : Scheduler} → SameHeld s s' → IsSafe s → IsSafe s'
IsSafe-SameHeld {s} {s'} h safe = record {
  within = subst IsWithin (sym h.same_occupancy) safe.within;
  under = rw (h.same_limit, h.same_occupancy) safe.under;
}

-- An admission never overbooks: if what is held fits the capacity and the limit before, it fits
-- them afterwards, whatever tasks are ready.
pub admit-IsSafe :
    (ready : List GeoTask) (now : ℕ) (s : Scheduler) → IsSafe s → IsSafe (admit ready now s).1
unfolding admit
admit-IsSafe ready now s safe =
    let sifted = sift now ready nothing s in
    let first = IsSafe-SameHeld (sift-SameHeld now ready nothing s) safe in
    let later = fair_order-SameHeld sifted.0 sifted.2 in
    let second = IsSafe-SameHeld later first in
    let s'' = (fair_order sifted.0 sifted.2).1 in
    let placed =
      place-Placed s''.max_concurrent (active sifted.2.occupancy) (fair_order sifted.0 sifted.2).0
        sifted.1 s''.occupancy second.within (omega (arith, ap active later.same_occupancy))
        (rw later.same_limit first.under) in
    record { within = placed.within; under = placed.under }

-- A task that leaves gives its share back.
pub release-IsSafe : (id : String) (s : Scheduler) → IsSafe s → IsSafe (release id s)
unfolding release
release-IsSafe id s safe = record {
  within = release_held-IsWithin id s.occupancy safe.within;
  under =
      IsUnder-le s.max_concurrent _ (active s.occupancy) (length-remove id s.occupancy.held)
        safe.under;
}

-- The methods that the runner calls, in any order.
pub data Call : Type 0 where
  admits : List GeoTask → Call
  releases : String → Call
  defers : String → ℕ → Call
  forgets : String → Call
  peaks : Call

unfoldable pub run_call : Scheduler → ℕ × Call → Scheduler
run_call s (now, admits ready) = (admit ready now s).1
run_call s (now, releases id) = release id s
run_call s (now, defers id wait) = defer now id wait s
run_call s (now, forgets id) = forget id s
run_call s (now, peaks) = note_peak s

unfoldable pub run_calls : Scheduler → List (ℕ × Call) → Scheduler
unfolding run_call
run_calls s [] = s
run_calls s (c ∷ cs) = run_calls (run_call s c) cs

pub defer-SameHeld :
    (now : ℕ) (id : String) (wait : ℕ) (s : Scheduler) → SameHeld s (defer now id wait s)
unfolding defer
defer-SameHeld now id wait s = elim (Bool-cases (ltb 0 wait)) [
  | inl waits ↦ rw waits (record { same_occupancy = refl; same_limit = refl })
  | inr none_at_all ↦ rw none_at_all (SameHeld-refl s)
]

run_call-IsSafe : (s : Scheduler) (c : ℕ × Call) → IsSafe s → IsSafe (run_call s c)
unfolding run_call forget note_peak
run_call-IsSafe s (now, admits ready) safe = admit-IsSafe ready now s safe
run_call-IsSafe s (now, releases id) safe = release-IsSafe id s safe
run_call-IsSafe s (now, defers id wait) safe = IsSafe-SameHeld (defer-SameHeld now id wait s) safe
run_call-IsSafe s (now, forgets id) safe =
    IsSafe-SameHeld (record { same_occupancy = refl; same_limit = refl }) safe
run_call-IsSafe s (now, peaks) safe =
    IsSafe-SameHeld (record { same_occupancy = refl; same_limit = refl }) safe

run_calls_from-IsSafe : (s : Scheduler) (cs : List (ℕ × Call)) → IsSafe s → IsSafe (run_calls s cs)
unfolding run_calls
run_calls_from-IsSafe s [] safe = safe
run_calls_from-IsSafe s (c ∷ cs) safe =
    run_calls_from-IsSafe (run_call s c) cs (run_call-IsSafe s c safe)

none-IsUnder : (limit : Option ℕ) → IsUnder limit 0
none-IsUnder none = tt
none-IsUnder (some n) = omega arith

-- Whatever calls are made on a new scheduler, in any order and at any times, what is held fits the
-- capacity and the tasks that hold it are as many as the limit allows.
pub run_calls-IsSafe :
    (capacity : Reservation) (limit : Option ℕ) (cs : List (ℕ × Call))
    → IsSafe (run_calls (new_scheduler capacity limit) cs)
run_calls-IsSafe capacity limit cs =
    run_calls_from-IsSafe (new_scheduler capacity limit) cs (record {
      within = record { cpu = omega arith; memory = omega arith; gpu = omega arith };
      under = none-IsUnder limit;
    })
