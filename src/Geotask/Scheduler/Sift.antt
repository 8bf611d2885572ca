-- ===== src/Geotask/Scheduler/Sift.antt =====
-- geotask/scheduler.py, `admit`: the first loop, and the tasks that it lets through.
use geo_nexus_sdk.Base.{
  Option, none, some, ◌||◌, leb, eqb, ◌++◌, same_text, codes, if◌then◌else◌, ◌∙◌, arith, ℕ, ◌-◌,
  ◌≡◌, refl, ap, true, false, Bool, ◌&&◌, not, Bool-cases, inl, inr, List, [], ◌∷◌, ltb, get_or,
  keep,
}
use geo_nexus_sdk.Geotask.Model.{GeoTask, ResourceRequirement, GpuRequirement}
use geo_nexus_sdk.Geotask.Scheduler.{
  Reservation, kind_of, other_kind, gpu_shortage, fits_within, reservation_of, cpu_short,
  memory_short, Scheduler, Shortage, backing_off, backoff, AdmissionResult,
}
use geo_nexus_sdk.Geotask.Scheduler.Admission.{sift, rejection_for, reject, block, note_rejection}
use geo_nexus_sdk.Geotask.Scheduler.Capacity.{List-cases}

module _ (now : ℕ) (t : GeoTask) (ts : List GeoTask) (r : AdmissionResult) (s : Scheduler) where
  pub sift-rejected :
      (why : Shortage) (more : List Shortage)
      → rejection_for t s ≡ why ∷ more
      → sift now (t ∷ ts) r s
        ≡ sift now ts (reject t.task_id (why ∷ more) r) (note_rejection t.task_id (why ∷ more) s)
  unfolding sift
  sift-rejected why more e = rw (e, sift) refl

  pub sift-waiting :
      rejection_for t s ≡ []
      → ltb now (get_or t.task_id 0 s.not_before) ≡ true
      → sift now (t ∷ ts) r s
        ≡ sift now ts
            (block t.task_id (backing_off (get_or t.task_id 0 s.not_before - now) ∷ []) backoff r)
            s
  unfolding sift
  sift-waiting e late = rw (e, late, sift) refl

  pub sift-candidate :
      rejection_for t s ≡ []
      → ltb now (get_or t.task_id 0 s.not_before) ≡ false
      → sift now (t ∷ ts) r s ≡ (t ∷ (sift now ts r s).0, (sift now ts r s).1, (sift now ts r s).2)
  unfolding sift
  sift-candidate e ripe = rw (e, ripe, sift) refl

abbrev is_nil : {A : Type 0} → List A → Bool
is_nil [] = true
is_nil (x ∷ xs) = false

-- Two kinds of device, if both are named, are the same.
abbrev pub kinds_agree : Option (List ℕ) → Option (List ℕ) → Bool
kinds_agree (some (a ∷ need)) (some (b ∷ have)) = same_text (a ∷ need) (b ∷ have)
kinds_agree _ _ = true

-- What a task needs is no more than the node has when nothing runs on it.
abbrev pub fits_empty : ResourceRequirement → Reservation → Bool
fits_empty need capacity =
    leb need.cpu capacity.cpu_cores
    && (leb need.memory_mb capacity.memory_mb && elim need.gpu [
      | none ↦ true
      | some g ↦
          leb g.count capacity.gpu_count
          && (eqb g.count 0 || kinds_agree (kind_of (codes g.kind)) capacity.gpu_kind)
    ])

-- A task that fits the empty node and whose time of waiting is over.
abbrev pub may_start : ℕ → Scheduler → GeoTask → Bool
may_start now s t =
    fits_empty t.resources s.occupancy.capacity && leb (get_or t.task_id 0 s.not_before) now

other_kind-agree :
    (need have : Option (List ℕ)) → is_nil (other_kind need have) ≡ kinds_agree need have
other_kind-agree none have = refl
other_kind-agree (some []) have = refl
other_kind-agree (some (a ∷ need)) none = refl
other_kind-agree (some (a ∷ need)) (some []) = refl
other_kind-agree (some (a ∷ need)) (some (b ∷ have)) =
    elim (Bool-cases (same_text (a ∷ need) (b ∷ have))) [
      | inl same ↦ rw same refl
      | inr other ↦ rw other refl
    ]

is_nil-append : {A : Type 0} (xs ys : List A) → is_nil (xs ++ ys) ≡ (is_nil xs && is_nil ys)
is_nil-append [] ys = refl
is_nil-append (x ∷ xs) ys = refl

is_nil-short :
    (need have : ℕ) (why : Shortage)
    → is_nil (if ltb have need then why ∷ [] else []) ≡ leb need have
is_nil-short need have why = ground arith

gpu_shortage-fits :
    (need have : Reservation)
    → is_nil (gpu_shortage need have) ≡ (
        leb need.gpu_count have.gpu_count
        && (eqb need.gpu_count 0 || kinds_agree need.gpu_kind have.gpu_kind))
gpu_shortage-fits need have = ground (arith, other_kind-agree need.gpu_kind have.gpu_kind)

fits_within-fits :
    (need have : Reservation)
    → is_nil (fits_within need have) ≡ (
        leb need.cpu_cores have.cpu_cores
        && (leb need.memory_mb have.memory_mb
            && (leb need.gpu_count have.gpu_count
                && (eqb need.gpu_count 0 || kinds_agree need.gpu_kind have.gpu_kind))))
unfolding fits_within
fits_within-fits need have =
    is_nil-append _ _
    ∙ ((λ i.
          is_nil-short need.cpu_cores have.cpu_cores (cpu_short need.cpu_cores have.cpu_cores) i
          && is_nil-append
              (if ltb have.memory_mb need.memory_mb
                then memory_short need.memory_mb have.memory_mb ∷ []
                else [])
              (gpu_shortage need have) i)
        ∙ (λ i.
            leb need.cpu_cores have.cpu_cores
            && (is_nil-short need.memory_mb have.memory_mb
                  (memory_short need.memory_mb have.memory_mb) i
                && gpu_shortage-fits need have i)))

needs :
    (r : ResourceRequirement) (have : Reservation) (gpu : Option GpuRequirement)
    → r.gpu ≡ gpu
    → is_nil (fits_within (reservation_of r) have) ≡ fits_empty r have
unfolding reservation_of
needs r have none absent = fits_within-fits (reservation_of r) have ∙ rw absent (ground arith)
needs r have (some g) found = fits_within-fits (reservation_of r) have ∙ rw found refl

rejection_for-fits :
    (t : GeoTask) (s : Scheduler)
    → is_nil (rejection_for t s) ≡ fits_empty t.resources s.occupancy.capacity
unfolding rejection_for reservation_of
rejection_for-fits t s = needs t.resources s.occupancy.capacity t.resources.gpu refl

passes :
    (now : ℕ) (t : GeoTask) (s : Scheduler)
    → may_start now s t
      ≡ (is_nil (rejection_for t s) && not (ltb now (get_or t.task_id 0 s.not_before)))
passes now t s = ground (arith, rejection_for-fits t s)

-- What the first loop of an admission lets through are the ready tasks, in order, that fit the
-- empty node and whose time of waiting is over.
pub sift-candidates :
    (now : ℕ) (ready : List GeoTask) (r : AdmissionResult) (s : Scheduler)
    → (sift now ready r s).0 ≡ keep (may_start now s) ready
unfolding sift
sift-candidates now [] r s = refl
sift-candidates now (t ∷ ts) r s = elim (List-cases (rejection_for t s)) [
  | inr (why, more, e) ↦
      rw (sift-rejected now t ts r s why more e, passes now t s, e)
        (sift-candidates now ts _ (note_rejection t.task_id (why ∷ more) s))
  | inl e ↦ elim (Bool-cases (ltb now (get_or t.task_id 0 s.not_before))) [
    | inl late ↦
        rw (sift-waiting now t ts r s e late, passes now t s, e, late) (sift-candidates now ts _ s)
    | inr ripe ↦
        rw (sift-candidate now t ts r s e ripe, passes now t s, e, ripe)
          (ap (λ us. t ∷ us) (sift-candidates now ts r s))
  ]
]
