-- ===== src/Geotask/Scheduler/Capacity.antt =====
-- geotask/scheduler.py: what is held never exceeds the capacity, nor the limit on the tasks at once.
use geo_nexus_sdk.Base.{
  ℕ, suc, ◌+◌, ◌≡◌, ◌≤◌, refl, true, false, Bool, Bool-cases, inl, inr, ◌⊎◌, Option, none, some,
  List, [], ◌∷◌, ◌++◌, String, Dict, insert, remove, length, ltb, if◌then◌else◌, arith, not_ltb→le,
  ◌==◌, map,
}
use geo_nexus_sdk.Geotask.Model.{GeoTask}
use geo_nexus_sdk.Geotask.Scheduler.{
  Reservation, reservation_of, Shortage, fits_within, Occupancy, available, held_sum, active, total,
  reserve, release_held, shortage, AdmissionResult, resource_unavailable, concurrency_limit,
}
use geo_nexus_sdk.Geotask.Scheduler.Admission.{place, at_limit, block, limit_reason}

-- Every sum of what is held stays within the capacity.
pub record IsWithin (o : Occupancy) : Type 0 where
  pub cpu : total (λ r. r.cpu_cores) o.held ≤ o.capacity.cpu_cores
  pub memory : total (λ r. r.memory_mb) o.held ≤ o.capacity.memory_mb
  pub gpu : total (λ r. r.gpu_count) o.held ≤ o.capacity.gpu_count

-- Setting a key adds at most its value to a sum, and at most one to the number of keys.
total-insert :
    (f : Reservation → ℕ) (id : String) (r : Reservation) (d : Dict Reservation)
    → total f (insert id r d) ≤ f r + total f d
unfolding insert
total-insert f id r [] = omega arith
total-insert f id r ((j, q) ∷ d) = elim (Bool-cases (j == id)) [
  | inl same ↦ rw same (omega arith)
  | inr other ↦ rw other (omega (arith, total-insert f id r d))
]

length-insert :
    (id : String) (r : Reservation) (d : Dict Reservation) → length (insert id r d) ≤ suc (length d)
unfolding insert
length-insert id r [] = omega arith
length-insert id r ((j, q) ∷ d) = elim (Bool-cases (j == id)) [
  | inl same ↦ rw same (omega arith)
  | inr other ↦ rw other (omega (arith, length-insert id r d))
]

pub length-remove : (id : String) (d : Dict Reservation) → length (remove id d) ≤ length d
unfolding remove
length-remove id [] = omega arith
length-remove id ((j, q) ∷ d) = elim (Bool-cases (j == id)) [
  | inl same ↦ rw same (omega arith)
  | inr other ↦ rw other (omega (arith, length-remove id d))
]

total-remove :
    (f : Reservation → ℕ) (id : String) (d : Dict Reservation) → total f (remove id d) ≤ total f d
unfolding remove
total-remove f id [] = omega arith
total-remove f id ((j, q) ∷ d) = elim (Bool-cases (j == id)) [
  | inl same ↦ rw same (omega arith)
  | inr other ↦ rw other (omega (arith, total-remove f id d))
]

if_cons-empty :
    {A : Type 0} (b : Bool) (a : A) (rest : List A)
    → (if b then a ∷ [] else []) ++ rest ≡ []
    → (b ≡ false) × (rest ≡ [])
if_cons-empty true a rest e = cc
if_cons-empty false a rest e = (refl, e)

if_else-empty :
    {A : Type 0} (b : Bool) (a : A) (rest : List A) → (if b then a ∷ [] else rest) ≡ [] → b ≡ false
if_else-empty true a rest e = cc
if_else-empty false a rest e = refl

-- A list of shortages that is empty says that there is enough of everything.
pub fits_within-enough :
    (need other : Reservation)
    → fits_within need other ≡ []
    → (need.cpu_cores ≤ other.cpu_cores)
      × (need.memory_mb ≤ other.memory_mb)
      × (need.gpu_count ≤ other.gpu_count)
unfolding fits_within
fits_within-enough need other e =
    let (cpu, e1) = if_cons-empty (ltb other.cpu_cores need.cpu_cores) _ _ e in
    let (memory, e2) = if_cons-empty (ltb other.memory_mb need.memory_mb) _ _ e1 in
    (
      not_ltb→le other.cpu_cores need.cpu_cores cpu,
      not_ltb→le other.memory_mb need.memory_mb memory,
      not_ltb→le other.gpu_count need.gpu_count
          (if_else-empty (ltb other.gpu_count need.gpu_count) _ _ e2),
    )

-- What fits into the rest may be reserved.
reserve-IsWithin :
    (id : String) (need : Reservation) (o : Occupancy)
    → IsWithin o
    → fits_within need (available o) ≡ []
    → IsWithin (reserve id need o)
unfolding available held_sum
reserve-IsWithin id need o w fits =
    let (cpu, memory, gpu) = fits_within-enough need (available o) fits in
    record {
      cpu = omega (arith, total-insert (λ r. r.cpu_cores) id need o.held, w.cpu, cpu);
      memory = omega (arith, total-insert (λ r. r.memory_mb) id need o.held, w.memory, memory);
      gpu = omega (arith, total-insert (λ r. r.gpu_count) id need o.held, w.gpu, gpu);
    }

pub release_held-IsWithin :
    (id : String) (o : Occupancy) → IsWithin o → IsWithin (release_held id o)
release_held-IsWithin id o w = record {
  cpu = omega (arith, total-remove (λ r. r.cpu_cores) id o.held, w.cpu);
  memory = omega (arith, total-remove (λ r. r.memory_mb) id o.held, w.memory);
  gpu = omega (arith, total-remove (λ r. r.gpu_count) id o.held, w.gpu);
}

-- A number that keeps a limit, if there is one.
abbrev pub IsUnder : Option ℕ → ℕ → Type 0
IsUnder none n = Unit
IsUnder (some limit) n = n ≤ limit

pub IsUnder-le : (limit : Option ℕ) (m n : ℕ) → m ≤ n → IsUnder limit n → IsUnder limit m
IsUnder-le none m n le u = tt
IsUnder-le (some limit) m n le u = omega arith

IsUnder-suc : (limit : Option ℕ) (n : ℕ) → at_limit limit n ≡ false → IsUnder limit (n + 1)
IsUnder-suc none n e = tt
IsUnder-suc (some limit) n e = ground arith

-- The second loop keeps the occupancy within the capacity and the number of tasks under the limit.
pub record Placed (limit : Option ℕ) (o' : Occupancy) : Type 0 where
  pub within : IsWithin o'
  pub under : IsUnder limit (active o')

pub List-cases :
    {A : Type 0} (xs : List A) → (xs ≡ []) ⊎ ((x : A) × (rest : List A) × (xs ≡ x ∷ rest))
List-cases [] = inl refl
List-cases (x ∷ rest) = inr (x, rest, refl)

module _ (limit : Option ℕ) (running : ℕ) (t : GeoTask) (ts : List GeoTask) (r : AdmissionResult)
    (o : Occupancy) where
  place-full :
      at_limit limit running ≡ true
      → place limit running (t ∷ ts) r o
        ≡ place limit running ts
            (block t.task_id (limit_reason limit running) concurrency_limit r)
            o
  unfolding place
  place-full full = rw (full, place) refl

  place-short :
      (why : Shortage) (more : List Shortage)
      → at_limit limit running ≡ false
      → fits_within (reservation_of t.resources) (available o) ≡ why ∷ more
      → place limit running (t ∷ ts) r o
        ≡ place limit running ts
            (block t.task_id (map shortage (why ∷ more)) resource_unavailable r)
            o
  unfolding place
  place-short why more free short = rw (free, short, place) refl

  place-taken :
      at_limit limit running ≡ false
      → fits_within (reservation_of t.resources) (available o) ≡ []
      → place limit running (t ∷ ts) r o
        ≡ place limit
            (running + 1)
            ts
            (record r { admitted = r.admitted ++ t.task_id ∷ [] })
            (reserve t.task_id (reservation_of t.resources) o)
  unfolding place
  place-taken free fits = rw (free, fits, place) refl

pub place-Placed :
    (limit : Option ℕ) (running : ℕ) (ts : List GeoTask) (r : AdmissionResult) (o : Occupancy)
    → IsWithin o
    → active o ≤ running
    → IsUnder limit running
    → Placed limit (place limit running ts r o).1
unfolding place
place-Placed limit running [] r o w counted u = record {
  within = w;
  under = IsUnder-le limit (active o) running counted u;
}
place-Placed limit running (t ∷ ts) r o w counted u = elim (Bool-cases (at_limit limit running)) [
  | inl full ↦
      rw (place-full limit running t ts r o full) (place-Placed limit running ts _ o w counted u)
  | inr free ↦ elim (List-cases (fits_within (reservation_of t.resources) (available o))) [
    | inr (why, more, short) ↦
        rw (place-short limit running t ts r o why more free short)
          (place-Placed limit running ts _ o w counted u)
    | inl fits ↦
        let need = reservation_of t.resources in
        rw (place-taken limit running t ts r o free fits) (
          place-Placed limit (running + 1) ts _ (reserve t.task_id need o)
            (reserve-IsWithin t.task_id need o w fits)
            (omega (arith, length-insert t.task_id need o.held)) (IsUnder-suc limit running free))
  ]
]
