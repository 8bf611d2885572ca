-- ===== src/Geotask/Store/Listing.antt =====
-- geotask/store.py, `list`: what is listed, and in which order.
use geo_nexus_sdk.Base.{
  min, ap, ◌∙◌, ℕ, suc, zero, ◌≡◌, refl, true, false, Bool, Bool-cases, inl, inr, Option, List, [],
  ◌∷◌, String, All, keep, take, length, values, arith,
}
use geo_nexus_sdk.Geotask.Model.{GeoTask, TaskState}
use geo_nexus_sdk.Geotask.Store.{
  TaskStore, list_tasks, listed, list_before, insert_sorted, sort_tasks,
}

abbrev Leads : GeoTask → List GeoTask → Type 0
Leads t [] = Unit
Leads t (u ∷ us) = list_before t u ≡ true

-- Each task goes before the next one, or ties with it.
abbrev pub IsSorted : List GeoTask → Type 0
IsSorted [] = Unit
IsSorted (t ∷ ts) = Leads t ts × IsSorted ts

-- One of two tasks goes before the other.
list_before-total : (a b : GeoTask) → list_before a b ≡ false → list_before b a ≡ true
unfolding list_before
list_before-total a b e = ground arith

Leads-insert_sorted :
    (t u : GeoTask) (us : List GeoTask)
    → list_before u t ≡ true
    → Leads u us
    → Leads u (insert_sorted t us)
unfolding insert_sorted
Leads-insert_sorted t u [] e l = e
Leads-insert_sorted t u (v ∷ vs) e l = elim (Bool-cases (list_before t v)) [
  | inl first ↦ rw first e
  | inr later ↦ rw later l
]

insert_sorted-IsSorted :
    (t : GeoTask) (us : List GeoTask) → IsSorted us → IsSorted (insert_sorted t us)
unfolding insert_sorted
insert_sorted-IsSorted t [] s = (tt, tt)
insert_sorted-IsSorted t (u ∷ us) s = elim (Bool-cases (list_before t u)) [
  | inl first ↦ rw first (first, s)
  | inr later ↦ rw later (
    Leads-insert_sorted t u us (list_before-total t u later) s.0,
    insert_sorted-IsSorted t us s.1,
  )
]

sort_tasks-IsSorted : (ts : List GeoTask) → IsSorted (sort_tasks ts)
unfolding sort_tasks
sort_tasks-IsSorted [] = tt
sort_tasks-IsSorted (t ∷ ts) = insert_sorted-IsSorted t (sort_tasks ts) (sort_tasks-IsSorted ts)

take-IsSorted : (n : ℕ) (ts : List GeoTask) → IsSorted ts → IsSorted (take n ts)
take-IsSorted zero ts s = tt
take-IsSorted (suc n) [] s = tt
take-IsSorted (suc zero) (t ∷ ts) s = (tt, tt)
take-IsSorted (suc (suc n)) (t ∷ []) s = (tt, tt)
take-IsSorted (suc (suc n)) (t ∷ u ∷ us) s = (s.0, take-IsSorted (suc n) (u ∷ us) s.1)

length-take : (n : ℕ) (ts : List GeoTask) → length (take n ts) ≡ min n (length ts)
length-take zero ts = omega arith
length-take (suc n) [] = omega arith
length-take (suc n) (t ∷ ts) = omega (arith, length-take n ts)

length-insert_sorted :
    (t : GeoTask) (us : List GeoTask) → length (insert_sorted t us) ≡ suc (length us)
unfolding insert_sorted
length-insert_sorted t [] = refl
length-insert_sorted t (u ∷ us) = elim (Bool-cases (list_before t u)) [
  | inl first ↦ rw first refl
  | inr later ↦ rw later (ap suc (length-insert_sorted t us))
]

length-sort_tasks : (ts : List GeoTask) → length (sort_tasks ts) ≡ length ts
unfolding sort_tasks
length-sort_tasks [] = refl
length-sort_tasks (t ∷ ts) = length-insert_sorted t (sort_tasks ts) ∙ ap suc (length-sort_tasks ts)

module _ (p : GeoTask → Bool) where
  keep-All : (ts : List GeoTask) → All (λ t. p t ≡ true) (keep p ts)
  keep-All [] = tt
  keep-All (t ∷ ts) = elim (Bool-cases (p t)) [
    | inl yes_ ↦ rw yes_ (yes_, keep-All ts)
    | inr no_ ↦ rw no_ (keep-All ts)
  ]

  insert_sorted-All :
      (t : GeoTask) (us : List GeoTask)
      → p t ≡ true
      → All (λ u. p u ≡ true) us
      → All (λ u. p u ≡ true) (insert_sorted t us)
  unfolding insert_sorted
  insert_sorted-All t [] e a = (e, tt)
  insert_sorted-All t (u ∷ us) e a = elim (Bool-cases (list_before t u)) [
    | inl first ↦ rw first (e, a)
    | inr later ↦ rw later (a.0, insert_sorted-All t us e a.1)
  ]

  sort_tasks-All :
      (ts : List GeoTask) → All (λ t. p t ≡ true) ts → All (λ t. p t ≡ true) (sort_tasks ts)
  unfolding sort_tasks
  sort_tasks-All [] a = tt
  sort_tasks-All (t ∷ ts) a = insert_sorted-All t (sort_tasks ts) a.0 (sort_tasks-All ts a.1)

  take-All :
      (n : ℕ) (ts : List GeoTask) → All (λ t. p t ≡ true) ts → All (λ t. p t ≡ true) (take n ts)
  take-All zero ts a = tt
  take-All (suc n) [] a = tt
  take-All (suc n) (t ∷ ts) a = (a.0, take-All n ts a.1)

-- A listing holds as many tasks as match the filters, up to the limit; each of them matches, and
-- they go from the highest priority to the lowest, and from the oldest to the newest within one.
pub list_tasks_lem :
    (states : Option (List TaskState)) (owner tenant : Option String) (limit : ℕ) (s : TaskStore)
    → IsSorted (list_tasks states owner tenant limit s)
      × (length (list_tasks states owner tenant limit s)
          ≡ min limit (length (keep (listed states owner tenant) (values s.tasks))))
      × All (λ t. listed states owner tenant t ≡ true) (list_tasks states owner tenant limit s)
unfolding list_tasks
list_tasks_lem states owner tenant limit s =
    let kept = keep (listed states owner tenant) (values s.tasks) in
    (
      take-IsSorted limit (sort_tasks kept) (sort_tasks-IsSorted kept),
      length-take limit (sort_tasks kept) ∙ ap (min limit) (length-sort_tasks kept),
      take-All (listed states owner tenant) limit (sort_tasks kept) (
          sort_tasks-All (listed states owner tenant) kept
            (keep-All (listed states owner tenant) (values s.tasks))),
    )
