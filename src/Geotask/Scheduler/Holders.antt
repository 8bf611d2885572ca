-- ===== src/Geotask/Scheduler/Holders.antt =====
-- geotask/scheduler.py: which tasks hold a share of the node.
use geo_nexus_sdk.Base.{
  ℕ, ◌+◌, ◌≡◌, refl, ◌∙◌, arith, String, true, Option, List, [], ◌∷◌, ◌++◌, Dict, contains, keys,
  has, insert, remove, Distinct, Distinct-insert, Distinct-remove, lookup-insert, lookup-remove,
  contains-append, Bool-cases, inl, inr, eq_iff,
}
use geo_nexus_sdk.Geotask.Model.{GeoTask}
use geo_nexus_sdk.Geotask.Scheduler.{
  Scheduler, Occupancy, Reservation, reserve, available, fits_within, reservation_of,
  AdmissionResult, release, forget, defer, note_peak,
}
use geo_nexus_sdk.Geotask.Scheduler.Order.{fair_order}
use geo_nexus_sdk.Geotask.Scheduler.Admission.{admit, place, at_limit, sift, nothing}
use geo_nexus_sdk.Geotask.Scheduler.Capacity.{List-cases}
use geo_nexus_sdk.Geotask.Scheduler.Safe.{
  SameHeld, sift-SameHeld, fair_order-SameHeld, defer-SameHeld, IsSafe, IsSafe-SameHeld,
  admit-IsSafe, release-IsSafe,
}

-- Every share that is held is that of a task of the list, and no task holds two.
pub record HeldBy (ids : List String) (held : Dict Reservation) : Type 0 where
  pub one : Distinct (keys held)
  pub listed : (k : String) → has k held ≡ true → contains k ids ≡ true

pub HeldBy-insert :
    (ids : List String) (id : String) (r : Reservation) (held : Dict Reservation)
    → HeldBy ids held
    → contains id ids ≡ true
    → HeldBy ids (insert id r held)
HeldBy-insert ids id r held h there = record {
  one = Distinct-insert id r held h.one;
  listed = λ k m. ground (arith, lookup-insert id k r held, h.listed k, eq_iff id k);
}

pub HeldBy-remove :
    (xs ys : List String) (id : String) (held : Dict Reservation)
    → HeldBy (xs ++ id ∷ ys) held
    → HeldBy (xs ++ ys) (remove id held)
HeldBy-remove xs ys id held h = record {
  one = Distinct-remove id held h.one;
  listed = λ k m. ground (
    arith,
    lookup-remove id k held h.one,
    h.listed k,
    contains-append k xs (id ∷ ys),
    contains-append k xs ys,
  );
}

pub HeldBy-more :
    (ids ids' : List String) (held : Dict Reservation)
    → ((k : String) → contains k ids ≡ true → contains k ids' ≡ true)
    → HeldBy ids held
    → HeldBy ids' held
HeldBy-more ids ids' held more h = record { one = h.one; listed = λ k m. more k (h.listed k m) }

place-HeldBy :
    (ids : List String) (limit : Option ℕ) (running : ℕ) (ts : List GeoTask) (r : AdmissionResult)
    (o : Occupancy)
    → HeldBy (ids ++ r.admitted) o.held
    → HeldBy (ids ++ (place limit running ts r o).0.admitted) (place limit running ts r o).1.held
unfolding place
place-HeldBy ids limit running [] r o h = h
place-HeldBy ids limit running (t ∷ ts) r o h = elim (Bool-cases (at_limit limit running)) [
  | inl full ↦ rw (full, place) (place-HeldBy ids limit running ts _ o h)
  | inr free ↦ elim (List-cases (fits_within (reservation_of t.resources) (available o))) [
    | inr (why, more, e) ↦ rw (free, e, place) (place-HeldBy ids limit running ts _ o h)
    | inl e ↦
        let wider =
          HeldBy-more (ids ++ r.admitted) (ids ++ (r.admitted ++ t.task_id ∷ [])) o.held
            (λ k m. ground (
              arith,
              contains-append k ids r.admitted,
              contains-append k ids (r.admitted ++ t.task_id ∷ []),
              contains-append k r.admitted (t.task_id ∷ []),
            ))
            h in
        rw (free, e, place)
          (place-HeldBy ids limit (running + 1) ts
            (record r { admitted = r.admitted ++ t.task_id ∷ [] })
            (reserve t.task_id (reservation_of t.resources) o)
            (HeldBy-insert _ t.task_id (reservation_of t.resources) o.held wider (
              ground (
                arith,
                contains-append t.task_id ids (r.admitted ++ t.task_id ∷ []),
                contains-append t.task_id r.admitted (t.task_id ∷ []),
                eq_iff t.task_id t.task_id,
              ))))
  ]
]

-- What the node holds is safe, and each share is that of a task of the list.
pub record Shares (ids : List String) (s : Scheduler) : Type 0 where
  pub safe : IsSafe s
  pub held : HeldBy ids s.occupancy.held

pub admit-Shares :
    (ids : List String) (ts : List GeoTask) (now : ℕ) (s : Scheduler)
    → Shares ids s
    → Shares (ids ++ (admit ts now s).0.admitted) (admit ts now s).1
unfolding admit
admit-Shares ids ts now s h = record {
  safe = admit-IsSafe ts now s h.safe;
  held =
      let sifted = sift now ts nothing s in
      let order = fair_order sifted.0 sifted.2 in
      let same =
        (fair_order-SameHeld sifted.0 sifted.2).same_occupancy
        ∙ (sift-SameHeld now ts nothing s).same_occupancy in
      place-HeldBy ids _ _ order.0 sifted.1 order.1.occupancy (
        HeldBy-more ids (ids ++ sifted.1.admitted) _
          (λ k m. ground (arith, contains-append k ids sifted.1.admitted)) (rw same h.held));
}

pub release-Shares :
    (xs ys : List String) (id : String) (s : Scheduler)
    → Shares (xs ++ id ∷ ys) s
    → Shares (xs ++ ys) (release id s)
unfolding release
release-Shares xs ys id s h = record {
  safe = release-IsSafe id s h.safe;
  held = HeldBy-remove xs ys id s.occupancy.held h.held;
}

same-Shares : (ids : List String) (s s' : Scheduler) → SameHeld s s' → Shares ids s → Shares ids s'
same-Shares ids s s' same h = record {
  safe = IsSafe-SameHeld same h.safe;
  held = rw same.same_occupancy h.held;
}

pub defer-Shares :
    (ids : List String) (now : ℕ) (id : String) (wait : ℕ) (s : Scheduler)
    → Shares ids s
    → Shares ids (defer now id wait s)
defer-Shares ids now id wait s = same-Shares ids s _ (defer-SameHeld now id wait s)

pub forget-Shares :
    (ids : List String) (id : String) (s : Scheduler) → Shares ids s → Shares ids (forget id s)
unfolding forget
forget-Shares ids id s = same-Shares ids s _ (record { same_occupancy = refl; same_limit = refl })

pub note_peak-Shares : (ids : List String) (s : Scheduler) → Shares ids s → Shares ids (note_peak s)
unfolding note_peak
note_peak-Shares ids s = same-Shares ids s _ (record { same_occupancy = refl; same_limit = refl })
