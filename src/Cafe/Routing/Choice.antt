-- ===== src/Cafe/Routing/Choice.antt =====
-- cafe/central.py, route: which worker is chosen.
use geo_nexus_sdk.Base.{
  ℕ, ◌≤◌, String, true, Option, some, List, [], ◌∷◌, Dict, map, keys, values, ◌≡◌, inl, inr, refl,
  sym, ap, subst, ◌∙◌, arith, Bool-cases, leb, ltb, keep, In, Distinct, In-keep, keep-In, In-map,
  map-In, not_ltb→le, List-cases,
}
use geo_nexus_sdk.Cafe.Protocol.{PushdownRequest, Worker, Exclusion}
use geo_nexus_sdk.Cafe.Central.{CentralServer}
use geo_nexus_sdk.Cafe.Routing.{
  takes_payload, capacity_ok, local_inputs, Scored, score_workers, insert_scored, sort_scored,
  ids_of, in_region, choose, decide, route,
}
use geo_nexus_sdk.Cafe.Routing.Eligible.{
  healthy_at, capable_at, sift_workers-capable, fits, scored_of, score_workers-scored,
}

-- The order of the candidates.
abbrev top : List Scored → ℕ
top [] = 0
top (x ∷ xs) = x.local

insert_scored-top :
    (x : Scored) (ys : List Scored)
    → (x.local ≤ top (insert_scored x ys)) × (top ys ≤ top (insert_scored x ys))
unfolding insert_scored
insert_scored-top x [] = omega arith
insert_scored-top x (y ∷ ys) = ground arith

sort_scored-top : (y : Scored) (xs : List Scored) → In y xs → y.local ≤ top (sort_scored xs)
unfolding sort_scored
sort_scored-top y [] m = absurd m
sort_scored-top y (x ∷ xs) (inl same) =
    subst (λ z. z.local ≤ top (sort_scored (x ∷ xs))) same (insert_scored-top x (sort_scored xs)).0
sort_scored-top y (x ∷ xs) (inr later) =
    omega (arith, sort_scored-top y xs later, insert_scored-top x (sort_scored xs))

swap :
    (a x y : Scored) (ys zs : List Scored)
    → In a (y ∷ zs)
    → (In a zs → In a (x ∷ ys))
    → In a (x ∷ y ∷ ys)
swap a x y ys zs (inl same) back = inr (inl same)
swap a x y ys zs (inr later) back = elim (back later) [ inl same ↦ inl same | inr m ↦ inr (inr m) ]

insert_scored-In : (a x : Scored) (ys : List Scored) → In a (insert_scored x ys) → In a (x ∷ ys)
unfolding insert_scored
insert_scored-In a x [] m = m
insert_scored-In a x (y ∷ ys) m = elim (Bool-cases (leb y.local x.local)) [
  | inl front ↦
      let step : insert_scored x (y ∷ ys) ≡ x ∷ y ∷ ys = rw front refl in subst (In a) step m
  | inr back ↦
      let step : insert_scored x (y ∷ ys) ≡ y ∷ insert_scored x ys = rw back refl in
      swap a x y ys (insert_scored x ys) (subst (In a) step m) (insert_scored-In a x ys)
]

sort_scored-In : (a : Scored) (xs : List Scored) → In a (sort_scored xs) → In a xs
unfolding sort_scored
sort_scored-In a [] m = m
sort_scored-In a (x ∷ xs) m = elim (insert_scored-In a x (sort_scored xs) m) [
  | inl same ↦ inl same
  | inr later ↦ inr (sort_scored-In a xs later)
]

-- The choice names one of the candidates, and none of them resolves more inputs.
choose-top :
    (workers : Dict Worker) (hint : Option String) (xs : List Scored) (excluded : Dict Exclusion)
    (id : String)
    → (choose workers hint xs excluded).chosen_worker ≡ some id
    → (x : Scored) × In x xs × (x.id ≡ id) × (top xs ≤ x.local)
unfolding choose
choose-top workers hint [] excluded id h = cc
choose-top workers hint (best ∷ others) excluded id h = elim (Bool-cases (ltb 0 best.local)) [
  | inl local ↦ (best, inl refl, ground arith, omega arith)
  | inr remote ↦ elim (List-cases (keep (in_region workers hint) (ids_of (best ∷ others)))) [
    | inl nowhere ↦
        let same : best.id ≡ id = cc (rw (remote, nowhere, choose) at h) in
        (best, inl refl, same, omega arith)
    | inr (near, nearby, split) ↦
        let same : near ≡ id = cc (rw (remote, split, choose) at h) in
        let kept =
          In-keep (in_region workers hint) near (ids_of (best ∷ others))
            (subst (In near) (sym split) (inl refl)) in
        let member = In-map (λ x. x.id) near (best ∷ others) kept.0 in
        (member.0, member.1, member.2 ∙ same, omega (arith, not_ltb→le 0 best.local remote))
  ]
]

choose-some :
    (workers : Dict Worker) (hint : Option String) (x : Scored) (xs : List Scored)
    (excluded : Dict Exclusion)
    → (id : String) × ((choose workers hint (x ∷ xs) excluded).chosen_worker ≡ some id)
unfolding choose
choose-some workers hint x xs excluded = elim (Bool-cases (ltb 0 x.local)) [
  | inl local ↦ (x.id, rw local refl)
  | inr remote ↦ elim (List-cases (keep (in_region workers hint) (ids_of (x ∷ xs)))) [
    | inl nowhere ↦ (x.id, rw (remote, nowhere, choose) refl)
    | inr (near, nearby, split) ↦ (near, rw (remote, split, choose) refl)
  ]
]

sort_scored-some :
    (y : Scored) (xs : List Scored)
    → In y xs
    → (b : Scored) × (bs : List Scored) × (sort_scored xs ≡ b ∷ bs)
unfolding sort_scored insert_scored
sort_scored-some y [] m = absurd m
sort_scored-some y (x ∷ xs) m = elim (List-cases (sort_scored xs)) [
  | inl nothing ↦ (x, [], rw (nothing, insert_scored) refl)
  | inr (z, zs, split) ↦ elim (Bool-cases (leb z.local x.local)) [
    | inl front ↦ (x, z ∷ zs, rw (split, front, insert_scored) refl)
    | inr back ↦ (z, insert_scored x zs, rw (split, back, insert_scored) refl)
  ]
]

-- What the server asks of a worker: it takes the payload, no mark of it runs beyond `now`, and it has
-- the resources.
pub record Eligible (now : ℕ) (r : PushdownRequest) (marks : Dict ℕ) (w : Worker) : Type 0 where
  pub takes : takes_payload r w ≡ true
  pub healthy : healthy_at now marks w.worker_id ≡ true
  pub large : (capacity_ok w r).0 ≡ true

module _ (now : ℕ) (r : PushdownRequest) (c : CentralServer) where
  -- A choice of a worker that can do the work best.
  pub record Best (id : String) : Type 0 where
    pub worker : Worker
    pub known : In worker (values c.workers)
    pub named : worker.worker_id ≡ id
    pub eligible : Eligible now r c.unhealthy_until worker
    pub nearest :
        (v : Worker)
        → In v (values c.workers)
        → Eligible now r c.unhealthy_until v
        → local_inputs r v ≤ local_inputs r worker

  abbrev capable : List Worker
  capable = keep (capable_at now r c.unhealthy_until) (values c.workers)

  -- What the two loops leave are the eligible workers.
  scored-In :
      (x : Scored)
      → In x (map (scored_of now r) (keep (fits now r) capable))
      → (w : Worker) × In w (values c.workers)
        × (scored_of now r w ≡ x)
        × Eligible now r c.unhealthy_until w
  scored-In x m =
      let image = In-map (scored_of now r) x (keep (fits now r) capable) m in
      let large = In-keep (fits now r) image.0 capable image.1 in
      let taken = In-keep (capable_at now r c.unhealthy_until) image.0 (values c.workers) large.0 in
      (
        image.0,
        taken.0,
        image.2,
        record { takes = ground arith; healthy = ground arith; large = large.1 },
      )

  In-scored :
      (w : Worker)
      → In w (values c.workers)
      → Eligible now r c.unhealthy_until w
      → In (scored_of now r w) (map (scored_of now r) (keep (fits now r) capable))
  In-scored w m e = map-In (scored_of now r) w (keep (fits now r) capable) (
      keep-In (fits now r) w capable
        (keep-In (capable_at now r c.unhealthy_until) w (values c.workers) m
          (rw (e.takes, e.healthy) refl))
        e.large)

  decide-scored :
      (ws : List Worker) (excluded : Dict Exclusion) (id : String)
      → (decide c.workers r ws excluded).chosen_worker ≡ some id
      → (x : Scored) × In x (map (scored_of now r) (keep (fits now r) ws))
        × (x.id ≡ id)
        × ((y : Scored) → In y (map (scored_of now r) (keep (fits now r) ws)) → y.local ≤ x.local)
  unfolding decide
  decide-scored [] excluded id h = cc
  decide-scored (w ∷ ws) excluded id h =
      let scored = score_workers-scored now r (w ∷ ws) excluded in
      let best =
        choose-top c.workers r.region (sort_scored (score_workers r (w ∷ ws) excluded).0) _ id h in
      (
        best.0,
        subst (In best.0) scored (sort_scored-In best.0 _ best.1),
        best.2,
        λ y m. omega (
          arith,
          best.3,
          sort_scored-top y (score_workers r (w ∷ ws) excluded).0 (subst (In y) (sym scored) m),
        ),
      )

  decide-some :
      (ws : List Worker) (excluded : Dict Exclusion) (y : Scored)
      → In y (map (scored_of now r) (keep (fits now r) ws))
      → (id : String) × ((decide c.workers r ws excluded).chosen_worker ≡ some id)
  unfolding decide
  decide-some [] excluded y m = absurd m
  decide-some (w ∷ ws) excluded y m =
      let scored = score_workers-scored now r (w ∷ ws) excluded in
      let sorted =
        sort_scored-some y (score_workers r (w ∷ ws) excluded).0 (subst (In y) (sym scored) m) in
      rw sorted.2
        (choose-some c.workers r.region sorted.0 sorted.1 (score_workers r (w ∷ ws) excluded).1)

  -- If no worker is marked twice, the worker that is chosen is a registered one that takes the
  -- payload, is not held back after a failure and has the resources; and of all such workers none
  -- resolves more inputs of the request.
  pub route-Best :
      (id : String)
      → Distinct (keys c.unhealthy_until)
      → (route now r c).0.chosen_worker ≡ some id
      → Best id
  unfolding route
  route-Best id one h =
      let sifted =
        sift_workers-capable now r (values c.workers)
          (record { capable = []; excluded = []; marks = c.unhealthy_until }) one in
      let best = decide-scored _ _ id h in
      let member =
        scored-In best.0 (
          subst (λ ws. In best.0 (map (scored_of now r) (keep (fits now r) ws))) sifted.0 best.1) in
      record {
        worker = member.0;
        known = member.1;
        named = ap (λ x. x.id) member.2 ∙ best.2;
        eligible = member.3;
        nearest = λ v m e.
            subst (λ x. local_inputs r v ≤ x.local) (sym member.2)
              (best.3 (scored_of now r v) (
                subst (λ ws. In (scored_of now r v) (map (scored_of now r) (keep (fits now r) ws)))
                  (sym sifted.0) (In-scored v m e)));
      }

  -- A registered worker that can do the work is enough for a choice.
  pub route-some :
      (w : Worker)
      → Distinct (keys c.unhealthy_until)
      → In w (values c.workers)
      → Eligible now r c.unhealthy_until w
      → (id : String) × ((route now r c).0.chosen_worker ≡ some id)
  unfolding route
  route-some w one m e =
      let sifted =
        sift_workers-capable now r (values c.workers)
          (record { capable = []; excluded = []; marks = c.unhealthy_until }) one in
      decide-some _ _ (scored_of now r w) (
        subst (λ ws. In (scored_of now r w) (map (scored_of now r) (keep (fits now r) ws)))
          (sym sifted.0) (In-scored w m e))
