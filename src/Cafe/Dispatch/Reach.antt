-- ===== src/Cafe/Dispatch/Reach.antt =====
-- cafe/central.py, dispatch: trying the candidates one by one reaches one that succeeds.
use geo_nexus_sdk.Base.{
  ℕ, zero, suc, ◌≤◌, ◌<◌, String, true, false, not, Option, none, some, List, [], ◌∷◌, ◌++◌, Dict,
  lookup, keys, values, contains, length, keep, ◌≡◌, ◌≢◌, ◌⊎◌, inl, inr, refl, sym, ap, subst, ◌∙◌,
  arith, Bool-cases, Distinct, Distinct-insert, lookup-insert_ne, contains-keys, contains-append,
  Named, Named-lookup, lookup-In, In-lookup, ◌==◌, eq_iff, Outcome, return,
}
use geo_nexus_sdk.Cafe.Protocol.{PushdownRequest, PushdownResult, Worker}
use geo_nexus_sdk.Cafe.Central.{CentralServer, mark_unhealthy}
use geo_nexus_sdk.Cafe.Routing.{takes_payload, capacity_ok, route}
use geo_nexus_sdk.Cafe.Routing.Eligible.{healthy_at, Alike, sift_workers-capable}
use geo_nexus_sdk.Cafe.Routing.Choice.{Eligible, route-Best, route-some}
use geo_nexus_sdk.Cafe.Dispatch.{
  detach, has_succeeded, CafeError, route_excluding, hold_lease, drop_lease, dispatch_loop,
  dispatch,
}
use geo_nexus_sdk.Cafe.Dispatch.Detach.{
  id_of, detach-rest, detach-Distinct, detach-Named, restore-Distinct, restore-Named,
  restore-detach,
}

-- How many of the ids were not tried.
abbrev untried : List String → List String → List String
untried attempted ids = keep (λ k. not (contains k attempted)) ids

untried-le :
    (attempted : List String) (id : String) (ids : List String)
    → length (untried (attempted ++ id ∷ []) ids) ≤ length (untried attempted ids)
untried-le attempted id [] = omega arith
untried-le attempted id (k ∷ ks) =
    ground (arith, untried-le attempted id ks, contains-append k attempted (id ∷ []))

-- An attempt leaves fewer.
untried-lt :
    (attempted : List String) (id : String) (ids : List String)
    → contains id ids ≡ true
    → contains id attempted ≡ false
    → length (untried (attempted ++ id ∷ []) ids) < length (untried attempted ids)
untried-lt attempted id [] h new = cc
untried-lt attempted id (k ∷ ks) h new = elim (Bool-cases (k == id)) [
  | inl same ↦ ground (
    arith,
    untried-le attempted id ks,
    contains-append k attempted (id ∷ []),
    eq_iff k id,
    eq_iff id k,
  )
  | inr other ↦ ground (
    arith,
    untried-lt attempted id ks (ground arith) new,
    contains-append k attempted (id ∷ []),
    eq_iff id k,
    eq_iff k id,
  )
]

untried_all : (ids : List String) → length (untried [] ids) ≡ length ids
untried_all [] = refl
untried_all (k ∷ ks) = omega (arith, untried_all ks)

length-keys : (d : Dict Worker) → length (keys d) ≡ length d
length-keys [] = refl
length-keys (e ∷ d) = omega (arith, length-keys d)

untried_pos :
    (attempted : List String) (id : String) (ids : List String)
    → contains id ids ≡ true
    → contains id attempted ≡ false
    → 0 < length (untried attempted ids)
untried_pos attempted id ids h new = omega (arith, untried-lt attempted id ids h new)

route-known :
    (now : ℕ) (r : PushdownRequest) (c : CentralServer) (id : String)
    → Distinct (keys c.unhealthy_until)
    → Distinct (keys c.workers)
    → Named id_of c.workers
    → (route now r c).0.chosen_worker ≡ some id
    → (v : Worker) × (lookup id c.workers ≡ some v)
route-known now r c id marks one own chosen =
    let best = route-Best now r c id marks chosen in
    (
      best.worker,
      subst (λ k. lookup k c.workers ≡ some best.worker) best.named
          (In-lookup id_of best.worker c.workers one own best.known),
    )

route-Alike :
    (now : ℕ) (r : PushdownRequest) (c : CentralServer)
    → Distinct (keys c.unhealthy_until)
    → Alike now c.unhealthy_until (route now r c).1.unhealthy_until
unfolding route
route-Alike now r c marks =
    (sift_workers-capable now r (values c.workers)
      (record { capable = []; excluded = []; marks = c.unhealthy_until }) marks).1

module _ (r : PushdownRequest) (c0 : CentralServer) (w : Worker) where
  -- A state of the loop in which the worker is still to be tried.
  pub record Waiting (attempted : List String) (c : CentralServer) : Type 0 where
    pub same : (j : String) → lookup j c.workers ≡ lookup j c0.workers
    pub one : Distinct (keys c.workers)
    pub own : Named id_of c.workers
    pub marks : Distinct (keys c.unhealthy_until)
    pub unmarked : lookup w.worker_id c.unhealthy_until ≡ none
    pub untried_yet : contains w.worker_id attempted ≡ false

  -- Each worker of the server is under its own id, once, and the worker carries no mark.
  pub record IsReady : Type 0 where
    pub one : Distinct (keys c0.workers)
    pub own : Named id_of c0.workers
    pub marks : Distinct (keys c0.unhealthy_until)
    pub unmarked : lookup w.worker_id c0.unhealthy_until ≡ none

  pub record Suits : Type 0 where
    pub there : lookup w.worker_id c0.workers ≡ some w
    pub takes : takes_payload r w ≡ true
    pub large : (capacity_ok w r).0 ≡ true

  unmarked-Eligible :
      (now : ℕ) (marks : Dict ℕ) → Suits → lookup w.worker_id marks ≡ none → Eligible now r marks w
  unfolding healthy_at
  unmarked-Eligible now marks s none_yet = record {
    takes = s.takes;
    healthy = rw (none_yet, healthy_at) refl;
    large = s.large;
  }

  module _ (arrange : List String → List String)
      (arranged : (x : String) (l : List String) → contains x (arrange l) ≡ contains x l) where
    route_excluding-Waiting :
        (now : ℕ) (attempted : List String) (c : CentralServer)
        → Waiting attempted c
        → Waiting attempted (route_excluding arrange now r attempted c).1
    unfolding route_excluding route
    route_excluding-Waiting now [] c k = record {
      same = k.same;
      one = k.one;
      own = k.own;
      marks = (route-Alike now r c k.marks).one;
      unmarked = (route-Alike now r c k.marks).absent w.worker_id k.unmarked;
      untried_yet = k.untried_yet;
    }
    route_excluding-Waiting now (a ∷ more) c k =
        let ids = arrange (a ∷ more) in
        let split = detach ids c.workers in
        let like = route-Alike now r (record c { workers = split.1 }) k.marks in
        record {
          same = λ j. restore-detach ids c.workers j k.one ∙ k.same j;
          one = restore-Distinct split.0 split.1 (detach-Distinct ids c.workers k.one).1;
          own =
              restore-Named split.0 split.1 (detach-Named ids c.workers k.own).0
                (detach-Named ids c.workers k.own).1;
          marks = like.one;
          unmarked = like.absent w.worker_id k.unmarked;
          untried_yet = k.untried_yet;
        }

    -- Whoever is chosen is registered and was not tried.
    route_excluding-fresh :
        (now : ℕ) (attempted : List String) (c : CentralServer) (id : String)
        → Waiting attempted c
        → (route_excluding arrange now r attempted c).0.chosen_worker ≡ some id
        → (v : Worker) × (lookup id c0.workers ≡ some v) × (contains id attempted ≡ false)
    unfolding route_excluding
    route_excluding-fresh now [] c id k chosen =
        let known = route-known now r c id k.marks k.one k.own chosen in
        (known.0, sym (k.same id) ∙ known.1, refl)
    route_excluding-fresh now (a ∷ more) c id k chosen =
        let ids = arrange (a ∷ more) in
        let split = detach ids c.workers in
        let known =
          route-known now r (record c { workers = split.1 }) id k.marks
            (detach-Distinct ids c.workers k.one).1 (detach-Named ids c.workers k.own).1 chosen in
        let left = detach-rest ids c.workers id k.one in
        (
          known.0,
          sym (k.same id) ∙ ground (arith, left, known.1),
          sym (arranged id (a ∷ more)) ∙ ground (arith, left, known.1),
        )

    route_excluding-some :
        (now : ℕ) (attempted : List String) (c : CentralServer)
        → Suits
        → Waiting attempted c
        → (id : String) × ((route_excluding arrange now r attempted c).0.chosen_worker ≡ some id)
    unfolding route_excluding
    route_excluding-some now [] c s k =
        route-some now r c w k.marks
          (lookup-In id_of w.worker_id w c.workers (k.same w.worker_id ∙ s.there))
          (unmarked-Eligible now c.unhealthy_until s k.unmarked)
    route_excluding-some now (a ∷ more) c s k =
        let ids = arrange (a ∷ more) in
        let split = detach ids c.workers in
        let left : lookup w.worker_id split.1 ≡ some w =
          detach-rest ids c.workers w.worker_id k.one
          ∙ rw (arranged w.worker_id (a ∷ more), k.untried_yet) (k.same w.worker_id ∙ s.there) in
        route-some now r (record c { workers = split.1 }) w k.marks
          (lookup-In id_of w.worker_id w split.1 left)
          (unmarked-Eligible now c.unhealthy_until s k.unmarked)

    module _ (execute : ℕ → Worker → PushdownRequest → Outcome String PushdownResult)
        (routed failed_at : ℕ → ℕ) (lease_ms : ℕ) where
      -- The worker succeeds whenever it is asked, and whatever another worker that is registered
      -- answers is a success or a failure that may be tried elsewhere.
      pub record Answers : Type 0 where
        pub done :
            (n : ℕ)
            → (result : PushdownResult) × (execute n w r ≡ return result)
              × (has_succeeded result.status ≡ true)
        pub others :
            (n : ℕ) (id : String) (v : Worker)
            → lookup id c0.workers ≡ some v
            → (result : PushdownResult) × (execute n v r ≡ return result)
              × ((has_succeeded result.status ≡ true) ⊎ (result.retryable ≡ true))

      abbrev pub Reaches : Outcome CafeError PushdownResult → Type 0
      Reaches o =
          (result : PushdownResult) × (o ≡ return result) × (has_succeeded result.status ≡ true)

      after_failure : ℕ → Worker → CentralServer → CentralServer
      unfolding hold_lease drop_lease mark_unhealthy
      after_failure n v c = mark_unhealthy (failed_at n) v.worker_id none (
          drop_lease arrange execute routed failed_at r lease_ms
            (hold_lease arrange execute routed failed_at r lease_ms n v.worker_id c))

      after_failure-Waiting :
          (n : ℕ) (attempted : List String) (v : Worker) (c : CentralServer)
          → Waiting attempted c
          → v.worker_id ≢ w.worker_id
          → Waiting (attempted ++ v.worker_id ∷ []) (after_failure n v c)
      unfolding after_failure
      after_failure-Waiting n attempted v c k other = record {
        same = k.same;
        one = k.one;
        own = k.own;
        marks = Distinct-insert v.worker_id _ c.unhealthy_until k.marks;
        unmarked = lookup-insert_ne v.worker_id w.worker_id _ c.unhealthy_until other ∙ k.unmarked;
        untried_yet = ground (
          arith,
          contains-append w.worker_id attempted (v.worker_id ∷ []),
          k.untried_yet,
          eq_iff v.worker_id w.worker_id,
        );
      }

      -- A failure is not the answer of the worker that succeeds.
      failed_other :
          (n : ℕ) (id : String) (v : Worker) (result : PushdownResult)
          → Suits
          → Answers
          → lookup id c0.workers ≡ some v
          → v.worker_id ≡ id
          → execute n v r ≡ return result
          → has_succeeded result.status ≡ false
          → v.worker_id ≢ w.worker_id
      failed_other n id v result s a known named answer failure e =
          let same : v ≡ w = cc (known, s.there, ap (λ k. lookup k c0.workers) (sym named ∙ e)) in
          let good = a.done n in
          let results : result ≡ good.0 = cc (answer, good.1, ap (λ x. execute n x r) same) in
          cc (failure, good.2, ap (λ x. has_succeeded x.status) results)

      dispatch_loop-Reaches :
          (rounds : ℕ) (attempted : List String) (last : Option PushdownResult) (c : CentralServer)
          → Suits
          → Answers
          → Waiting attempted c
          → length (untried attempted (keys c0.workers)) ≤ rounds
          → Reaches
              (dispatch_loop arrange execute routed failed_at r lease_ms rounds attempted last c).0
      unfolding dispatch_loop after_failure
      dispatch_loop-Reaches zero attempted last c s a k enough = absurd (
          omega (
            arith,
            untried_pos attempted w.worker_id (keys c0.workers)
                (contains-keys w.worker_id c0.workers ∙ rw s.there refl) k.untried_yet,
          ))
      dispatch_loop-Reaches (suc rounds) attempted last c s a k enough =
          let n = length attempted in
          let decided = route_excluding arrange (routed n) r attempted c in
          let kept = route_excluding-Waiting (routed n) attempted c k in
          let picked = route_excluding-some (routed n) attempted c s k in
          let fresh = route_excluding-fresh (routed n) attempted c picked.0 k picked.1 in
          let v : Worker = fresh.0 in
          let found : lookup picked.0 decided.1.workers ≡ some v = kept.same picked.0 ∙ fresh.1 in
          let named = Named-lookup id_of picked.0 v decided.1.workers kept.own found in
          let answer = a.others n picked.0 v fresh.1 in
          elim (Bool-cases (has_succeeded answer.0.status)) [
            | inl success ↦
                (answer.0, rw (picked.1, found, answer.1, success, dispatch_loop) refl, success)
            | inr failure ↦
                let again : answer.0.retryable ≡ true = ground arith in
                let other = failed_other n picked.0 v answer.0 s a fresh.1 named answer.1 failure in
                rw (picked.1, found, answer.1, failure, again, dispatch_loop)
                  (dispatch_loop-Reaches rounds (attempted ++ v.worker_id ∷ []) (some answer.0)
                    (after_failure n v decided.1) s a
                    (after_failure-Waiting n attempted v decided.1 kept other)
                    (omega (
                      arith,
                      untried-lt attempted v.worker_id (keys c0.workers)
                          (subst (λ i. contains i (keys c0.workers) ≡ true) (sym named)
                            (contains-keys picked.0 c0.workers ∙ rw fresh.1 refl))
                          (subst (λ i. contains i attempted ≡ false) (sym named) fresh.2),
                    )))
          ]

      -- If some registered worker takes the payload, has the resources, carries no mark of a
      -- failure and succeeds whenever it is asked, and whatever each registered worker answers is
      -- a success or a failure that may be tried elsewhere, a dispatch without a limit of retries
      -- returns a success, whatever the order in which sets are walked through.
      pub dispatch-Reaches :
          IsReady
          → Suits
          → Answers
          → Reaches (dispatch arrange execute routed failed_at r lease_ms none c0).0
      unfolding dispatch
      dispatch-Reaches i s a =
          dispatch_loop-Reaches (suc (length c0.workers)) [] none c0 s a
            (record {
              same = λ j. refl;
              one = i.one;
              own = i.own;
              marks = i.marks;
              unmarked = i.unmarked;
              untried_yet = refl;
            })
            (omega (arith, untried_all (keys c0.workers), length-keys c0.workers))
