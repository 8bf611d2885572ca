-- ===== src/Cafe/Dispatch/Leases.antt =====
-- cafe/central.py: a lease lasts as long as the attempt that it is for.
use geo_nexus_sdk.Base.{
  In, ℕ, zero, suc, ◌+◌, String, Bool, true, false, Option, none, some, List, [], ◌∷◌, Dict, map,
  lookup, values, insert, remove, keys, contains, keep, length, ◌≡◌, ◌⊎◌, inl, inr, refl, sym, ap,
  subst, ◌∙◌, arith, Bool-cases, Option-cases, All, Distinct, Distinct-insert, Distinct-remove,
  lookup-insert, lookup-remove, lookup-none, Named, if◌then◌else◌, ◌==◌, eq_iff, Outcome, return,
  raise,
}
use geo_nexus_sdk.Cafe.Protocol.{PushdownRequest, PushdownResult, Worker}
use geo_nexus_sdk.Cafe.Central.{
  CentralServer, Lease, expired, drop_leases, reclaim_expired, mark_unhealthy,
}
use geo_nexus_sdk.Cafe.Routing.{route}
use geo_nexus_sdk.Cafe.Dispatch.{
  has_succeeded, CafeError, route_excluding, hold_lease, drop_lease, give_up, dispatch_loop,
  dispatch,
}

-- A task holds no lease, and the others' are those of the dictionary.
pub record Idle (task_id : String) (leases : Dict Lease) (c : CentralServer) : Type 0 where
  pub one : Distinct (keys c.leases)
  pub none_held : lookup task_id leases ≡ none
  pub same : (j : String) → lookup j c.leases ≡ lookup j leases

raise-ne-return : {E A : Type 0} {e : E} {a : A} → ◌≡◌ {A = Outcome E A} (raise e) (return a) → ⊥
raise-ne-return h = cc

Outcome-cases :
    {E A : Type 0} (o : Outcome E A) → ((e : E) × (o ≡ raise e)) ⊎ ((a : A) × (o ≡ return a))
Outcome-cases (return a) = inr (a, refl)
Outcome-cases (raise e) = inl (e, refl)

remove-insert :
    (k j : String) (l : Lease) (d : Dict Lease)
    → Distinct (keys d)
    → lookup k d ≡ none
    → lookup j (remove k (insert k l d)) ≡ lookup j d
remove-insert k j l d one absent = ground (
  arith,
  lookup-remove k j (insert k l d) (Distinct-insert k l d one),
  lookup-insert k j l d,
  eq_iff k j,
)

module _ (arrange : List String → List String)
    (execute : ℕ → Worker → PushdownRequest → Outcome String PushdownResult)
    (routed failed_at : ℕ → ℕ) (r : PushdownRequest) (lease_ms : ℕ) (leases : Dict Lease) where
  route_excluding-leases :
      (now : ℕ) (attempted : List String) (c : CentralServer)
      → (route_excluding arrange now r attempted c).1.leases ≡ c.leases
  unfolding route_excluding route
  route_excluding-leases now [] c = refl
  route_excluding-leases now (a ∷ more) c = refl

  drop-hold-Idle :
      (n : ℕ) (id : String) (c : CentralServer)
      → Idle r.task_id leases c
      → Idle r.task_id leases (
          drop_lease arrange execute routed failed_at r lease_ms
            (hold_lease arrange execute routed failed_at r lease_ms n id c))
  unfolding drop_lease hold_lease
  drop-hold-Idle n id c i =
      let held : Lease = record {
        task_id = r.task_id;
        worker_id = id;
        expires_at = routed n + lease_ms;
        attempt = n;
      } in
      let one = Distinct-insert r.task_id held c.leases i.one in
      record {
        one = Distinct-remove r.task_id (insert r.task_id held c.leases) one;
        none_held = i.none_held;
        same = λ j.
            remove-insert r.task_id j held c.leases i.one (i.same r.task_id ∙ i.none_held)
            ∙ i.same j;
      }

  keep-Idle :
      (c c' : CentralServer)
      → c'.leases ≡ c.leases
      → Idle r.task_id leases c
      → Idle r.task_id leases c'
  keep-Idle c c' e i = record {
    one = rw e i.one;
    none_held = i.none_held;
    same = λ j. ap (lookup j) e ∙ i.same j;
  }

  give_up-leases :
      (attempted : List String) (last : Option PushdownResult) (c : CentralServer)
      → (give_up arrange execute routed failed_at r lease_ms attempted last c).1.leases ≡ c.leases
  unfolding give_up route
  give_up-leases attempted none c = refl
  give_up-leases attempted (some last) c = refl

  abbrev loop :
      ℕ
      → List String
      → Option PushdownResult
      → CentralServer
      → Outcome CafeError PushdownResult × CentralServer
  loop = dispatch_loop arrange execute routed failed_at r lease_ms

  dispatch_loop-Idle :
      (rounds : ℕ) (attempted : List String) (last : Option PushdownResult) (c : CentralServer)
      (result : PushdownResult)
      → Idle r.task_id leases c
      → (loop rounds attempted last c).0 ≡ return result
      → Idle r.task_id leases (loop rounds attempted last c).1
  unfolding dispatch_loop mark_unhealthy
  dispatch_loop-Idle zero attempted last c result i h =
      keep-Idle c _ (give_up-leases attempted last c) i
  dispatch_loop-Idle (suc rounds) attempted last c result i h =
      let n = length attempted in
      let decided = route_excluding arrange (routed n) r attempted c in
      let start = keep-Idle c decided.1 (route_excluding-leases (routed n) attempted c) i in
      elim (Option-cases decided.0.chosen_worker) [
        | inl nobody ↦
            rw (nobody, dispatch_loop)
              (keep-Idle decided.1 _ (give_up-leases attempted last decided.1) start)
        | inr (id, chosen) ↦ elim (Option-cases (lookup id decided.1.workers)) [
          | inl gone ↦ absurd (raise-ne-return (rw (chosen, gone, dispatch_loop) at h))
          | inr (w, found) ↦
              let after = drop-hold-Idle n w.worker_id decided.1 start in
              elim (Outcome-cases (execute n w r)) [
                | inl (e, raised) ↦
                    absurd (raise-ne-return (rw (chosen, found, raised, dispatch_loop) at h))
                | inr (answer, returned) ↦ elim (Bool-cases (has_succeeded answer.status)) [
                  | inl success ↦ rw (chosen, found, returned, success, dispatch_loop) after
                  | inr failure ↦ elim (Bool-cases answer.retryable) [
                    | inr final ↦ rw (chosen, found, returned, failure, final, dispatch_loop) after
                    | inl again ↦
                        rw (chosen, found, returned, failure, again, dispatch_loop)
                          (dispatch_loop-Idle rounds _ (some answer) _ result
                            (keep-Idle _ _ refl after)
                            (rw (chosen, found, returned, failure, again, dispatch_loop) at h))
                  ]
                ]
              ]
        ]
      ]

-- A dispatch that returns, with whatever number of attempts and whatever the workers answer,
-- leaves the leases as they were, if no task had two leases and the task of the request had none.
pub dispatch-leases :
    (arrange : List String → List String)
    (execute : ℕ → Worker → PushdownRequest → Outcome String PushdownResult)
    (routed failed_at : ℕ → ℕ) (r : PushdownRequest) (lease_ms : ℕ) (retries : Option ℕ)
    (c : CentralServer) (result : PushdownResult)
    → Distinct (keys c.leases)
    → lookup r.task_id c.leases ≡ none
    → (dispatch arrange execute routed failed_at r lease_ms retries c).0 ≡ return result
    → (j : String)
    → lookup j (dispatch arrange execute routed failed_at r lease_ms retries c).1.leases
      ≡ lookup j c.leases
unfolding dispatch
dispatch-leases arrange execute routed failed_at r lease_ms retries c result one absent h j =
    let idle =
      dispatch_loop-Idle arrange execute routed failed_at r lease_ms c.leases
        (suc (elim retries [ none ↦ length c.workers | some n ↦ n ])) [] none c result
        (record { one = one; none_held = absent; same = λ k. refl }) h in
    idle.same j

abbrev pub task_of : Lease → String
task_of l = l.task_id

drop_leases-lookup :
    (ls : List Lease) (d : Dict Lease) (j : String)
    → Distinct (keys d)
    → lookup j (drop_leases ls d) ≡ (if contains j (map task_of ls) then none else lookup j d)
unfolding drop_leases
drop_leases-lookup [] d j one = refl
drop_leases-lookup (l ∷ ls) d j one = ground (
  arith,
  drop_leases-lookup ls (remove l.task_id d) j (Distinct-remove l.task_id d one),
  lookup-remove l.task_id j d one,
)

-- A lease that has not expired.
abbrev pub live : ℕ → Option Lease → Option Lease
live now none = none
live now (some l) = if expired now l then none else some l

abbrev over : ℕ → Option Lease → Bool
over now none = false
over now (some l) = expired now l

module _ (now : ℕ) where
  gone-over :
      (d : Dict Lease) (j : String)
      → Distinct (keys d)
      → Named task_of d
      → contains j (map task_of (keep (expired now) (values d))) ≡ over now (lookup j d)
  unfolding lookup expired
  gone-over [] j one own = refl
  gone-over ((k, l) ∷ d) j one own = elim (Bool-cases (expired now l)) [
    | inl late ↦ elim (Bool-cases (k == j)) [
      | inl same ↦ rw (late, own.0, same) (sym late)
      | inr other ↦ rw (late, own.0, other) (gone-over d j one.1 own.1)
    ]
    | inr early ↦ elim (Bool-cases (k == j)) [
      | inl same ↦
          let absent : lookup j d ≡ none =
            lookup-none j d
              (subst (λ i. contains i (keys d) ≡ false) ((eq_iff k j).0 same) one.0) in
          rw (early, same) (gone-over d j one.1 own.1 ∙ rw absent (sym early))
      | inr other ↦ rw (early, other) (gone-over d j one.1 own.1)
    ]
  ]

  live-over : (o : Option Lease) → (if over now o then none else o) ≡ live now o
  live-over none = refl
  live-over (some l) = refl

  All-keep : (p : Lease → Bool) (ls : List Lease) → All (λ l. p l ≡ true) (keep p ls)
  All-keep p [] = tt
  All-keep p (l ∷ ls) = elim (Bool-cases (p l)) [
    | inl kept ↦ rw kept (kept, All-keep p ls)
    | inr dropped ↦ rw dropped (All-keep p ls)
  ]

  keep-In :
      {A : Type 0} (p : A → Bool) (a : A) (xs : List A) → p a ≡ true → In a xs → In a (keep p xs)
  keep-In p a [] h m = absurd m
  keep-In p a (x ∷ xs) h (inl same) = rw (ap p same ∙ h) (inl same)
  keep-In p a (x ∷ xs) h (inr later) = elim (Bool-cases (p x)) [
    | inl kept ↦ rw kept (inr (keep-In p a xs h later))
    | inr dropped ↦ rw dropped (keep-In p a xs h later)
  ]

  lookup-values : (j : String) (l : Lease) (d : Dict Lease) → lookup j d ≡ some l → In l (values d)
  unfolding lookup
  lookup-values j l [] h = cc
  lookup-values j l ((k, x) ∷ d) h = elim (Bool-cases (k == j)) [
    | inl same ↦ inl (ground (arith, same, h))
    | inr other ↦ inr (lookup-values j l d (ground (arith, other, h)))
  ]

  -- If each lease is kept under its task, once, reclaiming returns leases that have expired, and
  -- every lease that is held and has expired, and takes exactly those away: under each task there
  -- is the lease from before, unless it has expired.
  pub reclaim_expired_lem :
      (c : CentralServer)
      → Distinct (keys c.leases)
      → Named task_of c.leases
      → All (λ l. expired now l ≡ true) (reclaim_expired now c).0
        × ((j : String) (l : Lease)
            → lookup j c.leases ≡ some l
            → expired now l ≡ true
            → In l (reclaim_expired now c).0)
        × ((j : String) → lookup j (reclaim_expired now c).1.leases ≡ live now (lookup j c.leases))
  unfolding reclaim_expired
  reclaim_expired_lem c one own = (
    All-keep (expired now) (values c.leases),
    λ j l held over.
        keep-In (expired now) l (values c.leases) over (lookup-values j l c.leases held),
    λ j.
        drop_leases-lookup (keep (expired now) (values c.leases)) c.leases j one
        ∙ rw (gone-over c.leases j one own) (live-over (lookup j c.leases)),
  )
