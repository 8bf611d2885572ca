-- ===== src/Geotask/Store/Reconcile.antt =====
-- geotask/store.py, `reconcile`: after a restart no task is reported as running without an owner.
use geo_nexus_sdk.Base.{
  ℕ, ◌<◌, ◌+◌, ◌≡◌, refl, sym, ap, subst, ◌∙◌, true, false, inl, inr, Option, none, some, List, [],
  ◌∷◌, String, lookup, arith, return, Outcome, pure, ◌>>=◌, Bool-cases, Option-cases, ◌==◌, eq_iff,
  keys, Distinct, contains, has, lookup-insert, lookup-insert_self, is_some, keys-All-has,
  lookup-none, All,
}
use geo_nexus_sdk.Geotask.Model.{
  GeoTask, TaskState, TaskError, queued, scheduled, running, failed, allows_another_attempt,
}
use geo_nexus_sdk.Geotask.Machine.{Error, in_states, can_transition}
use geo_nexus_sdk.Geotask.Machine.Paths.{here}
use geo_nexus_sdk.Geotask.Store.{
  TaskStore, transition, settle, set_task, ReconcileReport, lease_expired, executor_lost,
  reconcile_task, reconcile_from, reconcile,
}
use geo_nexus_sdk.Geotask.Store.Effects.{require-some, transition-legal}
use geo_nexus_sdk.Geotask.Store.Invariant.{
  IsSound, Advances, Advances-refl, Advances-trans, set_task-Advances, settle_lem,
  transition-Advances,
}

abbrev pub active : List TaskState
active = scheduled ∷ running ∷ []

-- A lease that runs beyond `now`.
abbrev pub IsGood : ℕ → Option ℕ → Type 0
IsGood now lease = (expires_at : ℕ) × (lease ≡ some expires_at) × (now < expires_at)

lease_expired-IsGood :
    (now : ℕ) (lease : Option ℕ) → lease_expired now lease ≡ false → IsGood now lease
lease_expired-IsGood now none e = cc
lease_expired-IsGood now (some t) e = (t, refl, ground arith)

-- A task that is reported as scheduled or running has a lease that is still good.
abbrev pub IsOwned : ℕ → TaskStore → String → Type 0
IsOwned now s id =
    (t : GeoTask)
    → lookup id s.tasks ≡ some t
    → in_states t.state active ≡ true
    → IsGood now t.lease_expires_at

-- What a turn of the loop does for the task `id`.
record Turn (now : ℕ) (id : String) (s : TaskStore)
    (out : Outcome Error ReconcileReport × TaskStore) : Type 0 where
  report : ReconcileReport
  returned : out.0 ≡ return report
  advances : Advances s out.1
  others : (j : String) → (id == j) ≡ false → lookup j out.1.tasks ≡ lookup j s.tasks
  owned : IsOwned now out.1 id

-- Out of scheduled and running one can always go back to the queue, and can always fail.
active_leaves :
    (s : TaskState)
    → in_states s active ≡ true
    → (can_transition s queued ≡ true) × (can_transition s failed ≡ true)
unfolding in_states can_transition
active_leaves s h = ground arith

-- The two branches that write: the task leaves the executor's hands.
leave-Turn :
    (now : ℕ) (id : String) (s stored : TaskStore) (new : GeoTask) (to : TaskState)
    (reason : String) (error : Option TaskError) (report : ReconcileReport)
    → Advances s stored
    → ((j : String) → (id == j) ≡ false → lookup j stored.tasks ≡ lookup j s.tasks)
    → lookup id stored.tasks ≡ some new
    → can_transition new.state to ≡ true
    → in_states to active ≡ false
    → Turn now id s ((transition now id to reason error none >>= λ _. pure report) stored)
leave-Turn now id s stored new to reason error report before apart there legal gone =
    let (returned, step) = transition-legal now id to reason error none stored new there legal in
    let moved = settle now to error none new in
    rw returned (record {
      report = report;
      returned = refl;
      advances = Advances-trans before (transition-Advances now id to reason error none stored);
      others = λ j other.
          rw (step.same_tasks, lookup-insert id j moved stored.tasks, other) (apart j other);
      owned = λ u e busy. cc (
        ap (λ d. lookup id d) step.same_tasks,
        lookup-insert_self id moved stored.tasks,
        (settle_lem now to error none new).1,
      );
    })

stay-Turn :
    (now : ℕ) (id : String) (s : TaskStore) (t : GeoTask) (report : ReconcileReport)
    → lookup id s.tasks ≡ some t
    → (in_states t.state active ≡ true → lease_expired now t.lease_expires_at ≡ false)
    → Turn now id s (return report, s)
stay-Turn now id s t report found good = record {
  report = report;
  returned = refl;
  advances = Advances-refl s;
  others = λ j _. refl;
  owned = λ u e busy.
      let same : t ≡ u = cc in
      lease_expired-IsGood now u.lease_expires_at (
        subst (λ v. in_states v.state active ≡ true → lease_expired now v.lease_expires_at ≡ false)
          same good busy);
}

idle_after : (in_states queued active ≡ false) × (in_states failed active ≡ false)
unfolding in_states
idle_after = (refl, refl)

reconcile_task-Turn :
    (now : ℕ) (report : ReconcileReport) (s : TaskStore) (t : GeoTask)
    → lookup t.task_id s.tasks ≡ some t
    → Turn now t.task_id s (reconcile_task now report t s)
unfolding reconcile_task
reconcile_task-Turn now report s t found = elim (Bool-cases (in_states t.state active)) [
  | inr idle ↦ rw idle (stay-Turn now t.task_id s t report found (λ busy. cc))
  | inl busy ↦ elim (Bool-cases (lease_expired now t.lease_expires_at)) [
    | inr good ↦ rw (busy, good) (stay-Turn now t.task_id s t _ found (λ _. good))
    | inl late ↦ elim (Bool-cases (allows_another_attempt t.retry t.attempt)) [
      | inl again ↦
          let new : GeoTask = record t { attempt = t.attempt + 1 } in
          rw (busy, late, again)
            (leave-Turn now t.task_id s (set_task t.task_id new s) new queued "lease_expired" none _
              (set_task-Advances t.task_id t new s found refl here)
              (λ j other. lookup-insert t.task_id j new s.tasks ∙ rw other)
              (lookup-insert_self t.task_id new s.tasks) (active_leaves t.state busy).0
              idle_after.0)
      | inr spent ↦
          rw (busy, late, spent)
            (leave-Turn now t.task_id s s t failed "lease_expired" (some executor_lost) _
              (Advances-refl s) (λ j _. refl) found (active_leaves t.state busy).1 idle_after.1)
    ]
  ]
]

-- What the loop does for the keys that are left.
record Turns (now : ℕ) (ids : List String) (s : TaskStore)
    (out : Outcome Error ReconcileReport × TaskStore) : Type 0 where
  report : ReconcileReport
  returned : out.0 ≡ return report
  advances : Advances s out.1
  others : (j : String) → contains j ids ≡ false → lookup j out.1.tasks ≡ lookup j s.tasks
  owned : (j : String) → contains j ids ≡ true → IsOwned now out.1 j

IsOwned-same :
    (now : ℕ) (s s' : TaskStore) (i j : String)
    → i ≡ j
    → lookup i s'.tasks ≡ lookup i s.tasks
    → IsOwned now s i
    → IsOwned now s' j
IsOwned-same now s s' i j same kept owned t e busy =
    owned t (sym kept ∙ subst (λ k. lookup k s'.tasks ≡ some t) (sym same) e) busy

Turns-cons :
    (now : ℕ) (id : String) (ids : List String) (s : TaskStore)
    (first last : Outcome Error ReconcileReport × TaskStore)
    → contains id ids ≡ false
    → Turn now id s first
    → Turns now ids first.1 last
    → Turns now (id ∷ ids) s last
Turns-cons now id ids s first last absent turn rest = record {
  report = rest.report;
  returned = rest.returned;
  advances = Advances-trans turn.advances rest.advances;
  others = λ j out. rest.others j (ground arith) ∙ turn.others j (ground arith);
  owned = λ j hit. elim (Bool-cases (id == j)) [
    | inl same ↦
        IsOwned-same now first.1 last.1 id j ((eq_iff id j).0 same) (rest.others id absent)
          turn.owned
    | inr other ↦ rest.owned j (ground arith)
  ];
}

present :
    (s s' : TaskStore) (ids : List String)
    → Advances s s'
    → All (λ id. has id s.tasks ≡ true) ids
    → All (λ id. has id s'.tasks ≡ true) ids
present s s' [] a h = tt
present s s' (id ∷ ids) a h = elim (Option-cases (lookup id s.tasks)) [
  | inl absent ↦ cc (ap (is_some {A = GeoTask}) absent)
  | inr (t, found) ↦ let (t', found', _) = a.moves id t found in (rw found', present s s' ids a h.1)
]

reconcile_from-Turns :
    (now : ℕ) (ids : List String) (report : ReconcileReport) (s : TaskStore)
    → IsSound s
    → Distinct ids
    → All (λ id. has id s.tasks ≡ true) ids
    → Turns now ids s (reconcile_from now report ids s)
unfolding reconcile_from
reconcile_from-Turns now [] report s sound distinct there = record {
  report = report;
  returned = refl;
  advances = Advances-refl s;
  others = λ j _. refl;
  owned = λ j hit. cc;
}
reconcile_from-Turns now (id ∷ ids) report s sound distinct there =
    elim (Option-cases (lookup id s.tasks)) [
      | inl absent ↦ cc (ap (is_some {A = GeoTask}) absent)
      | inr (t, found) ↦
          let named = sound.named id t found in
          let turn : Turn now id s (reconcile_task now report t s) =
            subst (λ k. Turn now k s (reconcile_task now report t s)) named
              (reconcile_task-Turn now report s t
                (subst (λ k. lookup k s.tasks ≡ some t) (sym named) found)) in
          let after = (reconcile_task now report t s).1 in
          rw (require-some id s found, turn.returned)
            (Turns-cons now id ids s (reconcile_task now report t s) _ distinct.0 turn (
              reconcile_from-Turns now ids turn.report after (turn.advances.sound sound) distinct.1
                (present s after ids turn.advances there.1)))
    ]

-- On a sound store the reconciliation after a restart never raises; it leaves the store sound, and
-- no task in it is reported as scheduled or running unless its lease runs beyond `now`.
pub reconcile-IsOwned :
    (now : ℕ) (s : TaskStore)
    → IsSound s
    → ((r : ReconcileReport) × ((reconcile now s).0 ≡ return r))
      × IsSound (reconcile now s).1
      × ((id : String) → IsOwned now (reconcile now s).1 id)
unfolding reconcile
reconcile-IsOwned now s sound =
    let turns =
      reconcile_from-Turns now (keys s.tasks)
        (record { requeued = 0; failed_count = 0; checked = 0 }) s sound sound.one_task
        (keys-All-has s.tasks) in
    (
      (turns.report, turns.returned),
      turns.advances.sound sound,
      λ id. elim (Bool-cases (contains id (keys s.tasks))) [
        | inl listed ↦ turns.owned id listed
        | inr absent ↦ λ t e _. cc (turns.others id absent, lookup-none id s.tasks absent)
      ],
    )

pub reconcile-Advances : (now : ℕ) (s : TaskStore) → IsSound s → Advances s (reconcile now s).1
unfolding reconcile
reconcile-Advances now s sound =
    (reconcile_from-Turns now (keys s.tasks)
      (record { requeued = 0; failed_count = 0; checked = 0 }) s sound sound.one_task
      (keys-All-has s.tasks)).advances
