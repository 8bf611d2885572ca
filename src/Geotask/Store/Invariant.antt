-- ===== src/Geotask/Store/Invariant.antt =====
-- geotask/store.py: every method keeps the store in order and moves tasks along the table only.
use geo_nexus_sdk.Base.{
  finite, ℕ, ◌≡◌, refl, sym, subst, ◌∙◌, true, ◌&&◌, inl, inr, Option, none, some, [], ◌∷◌, String,
  lookup, if◌then◌else◌, Bool-cases, Option-cases, ◌==◌, eq_iff, keys, Distinct, Distinct-insert,
  Distinct-set_default, lookup-insert, get_or-set_default, str, float, pos, min,
}
use geo_nexus_sdk.Geotask.Model.{
  GeoTask, TaskState, TaskError, TaskResult, created, queued, blocked, running, cancelled,
  same_state, kind_value,
}
use geo_nexus_sdk.Geotask.Machine.{in_states, can_transition, is_terminal}
use geo_nexus_sdk.Geotask.Machine.Paths.{Run, here, move}
use geo_nexus_sdk.Geotask.Events.{task_created, task_progress}
use geo_nexus_sdk.Geotask.Store.{
  TaskStore, add_task, request_cancel, whole, transition, settle, set_task, put, set_lease,
  report_progress,
}
use geo_nexus_sdk.Geotask.Store.Effects.{
  IsLogged, LogStep, append_event-LogStep, require-some, require-none, transition-missing,
  transition-illegal, transition-legal,
}

-- Each task stands under its own id, no id stands twice, and every log is in order.
pub record IsSound (s : TaskStore) : Type 0 where
  pub named : (id : String) (t : GeoTask) → lookup id s.tasks ≡ some t → t.task_id ≡ id
  pub one_task : Distinct (keys s.tasks)
  pub logs : IsLogged s

pub Run-trans : {s t u : TaskState} → Run s t → Run t u → Run s u
Run-trans here r = r
Run-trans (move step rest) r = move step (Run-trans rest r)

-- From `s` to `s'` the store stays sound, and every task that was there is there still, in a state
-- that the table leads to from the one before.
pub record Advances (s s' : TaskStore) : Type 0 where
  pub sound : IsSound s → IsSound s'
  pub moves :
      (id : String) (t : GeoTask)
      → lookup id s.tasks ≡ some t
      → (t' : GeoTask) × (lookup id s'.tasks ≡ some t') × Run t.state t'.state

pub Advances-refl : (s : TaskStore) → Advances s s
Advances-refl s = record { sound = λ i. i; moves = λ id t e. (t, e, here) }

pub Advances-trans : {s t u : TaskStore} → Advances s t → Advances t u → Advances s u
Advances-trans a b = record {
  sound = λ i. b.sound (a.sound i);
  moves = λ id t e.
      let (t', e', r) = a.moves id t e in
      let (t'', e'', r') = b.moves id t' e' in (t'', e'', Run-trans r r');
}

pub LogStep-Advances : {s s' : TaskStore} → LogStep s s' → Advances s s'
LogStep-Advances {s} {s'} l = record {
  sound = λ i. record {
    named = rw l.same_tasks i.named;
    one_task = rw l.same_tasks i.one_task;
    logs = l.logs i.logs;
  };
  moves = λ id t e. (t, rw l.same_tasks e, here);
}

-- Writing to a task that is there, under its id, to a state that the table leads to.
pub set_task-Advances :
    (id : String) (old new : GeoTask) (s : TaskStore)
    → lookup id s.tasks ≡ some old
    → new.task_id ≡ old.task_id
    → Run old.state new.state
    → Advances s (set_task id new s)
set_task-Advances id old new s found same run = record {
  sound = λ i. record {
    named = λ j t e. elim (Bool-cases (id == j)) [
      | inl hit ↦
          cc ((eq_iff id j).0 hit, i.named id old found, lookup-insert id j new s.tasks, hit)
      | inr miss ↦ i.named j t (sym (lookup-insert id j new s.tasks ∙ rw miss) ∙ e)
    ];
    one_task = Distinct-insert id new s.tasks i.one_task;
    logs = record { log = i.logs.log; one_history = i.logs.one_history; one_seq = i.logs.one_seq };
  };
  moves = λ j t e. elim (Bool-cases (id == j)) [
    | inl hit ↦
        let same_task : old ≡ t = cc ((eq_iff id j).0 hit) in
        (
          new,
          lookup-insert id j new s.tasks ∙ rw hit,
          subst (λ u. Run u.state new.state) same_task run,
        )
    | inr miss ↦ (t, lookup-insert id j new s.tasks ∙ rw miss e, here)
  ];
}

pub settle_lem :
    (now : ℕ) (to : TaskState) (error : Option TaskError) (result : Option TaskResult) (t : GeoTask)
    → ((settle now to error result t).task_id ≡ t.task_id)
      × ((settle now to error result t).state ≡ to)
unfolding settle
settle_lem now to error result t =
    elim (Bool-cases (same_state to queued && same_state t.state running)) [
      | inl again ↦ rw again (refl, refl)
      | inr other ↦ rw other (refl, refl)
    ]

pub settle_deps :
    (now : ℕ) (to : TaskState) (error : Option TaskError) (result : Option TaskResult) (t : GeoTask)
    → (settle now to error result t).depends_on ≡ t.depends_on
unfolding settle
settle_deps now to error result t =
    elim (Bool-cases (same_state to queued && same_state t.state running)) [
      | inl again ↦ rw again refl
      | inr other ↦ rw other refl
    ]

pub transition-Advances :
    (now : ℕ) (id : String) (to : TaskState) (reason : String) (error : Option TaskError)
    (result : Option TaskResult) (s : TaskStore)
    → Advances s (transition now id to reason error result s).1
transition-Advances now id to reason error result s = elim (Option-cases (lookup id s.tasks)) [
  | inl absent ↦ rw (transition-missing now id to reason error result s absent) (Advances-refl s)
  | inr (t, found) ↦ elim (Bool-cases (can_transition t.state to)) [
    | inl legal ↦
        let (same, at) = settle_lem now to error result t in
        Advances-trans
          (set_task-Advances id t _ s found same (move legal (subst (Run to) (sym at) here)))
          (LogStep-Advances (transition-legal now id to reason error result s t found legal).1)
    | inr illegal ↦
        rw (transition-illegal now id to reason error result s t found illegal) (Advances-refl s)
  ]
]

pub set_lease-Advances :
    (id : String) (expires_at : ℕ) (executor : Option String) (s : TaskStore)
    → Advances s (set_lease id expires_at executor s).1
unfolding set_lease
set_lease-Advances id expires_at executor s = elim (Option-cases (lookup id s.tasks)) [
  | inl absent ↦ rw (require-none id s absent) (Advances-refl s)
  | inr (t, found) ↦ rw (require-some id s found) (set_task-Advances id t _ s found refl here)
]

pub report_progress-Advances :
    (now : ℕ) (id : String) (progress : ℕ) (message : String) (s : TaskStore)
    → Advances s (report_progress now id progress message s).1
unfolding report_progress
report_progress-Advances now id progress message s = elim (Option-cases (lookup id s.tasks)) [
  | inl absent ↦ rw (require-none id s absent) (Advances-refl s)
  | inr (t, found) ↦
      let told : GeoTask = record t {
        progress = min whole progress;
        message = if message == "" then t.message else message;
      } in
      let (numbered, step) =
        append_event-LogStep now id task_progress
          (("progress", float (finite (pos told.progress))) ∷ ("message", str told.message) ∷ [])
          told.attempt (set_task id told s) refl in
      rw (require-some id s found, numbered)
        (Advances-trans (set_task-Advances id t told s found refl here) (LogStep-Advances step))
]

pub request_cancel-Advances :
    (now : ℕ) (id : String) (s : TaskStore) → Advances s (request_cancel now id s).1
unfolding request_cancel
request_cancel-Advances now id s = elim (Option-cases (lookup id s.tasks)) [
  | inl absent ↦ rw (require-none id s absent) (Advances-refl s)
  | inr (t, found) ↦ elim (Bool-cases (is_terminal t)) [
    | inl over ↦ rw (require-some id s found, over) (Advances-refl s)
    | inr open_ ↦
        let asked : GeoTask = record t { cancel_requested = true } in
        let first = set_task-Advances id t asked s found refl here in
        elim (Bool-cases (in_states t.state (created ∷ queued ∷ blocked ∷ []))) [
          | inl waiting ↦
              rw (require-some id s found, open_, waiting)
                (Advances-trans first (transition-Advances now id cancelled _ none none _))
          | inr busy ↦ rw (require-some id s found, open_, busy) first
        ]
  ]
]

add_task-Advances :
    (task : GeoTask) (s : TaskStore)
    → lookup task.task_id s.tasks ≡ none
    → Advances s (add_task task s)
add_task-Advances task s absent = record {
  sound = λ i. record {
    named = λ j t e. elim (Bool-cases (task.task_id == j)) [
      | inl hit ↦ cc ((eq_iff task.task_id j).0 hit, lookup-insert task.task_id j task s.tasks, hit)
      | inr miss ↦ i.named j t (sym (lookup-insert task.task_id j task s.tasks ∙ rw miss) ∙ e)
    ];
    one_task = Distinct-insert task.task_id task s.tasks i.one_task;
    logs = record {
      log = λ id.
          rw
            (
              get_or-set_default task.task_id id [] s.events,
              get_or-set_default task.task_id id 0 s.seqs,
            )
            (i.logs.log id);
      one_history = Distinct-set_default task.task_id [] s.events i.logs.one_history;
      one_seq = Distinct-set_default task.task_id 0 s.seqs i.logs.one_seq;
    };
  };
  moves = λ j t e. elim (Bool-cases (task.task_id == j)) [
    | inl hit ↦ cc ((eq_iff task.task_id j).0 hit)
    | inr miss ↦ (t, lookup-insert task.task_id j task s.tasks ∙ rw miss e, here)
  ];
}

-- A task that is not there yet is added; one that is there is left as it is.
pub put-Advances : (now : ℕ) (task : GeoTask) (s : TaskStore) → Advances s (put now task s).1
unfolding put
put-Advances now task s = elim (Option-cases (lookup task.task_id s.tasks)) [
  | inl absent ↦
      let (numbered, step) =
        append_event-LogStep now task.task_id task_created
          (("kind", str (kind_value task.kind)) ∷ []) 0 (add_task task s) refl in
      rw (absent, put)
        (rw numbered (Advances-trans (add_task-Advances task s absent) (LogStep-Advances step)))
  | inr (t, found) ↦ rw (found, put) (Advances-refl s)
]
