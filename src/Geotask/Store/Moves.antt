-- ===== src/Geotask/Store/Moves.antt =====
-- geotask/store.py: whole histories of calls, whatever each of them answers.
use geo_nexus_sdk.Base.{
  All, ℕ, ◌≡◌, sym, ◌∙◌, Option, none, some, List, [], ◌∷◌, String, lookup, false, remove, arith,
  lookup-remove, get_or-remove, lookup-remove_self, Distinct-remove, ◌==◌, Bool-cases, inl, inr,
  get_or,
}
use geo_nexus_sdk.Geotask.Model.{GeoTask, TaskState, TaskError, TaskResult}
use geo_nexus_sdk.Geotask.Machine.Paths.{Run, here}
use geo_nexus_sdk.Geotask.Store.{
  TaskStore, memory, put, remove_task, transition, set_lease, report_progress, request_cancel,
  reconcile,
}
use geo_nexus_sdk.Geotask.Store.Log.{IsLog}
use geo_nexus_sdk.Geotask.Store.Effects.{IsLogged}
use geo_nexus_sdk.Geotask.Store.Invariant.{
  IsSound, Advances, Run-trans, transition-Advances, set_lease-Advances, report_progress-Advances,
  request_cancel-Advances, put-Advances,
}
use geo_nexus_sdk.Geotask.Store.Reconcile.{reconcile-Advances}

-- The methods that change the store.
pub data Call : Type 0 where
  puts : GeoTask → Call
  transitions : String → TaskState → String → Option TaskError → Option TaskResult → Call
  leases : String → ℕ → Option String → Call
  reports : String → ℕ → String → Call
  cancels : String → Call
  reconciles : Call
  removes : String → Call

-- A call at the time `now`. One that raises may have written before.
unfoldable pub perform : TaskStore → ℕ × Call → TaskStore
perform s (now, puts task) = (put now task s).1
perform s (now, transitions id to reason error result) =
    (transition now id to reason error result s).1
perform s (now, leases id expires_at executor) = (set_lease id expires_at executor s).1
perform s (now, reports id progress message) = (report_progress now id progress message s).1
perform s (now, cancels id) = (request_cancel now id s).1
perform s (now, reconciles) = (reconcile now s).1
perform s (now, removes id) = remove_task id s

unfoldable pub perform_all : TaskStore → List (ℕ × Call) → TaskStore
perform_all s [] = s
perform_all s (c ∷ cs) = perform_all (perform s c) cs

-- An empty store is sound.
pub memory-IsSound : (retention : ℕ) → IsSound (memory retention)
unfolding lookup get_or
memory-IsSound retention = record {
  named = λ id t e. cc;
  one_task = tt;
  logs = record {
    log = λ id. record { kept = omega arith; gapless = omega arith };
    one_history = tt;
    one_seq = tt;
  };
}

rest-IsLog :
    (id j : String) (s : TaskStore)
    → IsLogged s
    → IsLog s.event_retention (get_or j 0 (remove id s.seqs)) (get_or j [] (remove id s.events))
rest-IsLog id j s logs = elim (Bool-cases (id == j)) [
  | inl same ↦
      rw
        (
          get_or-remove id j 0 s.seqs logs.one_seq,
          get_or-remove id j [] s.events logs.one_history,
          same,
        )
        (record { kept = omega arith; gapless = omega arith })
  | inr other ↦
      rw
        (
          get_or-remove id j 0 s.seqs logs.one_seq,
          get_or-remove id j [] s.events logs.one_history,
          other,
        )
        (logs.log j)
]

-- Removing a task from a sound store takes the task away, keeps the store sound and leaves every
-- other task as it was.
pub remove_task-IsSound :
    (id : String) (s : TaskStore)
    → IsSound s
    → IsSound (remove_task id s)
      × (lookup id (remove_task id s).tasks ≡ none)
      × ((j : String) → (id == j) ≡ false → lookup j (remove_task id s).tasks ≡ lookup j s.tasks)
unfolding remove_task
remove_task-IsSound id s i = (
  record {
    named = λ j t e. elim (Bool-cases (id == j)) [
      | inl same ↦ cc (lookup-remove id j s.tasks i.one_task, same)
      | inr other ↦ i.named j t (sym (lookup-remove id j s.tasks i.one_task ∙ rw other) ∙ e)
    ];
    one_task = Distinct-remove id s.tasks i.one_task;
    logs = record {
      log = λ j. rest-IsLog id j s i.logs;
      one_history = Distinct-remove id s.events i.logs.one_history;
      one_seq = Distinct-remove id s.seqs i.logs.one_seq;
    };
  },
  lookup-remove_self id s.tasks i.one_task,
  λ j other. lookup-remove id j s.tasks i.one_task ∙ rw other,
)

-- The call does not remove the task.
abbrev pub Spares : String → ℕ × Call → Type 0
Spares id (now, removes j) = (j == id) ≡ false
Spares id (now, _) = Unit

-- What a call keeps: a sound store stays sound, and a task that it does not remove is there still, in a state that
-- legal transitions lead to.
pub record Keeps (s : TaskStore) (c : List (ℕ × Call)) (s' : TaskStore) : Type 0 where
  pub sound : IsSound s'
  pub moves :
      (id : String) (t : GeoTask)
      → lookup id s.tasks ≡ some t
      → All (Spares id) c
      → (t' : GeoTask) × (lookup id s'.tasks ≡ some t') × Run t.state t'.state

advanced : {s s' : TaskStore} (c : ℕ × Call) → IsSound s → Advances s s' → Keeps s (c ∷ []) s'
advanced c i a = record { sound = a.sound i; moves = λ id t found spared. a.moves id t found }

perform-Keeps : (s : TaskStore) (c : ℕ × Call) → IsSound s → Keeps s (c ∷ []) (perform s c)
unfolding perform
perform-Keeps s (now, puts task) i = advanced (now, puts task) i (put-Advances now task s)
perform-Keeps s (now, transitions id to reason error result) i =
    advanced (now, transitions id to reason error result) i
      (transition-Advances now id to reason error result s)
perform-Keeps s (now, leases id expires_at executor) i =
    advanced (now, leases id expires_at executor) i (set_lease-Advances id expires_at executor s)
perform-Keeps s (now, reports id progress message) i =
    advanced (now, reports id progress message) i
      (report_progress-Advances now id progress message s)
perform-Keeps s (now, cancels id) i =
    advanced (now, cancels id) i (request_cancel-Advances now id s)
perform-Keeps s (now, reconciles) i = advanced (now, reconciles) i (reconcile-Advances now s i)
perform-Keeps s (now, removes j) i =
    let (sound, gone, others) = remove_task-IsSound j s i in
    record { sound = sound; moves = λ id t found spared. (t, others id spared.0 ∙ found, here) }

pub perform_all-Keeps :
    (s : TaskStore) (cs : List (ℕ × Call)) → IsSound s → Keeps s cs (perform_all s cs)
unfolding perform_all
perform_all-Keeps s [] i = record { sound = i; moves = λ id t found spared. (t, found, here) }
perform_all-Keeps s (c ∷ cs) i =
    let first = perform-Keeps s c i in
    let rest = perform_all-Keeps (perform s c) cs first.sound in
    record {
      sound = rest.sound;
      moves = λ id t found spared.
          let (mid, there, run) = first.moves id t found (spared.0, tt) in
          let (t', there', run') = rest.moves id mid there spared.1 in
          (t', there', Run-trans run run');
    }
