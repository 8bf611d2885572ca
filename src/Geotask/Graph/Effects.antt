-- ===== src/Geotask/Graph/Effects.antt =====
-- geotask/graph.py: what a move does to the nodes, whether or not the graph is bound to a store.
use geo_nexus_sdk.Base.{
  ℕ, ◌≡◌, refl, sym, ap, ◌∙◌, subst, true, false, Bool, inl, inr, Option, none, some, String,
  lookup, if◌then◌else◌, return, Outcome, Bool-cases, ◌==◌, contains, lookup-insert,
  lookup-insert_self, insert,
}
use geo_nexus_sdk.Geotask.Model.{GeoTask, TaskState, TaskError, TaskResult}
use geo_nexus_sdk.Geotask.Machine.{Error, can_transition}
use geo_nexus_sdk.Geotask.Machine.Paths.{
  Run, here, move as step, same_state_refl, can_transition-other,
}
use geo_nexus_sdk.Geotask.Store.{TaskStore, set_task, settle}
use geo_nexus_sdk.Geotask.Store.Effects.{transition-legal}
use geo_nexus_sdk.Geotask.Store.Invariant.{settle_lem, settle_deps, Run-trans}
use geo_nexus_sdk.Geotask.Graph.{
  TaskGraph, node, node_is, set_node, set_node_in, move_in, task, move, move_to, moved_node,
}

-- `new` is the node `old` after moves along the table: its name and its edges are the same.
pub record Follows (old new : GeoTask) : Type 0 where
  pub run : Run old.state new.state
  pub same_id : new.task_id ≡ old.task_id
  pub same_deps : new.depends_on ≡ old.depends_on

pub Follows-refl : (t : GeoTask) → Follows t t
Follows-refl t = record { run = here; same_id = refl; same_deps = refl }

pub Follows-trans : {t u v : GeoTask} → Follows t u → Follows u v → Follows t v
Follows-trans a b = record {
  run = Run-trans a.run b.run;
  same_id = b.same_id ∙ a.same_id;
  same_deps = b.same_deps ∙ a.same_deps;
}

-- From `g` to `g'` only the node `id` changed, to `new`.
pub record Sets (g : TaskGraph) (id : String) (old new : GeoTask) (g' : TaskGraph) : Type 0 where
  pub same_order : g'.order ≡ g.order
  pub others : (j : String) → (id == j) ≡ false → node g' j ≡ node g j
  pub at : node g' id ≡ some new
  pub follows : Follows old new

pub node_is-some :
    (g : TaskGraph) (p : GeoTask → Bool) (id : String) {t : GeoTask}
    → node g id ≡ some t
    → node_is g p id ≡ p t
unfolding node_is
node_is-some g p id found = rw (found, node_is)

pub task-some :
    (id : String) (g : TaskGraph) {t : GeoTask} → node g id ≡ some t → task id g ≡ (return t, g)
unfolding task
task-some id g found = rw (found, task)

pub node-unbound : (g : TaskGraph) (id : String) → g.store ≡ none → node g id ≡ lookup id g.nodes
unfolding node
node-unbound g id e = rw (e, node)

node-bound :
    (g : TaskGraph) (id : String) (s : TaskStore)
    → g.store ≡ some s
    → node g id ≡ (if contains id g.order then lookup id s.tasks else none)
unfolding node
node-bound g id s e = rw (e, node)

-- A node of a bound graph is listed, and is the store's task.
pub node-bound_some :
    (g : TaskGraph) (id : String) (s : TaskStore) {t : GeoTask}
    → g.store ≡ some s
    → node g id ≡ some t
    → (contains id g.order ≡ true) × (lookup id s.tasks ≡ some t)
node-bound_some g id s e found = elim (Bool-cases (contains id g.order)) [
  | inl listed ↦ (listed, sym (node-bound g id s e ∙ rw listed) ∙ found)
  | inr absent ↦ cc (node-bound g id s e, ap (λ b. if b then lookup id s.tasks else none) absent)
]

set_nodes-Sets :
    (g : TaskGraph) (id : String) (old new : GeoTask)
    → g.store ≡ none
    → Follows old new
    → Sets g id old new (record g { nodes = insert id new g.nodes })
set_nodes-Sets g id old new e follows =
    let g' : TaskGraph = record g { nodes = insert id new g.nodes } in
    record {
      same_order = refl;
      others = λ j other.
          node-unbound g' j e
          ∙ (lookup-insert id j new g.nodes ∙ rw other (sym (node-unbound g j e)));
      at = node-unbound g' id e ∙ lookup-insert_self id new g.nodes;
      follows = follows;
    }

pub set_store-Sets :
    (g : TaskGraph) (id : String) (old new : GeoTask) (s s' : TaskStore)
    → g.store ≡ some s
    → node g id ≡ some old
    → s'.tasks ≡ insert id new s.tasks
    → Follows old new
    → Sets g id old new (record g { store = some s' })
set_store-Sets g id old new s s' e found kept follows =
    let g' : TaskGraph = record g { store = some s' } in
    let (listed, stored) = node-bound_some g id s e found in
    record {
      same_order = refl;
      others = λ j other.
          node-bound g' j s' refl
          ∙ (ap (λ d. if contains j g.order then lookup j d else none) kept
              ∙ (ap (λ o. if contains j g.order then o else none)
                    (lookup-insert id j new s.tasks ∙ rw other)
                  ∙ sym (node-bound g j s e)));
      at = node-bound g' id s' refl ∙ rw (listed, kept) (lookup-insert_self id new s.tasks);
      follows = follows;
    }

set_node_in-Sets :
    (st : Option TaskStore) (g : TaskGraph) (id : String) (old new : GeoTask)
    → g.store ≡ st
    → node g id ≡ some old
    → Follows old new
    → Sets g id old new (set_node_in st id new g)
unfolding set_node_in
set_node_in-Sets none g id old new e found follows = set_nodes-Sets g id old new e follows
set_node_in-Sets (some s) g id old new e found follows =
    set_store-Sets g id old new s (set_task id new s) e found refl follows

pub set_node-Sets :
    (g : TaskGraph) (id : String) (old new : GeoTask)
    → node g id ≡ some old
    → Follows old new
    → Sets g id old new (set_node id new g)
unfolding set_node
set_node-Sets g id old new = set_node_in-Sets g.store g id old new refl

-- What a move to `to` answers and does.
pub record Moves (g : TaskGraph) (id : String) (old : GeoTask) (to : TaskState)
    (out : Outcome Error Unit × TaskGraph) : Type 0 where
  pub returned : out.0 ≡ return tt
  pub new : GeoTask
  pub reached : new.state ≡ to
  pub sets : Sets g id old new out.1

module _ (now : ℕ) (id : String) (to : TaskState) (error : Option TaskError)
    (result : Option TaskResult) (reason : String) (g : TaskGraph) (t : GeoTask)
    (found : node g id ≡ some t) where
  move_in-legal :
      (st : Option TaskStore)
      → g.store ≡ st
      → can_transition t.state to ≡ true
      → Moves g id t to (move_in st now id t to error result reason g)
  unfolding move_in
  move_in-legal none e legal =
      rw (legal, move_in)
        (record {
          returned = refl;
          new = moved_node to error reason t;
          reached = refl;
          sets =
              set_node-Sets g id t (moved_node to error reason t) found
                (record { run = step legal here; same_id = refl; same_deps = refl });
        })
  move_in-legal (some s) e legal =
      let (returned, log) =
        transition-legal now id to reason error result s t (node-bound_some g id s e found).1
          legal in
      let (same, at) = settle_lem now to error result t in
      rw returned (record {
        returned = refl;
        new = settle now to error result t;
        reached = at;
        sets =
            set_store-Sets g id t (settle now to error result t) s _ e found log.same_tasks
              (record {
                run = step legal (subst (Run to) (sym at) here);
                same_id = same;
                same_deps = settle_deps now to error result t;
              });
      })

  -- A legal move returns, and sets the node's state.
  pub move-legal :
      can_transition t.state to ≡ true → Moves g id t to (move now id to error result reason g)
  unfolding move move_to
  move-legal legal =
      rw (task-some id g found, can_transition-other t.state to legal)
        (move_in-legal g.store refl legal)

  -- Moving to the state where it is does nothing.
  pub move-same : t.state ≡ to → move now id to error result reason g ≡ (return tt, g)
  unfolding move
  move-same at = rw (task-some id g found, at, same_state_refl to)
