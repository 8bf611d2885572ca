-- ===== src/Geotask/Graph.antt =====
-- geotask/graph.py: the dependency graph. A graph that is bound to a store holds the store's own
-- objects, so its nodes are read and written through the store; the store keeps a registered
-- task as long as the graph lives. `now` is what the clock reads.
pub mod Kahn
pub mod Topo
pub mod Effects
pub mod Marks
pub mod Blocked
pub mod Ready
pub mod Cascade
mod Tests
use Prim.Native.String.{◌++◌ as text_append}
use geo_nexus_sdk.Base.{
  ℕ, suc, zero, ◌+◌, ◌-◌, ◌*◌, String, Bool, true, false, not, ◌&&◌, ◌||◌, Option, none, some, List,
  [], ◌∷◌, ◌++◌, Dict, map, lookup, insert, get_or, has, keys, contains, length, keep, every, eqb,
  if◌then◌else◌, or_else, is_some, Outcome, return, raise, Action, get_state, modify, pure, throw,
  and_then, lift, ◌>>=◌, ◌>>◌, for_each, ◌==◌,
}
use geo_nexus_sdk.Geotask.Model.{
  TaskState, created, queued, blocked, scheduled, running, succeeded, failed, cancelled, skipped,
  same_state, TaskError, error_of_code, TaskResult, GeoTask,
}
use geo_nexus_sdk.Geotask.Machine.{
  Error, illegal_transition, duplicate_task, missing_dependency, self_dependency, cyclic,
  unknown_task, key_error, task_not_found, assert_transition, is_terminal, in_states,
}
pub use geo_nexus_sdk.Geotask.Graph.Kahn.{indegrees}
unfoldable pub use geo_nexus_sdk.Geotask.Graph.Kahn.{
  collect, check_deps, check_all, sweep, kahn, topological_order,
}
use geo_nexus_sdk.Geotask.Store.{TaskStore, transition, put, get, set_task}

abbrev pub satisfied_states : List TaskState
satisfied_states = succeeded ∷ skipped ∷ []

abbrev pub runnable_states : List TaskState
runnable_states = created ∷ queued ∷ blocked ∷ []

pub record TaskGraph : Type 0 where
  pub nodes : Dict GeoTask
  pub order : List String
  pub errors : Dict TaskError
  pub store : Option TaskStore
  pub topo : List String

abbrev pub GraphAction : Type 0 → Type 0
GraphAction A = Action Error TaskGraph A

-- `self._tasks.get(task_id)`: the graph's own object, or the store's.
unfoldable pub node : TaskGraph → String → Option GeoTask
node g task_id = elim g.store [
  | none ↦ lookup task_id g.nodes
  | some s ↦ if contains task_id g.order then lookup task_id s.tasks else none
]

-- The object under `task_id` is mutated in place.
unfoldable pub set_node_in : Option TaskStore → String → GeoTask → TaskGraph → TaskGraph
set_node_in none task_id task g = record g { nodes = insert task_id task g.nodes }
set_node_in (some s) task_id task g = record g { store = some (set_task task_id task s) }

unfoldable pub set_node : String → GeoTask → TaskGraph → TaskGraph
unfolding set_node_in
set_node task_id task g = set_node_in g.store task_id task g

-- TaskGraph(tasks), also `from_tasks`.
unfoldable pub from_tasks : List GeoTask → Outcome Error TaskGraph
unfolding collect check_all topological_order
from_tasks tasks = elim (collect [] tasks) [
  | raise e ↦ raise e
  | return nodes ↦ elim (check_all nodes nodes) [
    | raise e ↦ raise e
    | return _ ↦ elim (topological_order nodes (keys nodes)) [
      | raise e ↦ raise e
      | return topo ↦
          return
            (record { nodes = nodes; order = keys nodes; errors = []; store = none; topo = topo })
    ]
  ]
]

-- `bind`: a task that the store lacks is put there. The answer is the store afterwards.
unfoldable pub register : ℕ → Dict GeoTask → List String → Action Error TaskStore Unit
unfolding get
register now nodes [] s = (return tt, s)
register now nodes (id ∷ ids) s = elim (get id s) [
  | some stored ↦ register now nodes ids s
  | none ↦ elim (lookup id nodes) [
    | none ↦ (raise (key_error id), s)
    | some task ↦ and_then (put now task s).0 (λ _ s'. register now nodes ids s') (put now task s).1
  ]
]

unfoldable pub bind : ℕ → TaskGraph → TaskStore → Outcome Error TaskGraph
unfolding register
bind now g s =
    let (r, s') = register now g.nodes g.order s in
    elim r [ raise e ↦ raise e | return _ ↦ return (record g { store = some s' }) ]

unfoldable pub task : String → GraphAction GeoTask
task task_id g = elim (node g task_id) [
  | none ↦ (raise (unknown_task task_id), g)
  | some t ↦ (return t, g)
]

unfoldable pub error_of : TaskGraph → String → Option TaskError
error_of g task_id = elim (lookup task_id g.errors) [
  | some e ↦ some e
  | none ↦ elim (node g task_id) [ none ↦ none | some t ↦ t.error ]
]

-- `all(self._tasks[d].state in _SATISFIED for d in deps)`
unfoldable pub all_satisfied : TaskGraph → List String → Outcome Error Bool
all_satisfied g [] = return true
all_satisfied g (d ∷ ds) = elim (node g d) [
  | none ↦ raise (key_error d)
  | some t ↦ if in_states t.state satisfied_states then all_satisfied g ds else return false
]

unfoldable pub ready_from : TaskGraph → List String → Outcome Error (List String)
unfolding all_satisfied
ready_from g [] = return []
ready_from g (id ∷ ids) = elim (node g id) [
  | none ↦ raise (key_error id)
  | some t ↦
      if not (in_states t.state runnable_states)
      then ready_from g ids
      else elim (all_satisfied g t.depends_on) [
        | raise e ↦ raise e
        | return fits ↦ elim (ready_from g ids) [
          | raise e ↦ raise e
          | return rest ↦ return (if fits then id ∷ rest else rest)
        ]
      ]
]

unfoldable pub ready : TaskGraph → Outcome Error (List String)
unfolding ready_from
ready g = ready_from g g.order

-- A test on the task under `task_id`.
unfoldable pub node_is : TaskGraph → (GeoTask → Bool) → String → Bool
node_is g p task_id = elim (node g task_id) [ none ↦ false | some t ↦ p t ]

unfoldable pub in_flight : TaskGraph → List String
in_flight g = keep (node_is g (λ t. in_states t.state (queued ∷ scheduled ∷ running ∷ []))) g.order

unfoldable pub pending : TaskGraph → List String
pending g = keep (node_is g (λ t. not (is_terminal t))) g.order

unfoldable pub is_complete : TaskGraph → Bool
is_complete g = every (node_is g is_terminal) g.order

unfoldable pub dependents_of : TaskGraph → String → List String
dependents_of g task_id = keep (node_is g (λ t. contains task_id t.depends_on)) g.order

abbrev pub is_illegal : Error → Bool
is_illegal (illegal_transition _ _) = true
is_illegal _ = false

-- An illegal move of a task that has ended is passed over; any other error goes on.
abbrev pub tolerate : {A : Type 0} → Bool → Outcome Error A → Outcome Error Unit
tolerate over (return _) = return tt
tolerate over (raise e) = if is_illegal e && over then return tt else raise e

abbrev pub moved_node : TaskState → Option TaskError → String → GeoTask → GeoTask
moved_node to error reason t = record t {
  state = to;
  error = or_else error t.error;
  message = if reason == "" then t.message else reason;
}

-- Unbound, the graph checks the move and writes; bound, the store does both.
unfoldable pub move_in :
    Option TaskStore
    → ℕ
    → String
    → GeoTask
    → TaskState
    → Option TaskError
    → Option TaskResult
    → String
    → GraphAction Unit
unfolding assert_transition
move_in none now task_id t to error result reason g = elim (assert_transition t.state to) [
  | raise e ↦ (tolerate {A = GeoTask} (is_terminal t) (raise e), g)
  | return _ ↦ (return tt, set_node task_id (moved_node to error reason t) g)
]
move_in (some s) now task_id t to error result reason g =
    let (r, s') = transition now task_id to reason error result s in
    (tolerate (is_terminal t) r, record g { store = some s' })

unfoldable pub move_to :
    ℕ
    → String
    → GeoTask
    → TaskState
    → Option TaskError
    → Option TaskResult
    → String
    → GraphAction Unit
unfolding move_in
move_to now task_id t to error result reason g =
    move_in g.store now task_id t to error result reason g

unfoldable pub move :
    ℕ → String → TaskState → Option TaskError → Option TaskResult → String → GraphAction Unit
move now task_id to error result reason = task task_id >>= λ t.
    if same_state t.state to then pure tt else move_to now task_id t to error result reason

-- `_move(task_id, to)`
abbrev pub move_plain : ℕ → String → TaskState → GraphAction Unit
move_plain now task_id to = move now task_id to none none ""

unfoldable pub ensure_queued : ℕ → String → GraphAction Unit
ensure_queued now task_id = task task_id >>= λ t.
    if in_states t.state (created ∷ blocked ∷ []) then move_plain now task_id queued else pure tt

unfoldable pub ensure_blocked : ℕ → String → GraphAction Unit
ensure_blocked now task_id = task task_id >>= λ t.
    if same_state t.state blocked
    then pure tt
    else (ensure_queued now task_id
        >> (task task_id >>= λ u.
            if same_state u.state queued then move_plain now task_id blocked else pure tt))

unfoldable pub mark_running : ℕ → String → GraphAction Unit
mark_running now task_id = do
  ensure_queued now task_id
  move_plain now task_id scheduled
  move_plain now task_id running

unfoldable pub mark_retry : ℕ → String → GraphAction Unit
mark_retry now task_id = move_plain now task_id queued

abbrev pub set_error : String → TaskError → TaskGraph → TaskGraph
set_error task_id e g = record g { errors = insert task_id e g.errors }

-- `_cascade`: a queue of ids to visit, and those seen. The error that it gives
-- names the task where it began.
unfoldable pub fail_downstream : ℕ → TaskError → String → GraphAction Unit
fail_downstream now upstream task_id =
    ensure_blocked now task_id
    >> (modify (set_error task_id upstream) >> move now task_id failed (some upstream) none "")

unfoldable pub visit : ℕ → TaskError → String → GraphAction (List String)
visit now upstream task_id g = elim (node g task_id) [
  | none ↦ (raise (key_error task_id), g)
  | some t ↦
      if in_states t.state satisfied_states
      then (return [], g)
      else ((if is_terminal t then pure tt else fail_downstream now upstream task_id)
            >> (get_state >>= λ g'. pure (dependents_of g' task_id)))
          g
]

unfoldable pub cascade_from : ℕ → ℕ → TaskError → List String → List String → GraphAction Unit
cascade_from zero now upstream queue seen = pure tt
cascade_from (suc fuel) now upstream [] seen = pure tt
cascade_from (suc fuel) now upstream (id ∷ queue) seen = elim (contains id seen) [
  | true ↦ cascade_from fuel now upstream queue seen
  | false ↦
      visit now upstream id >>= λ more. cascade_from fuel now upstream (queue ++ more) (id ∷ seen)
]

-- Enough rounds: a task is visited once, and each visit queues at most all tasks.
abbrev pub rounds : TaskGraph → ℕ
rounds g = suc (length g.order) * suc (length g.order)

unfoldable pub upstream_error : String → TaskError
unfolding error_of_code
upstream_error source =
    error_of_code "upstream_failed" (text_append "上游 " (text_append source " 失败/取消")) none

unfoldable pub cascade : ℕ → String → GraphAction Unit
cascade now source g =
    cascade_from (rounds g) now (upstream_error source) (dependents_of g source) [] g

unfoldable pub mark_done : ℕ → String → Option TaskResult → GraphAction Unit
mark_done now task_id result = task task_id >>= λ t.
    (if same_state t.state running then pure tt else mark_running now task_id)
    >> move now task_id succeeded none result ""

-- `mark_failed(task_id, code, message)`
unfoldable pub mark_failed : ℕ → String → String → String → GraphAction Unit
mark_failed now task_id code message = task task_id >>= λ t.
    (if same_state t.state running then pure tt else ensure_blocked now task_id)
    >> (modify (set_error task_id (error_of_code code message none))
        >> (move now task_id failed (some (error_of_code code message none)) none ""
            >> cascade now task_id))

-- `"；".join(reasons)`
unfoldable pub join_reasons : List String → String
join_reasons [] = ""
join_reasons (r ∷ []) = r
join_reasons (r ∷ q ∷ rs) = text_append r (text_append "；" (join_reasons (q ∷ rs)))

abbrev pub set_message : String → String → TaskGraph → TaskGraph
set_message task_id message g = elim (node g task_id) [
  | none ↦ g
  | some t ↦ set_node task_id (record t { message = message }) g
]

unfoldable pub blocked_message : String → List String → String
unfolding join_reasons
blocked_message code reasons =
    let text = join_reasons reasons in
    if text == "" then code else text_append code (text_append ": " text)

unfoldable pub mark_blocked : ℕ → String → List String → String → GraphAction Unit
mark_blocked now task_id reasons code =
    let message = blocked_message code reasons in
    task task_id >>= λ t.
    if same_state t.state blocked
    then modify (set_message task_id message)
    else ((if same_state t.state created
          then move now task_id queued none none message
          else pure tt)
        >> (task task_id >>= λ u.
            (if same_state u.state queued
              then move now task_id blocked none none message
              else pure tt)
            >> modify (set_message task_id message)))

unfoldable pub mark_skipped : ℕ → String → GraphAction Unit
mark_skipped now task_id = ensure_blocked now task_id >> move_plain now task_id skipped

unfoldable pub mark_cancelled : ℕ → String → GraphAction Unit
mark_cancelled now task_id = task task_id >>= λ t.
    if is_terminal t
    then pure tt
    else ((if in_states t.state (created ∷ queued ∷ [])
          then ensure_blocked now task_id
          else pure tt)
        >> (move_plain now task_id cancelled >> cascade now task_id))
