-- ===== src/Geotask/Graph/Tests.antt =====
-- The theorems about the graph at concrete inputs, and runs of its methods.
use geo_nexus_sdk.Base.{
  map, raise, ◌≡◌, ◌⊎◌, inl, refl, false, none, some, List, [], ◌∷◌, String, lookup, return, keep,
  pos, insert, get_or,
}
use geo_nexus_sdk.Geotask.Model.{
  error_of_code, TaskState, succeeded, GeoTask, new_task, no_resources, default_retry, skill,
  created, succeeded, failed, cancelled,
}
use geo_nexus_sdk.Geotask.Machine.{
  cyclic, in_states, is_terminal, can_transition, assert_transition, is_terminal_state,
}
use geo_nexus_sdk.Geotask.Graph.{
  mark_blocked, blocked_message, ensure_blocked, ensure_queued, move, move_to, move_in, task,
  set_node, set_node_in, cascade_from, visit, fail_downstream, upstream_error, dependents_of,
  TaskGraph, node, node_is, from_tasks, collect, check_all, check_deps, topological_order, kahn,
  sweep, ready, cascade, mark_failed, mark_cancelled,
}
use geo_nexus_sdk.Geotask.Graph.Blocked.{Noted, mark_blocked-Noted}
use geo_nexus_sdk.Geotask.Graph.Topo.Order.{IsBuilt, from_tasks-IsBuilt}
use geo_nexus_sdk.Geotask.Graph.Cascade.Step.{IsClosed, Cascades, is_satisfied}
use geo_nexus_sdk.Geotask.Graph.Cascade.Queue.{Below}
use geo_nexus_sdk.Geotask.Graph.Cascade.Loop.{cascade-reaches}
use geo_nexus_sdk.Geotask.Graph.Cascade.Failure.{Fails, mark_failed-Fails, mark_cancelled-Fails}
use geo_nexus_sdk.Geotask.Graph.Ready.{can_start, DepsListed, ready_lem, IsBuilt-IsClosed}

abbrev step_task : String → List String → GeoTask
step_task id deps = new_task 1 id skill deps (pos 0) no_resources default_retry none

-- A map is drawn from two layers, which both come from one download.
abbrev tasks : List GeoTask
tasks =
    step_task "map" ("roads" ∷ "rivers" ∷ [])
    ∷ step_task "roads" ("download" ∷ [])
    ∷ step_task "rivers" ("download" ∷ [])
    ∷ step_task "download" []
    ∷ []

abbrev atlas : TaskGraph
atlas = record {
  nodes =
      ("map", step_task "map" ("roads" ∷ "rivers" ∷ []))
      ∷ ("roads", step_task "roads" ("download" ∷ []))
      ∷ ("rivers", step_task "rivers" ("download" ∷ []))
      ∷ ("download", step_task "download" [])
      ∷ [];
  order = "map" ∷ "roads" ∷ "rivers" ∷ "download" ∷ [];
  errors = [];
  store = none;
  topo = "download" ∷ "roads" ∷ "rivers" ∷ "map" ∷ [];
}

atlas_built : from_tasks tasks ≡ return atlas
unfolding from_tasks collect check_all check_deps topological_order kahn sweep lookup insert get_or
atlas_built = refl

from_tasks-IsBuilt_example : IsBuilt tasks atlas
from_tasks-IsBuilt_example = from_tasks-IsBuilt tasks atlas atlas_built

atlas-IsBuilt : IsBuilt tasks atlas
atlas-IsBuilt = from_tasks-IsBuilt tasks atlas atlas_built

atlas-IsClosed : IsClosed atlas × DepsListed atlas
atlas-IsClosed = IsBuilt-IsClosed tasks atlas atlas-IsBuilt

ready_lem_example : ready atlas ≡ return (keep (node_is atlas (can_start atlas)) atlas.order)
ready_lem_example = ready_lem atlas atlas-IsClosed.0 atlas-IsClosed.1

cascade-reaches_example :
    ((cascade 5 "download" atlas).0 ≡ return tt)
    × ((id : String) (t : GeoTask)
        → Below atlas "download" id
        → node atlas id ≡ some t
        → is_satisfied t ≡ false
        → (t' : GeoTask) × (node (cascade 5 "download" atlas).1 id ≡ some t')
          × ((t'.state ≡ failed) ⊎ (t'.state ≡ cancelled)))
    × ((id : String)
        → (node (cascade 5 "download" atlas).1 id ≡ node atlas id) ⊎ Below atlas "download" id)
    × Cascades atlas (cascade 5 "download" atlas).1
cascade-reaches_example = cascade-reaches 5 "download" atlas atlas-IsClosed.0

download-node :
    (node atlas "download" ≡ some (step_task "download" [])) × (is_terminal_state created ≡ false)
unfolding node lookup is_terminal_state
download-node = (refl, refl)

mark_failed-Fails_example :
    Fails atlas "download" failed (mark_failed 5 "download" "execution_error" "no route" atlas)
mark_failed-Fails_example =
    mark_failed-Fails 5 "download" atlas (step_task "download" []) atlas-IsClosed.0 download-node.0
      "execution_error" "no route" download-node.1

mark_cancelled-Fails_example : Fails atlas "download" cancelled (mark_cancelled 5 "download" atlas)
mark_cancelled-Fails_example =
    mark_cancelled-Fails 5 "download" atlas (step_task "download" []) atlas-IsClosed.0
      download-node.0 download-node.1

mark_blocked-Noted_example :
    Noted atlas "download"
      (step_task "download" [])
      (blocked_message "concurrency_limit" ("two run" ∷ []))
      (mark_blocked 5 "download" ("two run" ∷ []) "concurrency_limit" atlas)
mark_blocked-Noted_example =
    mark_blocked-Noted 5 "download" atlas (step_task "download" []) download-node.0 ("two run" ∷ [])
      "concurrency_limit" (inl refl)

-- A task that names a dependency twice is refused as if the graph had a cycle.
twice :
    from_tasks (step_task "a" [] ∷ step_task "b" ("a" ∷ "a" ∷ []) ∷ []) ≡ raise (cyclic ("b" ∷ []))
unfolding from_tasks collect check_all check_deps topological_order kahn sweep lookup insert get_or
twice = refl

-- `a` has succeeded and is marked as failed all the same: it keeps its state, and `b` fails.
abbrev half_done : TaskGraph
half_done = record {
  nodes =
      ("a", record (step_task "a" []) { state = succeeded }) ∷ ("b", step_task "b" ("a" ∷ [])) ∷ [];
  order = "a" ∷ "b" ∷ [];
  errors = [];
  store = none;
  topo = "a" ∷ "b" ∷ [];
}

abbrev states : TaskGraph → List TaskState
states g = map (λ e. e.1.state) g.nodes

late_failure : states (mark_failed 5 "a" "timeout" "late" half_done).1 ≡ succeeded ∷ failed ∷ []
unfolding mark_failed ensure_blocked ensure_queued move move_to move_in task node set_node
    set_node_in cascade cascade_from visit fail_downstream dependents_of node_is upstream_error
    error_of_code is_terminal is_terminal_state in_states can_transition assert_transition lookup
    insert
late_failure = refl
