-- ===== src/Geotask/Graph/Kahn.antt =====
-- geotask/graph.py, TaskGraph.__init__ and `_topological_order`: the checks and the order that a graph is
-- built with.
use geo_nexus_sdk.Base.{
  ℕ, suc, zero, ◌-◌, String, not, ◌&&◌, none, some, List, [], ◌∷◌, ◌++◌, Dict, map, lookup, insert,
  get_or, has, keys, contains, length, keep, eqb, if◌then◌else◌, Outcome, return, raise, ◌==◌,
}
use geo_nexus_sdk.Geotask.Model.{GeoTask}
use geo_nexus_sdk.Geotask.Machine.{
  Error, duplicate_task, missing_dependency, self_dependency, cyclic,
}

-- The first loop of `__init__`, and the second.
unfoldable pub collect : Dict GeoTask → List GeoTask → Outcome Error (Dict GeoTask)
collect nodes [] = return nodes
collect nodes (t ∷ ts) =
    let rest = collect (insert t.task_id t nodes) ts in
    if has t.task_id nodes then raise (duplicate_task t.task_id) else rest

unfoldable pub check_deps : Dict GeoTask → String → List String → Outcome Error Unit
check_deps nodes task_id [] = return tt
check_deps nodes task_id (dep ∷ deps) =
    if not (has dep nodes)
    then raise (missing_dependency task_id dep)
    else if dep == task_id
    then raise (self_dependency task_id)
    else check_deps nodes task_id deps

unfoldable pub check_all : Dict GeoTask → Dict GeoTask → Outcome Error Unit
unfolding check_deps
check_all nodes [] = return tt
check_all nodes ((id, t) ∷ rest) = elim (check_deps nodes t.task_id t.depends_on) [
  | raise e ↦ raise e
  | return _ ↦ check_all nodes rest
]

-- Kahn's algorithm. `indegree[other] -= 1` followed by the test for 0: a number that is 0 already
-- goes below and never comes back to 0, so it is left at 0 here and passes no test again.
unfoldable pub sweep :
    Dict GeoTask → String → List String → Dict ℕ → List String → Dict ℕ × List String
sweep nodes id [] indegree ready = (indegree, ready)
sweep nodes id (other ∷ others) indegree ready = elim (lookup other nodes) [
  | none ↦ sweep nodes id others indegree ready
  | some t ↦
      let n = get_or other 0 indegree in
      let hit = contains id t.depends_on in
      sweep nodes id others (if hit then insert other (n - 1) indegree else indegree)
        (if hit && eqb n 1 then ready ++ other ∷ [] else ready)
]

-- `while ready`. A task enters `ready` at most once, so there are no more rounds than tasks.
unfoldable pub kahn :
    ℕ → Dict GeoTask → List String → Dict ℕ → List String → List String → List String
unfolding sweep
kahn zero nodes order indegree ready out = out
kahn (suc fuel) nodes order indegree [] out = out
kahn (suc fuel) nodes order indegree (id ∷ ready) out =
    let (indegree', ready') = sweep nodes id order indegree ready in
    kahn fuel nodes order indegree' ready' (out ++ id ∷ [])

abbrev pub indegrees : Dict GeoTask → Dict ℕ
indegrees = map (λ e. (e.0, length e.1.depends_on))

unfoldable pub topological_order : Dict GeoTask → List String → Outcome Error (List String)
unfolding kahn
topological_order nodes order =
    let indegree = indegrees nodes in
    let ready = keep (λ id. eqb (get_or id 0 indegree) 0) order in
    let out = kahn (length order) nodes order indegree ready [] in
    if eqb (length out) (length nodes)
    then return out
    else raise (cyclic (keep (λ id. not (contains id out)) (keys nodes)))
