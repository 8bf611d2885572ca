-- ===== src/Geotask/Graph/Topo/Order.antt =====
-- geotask/graph.py, `TaskGraph(tasks)`: what a graph that was built is like.
use geo_nexus_sdk.Base.{
  insert-new, contains-keys, suc, ◌≡◌, refl, sym, ap, ◌∙◌, subst, true, false, Bool, inl, inr, none,
  some, List, [], ◌∷◌, ◌++◌, String, if◌then◌else◌, arith, Bool-cases, ◌==◌, eq_iff, contains,
  contains-keep, keep, length, Distinct, Dict, lookup, get_or, insert, has, keys, Distinct-insert,
  keys-insert, map, eqb, eqb_iff, Outcome, return, raise,
}
use mathlib.Core.List.{append_assoc, append-nil}
use geo_nexus_sdk.Geotask.Model.{GeoTask}
use geo_nexus_sdk.Geotask.Machine.{Error}
use geo_nexus_sdk.Geotask.Graph.{
  TaskGraph, kahn, topological_order, indegrees, collect, check_all, check_deps, from_tasks,
}
use geo_nexus_sdk.Geotask.Graph.Topo.Sweep.{remaining}
use geo_nexus_sdk.Geotask.Graph.Topo.Loop.{Inv, IsPlaced, kahn-IsPlaced}

indegree-length :
    (id : String) (nodes : Dict GeoTask) (t : GeoTask)
    → lookup id nodes ≡ some t
    → get_or id 0 (indegrees nodes) ≡ length t.depends_on
unfolding lookup get_or
indegree-length id [] t e = cc
indegree-length id ((j, u) ∷ nodes) t e = ground (arith, indegree-length id nodes t)

remaining_none : (deps : List String) → remaining deps [] ≡ length deps
remaining_none [] = refl
remaining_none (d ∷ deps) = omega (arith, remaining_none deps)

keep-Distinct : (p : String → Bool) (ids : List String) → Distinct ids → Distinct (keep p ids)
keep-Distinct p [] d = tt
keep-Distinct p (j ∷ ids) d = ground (arith, keep-Distinct p ids d.1, contains-keep p j ids)

-- The counts and the queue before the first round.
start-Inv :
    (nodes : Dict GeoTask) (order : List String)
    → Distinct order
    → Inv nodes order
        (indegrees nodes)
        (keep (λ id. eqb (get_or id 0 (indegrees nodes)) 0) order)
        []
start-Inv nodes order distinct =
    let free = λ (id : String). eqb (get_or id 0 (indegrees nodes)) 0 in
    record {
      fresh = record {
        apart = keep-Distinct free order distinct;
        counted = λ j m.
            (eqb_iff (get_or j 0 (indegrees nodes)) 0).0
              (ground (arith, contains-keep free j order));
      };
      ordered = tt;
      counted = λ j t m e. omega (arith, indegree-length j nodes t e, remaining_none t.depends_on);
      queued = λ j m. ground (arith, contains-keep free j order);
      placed = λ j m. cc;
    }

if_returned :
    {A : Type 0} (b : Bool) (e : Error) (a out : A)
    → ◌≡◌ {A = Outcome Error A} (if b then return a else raise e) (return out)
    → (b ≡ true) × (a ≡ out)
if_returned true e a out h = (refl, cc)
if_returned false e a out h = cc

-- An order that is returned names as many tasks as there are, each once, all of them listed, and each
-- task behind all those that it depends on.
pub topological_order-IsPlaced :
    (nodes : Dict GeoTask) (order out : List String)
    → Distinct order
    → topological_order nodes order ≡ return out
    → IsPlaced nodes order out × (length out ≡ length nodes)
unfolding topological_order
topological_order-IsPlaced nodes order out distinct e =
    let found =
      kahn (length order) nodes order (indegrees nodes)
        (keep (λ id. eqb (get_or id 0 (indegrees nodes)) 0) order) [] in
    let (complete, same) = if_returned (eqb (length found) (length nodes)) _ found out e in
    (
      subst (IsPlaced nodes order) same (
          kahn-IsPlaced (length order) nodes order _ _ [] distinct
            (start-Inv nodes order distinct)),
      ap length (sym same) ∙ (eqb_iff (length found) (length nodes)).0 complete,
    )

-- The dependencies of each task are other tasks of the graph.
abbrev pub HasDeps : Dict GeoTask → Dict GeoTask → Type 0
HasDeps nodes [] = Unit
HasDeps nodes ((id, t) ∷ rest) =
    ((d : String)
      → contains d t.depends_on ≡ true
      → (has d nodes ≡ true) × ((d == t.task_id) ≡ false))
    × HasDeps nodes rest

check_deps-head :
    (nodes : Dict GeoTask) (id j d : String) (deps : List String)
    → check_deps nodes id (j ∷ deps) ≡ return tt
    → j ≡ d
    → (has d nodes ≡ true) × ((d == id) ≡ false)
unfolding check_deps
check_deps-head nodes id j d deps e same =
    subst (λ k. (has k nodes ≡ true) × ((k == id) ≡ false)) same (ground arith)

check_deps-known :
    (nodes : Dict GeoTask) (id d : String) (deps : List String)
    → check_deps nodes id deps ≡ return tt
    → contains d deps ≡ true
    → (has d nodes ≡ true) × ((d == id) ≡ false)
unfolding check_deps
check_deps-known nodes id d [] e m = cc
check_deps-known nodes id d (j ∷ deps) e m = elim (Bool-cases (j == d)) [
  | inl same ↦ check_deps-head nodes id j d deps e ((eq_iff j d).0 same)
  | inr other ↦ ground (arith, check_deps-known nodes id d deps)
]

-- A step of a chain of checks.
both_returned :
    {A : Type 0} (r : Outcome Error Unit) (k : Outcome Error A) (out : A)
    → ◌≡◌ {A = Outcome Error A} (elim r [ raise e ↦ raise e | return _ ↦ k ]) (return out)
    → (r ≡ return tt) × (k ≡ return out)
both_returned (return x) k out h = (refl, h)
both_returned (raise e) k out h = cc

check_all-HasDeps :
    (nodes rest : Dict GeoTask) → check_all nodes rest ≡ return tt → HasDeps nodes rest
unfolding check_all
check_all-HasDeps nodes [] e = tt
check_all-HasDeps nodes ((id, t) ∷ rest) e =
    let (here, there) = both_returned (check_deps nodes t.task_id t.depends_on) _ tt e in
    (
      λ d m. check_deps-known nodes t.task_id d t.depends_on here m,
      check_all-HasDeps nodes rest there,
    )

if_new :
    {A : Type 0} (b : Bool) (e : Error) (k : Outcome Error A) (out : A)
    → ◌≡◌ {A = Outcome Error A} (if b then raise e else k) (return out)
    → (b ≡ false) × (k ≡ return out)
if_new true e k out h = cc
if_new false e k out h = (refl, h)

chain_returned :
    {A B : Type 0} (r : Outcome Error A) (f : A → Outcome Error B) (out : B)
    → ◌≡◌ {A = Outcome Error B} (elim r [ raise e ↦ raise e | return a ↦ f a ]) (return out)
    → (a : A) × (r ≡ return a) × (f a ≡ return out)
chain_returned (return a) f out h = (a, refl, h)
chain_returned (raise e) f out h = cc

-- The first loop keeps the ids in the order given, and refuses to take one twice.
pub collect-keys :
    (nodes : Dict GeoTask) (ts : List GeoTask) (out : Dict GeoTask)
    → collect nodes ts ≡ return out
    → Distinct (keys nodes)
    → (keys out ≡ keys nodes ++ map (λ t. t.task_id) ts) × Distinct (keys out)
unfolding collect
collect-keys nodes [] out e d =
    let same : nodes ≡ out = cc in
    subst (λ o. (keys o ≡ keys nodes ++ []) × Distinct (keys o)) same
      (sym (append-nil (keys nodes)), d)
collect-keys nodes (t ∷ ts) out e d = elim (Bool-cases (has t.task_id nodes)) [
  | inl old ↦ cc (if_new (has t.task_id nodes) _ (collect (insert t.task_id t nodes) ts) out e).0
  | inr new ↦
      let (listed, distinct) =
        collect-keys (insert t.task_id t nodes) ts out
          (if_new (has t.task_id nodes) _ (collect (insert t.task_id t nodes) ts) out e).1
          (Distinct-insert t.task_id t nodes d) in
      (
        listed
            ∙ (ap (λ ks. ks ++ map (λ (u : GeoTask). u.task_id) ts)
                  (keys-insert t.task_id t nodes ∙ rw new)
                ∙ append_assoc (keys nodes) (t.task_id ∷ []) _),
        distinct,
      )
]

abbrev pub task_entry : GeoTask → String × GeoTask
task_entry t = (t.task_id, t)

-- It keeps the tasks themselves, as they are given.
collect-entries :
    (nodes : Dict GeoTask) (ts : List GeoTask) (out : Dict GeoTask)
    → collect nodes ts ≡ return out
    → out ≡ nodes ++ map task_entry ts
unfolding collect
collect-entries nodes [] out e = let same : nodes ≡ out = cc in sym same ∙ sym (append-nil nodes)
collect-entries nodes (t ∷ ts) out e =
    let (new, rest) =
      if_new (has t.task_id nodes) _ (collect (insert t.task_id t nodes) ts) out e in
    collect-entries (insert t.task_id t nodes) ts out rest
    ∙ (ap (λ d. d ++ map task_entry ts)
          (insert-new t.task_id t nodes (contains-keys t.task_id nodes ∙ new))
        ∙ append_assoc nodes (task_entry t ∷ []) (map task_entry ts))

-- A graph that was built from `tasks`: its nodes are these tasks.
pub record IsBuilt (tasks : List GeoTask) (g : TaskGraph) : Type 0 where
  pub given : g.order ≡ map (λ t. t.task_id) tasks
  pub entries : g.nodes ≡ map task_entry tasks
  pub keyed : g.order ≡ keys g.nodes
  pub apart : Distinct g.order
  pub has_deps : HasDeps g.nodes g.nodes
  pub placed : IsPlaced g.nodes g.order g.topo
  pub complete : length g.topo ≡ length tasks
  pub unbound : g.store ≡ none

length-keys : (nodes : Dict GeoTask) → length nodes ≡ length (keys nodes)
length-keys [] = refl
length-keys (e ∷ nodes) = ap suc (length-keys nodes)

length-ids : (tasks : List GeoTask) → length (map (λ (t : GeoTask). t.task_id) tasks) ≡ length tasks
length-ids [] = refl
length-ids (t ∷ tasks) = ap suc (length-ids tasks)

made-IsBuilt :
    (tasks : List GeoTask) (nodes : Dict GeoTask) (topo : List String) (g : TaskGraph)
    → record { nodes = nodes; order = keys nodes; errors = []; store = none; topo = topo } ≡ g
    → nodes ≡ map task_entry tasks
    → check_all nodes nodes ≡ return tt
    → (keys nodes ≡ map (λ t. t.task_id) tasks) × Distinct (keys nodes)
    → IsPlaced nodes (keys nodes) topo × (length topo ≡ length nodes)
    → IsBuilt tasks g
made-IsBuilt tasks nodes topo g same those checked (listed, distinct) (placed, complete) =
    subst (IsBuilt tasks) same (record {
      given = listed;
      entries = those;
      keyed = refl;
      apart = distinct;
      has_deps = check_all-HasDeps nodes nodes checked;
      placed = placed;
      complete = complete ∙ (length-keys nodes ∙ (ap length listed ∙ length-ids tasks));
      unbound = refl;
    })

-- A graph is built only from tasks with distinct ids whose dependencies are other tasks of the
-- list. Its nodes are the tasks that were given, each under its id and with all its fields, in
-- their order; its topological order names as many tasks as were given, each once, each behind all
-- those that it depends on.
pub from_tasks-IsBuilt :
    (tasks : List GeoTask) (g : TaskGraph) → from_tasks tasks ≡ return g → IsBuilt tasks g
unfolding from_tasks
from_tasks-IsBuilt tasks g e =
    let (nodes, collected, e1) = chain_returned (collect [] tasks) _ g e in
    let (_, checked, e2) = chain_returned (check_all nodes nodes) _ g e1 in
    let (topo, sorted, e3) = chain_returned (topological_order nodes (keys nodes)) _ g e2 in
    made-IsBuilt tasks nodes topo g (cc e3) (collect-entries [] tasks nodes collected) checked
      (collect-keys [] tasks nodes collected tt)
      (topological_order-IsPlaced nodes (keys nodes) topo
        (collect-keys [] tasks nodes collected tt).1 sorted)
