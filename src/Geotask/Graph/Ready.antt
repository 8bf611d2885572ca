-- ===== src/Geotask/Graph/Ready.antt =====
-- geotask/graph.py, `ready`: which tasks may start.
use geo_nexus_sdk.Base.{
  ◌≡◌, refl, sym, ap, ◌∙◌, true, Bool, ◌&&◌, inl, inr, some, List, [], ◌∷◌, String, Option-cases,
  Dict, lookup, has, is_some, contains-keys, arith, return, Bool-cases, ◌==◌, eq_refl, contains,
  keep, every,
}
use geo_nexus_sdk.Geotask.Model.{GeoTask}
use geo_nexus_sdk.Geotask.Machine.{in_states}
use geo_nexus_sdk.Geotask.Graph.{
  TaskGraph, node, node_is, ready, ready_from, all_satisfied, runnable_states,
}
use geo_nexus_sdk.Geotask.Graph.Effects.{node_is-some, node-unbound}
use geo_nexus_sdk.Geotask.Graph.Topo.Order.{IsBuilt, HasDeps}
use geo_nexus_sdk.Geotask.Graph.Cascade.Step.{IsClosed, is_satisfied}

-- A task that waits and whose dependencies have all succeeded or been skipped.
abbrev pub can_start : TaskGraph → GeoTask → Bool
can_start g t = in_states t.state runnable_states && every (node_is g is_satisfied) t.depends_on

-- The dependencies of every listed task are listed.
abbrev pub DepsListed : TaskGraph → Type 0
DepsListed g =
    (id d : String) (t : GeoTask)
    → contains id g.order ≡ true
    → node g id ≡ some t
    → contains d t.depends_on ≡ true
    → contains d g.order ≡ true

all_satisfied-cons :
    (g : TaskGraph) (d : String) (ds : List String) (t : GeoTask)
    → node g d ≡ some t
    → all_satisfied g ds ≡ return (every (node_is g is_satisfied) ds)
    → all_satisfied g (d ∷ ds) ≡ return (every (node_is g is_satisfied) (d ∷ ds))
unfolding all_satisfied
all_satisfied-cons g d ds t found rest = elim (Bool-cases (is_satisfied t)) [
  | inl done ↦ rw (node_is-some g is_satisfied d found, found, all_satisfied) (rw done rest)
  | inr open_ ↦ rw (node_is-some g is_satisfied d found, found, all_satisfied) (rw open_ refl)
]

all_satisfied_lem :
    (g : TaskGraph) (ds : List String)
    → ((d : String) → contains d ds ≡ true → (t : GeoTask) × (node g d ≡ some t))
    → all_satisfied g ds ≡ return (every (node_is g is_satisfied) ds)
unfolding all_satisfied
all_satisfied_lem g [] known = refl
all_satisfied_lem g (d ∷ ds) known =
    let (t, found) = known d (rw (eq_refl d) refl) in
    all_satisfied-cons g d ds t found (all_satisfied_lem g ds (λ j m. known j (ground arith)))

ready_from-cons :
    (g : TaskGraph) (id : String) (ids : List String) (t : GeoTask)
    → node g id ≡ some t
    → all_satisfied g t.depends_on ≡ return (every (node_is g is_satisfied) t.depends_on)
    → ready_from g ids ≡ return (keep (node_is g (can_start g)) ids)
    → ready_from g (id ∷ ids) ≡ return (keep (node_is g (can_start g)) (id ∷ ids))
unfolding ready_from
ready_from-cons g id ids t found all rest = elim (Bool-cases (in_states t.state runnable_states)) [
  | inl waits ↦
      rw (node_is-some g (can_start g) id found, found, ready_from) (rw (waits, all, rest) refl)
  | inr busy ↦ rw (node_is-some g (can_start g) id found, found, ready_from) (rw busy rest)
]

ready_from_lem :
    (g : TaskGraph) (ids : List String)
    → IsClosed g
    → DepsListed g
    → ((id : String) → contains id ids ≡ true → contains id g.order ≡ true)
    → ready_from g ids ≡ return (keep (node_is g (can_start g)) ids)
unfolding ready_from
ready_from_lem g [] closed deps within = refl
ready_from_lem g (id ∷ ids) closed deps within =
    let here = within id (rw (eq_refl id) refl) in
    let (t, found) = closed id here in
    ready_from-cons g id ids t found
      (all_satisfied_lem g t.depends_on (λ d m. closed d (deps id d t here found m)))
      (ready_from_lem g ids closed deps (λ j m. within j (ground arith)))

-- In a graph where every listed task and every dependency of one has a node, `ready` returns, and
-- names the listed tasks, in order, that wait and whose dependencies have all succeeded or been
-- skipped, and no other.
pub ready_lem :
    (g : TaskGraph)
    → IsClosed g
    → DepsListed g
    → ready g ≡ return (keep (node_is g (can_start g)) g.order)
unfolding ready
ready_lem g closed deps = ready_from_lem g g.order closed deps (λ id m. m)

HasDeps-lookup :
    (nodes rest : Dict GeoTask) (id d : String) (t : GeoTask)
    → HasDeps nodes rest
    → lookup id rest ≡ some t
    → contains d t.depends_on ≡ true
    → has d nodes ≡ true
unfolding lookup
HasDeps-lookup nodes [] id d t h e m = cc
HasDeps-lookup nodes ((j, u) ∷ rest) id d t h e m = elim (Bool-cases (j == id)) [
  | inl same ↦
      let here : u ≡ t = ground arith in
      (h.0 d (ap (λ (v : GeoTask). contains d v.depends_on) here ∙ m)).0
  | inr other ↦ HasDeps-lookup nodes rest id d t h.1 (ground arith) m
]

pub IsBuilt-IsClosed :
    (tasks : List GeoTask) (g : TaskGraph) → IsBuilt tasks g → IsClosed g × DepsListed g
unfolding node
IsBuilt-IsClosed tasks g built = (
  λ id listed. elim (Option-cases (lookup id g.nodes)) [
    | inl absent ↦
        cc (
          ap (contains id) built.keyed,
          contains-keys id g.nodes,
          ap (is_some {A = GeoTask}) absent,
        )
    | inr (t, found) ↦ (t, node-unbound g id built.unbound ∙ found)
  ],
  λ id d t listed found m.
      ap (contains d) built.keyed
      ∙ (contains-keys d g.nodes
          ∙ HasDeps-lookup g.nodes g.nodes id d t built.has_deps
              (sym (node-unbound g id built.unbound) ∙ found) m),
)
