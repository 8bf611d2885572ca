-- ===== src/Geotask/Graph/Topo/Loop.antt =====
-- geotask/graph.py, `_topological_order`: the outer loop.
use geo_nexus_sdk.Base.{
  ℕ, suc, zero, ◌-◌, ◌≤◌, ◌≡◌, refl, ◌∙◌, subst, true, false, inl, inr, some, List, [], ◌∷◌, ◌++◌,
  String, if◌then◌else◌, arith, Bool-cases, eq_iff, contains, contains-append, Distinct, Dict,
  lookup, get_or,
}
use mathlib.Core.List.{append_assoc, append-nil}
use geo_nexus_sdk.Geotask.Model.{GeoTask}
use geo_nexus_sdk.Geotask.Graph.{sweep, kahn}
use geo_nexus_sdk.Geotask.Graph.Topo.Sweep.{
  remaining, remaining-le, remaining-lt, IsFresh, Swept, sweep-Swept,
}

-- Each task of the list stands behind all tasks that it depends on; `seen` are those before the list.
abbrev pub IsOrdered : Dict GeoTask → List String → List String → Type 0
IsOrdered nodes seen [] = Unit
IsOrdered nodes seen (id ∷ ids) =
    ((t : GeoTask) (d : String)
      → lookup id nodes ≡ some t
      → contains d t.depends_on ≡ true
      → contains d seen ≡ true)
    × IsOrdered nodes (seen ++ id ∷ []) ids

IsOrdered-snoc :
    (nodes : Dict GeoTask) (id : String) (seen ids : List String)
    → IsOrdered nodes seen ids
    → ((t : GeoTask) (d : String)
        → lookup id nodes ≡ some t
        → contains d t.depends_on ≡ true
        → contains d (seen ++ ids) ≡ true)
    → IsOrdered nodes seen (ids ++ id ∷ [])
IsOrdered-snoc nodes id seen [] o last = (λ t d e m. rw append-nil at (last t d e m), tt)
IsOrdered-snoc nodes id seen (j ∷ ids) o last = (
  o.0,
  IsOrdered-snoc nodes id (seen ++ j ∷ []) ids o.1
      (λ t d e m. rw (append_assoc seen (j ∷ []) ids) (last t d e m)),
)

Distinct-middle :
    (id : String) (xs ys : List String) → Distinct (xs ++ id ∷ ys) → contains id xs ≡ false
Distinct-middle id [] ys d = refl
Distinct-middle id (x ∷ xs) ys d =
    ground (
      arith,
      Distinct-middle id xs ys d.1,
      contains-append x xs (id ∷ ys),
      eq_iff id x,
      eq_iff x id,
    )

Distinct-left : (xs ys : List String) → Distinct (xs ++ ys) → Distinct xs
Distinct-left [] ys d = tt
Distinct-left (x ∷ xs) ys d = (ground (arith, contains-append x xs ys), Distinct-left xs ys d.1)

-- With nothing left to place, every dependency is placed.
placed_all :
    (d : String) (deps out : List String)
    → remaining deps out ≡ 0
    → contains d deps ≡ true
    → contains d out ≡ true
placed_all d [] out none_left named = cc
placed_all d (e ∷ deps) out none_left named = elim (Bool-cases (contains e out)) [
  | inl old ↦ ground (arith, placed_all d deps out, (eq_iff e d).0, old)
  | inr new ↦ ground (arith, new)
]

-- What holds each time round.
pub record Inv (nodes : Dict GeoTask) (order : List String) (indegree : Dict ℕ)
    (ready out : List String) : Type 0 where
  pub fresh : IsFresh out indegree ready
  pub ordered : IsOrdered nodes [] out
  pub counted :
      (j : String) (t : GeoTask)
      → contains j order ≡ true
      → lookup j nodes ≡ some t
      → remaining t.depends_on out ≤ get_or j 0 indegree
  pub queued : (j : String) → contains j ready ≡ true → contains j order ≡ true
  pub placed : (j : String) → contains j out ≡ true → contains j order ≡ true

-- The count falls by one where the number of missing dependencies falls by at least one.
lowered_enough :
    (id : String) (deps out : List String) (n n' : ℕ)
    → contains id out ≡ false
    → remaining deps out ≤ n
    → n' ≡ (if contains id deps then n - 1 else n)
    → remaining deps (out ++ id ∷ []) ≤ n'
lowered_enough id deps out n n' fresh enough e = elim (Bool-cases (contains id deps)) [
  | inl named ↦
      let at : n' ≡ n - 1 = e ∙ rw named in omega (arith, remaining-lt id deps out named fresh)
  | inr other ↦ let at : n' ≡ n = e ∙ rw other in omega (arith, remaining-le id deps out)
]

module _ (nodes : Dict GeoTask) (order : List String) (distinct : Distinct order)
    (indegree : Dict ℕ) (id : String) (ready out : List String)
    (i : Inv nodes order indegree (id ∷ ready) out) where
  regrouped : IsFresh (out ++ id ∷ []) indegree ready
  regrouped = record {
    apart = rw (append_assoc out (id ∷ []) ready) i.fresh.apart;
    counted = λ j m. i.fresh.counted j (rw (append_assoc out (id ∷ []) ready) at m);
  }

  swept : Swept nodes id (out ++ id ∷ []) order indegree ready (sweep nodes id order indegree ready)
  swept = sweep-Swept nodes id (out ++ id ∷ []) order indegree ready distinct regrouped

  id_listed : contains id order ≡ true
  id_listed = i.queued id (ground (arith, eq_iff id id))

  id_fresh : contains id out ≡ false
  id_fresh = Distinct-middle id out ready i.fresh.apart

  id_free : get_or id 0 indegree ≡ 0
  id_free = i.fresh.counted id (ground (arith, contains-append id out (id ∷ ready), eq_iff id id))

  -- Everything that the popped task depends on is placed already.
  id_after :
      (t : GeoTask) (d : String)
      → lookup id nodes ≡ some t
      → contains d t.depends_on ≡ true
      → contains d out ≡ true
  id_after t d e m =
      placed_all d t.depends_on out (omega (arith, i.counted id t id_listed e, id_free)) m

  step-Inv :
      Inv nodes order
        (sweep nodes id order indegree ready).0
        (sweep nodes id order indegree ready).1
        (out ++ id ∷ [])
  step-Inv = record {
    fresh = swept.fresh;
    ordered = IsOrdered-snoc nodes id [] out i.ordered id_after;
    counted = λ j t m e.
        lowered_enough id t.depends_on out (get_or j 0 indegree) _ id_fresh (i.counted j t m e)
          (swept.lowered j t m e);
    queued = λ j m. elim (swept.from j m) [ inl r ↦ i.queued j (ground arith) | inr o ↦ o ];
    placed = λ j m. elim (Bool-cases (contains j out)) [
      | inl old ↦ i.placed j old
      | inr new ↦
          subst (λ k. contains k order ≡ true)
            ((eq_iff id j).0 (ground (arith, contains-append j out (id ∷ [])))) id_listed
    ];
  }

-- What is placed in the end.
pub record IsPlaced (nodes : Dict GeoTask) (order out : List String) : Type 0 where
  pub apart : Distinct out
  pub ordered : IsOrdered nodes [] out
  pub listed : (j : String) → contains j out ≡ true → contains j order ≡ true

pub kahn-IsPlaced :
    (fuel : ℕ) (nodes : Dict GeoTask) (order : List String) (indegree : Dict ℕ)
    (ready out : List String)
    → Distinct order
    → Inv nodes order indegree ready out
    → IsPlaced nodes order (kahn fuel nodes order indegree ready out)
unfolding kahn
kahn-IsPlaced zero nodes order indegree ready out distinct i = record {
  apart = Distinct-left out ready i.fresh.apart;
  ordered = i.ordered;
  listed = i.placed;
}
kahn-IsPlaced (suc fuel) nodes order indegree [] out distinct i = record {
  apart = Distinct-left out [] i.fresh.apart;
  ordered = i.ordered;
  listed = i.placed;
}
kahn-IsPlaced (suc fuel) nodes order indegree (id ∷ ready) out distinct i =
    kahn-IsPlaced fuel nodes order _ _ (out ++ id ∷ []) distinct
      (step-Inv nodes order distinct indegree id ready out i)
