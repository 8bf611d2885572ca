-- ===== src/Geotask/Graph/Cascade/Step.antt =====
-- geotask/graph.py, `_cascade`: one turn of its loop.
use geo_nexus_sdk.Base.{
  ℕ, ◌≡◌, refl, sym, ap, ◌∙◌, subst, true, false, Bool, inl, inr, some, List, [], String, arith,
  return, Outcome, Bool-cases, ◌==◌, eq_iff, contains, keep, keep-same,
}
use geo_nexus_sdk.Geotask.Model.{GeoTask, TaskState, TaskError, failed}
use geo_nexus_sdk.Geotask.Machine.{Error, in_states, is_terminal, is_terminal_state}
use geo_nexus_sdk.Geotask.Graph.{
  TaskGraph, node, node_is, dependents_of, satisfied_states, fail_downstream, visit,
}
use geo_nexus_sdk.Geotask.Graph.Effects.{node_is-some, Follows, Follows-refl, Follows-trans, Sets}
use geo_nexus_sdk.Geotask.Graph.Marks.{fail_downstream-Moves}

abbrev pub is_satisfied : GeoTask → Bool
is_satisfied t = in_states t.state satisfied_states

-- Every listed task has a node.
abbrev pub IsClosed : TaskGraph → Type 0
IsClosed g = (id : String) → contains id g.order ≡ true → (t : GeoTask) × (node g id ≡ some t)

-- Every node of `g` is in `g'`, moved along the table, and none has become satisfied.
pub record Cascades (g g' : TaskGraph) : Type 0 where
  pub same_order : g'.order ≡ g.order
  pub follow :
      (j : String) (t : GeoTask)
      → node g j ≡ some t
      → (t' : GeoTask) × (node g' j ≡ some t')
        × Follows t t'
        × (is_satisfied t ≡ false → is_satisfied t' ≡ false)

pub Cascades-refl : (g : TaskGraph) → Cascades g g
Cascades-refl g = record { same_order = refl; follow = λ j t e. (t, e, Follows-refl t, λ h. h) }

pub Cascades-trans : {g g' g'' : TaskGraph} → Cascades g g' → Cascades g' g'' → Cascades g g''
Cascades-trans a b = record {
  same_order = b.same_order ∙ a.same_order;
  follow = λ j t e.
      let (t', e', f, k) = a.follow j t e in
      let (t'', e'', f', k') = b.follow j t' e' in (t'', e'', Follows-trans f f', λ h. k' (k h));
}

pub IsClosed-Cascades : {g g' : TaskGraph} → Cascades g g' → IsClosed g → IsClosed g'
IsClosed-Cascades c closed id listed =
    let (t, e) = closed id (rw (← c.same_order) listed) in
    let (t', e', _, _) = c.follow id t e in (t', e')

-- The edges do not change, so the dependents of a task are the same list.
pub dependents_of-Cascades :
    {g g' : TaskGraph} (id : String)
    → Cascades g g'
    → IsClosed g
    → dependents_of g' id ≡ dependents_of g id
unfolding dependents_of
dependents_of-Cascades {g} {g'} id c closed =
    let needs = λ (t : GeoTask). contains id t.depends_on in
    ap (keep (node_is g' needs)) c.same_order
    ∙ keep-same (node_is g' needs) (node_is g needs) g.order λ j listed.
      let (t, e) = closed j listed in
      let (t', e', f, _) = c.follow j t e in
      node_is-some g' needs j e' ∙ (ap (contains id) f.same_deps ∙ sym (node_is-some g needs j e))

-- One node that moves to a state that satisfies nobody.
pub Sets-Cascades :
    {g g' : TaskGraph} {id : String} {t new : GeoTask}
    → node g id ≡ some t
    → is_satisfied new ≡ false
    → Sets g id t new g'
    → Cascades g g'
Sets-Cascades {g} {g'} {id} {t} {new} found unsatisfied sets = record {
  same_order = sets.same_order;
  follow = λ j u e. elim (Bool-cases (id == j)) [
    | inl same ↦
        let k = (eq_iff id j).0 same in
        let task_same : t ≡ u = cc in
        (
          new,
          subst (λ i. node g' i ≡ some new) k sets.at,
          subst (λ v. Follows v new) task_same sets.follows,
          λ _. unsatisfied,
        )
    | inr other ↦ (u, sets.others j other ∙ e, Follows-refl u, λ h. h)
  ];
}

-- What a visit answers and does.
pub record Visit (g : TaskGraph) (id : String) (t : GeoTask)
    (out : Outcome Error (List String) × TaskGraph) : Type 0 where
  pub more : List String
  pub returned : out.0 ≡ return more
  pub cascades : Cascades g out.1
  pub others : (j : String) → (id == j) ≡ false → node out.1 j ≡ node g j
  pub new : GeoTask
  pub found : node out.1 id ≡ some new
  pub ended : is_terminal_state new.state ≡ true
  pub stops : is_satisfied t ≡ true → more ≡ []
  pub spreads : is_satisfied t ≡ false → more ≡ dependents_of out.1 id

pub satisfied-terminal :
    (s : TaskState) → in_states s satisfied_states ≡ true → is_terminal_state s ≡ true
unfolding in_states is_terminal_state
satisfied-terminal s h = ground arith

pub failed-unsatisfied : in_states failed satisfied_states ≡ false
unfolding in_states
failed-unsatisfied = refl

failed-terminal : is_terminal_state failed ≡ true
unfolding is_terminal_state
failed-terminal = refl

module _ (now : ℕ) (upstream : TaskError) (id : String) (g : TaskGraph) (t : GeoTask)
    (there : node g id ≡ some t) where
  pub visit-Visit : Visit g id t (visit now upstream id g)
  unfolding visit is_terminal
  visit-Visit = elim (Bool-cases (is_satisfied t)) [
    | inl fits ↦
        rw (there, visit)
          (rw fits (record {
            more = [];
            returned = refl;
            cascades = Cascades-refl g;
            others = λ j _. refl;
            new = t;
            found = there;
            ended = satisfied-terminal t.state fits;
            stops = λ _. refl;
            spreads = λ h. cc;
          }))
    | inr open_ ↦ elim (Bool-cases (is_terminal_state t.state)) [
      | inl over ↦
          rw (there, visit)
            (rw (open_, over)
              (record {
                more = dependents_of g id;
                returned = refl;
                cascades = Cascades-refl g;
                others = λ j _. refl;
                new = t;
                found = there;
                ended = over;
                stops = λ h. cc;
                spreads = λ _. refl;
              }))
      | inr alive ↦
          let m = fail_downstream-Moves now id upstream g t there alive in
          let g' = (fail_downstream now upstream id g).1 in
          rw (there, visit)
            (rw (open_, alive, m.returned)
              (record {
                more = dependents_of g' id;
                returned = refl;
                cascades =
                    Sets-Cascades there
                      (ap (λ s. in_states s satisfied_states) m.reached ∙ failed-unsatisfied)
                      m.sets;
                others = m.sets.others;
                new = m.new;
                found = m.sets.at;
                ended = ap is_terminal_state m.reached ∙ failed-terminal;
                stops = λ h. cc;
                spreads = λ _. refl;
              }))
    ]
  ]
