-- ===== src/Recipe/Built.antt =====
-- recipe/model.py and geotask/graph.py: a graph of tasks takes the tasks of a recipe that has no problems.
use geo_nexus_sdk.Base.{
  insert-new, suc, String, Bool, true, false, not, none, some, List, [], ◌∷◌, ◌++◌, Dict, map,
  lookup, insert, get_or, has, keys, values, contains, length, keep, eqb, if◌then◌else◌, ◌==◌, ◌≡◌,
  refl, sym, ap, subst, ◌∙◌, arith, return, inl, inr, eq_iff, Distinct, In, All-In, contains-keys,
  keys-insert,
}
use mathlib.Core.List.{append_assoc, append-nil}
use geo_nexus_sdk.Geotask.Model.{GeoTask}
use geo_nexus_sdk.Geotask.Graph.{
  TaskGraph, from_tasks, collect, check_deps, check_all, kahn, indegrees, topological_order,
}
use geo_nexus_sdk.Geotask.Graph.Topo.Order.{collect-keys}
use geo_nexus_sdk.Geotask.Graph.Topo.Order.{task_entry}
use geo_nexus_sdk.Recipe.Model.{RecipeStep, Recipe, Problem, when, duplicate_step, no_steps}
use geo_nexus_sdk.Recipe.Checks.{
  register_steps, dep_problems, all_dep_problems, step_indegrees, kahn_steps, step_order,
  cycle_problems, graph_problems, is_empty_list,
}
use geo_nexus_sdk.Recipe.Renamed.{
  Renamed, map-append, length-renamed, contains-renamed, kahn-renamed, keep-renamed, step_entry,
  renamed,
}

-- A list of problems that is empty has empty parts.
pub no_more : {A : Type 0} (xs ys : List A) → xs ++ ys ≡ [] → (xs ≡ []) × (ys ≡ [])
no_more [] ys h = (refl, h)
no_more (x ∷ xs) ys h = cc

pub when-false : (b : Bool) (p : Problem) → when b p ≡ [] → b ≡ false
when-false true p h = cc
when-false false p h = refl

In-contains :
    (t : GeoTask) (ts : List GeoTask)
    → In t ts
    → contains t.task_id (map (λ u. u.task_id) ts) ≡ true
In-contains t [] m = absurd m
In-contains t (u ∷ ts) (inl same) =
    ground (arith, ap (λ (v : GeoTask). v.task_id) same, eq_iff u.task_id t.task_id)
In-contains t (u ∷ ts) (inr later) = ground (arith, In-contains t ts later)

lookup_own :
    (t : GeoTask) (ts : List GeoTask)
    → In t ts
    → Distinct (map (λ u. u.task_id) ts)
    → lookup t.task_id (map task_entry ts) ≡ some t
unfolding lookup
lookup_own t [] m d = absurd m
lookup_own t (u ∷ ts) (inl same) d =
    ground (arith, ap (λ (v : GeoTask). v.task_id) same, eq_iff u.task_id t.task_id, same)
lookup_own t (u ∷ ts) (inr later) d =
    ground
      (arith, lookup_own t ts later d.1, In-contains t ts later, eq_iff u.task_id t.task_id, d.0)

length-keys : {V : Type 0} (d : Dict V) → length (keys d) ≡ length d
length-keys [] = refl
length-keys (e ∷ d) = ap suc (length-keys d)

values-entries : (ss : List RecipeStep) → values (map step_entry ss) ≡ ss
values-entries [] = refl
values-entries (s ∷ ss) = ap (λ r. s ∷ r) (values-entries ss)

keys-entries : (ts : List GeoTask) → keys (map task_entry ts) ≡ map (λ t. t.task_id) ts
keys-entries [] = refl
keys-entries (t ∷ ts) = ap (λ r. t.task_id ∷ r) (keys-entries ts)

accepted : {A : Type 0} (b : Bool) (x y : A) → b ≡ true → (if b then x else y) ≡ x
accepted true x y h = refl
accepted false x y h = cc

complete : (b : Bool) (p : Problem) → when (not b) p ≡ [] → b ≡ true
complete true p h = refl
complete false p h = cc

module _ (f : String → String) (apart : (a b : String) → (f a == f b) ≡ (a == b)) where
  has-renamed :
      (k : String) (by_id : Dict RecipeStep) (nodes : Dict GeoTask)
      → keys nodes ≡ map f (keys by_id)
      → has (f k) nodes ≡ has k by_id
  has-renamed k by_id nodes same =
      sym (contains-keys (f k) nodes)
      ∙ (ap (contains (f k)) same
          ∙ (contains-renamed f apart k (keys by_id) ∙ contains-keys k by_id))

  grown-keys :
      (by_id : Dict RecipeStep) (nodes : Dict GeoTask) (s : RecipeStep) (t : GeoTask)
      → t.task_id ≡ f s.id
      → keys nodes ≡ map f (keys by_id)
      → has s.id by_id ≡ false
      → has t.task_id nodes ≡ false
      → keys (insert t.task_id t nodes) ≡ map f (keys (insert s.id s by_id))
  grown-keys by_id nodes s t named same new fresh =
      let appended : keys (insert s.id s by_id) ≡ keys by_id ++ s.id ∷ [] =
        keys-insert s.id s by_id ∙ rw new refl in
      let added : keys (insert t.task_id t nodes) ≡ keys nodes ++ t.task_id ∷ [] =
        keys-insert t.task_id t nodes ∙ rw fresh refl in
      added
      ∙ ((λ i. same i ++ named i ∷ [])
          ∙ (sym (map-append f (keys by_id) (s.id ∷ [])) ∙ ap (map f) (sym appended)))

  collect-Renamed :
      (by_id : Dict RecipeStep) (nodes : Dict GeoTask) (ss : List RecipeStep) (ts : List GeoTask)
      → Renamed f ss ts
      → keys nodes ≡ map f (keys by_id)
      → (register_steps by_id ss).1 ≡ []
      → (collect nodes ts ≡ return (nodes ++ map task_entry ts))
        × ((register_steps by_id ss).0 ≡ by_id ++ map step_entry ss)
  unfolding collect register_steps
  collect-Renamed by_id nodes [] [] r same none_twice =
      (ap return (sym (append-nil nodes)), sym (append-nil by_id))
  collect-Renamed by_id nodes (s ∷ ss) [] r same none_twice = absurd r
  collect-Renamed by_id nodes [] (t ∷ ts) r same none_twice = absurd r
  collect-Renamed by_id nodes (s ∷ ss) (t ∷ ts) (named, deps, r) same none_twice =
      let (once, rest) = no_more (when (has s.id by_id) (duplicate_step s.id)) _ none_twice in
      let new = when-false (has s.id by_id) (duplicate_step s.id) once in
      let fresh : has t.task_id nodes ≡ false =
        ap (λ k. has k nodes) named ∙ (has-renamed s.id by_id nodes same ∙ new) in
      let grown_steps = insert-new s.id s by_id (contains-keys s.id by_id ∙ new) in
      let grown_nodes = insert-new t.task_id t nodes (contains-keys t.task_id nodes ∙ fresh) in
      let (collected, listed) =
        collect-Renamed (insert s.id s by_id) (insert t.task_id t nodes) ss ts r
          (grown-keys by_id nodes s t named same new fresh) rest in
      (
        rw fresh (
            collected ∙ (λ i. return (
              (ap (λ d. d ++ map task_entry ts) grown_nodes
                  ∙ append_assoc nodes (task_entry t ∷ []) (map task_entry ts))
                i))),
        listed
            ∙ (ap (λ d. d ++ map step_entry ss) grown_steps
                ∙ append_assoc by_id (step_entry s ∷ []) (map step_entry ss)),
      )

  check_deps-renamed :
      (by_id : Dict RecipeStep) (nodes : Dict GeoTask)
      → keys nodes ≡ map f (keys by_id)
      → (id : String) (deps : List String) → dep_problems by_id id deps ≡ []
      → check_deps nodes (f id) (map f deps) ≡ return tt
  unfolding check_deps dep_problems
  check_deps-renamed by_id nodes same id [] fine = refl
  check_deps-renamed by_id nodes same id (dep ∷ deps) fine = ground (
    arith,
    apart dep id,
    has-renamed dep by_id nodes same,
    check_deps-renamed by_id nodes same id deps,
  )

  check_all-Renamed :
      (by_id : Dict RecipeStep) (nodes : Dict GeoTask)
      → keys nodes ≡ map f (keys by_id)
      → (ss : List RecipeStep) (ts : List GeoTask) → Renamed f ss ts
      → all_dep_problems by_id ss ≡ []
      → check_all nodes (map task_entry ts) ≡ return tt
  unfolding check_all all_dep_problems
  check_all-Renamed by_id nodes same [] [] r fine = refl
  check_all-Renamed by_id nodes same (s ∷ ss) [] r fine = absurd r
  check_all-Renamed by_id nodes same [] (t ∷ ts) r fine = absurd r
  check_all-Renamed by_id nodes same (s ∷ ss) (t ∷ ts) (named, deps, r) fine =
      let (here, rest) = no_more (dep_problems by_id s.id s.depends_on) _ fine in
      let checked : check_deps nodes t.task_id t.depends_on ≡ return tt =
        (λ i. check_deps nodes (named i) (deps i))
        ∙ check_deps-renamed by_id nodes same s.id s.depends_on here in
      rw checked (check_all-Renamed by_id nodes same ss ts r rest)

  indegrees-renamed :
      (ss : List RecipeStep) (ts : List GeoTask)
      → Renamed f ss ts
      → indegrees (map task_entry ts) ≡ renamed f (step_indegrees (map step_entry ss))
  indegrees-renamed [] [] r = refl
  indegrees-renamed (s ∷ ss) [] r = absurd r
  indegrees-renamed [] (t ∷ ts) r = absurd r
  indegrees-renamed (s ∷ ss) (t ∷ ts) (named, deps, r) = λ i.
      (named i, (ap length deps ∙ length-renamed f s.depends_on) i) ∷ indegrees-renamed ss ts r i

  keys-Renamed :
      (ss : List RecipeStep) (ts : List GeoTask)
      → Renamed f ss ts
      → keys (map task_entry ts) ≡ map f (keys (map step_entry ss))
  keys-Renamed [] [] r = refl
  keys-Renamed (s ∷ ss) [] r = absurd r
  keys-Renamed [] (t ∷ ts) r = absurd r
  keys-Renamed (s ∷ ss) (t ∷ ts) (named, deps, r) = λ i. named i ∷ keys-Renamed ss ts r i

  same_length :
      (ss : List RecipeStep) (ts : List GeoTask)
      → Renamed f ss ts
      → length (keys (map task_entry ts)) ≡ length (map step_entry ss)
  same_length ss ts r =
      ap length (keys-Renamed ss ts r)
      ∙ (length-renamed f (keys (map step_entry ss)) ∙ length-keys (map step_entry ss))

  -- The loop over the tasks finds the order of the steps.
  order-Renamed :
      (ss : List RecipeStep) (ts : List GeoTask)
      → Renamed f ss ts
      → Distinct (keys (map task_entry ts))
      → kahn
          (length (keys (map task_entry ts)))
          (map task_entry ts)
          (keys (map task_entry ts))
          (indegrees (map task_entry ts))
          (keep
            (λ id. eqb (get_or id 0 (indegrees (map task_entry ts))) 0)
            (keys (map task_entry ts)))
          []
        ≡ map f (step_order (map step_entry ss))
  unfolding step_order
  order-Renamed ss ts r distinct =
      let nodes = map task_entry ts in
      let by_id = map step_entry ss in
      let d = step_indegrees by_id in
      let ready = keep (λ id. eqb (get_or id 0 d) 0) (keys by_id) in
      let lowest : keep (λ id. eqb (get_or id 0 (indegrees nodes)) 0) (keys nodes) ≡ map f ready =
        (λ i.
          keep (λ id. eqb (get_or id 0 (indegrees-renamed ss ts r i)) 0) (keys-Renamed ss ts r i))
        ∙ keep-renamed f apart d (keys by_id) in
      (λ i.
        kahn (same_length ss ts r i) nodes (keys-entries ts i) (indegrees-renamed ss ts r i)
          (lowest i) [])
      ∙ (kahn-renamed f apart nodes ss ts r
            (All-In (λ (t : GeoTask). lookup t.task_id nodes ≡ some t) ts
              λ t m. lookup_own t ts m (subst Distinct (keys-entries ts) distinct))
            (length by_id) d ready []
          ∙ (λ i. map f (kahn_steps (length by_id) (sym (values-entries ss) i) d ready [])))

  ordered :
      (ss : List RecipeStep) (ts : List GeoTask)
      → Renamed f ss ts
      → Distinct (keys (map task_entry ts))
      → cycle_problems (map step_entry ss) ≡ []
      → topological_order (map task_entry ts) (keys (map task_entry ts))
        ≡ return (map f (step_order (map step_entry ss)))
  unfolding topological_order cycle_problems
  ordered ss ts r distinct acyclic =
      let nodes = map task_entry ts in
      let order = step_order (map step_entry ss) in
      let found = order-Renamed ss ts r distinct in
      let whole : eqb (length order) (length (map step_entry ss)) ≡ true = complete _ _ acyclic in
      let counts : length nodes ≡ length (map step_entry ss) =
        sym (length-keys nodes) ∙ same_length ss ts r in
      let test : eqb (length (map f order)) (length nodes) ≡ true =
        ground (arith, whole, counts, length-renamed f order) in
      accepted _ _ _ (ap (λ out. eqb (length out) (length nodes)) found ∙ test)
      ∙ (λ i. return (found i))

  -- A recipe whose graph has no problems is taken by TaskGraph, and in the same order.
  pub built :
      (r : Recipe) (ts : List GeoTask)
      → graph_problems r ≡ []
      → Renamed f r.steps ts
      → (g : TaskGraph) × (from_tasks ts ≡ return g)
        × (g.topo ≡ map f (step_order (map step_entry r.steps)))
  unfolding from_tasks graph_problems
  built r ts fine named =
      let nodes = map task_entry ts in
      let (_, more) = no_more (when (is_empty_list r.steps) no_steps) _ fine in
      let (once, more) = no_more (register_steps [] r.steps).1 _ more in
      let (known, more) = no_more (all_dep_problems (register_steps [] r.steps).0 r.steps) _ more in
      let (acyclic, _) = no_more (cycle_problems (register_steps [] r.steps).0) _ more in
      let (collected, listed) = collect-Renamed [] [] r.steps ts named refl once in
      let (_, distinct) = collect-keys [] ts nodes collected tt in
      let checked =
        check_all-Renamed (map step_entry r.steps) nodes (keys-Renamed r.steps ts named) r.steps ts
          named (subst (λ d. all_dep_problems d r.steps ≡ []) listed known) in
      let sorted =
        ordered r.steps ts named distinct (subst (λ d. cycle_problems d ≡ []) listed acyclic) in
      (
        record {
          nodes = nodes;
          order = keys nodes;
          errors = [];
          store = none;
          topo = map f (step_order (map step_entry r.steps));
        },
        rw (from_tasks, collected, checked, sorted) refl,
        refl,
      )
