-- ===== src/Recipe/Checks.antt =====
-- recipe/model.py: `_graph_is_sound`, the other validators of Recipe, and its queries.
use geo_nexus_sdk.Base.{
  ℕ, zero, suc, ◌-◌, String, Bool, true, false, not, ◌&&◌, Option, none, some, List, [], ◌∷◌, ◌++◌,
  Dict, map, lookup, insert, get_or, has, keys, values, contains, length, keep, eqb, if◌then◌else◌,
  ◌==◌, is_none, leb_text, is_none,
}
use geo_nexus_sdk.Recipe.Address.{after, parse_recipe_address}
use geo_nexus_sdk.Recipe.Model.{
  ParamSpec, RecipeStep, RecipeOutput, Recipe, Problem, blank, bad_version, no_steps, bad_address,
  duplicate_step, duplicate_output, duplicate_param, depends_on_itself, depends_on_unknown, cycle,
  no_entrypoint, unknown_step, undeclared_output, reads_unknown, reads_undeclared, is_blank, when,
  partition, parts, param_problems, step_problems, output_problems,
}

-- `by_id`, and the ids that come twice.
unfoldable pub register_steps : Dict RecipeStep → List RecipeStep → Dict RecipeStep × List Problem
register_steps by_id [] = (by_id, [])
register_steps by_id (s ∷ steps) =
    let rest = register_steps (insert s.id s by_id) steps in
    (rest.0, when (has s.id by_id) (duplicate_step s.id) ++ rest.1)

unfoldable pub dep_problems : Dict RecipeStep → String → List String → List Problem
dep_problems by_id id [] = []
dep_problems by_id id (dep ∷ deps) =
    let rest = dep_problems by_id id deps in
    if dep == id
    then depends_on_itself id ∷ rest
    else if not (has dep by_id)
    then depends_on_unknown id dep ∷ rest
    else rest

unfoldable pub all_dep_problems : Dict RecipeStep → List RecipeStep → List Problem
unfolding dep_problems
all_dep_problems by_id [] = []
all_dep_problems by_id (s ∷ steps) =
    dep_problems by_id s.id s.depends_on ++ all_dep_problems by_id steps

abbrev pub step_indegrees : Dict RecipeStep → Dict ℕ
step_indegrees = map (λ e. (e.0, length e.1.depends_on))

-- `for other in by_id.values()`: a number that is 0 is not lowered.
unfoldable pub sweep_steps : String → List RecipeStep → Dict ℕ → List String → Dict ℕ × List String
sweep_steps id [] indegree ready = (indegree, ready)
sweep_steps id (other ∷ others) indegree ready =
    let n = get_or other.id 0 indegree in
    let hit = contains id other.depends_on in
    sweep_steps id others (if hit then insert other.id (n - 1) indegree else indegree)
      (if hit && eqb n 1 then ready ++ other.id ∷ [] else ready)

-- `while ready`. A step enters `ready` at most once, so there are no more rounds than steps.
unfoldable pub kahn_steps : ℕ → List RecipeStep → Dict ℕ → List String → List String → List String
unfolding sweep_steps
kahn_steps zero others indegree ready out = out
kahn_steps (suc fuel) others indegree [] out = out
kahn_steps (suc fuel) others indegree (id ∷ ready) out =
    let next = sweep_steps id others indegree ready in
    kahn_steps fuel others next.0 next.1 (out ++ id ∷ [])

unfoldable pub step_order : Dict RecipeStep → List String
unfolding kahn_steps
step_order by_id =
    let indegree = step_indegrees by_id in
    kahn_steps (length by_id) (values by_id) indegree
      (keep (λ id. eqb (get_or id 0 indegree) 0) (keys by_id)) []

-- A text is put among sorted ones, unless it is there.
unfoldable pub insert_text : String → List String → List String
insert_text t [] = t ∷ []
insert_text t (u ∷ us) =
    let rest = insert_text t us in
    if t == u then u ∷ us else if leb_text t u then t ∷ u ∷ us else u ∷ rest

-- `sorted` of a set: each text once.
unfoldable pub sort_texts : List String → List String
unfolding insert_text
sort_texts [] = []
sort_texts (t ∷ ts) = insert_text t (sort_texts ts)

unfoldable pub cycle_problems : Dict RecipeStep → List Problem
unfolding step_order sort_texts
cycle_problems by_id =
    let order = step_order by_id in
    when (not (eqb (length order) (length by_id)))
      (cycle (sort_texts (keep (λ id. not (contains id order)) (keys by_id))))

unfoldable pub entry_problems : Option String → Dict RecipeStep → List Problem
entry_problems none by_id = []
entry_problems (some id) by_id = when (not (has id by_id)) (no_entrypoint id)

-- The deliverables; `seen` holds their names so far.
unfoldable pub source_problems : Dict RecipeStep → RecipeOutput → List Problem
unfolding parts
source_problems by_id o =
    let from_step = (parts o).0 in
    let output = (parts o).1 in
    elim (lookup from_step by_id) [
      | none ↦ unknown_step o.name from_step ∷ []
      | some s ↦ elim s.outputs [
        | [] ↦ []
        | e ∷ es ↦ when (not (has output (e ∷ es))) (undeclared_output o.name from_step output)
      ]
    ]

unfoldable pub deliverable_problems :
    Dict RecipeStep → List String → List RecipeOutput → List Problem
unfolding source_problems
deliverable_problems by_id seen [] = []
deliverable_problems by_id seen (o ∷ outputs) =
    when (contains o.name seen) (duplicate_output o.name)
    ++ (source_problems by_id o ++ deliverable_problems by_id (o.name ∷ seen) outputs)

-- `ref[len("step://"):].partition("/")`, if the reference begins so.
unfoldable pub step_ref : String → Option (String × String)
unfolding after partition
step_ref ref = elim (after "step://" ref) [ none ↦ none | some text ↦ some (partition 47 text) ]

unfoldable pub input_problem : Dict RecipeStep → String → String × String → List Problem
unfolding step_ref
input_problem by_id id (name, ref) = elim (step_ref ref) [
  | none ↦ []
  | some (target, output) ↦ elim (lookup target by_id) [
    | none ↦ reads_unknown id name target ∷ []
    | some s ↦ elim s.outputs [
      | [] ↦ []
      | e ∷ es ↦
          when (not (output == "") && not (has output (e ∷ es)))
            (reads_undeclared id name target output)
    ]
  ]
]

unfoldable pub input_problems : Dict RecipeStep → String → Dict String → List Problem
unfolding input_problem
input_problems by_id id [] = []
input_problems by_id id (e ∷ inputs) = input_problem by_id id e ++ input_problems by_id id inputs

unfoldable pub all_input_problems : Dict RecipeStep → List RecipeStep → List Problem
unfolding input_problems
all_input_problems by_id [] = []
all_input_problems by_id (s ∷ steps) =
    input_problems by_id s.id s.inputs ++ all_input_problems by_id steps

abbrev pub is_empty_list : List RecipeStep → Bool
is_empty_list [] = true
is_empty_list (s ∷ steps) = false

-- `_graph_is_sound`
unfoldable pub graph_problems : Recipe → List Problem
unfolding register_steps all_dep_problems cycle_problems entry_problems deliverable_problems
    all_input_problems
graph_problems r =
    let registered = register_steps [] r.steps in
    let by_id = registered.0 in
    when (is_empty_list r.steps) no_steps
    ++ (registered.1
        ++ (all_dep_problems by_id r.steps
            ++ (cycle_problems by_id
                ++ (entry_problems r.entrypoint by_id
                    ++ (deliverable_problems by_id [] r.outputs
                        ++ all_input_problems by_id r.steps)))))

-- `_unique_params`
unfoldable pub name_problems : List String → List ParamSpec → List Problem
unfolding is_blank
name_problems seen [] = []
name_problems seen (p ∷ params) =
    when (is_blank p.name) blank
    ++ (when (contains p.name seen) (duplicate_param p.name)
        ++ name_problems (p.name ∷ seen) params)

unfoldable pub collect_problems : {A : Type 0} → (A → List Problem) → List A → List Problem
collect_problems check [] = []
collect_problems check (x ∷ xs) = check x ++ collect_problems check xs

-- What Recipe.model_validate finds in the fields, and in the graph if there is nothing in the fields.
unfoldable pub recipe_problems : Recipe → List Problem
unfolding parse_recipe_address param_problems step_problems output_problems name_problems
    collect_problems partition graph_problems
recipe_problems r =
    let fields =
      when (not ((partition 46 r.recipe_version).0 == "1")) bad_version
      ++ (when (is_none (parse_recipe_address r.id)) bad_address
          ++ (collect_problems param_problems r.params
              ++ (name_problems [] r.params
                  ++ (collect_problems step_problems r.steps
                      ++ collect_problems output_problems r.outputs)))) in
    elim fields [ [] ↦ graph_problems r | p ∷ ps ↦ p ∷ ps ]
