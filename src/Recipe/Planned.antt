-- ===== src/Recipe/Planned.antt =====
-- recipe/materialize.py: what a run of a recipe without problems is.
use Prim.Native.String.{◌++◌ as text_append}
use text.Mathlib.TextLemmas.{append_cancel_left}
use geo_nexus_sdk.Base.{
  Real, String, Bool, true, false, not, ◌||◌, Option, some, List, [], ◌∷◌, Dict, map, contains,
  ◌==◌, Json, fields, Outcome, return, raise, ℤ, ◌≡◌, refl, ap, arith, Option-cases, inl, inr,
  eq_iff, All,
}
use geo_nexus_sdk.Geotask.Model.{GeoTask, TaskKind}
use geo_nexus_sdk.Geotask.Graph.Topo.Order.{IsBuilt, from_tasks-IsBuilt}
use geo_nexus_sdk.Recipe.Model.{
  RecipeStep, Recipe, ParamSpec, Problem, step_kinds, step_problems, field_problems,
  composite_problems, is_blank, when, blank, bad_version, bad_address, param_problems,
}
use geo_nexus_sdk.Recipe.Checks.{
  step_order, graph_problems, recipe_problems, collect_problems, name_problems, name_problems,
}
use geo_nexus_sdk.Recipe.Renamed.{Renamed, step_entry}
use geo_nexus_sdk.Recipe.Built.{built, no_more}
use geo_nexus_sdk.Recipe.Params.{Fault, no_run_id, resolve_params}
use geo_nexus_sdk.Recipe.Resources.{resources_of}
use geo_nexus_sdk.Recipe.Templates.{substitute_fields}
use geo_nexus_sdk.Recipe.Materialize.{
  Setup, RunPlan, task_name, task_kind, build_inputs, build_task, build_tasks, plan_of,
  check_templates, materialize,
}
use geo_nexus_sdk.Recipe.Endings.{Ends, AnyOf, chain-Ends, if-Ends, resolve_params-Ends}
use geo_nexus_sdk.Recipe.Faults.{
  substitute_fields-Ends, build_inputs-Ends, resources_of-Ends, check_templates-Ends,
}

pub task_name-apart : (run a b : String) → (task_name run a == task_name run b) ≡ (a == b)
task_name-apart run a b = ground (
  arith,
  eq_iff (task_name run a) (task_name run b),
  eq_iff a b,
  ap (task_name run) {x = a} {y = b},
  append_cancel_left run (text_append ":" a) (text_append ":" b),
  append_cancel_left ":" a b,
)

-- A step of a kind that is known.
abbrev pub IsKnown : RecipeStep → Type 0
IsKnown s = contains s.kind step_kinds ≡ true

pub task_kind-known : (s : RecipeStep) → IsKnown s → (k : TaskKind) × (task_kind s.kind ≡ some k)
task_kind-known s known = elim (Option-cases (task_kind s.kind)) [
  | inr (k, e) ↦ (k, e)
  | inl e ↦ absurd (
      ground (
        arith,
        known,
        e,
        eq_iff "skill" s.kind,
        eq_iff s.kind "skill",
        eq_iff "model" s.kind,
        eq_iff s.kind "model",
        eq_iff "batch" s.kind,
        eq_iff s.kind "batch",
        eq_iff "composite" s.kind,
        eq_iff s.kind "composite",
      ))
]

when-not : (b : Bool) (p : Problem) → when (not b) p ≡ [] → b ≡ true
when-not true p h = refl
when-not false p h = cc

pub first_empty :
    (ps qs : List Problem)
    → (elim ps as (λ _. List Problem) [ [] ↦ qs | p ∷ rest ↦ p ∷ rest ]) ≡ []
    → (ps ≡ []) × (qs ≡ [])
first_empty [] qs h = (refl, h)
first_empty (p ∷ rest) qs h = cc

steps-IsKnown :
    (steps : List RecipeStep) → collect_problems step_problems steps ≡ [] → All IsKnown steps
unfolding collect_problems step_problems field_problems
steps-IsKnown [] fine = tt
steps-IsKnown (s ∷ steps) fine =
    let (own, rest) = no_more (step_problems s) _ fine in
    let (fields_fine, _) = first_empty (field_problems s) (composite_problems s) own in
    let (_, more) = no_more (when (is_blank s.id || is_blank s.uses) blank) _ fields_fine in
    let (kind_fine, _) =
      no_more (when (not (contains s.kind step_kinds)) Problem.unknown_kind) _ more in
    (when-not (contains s.kind step_kinds) Problem.unknown_kind kind_fine, steps-IsKnown steps rest)

pub valid-parts :
    (r : Recipe) → recipe_problems r ≡ [] → (graph_problems r ≡ []) × All IsKnown r.steps
unfolding recipe_problems
valid-parts r fine =
    let (own, graph) = first_empty _ (graph_problems r) fine in
    let (_, more) = no_more (when _ bad_version) _ own in
    let (_, more) = no_more (when _ bad_address) _ more in
    let (_, more) = no_more (collect_problems param_problems r.params) _ more in
    let (_, more) = no_more (name_problems [] r.params) _ more in
    let (steps_fine, _) = no_more (collect_problems step_problems r.steps) _ more in
    (graph, steps-IsKnown r.steps steps_fine)

module _ (setup : Setup) (recipe : Recipe) (params : Dict Json) where
  abbrev pub TaskOf : RecipeStep → GeoTask → Type 0
  TaskOf s t =
      (t.task_id ≡ task_name setup.run_id s.id)
      × (t.depends_on ≡ map (task_name setup.run_id) s.depends_on)

  build_task-Ends :
      (s : RecipeStep) → IsKnown s → Ends (TaskOf s) (build_task setup recipe params s)
  unfolding build_task
  build_task-Ends s known =
      let (kind, found) = task_kind-known s known in
      rw (build_task, found)
        (chain-Ends AnyOf (TaskOf s) (substitute_fields setup.show params s.id (fields s.params)) _
          (substitute_fields-Ends setup.show params s.id (fields s.params))
          λ filled _.
            chain-Ends AnyOf (TaskOf s) (build_inputs setup recipe params s.id s.inputs) _
              (build_inputs-Ends setup recipe params s.id s.inputs)
              λ inputs _.
                chain-Ends AnyOf (TaskOf s) (resources_of setup.cores setup.whole setup.show s) _
                  (resources_of-Ends setup.cores setup.whole setup.show s)
                  (λ resources _. (refl, refl)))

  pub build_tasks-Ends :
      (steps : List RecipeStep)
      → All IsKnown steps
      → Ends (Renamed (task_name setup.run_id) steps) (build_tasks setup recipe params steps)
  unfolding build_tasks
  build_tasks-Ends [] known = tt
  build_tasks-Ends (s ∷ steps) known =
      let named = Renamed (task_name setup.run_id) in
      chain-Ends (TaskOf s) (named (s ∷ steps)) (build_task setup recipe params s) _
        (build_task-Ends s known.0)
        λ t own.
          chain-Ends (named steps) (named (s ∷ steps)) (build_tasks setup recipe params steps) _
            (build_tasks-Ends steps known.1) (λ ts rest. (own.0, own.1, rest))

-- The plan of a recipe: its tasks are the steps under the names of the run, in the order that was found when
-- the recipe was checked, and each depends on the tasks of the steps that its step depends on.
pub record Plans (setup : Setup) (r : Recipe) (params : Dict Json) (plan : RunPlan) : Type 0 where
  pub tasks : List GeoTask
  pub named : Renamed (task_name setup.run_id) r.steps tasks
  pub built : IsBuilt tasks plan.graph
  pub order : plan.graph.topo ≡ map (task_name setup.run_id) (step_order (map step_entry r.steps))
  pub kept : plan.params ≡ params
  pub outputs : plan.outputs ≡ r.outputs

chain-Returned :
    {A B : Type 0} (P : A → Type 0) (Q : B → Type 0) (m : Outcome Fault A) (k : A → Outcome Fault B)
    → Ends P m
    → ((a : A) → m ≡ return a → P a → Ends Q (k a))
    → Ends Q (elim m as (λ _. Outcome Fault B) [ raise e ↦ raise e | return a ↦ k a ])
chain-Returned P Q (return a) k h next = next a refl h
chain-Returned P Q (raise e) k h next = h

weaken-Ends :
    {A : Type 0} (P Q : A → Type 0) (m : Outcome Fault A)
    → ((a : A) → P a → Q a)
    → Ends P m
    → Ends Q m
weaken-Ends P Q (return a) more h = more a h
weaken-Ends P Q (raise e) more h = h

pub plan_of-Plans :
    (setup : Setup) (recipe : Recipe) (params : Dict Json)
    → graph_problems recipe ≡ []
    → All IsKnown recipe.steps
    → Ends (Plans setup recipe params) (plan_of setup recipe params)
unfolding plan_of
plan_of-Plans setup recipe params fine known =
    let f = task_name setup.run_id in
    chain-Ends (Renamed f recipe.steps) (Plans setup recipe params)
      (build_tasks setup recipe params recipe.steps) _
      (build_tasks-Ends setup recipe params recipe.steps known)
      λ ts named.
        let (g, returned, order) = built f (task_name-apart setup.run_id) recipe ts fine named in
        rw returned (record {
          tasks = ts;
          named = named;
          built = from_tasks-IsBuilt ts g returned;
          order = order;
          kept = refl;
          outputs = refl;
        })

-- If a recipe has no problems, a run of it is either a plan or ends with one of these errors: the
-- id of the run is blank, the values of the parameters do not resolve, a template names no
-- parameter, a reference is no text once it is filled in, or Python cannot make a number of what a
-- step reserves. It never ends in a refusal by the graph of tasks or on a kind of step that is not
-- known. The plan has the parameters as they resolve, the deliverables of the recipe, and a graph
-- whose nodes are one task for each step, under the id of the run, with the dependencies of the
-- step, in the order that the check of the recipe found.
pub materialize-Plans :
    (read_int : String → Option ℤ) (read_float : String → Option Real) (setup : Setup)
    (recipe : Recipe) (supplied : Dict Json)
    → recipe_problems recipe ≡ []
    → Ends
        (λ plan.
          (params : Dict Json) × (resolve_params read_int read_float recipe supplied
            ≡ return params)
          × Plans setup recipe params plan)
        (materialize read_int read_float setup recipe supplied)
unfolding materialize
materialize-Plans read_int read_float setup recipe supplied fine =
    let (sound, known) = valid-parts recipe fine in
    let planned : RunPlan → Type 0 = λ plan.
      (params : Dict Json) × (resolve_params read_int read_float recipe supplied ≡ return params)
      × Plans setup recipe params plan in
    let declared = map (λ (p : ParamSpec). p.name) recipe.params in
    if-Ends planned (is_blank setup.run_id) (raise no_run_id) _ tt (
      chain-Returned AnyOf planned (resolve_params read_int read_float recipe supplied) _
        (resolve_params-Ends read_int read_float recipe supplied)
        λ params resolved _.
          chain-Ends AnyOf planned (check_templates declared recipe.steps) _
            (check_templates-Ends declared recipe.steps)
            λ _ _.
              weaken-Ends (Plans setup recipe params) planned (plan_of setup recipe params)
                (λ plan plans. (params, resolved, plans))
                (plan_of-Plans setup recipe params sound known))
