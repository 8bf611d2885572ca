-- ===== src/Recipe/Returned.antt =====
-- recipe/materialize.py: when a run of a recipe returns.
use geo_nexus_sdk.Base.{
  Real, String, true, false, not, Option, List, [], ◌∷◌, Dict, map, contains, has, keys, keep, Json,
  Fields, fields, Outcome, return, ℤ, ◌≡◌, refl, sym, ap, subst, ◌∙◌, All, All-map, contains-keys,
}
use geo_nexus_sdk.Geotask.Model.{GeoTask}
use geo_nexus_sdk.Recipe.Model.{
  RecipeStep, Recipe, ParamSpec, is_blank, when, bad_version, bad_address, param_problems,
}
use geo_nexus_sdk.Recipe.Checks.{
  graph_problems, recipe_problems, collect_problems, name_problems, sort_texts,
}
use geo_nexus_sdk.Recipe.Renamed.{Renamed}
use geo_nexus_sdk.Recipe.Built.{built, no_more}
use geo_nexus_sdk.Recipe.Params.{Fault, resolve_params}
use geo_nexus_sdk.Recipe.Resources.{resources_of}
use geo_nexus_sdk.Recipe.Templates.{unknown_in_fields, substitute_fields}
use geo_nexus_sdk.Recipe.Materialize.{
  Setup, RunPlan, task_name, build_inputs, build_task, build_tasks, plan_of, undeclared_in,
  check_templates, texts, materialize,
}
use geo_nexus_sdk.Recipe.Filled.{
  Returns, chain-Returns, IsTextual, substitute_fields-Returns, build_inputs-Returns,
}
use geo_nexus_sdk.Recipe.Endings.{Ends}
use geo_nexus_sdk.Recipe.Planned.{
  Plans, IsKnown, task_kind-known, first_empty, build_tasks-Ends, valid-parts, plan_of-Plans,
  task_name-apart,
}
use geo_nexus_sdk.Recipe.Contracted.{resolve_params-Resolved}

-- Each template in a step names one of the parameters.
abbrev pub IsDeclared : List String → RecipeStep → Type 0
IsDeclared names s =
    All (λ k. contains k names ≡ true) (unknown_in_fields (fields s.params))
    × All (λ k. contains k names ≡ true) (unknown_in_fields (texts s.inputs))
    × All (λ k. contains k names ≡ true) (unknown_in_fields (texts s.outputs))

all-left :
    (names ks : List String)
    → All (λ k. contains k names ≡ true) ks
    → keep (λ k. not (contains k names)) ks ≡ []
all-left names [] h = refl
all-left names (k ∷ ks) h = rw h.0 (all-left names ks h.1)

undeclared_in-none :
    (names : List String) (id : String) (blobs : List Fields)
    → All (λ blob. All (λ k. contains k names ≡ true) (unknown_in_fields blob)) blobs
    → undeclared_in names id blobs ≡ return tt
unfolding undeclared_in sort_texts
undeclared_in-none names id [] h = refl
undeclared_in-none names id (blob ∷ blobs) h =
    rw (undeclared_in, all-left names (unknown_in_fields blob) h.0)
      (undeclared_in-none names id blobs h.1)

check_templates-none :
    (names : List String) (steps : List RecipeStep)
    → All (IsDeclared names) steps
    → check_templates names steps ≡ return tt
unfolding check_templates
check_templates-none names [] h = refl
check_templates-none names (s ∷ steps) h =
    let (in_params, in_inputs, in_outputs) = h.0 in
    rw
      (
        check_templates,
        undeclared_in-none names s.id (fields s.params ∷ texts s.inputs ∷ texts s.outputs ∷ [])
            (in_params, (in_inputs, (in_outputs, tt))),
      )
      (check_templates-none names steps h.1)

valid-names : (r : Recipe) → recipe_problems r ≡ [] → name_problems [] r.params ≡ []
unfolding recipe_problems
valid-names r fine =
    let (own, graph) = first_empty _ (graph_problems r) fine in
    let (_, more) = no_more (when _ bad_version) _ own in
    let (_, more) = no_more (when _ bad_address) _ more in
    let (_, more) = no_more (collect_problems param_problems r.params) _ more in
    (no_more (name_problems [] r.params) _ more).0

-- The numbers that a step reserves can be read.
abbrev pub IsReserved : Setup → RecipeStep → Type 0
IsReserved setup s = Returns (resources_of setup.cores setup.whole setup.show s)

-- A step that can be filled in.
abbrev pub IsReady : Setup → Dict Json → List String → RecipeStep → Type 0
IsReady setup params names s =
    IsKnown s × IsDeclared names s × All (λ e. IsTextual params e.1) s.inputs × IsReserved setup s

ready :
    (setup : Setup) (params : Dict Json) (names : List String) (steps : List RecipeStep)
    → All IsKnown steps
    → All (IsDeclared names) steps
    → All (λ s. All (λ e. IsTextual params e.1) s.inputs) steps
    → All (IsReserved setup) steps
    → All (IsReady setup params names) steps
ready setup params names [] known declared textual reserved = tt
ready setup params names (s ∷ steps) known declared textual reserved = (
  (known.0, declared.0, textual.0, reserved.0),
  ready setup params names steps known.1 declared.1 textual.1 reserved.1,
)

module _ (setup : Setup) (recipe : Recipe) (params : Dict Json) (names : List String) where
  there :
      (ks : List String)
      → keys params ≡ names
      → All (λ k. contains k names ≡ true) ks
      → All (λ k. has k params ≡ true) ks
  there ks listed h =
      All-map (λ k. contains k names ≡ true) (λ k. has k params ≡ true) ks
        (λ k named. sym (contains-keys k params) ∙ (ap (contains k) listed ∙ named)) h

  build_task-Returns :
      (s : RecipeStep)
      → keys params ≡ names
      → IsReady setup params names s
      → Returns (build_task setup recipe params s)
  unfolding build_task
  build_task-Returns s listed (known, (in_params, in_inputs, in_outputs), textual, reserved) =
      let (kind, found) = task_kind-known s known in
      rw (build_task, found)
        (chain-Returns (substitute_fields setup.show params s.id (fields s.params)) _
          (substitute_fields-Returns setup.show params s.id (fields s.params)
            (there (unknown_in_fields (fields s.params)) listed in_params))
          λ filled _.
            chain-Returns (build_inputs setup recipe params s.id s.inputs) _
              (build_inputs-Returns setup recipe params s.id s.inputs textual
                (there (unknown_in_fields (texts s.inputs)) listed in_inputs))
              λ inputs _.
                chain-Returns (resources_of setup.cores setup.whole setup.show s) _ reserved
                  (λ resources _. (_, refl)))

  build_tasks-Returns :
      (steps : List RecipeStep)
      → keys params ≡ names
      → All (IsReady setup params names) steps
      → Returns (build_tasks setup recipe params steps)
  unfolding build_tasks
  build_tasks-Returns [] listed h = ([], refl)
  build_tasks-Returns (s ∷ steps) listed h =
      chain-Returns (build_task setup recipe params s) _ (build_task-Returns s listed h.0) λ t _.
        chain-Returns (build_tasks setup recipe params steps) _
          (build_tasks-Returns steps listed h.1) (λ ts _. (_, refl))

returned-named :
    (P : List GeoTask → Type 0) (o : Outcome Fault (List GeoTask)) (ts : List GeoTask)
    → o ≡ return ts
    → Ends P o
    → P ts
returned-named P o ts h e = subst (Ends P) h e

plan_of-Returns :
    (setup : Setup) (recipe : Recipe) (params : Dict Json) (names : List String)
    → graph_problems recipe ≡ []
    → keys params ≡ names
    → All (IsReady setup params names) recipe.steps
    → All IsKnown recipe.steps
    → Returns (plan_of setup recipe params)
unfolding plan_of
plan_of-Returns setup recipe params names fine listed ready known =
    let f = task_name setup.run_id in
    let (ts, made) = build_tasks-Returns setup recipe params names recipe.steps listed ready in
    let named =
      returned-named (Renamed f recipe.steps) (build_tasks setup recipe params recipe.steps) ts made
        (build_tasks-Ends setup recipe params recipe.steps known) in
    let (g, returned, order) = built f (task_name-apart setup.run_id) recipe ts fine named in
    rw (plan_of, made, returned) (_, refl)

-- If a recipe has no problems, the id of the run is not blank, the values of the parameters
-- resolve, each template in a step names a parameter, each input is a text once it is filled in,
-- and Python can make numbers of what the steps reserve, then the run returns a plan: with the
-- parameters as they resolve, the deliverables of the recipe, and a graph whose nodes are one task
-- for each step, with the dependencies of the step.
pub materialize_returns :
    (read_int : String → Option ℤ) (read_float : String → Option Real) (setup : Setup)
    (recipe : Recipe) (supplied params : Dict Json)
    → recipe_problems recipe ≡ []
    → is_blank setup.run_id ≡ false
    → resolve_params read_int read_float recipe supplied ≡ return params
    → All (IsDeclared (map (λ p. p.name) recipe.params)) recipe.steps
    → All (λ s. All (λ e. IsTextual params e.1) s.inputs) recipe.steps
    → All (IsReserved setup) recipe.steps
    → (plan : RunPlan) × (materialize read_int read_float setup recipe supplied ≡ return plan)
      × Plans setup recipe params plan
unfolding materialize
materialize_returns read_int read_float setup recipe supplied params fine shown resolved declared
      textual reserved =
    let names = map (λ (p : ParamSpec). p.name) recipe.params in
    let (sound, known) = valid-parts recipe fine in
    let (listed, _, _) =
      resolve_params-Resolved read_int read_float recipe supplied params (valid-names recipe fine)
        resolved in
    let (plan, made) =
      plan_of-Returns setup recipe params names sound listed
        (ready setup params names recipe.steps known declared textual reserved) known in
    (
      plan,
      rw (materialize, shown, resolved, check_templates-none names recipe.steps declared, made)
          refl,
      subst (Ends (Plans setup recipe params)) made (plan_of-Plans setup recipe params sound known),
    )
