-- ===== src/Recipe/Materialize.antt =====
-- recipe/materialize.py: from a recipe and the values of its parameters to the graph of tasks of one run.
use Prim.Native.String.{◌++◌ as text_append}
use geo_nexus_sdk.Base.{
  Real, ℕ, ◌+◌, String, not, Option, none, some, List, [], ◌∷◌, Dict, map, insert, or_text,
  contains, keep, if◌then◌else◌, ◌==◌, Json, str, obj, Fields, end, field, fields, Outcome, return,
  raise, ℤ, pos, pos_part,
}
use geo_nexus_sdk.Geotask.Model.{
  GeoTask, TaskKind, skill, model, batch, composite, TaskIo, RetryPolicy, default_retry,
  ResourceRequirement, new_task,
}
use geo_nexus_sdk.Geotask.Graph.{TaskGraph, from_tasks}
use geo_nexus_sdk.Recipe.Address.{parse_recipe_address}
use geo_nexus_sdk.Recipe.Model.{RecipeStep, RecipeOutput, Recipe, is_blank, parts}
use geo_nexus_sdk.Recipe.Checks.{step_ref, sort_texts}
use geo_nexus_sdk.Recipe.Queries.{is_null}
use geo_nexus_sdk.Recipe.Resources.{resources_of}
use geo_nexus_sdk.Recipe.Params.{
  Refusal, Fault, no_run_id, undeclared, graph_error, attribute_error, unknown_kind, resolve_params,
}
use geo_nexus_sdk.Recipe.Templates.{
  unknown_templates, unknown_in_fields, substitute, substitute_fields,
}

-- _KIND_TO_TASK_KIND
abbrev pub task_kind : String → Option TaskKind
task_kind kind =
    if kind == "skill"
    then some skill
    else if kind == "model"
    then some model
    else if kind == "batch"
    then some batch
    else if kind == "composite"
    then some composite
    else none

-- `field or None`
abbrev pub text_or_none : String → Option String
text_or_none t = if t == "" then none else some t

-- `_task_io`: a reference that is no text has no `startswith`.
unfoldable pub task_io : Json → Outcome Fault TaskIo
unfolding step_ref
task_io (str ref) = elim (step_ref ref) [
  | none ↦ return (record { ref = ref; kind = "asset"; from_task = none; field_name = none })
  | some (target, output) ↦ return (record {
    ref = ref;
    kind = "task_output";
    from_task = some target;
    field_name = text_or_none output;
  })
]
task_io _ = raise attribute_error

abbrev pub retry_policy : RecipeStep → RetryPolicy
retry_policy s = record default_retry { max_attempts = 1 + s.max_attempts }

-- `f"{run_id}:{step.id}"`
abbrev pub task_name : String → String → String
task_name run_id id = text_append run_id (text_append ":" id)

abbrev pub output_ref : String → String → String
output_ref id name = text_append "step://" (text_append id (text_append "/" name))

abbrev pub texts : Dict String → Fields
texts d = fields (map (λ e. (e.0, str e.1)) d)

-- The templates of one step that name no parameter of the recipe, for each blob on its own.
unfoldable pub undeclared_in : List String → String → List Fields → Outcome Fault Unit
unfolding unknown_templates sort_texts
undeclared_in declared id [] = return tt
undeclared_in declared id (blob ∷ blobs) =
    let rest = undeclared_in declared id blobs in
    elim (sort_texts (keep (λ k. not (contains k declared)) (unknown_in_fields blob))) [
      | [] ↦ rest
      | k ∷ ks ↦ raise (undeclared id (k ∷ ks))
    ]

unfoldable pub check_templates : List String → List RecipeStep → Outcome Fault Unit
unfolding undeclared_in
check_templates declared [] = return tt
check_templates declared (s ∷ steps) =
    elim (undeclared_in declared s.id (fields s.params ∷ texts s.inputs ∷ texts s.outputs ∷ [])) [
      | raise e ↦ raise e
      | return _ ↦ check_templates declared steps
    ]

-- What a run is made with besides the recipe; `resolve` leaves a reference as it is if there is none.
pub record Setup : Type 0 where
  pub show : Json → String
  pub resolve : String → String
  pub cores : Json → Outcome Refusal ℕ
  pub whole : Json → Outcome Refusal ℕ
  pub run_id : String
  pub labels : Dict String
  pub now : ℕ

module _ (setup : Setup) (recipe : Recipe) (params : Dict Json) where
  unfoldable pub build_inputs : String → Dict String → Outcome Fault (Dict TaskIo)
  unfolding substitute task_io
  build_inputs id [] = return []
  build_inputs id ((name, ref) ∷ inputs) = elim (substitute setup.show params id (str ref)) [
    | raise e ↦ raise e
    | return v ↦ elim (task_io v) [
      | raise e ↦ raise e
      | return io ↦ elim (build_inputs id inputs) [
        | raise e ↦ raise e
        | return ios ↦ return ((name, io) ∷ ios)
      ]
    ]
  ]

  -- `recipe.version or recipe.recipe_version`
  unfoldable pub version_text : String
  unfolding parse_recipe_address
  version_text = elim (parse_recipe_address recipe.id) [
    | none ↦ recipe.recipe_version
    | some (namespace, name, version) ↦ or_text version recipe.recipe_version
  ]

  abbrev pub provenance_of : String → Fields
  provenance_of uses = field "origin" (str "recipe") (
      field "source" (str recipe.id) (
        field "recipe_version" (str version_text) (
          field "run_id" (str setup.run_id) (
            field "uses" (str uses) (
              field "params" (obj (fields (keep (λ e. not (is_null e.1)) params)))
                (field "data_snapshot" (obj (texts recipe.data_snapshot)) end))))))

  abbrev pub spec_of : RecipeStep → String → Fields → Fields
  spec_of s uses filled = field "uses" (str uses) (
      field "declared_uses" (str s.uses)
        (field "params" (obj filled) (field "description" (str s.description) end)))

  abbrev pub timeout_of : Option ℤ → ℕ
  timeout_of none = 300000
  timeout_of (some t) = pos_part t

  abbrev pub task_of : RecipeStep → TaskKind → Fields → Dict TaskIo → ResourceRequirement → GeoTask
  task_of s kind filled inputs resources =
      let uses = setup.resolve s.uses in
      record (new_task setup.now (task_name setup.run_id s.id) kind
        (map (task_name setup.run_id) s.depends_on) (pos 0) resources (retry_policy s) none) {
          spec = spec_of s uses filled;
          inputs = inputs;
          outputs =
              map
                (λ e. (
                  e.0,
                  record {
                    ref = output_ref s.id e.0;
                    kind = "asset";
                    from_task = none;
                    field_name = none;
                  },
                ))
                s.outputs;
          labels = insert "recipe_step" s.id (insert "recipe" recipe.id setup.labels);
          provenance = provenance_of uses;
          timeout = timeout_of s.timeout;
          description = s.description;
        }

  -- One round of the loop over the steps.
  unfoldable pub build_task : RecipeStep → Outcome Fault GeoTask
  unfolding build_inputs version_text substitute resources_of insert
  build_task s = elim (task_kind s.kind) [
    | none ↦ raise unknown_kind
    | some kind ↦ elim (substitute_fields setup.show params s.id (fields s.params)) [
      | raise e ↦ raise e
      | return filled ↦ elim (build_inputs s.id s.inputs) [
        | raise e ↦ raise e
        | return inputs ↦ elim (resources_of setup.cores setup.whole setup.show s) [
          | raise e ↦ raise e
          | return resources ↦ return (task_of s kind filled inputs resources)
        ]
      ]
    ]
  ]

  unfoldable pub build_tasks : List RecipeStep → Outcome Fault (List GeoTask)
  unfolding build_task
  build_tasks [] = return []
  build_tasks (s ∷ steps) = elim (build_task s) [
    | raise e ↦ raise e
    | return t ↦ elim (build_tasks steps) [ raise e ↦ raise e | return ts ↦ return (t ∷ ts) ]
  ]

pub record RunPlan : Type 0 where
  pub recipe : Recipe
  pub run_id : String
  pub graph : TaskGraph
  pub params : Dict Json
  pub outputs : List RecipeOutput

-- `output_refs`: of two deliverables of one name the later one counts.
unfoldable pub collect_refs : Dict String → List RecipeOutput → Dict String
unfolding parts insert
collect_refs d [] = d
collect_refs d (o ∷ outputs) =
    collect_refs (insert o.name (output_ref (parts o).0 (parts o).1) d) outputs

unfoldable pub output_refs : RunPlan → Dict String
unfolding collect_refs
output_refs plan = collect_refs [] plan.outputs

pub record Deliverable : Type 0 where
  pub source : String
  pub role : String
  pub media_type : Option String
  pub description : String
  pub ref : String

unfoldable pub collect_deliverables : Dict Deliverable → List RecipeOutput → Dict Deliverable
unfolding parts insert
collect_deliverables d [] = d
collect_deliverables d (o ∷ outputs) =
    collect_deliverables
      (insert o.name
        (record {
          source = o.from_;
          role = o.role;
          media_type = o.media_type;
          description = o.description;
          ref = output_ref (parts o).0 (parts o).1;
        })
        d)
      outputs

unfoldable pub deliverables : RunPlan → Dict Deliverable
unfolding collect_deliverables
deliverables plan = collect_deliverables [] plan.outputs

unfoldable pub plan_of : Setup → Recipe → Dict Json → Outcome Fault RunPlan
unfolding build_tasks from_tasks
plan_of setup recipe params = elim (build_tasks setup recipe params recipe.steps) [
  | raise e ↦ raise e
  | return tasks ↦ elim (from_tasks tasks) [
    | raise e ↦ raise (graph_error e)
    | return g ↦ return (record {
      recipe = recipe;
      run_id = setup.run_id;
      graph = g;
      params = params;
      outputs = recipe.outputs;
    })
  ]
]

unfoldable pub materialize :
    (read_int : String → Option ℤ) (read_float : String → Option Real)
    → Setup
    → Recipe
    → Dict Json
    → Outcome Fault RunPlan
unfolding resolve_params check_templates plan_of is_blank
materialize read_int read_float setup recipe supplied =
    if is_blank setup.run_id
    then raise no_run_id
    else elim (resolve_params read_int read_float recipe supplied) [
      | raise e ↦ raise e
      | return params ↦ elim (check_templates (map (λ p. p.name) recipe.params) recipe.steps) [
        | raise e ↦ raise e
        | return _ ↦ plan_of setup recipe params
      ]
    ]
