-- ===== src/Recipe/Tests.antt =====
-- The theorems about recipes at concrete inputs, and a run of one.
use geo_nexus_sdk.Base.{
  Real, finite, obj, field, end, ◌*◌, trim, get_or, insert, ◌≡◌, refl, none, some, List, [], ◌∷◌,
  String, Dict, Json, str, int, null, pos, ℤ, Option, true, false, All, return, lookup, Outcome,
  raise,
}
use geo_nexus_sdk.Recipe.Address.{parse_recipe_address, format_recipe_address}
use geo_nexus_sdk.Recipe.Address.Inverse.{parse-format}
use geo_nexus_sdk.Recipe.Model.{is_blank, ParamSpec, RecipeStep, Recipe}
use geo_nexus_sdk.Recipe.Checks.{recipe_problems}
use geo_nexus_sdk.Recipe.Params.{bad_value, Fault, resolve_params}
use geo_nexus_sdk.Recipe.Materialize.{RunPlan, Setup, materialize}
use geo_nexus_sdk.Recipe.Endings.{Ends}
use geo_nexus_sdk.Recipe.Planned.{Plans, materialize-Plans}
use geo_nexus_sdk.Geotask.Model.{ResourceRequirement, no_resources}
use geo_nexus_sdk.Recipe.Filled.{IsTextual}
use geo_nexus_sdk.Recipe.Returned.{IsDeclared, IsReserved, materialize_returns}
use geo_nexus_sdk.Recipe.Resources.{resources_of}
use geo_nexus_sdk.Recipe.Templates.{unknown_templates, whole_template}

abbrev pub year : ParamSpec
year = record {
  name = "year";
  type_name = "integer";
  required = true;
  default = null;
  enum = [];
  minimum = some (finite (pos 1985000000));
  maximum = some (finite (pos 2030000000));
  scope = "reusable";
  target = none;
  description = none;
}

abbrev pub sensor : ParamSpec
sensor = record {
  name = "sensor";
  type_name = "string";
  required = false;
  default = str "landsat";
  enum = [];
  minimum = none;
  maximum = none;
  scope = "fixed";
  target = none;
  description = none;
}

abbrev plain_step : String → List String → Dict Json → Dict String → RecipeStep
plain_step id deps params inputs = record {
  id = id;
  uses = "water.index";
  kind = "skill";
  depends_on = deps;
  params = params;
  inputs = inputs;
  outputs = ("map", "map.tif") ∷ [];
  resources = ("cpu", int (pos 2)) ∷ ("gpu", obj (field "count" (int (pos 1)) end)) ∷ [];
  timeout = none;
  max_attempts = 1;
  description = "";
}

abbrev pub wetland : Recipe
wetland = record {
  recipe_version = "1.0";
  id = "recipe://delta/wetland@1.0.0";
  name = "Wetland";
  description = "";
  params = year ∷ sensor ∷ [];
  steps =
      plain_step "report" ("index" ∷ []) [] (("map", "step://index/map") ∷ [])
      ∷ plain_step "index" [] (("year", str "${ params.year }") ∷ [])
          (("scene", "s3://${params.sensor}/a") ∷ [])
      ∷ [];
  entrypoint = none;
  outputs =
      record {
        name = "map";
        from_ = "report.map";
        role = "data";
        media_type = none;
        description = "";
      }
      ∷ [];
  requires = [];
  data_snapshot = [];
  license = none;
  tags = [];
}

-- No text is read as a number here.
abbrev pub read_number : String → Option ℤ
read_number s = none

abbrev pub read_real : String → Option Real
read_real s = none

abbrev setup : Setup
setup = record {
  show = λ v. elim v [ str s ↦ s | _ ↦ "?" ];
  resolve = λ s. s;
  cores = λ v. elim v [ int (pos n) ↦ return (n * 1000) | _ ↦ raise bad_value ];
  whole = λ v. elim v [ int (pos n) ↦ return n | _ ↦ raise bad_value ];
  run_id = "r1";
  labels = [];
  now = 7;
}

abbrev supplied : Dict Json
supplied = ("year", int (pos 2021)) ∷ []

abbrev planned : Outcome Fault (List String)
planned = elim (materialize read_number read_real setup wetland supplied) [
  | raise e ↦ raise e
  | return p ↦ return p.graph.topo
]

wetland-valid : recipe_problems wetland ≡ []
unfolding recipe_problems lookup insert get_or
wetland-valid = refl

parse-format_example :
    parse_recipe_address (format_recipe_address "delta" "wetland" (some "1.0.0"))
    ≡ some ("delta", "wetland", some "1.0.0")
parse-format_example = parse-format "delta" "wetland" (some "1.0.0") refl refl refl

resolved :
    resolve_params read_number read_real wetland supplied
    ≡ return (("year", int (pos 2021)) ∷ ("sensor", str "landsat") ∷ [])
unfolding resolve_params get_or insert
resolved = refl

-- The run has a plan.
planned-result : planned ≡ return ("r1:index" ∷ "r1:report" ∷ [])
unfolding materialize get_or
planned-result = refl

materialize-Plans_example :
    Ends
      (λ plan.
        (params : Dict Json) × (resolve_params read_number read_real wetland supplied
          ≡ return params)
        × Plans setup wetland params plan)
      (materialize read_number read_real setup wetland supplied)
materialize-Plans_example =
    materialize-Plans read_number read_real setup wetland supplied wetland-valid

shown : is_blank setup.run_id ≡ false
unfolding is_blank
shown = refl

wetland-IsDeclared : All (IsDeclared ("year" ∷ "sensor" ∷ [])) wetland.steps
unfolding unknown_templates
wetland-IsDeclared = ((tt, tt, tt), (((refl, tt), (refl, tt), tt), tt))

wetland-IsTextual :
    All
      (λ s.
        All
          (λ e. IsTextual (("year", int (pos 2021)) ∷ ("sensor", str "landsat") ∷ []) e.1)
          s.inputs)
      wetland.steps
unfolding whole_template trim
wetland-IsTextual = ((tt, tt), ((tt, tt), tt))

abbrev two_cores : ResourceRequirement
two_cores = record no_resources {
  cpu = 2000;
  gpu = some (record { kind = "cuda"; count = 1; memory_mb = none });
}

wetland-IsReserved : All (IsReserved setup) wetland.steps
unfolding resources_of get_or
wetland-IsReserved = ((two_cores, refl), ((two_cores, refl), tt))

materialize_returns_example :
    (plan : RunPlan) × (materialize read_number read_real setup wetland supplied ≡ return plan)
    × Plans setup wetland (("year", int (pos 2021)) ∷ ("sensor", str "landsat") ∷ []) plan
materialize_returns_example =
    materialize_returns read_number read_real setup wetland supplied
      (("year", int (pos 2021)) ∷ ("sensor", str "landsat") ∷ []) wetland-valid shown resolved
      wetland-IsDeclared wetland-IsTextual wetland-IsReserved
