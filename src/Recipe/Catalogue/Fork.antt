-- ===== src/Recipe/Catalogue/Fork.antt =====
-- recipe/registry.py: `fork`. How Python reads a number from a text is a parameter.
use Prim.Native.String.{◌++◌ as text_append}
use geo_nexus_sdk.Base.{
  Real, ℤ, String, Bool, false, not, Option, none, some, List, [], ◌∷◌, ◌++◌, Dict, map, lookup,
  keys, keep, contains, if◌then◌else◌, Json, Outcome, return, raise, or_text,
}
use geo_nexus_sdk.Registry.Models.{status_pending}
use geo_nexus_sdk.Recipe.Address.{format_recipe_address}
use geo_nexus_sdk.Recipe.Model.{ParamSpec, Recipe}
use geo_nexus_sdk.Recipe.Checks.{recipe_problems, sort_texts}
use geo_nexus_sdk.Recipe.Params.{coerce_param_value}
use geo_nexus_sdk.Recipe.Catalogue.{
  RecipeEntry, CatalogueError, invalid, not_found, unknown_params, refused_value, CatalogueAction,
  Registration, register, slug_of, namespace_of,
}
use geo_nexus_sdk.Recipe.Catalogue.Lookup.{resolve}

pub record ForkRequest : Type 0 where
  pub namespace : Option String
  pub name : Option String
  pub version : Option String
  pub params : Dict Json
  pub fixed : Dict Json
  pub title : Option String
  pub register_it : Bool
  pub approved_only : Bool
  pub provider_url : String
  pub now : String

-- `version or "1.0.0"`, and likewise for the others.
unfoldable pub fork_id : Recipe → ForkRequest → String
unfolding format_recipe_address
fork_id source q =
    format_recipe_address (or_text q.namespace (namespace_of source))
      (or_text q.name (text_append (slug_of source) "-fork")) (some (or_text q.version "1.0.0"))

abbrev pub forked : Recipe → ForkRequest → List ParamSpec → Recipe
forked source q params = record source {
  id = fork_id source q;
  name = or_text q.title source.name;
  params = params;
}

-- The parameters that are named and not known.
unfoldable pub unknown_names : Recipe → ForkRequest → List String
unfolding sort_texts
unknown_names source q =
    let known = map (λ (p : ParamSpec). p.name) source.params in
    sort_texts (keep (λ k. not (contains k known)) (keys q.params ++ keys q.fixed))

abbrev pub registration_of : RecipeEntry → ForkRequest → Registration
registration_of e q = record {
  provider_url = or_text (some q.provider_url) e.provider_url;
  status = status_pending;
  submitted_by = none;
  replace = false;
  review_note = some (text_append "forked from " e.recipe.id);
  now = q.now;
}

unfoldable pub register_fork :
    {J : Type 0} → Recipe → RecipeEntry → ForkRequest → CatalogueAction J Recipe
unfolding register
register_fork r e q c =
    let done = register r (registration_of e q) c in
    (elim done.0 [ raise err ↦ raise err | return _ ↦ return r ], done.1)

module _ (read_int : String → Option ℤ) (read_float : String → Option Real) where
  abbrev pub coerced : ParamSpec → Json → Outcome CatalogueError Json
  coerced p v = elim (coerce_param_value read_int read_float p.name p.type_name v p.enum) [
    | raise e ↦ raise (refused_value e)
    | return w ↦ return w
  ]

  unfoldable pub override_param : Dict Json → ParamSpec → Outcome CatalogueError ParamSpec
  unfolding lookup coerce_param_value
  override_param overrides p = elim (lookup p.name overrides) [
    | none ↦ return p
    | some v ↦ elim (coerced p v) [
      | raise e ↦ raise e
      | return w ↦ return (record p { default = w })
    ]
  ]

  unfoldable pub pin_param : Dict Json → ParamSpec → Outcome CatalogueError ParamSpec
  unfolding lookup coerce_param_value
  pin_param pins p = elim (lookup p.name pins) [
    | none ↦ return p
    | some v ↦ elim (coerced p v) [
      | raise e ↦ raise e
      | return w ↦ return (record p { scope = "fixed"; default = w })
    ]
  ]

  unfoldable pub fork_params :
      Dict Json → Dict Json → List ParamSpec → Outcome CatalogueError (List ParamSpec)
  unfolding override_param pin_param
  fork_params overrides pins [] = return []
  fork_params overrides pins (p ∷ params) = elim (override_param overrides p) [
    | raise e ↦ raise e
    | return q ↦ elim (pin_param pins q) [
      | raise e ↦ raise e
      | return s ↦ elim (fork_params overrides pins params) [
        | raise e ↦ raise e
        | return ss ↦ return (s ∷ ss)
      ]
    ]
  ]

  unfoldable pub fork_recipe : Recipe → ForkRequest → Outcome CatalogueError Recipe
  unfolding unknown_names fork_params fork_id
  fork_recipe source q = elim (unknown_names source q) [
    | k ∷ ks ↦ raise (unknown_params (k ∷ ks))
    | [] ↦ elim (fork_params q.params q.fixed source.params) [
      | raise e ↦ raise e
      | return params ↦ elim (recipe_problems (forked source q params)) [
        | p ∷ ps ↦ raise (invalid (p ∷ ps))
        | [] ↦ return (forked source q params)
      ]
    ]
  ]

  unfoldable pub fork_entry : {J : Type 0} → RecipeEntry → ForkRequest → CatalogueAction J Recipe
  unfolding fork_recipe register_fork
  fork_entry e q c = elim (fork_recipe e.recipe q) [
    | raise err ↦ (raise err, c)
    | return r ↦ if q.register_it then register_fork r e q c else (return r, c)
  ]

  unfoldable pub fork : {J : Type 0} → String → ForkRequest → CatalogueAction J Recipe
  unfolding resolve fork_entry
  fork address q c = elim (resolve address q.approved_only c) [
    | raise err ↦ (raise err, c)
    | return none ↦ (raise (not_found address), c)
    | return (some e) ↦ fork_entry e q c
  ]
