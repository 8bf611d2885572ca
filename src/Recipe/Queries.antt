-- ===== src/Recipe/Queries.antt =====
-- recipe/model.py: the queries of a Recipe.
use geo_nexus_sdk.Base.{
  ℕ, String, Bool, true, false, Option, none, some, List, [], ◌∷◌, ◌++◌, map, keep, contains,
  length, if◌then◌else◌, ◌==◌, Json, null, Outcome, return, raise,
}
use geo_nexus_sdk.Recipe.Address.{Address, parse_recipe_address}
use geo_nexus_sdk.Recipe.Model.{ParamSpec, RecipeStep, Recipe}

-- RecipeError of the queries.
pub data QueryError : Type 0 where
  no_step : String → QueryError
  root_count : ℕ → QueryError

-- `_` of a recipe whose address has passed its validator.
unfoldable pub address_of : Recipe → Option Address
unfolding parse_recipe_address
address_of r = parse_recipe_address r.id

unfoldable pub find_step : String → List RecipeStep → Outcome QueryError RecipeStep
find_step id [] = raise (no_step id)
find_step id (s ∷ steps) = if s.id == id then return s else find_step id steps

abbrev pub is_root : RecipeStep → Bool
is_root s = elim s.depends_on [ [] ↦ true | d ∷ ds ↦ false ]

unfoldable pub roots : Recipe → List String
roots r = map (λ s. s.id) (keep is_root r.steps)

abbrev pub only_root : List String → Outcome QueryError String
only_root (id ∷ []) = return id
only_root ids = raise (root_count (length ids))

unfoldable pub entry : Recipe → Outcome QueryError String
unfolding roots
entry r = elim r.entrypoint [
  | none ↦ only_root (roots r)
  | some id ↦ if id == "" then only_root (roots r) else return id
]

unfoldable pub reusable_param_names : Recipe → List String
reusable_param_names r = map (λ p. p.name) (keep (λ p. p.scope == "reusable") r.params)

unfoldable pub fixed_param_names : Recipe → List String
fixed_param_names r = map (λ p. p.name) (keep (λ p. p.scope == "fixed") r.params)

unfoldable pub find_param : String → List ParamSpec → Option ParamSpec
find_param name [] = none
find_param name (p ∷ params) = if p.name == name then some p else find_param name params

abbrev pub is_null : Json → Bool
is_null null = true
is_null _ = false

unfoldable pub collect_uses : List String → List RecipeStep → List String
collect_uses out [] = out
collect_uses out (s ∷ steps) =
    collect_uses (if contains s.uses out then out else (out ++ s.uses ∷ [])) steps

unfoldable pub uses_of : Recipe → List String
unfolding collect_uses
uses_of r = collect_uses [] r.steps

unfoldable pub deliverable_names : Recipe → List String
deliverable_names r = map (λ o. o.name) r.outputs
