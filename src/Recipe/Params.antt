-- ===== src/Recipe/Params.antt =====
-- recipe/materialize.py: the parameters of a run. How Python reads a number from a text is a parameter.
use geo_nexus_sdk.Base.{
  Real, finite, less_real, suc, ◌-◌, ◌/◌, ◌%◌, String, Bool, true, false, not, ◌||◌, Option, none,
  some, List, [], ◌∷◌, Dict, map, lookup, insert, get_or, keys, contains, keep, some_of, eqb,
  if◌then◌else◌, ◌==◌, Json, null, bool, int, float, str, arr, obj, ℤ, pos, negsuc, to_float,
  same_json, Outcome, return, raise, codes, lower, trim, same_text,
}
use geo_nexus_sdk.Geotask.Machine.{Error}
use geo_nexus_sdk.Recipe.Model.{ParamSpec, Recipe, is_blank}
use geo_nexus_sdk.Recipe.Checks.{sort_texts}
use geo_nexus_sdk.Recipe.Queries.{is_null}

pub data ParamCode : Type 0 where
  param_missing param_unknown param_invalid_enum param_out_of_range param_invalid_type param_fixed :
      ParamCode

-- What `int` and `float` raise: ValueError or TypeError, and OverflowError.
pub data Refusal : Type 0 where
  bad_value too_large : Refusal

-- What materialize raises: RecipeParamError, RecipeError, what TaskGraph raises, and the errors of Python
-- itself where a reference is no text and where a kind is not known.
pub data Fault : Type 0 where
  param_error : String → ParamCode → Fault
  no_run_id : Fault
  undeclared : String → List String → Fault
  graph_error : Error → Fault
  attribute_error unknown_kind : Fault
  refused : Refusal → Fault

-- `int(value)` of a float that is a whole number.
abbrev pub whole_of : Real → Option ℤ
whole_of (finite (pos n)) = if eqb (n % 1000000) 0 then some (pos (n / 1000000)) else none
whole_of (finite (negsuc n)) =
    if eqb (suc n % 1000000) 0 then some (negsuc (suc n / 1000000 - 1)) else none
whole_of _ = none

abbrev pub is_text : String → String → Bool
is_text text s = same_text (map lower (codes (trim s))) (codes text)

-- `value in enum`
abbrev pub allowed : Json → List Json → Bool
allowed value enum = some_of (λ item. same_json item value) enum

abbrev pub or_type_error : String → Option Json → Outcome Fault Json
or_type_error name none = raise (param_error name param_invalid_type)
or_type_error name (some v) = return v

abbrev pub boolean_of : Json → Option Json
boolean_of (bool b) = some (bool b)
boolean_of (str s) =
    if is_text "true" s
    then some (bool true)
    else if is_text "false" s
    then some (bool false)
    else none
boolean_of _ = none

abbrev pub shape_of : Json → Option Json
shape_of (arr vs) = some (arr vs)
shape_of (obj fs) = some (obj fs)
shape_of _ = none

abbrev pub ref_of : Json → Option Json
ref_of (str s) = if is_blank s then none else some (str s)
ref_of _ = none

abbrev pub plain_of : Json → Option Json
plain_of (arr vs) = none
plain_of (obj fs) = none
plain_of v = some v

-- `isinstance(value, (int, float)) and not isinstance(value, bool)`
abbrev pub amount_of : Json → Option Real
amount_of (int n) = some (finite (to_float n))
amount_of (float n) = some n
amount_of _ = none

abbrev pub under : Option Real → Option Real → Bool
under (some n) (some low) = less_real n low
under _ _ = false

abbrev pub over : Option Real → Option Real → Bool
over (some n) (some high) = less_real high n
over _ _ = false

abbrev pub is_listed : List Json → Json → Bool
is_listed [] value = true
is_listed (item ∷ enum) value = allowed value (item ∷ enum)

-- The checks of a value that was supplied.
unfoldable pub within : ParamSpec → Json → Outcome Fault Json
unfolding same_json
within spec value =
    if under (amount_of value) spec.minimum || over (amount_of value) spec.maximum
    then raise (param_error spec.name param_out_of_range)
    else if is_listed spec.enum value
    then return value
    else raise (param_error spec.name param_invalid_enum)

unfoldable pub fixed_value : ParamSpec → Dict Json → Outcome Fault Json
unfolding same_json lookup
fixed_value spec supplied = elim (lookup spec.name supplied) [
  | none ↦ return spec.default
  | some v ↦
      if same_json v spec.default
      then return spec.default
      else raise (param_error spec.name param_fixed)
]

abbrev pub missing_value : ParamSpec → Outcome Fault Json
missing_value spec =
    if not (is_null spec.default)
    then return spec.default
    else if spec.required
    then raise (param_error spec.name param_missing)
    else return null

module _ (read_int : String → Option ℤ) (read_float : String → Option Real) where
  abbrev pub integer_of : Json → Option Json
  integer_of (int n) = some (int n)
  integer_of (float n) = elim (whole_of n) [ none ↦ none | some k ↦ some (int k) ]
  integer_of (str s) = elim (read_int (trim s)) [ none ↦ none | some k ↦ some (int k) ]
  integer_of _ = none

  abbrev pub float_of : Json → Option Json
  float_of (int n) = some (float (finite (to_float n)))
  float_of (float n) = some (float n)
  float_of (str s) = elim (read_float (trim s)) [ none ↦ none | some k ↦ some (float k) ]
  float_of _ = none

  unfoldable pub coerce_param_value : String → String → Json → List Json → Outcome Fault Json
  unfolding is_blank same_json same_text trim
  coerce_param_value name spec_type value enum =
      if spec_type == "integer"
      then or_type_error name (integer_of value)
      else if spec_type == "number"
      then or_type_error name (float_of value)
      else if spec_type == "boolean"
      then or_type_error name (boolean_of value)
      else if spec_type == "enum"
      then if allowed value enum then return value else raise (param_error name param_invalid_enum)
      else if (spec_type == "bbox") || (spec_type == "geometry")
      then or_type_error name (shape_of value)
      else if spec_type == "ref"
      then or_type_error name (ref_of value)
      else or_type_error name (plain_of value)

  unfoldable pub given_value : ParamSpec → Json → Outcome Fault Json
  unfolding coerce_param_value within
  given_value spec null = missing_value spec
  given_value spec value = elim (coerce_param_value spec.name spec.type_name value spec.enum) [
    | raise e ↦ raise e
    | return v ↦ within spec v
  ]

  -- One round of the loop.
  unfoldable pub resolve_param : ParamSpec → Dict Json → Outcome Fault Json
  unfolding fixed_value given_value lookup
  resolve_param spec supplied =
      if spec.scope == "fixed"
      then fixed_value spec supplied
      else given_value spec (get_or spec.name null supplied)

  unfoldable pub resolve_all : List ParamSpec → Dict Json → Dict Json → Outcome Fault (Dict Json)
  unfolding resolve_param
  resolve_all [] supplied resolved = return resolved
  resolve_all (spec ∷ params) supplied resolved = elim (resolve_param spec supplied) [
    | raise e ↦ raise e
    | return v ↦ resolve_all params supplied (insert spec.name v resolved)
  ]

  unfoldable pub resolve_params : Recipe → Dict Json → Outcome Fault (Dict Json)
  unfolding resolve_all sort_texts
  resolve_params recipe supplied =
      let known = map (λ (p : ParamSpec). p.name) recipe.params in
      elim (sort_texts (keep (λ k. not (contains k known)) (keys supplied))) [
        | [] ↦ resolve_all recipe.params supplied []
        | k ∷ ks ↦ raise (param_error k param_unknown)
      ]
