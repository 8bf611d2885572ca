-- ===== src/Recipe/Endings.antt =====
-- recipe/materialize.py: which errors can come out of the resolution of the parameters.
use geo_nexus_sdk.Base.{
  Real, String, Bool, true, false, not, ◌||◌, Option, none, some, List, [], ◌∷◌, Dict, map, lookup,
  insert, contains, keys, keep, if◌then◌else◌, ◌==◌, Json, null, bool, int, float, str, arr, obj,
  Outcome, return, raise, ℤ, Option-cases, List-cases, inl, inr, same_json, get_or,
}
use geo_nexus_sdk.Recipe.Model.{Recipe, ParamSpec}
use geo_nexus_sdk.Recipe.Checks.{sort_texts}
use geo_nexus_sdk.Recipe.Queries.{is_null}
use geo_nexus_sdk.Recipe.Params.{
  Fault, param_error, graph_error, unknown_kind, resolve_params, resolve_all, resolve_param,
  fixed_value, given_value, missing_value, within, coerce_param_value, or_type_error, integer_of,
  float_of, boolean_of, shape_of, ref_of, plain_of, allowed, under, over, is_listed, amount_of,
  param_missing, param_invalid_enum, param_out_of_range, param_fixed,
}

-- Any error but a refusal by the graph of tasks and a kind of step that is not known.
abbrev pub Fair : Fault → Type 0
Fair (graph_error e) = ⊥
Fair unknown_kind = ⊥
Fair _ = Unit

-- A result with the property, or such an error.
abbrev pub Ends : {A : Type 0} → (A → Type 0) → Outcome Fault A → Type 0
Ends P (return a) = P a
Ends P (raise e) = Fair e

abbrev pub AnyOf : {A : Type 0} → A → Type 0
AnyOf a = Unit

pub chain-Ends :
    {A B : Type 0} (P : A → Type 0) (Q : B → Type 0) (m : Outcome Fault A) (k : A → Outcome Fault B)
    → Ends P m
    → ((a : A) → P a → Ends Q (k a))
    → Ends Q (elim m as (λ _. Outcome Fault B) [ raise e ↦ raise e | return a ↦ k a ])
chain-Ends P Q (return a) k h next = next a h
chain-Ends P Q (raise e) k h next = h

pub if-Ends :
    {A : Type 0} (P : A → Type 0) (b : Bool) (m n : Outcome Fault A)
    → Ends P m
    → Ends P n
    → Ends P (if b then m else n)
if-Ends P true m n hm hn = hm
if-Ends P false m n hm hn = hn

or_type_error-Ends : (name : String) (o : Option Json) → Ends AnyOf (or_type_error name o)
or_type_error-Ends name none = tt
or_type_error-Ends name (some v) = tt

within-Ends : (spec : ParamSpec) (v : Json) → Ends AnyOf (within spec v)
unfolding within
within-Ends spec v =
    if-Ends AnyOf (under (amount_of v) spec.minimum || over (amount_of v) spec.maximum)
      (raise (param_error spec.name param_out_of_range))
      (if is_listed spec.enum v then return v else raise (param_error spec.name param_invalid_enum))
      tt
      (if-Ends AnyOf (is_listed spec.enum v) (return v)
        (raise (param_error spec.name param_invalid_enum)) tt tt)

missing-Ends : (spec : ParamSpec) → Ends AnyOf (missing_value spec)
missing-Ends spec =
    if-Ends AnyOf (not (is_null spec.default)) (return spec.default)
      (if spec.required then raise (param_error spec.name param_missing) else return null) tt
      (if-Ends AnyOf spec.required (raise (param_error spec.name param_missing)) (return null) tt
        tt)

fixed-Ends : (spec : ParamSpec) (supplied : Dict Json) → Ends AnyOf (fixed_value spec supplied)
unfolding fixed_value
fixed-Ends spec supplied = elim (Option-cases (lookup spec.name supplied)) [
  | inl absent ↦ rw (fixed_value, absent) tt
  | inr (v, found) ↦
      rw (fixed_value, found)
        (if-Ends AnyOf (same_json v spec.default) (return spec.default)
          (raise (param_error spec.name param_fixed)) tt tt)
]

module _ (read_int : String → Option ℤ) (read_float : String → Option Real) where
  coerce-Ends :
      (name spec_type : String) (v : Json) (enum : List Json)
      → Ends AnyOf (coerce_param_value read_int read_float name spec_type v enum)
  unfolding coerce_param_value
  coerce-Ends name spec_type v enum =
      let fail = raise (param_error name param_invalid_enum) in
      let last = or_type_error name (plain_of v) in
      let refs = if spec_type == "ref" then or_type_error name (ref_of v) else last in
      let shapes =
        if (spec_type == "bbox") || (spec_type == "geometry")
        then or_type_error name (shape_of v)
        else refs in
      let listed = if allowed v enum then return v else fail in
      let enums = if spec_type == "enum" then listed else shapes in
      let booleans = if spec_type == "boolean" then or_type_error name (boolean_of v) else enums in
      let floats =
        if spec_type == "number"
        then or_type_error name (float_of read_int read_float v)
        else booleans in
      if-Ends AnyOf (spec_type == "integer") (or_type_error name (integer_of read_int read_float v))
        floats (or_type_error-Ends name (integer_of read_int read_float v))
        (if-Ends AnyOf (spec_type == "number") (or_type_error name (float_of read_int read_float v))
          booleans (or_type_error-Ends name (float_of read_int read_float v))
          (if-Ends AnyOf (spec_type == "boolean") (or_type_error name (boolean_of v)) enums
            (or_type_error-Ends name (boolean_of v))
            (if-Ends AnyOf (spec_type == "enum") listed shapes
              (if-Ends AnyOf (allowed v enum) (return v) fail tt tt)
              (if-Ends AnyOf ((spec_type == "bbox") || (spec_type == "geometry"))
                (or_type_error name (shape_of v)) refs (or_type_error-Ends name (shape_of v))
                (if-Ends AnyOf (spec_type == "ref") (or_type_error name (ref_of v)) last
                  (or_type_error-Ends name (ref_of v)) (or_type_error-Ends name (plain_of v)))))))

  checked-Ends :
      (spec : ParamSpec) (v : Json)
      → Ends AnyOf
          (elim (coerce_param_value read_int read_float spec.name spec.type_name v spec.enum)
            as (λ _. Outcome Fault Json) [ raise e ↦ raise e | return v ↦ within spec v ])
  checked-Ends spec v =
      chain-Ends AnyOf AnyOf
        (coerce_param_value read_int read_float spec.name spec.type_name v spec.enum) (within spec)
        (coerce-Ends spec.name spec.type_name v spec.enum) (λ w _. within-Ends spec w)

  given-Ends : (spec : ParamSpec) (v : Json) → Ends AnyOf (given_value read_int read_float spec v)
  unfolding given_value
  given-Ends spec null = missing-Ends spec
  given-Ends spec (bool b) = checked-Ends spec (bool b)
  given-Ends spec (int n) = checked-Ends spec (int n)
  given-Ends spec (float n) = checked-Ends spec (float n)
  given-Ends spec (str s) = checked-Ends spec (str s)
  given-Ends spec (arr vs) = checked-Ends spec (arr vs)
  given-Ends spec (obj fs) = checked-Ends spec (obj fs)

  resolve_param-Ends :
      (spec : ParamSpec) (supplied : Dict Json)
      → Ends AnyOf (resolve_param read_int read_float spec supplied)
  unfolding resolve_param
  resolve_param-Ends spec supplied =
      if-Ends AnyOf (spec.scope == "fixed") (fixed_value spec supplied)
        (given_value read_int read_float spec (get_or spec.name null supplied))
        (fixed-Ends spec supplied) (given-Ends spec (get_or spec.name null supplied))

  resolve_all-Ends :
      (params : List ParamSpec) (supplied resolved : Dict Json)
      → Ends AnyOf (resolve_all read_int read_float params supplied resolved)
  unfolding resolve_all
  resolve_all-Ends [] supplied resolved = tt
  resolve_all-Ends (spec ∷ params) supplied resolved =
      chain-Ends AnyOf AnyOf (resolve_param read_int read_float spec supplied)
        (λ v. resolve_all read_int read_float params supplied (insert spec.name v resolved))
        (resolve_param-Ends spec supplied)
        (λ v _. resolve_all-Ends params supplied (insert spec.name v resolved))

  pub resolve_params-Ends :
      (recipe : Recipe) (supplied : Dict Json)
      → Ends AnyOf (resolve_params read_int read_float recipe supplied)
  unfolding resolve_params
  resolve_params-Ends recipe supplied =
      let known = map (λ (p : ParamSpec). p.name) recipe.params in
      elim (List-cases (sort_texts (keep (λ k. not (contains k known)) (keys supplied)))) [
        | inl none_left ↦
            rw (resolve_params, none_left) (resolve_all-Ends recipe.params supplied [])
        | inr (k, ks, left) ↦ rw (resolve_params, left) tt
      ]
