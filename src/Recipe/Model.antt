-- ===== src/Recipe/Model.antt =====
-- recipe/model.py: a recipe, and the checks of its validators; and ParamSpec of geocard/model.py. A problem
-- is a value where the source writes a text. Which fields are read, and that the validators are called, is
-- pydantic's part.
use geo_nexus_sdk.Base.{
  Real, less_real, ℕ, String, Bool, true, false, not, ◌&&◌, ◌||◌, Option, none, some, List, [], ◌∷◌,
  ◌++◌, Dict, contains, some_of, eqb, if◌then◌else◌, ◌==◌, Json, str, ℤ, leb_int, is_some, is_none,
  codes, strip_left,
}
use geo_nexus_sdk.Recipe.Address.{after, parse_recipe_address}

pub record ParamSpec : Type 0 where
  pub name : String
  pub type_name : String
  pub required : Bool
  -- `null` for None
  pub default : Json
  pub enum : List Json
  pub minimum : Option Real
  pub maximum : Option Real
  pub scope : String
  pub target : Option String
  pub description : Option String

pub record RecipeStep : Type 0 where
  pub id : String
  pub uses : String
  pub kind : String
  pub depends_on : List String
  pub params : Dict Json
  pub inputs : Dict String
  pub outputs : Dict String
  pub resources : Dict Json
  -- in milliseconds
  pub timeout : Option ℤ
  pub max_attempts : ℕ
  pub description : String

pub record RecipeOutput : Type 0 where
  pub name : String
  pub from_ : String
  pub role : String
  pub media_type : Option String
  pub description : String

pub record Recipe : Type 0 where
  pub recipe_version : String
  pub id : String
  pub name : String
  pub description : String
  pub params : List ParamSpec
  pub steps : List RecipeStep
  pub entrypoint : Option String
  pub outputs : List RecipeOutput
  pub requires : List String
  pub data_snapshot : Dict String
  pub license : Option String
  pub tags : List String

-- What a validator objects to.
pub data Problem : Type 0 where
  blank unknown_kind unknown_role timeout_not_positive not_composite not_recipe bad_address
        bad_from :
      Problem
  bad_version no_steps : Problem
  empty_enum bad_range : Problem
  duplicate_step duplicate_output duplicate_param : String → Problem
  depends_on_itself : String → Problem
  depends_on_unknown : String → String → Problem
  cycle : List String → Problem
  no_entrypoint : String → Problem
  unknown_step : String → String → Problem
  undeclared_output : String → String → String → Problem
  reads_unknown : String → String → String → Problem
  reads_undeclared : String → String → String → String → Problem

-- `not value or not value.strip()`
unfoldable pub is_blank : String → Bool
unfolding strip_left
is_blank text = elim (strip_left (codes text)) [ [] ↦ true | _ ↦ false ]

abbrev pub when : Bool → Problem → List Problem
when b p = if b then p ∷ [] else []

abbrev pub step_kinds : List String
step_kinds = "skill" ∷ "model" ∷ "batch" ∷ "composite" ∷ []

abbrev pub component_roles : List String
component_roles = "data" ∷ "model" ∷ "skill" ∷ "agent" ∷ "workflow" ∷ "knowledge" ∷ "compute" ∷ []

-- The two validators of ParamSpec.
abbrev pub is_blank_text : Json → Bool
is_blank_text (str s) = is_blank s
is_blank_text _ = false

abbrev pub backwards : Option Real → Option Real → Bool
backwards (some low) (some high) = less_real high low
backwards _ _ = false

unfoldable pub param_problems : ParamSpec → List Problem
unfolding is_blank
param_problems p =
    when (some_of is_blank_text p.enum) empty_enum ++ when (backwards p.minimum p.maximum) bad_range

-- The field validators of RecipeStep, and `_composite_uses_a_recipe`, which pydantic calls if they pass.
abbrev pub is_positive : Option ℤ → Bool
is_positive none = true
is_positive (some t) = not (leb_int t (ℤ.pos 0))

unfoldable pub field_problems : RecipeStep → List Problem
unfolding is_blank
field_problems s =
    when (is_blank s.id || is_blank s.uses) blank
    ++ (when (not (contains s.kind step_kinds)) unknown_kind
        ++ when (not (is_positive s.timeout)) timeout_not_positive)

unfoldable pub composite_problems : RecipeStep → List Problem
unfolding after parse_recipe_address
composite_problems s =
    let nested = is_some (after "recipe://" s.uses) in
    if (s.kind == "composite") && not nested
    then not_recipe ∷ []
    else if nested && not (s.kind == "composite")
    then not_composite ∷ []
    else when (nested && is_none (parse_recipe_address s.uses)) bad_address

unfoldable pub step_problems : RecipeStep → List Problem
unfolding field_problems composite_problems
step_problems s = elim (field_problems s) [ [] ↦ composite_problems s | p ∷ ps ↦ p ∷ ps ]

-- `text.partition(mark)`, for a mark of one character: what is in front of the first mark, and behind it.
unfoldable pub partition : ℕ → String → String × String
partition mark String.[] = ("", "")
partition mark (String.◌∷◌ c s) =
    let rest = partition mark s in
    if eqb (Prim.Native.Char.code c) mark then ("", s) else (String.◌∷◌ c rest.0, rest.1)

-- `"." in text`
unfoldable pub has_mark : ℕ → String → Bool
has_mark mark String.[] = false
has_mark mark (String.◌∷◌ c s) = eqb (Prim.Native.Char.code c) mark || has_mark mark s

-- `parts`
unfoldable pub parts : RecipeOutput → String × String
unfolding partition
parts o = partition 46 o.from_

unfoldable pub output_problems : RecipeOutput → List Problem
unfolding is_blank has_mark
output_problems o =
    let fields =
      when (is_blank o.name) blank ++ when (not (contains o.role component_roles)) unknown_role in
    elim fields [ [] ↦ when (not (has_mark 46 o.from_)) bad_from | p ∷ ps ↦ p ∷ ps ]
