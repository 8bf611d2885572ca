-- ===== src/Recipe/Templates.antt =====
-- recipe/materialize.py: `${params.<name>}` in the values of a step. How Python writes a value is a parameter.
use Prim.Native.Char.{Char, code}
use Prim.Native.String.{◌++◌ as text_append}
use geo_nexus_sdk.Base.{
  ℕ, zero, suc, ◌-◌, String, Bool, ◌&&◌, ◌||◌, Option, none, some, List, [], ◌∷◌, ◌++◌, Dict,
  lookup, leb, eqb, if◌then◌else◌, ◌==◌, Json, null, bool, int, float, str, arr, obj, Items, nil,
  cons, Fields, end, field, Outcome, return, raise, trim, trim_left,
}
use geo_nexus_sdk.Recipe.Address.{is_alnum, span, after}
use geo_nexus_sdk.Recipe.Params.{Fault, undeclared}

abbrev pub is_name_start : ℕ → Bool
is_name_start c = (leb 65 c && leb c 90) || ((leb 97 c && leb c 122) || eqb c 95)

abbrev pub is_name_part : ℕ → Bool
is_name_part c = is_alnum c || eqb c 95

-- `[A-Za-z_][A-Za-z0-9_]*`
unfoldable pub param_name : String → Option (String × String)
unfolding span
param_name String.[] = none
param_name (String.◌∷◌ c s) =
    if is_name_start (code c)
    then some (String.◌∷◌ c (span is_name_part s).0, (span is_name_part s).1)
    else none

-- A match of PARAM_TEMPLATE_RE at the beginning: the name, and what follows.
unfoldable pub template_at : String → Option (String × String)
unfolding after trim_left param_name
template_at s = elim (after "${" s) [
  | none ↦ none
  | some s ↦ elim (after "params." (trim_left s)) [
    | none ↦ none
    | some s ↦ elim (param_name s) [
      | none ↦ none
      | some (name, s) ↦ elim (after "}" (trim_left s)) [
        | none ↦ none
        | some rest ↦ some (name, rest)
      ]
    ]
  ]
]

-- `fullmatch`
unfoldable pub whole_template : String → Option String
unfolding template_at
whole_template s = elim (template_at s) [
  | none ↦ none
  | some (name, rest) ↦ if rest == "" then some name else none
]

pub data Piece : Type 0 where
  char : Char → Piece
  hole : String → Piece

abbrev pub size : String → ℕ
size String.[] = 0
size (String.◌∷◌ c s) = suc (size s)

-- The matches from left to right, and what is between them; the first number is how many characters a
-- match has taken already.
unfoldable pub pieces : ℕ → String → List Piece
unfolding template_at
pieces n String.[] = []
pieces zero (String.◌∷◌ c s) = elim (template_at (String.◌∷◌ c s)) [
  | none ↦ char c ∷ pieces zero s
  | some (name, rest) ↦ hole name ∷ pieces (size s - size rest) s
]
pieces (suc n) (String.◌∷◌ c s) = pieces n s

abbrev pub names_of : List Piece → List String
names_of [] = []
names_of (char c ∷ ps) = names_of ps
names_of (hole name ∷ ps) = name ∷ names_of ps

-- `_unknown_templates`
unfoldable mutual
  unfolding pieces

  pub unknown_templates : Json → List String
  unknown_templates (str s) = names_of (pieces zero s)
  unknown_templates (arr vs) = unknown_in_items vs
  unknown_templates (obj fs) = unknown_in_fields fs
  unknown_templates null = []
  unknown_templates (bool b) = []
  unknown_templates (int n) = []
  unknown_templates (float n) = []

  pub unknown_in_items : Items → List String
  unknown_in_items nil = []
  unknown_in_items (cons v vs) = unknown_templates v ++ unknown_in_items vs

  pub unknown_in_fields : Fields → List String
  unknown_in_fields end = []
  unknown_in_fields (field k v fs) = unknown_templates v ++ unknown_in_fields fs

module _ (show : Json → String) (params : Dict Json) (step_id : String) where
  -- `_as_text`
  abbrev pub text_of : Json → String
  text_of null = ""
  text_of v = show v

  unfoldable pub fill : List Piece → Outcome Fault String
  unfolding lookup
  fill [] = return ""
  fill (char c ∷ ps) = elim (fill ps) [ raise e ↦ raise e | return s ↦ return (String.◌∷◌ c s) ]
  fill (hole name ∷ ps) = elim (lookup name params) [
    | none ↦ raise (undeclared step_id (name ∷ []))
    | some v ↦ elim (fill ps) [ raise e ↦ raise e | return s ↦ return (text_append (text_of v) s) ]
  ]

  unfoldable pub substitute_text : String → Outcome Fault Json
  unfolding whole_template pieces fill lookup trim
  substitute_text s = elim (whole_template (trim s)) [
    | some name ↦ elim (lookup name params) [
      | none ↦ raise (undeclared step_id (name ∷ []))
      | some v ↦ return v
    ]
    | none ↦ elim (fill (pieces zero s)) [ raise e ↦ raise e | return t ↦ return (str t) ]
  ]

  -- `_substitute`
  unfoldable mutual
    unfolding substitute_text

    pub substitute : Json → Outcome Fault Json
    substitute (str s) = substitute_text s
    substitute (arr vs) = elim (substitute_items vs) [
      | raise e ↦ raise e
      | return ws ↦ return (arr ws)
    ]
    substitute (obj fs) = elim (substitute_fields fs) [
      | raise e ↦ raise e
      | return gs ↦ return (obj gs)
    ]
    substitute null = return null
    substitute (bool b) = return (bool b)
    substitute (int n) = return (int n)
    substitute (float n) = return (float n)

    pub substitute_items : Items → Outcome Fault Items
    substitute_items nil = return nil
    substitute_items (cons v vs) = elim (substitute v) [
      | raise e ↦ raise e
      | return w ↦ elim (substitute_items vs) [ raise e ↦ raise e | return ws ↦ return (cons w ws) ]
    ]

    pub substitute_fields : Fields → Outcome Fault Fields
    substitute_fields end = return end
    substitute_fields (field k v fs) = elim (substitute v) [
      | raise e ↦ raise e
      | return w ↦ elim (substitute_fields fs) [
        | raise e ↦ raise e
        | return gs ↦ return (field k w gs)
      ]
    ]
