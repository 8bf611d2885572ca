-- ===== src/Recipe/Address.antt =====
-- recipe/model.py, RECIPE_ADDRESS_RE, parse_recipe_address and format_recipe_address. As in Python, the `$`
-- of the pattern also matches in front of a newline that ends the text.
pub mod Inverse
use Prim.Native.Char.{code, Char}
use Prim.Native.String.{◌++◌ as text_append}
use geo_nexus_sdk.Base.{
  ℕ, String, Bool, true, false, ◌&&◌, ◌||◌, Option, none, some, leb, eqb, if◌then◌else◌, ◌==◌,
}

-- `[A-Za-z0-9]`.
abbrev pub is_alnum : ℕ → Bool
is_alnum c = (leb 48 c && leb c 57) || ((leb 65 c && leb c 90) || (leb 97 c && leb c 122))

-- `[A-Za-z0-9._-]`, `[A-Za-z0-9.+_-]`.
abbrev pub is_slug : ℕ → Bool
is_slug c = is_alnum c || (eqb c 46 || (eqb c 95 || eqb c 45))

abbrev pub is_version : ℕ → Bool
is_version c = is_slug c || eqb c 43

-- The longest beginning whose characters pass, and what follows.
unfoldable pub span : (ℕ → Bool) → String → String × String
span p String.[] = ("", "")
span p (String.◌∷◌ c s) =
    let rest = span p s in
    if p (code c) then (String.◌∷◌ c rest.0, rest.1) else ("", String.◌∷◌ c s)

-- One alphanumeric character, and then any that pass.
unfoldable pub word : (ℕ → Bool) → String → Option (String × String)
unfolding span
word p String.[] = none
word p (String.◌∷◌ c s) =
    if is_alnum (code c) then some (String.◌∷◌ c (span p s).0, (span p s).1) else none

-- What follows a beginning.
unfoldable pub after : String → String → Option String
after String.[] s = some s
after (String.◌∷◌ c p) String.[] = none
after (String.◌∷◌ c p) (String.◌∷◌ d s) =
    let rest = after p s in if eqb (code c) (code d) then rest else none

-- `$`.
abbrev pub at_end : String → Bool
at_end s = s == "" || s == "\n"

abbrev pub Address : Type 0
Address = String × String × Option String

unfoldable pub version_part : String → String → String → Option Address
unfolding after word
version_part namespace name rest =
    if at_end rest then some (namespace, name, none) else elim (after "@" rest) [
      | none ↦ none
      | some text ↦ elim (word is_version text) [
        | none ↦ none
        | some (version, rest) ↦ if at_end rest then some (namespace, name, some version) else none
      ]
    ]

unfoldable pub name_part : String → String → Option Address
unfolding after word version_part
name_part namespace rest = elim (after "/" rest) [
  | none ↦ none
  | some text ↦ elim (word is_slug text) [
    | none ↦ none
    | some (name, rest) ↦ version_part namespace name rest
  ]
]

-- `none` where the source raises RecipeValidationError.
unfoldable pub parse_recipe_address : String → Option Address
unfolding after word name_part
parse_recipe_address address = elim (after "recipe://" address) [
  | none ↦ none
  | some text ↦ elim (word is_slug text) [
    | none ↦ none
    | some (namespace, rest) ↦ name_part namespace rest
  ]
]

-- `if version`: an empty text counts as none.
unfoldable pub format_recipe_address : String → String → Option String → String
format_recipe_address namespace name version =
    let base = text_append "recipe://" (text_append namespace (text_append "/" name)) in
    elim version [
      | none ↦ base
      | some v ↦ if v == "" then base else text_append base (text_append "@" v)
    ]
