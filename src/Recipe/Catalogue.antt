-- ===== src/Recipe/Catalogue.antt =====
-- recipe/registry.py, RecipeRegistry: the catalogue of recipes under review. `saved` is what the file of the
-- catalogue holds after the last write: the entries in order, as `to_dict` writes them. How a recipe is written
-- as JSON and read back (model_dump and model_validate of pydantic) is `form`. `now` is what the clock reads, as
-- a text, which is never empty.
pub mod Reviews
pub mod Lookup
pub mod Fork
pub mod Derivation
pub mod Forked
pub mod Versions
pub mod Latest
pub mod Kept
pub mod Sound
mod Tests
use Prim.Native.Char.{code}
use Prim.Native.String.{◌++◌ as text_append, compare as compare_text}
use Prim.Native.Nat.{Ordering}
use geo_nexus_sdk.Base.{
  ℕ, zero, suc, ◌+◌, ◌*◌, ◌-◌, String, Bool, true, false, not, ◌&&◌, ◌||◌, Option, none, some, List,
  [], ◌∷◌, ◌++◌, Dict, map, lookup, insert, remove, contains, keys, values, has, keep, some_of,
  length, take, leb, eqb, ltb, if◌then◌else◌, ◌==◌, Json, Outcome, return, raise, Action, ◌>>=◌,
  ◌>>◌, pure, throw, modify, get_state, or_text, given, ℤ, pos, negsuc, leb_int, eqb_int, has_text,
  lower, codes, trim, is_some,
}
use geo_nexus_sdk.Registry.Models.{review_statuses, status_approved}
use geo_nexus_sdk.Recipe.Address.{parse_recipe_address, format_recipe_address}
use geo_nexus_sdk.Recipe.Model.{
  ParamSpec, RecipeOutput, RecipeStep, Recipe, Problem, partition, has_mark,
}
use geo_nexus_sdk.Recipe.Checks.{recipe_problems, sort_texts}
use geo_nexus_sdk.Recipe.Queries.{find_param, uses_of}
use geo_nexus_sdk.Recipe.Params.{Fault, coerce_param_value}

-- A line of `review_history`.
pub record Review : Type 0 where
  pub action : String
  pub by : Option String
  pub at : String
  pub remark : Option String

pub record RecipeEntry : Type 0 where
  pub recipe : Recipe
  pub provider_url : String
  pub status : String
  pub submitted_by : Option String
  pub review_note : Option String
  pub review_history : List Review
  pub created_at : String

-- `to_dict` and `from_dict` of a recipe; the second can refuse what it is given.
pub record RecipeForm (J : Type 0) : Type 0 where
  pub dump : Recipe → J
  pub load : J → Option Recipe

-- The keys of an entry in the file, each of which can be missing.
pub record EntryDict (J : Type 0) : Type 0 where
  pub recipe : Option J
  pub provider_url : Option String
  pub status : Option String
  pub submitted_by : Option String
  pub review_note : Option String
  pub review_history : Option (List Review)
  pub created_at : Option String

abbrev pub to_dict : {J : Type 0} → RecipeForm J → RecipeEntry → EntryDict J
to_dict form e = record {
  recipe = some (form.dump e.recipe);
  provider_url = some e.provider_url;
  status = some e.status;
  submitted_by = e.submitted_by;
  review_note = e.review_note;
  review_history = some e.review_history;
  created_at = some e.created_at;
}

-- `data.get(key, default)`
abbrev pub or_default : {A : Type 0} → A → Option A → A
or_default d none = d
or_default d (some a) = a

unfoldable pub from_dict : {J : Type 0} → RecipeForm J → String → EntryDict J → Option RecipeEntry
from_dict form now d = elim d.recipe [
  | none ↦ none
  | some j ↦ elim (form.load j) [
    | none ↦ none
    | some r ↦ some (record {
      recipe = r;
      provider_url = or_default "" d.provider_url;
      status = or_default status_approved d.status;
      submitted_by = d.submitted_by;
      review_note = d.review_note;
      review_history = or_default [] d.review_history;
      created_at = or_default now d.created_at;
    })
  ]
]

pub record Catalogue (J : Type 0) : Type 0 where
  pub entries : Dict RecipeEntry
  pub saved : Option (List (EntryDict J))
  pub form : RecipeForm J

pub data CatalogueError : Type 0 where
  unknown_status : String → CatalogueError
  invalid : List Problem → CatalogueError
  bad_address : String → CatalogueError
  conflict : String → CatalogueError
  not_found not_approved : String → CatalogueError
  ambiguous : String → ℕ → CatalogueError
  unknown_params : List String → CatalogueError
  refused_value : Fault → CatalogueError
  -- an entry of the file without a recipe, or with one that does not validate
  invalid_entry : CatalogueError

abbrev pub CatalogueAction : Type 0 → Type 0 → Type 0
CatalogueAction J A = Action CatalogueError (Catalogue J) A

-- `int(chunk) if chunk.isdigit() else -1`, on the characters of an address.
abbrev pub is_digit : ℕ → Bool
is_digit c = leb 48 c && leb c 57

unfoldable pub read_digits : ℕ → String → Option ℕ
read_digits n String.[] = some n
read_digits n (String.◌∷◌ c s) =
    let rest = read_digits (n * 10 + (code c - 48)) s in if is_digit (code c) then rest else none

unfoldable pub chunk_number : String → ℤ
unfolding read_digits
chunk_number s =
    if s == "" then negsuc 0 else elim (read_digits 0 s) [ none ↦ negsuc 0 | some n ↦ pos n ]

-- `text.split(".")`: the first piece, and the others.
unfoldable pub split_dots : String → String × List String
split_dots String.[] = ("", [])
split_dots (String.◌∷◌ c s) =
    let rest = split_dots s in
    if eqb (code c) 46 then ("", rest.0 ∷ rest.1) else (String.◌∷◌ c rest.0, rest.1)

abbrev pub pad_three : List ℤ → List ℤ
pad_three [] = pos 0 ∷ pos 0 ∷ pos 0 ∷ []
pad_three (a ∷ []) = a ∷ pos 0 ∷ pos 0 ∷ []
pad_three (a ∷ b ∷ []) = a ∷ b ∷ pos 0 ∷ []
pad_three ns = ns

unfoldable pub version_key : Option String → List ℤ
unfolding partition split_dots chunk_number
version_key none = pos 0 ∷ []
version_key (some version) =
    if version == ""
    then pos 0 ∷ []
    else let core = (partition 45 (partition 43 version).0).0 in
      let chunks = split_dots core in pad_three (map chunk_number (chunks.0 ∷ chunks.1))

-- `<` on tuples of numbers.
unfoldable pub less_key : List ℤ → List ℤ → Bool
less_key xs [] = false
less_key [] (b ∷ bs) = true
less_key (a ∷ xs) (b ∷ bs) = let rest = less_key xs bs in if eqb_int a b then rest else leb_int a b

-- The parts of the address of an entry, which has passed its validator.
abbrev pub slug_of : Recipe → String
slug_of r = elim (parse_recipe_address r.id) [ none ↦ "" | some (namespace, name, version) ↦ name ]

abbrev pub namespace_of : Recipe → String
namespace_of r = elim (parse_recipe_address r.id) [
  | none ↦ ""
  | some (namespace, name, version) ↦ namespace
]

abbrev pub version_of : Recipe → Option String
version_of r = elim (parse_recipe_address r.id) [
  | none ↦ none
  | some (namespace, name, version) ↦ version
]

abbrev pub is_named : String → String → RecipeEntry → Bool
is_named namespace name e = (namespace_of e.recipe == namespace) && (slug_of e.recipe == name)

-- `_save`
abbrev pub save : {J : Type 0} → Catalogue J → Catalogue J
save c = record c { saved = some (map (to_dict c.form) (values c.entries)) }

-- The loop of `_load`: where an entry is refused it raises, and keeps what it has read so far.
unfoldable pub load_entries :
    {J : Type 0}
    → (J → Option RecipeEntry)
    → Dict RecipeEntry
    → List J
    → Outcome CatalogueError Unit × Dict RecipeEntry
load_entries read d [] = (return tt, d)
load_entries read d (raw ∷ raws) = elim (read raw) [
  | none ↦ (raise invalid_entry, d)
  | some e ↦ load_entries read (insert e.recipe.id e d) raws
]

-- The entries are cleared, and the file is read.
unfoldable pub reload : {J : Type 0} → String → CatalogueAction J Unit
unfolding load_entries from_dict
reload now c = elim c.saved [
  | none ↦ (return tt, c)
  | some raws ↦
      let read = load_entries (from_dict c.form now) [] raws in
      (read.0, record c { entries = read.1 })
]

pub record Registration : Type 0 where
  pub provider_url : String
  pub status : String
  pub submitted_by : Option String
  pub replace : Bool
  pub review_note : Option String
  pub now : String

abbrev pub entry_of : Recipe → Registration → RecipeEntry
entry_of r g = record {
  recipe = r;
  provider_url = g.provider_url;
  status = g.status;
  submitted_by = g.submitted_by;
  review_note = g.review_note;
  review_history =
      record { action = "registered"; by = g.submitted_by; at = g.now; remark = g.review_note }
      ∷ [];
  created_at = g.now;
}

unfoldable pub put_entry : {J : Type 0} → RecipeEntry → Catalogue J → Catalogue J
put_entry e c = save (record c { entries = insert e.recipe.id e c.entries })

unfoldable pub register : {J : Type 0} → Recipe → Registration → CatalogueAction J RecipeEntry
unfolding put_entry lookup
register r g c =
    if not (contains g.status review_statuses)
    then (raise (unknown_status g.status), c)
    else elim (recipe_problems r) [
      | p ∷ ps ↦ (raise (invalid (p ∷ ps)), c)
      | [] ↦
          if has r.id c.entries && not g.replace
          then (raise (conflict r.id), c)
          else (return (entry_of r g), put_entry (entry_of r g) c)
    ]
