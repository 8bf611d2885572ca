-- ===== src/Recipe/Catalogue/Reviews.antt =====
-- recipe/registry.py: `approve`, `reject` and `remove`, which must hit one entry.
use geo_nexus_sdk.Base.{
  String, Option, none, some, List, [], ◌∷◌, ◌++◌, lookup, remove, values, keep, length,
  if◌then◌else◌, Outcome, return, raise, given,
}
use geo_nexus_sdk.Registry.Models.{status_approved, status_rejected}
use geo_nexus_sdk.Recipe.Address.{parse_recipe_address}
use geo_nexus_sdk.Recipe.Catalogue.{
  RecipeEntry, Catalogue, CatalogueError, not_found, ambiguous, CatalogueAction, is_named, save,
  put_entry,
}

abbrev pub only_match : String → List RecipeEntry → Outcome CatalogueError RecipeEntry
only_match address [] = raise (not_found address)
only_match address (e ∷ []) = return e
only_match address (e ∷ es) = raise (ambiguous address (length (e ∷ es)))

-- `_entry_for_review`
unfoldable pub entry_for_review :
    {J : Type 0} → String → Catalogue J → Outcome CatalogueError RecipeEntry
unfolding lookup parse_recipe_address
entry_for_review address c = elim (lookup address c.entries) [
  | some e ↦ return e
  | none ↦ elim (parse_recipe_address address) [
    | none ↦ raise (not_found address)
    | some (namespace, name, version) ↦
        if given version
        then raise (not_found address)
        else only_match address (keep (is_named namespace name) (values c.entries))
  ]
]

abbrev pub reviewed : String → Option String → Option String → String → RecipeEntry → RecipeEntry
reviewed status by remark now e = record e {
  status = status;
  review_note = remark;
  review_history =
      e.review_history ++ record { action = status; by = by; at = now; remark = remark } ∷ [];
}

-- `_review`
unfoldable pub review :
    {J : Type 0}
    → String
    → String
    → Option String
    → Option String
    → String
    → CatalogueAction J RecipeEntry
unfolding entry_for_review put_entry
review address status by remark now c = elim (entry_for_review address c) [
  | raise e ↦ (raise e, c)
  | return e ↦ let e' = reviewed status by remark now e in (return e', put_entry e' c)
]

unfoldable pub approve :
    {J : Type 0} → String → Option String → Option String → String → CatalogueAction J RecipeEntry
unfolding review
approve address by remark now = review address status_approved by remark now

unfoldable pub reject :
    {J : Type 0} → String → Option String → Option String → String → CatalogueAction J RecipeEntry
unfolding review
reject address by remark now = review address status_rejected by remark now

unfoldable pub remove_recipe : {J : Type 0} → String → CatalogueAction J Unit
unfolding entry_for_review remove
remove_recipe address c = elim (entry_for_review address c) [
  | raise e ↦ (raise e, c)
  | return e ↦ (return tt, save (record c { entries = remove e.recipe.id c.entries }))
]
