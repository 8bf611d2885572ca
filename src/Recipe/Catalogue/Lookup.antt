-- ===== src/Recipe/Catalogue/Lookup.antt =====
-- recipe/registry.py: `get`, `require`, `resolve`, `versions` and `search`.
use Prim.Native.String.{◌++◌ as text_append}
use geo_nexus_sdk.Base.{
  false, length, has, ℤ, zero, suc, ℕ, String, Bool, true, not, ◌&&◌, ◌||◌, Option, none, some,
  List, [], ◌∷◌, map, lookup, values, keep, contains, some_of, take, if◌then◌else◌, ◌==◌, Outcome,
  return, raise, given, is_some, has_text, lower, codes, trim, leb_text,
}
use geo_nexus_sdk.Registry.Models.{status_approved}
use geo_nexus_sdk.Recipe.Address.{parse_recipe_address}
use geo_nexus_sdk.Recipe.Queries.{find_param, uses_of, reusable_param_names, deliverable_names}
use geo_nexus_sdk.Recipe.Catalogue.{
  RecipeEntry, Catalogue, CatalogueError, bad_address, not_found, not_approved, is_named,
  version_key, less_key, slug_of, namespace_of, version_of,
}

unfoldable pub get : {J : Type 0} → String → Catalogue J → Option RecipeEntry
unfolding lookup
get id c = lookup id c.entries

abbrev pub is_approved : RecipeEntry → Bool
is_approved e = e.status == status_approved

unfoldable pub require :
    {J : Type 0} → String → Bool → Catalogue J → Outcome CatalogueError RecipeEntry
unfolding lookup
require id approved_only c = elim (lookup id c.entries) [
  | none ↦ raise (not_found id)
  | some e ↦ if approved_only && not (is_approved e) then raise (not_approved id) else return e
]

abbrev pub key_of : RecipeEntry → List ℤ
key_of e = version_key (version_of e.recipe)

-- `max(candidates, key=...)`: the first of the greatest.
unfoldable pub latest : RecipeEntry → List RecipeEntry → RecipeEntry
unfolding version_key less_key
latest best [] = best
latest best (e ∷ es) = latest (if less_key (key_of best) (key_of e) then e else best) es

abbrev pub latest_of : List RecipeEntry → Option RecipeEntry
latest_of [] = none
latest_of (e ∷ es) = some (latest e es)

unfoldable pub resolve :
    {J : Type 0} → String → Bool → Catalogue J → Outcome CatalogueError (Option RecipeEntry)
unfolding lookup parse_recipe_address latest
resolve address approved_only c = elim (lookup address c.entries) [
  | some e ↦ return (if approved_only && not (is_approved e) then none else some e)
  | none ↦ elim (parse_recipe_address address) [
    | none ↦ raise (bad_address address)
    | some (namespace, name, version) ↦
        if given version
        then return none
        else return (
            latest_of (
              keep (λ e. is_named namespace name e && (not approved_only || is_approved e))
                (values c.entries)))
  ]
]

-- A stable sort by a test that holds of what may stand in front.
unfoldable pub insert_entry :
    (RecipeEntry → RecipeEntry → Bool) → RecipeEntry → List RecipeEntry → List RecipeEntry
insert_entry before e [] = e ∷ []
insert_entry before e (x ∷ xs) = if before x e then x ∷ insert_entry before e xs else e ∷ x ∷ xs

unfoldable pub sort_entries :
    (RecipeEntry → RecipeEntry → Bool) → List RecipeEntry → List RecipeEntry → List RecipeEntry
unfolding insert_entry
sort_entries before out [] = out
sort_entries before out (e ∷ es) = sort_entries before (insert_entry before e out) es

-- Older or as old.
unfoldable pub no_newer : RecipeEntry → RecipeEntry → Bool
unfolding less_key version_key
no_newer a b = not (less_key (key_of b) (key_of a))

unfoldable pub versions : {J : Type 0} → String → String → Catalogue J → List RecipeEntry
unfolding sort_entries no_newer
versions namespace name c =
    sort_entries no_newer [] (keep (is_named namespace name) (values c.entries))

unfoldable pub by_slug : RecipeEntry → RecipeEntry → Bool
unfolding no_newer
by_slug a b =
    if slug_of a.recipe == slug_of b.recipe
    then no_newer a b
    else leb_text (slug_of a.recipe) (slug_of b.recipe)

pub record Query : Type 0 where
  pub needle : String
  pub namespace : Option String
  pub status : Option String
  pub tag : Option String
  pub param : Option String
  pub output_role : Option String
  pub approved_only : Bool
  pub limit : Option ℕ

-- `not wanted or test(wanted)`
abbrev pub asked : Option String → (String → Bool) → Bool
asked none test = true
asked (some t) test = (t == "") || test t

abbrev pub joined : List String → String
joined [] = ""
joined (t ∷ []) = t
joined (t ∷ ts) = text_append t (text_append " " (joined ts))

abbrev pub haystack : RecipeEntry → String
haystack e =
    let r = e.recipe in
    joined (
      r.id
      ∷ r.name
      ∷ r.description
      ∷ joined r.tags
      ∷ joined (uses_of r)
      ∷ joined (map (λ p. p.name) r.params)
      ∷ [])

abbrev pub has_needle : String → RecipeEntry → Bool
has_needle needle e =
    let n = map lower (codes (trim needle)) in has_text n (map lower (codes (haystack e)))

unfoldable pub matches : Query → RecipeEntry → Bool
unfolding uses_of has_text trim find_param
matches q e =
    asked q.namespace (λ n. namespace_of e.recipe == n)
    && (asked q.status (λ s. e.status == s)
        && ((not q.approved_only || is_approved e)
            && (asked q.tag (λ t. contains t e.recipe.tags)
                && (asked q.param (λ p. is_some (find_param p e.recipe.params))
                    && (asked q.output_role (λ role. some_of (λ o. o.role == role) e.recipe.outputs)
                        && has_needle q.needle e)))))

-- `out[:limit] if limit else out`
abbrev pub cut : Option ℕ → List RecipeEntry → List RecipeEntry
cut none es = es
cut (some zero) es = es
cut (some (suc n)) es = take (suc n) es

unfoldable pub search : {J : Type 0} → Query → Catalogue J → List RecipeEntry
unfolding matches sort_entries by_slug
search q c = cut q.limit (sort_entries by_slug [] (keep (matches q) (values c.entries)))

-- `list`
unfoldable pub list_recipes : {J : Type 0} → Option String → Catalogue J → List RecipeEntry
unfolding search
list_recipes status c =
    search
      (record {
        needle = "";
        namespace = none;
        status = status;
        tag = none;
        param = none;
        output_role = none;
        approved_only = false;
        limit = none;
      })
      c

-- `len`, `in`
unfoldable pub count_recipes : {J : Type 0} → Catalogue J → ℕ
count_recipes c = length c.entries

unfoldable pub is_registered : {J : Type 0} → String → Catalogue J → Bool
is_registered id c = has id c.entries

pub record Summary : Type 0 where
  pub id : String
  pub name : String
  pub description : String
  pub version : Option String
  pub status : String
  pub provider_url : String
  pub steps : ℕ
  pub params : List String
  pub reusable_params : List String
  pub outputs : List String
  pub tags : List String
  pub license : Option String
  pub created_at : String

unfoldable pub summary : RecipeEntry → Summary
unfolding reusable_param_names deliverable_names
summary e = record {
  id = e.recipe.id;
  name = e.recipe.name;
  description = e.recipe.description;
  version = version_of e.recipe;
  status = e.status;
  provider_url = e.provider_url;
  steps = length e.recipe.steps;
  params = map (λ p. p.name) e.recipe.params;
  reusable_params = reusable_param_names e.recipe;
  outputs = deliverable_names e.recipe;
  tags = e.recipe.tags;
  license = e.recipe.license;
  created_at = e.created_at;
}
