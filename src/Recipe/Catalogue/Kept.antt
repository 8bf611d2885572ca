-- ===== src/Recipe/Catalogue/Kept.antt =====
-- recipe/registry.py: what each method that writes keeps of a catalogue.
use geo_nexus_sdk.Base.{
  String, true, not, ◌&&◌, Option, none, some, List, [], ◌∷◌, Dict, map, lookup, insert, remove,
  keys, values, contains, has, ◌==◌, Outcome, return, raise, ◌≡◌, refl, subst, arith, Bool-cases,
  Option-cases, List-cases, inl, inr, ◌⊎◌, All, Named, Named-insert, Named-remove, Distinct,
  Distinct-insert, Distinct-remove, In, In-keep, lookup-In, keep, given,
}
use geo_nexus_sdk.Registry.Models.{review_statuses}
use geo_nexus_sdk.Recipe.Address.{parse_recipe_address}
use geo_nexus_sdk.Recipe.Model.{Recipe}
use geo_nexus_sdk.Recipe.Checks.{recipe_problems}
use geo_nexus_sdk.Recipe.Catalogue.{
  RecipeEntry, RecipeForm, EntryDict, to_dict, Catalogue, CatalogueError, Registration, entry_of,
  register, put_entry, is_named,
}
use geo_nexus_sdk.Recipe.Catalogue.Reviews.{
  entry_for_review, only_match, reviewed, review, remove_recipe,
}
use geo_nexus_sdk.Recipe.Catalogue.Fork.{ForkRequest}

pub data Call : Type 0 where
  registers : Recipe → Registration → Call
  approves rejects : String → Option String → Option String → String → Call
  removes : String → Call
  forks : String → ForkRequest → Call
  reloads : String → Call

abbrev pub new_catalogue : {J : Type 0} → RecipeForm J → Catalogue J
new_catalogue form = record { entries = []; saved = none; form = form }

-- An entry of a recipe without problems, with a status of the vocabulary.
abbrev pub IsGood : RecipeEntry → Type 0
IsGood e = (recipe_problems e.recipe ≡ []) × (contains e.status review_statuses ≡ true)

abbrev pub Mirrors :
    {J : Type 0} → RecipeForm J → Dict RecipeEntry → Option (List (EntryDict J)) → Type 0
Mirrors form d none = d ≡ []
Mirrors form d (some raws) = raws ≡ map (to_dict form) (values d)

-- Each entry is good and stands under its own address, once, and the file holds the same entries
-- in their JSON form.
pub record IsSound {J : Type 0} (form : RecipeForm J) (c : Catalogue J) : Type 0 where
  pub formed : c.form ≡ form
  pub good : All (λ e. IsGood e.1) c.entries
  pub named : Named (λ e. e.recipe.id) c.entries
  pub distinct : Distinct (keys c.entries)
  pub mirrored : Mirrors c.form c.entries c.saved

module _ {V : Type 0} (P : V → Type 0) where
  pub All-insert :
      (k : String) (v : V) (d : Dict V) → P v → All (λ e. P e.1) d → All (λ e. P e.1) (insert k v d)
  unfolding insert
  All-insert k v [] p h = (p, tt)
  All-insert k v ((j, w) ∷ d) p h = elim (Bool-cases (j == k)) [
    | inl same ↦ rw same (p, h.1)
    | inr other ↦ rw other (h.0, All-insert k v d p h.1)
  ]

  pub All-remove : (k : String) (d : Dict V) → All (λ e. P e.1) d → All (λ e. P e.1) (remove k d)
  unfolding remove
  All-remove k [] h = tt
  All-remove k ((j, w) ∷ d) h = elim (Bool-cases (j == k)) [
    | inl same ↦ rw same h.1
    | inr other ↦ rw other (h.0, All-remove k d h.1)
  ]

  pub All-values : (v : V) (d : Dict V) → All (λ e. P e.1) d → In v (values d) → P v
  All-values v [] h m = absurd m
  All-values v ((j, w) ∷ d) h (inl same) = subst P same h.0
  All-values v ((j, w) ∷ d) h (inr later) = All-values v d h.1 later

pub Outcome-cases :
    {A : Type 0} (o : Outcome CatalogueError A)
    → ((a : A) × (o ≡ return a)) ⊎ ((e : CatalogueError) × (o ≡ raise e))
Outcome-cases (return a) = inl (a, refl)
Outcome-cases (raise e) = inr (e, refl)

put_entry-IsSound :
    {J : Type 0} {form : RecipeForm J}
    → (e : RecipeEntry) (c : Catalogue J) → IsGood e
    → IsSound form c
    → IsSound form (put_entry e c)
unfolding put_entry
put_entry-IsSound e c good h = record {
  formed = h.formed;
  good = All-insert IsGood e.recipe.id e c.entries good h.good;
  named = Named-insert (λ (x : RecipeEntry). x.recipe.id) e.recipe.id e c.entries refl h.named;
  distinct = Distinct-insert e.recipe.id e c.entries h.distinct;
  mirrored = refl;
}

pub register-IsSound :
    {J : Type 0} {form : RecipeForm J}
    → (r : Recipe) (g : Registration) (c : Catalogue J) → IsSound form c
    → IsSound form (register r g c).1
unfolding register
register-IsSound r g c h = elim (Bool-cases (contains g.status review_statuses)) [
  | inr unknown ↦ rw (register, unknown) h
  | inl known ↦ elim (List-cases (recipe_problems r)) [
    | inr (p, ps, bad) ↦ rw (register, known, bad) h
    | inl fine ↦ elim (Bool-cases (has r.id c.entries && not g.replace)) [
      | inl taken ↦ rw (register, known, fine, taken) h
      | inr free ↦
          rw (register, known, fine, free) (put_entry-IsSound (entry_of r g) c (fine, known) h)
    ]
  ]
]

only_match-In :
    (address : String) (es : List RecipeEntry) (e : RecipeEntry)
    → only_match address es ≡ return e
    → In e es
only_match-In address [] e h = cc
only_match-In address (x ∷ []) e h = inl cc
only_match-In address (x ∷ y ∷ es) e h = cc

entry_for_review-In :
    {J : Type 0}
    → (address : String) (c : Catalogue J) (e : RecipeEntry) → entry_for_review address c ≡ return e
    → In e (values c.entries)
unfolding entry_for_review
entry_for_review-In address c e h = elim (Option-cases (lookup address c.entries)) [
  | inr (x, found) ↦
      let same : x ≡ e = ground (arith, found, h) in
      subst (λ y. In y (values c.entries)) same
        (lookup-In (λ (x : RecipeEntry). x.recipe.id) address x c.entries found)
  | inl absent ↦ elim (Option-cases (parse_recipe_address address)) [
    | inl unread ↦ absurd (ground (arith, absent, unread, h))
    | inr ((namespace, name, version), read) ↦ elim (Bool-cases (given version)) [
      | inl versioned ↦ absurd (ground (arith, absent, read, versioned, h))
      | inr bare ↦
          let only : only_match address (keep (is_named namespace name) (values c.entries))
              ≡ return e =
            rw (entry_for_review, absent, read, bare) at h in
          (In-keep (is_named namespace name) e (values c.entries)
            (only_match-In address _ e only)).0
    ]
  ]
]

pub review-IsSound :
    {J : Type 0} {form : RecipeForm J}
    → (address status : String) (by remark : Option String) (now : String) (c : Catalogue J)
    → contains status review_statuses ≡ true
    → IsSound form c
    → IsSound form (review address status by remark now c).1
unfolding review
review-IsSound address status by remark now c known h =
    elim (Outcome-cases (entry_for_review address c)) [
      | inr (err, failed) ↦ rw (review, failed) h
      | inl (e, found) ↦
          let old = All-values IsGood e c.entries h.good (entry_for_review-In address c e found) in
          rw (review, found)
            (put_entry-IsSound (reviewed status by remark now e) c (old.0, known) h)
    ]

pub remove-IsSound :
    {J : Type 0} {form : RecipeForm J}
    → (address : String) (c : Catalogue J) → IsSound form c
    → IsSound form (remove_recipe address c).1
unfolding remove_recipe
remove-IsSound address c h = elim (Outcome-cases (entry_for_review address c)) [
  | inr (err, failed) ↦ rw (remove_recipe, failed) h
  | inl (e, found) ↦
      rw (remove_recipe, found)
        (record {
          formed = h.formed;
          good = All-remove IsGood e.recipe.id c.entries h.good;
          named = Named-remove (λ (x : RecipeEntry). x.recipe.id) e.recipe.id c.entries h.named;
          distinct = Distinct-remove e.recipe.id c.entries h.distinct;
          mirrored = refl;
        })
]
