-- ===== src/Recipe/Catalogue/Sound.antt =====
-- recipe/registry.py: what holds of a catalogue after any calls.
use geo_nexus_sdk.Base.{
  All, Real, map, Outcome, return, insert-new, fresh_key, ℤ, String, Option, none, some, List, [],
  ◌∷◌, ◌++◌, Dict, insert, keys, values, ◌≡◌, refl, sym, ap, subst, ◌∙◌, Bool-cases, inl, inr,
  Named, Distinct,
}
use mathlib.Core.List.{append_assoc, append-nil}
use geo_nexus_sdk.Registry.Models.{status_approved, status_rejected}
use geo_nexus_sdk.Recipe.Model.{Recipe}
use geo_nexus_sdk.Recipe.Checks.{recipe_problems}
use geo_nexus_sdk.Recipe.Catalogue.{
  RecipeEntry, RecipeForm, EntryDict, to_dict, from_dict, Catalogue, CatalogueError, register,
  load_entries, reload,
}
use geo_nexus_sdk.Recipe.Catalogue.Reviews.{review, approve, reject, remove_recipe}
use geo_nexus_sdk.Recipe.Catalogue.Lookup.{resolve}
use geo_nexus_sdk.Recipe.Catalogue.Fork.{
  ForkRequest, fork_recipe, register_fork, fork_entry, fork, registration_of,
}
use geo_nexus_sdk.Recipe.Catalogue.Kept.{
  Call, new_catalogue, Mirrors, IsSound, IsGood, Outcome-cases, register-IsSound, review-IsSound,
  remove-IsSound, registers, approves, rejects, removes, forks, reloads,
}

-- A valid recipe is read back as it was written.
abbrev pub IsFaithful : {J : Type 0} → RecipeForm J → Type 0
IsFaithful form = (r : Recipe) → recipe_problems r ≡ [] → form.load (form.dump r) ≡ some r

from_dict-to_dict :
    {J : Type 0} (form : RecipeForm J) (now : String) (e : RecipeEntry)
    → IsFaithful form
    → IsGood e
    → from_dict form now (to_dict form e) ≡ some e
unfolding from_dict
from_dict-to_dict form now e faithful good = rw (from_dict, faithful e.recipe good.0) refl

-- Reading what was written.
load_entries-values :
    {J : Type 0} (form : RecipeForm J) (now : String)
    → IsFaithful form
    → (rest d : Dict RecipeEntry) → All (λ e. IsGood e.1) rest
    → Named (λ e. e.recipe.id) rest
    → Distinct (keys (d ++ rest))
    → load_entries (from_dict form now) d (map (to_dict form) (values rest))
      ≡ (return tt, d ++ rest)
unfolding load_entries from_dict
load_entries-values form now faithful [] d good h one =
    ap (λ l. (return tt, l)) (sym (append-nil d))
load_entries-values form now faithful ((k, v) ∷ rest) d good h one =
    let next = map (to_dict form) (values rest) in
    rw (from_dict-to_dict form now v faithful good.0) (
      (λ i. load_entries (from_dict form now) (insert (h.0 i) v d) next)
      ∙ (ap (λ d'. load_entries (from_dict form now) d' next)
            (insert-new k v d (fresh_key k v d rest one))
          ∙ (load_entries-values form now faithful rest (d ++ (k, v) ∷ []) good.1 h.1
                (subst (λ l. Distinct (keys l)) (sym (append_assoc d ((k, v) ∷ []) rest)) one)
              ∙ ap (λ l. (return tt, l)) (append_assoc d ((k, v) ∷ []) rest))))

module _ {J : Type 0} (form : RecipeForm J) (faithful : IsFaithful form) where
  saved-same :
      (now : String) (c : Catalogue J)
      → IsSound form c
      → (raws : List (EntryDict J)) → raws ≡ map (to_dict c.form) (values c.entries)
      → load_entries (from_dict c.form now) [] raws ≡ (return tt, c.entries)
  saved-same now c h raws written =
      ap (load_entries (from_dict c.form now) []) written
      ∙ load_entries-values c.form now (subst IsFaithful (sym h.formed) faithful) c.entries []
          h.good h.named h.distinct

  reload_of-same :
      (now : String) (c : Catalogue J) (o : Option (List (EntryDict J)))
      → IsSound form c
      → Mirrors c.form c.entries o
      → (elim o as (λ _. Outcome CatalogueError Unit × Catalogue J) [
        | none ↦ (return tt, c)
        | some raws ↦
            let read = load_entries (from_dict c.form now) [] raws in
            (read.0, record c { entries = read.1 })
      ])
        ≡ (return tt, c)
  reload_of-same now c none h mirrored = refl
  reload_of-same now c (some raws) h mirrored =
      ap (λ read. (read.0, record c { entries = read.1 })) (saved-same now c h raws mirrored)

  reload-same : (now : String) (c : Catalogue J) → IsSound form c → reload now c ≡ (return tt, c)
  unfolding reload
  reload-same now c h = reload_of-same now c c.saved h h.mirrored

register_fork-IsSound :
    {J : Type 0} {form : RecipeForm J}
    → (r : Recipe) (e : RecipeEntry) (q : ForkRequest) (c : Catalogue J) → IsSound form c
    → IsSound form (register_fork r e q c).1
unfolding register_fork
register_fork-IsSound r e q c h = register-IsSound r (registration_of e q) c h

module _ {J : Type 0} (read_int : String → Option ℤ) (read_float : String → Option Real) where
  -- The operations of the catalogue that write.
  abbrev pub perform : Call → Catalogue J → Catalogue J
  perform (registers r g) c = (register r g c).1
  perform (approves address by remark now) c = (approve address by remark now c).1
  perform (rejects address by remark now) c = (reject address by remark now c).1
  perform (removes address) c = (remove_recipe address c).1
  perform (forks address q) c = (fork read_int read_float address q c).1
  perform (reloads now) c = (reload now c).1

  unfoldable pub perform_all : List Call → Catalogue J → Catalogue J
  perform_all [] c = c
  perform_all (a ∷ calls) c = perform_all calls (perform a c)

module _ {J : Type 0} (form : RecipeForm J) (faithful : IsFaithful form)
    (read_int : String → Option ℤ) (read_float : String → Option Real) where
  fork_entry-IsSound :
      (e : RecipeEntry) (q : ForkRequest) (c : Catalogue J)
      → IsSound form c
      → IsSound form (fork_entry read_int read_float e q c).1
  unfolding fork_entry
  fork_entry-IsSound e q c h = elim (Outcome-cases (fork_recipe read_int read_float e.recipe q)) [
    | inr (err, failed) ↦ rw (fork_entry, failed) h
    | inl (r, made) ↦ elim (Bool-cases q.register_it) [
      | inl kept ↦ rw (fork_entry, made, kept) (register_fork-IsSound r e q c h)
      | inr alone ↦ rw (fork_entry, made, alone) h
    ]
  ]

  fork-IsSound :
      (address : String) (q : ForkRequest) (c : Catalogue J)
      → IsSound form c
      → IsSound form (fork read_int read_float address q c).1
  unfolding fork
  fork-IsSound address q c h = elim (Outcome-cases (resolve address q.approved_only c)) [
    | inr (err, failed) ↦ rw (fork, failed) h
    | inl (none, missing) ↦ rw (fork, missing) h
    | inl (some e, found) ↦ rw (fork, found) (fork_entry-IsSound e q c h)
  ]

  perform-IsSound :
      (a : Call) (c : Catalogue J) → IsSound form c → IsSound form (perform read_int read_float a c)
  unfolding approve review reject
  perform-IsSound (registers r g) c h = register-IsSound r g c h
  perform-IsSound (approves address by remark now) c h =
      review-IsSound address status_approved by remark now c refl h
  perform-IsSound (rejects address by remark now) c h =
      review-IsSound address status_rejected by remark now c refl h
  perform-IsSound (removes address) c h = remove-IsSound address c h
  perform-IsSound (forks address q) c h = fork-IsSound address q c h
  perform-IsSound (reloads now) c h =
      subst (λ x. IsSound form x.1) (sym (reload-same form faithful now c h)) h

  perform_all-keeps :
      (calls : List Call) (c : Catalogue J)
      → IsSound form c
      → IsSound form (perform_all read_int read_float calls c)
  unfolding perform_all
  perform_all-keeps [] c h = h
  perform_all-keeps (a ∷ calls) c h =
      perform_all-keeps calls (perform read_int read_float a c) (perform-IsSound a c h)

  -- After any calls on a new catalogue, registrations, reviews, removals, forks and reloads,
  -- failed ones too, every entry is of a recipe without problems and has a status of the
  -- vocabulary, each stands under its own address, once, and reading the catalogue's file again
  -- raises nothing and gives the same catalogue, if a recipe without problems validates to itself
  -- from its JSON form.
  pub perform_all-IsSound :
      (calls : List Call) (now : String)
      → let c = perform_all read_int read_float calls (new_catalogue form) in
        IsSound form c × (reload now c ≡ (return tt, c))
  perform_all-IsSound calls now =
      let sound =
        perform_all-keeps calls (new_catalogue form)
          (record { formed = refl; good = tt; named = tt; distinct = tt; mirrored = refl }) in
      (
        sound,
        reload-same form faithful now (perform_all read_int read_float calls (new_catalogue form))
            sound,
      )
