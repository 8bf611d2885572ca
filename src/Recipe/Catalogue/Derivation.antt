-- ===== src/Recipe/Catalogue/Derivation.antt =====
-- recipe/registry.py: what a fork takes over of its source, and what registering it leaves alone.
use geo_nexus_sdk.Base.{
  Real, ℤ, Option, if◌then◌else◌, String, false, none, some, List, [], ◌∷◌, Dict, lookup, has, ◌==◌,
  Json, Outcome, return, raise, ◌≡◌, refl, arith, Bool-cases, Option-cases, List-cases, inl, inr,
  lookup-insert, lookup-insert_self,
}
use geo_nexus_sdk.Registry.Models.{status_pending}
use geo_nexus_sdk.Recipe.Model.{ParamSpec, Recipe}
use geo_nexus_sdk.Recipe.Checks.{recipe_problems}
use geo_nexus_sdk.Recipe.Catalogue.{
  RecipeEntry, Catalogue, CatalogueError, entry_of, register, put_entry,
}
use geo_nexus_sdk.Recipe.Catalogue.Fork.{ForkRequest, registration_of, coerced}

pub chain :
    {A B : Type 0} (m : Outcome CatalogueError A) (k : A → Outcome CatalogueError B) (b : B)
    → (elim m as (λ _. Outcome CatalogueError B) [ raise e ↦ raise e | return a ↦ k a ]) ≡ return b
    → (a : A) × (m ≡ return a) × (k a ≡ return b)
chain (return a) k b h = (a, refl, h)
chain (raise e) k b h = cc

module _ (read_int : String → Option ℤ) (read_float : String → Option Real) where
  -- A parameter of a fork is the one of the source, except for its default and, if it is pinned, its scope. The
  -- default is the value that it is pinned to, or else the value of `params`, in the declared type, or
  -- else the author's.
  pub record Pinned (overrides pins : Dict Json) (p q : ParamSpec) : Type 0 where
    pub value : Json
    pub changed :
        q ≡ record p { scope = if has p.name pins then "fixed" else p.scope; default = value }
    pub from_pin :
        (v : Json) → lookup p.name pins ≡ some v → coerced read_int read_float p v ≡ return value
    pub from_param :
        (v : Json)
        → lookup p.name pins ≡ none
        → lookup p.name overrides ≡ some v
        → coerced read_int read_float p v ≡ return value
    pub kept : lookup p.name pins ≡ none → lookup p.name overrides ≡ none → value ≡ p.default

  abbrev pub AllPinned : Dict Json → Dict Json → List ParamSpec → List ParamSpec → Type 0
  AllPinned overrides pins [] [] = Unit
  AllPinned overrides pins (p ∷ ps) (q ∷ qs) =
      Pinned overrides pins p q × AllPinned overrides pins ps qs
  AllPinned overrides pins _ _ = ⊥

  -- The first of the two changes leaves all but the default as it is.
  pub record Overridden (overrides : Dict Json) (p q : ParamSpec) : Type 0 where
    pub default : Json
    pub same : q ≡ record p { default = default }
    pub taken :
        (v : Json)
        → lookup p.name overrides ≡ some v
        → coerced read_int read_float p v ≡ return default
    pub left : lookup p.name overrides ≡ none → default ≡ p.default

  -- The fork is its source but for its address, its name and those changes of the parameters.
  pub record Derived (source : Recipe) (q : ForkRequest) (r : Recipe) : Type 0 where
    pub same : r ≡ record source { id = r.id; name = r.name; params = r.params }
    pub steps : r.steps ≡ source.steps
    pub outputs : r.outputs ≡ source.outputs
    pub params : AllPinned q.params q.fixed source.params r.params
    pub valid : recipe_problems r ≡ []

pub listed :
    {A : Type 0} (ps : List A) (e : A → List A → CatalogueError) (k : Outcome CatalogueError Recipe)
    (r : Recipe)
    → (elim ps as (λ _. Outcome CatalogueError Recipe) [ [] ↦ k | p ∷ rest ↦ raise (e p rest) ])
      ≡ return r
    → (ps ≡ []) × (k ≡ return r)
listed [] e k r h = (refl, h)
listed (p ∷ rest) e k r h = cc

-- What a call leaves of the catalogue: the new address was free, holds the fork for review, and no other
-- entry is touched.
pub record Added {J : Type 0} (r : Recipe) (c c' : Catalogue J) : Type 0 where
  pub was_free : lookup r.id c.entries ≡ none
  pub pending :
      (e : RecipeEntry) × (lookup r.id c'.entries ≡ some e)
      × (e.recipe ≡ r)
      × (e.status ≡ status_pending)
  pub others : (k : String) → (r.id == k) ≡ false → lookup k c'.entries ≡ lookup k c.entries

not_there : (k : String) (d : Dict RecipeEntry) → has k d ≡ false → lookup k d ≡ none
not_there k d h = elim (Option-cases (lookup k d)) [
  | inl absent ↦ absent
  | inr (e, found) ↦ absurd (ground (arith, found, h))
]

pub register-Added :
    {J : Type 0}
    → (r : Recipe) (e e' : RecipeEntry) (q : ForkRequest) (c : Catalogue J)
    → (register r (registration_of e q) c).0 ≡ return e'
    → Added r c (register r (registration_of e q) c).1
unfolding register put_entry
register-Added r e e' q c h =
    let g = registration_of e q in
    elim (List-cases (recipe_problems r)) [
      | inr (p, ps, bad) ↦ absurd (ground (arith, bad, h))
      | inl fine ↦ elim (Bool-cases (has r.id c.entries)) [
        | inl taken ↦ absurd (ground (arith, fine, taken, h))
        | inr free ↦
            rw (register, fine, free)
              (record {
                was_free = not_there r.id c.entries free;
                pending =
                    (entry_of r g, lookup-insert_self r.id (entry_of r g) c.entries, refl, refl);
                others = λ k other. rw (lookup-insert r.id k (entry_of r g) c.entries, other) refl;
              })
      ]
    ]
