-- ===== src/Recipe/Catalogue/Latest.antt =====
-- recipe/registry.py: which entry an address resolves to.
use geo_nexus_sdk.Base.{
  ℤ, String, Bool, true, false, not, ◌&&◌, ◌||◌, Option, none, some, List, [], ◌∷◌, ◌++◌, lookup,
  values, keep, if◌then◌else◌, leb_int, eqb_int, return, ◌≡◌, refl, sym, ap, subst, arith,
  Bool-cases, Option-cases, inl, inr, All, In, In-keep, given,
}
use geo_nexus_sdk.Recipe.Address.{parse_recipe_address}
use geo_nexus_sdk.Recipe.Catalogue.{RecipeEntry, Catalogue, is_named, less_key}
use geo_nexus_sdk.Recipe.Catalogue.Versions.{Newest, not_below-Newest}
use geo_nexus_sdk.Recipe.Catalogue.Lookup.{is_approved, key_of, latest, latest_of, resolve}

-- The order of the keys: it is total, so what is not above the lower of two is not above the higher.
int-between :
    (a b c : ℤ)
    → leb_int a b ≡ true
    → eqb_int a b ≡ false
    → leb_int a c ≡ false
    → (eqb_int b c ≡ false) × (leb_int b c ≡ false)
int-between a b c h ne nc = (ground arith, ground arith)

less_key-between :
    (xs ys zs : List ℤ) → less_key xs ys ≡ true → less_key xs zs ≡ false → less_key ys zs ≡ false
unfolding less_key
less_key-between xs [] zs h n = cc
less_key-between xs (b ∷ ys) [] h n = refl
less_key-between [] (b ∷ ys) (c ∷ zs) h n = cc
less_key-between (a ∷ xs) (b ∷ ys) (c ∷ zs) h n = ground (arith, less_key-between xs ys zs)

less_key_irrefl : (xs : List ℤ) → less_key xs xs ≡ false
unfolding less_key
less_key_irrefl [] = refl
less_key_irrefl (a ∷ xs) = ground (arith, less_key_irrefl xs)

-- Below in the order of tuples: at the first place where they differ the number is lower, or there is
-- no such place and the other goes on.
pub data Below (xs ys : List ℤ) : Type 0 where
  longer : (b : ℤ) (rest : List ℤ) → ys ≡ xs ++ b ∷ rest → Below xs ys
  differs :
      (p : List ℤ) (a b : ℤ) (us vs : List ℤ)
      → xs ≡ p ++ a ∷ us
      → ys ≡ p ++ b ∷ vs
      → eqb_int a b ≡ false
      → leb_int a b ≡ true
      → Below xs ys

less_key-longer : (xs : List ℤ) (b : ℤ) (rest : List ℤ) → less_key xs (xs ++ b ∷ rest) ≡ true
unfolding less_key
less_key-longer [] b rest = refl
less_key-longer (a ∷ xs) b rest = ground (arith, less_key-longer xs b rest)

less_key-differs :
    (p : List ℤ) (a b : ℤ) (us vs : List ℤ)
    → eqb_int a b ≡ false
    → leb_int a b ≡ true
    → less_key (p ++ a ∷ us) (p ++ b ∷ vs) ≡ true
unfolding less_key
less_key-differs [] a b us vs ne le = ground (arith, ne, le)
less_key-differs (c ∷ p) a b us vs ne le = ground (arith, less_key-differs p a b us vs ne le)

less_key-Below : (xs ys : List ℤ) → Below xs ys → less_key xs ys ≡ true
less_key-Below xs ys (longer b rest same) =
    subst (λ l. less_key xs l ≡ true) (sym same) (less_key-longer xs b rest)
less_key-Below xs ys (differs p a b us vs left right ne le) =
    subst (λ l. less_key l ys ≡ true) (sym left)
      (subst (λ l. less_key (p ++ a ∷ us) l ≡ true) (sym right)
        (less_key-differs p a b us vs ne le))

-- No version above the one of `best`.
abbrev pub Tops : RecipeEntry → RecipeEntry → Type 0
Tops best x = ¬ Below (key_of best) (key_of x)

abbrev pub NotAbove : RecipeEntry → RecipeEntry → Type 0
NotAbove best x = less_key (key_of best) (key_of x) ≡ false

latest-newer :
    (best e : RecipeEntry) (es : List RecipeEntry)
    → less_key (key_of best) (key_of e) ≡ true
    → latest best (e ∷ es) ≡ latest e es
unfolding latest
latest-newer best e es h = ap (λ b. latest (if b then e else best) es) h

latest-older :
    (best e : RecipeEntry) (es : List RecipeEntry)
    → NotAbove best e
    → latest best (e ∷ es) ≡ latest best es
unfolding latest
latest-older best e es h = ap (λ b. latest (if b then e else best) es) h

latest-above :
    (best : RecipeEntry) (es : List RecipeEntry) (x : RecipeEntry)
    → NotAbove best x
    → NotAbove (latest best es) x
unfolding latest
latest-above best [] x h = h
latest-above best (e ∷ es) x h = elim (Bool-cases (less_key (key_of best) (key_of e))) [
  | inl newer ↦
      subst (λ y. NotAbove y x) (sym (latest-newer best e es newer))
        (latest-above e es x (less_key-between (key_of best) (key_of e) (key_of x) newer h))
  | inr older ↦
      subst (λ y. NotAbove y x) (sym (latest-older best e es older)) (latest-above best es x h)
]

latest-All :
    (best : RecipeEntry) (es : List RecipeEntry) → All (NotAbove (latest best es)) (best ∷ es)
unfolding latest
latest-All best [] = (less_key_irrefl (key_of best), tt)
latest-All best (e ∷ es) = elim (Bool-cases (less_key (key_of best) (key_of e))) [
  | inl newer ↦
      subst (λ y. All (NotAbove y) (best ∷ e ∷ es)) (sym (latest-newer best e es newer))
        (
          latest-above e es best (
              less_key-between (key_of best) (key_of e) (key_of best) newer
                (less_key_irrefl (key_of best))),
          latest-All e es,
        )
  | inr older ↦
      let (top, rest) = latest-All best es in
      subst (λ y. All (NotAbove y) (best ∷ e ∷ es)) (sym (latest-older best e es older))
        (top, (latest-above best es e older, rest))
]

latest-In : (best : RecipeEntry) (es : List RecipeEntry) → In (latest best es) (best ∷ es)
unfolding latest
latest-In best [] = inl refl
latest-In best (e ∷ es) = elim (Bool-cases (less_key (key_of best) (key_of e))) [
  | inl newer ↦
      subst (λ y. In y (best ∷ e ∷ es)) (sym (latest-newer best e es newer)) (inr (latest-In e es))
  | inr older ↦
      subst (λ y. In y (best ∷ e ∷ es)) (sym (latest-older best e es older))
        (elim (latest-In best es) [ inl same ↦ inl same | inr later ↦ inr (inr later) ])
]

-- The entries that an address without a version can mean.
abbrev pub candidates : {J : Type 0} → String → String → Bool → Catalogue J → List RecipeEntry
candidates namespace name approved_only c =
    keep (λ e. is_named namespace name e && (not approved_only || is_approved e)) (values c.entries)

-- The one that is registered under the address, or the newest of those that the address can mean.
pub data Resolves {J : Type 0} (address : String) (approved_only : Bool) (c : Catalogue J)
    (e : RecipeEntry) : Type 0 where
  exact :
      lookup address c.entries ≡ some e
      → (approved_only ≡ true → is_approved e ≡ true)
      → Resolves address approved_only c e
  newest :
      (namespace name : String)
      → lookup address c.entries ≡ none
      → (version : Option String) × (parse_recipe_address address ≡ some (namespace, name, version))
        × (given version ≡ false)
      → In e (values c.entries)
      → is_named namespace name e ≡ true
      → (approved_only ≡ true → is_approved e ≡ true)
      → All (Tops e) (candidates namespace name approved_only c)
      → All (Newest e) (candidates namespace name approved_only c)
      → Resolves address approved_only c e

latest_of-best :
    (es : List RecipeEntry) (e : RecipeEntry)
    → latest_of es ≡ some e
    → In e es × All (NotAbove e) es
latest_of-best [] e h = cc
latest_of-best (x ∷ es) e h =
    let same : latest x es ≡ e = cc in
    subst (λ y. In y (x ∷ es) × All (NotAbove y) (x ∷ es)) same (latest-In x es, latest-All x es)

NotAbove-Tops : (e : RecipeEntry) (es : List RecipeEntry) → All (NotAbove e) es → All (Tops e) es
NotAbove-Tops e [] h = tt
NotAbove-Tops e (x ∷ es) h = (
  λ below. ground (arith, less_key-Below (key_of e) (key_of x) below, h.0),
  NotAbove-Tops e es h.1,
)

NotAbove-Newest :
    (e : RecipeEntry) (es : List RecipeEntry) → All (NotAbove e) es → All (Newest e) es
NotAbove-Newest e [] h = tt
NotAbove-Newest e (x ∷ es) h = (not_below-Newest e x h.0, NotAbove-Newest e es h.1)

passed : (a b c : Bool) → (a && (not b || c)) ≡ true → (a ≡ true) × (b ≡ true → c ≡ true)
passed a b c h = (ground arith, λ strict. ground (arith, strict))

-- What an address resolves to is the entry that is registered under it or, if there is none and
-- the address has no version, the newest entry of that namespace and name among those that count:
-- where its version and the version of another one are of three numbers, major.minor.patch, the
-- other is not higher, and for any versions the same holds of the lists of numbers that
-- version_key reads, in which a piece that is no number counts as -1. If only approved entries are
-- wanted, it is approved.
pub resolve-Resolves :
    {J : Type 0}
    → (address : String) (approved_only : Bool) (c : Catalogue J) (e : RecipeEntry)
    → resolve address approved_only c ≡ return (some e)
    → Resolves address approved_only c e
unfolding resolve
resolve-Resolves address approved_only c e h = elim (Option-cases (lookup address c.entries)) [
  | inr (x, found) ↦ elim (Bool-cases (approved_only && not (is_approved x))) [
    | inl hidden ↦ absurd (ground (arith, found, hidden, h))
    | inr shown ↦
        let same : x ≡ e = ground (arith, found, shown, h) in
        subst (Resolves address approved_only c) same
          (exact found (λ strict. ground (arith, strict, shown)))
  ]
  | inl absent ↦ elim (Option-cases (parse_recipe_address address)) [
    | inl unread ↦ absurd (ground (arith, absent, unread, h))
    | inr ((namespace, name, version), read) ↦ elim (Bool-cases (given version)) [
      | inl versioned ↦ absurd (ground (arith, absent, read, versioned, h))
      | inr bare ↦
          let best : latest_of (candidates namespace name approved_only c) ≡ some e =
            (let h' : return (latest_of (candidates namespace name approved_only c))
                  ≡ return (some e) =
                rw (resolve, absent, read, bare) at h in
              cc) in
          let (there, top) = latest_of-best (candidates namespace name approved_only c) e best in
          let (member, passes) =
            In-keep (λ x. is_named namespace name x && (not approved_only || is_approved x)) e
              (values c.entries) there in
          newest namespace name absent (version, read, bare) member
            (passed (is_named namespace name e) approved_only (is_approved e) passes).0
            (passed (is_named namespace name e) approved_only (is_approved e) passes).1
            (NotAbove-Tops e (candidates namespace name approved_only c) top)
            (NotAbove-Newest e (candidates namespace name approved_only c) top)
    ]
  ]
]
