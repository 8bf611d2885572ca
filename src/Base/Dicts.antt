-- ===== src/Base/Dicts.antt =====
-- Python's `dict` with text keys: an association list in insertion order. Setting a key that is
-- there keeps its place, and a new key goes to the end.
use Prim.Native.String.{String}
use text.Mathlib.Text.{◌==◌}
use text.Mathlib.TextEquality.{eq_iff}
use text.Mathlib.TextPositions.{eq_refl}
use mathlib.Core.Path.{◌≡◌, refl, sym, ◌∙◌}
use mathlib.Core.Logic.{inl, inr, ◌≢◌}
use mathlib.Core.Bool.{Bool, true, false, ◌&&◌, ◌||◌}
use mathlib.Core.List.{List, [], ◌∷◌, ◌++◌, map}
use mathlib.Core.Option.{Option, none, some}
use native.Mathlib.Omega.{arith}
use geo_nexus_sdk.Base.Tests.{if◌then◌else◌, is_some, Bool-cases}
use geo_nexus_sdk.Base.Lists.{some_of, keep, In, All, All-In}

abbrev pub Dict {ℓ} : Type ℓ → Type ℓ
Dict V = List (String × V)

-- `k in ks`, for a list of texts.
abbrev pub contains : String → List String → Bool
contains k ks = some_of (λ j. j == k) ks

module _ {ℓ} {V : Type ℓ} where
  -- d.get(k)
  unfoldable pub lookup : String → Dict V → Option V
  lookup k [] = none
  lookup k ((j, v) ∷ d) = if j == k then some v else lookup k d

  -- d[k] = v
  unfoldable pub insert : String → V → Dict V → Dict V
  insert k v [] = (k, v) ∷ []
  insert k v ((j, w) ∷ d) = if j == k then (j, v) ∷ d else (j, w) ∷ insert k v d

  -- d.pop(k, None)
  unfoldable pub remove : String → Dict V → Dict V
  remove k [] = []
  remove k ((j, v) ∷ d) = if j == k then d else (j, v) ∷ remove k d

  abbrev pub keys : Dict V → List String
  keys = map (λ e. e.0)

  abbrev pub values : Dict V → List V
  values = map (λ e. e.1)

  -- k in d
  abbrev pub has : String → Dict V → Bool
  has k d = is_some (lookup k d)

  unfoldable pub get_or : String → V → Dict V → V
  unfolding lookup
  get_or k v d = elim (lookup k d) [ none ↦ v | some w ↦ w ]

  -- d.setdefault(k, v)
  abbrev pub set_default : String → V → Dict V → Dict V
  set_default k v d = if has k d then d else insert k v d

-- Keys are distinct, by the code's own comparison.
abbrev pub Distinct : List String → Type 0
Distinct [] = Unit
Distinct (k ∷ ks) = (contains k ks ≡ false) × Distinct ks

pub neq_iff : (k j : String) → k ≢ j → (k == j) ≡ false
neq_iff k j h = ground (arith, eq_iff k j)

module _ {ℓ} {V : Type ℓ} where
  pub lookup-insert :
      (k j : String) (v : V) (d : Dict V)
      → lookup j (insert k v d) ≡ (if k == j then some v else lookup j d)
  unfolding lookup insert
  lookup-insert k j v [] = refl
  lookup-insert k j v ((i, w) ∷ d) =
      ground (arith, eq_iff k j, eq_iff i k, eq_iff i j, lookup-insert k j v d)

  pub get_or-insert :
      (k j : String) (v w : V) (d : Dict V)
      → get_or j w (insert k v d) ≡ (if k == j then v else get_or j w d)
  unfolding get_or
  get_or-insert k j v w d = ground (arith, lookup-insert k j v d)

  pub get_or-none : (k : String) (w : V) (d : Dict V) → lookup k d ≡ none → get_or k w d ≡ w
  unfolding get_or
  get_or-none k w d h = rw (h, get_or)

  pub lookup-insert_self : (k : String) (v : V) (d : Dict V) → lookup k (insert k v d) ≡ some v
  lookup-insert_self k v d = rw (lookup-insert, eq_refl)

  pub lookup-insert_ne :
      (k j : String) (v : V) (d : Dict V) → k ≢ j → lookup j (insert k v d) ≡ lookup j d
  lookup-insert_ne k j v d h = rw (lookup-insert, neq_iff k j h)

  pub lookup-none : (k : String) (d : Dict V) → contains k (keys d) ≡ false → lookup k d ≡ none
  unfolding lookup
  lookup-none k [] h = refl
  lookup-none k ((j, v) ∷ d) h = ground (arith, lookup-none k d)

  pub contains-keys : (k : String) (d : Dict V) → contains k (keys d) ≡ has k d
  unfolding lookup
  contains-keys k [] = refl
  contains-keys k ((j, v) ∷ d) = ground (arith, contains-keys k d)

  -- Setting a key that is there changes no key, and a new one is appended.
  pub keys-insert :
      (k : String) (v : V) (d : Dict V)
      → keys (insert k v d) ≡ (if has k d then keys d else keys d ++ k ∷ [])
  unfolding lookup insert
  keys-insert k v [] = refl
  keys-insert k v ((j, w) ∷ d) = ground (arith, keys-insert k v d)

  pub keys-insert_old :
      (k : String) (v w : V) (d : Dict V) → lookup k d ≡ some w → keys (insert k v d) ≡ keys d
  keys-insert_old k v w d h = rw (keys-insert k v d, h)

  pub lookup-remove_ne : (k j : String) (d : Dict V) → k ≢ j → lookup j (remove k d) ≡ lookup j d
  unfolding lookup remove
  lookup-remove_ne k j [] h = refl
  lookup-remove_ne k j ((i, w) ∷ d) h =
      ground (arith, eq_iff k j, eq_iff i k, eq_iff i j, lookup-remove_ne k j d)

pub contains-append_ne :
    (k j : String) (ks : List String)
    → contains k ks ≡ false
    → (j == k) ≡ false
    → contains k (ks ++ j ∷ []) ≡ false
contains-append_ne k j [] h ne = rw ne
contains-append_ne k j (i ∷ ks) h ne = ground (arith, contains-append_ne k j ks)

pub Distinct-append :
    (k : String) (ks : List String) → Distinct ks → contains k ks ≡ false → Distinct (ks ++ k ∷ [])
Distinct-append k [] h absent = (refl, tt)
Distinct-append k (j ∷ ks) h absent = (
  contains-append_ne j k ks h.0 (ground (arith, eq_iff j k, eq_iff k j)),
  Distinct-append k ks h.1 (ground arith),
)

module _ {ℓ} {V : Type ℓ} where
  pub Distinct-insert :
      (k : String) (v : V) (d : Dict V) → Distinct (keys d) → Distinct (keys (insert k v d))
  Distinct-insert k v d h = elim (Bool-cases (has k d)) [
    | inl old ↦ rw (keys-insert k v d, old) h
    | inr new ↦ rw (keys-insert k v d, new) (Distinct-append k (keys d) h (contains-keys k d ∙ new))
  ]

  pub contains-remove :
      (k j : String) (d : Dict V)
      → contains k (keys d) ≡ false
      → contains k (keys (remove j d)) ≡ false
  unfolding remove
  contains-remove k j [] h = refl
  contains-remove k j ((i, w) ∷ d) h = ground (arith, contains-remove k j d)

  pub Distinct-remove : (k : String) (d : Dict V) → Distinct (keys d) → Distinct (keys (remove k d))
  unfolding remove
  Distinct-remove k [] h = tt
  Distinct-remove k ((i, w) ∷ d) h =
      ground (arith, Distinct-remove k d h.1, contains-remove i k d h.0)

  pub lookup-remove_self :
      (k : String) (d : Dict V) → Distinct (keys d) → lookup k (remove k d) ≡ none
  unfolding lookup remove
  lookup-remove_self k [] h = refl
  lookup-remove_self k ((i, w) ∷ d) h =
      ground (arith, lookup-none k d, lookup-remove_self k d h.1, eq_iff i k)

  -- What is left after a removal.
  pub lookup-remove :
      (k j : String) (d : Dict V)
      → Distinct (keys d)
      → lookup j (remove k d) ≡ (if k == j then none else lookup j d)
  lookup-remove k j d h = elim (Bool-cases (k == j)) [
    | inl same ↦ rw (same, ← (eq_iff k j).0 same) (lookup-remove_self k d h)
    | inr other ↦ rw other (lookup-remove_ne k j d (λ e. cc ((eq_iff k j).1 e)))
  ]

  pub get_or-remove :
      (k j : String) (v : V) (d : Dict V)
      → Distinct (keys d)
      → get_or j v (remove k d) ≡ (if k == j then v else get_or j v d)
  unfolding get_or
  get_or-remove k j v d h = ground (arith, lookup-remove k j d h)

  pub Distinct-set_default :
      (k : String) (v : V) (d : Dict V) → Distinct (keys d) → Distinct (keys (set_default k v d))
  Distinct-set_default k v d h = elim (Bool-cases (has k d)) [
    | inl old ↦ rw old h
    | inr new ↦ rw new (Distinct-insert k v d h)
  ]

  -- A default that is also what a reader falls back on changes no answer.
  pub get_or-set_default :
      (k j : String) (v : V) (d : Dict V) → get_or j v (set_default k v d) ≡ get_or j v d
  unfolding get_or
  get_or-set_default k j v d = ground (arith, lookup-insert k j v d, eq_iff k j)

pub In-contains : (k : String) (ks : List String) → In k ks → contains k ks ≡ true
In-contains k [] m = elim m [ ]
In-contains k (j ∷ ks) (inl e) = ground (arith, eq_iff j k)
In-contains k (j ∷ ks) (inr m) = ground (arith, In-contains k ks m)

pub contains-In : (k : String) (ks : List String) → contains k ks ≡ true → In k ks
contains-In k [] h = cc
contains-In k (j ∷ ks) h = elim (Bool-cases (j == k)) [
  | inl same ↦ inl ((eq_iff j k).0 same)
  | inr other ↦ inr (contains-In k ks (ground arith))
]

pub keys-All-has {ℓ} : {V : Type ℓ} (d : Dict V) → All (λ k. has k d ≡ true) (keys d)
keys-All-has d =
    All-In (λ k. has k d ≡ true) (keys d) λ k m. sym (contains-keys k d) ∙ In-contains k (keys d) m

-- A filter only looks at the members.
pub keep-same :
    (p q : String → Bool) (ks : List String)
    → ((k : String) → contains k ks ≡ true → p k ≡ q k)
    → keep p ks ≡ keep q ks
keep-same p q [] h = refl
keep-same p q (k ∷ ks) h =
    ground (arith, h k (ground (arith, eq_iff k k)), keep-same p q ks (λ j m. h j (ground arith)))

pub contains-keep :
    (p : String → Bool) (k : String) (ks : List String)
    → contains k (keep p ks) ≡ (contains k ks && p k)
contains-keep p k [] = refl
contains-keep p k (j ∷ ks) = elim (Bool-cases (j == k)) [
  | inl same ↦ ground (arith, contains-keep p k ks, (eq_iff j k).0 same, same)
  | inr other ↦ ground (arith, contains-keep p k ks, other)
]

pub contains-append :
    (k : String) (xs ys : List String) → contains k (xs ++ ys) ≡ (contains k xs || contains k ys)
contains-append k [] ys = refl
contains-append k (x ∷ xs) ys = ground (arith, contains-append k xs ys)
