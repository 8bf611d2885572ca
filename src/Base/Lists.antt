-- ===== src/Base/Lists.antt =====
-- Lists measured by native numbers, under the library's names, and predicates by recursion.
use Prim.Native.Nat.{ℕ, zero, suc, ◌+◌, ◌-◌}
use mathlib.Core.Path.{◌≡◌, refl, sym, ap, subst}
use mathlib.Core.Logic.{◌⊎◌, inl, inr}
use mathlib.Core.Bool.{Bool, true, false, ◌&&◌, ◌||◌}
use mathlib.Core.List.{List, [], ◌∷◌, ◌++◌, map}
use native.Mathlib.Omega.{arith}
use geo_nexus_sdk.Base.Tests.{if◌then◌else◌, Bool-cases}

module _ {ℓ} {A : Type ℓ} where
  abbrev pub length : List A → ℕ
  length [] = 0
  length (x ∷ xs) = suc (length xs)

  abbrev pub drop : ℕ → List A → List A
  drop zero xs = xs
  drop (suc n) [] = []
  drop (suc n) (x ∷ xs) = drop n xs

  abbrev pub take : ℕ → List A → List A
  take zero xs = []
  take (suc n) [] = []
  take (suc n) (x ∷ xs) = x ∷ take n xs

  pub length-append : (xs ys : List A) → length (xs ++ ys) ≡ length xs + length ys
  length-append [] ys = omega arith
  length-append (x ∷ xs) ys = omega (arith, length-append xs ys)

  pub length-drop : (n : ℕ) (xs : List A) → length (drop n xs) ≡ length xs - n
  length-drop zero xs = omega arith
  length-drop (suc n) [] = omega arith
  length-drop (suc n) (x ∷ xs) = omega (arith, length-drop n xs)

  -- `[x for x in xs if p x]`, `all(p x for x in xs)`, `any(p x for x in xs)`.
  abbrev pub keep : (A → Bool) → List A → List A
  keep p [] = []
  keep p (x ∷ xs) = if p x then x ∷ keep p xs else keep p xs

  abbrev pub every : (A → Bool) → List A → Bool
  every p [] = true
  every p (x ∷ xs) = p x && every p xs

  abbrev pub some_of : (A → Bool) → List A → Bool
  some_of p [] = false
  some_of p (x ∷ xs) = p x || some_of p xs

-- A predicate by recursion computes to tuples, which the tactics read and build.
abbrev pub All {ℓ κ} : {A : Type ℓ} → (A → Type κ) → List A → Type κ
All P [] = Unit
All P (x ∷ xs) = P x × All P xs

abbrev pub Any {ℓ} : {A : Type ℓ} → (A → Type 0) → List A → Type 0
Any P [] = ⊥
Any P (x ∷ xs) = P x ⊎ Any P xs

-- Membership with its position, by recursion.
abbrev pub In : {A : Type 0} → A → List A → Type 0
In a = Any (λ x. x ≡ a)

pub All-append {ℓ κ} :
    {A : Type ℓ} (P : A → Type κ) (xs ys : List A) → All P xs → All P ys → All P (xs ++ ys)
All-append P [] ys hx hy = hy
All-append P (x ∷ xs) ys hx hy = (hx.0, All-append P xs ys hx.1 hy)

pub All-map {ℓ κ} :
    {A : Type ℓ} (P Q : A → Type κ) (xs : List A) → ((x : A) → P x → Q x) → All P xs → All Q xs
All-map P Q [] f h = h
All-map P Q (x ∷ xs) f h = (f x h.0, All-map P Q xs f h.1)

pub All-drop {ℓ κ} :
    {A : Type ℓ} (P : A → Type κ) (n : ℕ) (xs : List A) → All P xs → All P (drop n xs)
All-drop P zero xs h = h
All-drop P (suc n) [] h = h
All-drop P (suc n) (x ∷ xs) h = All-drop P n xs h.1

pub every→All {ℓ} :
    {A : Type ℓ} (p : A → Bool) (xs : List A) → every p xs ≡ true → All (λ x. p x ≡ true) xs
every→All p [] h = tt
every→All p (x ∷ xs) h = (ground arith, every→All p xs (ground arith))

pub All→every {ℓ} :
    {A : Type ℓ} (p : A → Bool) (xs : List A) → All (λ x. p x ≡ true) xs → every p xs ≡ true
All→every p [] h = refl
All→every p (x ∷ xs) h = ground (arith, All→every p xs h.1)

pub All-In {κ} : {A : Type 0} (P : A → Type κ) (xs : List A) → ((x : A) → In x xs → P x) → All P xs
All-In P [] f = tt
All-In P (x ∷ xs) f = (f x (inl refl), All-In P xs (λ y m. f y (inr m)))

-- Members of a filtered list, and of an image.
pub In-keep :
    {A : Type 0} (p : A → Bool) (a : A) (xs : List A) → In a (keep p xs) → In a xs × (p a ≡ true)
In-keep p a [] m = absurd m
In-keep p a (x ∷ xs) m = elim (Bool-cases (p x)) [
  | inr dropped ↦
      let rest =
        In-keep p a xs (subst (λ b. In a (if b then x ∷ keep p xs else keep p xs)) dropped m) in
      (inr rest.0, rest.1)
  | inl kept ↦
      elim (let m' : In a (x ∷ keep p xs) =
          subst (λ b. In a (if b then x ∷ keep p xs else keep p xs)) kept m in
        m') [
          | inl same ↦ (inl same, subst (λ b. p b ≡ true) same kept)
          | inr later ↦ let rest = In-keep p a xs later in (inr rest.0, rest.1)
        ]
]

pub keep-In :
    {A : Type 0} (p : A → Bool) (a : A) (xs : List A) → In a xs → p a ≡ true → In a (keep p xs)
keep-In p a [] m h = absurd m
keep-In p a (x ∷ xs) (inl same) h = rw (subst (λ b. p b ≡ true) (sym same) h) (inl same)
keep-In p a (x ∷ xs) (inr later) h = elim (Bool-cases (p x)) [
  | inl kept ↦ rw kept (inr (keep-In p a xs later h))
  | inr dropped ↦ rw dropped (keep-In p a xs later h)
]

pub In-map :
    {A B : Type 0} (f : A → B) (b : B) (xs : List A)
    → In b (map f xs)
    → (a : A) × In a xs × (f a ≡ b)
In-map f b [] m = absurd m
In-map f b (x ∷ xs) (inl same) = (x, inl refl, same)
In-map f b (x ∷ xs) (inr later) = let rest = In-map f b xs later in (rest.0, inr rest.1, rest.2)

pub map-In : {A B : Type 0} (f : A → B) (a : A) (xs : List A) → In a xs → In (f a) (map f xs)
map-In f a [] m = absurd m
map-In f a (x ∷ xs) (inl same) = inl (ap f same)
map-In f a (x ∷ xs) (inr later) = inr (map-In f a xs later)

pub List-cases : {A : Type 0} (l : List A) → (l ≡ []) ⊎ ((x : A) × (xs : List A) × (l ≡ x ∷ xs))
List-cases [] = inl refl
List-cases (x ∷ xs) = inr (x, xs, refl)
