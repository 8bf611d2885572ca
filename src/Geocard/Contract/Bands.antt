-- ===== src/Geocard/Contract/Bands.antt =====
-- geocard/validator.py: the bands that a request requires, compared in lower case.
use geo_nexus_sdk.Base.{
  ℕ, String, true, List, [], ◌∷◌, map, ◌≡◌, refl, In, some_of, arith, Bool-cases, inl, inr, All,
  lower, codes, same_text,
}
use geo_nexus_sdk.Geocard.Contract.{missing_bands}

same_text-eq : (xs ys : List ℕ) → same_text xs ys ≡ true → xs ≡ ys
unfolding same_text
same_text-eq [] [] h = refl
same_text-eq [] (y ∷ ys) h = cc
same_text-eq (x ∷ xs) [] h = cc
same_text-eq (x ∷ xs) (y ∷ ys) h = ground (arith, same_text-eq xs ys)

-- A band of the card with that name, up to case.
abbrev pub Provides : List String → String → Type 0
Provides names band = (n : String) × In n names × (map lower (codes n) ≡ map lower (codes band))

some_of-Provides :
    (names : List String) (band : String)
    → some_of (λ n. same_text (map lower (codes n)) (map lower (codes band))) names ≡ true
    → Provides names band
some_of-Provides [] band h = cc
some_of-Provides (n ∷ ns) band h =
    elim (Bool-cases (same_text (map lower (codes n)) (map lower (codes band)))) [
      | inl same ↦ (n, inl refl, same_text-eq _ _ same)
      | inr other ↦
          let rest = some_of-Provides ns band (ground arith) in (rest.0, inr rest.1, rest.2)
    ]

cons-ne-nil : {x : String} {xs : List String} → ◌≡◌ {A = List String} (x ∷ xs) [] → ⊥
cons-ne-nil h = cc

pub missing_bands-none :
    (names required : List String)
    → missing_bands names required ≡ []
    → All (Provides names) required
unfolding missing_bands
missing_bands-none names [] h = tt
missing_bands-none names (b ∷ bs) h =
    elim (Bool-cases (some_of (λ n. same_text (map lower (codes n)) (map lower (codes b))) names)) [
      | inl here ↦ (some_of-Provides names b here, missing_bands-none names bs (rw here at h))
      | inr gone ↦ absurd (cons-ne-nil (rw gone at h))
    ]
