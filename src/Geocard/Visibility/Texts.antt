-- ===== src/Geocard/Visibility/Texts.antt =====
-- geocard/visibility.py: what the normalisation of a level accepts, and how levels compose.
use geo_nexus_sdk.Base.{
  same_text, strip_left, strip_right, ◌≡◌, ◌≤◌, refl, sym, ap, subst, Option, some, List, [], ◌∷◌,
  String, map, In, inl, inr, ltb, ltb→lt, not_ltb→le, arith, Bool-cases,
}
use geo_nexus_sdk.Geocard.Visibility.{
  Level, public, restricted, sensitive, secret, level_name, rank, normalize_visibility, strictest,
  compose_normalized, compose_visibility, find_word,
}

-- A level's own name stands for it.
pub normalize-name : (l : Level) → normalize_visibility (some (level_name l)) ≡ l
unfolding normalize_visibility find_word same_text strip_left strip_right
normalize-name public = refl
normalize-name restricted = refl
normalize-name sensitive = refl
normalize-name secret = refl

pub map-normalize-name :
    (ls : List Level) → map normalize_visibility (map (λ l. some (level_name l)) ls) ≡ ls
map-normalize-name [] = refl
map-normalize-name (l ∷ ls) = cc (normalize-name l, map-normalize-name ls)

skip-In : (a l j : Level) (js : List Level) → In a (l ∷ js) → In a (l ∷ j ∷ js)
skip-In a l j js (inl m) = inl m
skip-In a l j js (inr m) = inr (inr m)

-- The strictest is no less strict than the first and each of the others.
pub strictest-first : (l : Level) (ls : List Level) → rank l ≤ rank (strictest l ls)
unfolding strictest
strictest-first l [] = omega arith
strictest-first l (j ∷ js) = elim (Bool-cases (ltb (rank l) (rank j))) [
  | inl stricter ↦ rw stricter (omega (arith, ltb→lt (rank l) (rank j), strictest-first j js))
  | inr other ↦ rw other (strictest-first l js)
]

pub strictest-others : (ls : List Level) (l k : Level) → In k ls → rank k ≤ rank (strictest l ls)
unfolding strictest
strictest-others [] l k m = absurd m
strictest-others (j ∷ js) l k (inr m) = strictest-others js _ k m
strictest-others (j ∷ js) l k (inl same) = elim (Bool-cases (ltb (rank l) (rank j))) [
  | inl stricter ↦
      rw stricter (subst (λ i. rank i ≤ rank (strictest j js)) same (strictest-first j js))
  | inr other ↦
      rw other (omega (arith, not_ltb→le (rank l) (rank j), strictest-first l js, ap rank same))
]

-- It is one of them.
pub strictest-In : (ls : List Level) (l : Level) → In (strictest l ls) (l ∷ ls)
unfolding strictest
strictest-In [] l = inl refl
strictest-In (j ∷ js) l = elim (Bool-cases (ltb (rank l) (rank j))) [
  | inl stricter ↦
      let step : strictest l (j ∷ js) ≡ strictest j js = rw stricter refl in
      subst (λ a. In a (l ∷ j ∷ js)) (sym step) (inr (strictest-In js j))
  | inr other ↦
      let step : strictest l (j ∷ js) ≡ strictest l js = rw other refl in
      subst (λ a. In a (l ∷ j ∷ js)) (sym step)
        (skip-In (strictest l js) l j js (strictest-In js l))
]

pub strictest-all : (l k : Level) (ls : List Level) → In k (l ∷ ls) → rank k ≤ rank (strictest l ls)
strictest-all l k ls (inl same) =
    subst (λ i. rank i ≤ rank (strictest l ls)) same (strictest-first l ls)
strictest-all l k ls (inr m) = strictest-others ls l k m

-- The level of a composition of some levels is one of them, and none of them is stricter.
pub compose_visibility_lem :
    (v : Option String) (vs : List (Option String))
    → In (compose_visibility (v ∷ vs)) (map normalize_visibility (v ∷ vs))
      × ((w : Level)
          → In w (map normalize_visibility (v ∷ vs))
          → rank w ≤ rank (compose_visibility (v ∷ vs)))
unfolding compose_visibility compose_normalized
compose_visibility_lem v vs = (
  strictest-In (map normalize_visibility vs) (normalize_visibility v),
  λ w m. strictest-all (normalize_visibility v) w (map normalize_visibility vs) m,
)
