-- ===== src/Recipe/Settled.antt =====
-- recipe/materialize.py: what a value of a parameter is, and the steps by which it is found.
use geo_nexus_sdk.Base.{
  Real, finite, infinite, minus_infinite, not_a_number, less_real, leb_int, ◌⊎◌, String, Bool, true,
  false, not, ◌||◌, Option, none, some, List, [], ◌∷◌, Dict, lookup, contains, keep, if◌then◌else◌,
  ◌==◌, Json, null, bool, int, float, str, arr, obj, Outcome, return, raise, ℤ, ◌≡◌, ◌≤ℤ◌, refl,
  sym, ap, subst, ◌∙◌, arith, Bool-cases, Option-cases, inl, inr, same_json, get_or, All, leb_text,
}
use geo_nexus_sdk.Recipe.Model.{ParamSpec, is_blank}
use geo_nexus_sdk.Recipe.Checks.{sort_texts, insert_text}
use geo_nexus_sdk.Recipe.Queries.{is_null}
use geo_nexus_sdk.Recipe.Params.{
  Fault, param_error, fixed_value, missing_value, within, or_type_error, boolean_of, ref_of, under,
  over, is_listed, amount_of, is_text, is_text, param_invalid_enum, param_out_of_range,
}

-- A value of the type that is declared.
pub record Typed (type_name : String) (v : Json) : Type 0 where
  pub integer : (type_name == "integer") ≡ true → (n : ℤ) × (v ≡ int n)
  pub number : (type_name == "number") ≡ true → (n : Real) × (v ≡ float n)
  pub boolean : (type_name == "boolean") ≡ true → (b : Bool) × (v ≡ bool b)
  pub reference : (type_name == "ref") ≡ true → (s : String) × (v ≡ str s) × (is_blank s ≡ false)

-- The order of the floats that are numbers.
abbrev pub AtMost : Real → Real → Type 0
AtMost (finite n) (finite m) = n ≤ℤ m
AtMost minus_infinite _ = Unit
AtMost _ infinite = Unit
AtMost _ _ = ⊥

-- NaN stands on neither side of a bound.
abbrev pub Within : Real → Real → Type 0
Within n m = (n ≡ not_a_number) ⊎ ((m ≡ not_a_number) ⊎ AtMost n m)

-- A number within the bounds, or NaN, and a value of the enumeration.
pub record Bounded (spec : ParamSpec) (v : Json) : Type 0 where
  pub low : (n m : Real) → amount_of v ≡ some n → spec.minimum ≡ some m → Within m n
  pub high : (n m : Real) → amount_of v ≡ some n → spec.maximum ≡ some m → Within n m
  pub listed : is_listed spec.enum v ≡ true

-- Where the value of a parameter comes from.
pub data Settled (spec : ParamSpec) (supplied : Dict Json) (v : Json) : Type 0 where
  -- a fixed one is the author's
  pinned : (spec.scope == "fixed") ≡ true → v ≡ spec.default → Settled spec supplied v
  -- one that is not given, or given as None
  defaulted :
      (spec.scope == "fixed") ≡ false
      → get_or spec.name null supplied ≡ null
      → v ≡ spec.default
      → (is_null v ≡ true → spec.required ≡ false)
      → Settled spec supplied v
  chosen :
      (spec.scope == "fixed") ≡ false
      → Typed spec.type_name v
      → Bounded spec v
      → Settled spec supplied v

refused_if :
    (b : Bool) (e : Fault) (k : Outcome Fault Json) (v : Json)
    → ◌≡◌ {A = Outcome Fault Json} (if b then raise e else k) (return v)
    → (b ≡ false) × (k ≡ return v)
refused_if true e k v h = cc
refused_if false e k v h = (refl, h)

taken_if :
    (b : Bool) (e : Fault) (w v : Json)
    → ◌≡◌ {A = Outcome Fault Json} (if b then return w else raise e) (return v)
    → (b ≡ true) × (w ≡ v)
taken_if true e w v h = (refl, cc)
taken_if false e w v h = cc

le-Within : (n m : ℤ) → not (leb_int n m) ≡ false → n ≤ℤ m
le-Within n m h = ground arith

not_less-Within : (n m : Real) → less_real n m ≡ false → Within m n
not_less-Within (finite n) (finite m) h = inr (inr (le-Within m n h))
not_less-Within (finite n) infinite h = cc
not_less-Within (finite n) minus_infinite h = inr (inr tt)
not_less-Within minus_infinite (finite m) h = cc
not_less-Within minus_infinite infinite h = cc
not_less-Within minus_infinite minus_infinite h = inr (inr tt)
not_less-Within infinite (finite m) h = inr (inr tt)
not_less-Within infinite infinite h = inr (inr tt)
not_less-Within infinite minus_infinite h = inr (inr tt)
not_less-Within not_a_number m h = inr (inl refl)
not_less-Within n not_a_number h = inl refl

under-Within : (n low : Real) → under (some n) (some low) ≡ false → Within low n
under-Within n low h = not_less-Within n low h

over-Within : (n high : Real) → over (some n) (some high) ≡ false → Within n high
over-Within n high h = not_less-Within high n h

pub within-Bounded :
    (spec : ParamSpec) (w v : Json) → within spec w ≡ return v → Bounded spec v × (w ≡ v)
unfolding within
within-Bounded spec w v h =
    let (inside, rest) =
      refused_if (under (amount_of w) spec.minimum || over (amount_of w) spec.maximum)
        (param_error spec.name param_out_of_range) _ v h in
    let (listed, same) =
      taken_if (is_listed spec.enum w) (param_error spec.name param_invalid_enum) w v rest in
    let not_under : under (amount_of w) spec.minimum ≡ false = ground arith in
    let not_over : over (amount_of w) spec.maximum ≡ false = ground arith in
    (
      subst (Bounded spec) same (record {
        low = λ n m counts bound.
            under-Within n m ((λ i. under (sym counts i) (sym bound i)) ∙ not_under);
        high = λ n m counts bound.
            over-Within n m ((λ i. over (sym counts i) (sym bound i)) ∙ not_over);
        listed = listed;
      }),
      same,
    )

pub read_of :
    (name : String) (o : Option Json) (v : Json) → or_type_error name o ≡ return v → o ≡ some v
read_of name none v h = cc
read_of name (some w) v h = cc

chosen_bool :
    (a b : Bool) (v : Json)
    → (if a then some (bool true) else if b then some (bool false) else none) ≡ some v
    → (c : Bool) × (v ≡ bool c)
chosen_bool true b v h = (true, cc)
chosen_bool false true v h = (false, cc)
chosen_bool false false v h = cc

pub boolean_of-bool : (w v : Json) → boolean_of w ≡ some v → (b : Bool) × (v ≡ bool b)
boolean_of-bool (bool b) v h = (b, cc)
boolean_of-bool (str s) v h = chosen_bool (is_text "true" s) (is_text "false" s) v h
boolean_of-bool null v h = cc
boolean_of-bool (int n) v h = cc
boolean_of-bool (float n) v h = cc
boolean_of-bool (arr vs) v h = cc
boolean_of-bool (obj fs) v h = cc

pub ref_of-text :
    (w v : Json) → ref_of w ≡ some v → (s : String) × (v ≡ str s) × (is_blank s ≡ false)
ref_of-text (str s) v h = elim (Bool-cases (is_blank s)) [
  | inl b ↦ absurd (ground (arith, b, h))
  | inr b ↦ (s, ground (arith, b, h), b)
]
ref_of-text null v h = cc
ref_of-text (bool b) v h = cc
ref_of-text (int n) v h = cc
ref_of-text (float n) v h = cc
ref_of-text (arr vs) v h = cc
ref_of-text (obj fs) v h = cc

pub wrap_of :
    {A : Type 0} (wrap : A → Json) (o : Option A) (v : Json)
    → (elim o as (λ _. Option Json) [ none ↦ none | some k ↦ some (wrap k) ]) ≡ some v
    → (n : A) × (v ≡ wrap n)
wrap_of wrap none v h = cc
wrap_of wrap (some k) v h = (k, cc)

null_of : (v : Json) → is_null v ≡ true → v ≡ null
null_of null h = refl
null_of (bool b) h = cc
null_of (int n) h = cc
null_of (float n) h = cc
null_of (str s) h = cc
null_of (arr vs) h = cc
null_of (obj fs) h = cc

pub missing-Settled :
    (spec : ParamSpec) (supplied : Dict Json) (v : Json)
    → (spec.scope == "fixed") ≡ false
    → get_or spec.name null supplied ≡ null
    → missing_value spec ≡ return v
    → Settled spec supplied v
missing-Settled spec supplied v free absent h = elim (Bool-cases (is_null spec.default)) [
  | inr there ↦
      let same : spec.default ≡ v = ground (arith, there, h) in
      defaulted free absent (sym same) (λ nothing. ground (arith, there, ap is_null same, nothing))
  | inl none_given ↦ elim (Bool-cases spec.required) [
    | inl wanted ↦ absurd (ground (arith, none_given, wanted, h))
    | inr optional ↦
        let same : null ≡ v = ground (arith, none_given, optional, h) in
        defaulted free absent (sym same ∙ sym (null_of spec.default none_given)) (λ _. optional)
  ]
]

pub fixed-Settled :
    (spec : ParamSpec) (supplied : Dict Json) (v : Json)
    → (spec.scope == "fixed") ≡ true
    → fixed_value spec supplied ≡ return v
    → Settled spec supplied v
unfolding fixed_value
fixed-Settled spec supplied v fixed h = elim (Option-cases (lookup spec.name supplied)) [
  | inl absent ↦ pinned fixed (ground (arith, absent, h))
  | inr (w, found) ↦ elim (Bool-cases (same_json w spec.default)) [
    | inl same ↦ pinned fixed (ground (arith, found, same, h))
    | inr other ↦ absurd (ground (arith, found, other, h))
  ]
]

pub chained :
    (m : Outcome Fault Json) (k : Json → Outcome Fault Json) (v : Json)
    → (elim m as (λ _. Outcome Fault Json) [ raise e ↦ raise e | return a ↦ k a ]) ≡ return v
    → (a : Json) × (m ≡ return a) × (k a ≡ return v)
chained (return a) k v h = (a, refl, h)
chained (raise e) k v h = cc

inserted : (t : String) (ts : List String) → insert_text t ts ≡ [] → ⊥
unfolding insert_text
inserted t [] h = cc
inserted t (u ∷ us) h = elim (Bool-cases (leb_text t u)) [
  | inl first ↦ ground (arith, first, h)
  | inr behind ↦ ground (arith, behind, h)
]

pub sorted-empty : (ts : List String) → sort_texts ts ≡ [] → ts ≡ []
unfolding sort_texts
sorted-empty [] h = refl
sorted-empty (t ∷ ts) h = absurd (inserted t (sort_texts ts) h)

pub none-left :
    (names ks : List String)
    → keep (λ j. not (contains j names)) ks ≡ []
    → All (λ k. contains k names ≡ true) ks
none-left names [] h = tt
none-left names (j ∷ ks) h = elim (Bool-cases (contains j names)) [
  | inr unknown ↦ absurd (ground (arith, unknown, h))
  | inl known ↦ (known, none-left names ks (ground (arith, known, h)))
]
