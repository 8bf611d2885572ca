-- ===== src/Recipe/Filled.antt =====
-- recipe/materialize.py: a step whose templates name parameters is filled in.
use geo_nexus_sdk.Base.{
  zero, String, true, Option, none, some, List, [], ◌∷◌, ◌++◌, Dict, lookup, contains, has, ◌==◌,
  Json, null, bool, int, float, str, arr, obj, Items, nil, cons, Fields, end, field, Outcome,
  return, raise, Option-cases, Bool-cases, inl, inr, trim, ◌≡◌, refl, subst, arith, All, eq_iff,
}
use geo_nexus_sdk.Recipe.Model.{Recipe}
use geo_nexus_sdk.Recipe.Checks.{step_ref}
use geo_nexus_sdk.Recipe.Params.{Fault}
use geo_nexus_sdk.Recipe.Templates.{
  Piece, char, hole, fill, pieces, names_of, whole_template, unknown_templates, unknown_in_items,
  unknown_in_fields, substitute_text, substitute, substitute_items, substitute_fields,
}
use geo_nexus_sdk.Recipe.Templated.{whole-names_of}
use geo_nexus_sdk.Recipe.Materialize.{Setup, task_io, build_inputs, texts}

abbrev pub Returns : {A : Type 0} → Outcome Fault A → Type 0
Returns {A} o = (a : A) × (o ≡ return a)

pub chain-Returns :
    {A B : Type 0} (m : Outcome Fault A) (k : A → Outcome Fault B)
    → Returns m
    → ((a : A) → m ≡ return a → Returns (k a))
    → Returns (elim m as (λ _. Outcome Fault B) [ raise e ↦ raise e | return a ↦ k a ])
chain-Returns (return a) k h next = next a refl
chain-Returns (raise e) k (a, h) next = absurd (ground (arith, h))

pub All-split :
    {A : Type 0} (P : A → Type 0) (xs ys : List A) → All P (xs ++ ys) → All P xs × All P ys
All-split P [] ys h = (tt, h)
All-split P (x ∷ xs) ys h = let (front, rest) = All-split P xs ys h.1 in ((h.0, front), rest)

All-contains :
    (P : String → Type 0) (k : String) (ks : List String) → All P ks → contains k ks ≡ true → P k
All-contains P k [] h there = absurd (ground (arith, there))
All-contains P k (j ∷ ks) h there = elim (Bool-cases (j == k)) [
  | inl same ↦ subst P (ground (arith, same, eq_iff j k)) h.0
  | inr other ↦ All-contains P k ks h.1 (ground (arith, other, there))
]

found-in :
    (k : String) (params : Dict Json)
    → has k params ≡ true
    → (v : Json) × (lookup k params ≡ some v)
found-in k params h = elim (Option-cases (lookup k params)) [
  | inl absent ↦ absurd (ground (arith, absent, h))
  | inr there ↦ there
]

-- An input that is a text once it is filled in: it is no template as a whole, or one of a parameter that is a text.
abbrev pub IsTextual : Dict Json → String → Type 0
IsTextual params ref = elim (whole_template (trim ref)) [
  | none ↦ Unit
  | some name ↦ (t : String) × (lookup name params ≡ some (str t))
]

module _ (show : Json → String) (params : Dict Json) (id : String) where
  abbrev pub Known : List String → Type 0
  Known names = All (λ k. has k params ≡ true) names

  fill-Returns : (ps : List Piece) → Known (names_of ps) → Returns (fill show params id ps)
  unfolding fill
  fill-Returns [] h = ("", refl)
  fill-Returns (char c ∷ ps) h =
      chain-Returns (fill show params id ps) _ (fill-Returns ps h) (λ s _. (_, refl))
  fill-Returns (hole name ∷ ps) h =
      let (v, found) = found-in name params h.0 in
      rw (fill, found)
        (chain-Returns (fill show params id ps) _ (fill-Returns ps h.1) (λ s _. (_, refl)))

  substitute_text-Returns :
      (s : String) → Known (names_of (pieces zero s)) → Returns (substitute_text show params id s)
  unfolding substitute_text
  substitute_text-Returns s h = elim (Option-cases (whole_template (trim s))) [
    | inl partial ↦
        rw (substitute_text, partial)
          (chain-Returns (fill show params id (pieces zero s)) _ (fill-Returns (pieces zero s) h)
            (λ t _. (_, refl)))
    | inr (name, whole) ↦
        let (v, found) = found-in name params (
          All-contains (λ k. has k params ≡ true) name (names_of (pieces zero s)) h
            (whole-names_of s name whole)) in
        rw (substitute_text, whole, found) (v, refl)
  ]

  mutual
    unfolding substitute unknown_templates

    substitute-Returns :
        (v : Json) → Known (unknown_templates v) → Returns (substitute show params id v)
    substitute-Returns (str s) h = substitute_text-Returns s h
    substitute-Returns (arr vs) h =
        chain-Returns (substitute_items show params id vs) _ (substitute_items-Returns vs h)
          (λ ws _. (_, refl))
    substitute-Returns (obj fs) h =
        chain-Returns (substitute_fields show params id fs) _ (substitute_fields-Returns fs h)
          (λ gs _. (_, refl))
    substitute-Returns null h = (_, refl)
    substitute-Returns (bool b) h = (_, refl)
    substitute-Returns (int n) h = (_, refl)
    substitute-Returns (float n) h = (_, refl)

    substitute_items-Returns :
        (vs : Items) → Known (unknown_in_items vs) → Returns (substitute_items show params id vs)
    substitute_items-Returns nil h = (_, refl)
    substitute_items-Returns (cons v vs) h =
        let (own, rest) =
          All-split (λ k. has k params ≡ true) (unknown_templates v) (unknown_in_items vs) h in
        chain-Returns (substitute show params id v) _ (substitute-Returns v own) λ w _.
          chain-Returns (substitute_items show params id vs) _ (substitute_items-Returns vs rest)
            (λ ws _. (_, refl))

    pub substitute_fields-Returns :
        (fs : Fields) → Known (unknown_in_fields fs) → Returns (substitute_fields show params id fs)
    substitute_fields-Returns end h = (_, refl)
    substitute_fields-Returns (field k v fs) h =
        let (own, rest) =
          All-split (λ j. has j params ≡ true) (unknown_templates v) (unknown_in_fields fs) h in
        chain-Returns (substitute show params id v) _ (substitute-Returns v own) λ w _.
          chain-Returns (substitute_fields show params id fs) _ (substitute_fields-Returns fs rest)
            (λ gs _. (_, refl))

  -- A textual reference becomes a text.
  textual :
      (s : String) (o : Option String)
      → whole_template (trim s) ≡ o
      → (elim o as (λ _. Type 0) [
        | none ↦ Unit
        | some name ↦ (t : String) × (lookup name params ≡ some (str t))
      ])
      → Known (names_of (pieces zero s))
      → (t : String) × (substitute_text show params id s ≡ return (str t))
  unfolding substitute_text
  textual s none partial h known =
      let (t, filled) = fill-Returns (pieces zero s) known in
      (t, rw (substitute_text, partial, filled) refl)
  textual s (some name) whole (t, found) known = (t, rw (substitute_text, whole, found) refl)

task_io-Returns : (t : String) → Returns (task_io (str t))
unfolding task_io
task_io-Returns t = elim (Option-cases (step_ref t)) [
  | inl asset ↦ rw (task_io, asset) (_, refl)
  | inr (target, upstream) ↦ rw (task_io, upstream) (_, refl)
]

pub build_inputs-Returns :
    (setup : Setup) (recipe : Recipe) (params : Dict Json) (id : String) (inputs : Dict String)
    → All (λ e. IsTextual params e.1) inputs
    → All (λ k. has k params ≡ true) (unknown_in_fields (texts inputs))
    → Returns (build_inputs setup recipe params id inputs)
unfolding build_inputs unknown_in_fields substitute
build_inputs-Returns setup recipe params id [] h known = ([], refl)
build_inputs-Returns setup recipe params id ((name, ref) ∷ inputs) h known =
    let (own, rest) =
      All-split (λ k. has k params ≡ true) (names_of (pieces zero ref))
        (unknown_in_fields (texts inputs)) known in
    let (t, made) = textual setup.show params id ref (whole_template (trim ref)) refl h.0 own in
    let (io, read) = task_io-Returns t in
    rw (build_inputs, made, read)
      (chain-Returns (build_inputs setup recipe params id inputs) _
        (build_inputs-Returns setup recipe params id inputs h.1 rest) (λ ios _. (_, refl)))
