-- ===== src/Recipe/Templated.antt =====
-- recipe/materialize.py: a template that is a whole text is found by the search too, white space around it or not.
use Prim.Native.Char.{Char, code}
use geo_nexus_sdk.Base.{
  ℕ, zero, String, Bool, true, false, ◌&&◌, Option, none, some, contains, eqb, ◌==◌, ◌≡◌, refl, sym,
  ap, subst, ◌∙◌, arith, Bool-cases, Option-cases, inl, inr, eq_refl, is_space, trim, trim_left,
  trim_right,
}
use geo_nexus_sdk.Recipe.Address.{span, after}
use geo_nexus_sdk.Recipe.Templates.{
  is_name_start, is_name_part, param_name, template_at, whole_template, pieces, names_of,
}

-- The second text goes on after the first.
abbrev pub Begins : String → String → Type 0
Begins String.[] t = Unit
Begins (String.◌∷◌ c s) String.[] = ⊥
Begins (String.◌∷◌ c s) (String.◌∷◌ d t) = (c ≡ d) × Begins s t

-- Some text.
abbrev pub IsMore : String → Type 0
IsMore String.[] = ⊥
IsMore (String.◌∷◌ c s) = Unit

Begins-refl : (s : String) → Begins s s
Begins-refl String.[] = tt
Begins-refl (String.◌∷◌ c s) = (refl, Begins-refl s)

trim_right-Begins : (s : String) → Begins (trim_right s) s
unfolding trim_right
trim_right-Begins String.[] = tt
trim_right-Begins (String.◌∷◌ c s) = elim (Bool-cases (is_space (code c) && trim_right s == "")) [
  | inl blank ↦ rw (trim_right, blank) tt
  | inr shown ↦ rw (trim_right, shown) (refl, trim_right-Begins s)
]

after-Begins :
    (p s t rest : String)
    → after p s ≡ some rest
    → Begins s t
    → (rest' : String) × (after p t ≡ some rest') × Begins rest rest'
unfolding after
after-Begins String.[] s t rest h b =
    let same : s ≡ rest = cc in (t, refl, subst (λ r. Begins r t) same b)
after-Begins (String.◌∷◌ c p) String.[] t rest h b = cc
after-Begins (String.◌∷◌ c p) (String.◌∷◌ d s) String.[] rest h b = absurd b
after-Begins (String.◌∷◌ c p) (String.◌∷◌ d s) (String.◌∷◌ e t) rest h (same, b) =
    elim (Bool-cases (eqb (code c) (code d))) [
      | inr other ↦ absurd (ground (arith, other, h))
      | inl equal ↦
          let (rest', found, more) = after-Begins p s t rest (ground (arith, equal, h)) b in
          let equal' : eqb (code c) (code e) ≡ true =
            subst (λ x. eqb (code c) (code x) ≡ true) same equal in
          (rest', rw (after, equal') found, more)
    ]

after_trim-Begins :
    (c : Char) (p s t rest : String)
    → after (String.◌∷◌ c p) (trim_left s) ≡ some rest
    → Begins s t
    → (rest' : String) × (after (String.◌∷◌ c p) (trim_left t) ≡ some rest') × Begins rest rest'
unfolding trim_left after
after_trim-Begins c p String.[] t rest h b = cc
after_trim-Begins c p (String.◌∷◌ d s) String.[] rest h b = absurd b
after_trim-Begins c p (String.◌∷◌ d s) (String.◌∷◌ e t) rest h (same, b) =
    elim (Bool-cases (is_space (code d))) [
      | inl blank ↦
          let blank' : is_space (code e) ≡ true =
            subst (λ x. is_space (code x) ≡ true) same blank in
          let (rest', found, more) =
            after_trim-Begins c p s t rest (rw (trim_left, blank) at h) b in
          (rest', rw (trim_left, blank') found, more)
      | inr shown ↦
          let shown' : is_space (code e) ≡ false =
            subst (λ x. is_space (code x) ≡ false) same shown in
          let (rest', found, more) =
            after-Begins (String.◌∷◌ c p) (String.◌∷◌ d s) (String.◌∷◌ e t) rest
              (rw (trim_left, shown) at h) (same, b) in
          (rest', rw (trim_left, shown') found, more)
    ]

-- Unless all of the first text passes, the second is split where it is.
span-Begins :
    (p : ℕ → Bool) (s t : String)
    → IsMore (span p s).1
    → Begins s t
    → ((span p t).0 ≡ (span p s).0) × Begins (span p s).1 (span p t).1
unfolding span
span-Begins p String.[] t h b = absurd h
span-Begins p (String.◌∷◌ c s) String.[] h b = absurd b
span-Begins p (String.◌∷◌ c s) (String.◌∷◌ d t) h (same, b) = elim (Bool-cases (p (code c))) [
  | inl passes ↦
      let passes' : p (code d) ≡ true = subst (λ x. p (code x) ≡ true) same passes in
      let (front, rest) = span-Begins p s t (rw (span, passes) at h) b in
      rw (span, passes, passes')
        (
          subst (λ x. String.◌∷◌ x (span p t).0 ≡ String.◌∷◌ c (span p s).0) same
              (ap (String.◌∷◌ c) front),
          rest,
        )
  | inr stops ↦
      let stops' : p (code d) ≡ false = subst (λ x. p (code x) ≡ false) same stops in
      rw (span, stops, stops') (refl, (same, b))
]

param_name-Begins :
    (s t name rest : String)
    → param_name s ≡ some (name, rest)
    → IsMore rest
    → Begins s t
    → (rest' : String) × (param_name t ≡ some (name, rest')) × Begins rest rest'
unfolding param_name
param_name-Begins String.[] t name rest h more b = cc
param_name-Begins (String.◌∷◌ c s) String.[] name rest h more b = absurd b
param_name-Begins (String.◌∷◌ c s) (String.◌∷◌ d t) name rest h more (same, b) =
    elim (Bool-cases (is_name_start (code c))) [
      | inr other ↦ absurd (ground (arith, other, h))
      | inl starts ↦
          let starts' : is_name_start (code d) ≡ true =
            subst (λ x. is_name_start (code x) ≡ true) same starts in
          let h' : some (String.◌∷◌ c (span is_name_part s).0, (span is_name_part s).1)
              ≡ some (name, rest) =
            rw (param_name, starts) at h in
          let own : String.◌∷◌ c (span is_name_part s).0 ≡ name =
            ap (λ o. elim o [ none ↦ name | some pair ↦ pair.0 ]) h' in
          let left : (span is_name_part s).1 ≡ rest =
            ap (λ o. elim o [ none ↦ rest | some pair ↦ pair.1 ]) h' in
          let (front, after_name) = span-Begins is_name_part s t (subst IsMore (sym left) more) b in
          let own' : String.◌∷◌ d (span is_name_part t).0 ≡ name =
            subst (λ x. String.◌∷◌ x (span is_name_part t).0 ≡ name) same
              (ap (String.◌∷◌ c) front ∙ own) in
          (
            (span is_name_part t).1,
            rw (param_name, starts', own') refl,
            subst (λ r. Begins r (span is_name_part t).1) left after_name,
          )
    ]

step :
    {A B : Type 0} (m : Option A) (k : A → Option B) (b : B)
    → (elim m as (λ _. Option B) [ none ↦ none | some a ↦ k a ]) ≡ some b
    → (a : A) × (m ≡ some a) × (k a ≡ some b)
step (some a) k b h = (a, refl, h)
step none k b h = cc

after_end :
    (c : Char) (p s rest : String) → after (String.◌∷◌ c p) (trim_left s) ≡ some rest → IsMore s
unfolding after trim_left
after_end c p String.[] rest h = cc
after_end c p (String.◌∷◌ d s) rest h = tt

template_of :
    (t t₁ t₂ t₃ t₄ name : String)
    → after "${" t ≡ some t₁
    → after "params." (trim_left t₁) ≡ some t₂
    → param_name t₂ ≡ some (name, t₃)
    → after "}" (trim_left t₃) ≡ some t₄
    → template_at t ≡ some (name, t₄)
unfolding template_at
template_of t t₁ t₂ t₃ t₄ name opened prefixed read closed =
    rw (template_at, opened, prefixed, read, closed) refl

template_at-Begins :
    (s t name rest : String)
    → template_at s ≡ some (name, rest)
    → Begins s t
    → (rest' : String) × (template_at t ≡ some (name, rest'))
unfolding template_at
template_at-Begins s t name rest h b =
    let (s₁, opened, h₁) = step (after "${" s) _ (name, rest) h in
    let (s₂, prefixed, h₂) = step (after "params." (trim_left s₁)) _ (name, rest) h₁ in
    let ((found, s₃), read, h₃) = step (param_name s₂) _ (name, rest) h₂ in
    let (s₄, closed, h₄) = step (after "}" (trim_left s₃)) _ (name, rest) h₃ in
    let (t₁, opened', b₁) = after-Begins "${" s t s₁ opened b in
    let (t₂, prefixed', b₂) = after_trim-Begins "p" "arams." s₁ t₁ s₂ prefixed b₁ in
    let (t₃, read', b₃) =
      param_name-Begins s₂ t₂ found s₃ read (after_end "}" "" s₃ s₄ closed) b₂ in
    let (t₄, closed', b₄) = after_trim-Begins "}" "" s₃ t₃ s₄ closed b₃ in
    let same : found ≡ name = cc in
    (
      t₄,
      template_of t t₁ t₂ t₃ t₄ found opened' prefixed' read' closed' ∙ ap (λ n. some (n, t₄)) same,
    )

whole-at :
    (s name : String)
    → whole_template s ≡ some name
    → (rest : String) × (template_at s ≡ some (name, rest))
unfolding whole_template
whole-at s name h = elim (Option-cases (template_at s)) [
  | inl absent ↦ absurd (ground (arith, absent, h))
  | inr ((found, rest), at_start) ↦ elim (Bool-cases (rest == "")) [
    | inr more ↦ absurd (ground (arith, at_start, more, h))
    | inl all ↦
        let same : found ≡ name = ground (arith, at_start, all, h) in
        (rest, at_start ∙ ap (λ n. some (n, rest)) same)
  ]
]

no_space : (c : ℕ) → is_space c ≡ true → eqb 36 c ≡ false
no_space c h = ground arith

no_template_at :
    (c : Char) (s : String) → is_space (code c) ≡ true → template_at (String.◌∷◌ c s) ≡ none
unfolding template_at after
no_template_at c s h = rw (template_at, no_space (code c) h) refl

no_whole : (name : String) → whole_template "" ≡ some name → ⊥
unfolding whole_template template_at after
no_whole name h = cc

-- The name of a template that is a whole text, but for white space around it, is among those that the search finds.
pub whole-names_of :
    (s name : String)
    → whole_template (trim s) ≡ some name
    → contains name (names_of (pieces zero s)) ≡ true
unfolding pieces trim trim_left trim_right
whole-names_of String.[] name h = absurd (no_whole name h)
whole-names_of (String.◌∷◌ c s) name h = elim (Bool-cases (is_space (code c))) [
  | inl blank ↦
      let inner : whole_template (trim s) ≡ some name = rw (trim_left, blank) at h in
      rw (pieces, no_template_at c s blank) (whole-names_of s name inner)
  | inr shown ↦
      let inner : whole_template (trim_right (String.◌∷◌ c s)) ≡ some name =
        rw (trim_left, shown) at h in
      let (rest, there) = whole-at (trim_right (String.◌∷◌ c s)) name inner in
      let (rest', found) =
        template_at-Begins (trim_right (String.◌∷◌ c s)) (String.◌∷◌ c s) name rest there
          (trim_right-Begins (String.◌∷◌ c s)) in
      rw (pieces, found, eq_refl name) refl
]
