-- ===== src/Recipe/Address/Inverse.antt =====
-- recipe/model.py: parse_recipe_address on what format_recipe_address writes.
use Prim.Native.Char.{code, Char}
use Prim.Native.String.{◌++◌ as text_append}
use text.Mathlib.TextLemmas.{
  append-nil, append_assoc, cons-append, nil-append, cons≢nil, head-eq_of_cons-eq,
}
use geo_nexus_sdk.Base.{
  ℕ, String, Bool, true, false, ◌&&◌, Option, none, some, eqb, ◌==◌, ◌≡◌, refl, sym, ap, subst, ◌∙◌,
  arith, Bool-cases, inl, inr, eq_iff,
}
use geo_nexus_sdk.Recipe.Address.{
  is_alnum, is_slug, is_version, span, word, after, at_end, version_part, name_part,
  parse_recipe_address, format_recipe_address,
}

-- What follows a word does not begin with one of its characters.
abbrev pub Stops : (ℕ → Bool) → String → Type 0
Stops p String.[] = Unit
Stops p (String.◌∷◌ c s) = p (code c) ≡ false

-- A word: an alphanumeric character, and then any that pass.
abbrev pub every_char : (ℕ → Bool) → String → Bool
every_char p String.[] = true
every_char p (String.◌∷◌ c s) = p (code c) && every_char p s

abbrev pub is_word : (ℕ → Bool) → String → Bool
is_word p String.[] = false
is_word p (String.◌∷◌ c s) = is_alnum (code c) && every_char p s

span-append :
    (p : ℕ → Bool) (s rest : String)
    → every_char p s ≡ true
    → Stops p rest
    → span p (text_append s rest) ≡ (s, rest)
unfolding span
span-append p String.[] String.[] h stops = rw (nil-append "") refl
span-append p String.[] (String.◌∷◌ c rest) h stops =
    ap (span p) (nil-append (String.◌∷◌ c rest)) ∙ rw (span, stops) refl
span-append p (String.◌∷◌ c s) rest h stops =
    let first : p (code c) ≡ true = ground arith in
    ap (span p) (cons-append c s rest)
    ∙ rw (span, first, span-append p s rest (ground (arith, first)) stops) refl

word-append :
    (p : ℕ → Bool) (s rest : String)
    → is_word p s ≡ true
    → Stops p rest
    → word p (text_append s rest) ≡ some (s, rest)
unfolding word
word-append p String.[] rest h stops = cc
word-append p (String.◌∷◌ c s) rest h stops =
    let first : is_alnum (code c) ≡ true = ground arith in
    ap (word p) (cons-append c s rest)
    ∙ rw (word, first, span-append p s rest (ground (arith, first)) stops) refl

after-append : (p s : String) → after p (text_append p s) ≡ some s
unfolding after
after-append String.[] s = ap some (nil-append s)
after-append (String.◌∷◌ c p) s =
    ap (after (String.◌∷◌ c p)) (cons-append c p s) ∙ ground (arith, after-append p s)

-- What follows begins with a mark.
marked-Stops :
    (p : ℕ → Bool) (c : Char) (s : String)
    → p (code c) ≡ false
    → Stops p (text_append (String.◌∷◌ c "") s)
marked-Stops p c s h = subst (Stops p) (sym (cons-append c "" s)) h

cons-ne-nil : (c : Char) (s : String) → (String.◌∷◌ c s == "") ≡ false
cons-ne-nil c s = elim (Bool-cases (String.◌∷◌ c s == "")) [
  | inr differs ↦ differs
  | inl same ↦ absurd (cons≢nil ((eq_iff (String.◌∷◌ c s) "").0 same))
]

not_newline :
    (c d : Char) (s : String)
    → eqb (code c) (code d) ≡ false
    → (String.◌∷◌ c s == String.◌∷◌ d "") ≡ false
not_newline c d s h = elim (Bool-cases (String.◌∷◌ c s == String.◌∷◌ d "")) [
  | inr differs ↦ differs
  | inl same ↦
      let heads : c ≡ d = head-eq_of_cons-eq ((eq_iff (String.◌∷◌ c s) (String.◌∷◌ d "")).0 same) in
      absurd (ground (arith, h, ap code heads))
]

name_part-append :
    (namespace name rest : String)
    → is_word is_slug name ≡ true
    → Stops is_slug rest
    → name_part namespace (text_append "/" (text_append name rest))
      ≡ version_part namespace name rest
unfolding name_part
name_part-append namespace name rest h stops =
    rw (name_part, after-append "/" (text_append name rest), word-append is_slug name rest h stops)
      refl

parse-append :
    (namespace name rest : String)
    → is_word is_slug namespace ≡ true
    → is_word is_slug name ≡ true
    → Stops is_slug rest
    → parse_recipe_address
        (text_append "recipe://" (text_append namespace (text_append "/" (text_append name rest))))
      ≡ version_part namespace name rest
unfolding parse_recipe_address
parse-append namespace name rest hn hm stops =
    let more = text_append "/" (text_append name rest) in
    rw
      (
        parse_recipe_address,
        after-append "recipe://" (text_append namespace more),
        word-append is_slug namespace more hn (marked-Stops is_slug _ (text_append name rest) refl),
      )
      (name_part-append namespace name rest hm stops)

whole-word : (p : ℕ → Bool) (s : String) → is_word p s ≡ true → word p s ≡ some (s, "")
whole-word p s h = ap (word p) (sym (append-nil s)) ∙ word-append p s "" h tt

-- A version that is written has at least one character.
word-not_empty : (p : ℕ → Bool) (s : String) → is_word p s ≡ true → (s == "") ≡ false
word-not_empty p String.[] h = cc
word-not_empty p (String.◌∷◌ c s) h = cons-ne-nil c s

at_end-mark :
    (c : Char) (s : String)
    → eqb (code c) 10 ≡ false
    → at_end (text_append (String.◌∷◌ c "") s) ≡ false
at_end-mark c s h =
    let t = text_append "" s in
    let no_line : (String.◌∷◌ c t == "\n") ≡ false = not_newline c "\n" t h in
    ap at_end (cons-append c "" s) ∙ ground (arith, cons-ne-nil c t, no_line)

version_part-mark :
    (namespace name version : String)
    → is_word is_version version ≡ true
    → version_part namespace name (text_append "@" version) ≡ some (namespace, name, some version)
unfolding version_part
version_part-mark namespace name version h =
    rw
      (
        version_part,
        at_end-mark _ version refl,
        after-append "@" version,
        whole-word is_version version h,
      )
      refl

abbrev pub IsVersion : Option String → Type 0
IsVersion none = Unit
IsVersion (some v) = is_word is_version v ≡ true

-- An address that is written from a namespace, a name and a version that are words of their
-- alphabets is read back as these.
pub parse-format :
    (namespace name : String) (version : Option String)
    → is_word is_slug namespace ≡ true
    → is_word is_slug name ≡ true
    → IsVersion version
    → parse_recipe_address (format_recipe_address namespace name version)
      ≡ some (namespace, name, version)
unfolding format_recipe_address
parse-format namespace name none hn hm hv =
    ap
      (λ t.
        parse_recipe_address (text_append "recipe://" (text_append namespace (text_append "/" t))))
      (sym (append-nil name))
    ∙ (parse-append namespace name "" hn hm tt ∙ (unfold version_part in refl))
parse-format namespace name (some v) hn hm hv =
    let rest = text_append "@" v in
    let slash = text_append "/" name in
    let there : text_append (text_append "recipe://" (text_append namespace slash)) rest
        ≡ text_append "recipe://"
            (text_append namespace (text_append "/" (text_append name rest))) =
      append_assoc "recipe://" (text_append namespace slash) rest
      ∙ ap (text_append "recipe://") (
          append_assoc namespace slash rest
          ∙ ap (text_append namespace) (append_assoc "/" name rest)) in
    rw (word-not_empty is_version v hv) (
      ap parse_recipe_address there
      ∙ (parse-append namespace name rest hn hm (marked-Stops is_slug _ v refl)
          ∙ version_part-mark namespace name v hv))
