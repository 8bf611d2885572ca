-- ===== src/Recipe/Catalogue/Versions.antt =====
-- recipe/registry.py, `version_key`: how a version of three numbers is read, and which of two is higher.
use Prim.Native.Char.{code, Char}
use Prim.Native.String.{◌++◌ as text_append}
use text.Mathlib.TextLemmas.{cons-append, nil-append, cons≢nil}
use geo_nexus_sdk.Base.{
  sym, eq_iff, ◌∙◌, ℕ, ◌+◌, ◌*◌, ◌-◌, ◌<◌, ◌≡◌, refl, ap, arith, String, true, false, some, [], ◌∷◌,
  eqb, ltb, ◌==◌, Bool-cases, inl, inr, ◌⊎◌, pos,
}
use geo_nexus_sdk.Recipe.Model.{partition, has_mark}
use geo_nexus_sdk.Recipe.Catalogue.{
  RecipeEntry, is_digit, read_digits, chunk_number, split_dots, version_key, less_key, version_of,
}

-- A text of digits that is the number.
pub record IsNumber (t : String) (n : ℕ) : Type 0 where
  pub filled : (t == "") ≡ false
  pub digits : read_digits 0 t ≡ some n

abbrev pub dotted : String → String → String → String
dotted a b c = text_append a (text_append "." (text_append b (text_append "." c)))

-- The version is `major.minor.patch`, in numbers.
pub data Numbered (e : RecipeEntry) (major minor patch : ℕ) : Type 0 where
  numbered :
      (a b c : String)
      → version_of e.recipe ≡ some (dotted a b c)
      → IsNumber a major
      → IsNumber b minor
      → IsNumber c patch
      → Numbered e major minor patch

read_digits-unmarked :
    (mark m n : ℕ) (t : String)
    → ltb mark 48 ≡ true
    → read_digits m t ≡ some n
    → has_mark mark t ≡ false
unfolding read_digits has_mark
read_digits-unmarked mark m n String.[] low h = refl
read_digits-unmarked mark m n (String.◌∷◌ c t) low h = elim (Bool-cases (is_digit (code c))) [
  | inl digit ↦
      let rest : read_digits (m * 10 + (code c - 48)) t ≡ some n = rw digit at h in
      let plain = read_digits-unmarked mark (m * 10 + (code c - 48)) n t low rest in
      ground (arith, plain, digit, low)
  | inr other ↦ absurd (ground (arith, other, h))
]

partition-unmarked : (mark : ℕ) (t : String) → has_mark mark t ≡ false → (partition mark t).0 ≡ t
unfolding partition has_mark
partition-unmarked mark String.[] h = refl
partition-unmarked mark (String.◌∷◌ c t) h = elim (Bool-cases (eqb (code c) mark)) [
  | inl here ↦ absurd (ground (arith, here, h))
  | inr other ↦ rw other (ap (String.◌∷◌ c) (partition-unmarked mark t (ground (arith, other, h))))
]

has_mark-append :
    (mark : ℕ) (s t : String)
    → has_mark mark s ≡ false
    → has_mark mark t ≡ false
    → has_mark mark (text_append s t) ≡ false
unfolding has_mark
has_mark-append mark String.[] t hs ht = ap (has_mark mark) (nil-append t) ∙ ht
has_mark-append mark (String.◌∷◌ c s) t hs ht =
    ap (has_mark mark) (cons-append c s t)
    ∙ ground (arith, hs, has_mark-append mark s t (ground (arith, hs)) ht)

split_dots-last : (t : String) → has_mark 46 t ≡ false → split_dots t ≡ (t, [])
unfolding split_dots has_mark
split_dots-last String.[] h = refl
split_dots-last (String.◌∷◌ c t) h = elim (Bool-cases (eqb (code c) 46)) [
  | inl here ↦ absurd (ground (arith, here, h))
  | inr other ↦ rw (other, split_dots-last t (ground (arith, other, h))) refl
]

split_dots-dot :
    (d : Char) (s : String)
    → eqb (code d) 46 ≡ true
    → split_dots (text_append (String.◌∷◌ d "") s) ≡ ("", (split_dots s).0 ∷ (split_dots s).1)
unfolding split_dots
split_dots-dot d s h =
    ap split_dots (cons-append d "" s)
    ∙ (ap (λ t. split_dots (String.◌∷◌ d t)) (nil-append s) ∙ rw (split_dots, h) refl)

split_dots-next :
    (t s : String)
    → has_mark 46 t ≡ false
    → split_dots (text_append t (text_append "." s)) ≡ (t, (split_dots s).0 ∷ (split_dots s).1)
unfolding split_dots has_mark
split_dots-next String.[] s h =
    ap split_dots (nil-append (text_append "." s)) ∙ split_dots-dot "." s refl
split_dots-next (String.◌∷◌ c t) s h = elim (Bool-cases (eqb (code c) 46)) [
  | inl here ↦ absurd (ground (arith, here, h))
  | inr other ↦
      ap split_dots (cons-append c t (text_append "." s))
      ∙ rw (other, split_dots-next t s (ground (arith, other, h))) refl
]

chunk_number-IsNumber : (t : String) (n : ℕ) → IsNumber t n → chunk_number t ≡ pos n
unfolding chunk_number
chunk_number-IsNumber t n h = rw (chunk_number, h.filled, h.digits) refl

unmarked :
    (mark : ℕ) (a b c : String) (x y z : ℕ)
    → ltb mark 46 ≡ true
    → IsNumber a x
    → IsNumber b y
    → IsNumber c z
    → has_mark mark (dotted a b c) ≡ false
unfolding has_mark
unmarked mark a b c x y z low ha hb hc =
    let clear : (t : String) (n : ℕ) → IsNumber t n → has_mark mark t ≡ false =
      λ t n h. read_digits-unmarked mark 0 n t (ground (arith, low)) h.digits in
    let dot : has_mark mark "." ≡ false = ground (arith, low) in
    has_mark-append mark a (text_append "." (text_append b (text_append "." c))) (clear a x ha) (
      has_mark-append mark "." (text_append b (text_append "." c)) dot (
        has_mark-append mark b (text_append "." c) (clear b y hb)
          (has_mark-append mark "." c dot (clear c z hc))))

append_filled : (a t : String) → (a == "") ≡ false → (text_append a t == "") ≡ false
append_filled String.[] t h = absurd (ground (arith, h))
append_filled (String.◌∷◌ c a) t h = elim (Bool-cases (text_append (String.◌∷◌ c a) t == "")) [
  | inl empty ↦
      absurd
        (cons≢nil (sym (cons-append c a t) ∙ (eq_iff (text_append (String.◌∷◌ c a) t) "").0 empty))
  | inr filled ↦ filled
]

version_key-numbers :
    (a b c : String) (x y z : ℕ)
    → IsNumber a x
    → IsNumber b y
    → IsNumber c z
    → version_key (some (dotted a b c)) ≡ pos x ∷ pos y ∷ pos z ∷ []
unfolding version_key
version_key-numbers a b c x y z ha hb hc =
    let plus = partition-unmarked 43 (dotted a b c) (unmarked 43 a b c x y z refl ha hb hc) in
    let minus = partition-unmarked 45 (dotted a b c) (unmarked 45 a b c x y z refl ha hb hc) in
    let first =
      split_dots-next a (text_append b (text_append "." c))
        (read_digits-unmarked 46 0 x a refl ha.digits) in
    let second = split_dots-next b c (read_digits-unmarked 46 0 y b refl hb.digits) in
    let last = split_dots-last c (read_digits-unmarked 46 0 z c refl hc.digits) in
    rw
      (
        version_key,
        append_filled a (text_append "." (text_append b (text_append "." c))) ha.filled,
        plus,
        minus,
        first,
        second,
        last,
        chunk_number-IsNumber a x ha,
        chunk_number-IsNumber b y hb,
        chunk_number-IsNumber c z hc,
      )
      refl

-- Of two versions the higher has the greater number at the first place where they differ.
abbrev pub Higher : ℕ × ℕ × ℕ → ℕ × ℕ × ℕ → Type 0
Higher (a, b, c) (x, y, z) = (x < a) ⊎ ((x ≡ a) × ((y < b) ⊎ ((y ≡ b) × (z < c))))

-- The version of `e` is not higher than that of `best`, if both are of three numbers.
abbrev pub Newest : RecipeEntry → RecipeEntry → Type 0
Newest best e =
    (m n : ℕ × ℕ × ℕ) → Numbered best m.0 m.1 m.2 → Numbered e n.0 n.1 n.2 → ¬ Higher n m

less_key-Higher :
    (m n : ℕ × ℕ × ℕ)
    → Higher n m
    → less_key (pos m.0 ∷ pos m.1 ∷ pos m.2 ∷ []) (pos n.0 ∷ pos n.1 ∷ pos n.2 ∷ []) ≡ true
unfolding less_key
less_key-Higher (x, y, z) (a, b, c) (inl major) = ground (arith, major)
less_key-Higher (x, y, z) (a, b, c) (inr (same, inl minor)) = ground (arith, same, minor)
less_key-Higher (x, y, z) (a, b, c) (inr (same, inr (even, patch))) =
    ground (arith, same, even, patch)

version_key-Numbered :
    (e : RecipeEntry) (x y z : ℕ)
    → Numbered e x y z
    → version_key (version_of e.recipe) ≡ pos x ∷ pos y ∷ pos z ∷ []
version_key-Numbered e x y z (numbered a b c written ha hb hc) =
    ap version_key written ∙ version_key-numbers a b c x y z ha hb hc

pub not_below-Newest :
    (best e : RecipeEntry)
    → less_key (version_key (version_of best.recipe)) (version_key (version_of e.recipe)) ≡ false
    → Newest best e
not_below-Newest best e h m n hm hn higher =
    let above =
      (λ i.
        less_key (version_key-Numbered best m.0 m.1 m.2 hm i)
          (version_key-Numbered e n.0 n.1 n.2 hn i))
      ∙ less_key-Higher m n higher in
    ground (arith, h, above)
