-- ===== src/Resource/Sizes.antt =====
-- resource.py: parse_memory and _to_int.
use geo_nexus_sdk.Base.{
  ℕ, suc, ℤ, pos, negsuc, pos_part, neg_part, ◌+◌, ◌-◌, ◌*◌, ◌^◌, String, Bool, true, false, not,
  ◌&&◌, Option, none, some, List, [], ◌∷◌, map, codes, strip_left, strip_right, lower, same_text,
  starts_with, leb, eqb, if◌then◌else◌, some_of, zero,
}
use geo_nexus_sdk.Geocard.Model.{Amount, absent, whole, text}

-- A number of GiB.
pub record Size : Type 0 where
  pub num : ℤ
  pub den : ℕ

unfoldable pub leb_size : Size → Size → Bool
leb_size a b =
    leb (pos_part a.num * b.den + neg_part b.num * a.den)
      (pos_part b.num * a.den + neg_part a.num * b.den)

abbrev pub is_digit : ℕ → Bool
is_digit c = leb 48 c && leb c 57

-- The digits at the start, as a number behind `acc`, how many they are, and the rest.
unfoldable pub digits : List ℕ → ℕ → ℕ → ℕ × ℕ × List ℕ
digits [] acc n = (acc, n, [])
digits (c ∷ cs) acc n = elim (is_digit c) [
  | true ↦ digits cs (acc * 10 + (c - 48)) (n + 1)
  | false ↦ (acc, n, c ∷ cs)
]

abbrev pub unit_names : List String
unit_names = "" ∷ "gi" ∷ "gib" ∷ "gb" ∷ "mi" ∷ "mib" ∷ "mb" ∷ []

-- How many of the unit a GiB is; a text that is no unit makes the expression fail.
unfoldable pub factor_of : List ℕ → Option ℕ
unfolding same_text starts_with
factor_of unit =
    if some_of (λ w. same_text (codes w) unit) unit_names
    then some (if starts_with (codes "mi") unit then 1024 else 1)
    else none

-- What follows the digits before the point: at most one point, with digits behind it.
unfoldable pub fraction_of : List ℕ → ℕ → ℕ × ℕ × List ℕ
unfolding digits
fraction_of [] acc = (acc, 0, [])
fraction_of (c ∷ cs) acc = elim (eqb c 46) [
  | false ↦ (acc, 0, c ∷ cs)
  | true ↦ let more = digits cs acc 0 in if eqb more.1 0 then (acc, 0, c ∷ cs) else more
]

-- _MEMORY_RE, whose groups are a number and a unit.
unfoldable pub memory_of : List ℕ → Option Size
unfolding digits fraction_of factor_of strip_left strip_right
memory_of cs =
    let head = digits (strip_left cs) 0 0 in
    if eqb head.1 0
    then none
    else let number = fraction_of head.2 head.0 in
      elim (factor_of (map lower (strip_right (strip_left number.2)))) [
        | none ↦ none
        | some factor ↦ some (record { num = pos number.0; den = 10 ^ number.1 * factor })
      ]

unfoldable pub parse_memory : Amount → Option Size
unfolding memory_of
parse_memory absent = none
parse_memory (whole n) = some (record { num = n; den = 1 })
parse_memory (text t) = memory_of (codes t)

-- `int(text)`: digits with single underscores between them, behind an optional sign. `fresh` holds at
-- the start and behind an underscore.
unfoldable pub int_digits : List ℕ → Bool → ℕ → Option ℕ
int_digits [] fresh acc = if fresh then none else some acc
int_digits (c ∷ cs) fresh acc = elim (is_digit c) [
  | true ↦ int_digits cs false (acc * 10 + (c - 48))
  | false ↦ elim (eqb c 95 && not fresh) [ true ↦ int_digits cs true acc | false ↦ none ]
]

abbrev pub negated : ℕ → ℤ
negated zero = pos 0
negated (suc n) = negsuc n

abbrev pub map_option {ℓ κ} : {A : Type ℓ} {B : Type κ} → (A → B) → Option A → Option B
map_option f none = none
map_option f (some a) = some (f a)

unfoldable pub int_of : List ℕ → Option ℤ
unfolding int_digits
int_of [] = none
int_of (c ∷ cs) =
    if eqb c 45
    then map_option negated (int_digits cs true 0)
    else map_option pos (int_digits (if eqb c 43 then cs else c ∷ cs) true 0)

unfoldable pub to_int : Amount → Option ℤ
unfolding int_of strip_left strip_right
to_int absent = none
to_int (whole n) = some n
to_int (text t) = int_of (strip_right (strip_left (codes t)))
