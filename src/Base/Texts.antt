-- ===== src/Base/Texts.antt =====
-- Python's `str.strip`, `str.lower` and `==` on the code points of a text. `lower` is `str.lower` on
-- ASCII, in which the vocabularies of the program are written.
use Prim.Native.Char.{code}
use Prim.Native.Nat.{ℕ, ◌+◌}
use Prim.Native.String.{String}
use Prim.Native.String.{compare}
use Prim.Native.Nat.{Ordering}
use text.Mathlib.Text.{◌==◌}
use mathlib.Core.Bool.{Bool, true, false, not, ◌&&◌, ◌||◌}
use mathlib.Core.Option.{Option, none, some}
use mathlib.Core.List.{List, [], ◌∷◌}
use geo_nexus_sdk.Base.Tests.{leb, eqb, if◌then◌else◌}

-- The code points of a text.
abbrev pub codes : String → List ℕ
codes String.[] = []
codes (String.◌∷◌ c s) = code c ∷ codes s

-- `str.strip`: the characters that Python counts as white space.
abbrev pub is_space : ℕ → Bool
is_space c =
    (leb 9 c && leb c 13)
    || ((leb 28 c && leb c 32)
        || (eqb c 133
            || (eqb c 160
                || (eqb c 5760
                    || ((leb 8192 c && leb c 8202)
                        || (eqb c 8232
                            || (eqb c 8233 || (eqb c 8239 || (eqb c 8287 || eqb c 12288)))))))))

unfoldable pub strip_left : List ℕ → List ℕ
strip_left [] = []
strip_left (c ∷ cs) = if is_space c then strip_left cs else c ∷ cs

unfoldable pub strip_right : List ℕ → List ℕ
strip_right [] = []
strip_right (c ∷ cs) = elim (strip_right cs) [
  | [] ↦ if is_space c then [] else c ∷ []
  | d ∷ ds ↦ c ∷ d ∷ ds
]

-- `str.strip` as a text.
unfoldable pub trim_left : String → String
trim_left String.[] = ""
trim_left (String.◌∷◌ c s) =
    let rest = trim_left s in if is_space (code c) then rest else String.◌∷◌ c s

unfoldable pub trim_right : String → String
trim_right String.[] = ""
trim_right (String.◌∷◌ c s) =
    let rest = trim_right s in if is_space (code c) && rest == "" then "" else String.◌∷◌ c rest

unfoldable pub trim : String → String
unfolding trim_left trim_right
trim s = trim_right (trim_left s)

abbrev pub lower : ℕ → ℕ
lower c = if leb 65 c && leb c 90 then c + 32 else c

unfoldable pub same_text : List ℕ → List ℕ → Bool
same_text [] [] = true
same_text [] (b ∷ bs) = false
same_text (a ∷ cs) [] = false
same_text (a ∷ cs) (b ∷ bs) = eqb a b && same_text cs bs

-- `needle in text`.
unfoldable pub starts_with : List ℕ → List ℕ → Bool
starts_with [] text = true
starts_with (a ∷ cs) [] = false
starts_with (a ∷ cs) (b ∷ bs) = eqb a b && starts_with cs bs

unfoldable pub has_text : List ℕ → List ℕ → Bool
unfolding starts_with
has_text needle [] = starts_with needle []
has_text needle (b ∷ bs) = starts_with needle (b ∷ bs) || has_text needle bs

-- `t or other`, and the test of `if t:`; an empty text counts as none.
abbrev pub or_text : Option String → String → String
or_text none other = other
or_text (some t) other = if t == "" then other else t

abbrev pub given : Option String → Bool
given none = false
given (some t) = not (t == "")

-- `s <= t`: texts are ordered by their code points.
abbrev pub leb_text : String → String → Bool
leb_text s t = elim (compare s t) [ Ordering.gt ↦ false | _ ↦ true ]
