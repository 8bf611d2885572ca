-- ===== src/Base/Values.antt =====
-- The values of `dict[str, Any]`: what JSON can hold. A finite float is in millionths. `same_json` is Python's
-- `==` on them, for which a truth value is the number 1 or 0.
use geo_nexus_sdk.Base.Dicts.{Dict}
use Prim.Native.Nat.{ℕ, ◌*◌, suc, ◌+◌}
use Prim.Native.String.{String}
use mathlib.Core.Path.{◌≡◌, refl, ap}
use mathlib.Core.Bool.{Bool, true, false, not, ◌&&◌}
use mathlib.Core.Option.{Option, none, some}
use text.Mathlib.Text.{◌==◌}
use geo_nexus_sdk.Base.Tests.{if◌then◌else◌, eqb}
use geo_nexus_sdk.Base.Ints.{ℤ, pos, negsuc, eqb_int, leb_int}
use mathlib.Core.List.{List, [], ◌∷◌}

-- A float: what is not a number is neither less nor equal to anything.
pub data Real : Type 0 where
  finite : ℤ → Real
  infinite minus_infinite not_a_number : Real

mutual
  pub data Json : Type 0 where
    null : Json
    bool : Bool → Json
    int : ℤ → Json
    float : Real → Json
    str : String → Json
    arr : Items → Json
    obj : Fields → Json

  pub data Items : Type 0 where
    nil : Items
    cons : Json → Items → Items

  pub data Fields : Type 0 where
    end : Fields
    field : String → Json → Fields → Fields

-- A `dict` as a value, and back.
abbrev pub fields : Dict Json → Fields
fields [] = end
fields ((k, v) ∷ d) = field k v (fields d)

abbrev pub entries : Fields → Dict Json
entries end = []
entries (field k v fs) = (k, v) ∷ entries fs

pub entries-fields : (d : Dict Json) → entries (fields d) ≡ d
entries-fields [] = refl
entries-fields ((k, v) ∷ d) = ap (λ r. (k, v) ∷ r) (entries-fields d)

abbrev pub items : List Json → Items
items [] = nil
items (v ∷ vs) = cons v (items vs)

-- A number as a float.
abbrev pub to_float : ℤ → ℤ
to_float (pos n) = pos (n * 1000000)
to_float (negsuc n) = negsuc (n * 1000000 + 999999)

abbrev pub same_real : Real → Real → Bool
same_real (finite n) (finite m) = eqb_int n m
same_real infinite infinite = true
same_real minus_infinite minus_infinite = true
same_real _ _ = false

abbrev pub less_real : Real → Real → Bool
less_real (finite n) (finite m) = not (leb_int m n)
less_real (finite n) infinite = true
less_real minus_infinite (finite m) = true
less_real minus_infinite infinite = true
less_real _ _ = false

abbrev pub number_of : Json → Option Real
number_of (bool true) = some (finite (pos 1000000))
number_of (bool false) = some (finite (pos 0))
number_of (int n) = some (finite (to_float n))
number_of (float n) = some n
number_of _ = none

abbrev pub same_number : Option Real → Json → Bool
same_number none w = false
same_number (some n) w = elim (number_of w) [ none ↦ false | some m ↦ same_real n m ]

abbrev pub size_of : Fields → ℕ
size_of end = 0
size_of (field k v fs) = suc (size_of fs)

abbrev pub field_of : String → Fields → Option Json
field_of k end = none
field_of k (field j v fs) = if j == k then some v else field_of k fs

unfoldable mutual
  pub same_json : Json → Json → Bool
  same_json null w = elim w [ null ↦ true | _ ↦ false ]
  same_json (bool b) w = same_number (number_of (bool b)) w
  same_json (int n) w = same_number (some (finite (to_float n))) w
  same_json (float n) w = same_number (some n) w
  same_json (str s) w = elim w [ str t ↦ s == t | _ ↦ false ]
  same_json (arr vs) w = elim w [ arr ws ↦ same_items vs ws | _ ↦ false ]
  same_json (obj fs) w = elim w [
    | obj gs ↦ eqb (size_of fs) (size_of gs) && in_fields fs gs
    | _ ↦ false
  ]

  pub same_items : Items → Items → Bool
  same_items nil ws = elim ws [ nil ↦ true | cons w rest ↦ false ]
  same_items (cons v vs) ws = elim ws [
    | nil ↦ false
    | cons w rest ↦ same_json v w && same_items vs rest
  ]

  pub in_fields : Fields → Fields → Bool
  in_fields end gs = true
  in_fields (field k v fs) gs = elim (field_of k gs) [
    | none ↦ false
    | some w ↦ same_json v w && in_fields fs gs
  ]
