-- ===== src/Geocard/Contract/Boxes.antt =====
-- geocard/validator.py, _bbox_overlap: two boxes that overlap have a point in common.
use geo_nexus_sdk.Base.{ℤ, ◌≤ℤ◌, true, false, ◌≡◌, arith}
use geo_nexus_sdk.Geocard.Contract.{Box, bbox_overlap, ltb_int, max_int}

abbrev pub Ordered : Box → Type 0
Ordered b = (b.west ≤ℤ b.east) × (b.south ≤ℤ b.north)

abbrev pub Inside : Box → ℤ → ℤ → Type 0
Inside b x y = (b.west ≤ℤ x) × (x ≤ℤ b.east) × (b.south ≤ℤ y) × (y ≤ℤ b.north)

abbrev pub Common : Box → Box → Type 0
Common a b = (x : ℤ) × (y : ℤ) × Inside a x y × Inside b x y

max_int-le : (a b c : ℤ) → a ≤ℤ c → b ≤ℤ c → max_int a b ≤ℤ c
max_int-le a b c h k = ground arith

le-max_int : (a b : ℤ) → (a ≤ℤ max_int a b) × (b ≤ℤ max_int a b)
le-max_int a b = ground arith

not_ltb_ℤ : (a b : ℤ) → ltb_int a b ≡ false → b ≤ℤ a
not_ltb_ℤ a b h = ground arith

-- The corner that is the furthest to the east and north of the two lower corners.
pub bbox_overlap-Common : (a b : Box) → Ordered a → Ordered b → bbox_overlap a b ≡ true → Common a b
unfolding bbox_overlap
bbox_overlap-Common a b oa ob h =
    let ew = not_ltb_ℤ a.east b.west (ground arith) in
    let we = not_ltb_ℤ b.east a.west (ground arith) in
    let ns = not_ltb_ℤ a.north b.south (ground arith) in
    let sn = not_ltb_ℤ b.north a.south (ground arith) in
    let x = le-max_int a.west b.west in
    let y = le-max_int a.south b.south in
    (
      max_int a.west b.west,
      max_int a.south b.south,
      (
        x.0,
        max_int-le a.west b.west a.east oa.0 ew,
        y.0,
        max_int-le a.south b.south a.north oa.1 ns,
      ),
      (
        x.1,
        max_int-le a.west b.west b.east we ob.0,
        y.1,
        max_int-le a.south b.south b.north sn ob.1,
      ),
    )
