-- ===== src/Geocard/Contract.antt =====
-- geocard/validator.py, ContractValidator.check: whether a card meets a request. What is not in the
-- repository is a parameter: the comparison and the transformation of pyproj, `datetime` on ISO texts (as
-- microseconds of UTC since year 1, a zone taken into account), and how Python prints lists and numbers.
pub mod Boxes
pub mod Bands
pub mod Check
pub mod Sound
mod Tests
use geo_nexus_sdk.Base.{
  ℕ, ℤ, ◌+◌, ◌-◌, leb_int, String, Bool, true, false, not, ◌&&◌, ◌||◌, Option, none, some, List, [],
  ◌∷◌, ◌++◌, map, codes, strip_left, strip_right, lower, same_text, has_text, some_of, keep, leb,
  ltb, eqb, or_text, given, if◌then◌else◌, is_some, ◌==◌, length, take,
}
use geo_nexus_sdk.Geocard.Model.{GeoCard, SpatialSection, TemporalSection, band_names}

pub record ContractRequest : Type 0 where
  pub bbox : Option (List ℤ)
  pub crs : Option String
  pub start : Option String
  pub end : Option String
  pub required_bands : Option (List String)
  pub required_resolution : Option ℕ

pub data ContractReason : Type 0 where
  crs_compatible crs_incompatible : String → String → ContractReason
  bad_dimension spatial_overlap spatial_mismatch : ContractReason
  -- the card's coverage and the request
  temporal_overlap : TemporalSection → Option String → Option String → ContractReason
  temporal_mismatch : ContractReason
  band_mismatch band_compatible : List String → ContractReason
  resolution_compatible resolution_mismatch : ℕ → ℕ → ContractReason

pub data ContractWarning : Type 0 where
  no_crs no_bbox no_temporal no_bands no_resolution : ContractWarning
  reprojected : String → String → ContractWarning
  not_reprojected temporal_skipped : ContractWarning

pub record ContractResult : Type 0 where
  pub satisfied : Bool
  pub reasons : List ContractReason
  pub warnings : List ContractWarning

abbrev pub Notes : Type 0
Notes = List ContractReason × List ContractWarning

abbrev pub upper : ℕ → ℕ
upper c = if leb 97 c && leb c 122 then c - 32 else c

unfoldable pub normalise_crs : String → List ℕ
unfolding strip_left strip_right
normalise_crs crs = keep (λ c. not (eqb c 32)) (map upper (strip_right (strip_left (codes crs))))

-- [w, s, e, n]
pub record Box : Type 0 where
  pub west : ℤ
  pub south : ℤ
  pub east : ℤ
  pub north : ℤ

-- The first four values, where there are four.
unfoldable pub box_of : List ℤ → Option Box
box_of (w ∷ s ∷ e ∷ n ∷ rest) = some (record { west = w; south = s; east = e; north = n })
box_of (w ∷ s ∷ e ∷ []) = none
box_of (w ∷ s ∷ []) = none
box_of (w ∷ []) = none
box_of [] = none

abbrev pub ltb_int : ℤ → ℤ → Bool
ltb_int a b = not (leb_int b a)

abbrev pub min_int : ℤ → ℤ → ℤ
min_int a b = if leb_int a b then a else b

abbrev pub max_int : ℤ → ℤ → ℤ
max_int a b = if leb_int a b then b else a

unfoldable pub bbox_overlap : Box → Box → Bool
bbox_overlap a b = not (
    ltb_int a.east b.west
    || (ltb_int b.east a.west || (ltb_int a.north b.south || ltb_int b.north a.south)))

-- What the check reads of a card.
abbrev pub card_crs : GeoCard → Option String
card_crs card = elim card.spatial [ none ↦ none | some s ↦ s.crs ]

abbrev pub card_bbox : GeoCard → Option (List ℤ)
card_bbox card = elim card.spatial [ none ↦ none | some s ↦ s.bbox ]

abbrev pub card_resolution : GeoCard → Option ℕ
card_resolution card = elim card.spatial [ none ↦ none | some s ↦ s.resolution ]

-- Bands are compared in lower case.
unfoldable pub missing_bands : List String → List String → List String
unfolding same_text
missing_bands names required =
    keep (λ b. not (some_of (λ n. same_text (map lower (codes n)) (map lower (codes b))) names))
      required

unfoldable pub check_bands : Option (List String) → GeoCard → Notes
unfolding band_names missing_bands
check_bands none card = ([], [])
check_bands (some []) card = ([], [])
check_bands (some (b ∷ bs)) card = elim (band_names card) [
  | [] ↦ ([], no_bands ∷ [])
  | n ∷ ns ↦ elim (missing_bands (n ∷ ns) (b ∷ bs)) [
    | [] ↦ (band_compatible (b ∷ bs) ∷ [], [])
    | m ∷ ms ↦ (band_mismatch (m ∷ ms) ∷ [], [])
  ]
]

-- A resolution is in billionths of a metre, so 1e-9 is one.
unfoldable pub check_resolution : Option ℕ → GeoCard → Notes
check_resolution none card = ([], [])
check_resolution (some required) card = elim (card_resolution card) [
  | none ↦ ([], no_resolution ∷ [])
  | some res ↦
      if leb res (required + 1)
      then (resolution_compatible res required ∷ [], [])
      else (resolution_mismatch res required ∷ [], [])
]

-- datetime.max
abbrev pub latest_time : ℕ
latest_time = 315537897599999999

-- `_parse_datetime`.
module _ (iso_datetime iso_date : List ℕ → Option ℕ) where
  unfoldable pub parse_datetime : String → Option ℕ
  unfolding strip_left strip_right
  parse_datetime value =
      let stripped = strip_right (strip_left (codes value)) in
      elim (iso_datetime stripped) [ some t ↦ some t | none ↦ iso_date stripped ]

  abbrev pub bound_of : ℕ → Option String → Option ℕ
  bound_of default value = if given value then parse_datetime (or_text value "") else some default

  -- The comparison, where all four times parse.
  unfoldable pub compare_times :
      TemporalSection
      → Option String
      → Option String
      → Option ℕ
      → Option ℕ
      → Option ℕ
      → Option ℕ
      → Notes
  compare_times coverage start end (some from) (some to) (some card_start) (some card_end) =
      if leb card_start to && leb from card_end
      then (temporal_overlap coverage start end ∷ [], [])
      else (temporal_mismatch ∷ [], [])
  compare_times coverage start end none to card_start card_end = ([], temporal_skipped ∷ [])
  compare_times coverage start end (some from) none card_start card_end =
      ([], temporal_skipped ∷ [])
  compare_times coverage start end (some from) (some to) none card_end = ([], temporal_skipped ∷ [])
  compare_times coverage start end (some from) (some to) (some card_start) none =
      ([], temporal_skipped ∷ [])

  unfoldable pub check_coverage : Option String → Option String → TemporalSection → Notes
  unfolding compare_times parse_datetime
  check_coverage start end coverage =
      if given coverage.start && given coverage.end
      then compare_times coverage start end (bound_of 0 start) (bound_of latest_time end)
          (parse_datetime (or_text coverage.start "")) (parse_datetime (or_text coverage.end ""))
      else ([], no_temporal ∷ [])

  unfoldable pub check_temporal : Option String → Option String → GeoCard → Notes
  unfolding check_coverage
  check_temporal start end card =
      if is_some start || is_some end
      then elim card.temporal [
        | none ↦ ([], no_temporal ∷ [])
        | some coverage ↦ check_coverage start end coverage
      ]
      else ([], [])

-- `none` where pyproj is missing or raises.
module _ (pyproj_equals : String → String → Option Bool)
    (transform : String → String → ℤ → ℤ → Option (ℤ × ℤ)) where
  unfoldable pub crs_equivalent : String → String → Bool
  unfolding normalise_crs same_text
  crs_equivalent card request = elim (pyproj_equals card request) [
    | some equal ↦ equal
    | none ↦ same_text (normalise_crs card) (normalise_crs request)
  ]

  unfoldable pub check_crs : Option String → GeoCard → Notes
  unfolding crs_equivalent
  check_crs none card = ([], [])
  check_crs (some crs) card = elim (card_crs card) [
    | none ↦ ([], no_crs ∷ [])
    | some own ↦
        if crs_equivalent own crs
        then (crs_compatible own crs ∷ [], [])
        else (crs_incompatible own crs ∷ [], [])
  ]

  -- The box around the four corners.
  unfoldable pub reproject_bbox : Box → String → String → Option Box
  reproject_bbox b src dst = elim (transform src dst b.west b.south) [
    | none ↦ none
    | some p ↦ elim (transform src dst b.east b.south) [
      | none ↦ none
      | some q ↦ elim (transform src dst b.west b.north) [
        | none ↦ none
        | some r ↦ elim (transform src dst b.east b.north) [
          | none ↦ none
          | some t ↦ some (record {
            west = min_int (min_int p.0 q.0) (min_int r.0 t.0);
            south = min_int (min_int p.1 q.1) (min_int r.1 t.1);
            east = max_int (max_int p.0 q.0) (max_int r.0 t.0);
            north = max_int (max_int p.1 q.1) (max_int r.1 t.1);
          })
        ]
      ]
    ]
  ]

  -- The card's box in the system of the request, where the systems differ.
  unfoldable pub compared_box : Option String → Option String → Box → Box × List ContractWarning
  unfolding crs_equivalent reproject_bbox
  compared_box none crs b = (b, [])
  compared_box (some own) none b = (b, [])
  compared_box (some own) (some crs) b =
      if (own == "") || ((crs == "") || ((own == crs) || crs_equivalent own crs))
      then (b, [])
      else elim (reproject_bbox b own crs) [
        | none ↦ (b, not_reprojected ∷ [])
        | some moved ↦ (moved, reprojected own crs ∷ [])
      ]

  unfoldable pub check_bbox : Option (List ℤ) → Option String → GeoCard → Notes
  unfolding box_of compared_box bbox_overlap
  check_bbox none crs card = ([], [])
  check_bbox (some bbox) crs card = elim (card_bbox card) [
    | none ↦ ([], no_bbox ∷ [])
    | some own ↦ elim (box_of bbox) [
      | none ↦ (bad_dimension ∷ [], [])
      | some b ↦ elim (box_of own) [
        | none ↦ (bad_dimension ∷ [], [])
        | some a ↦
            let compared = compared_box (card_crs card) crs a in
            (
              (if bbox_overlap compared.0 b then spatial_overlap else spatial_mismatch) ∷ [],
              compared.1,
            )
      ]
    ]
  ]

-- The texts of the reasons; `show_names` is how Python prints a list of texts, `show_number` a number.
module _ (show_names : List String → String) (show_number : ℕ → String) where
  unfoldable pub reason_text : ContractReason → List ℕ
  reason_text (crs_compatible own crs) =
      codes "CRS compatible: card "
      ++ (codes own ++ (codes " matches request " ++ (codes crs ++ codes ".")))
  reason_text (crs_incompatible own crs) =
      codes "CRS incompatible: card declares "
      ++ (codes own ++ (codes ", request is " ++ (codes crs ++ codes ".")))
  reason_text bad_dimension = codes "Cannot compare bboxes of invalid dimension."
  reason_text spatial_overlap = codes "Spatial overlap: card bbox intersects requested bbox."
  reason_text spatial_mismatch =
      codes "Spatial mismatch: card bbox does not intersect requested bbox."
  reason_text (temporal_overlap coverage start end) =
      codes "Temporal overlap: card ["
      ++ (codes (or_text coverage.start "")
          ++ (codes " .. "
              ++ (codes (or_text coverage.end "")
                  ++ (codes "] overlaps request ["
                      ++ (codes (or_text start "*")
                          ++ (codes " .. " ++ (codes (or_text end "*") ++ codes "].")))))))
  reason_text temporal_mismatch =
      codes "Temporal mismatch: coverage does not overlap the requested window."
  reason_text (band_mismatch missing) =
      codes "Band mismatch: card lacks required band(s) "
      ++ (codes (show_names missing) ++ codes ".")
  reason_text (band_compatible required) =
      codes "Band compatible: all requested bands "
      ++ (codes (show_names required) ++ codes " available.")
  reason_text (resolution_compatible res required) =
      codes "Resolution compatible: card "
      ++ (codes (show_number res)
          ++ (codes "m is at least as fine as requested "
              ++ (codes (show_number required) ++ codes "m.")))
  reason_text (resolution_mismatch res required) =
      codes "Resolution mismatch: card "
      ++ (codes (show_number res)
          ++ (codes "m is coarser than requested " ++ (codes (show_number required) ++ codes "m.")))

  -- The test of the last lines.
  unfoldable pub names_problem : ContractReason → Bool
  unfolding reason_text has_text
  names_problem r =
      has_text (codes "mismatch") (reason_text r)
      || (has_text (codes "incompatible") (reason_text r)
          || has_text (codes "cannot compare") (reason_text r))
