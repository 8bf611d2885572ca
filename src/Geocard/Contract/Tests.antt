-- ===== src/Geocard/Contract/Tests.antt =====
-- The theorem about the contract check at a concrete input, and runs of the check.
use geo_nexus_sdk.Base.{
  ℕ, ℤ, pos, negsuc, true, false, Option, none, some, List, [], ◌∷◌, ◌≡◌, refl,
}
use geo_nexus_sdk.Geocard.Model.{GeoCard}
use geo_nexus_sdk.Geocard.Contract.{
  ContractRequest, check_crs, check_bbox, check_temporal, check_bands, check_resolution,
  names_problem,
}
use geo_nexus_sdk.Geocard.Contract.Check.{Outside, notes, is_problem, check}
use geo_nexus_sdk.Geocard.Contract.Sound.{Meets, check-Meets}

-- Without pyproj, and with times that are one digit.
abbrev digit_time : List ℕ → Option ℕ
digit_time [] = none
digit_time (c ∷ cs) = some c

abbrev plain : Outside
plain = record {
  pyproj_equals = λ a b. none;
  transform = λ a b x y. none;
  iso_datetime = digit_time;
  iso_date = λ t. none;
  show_names = λ names. "[...]";
  show_number = λ n. "n";
}

abbrev scene : GeoCard
scene = record {
  id = "scene";
  type = "raster";
  name = "Scene";
  description = "A scene";
  tags = [];
  spatial = some (record {
    bbox = some (pos 0 ∷ pos 0 ∷ pos 10 ∷ pos 10 ∷ []);
    crs = some "EPSG:4326";
    resolution = some 10;
  });
  temporal = some (record { start = some "2"; end = some "4" });
  bands = record { name = "Red"; units = none } ∷ [];
  capabilities = [];
  provenance = none;
  runtime = none;
}

abbrev request : List ℤ → ContractRequest
request bbox = record {
  bbox = some bbox;
  crs = some "epsg: 4326";
  start = none;
  end = some " 3";
  required_bands = some ("red" ∷ []);
  required_resolution = some 9;
}

abbrev inside : ContractRequest
inside = request (negsuc 4 ∷ pos 5 ∷ pos 2 ∷ pos 7 ∷ [])

abbrev outside : ContractRequest
outside = request (pos 11 ∷ pos 5 ∷ pos 12 ∷ pos 7 ∷ [])

-- A box with too few values is no reason against the card.
abbrev short : ContractRequest
short = request (pos 11 ∷ [])

verdicts :
    ((check plain scene inside).satisfied ≡ true)
    × ((check plain scene outside).satisfied ≡ false)
    × ((check plain scene short).satisfied ≡ true)
unfolding check notes is_problem check_crs names_problem check_bbox check_temporal check_bands
    check_resolution
verdicts = (refl, refl, refl)

check-Meets_example : Meets plain scene inside
check-Meets_example = check-Meets plain scene inside verdicts.0
