-- ===== src/Geocard/Contract/Check.antt =====
-- geocard/validator.py, ContractValidator.check: the five checks and the verdict.
use geo_nexus_sdk.Base.{ℕ, ℤ, String, Bool, not, Option, List, ◌++◌, some_of}
use geo_nexus_sdk.Geocard.Model.{GeoCard}
use geo_nexus_sdk.Geocard.Contract.{
  ContractRequest, ContractReason, ContractResult, Notes, check_crs, check_bbox, check_temporal,
  check_bands, check_resolution, names_problem,
}

-- What is not in the repository.
pub record Outside : Type 0 where
  pub pyproj_equals : String → String → Option Bool
  pub transform : String → String → ℤ → ℤ → Option (ℤ × ℤ)
  pub iso_datetime : List ℕ → Option ℕ
  pub iso_date : List ℕ → Option ℕ
  pub show_names : List String → String
  pub show_number : ℕ → String

abbrev pub join_notes : Notes → Notes → Notes
join_notes a b = (a.0 ++ b.0, a.1 ++ b.1)

module _ (o : Outside) where
  -- The reasons and warnings in the order of the checks.
  unfoldable pub notes : GeoCard → ContractRequest → Notes
  notes card q = join_notes (check_crs o.pyproj_equals o.transform q.crs card) (
      join_notes (check_bbox o.pyproj_equals o.transform q.bbox q.crs card) (
        join_notes (check_temporal o.iso_datetime o.iso_date q.start q.end card) (
          join_notes (check_bands q.required_bands card)
            (check_resolution q.required_resolution card))))

  unfoldable pub is_problem : ContractReason → Bool
  is_problem = names_problem o.show_names o.show_number

  unfoldable pub check : GeoCard → ContractRequest → ContractResult
  unfolding notes is_problem
  check card q =
      let found = notes card q in
      record { satisfied = not (some_of is_problem found.0); reasons = found.0; warnings = found.1 }
