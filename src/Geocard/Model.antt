-- ===== src/Geocard/Model.antt =====
-- geocard/model.py: what the registry, the contract check and the matching of resources read of a
-- resource card. A coordinate and a resolution are in units of a billionth, so that the tolerance
-- of the contract check is one unit.
use geo_nexus_sdk.Base.{ℕ, ℤ, String, Option, List, map}

pub record SpatialSection : Type 0 where
  pub bbox : Option (List ℤ)
  pub crs : Option String
  pub resolution : Option ℕ

pub record TemporalSection : Type 0 where
  pub start : Option String
  pub end : Option String

pub record Band : Type 0 where
  pub name : String
  pub units : Option String

pub record Capability : Type 0 where
  pub name : String
  pub description : Option String

pub record ProvenanceSection : Type 0 where
  pub provider : Option String
  pub source : Option String
  pub lineage : Option String

-- What a card or a worker declares of a quantity: nothing, a whole number, or a text.
pub data Amount : Type 0 where
  absent : Amount
  whole : ℤ → Amount
  text : String → Amount

pub record RuntimeSection : Type 0 where
  pub cpu : Amount
  pub memory : Amount
  pub gpu : Option String

pub record GeoCard : Type 0 where
  pub id : String
  pub type : String
  pub name : String
  pub description : String
  pub tags : List String
  pub spatial : Option SpatialSection
  pub temporal : Option TemporalSection
  pub bands : List Band
  pub capabilities : List Capability
  pub provenance : Option ProvenanceSection
  pub runtime : Option RuntimeSection

unfoldable pub capability_names : GeoCard → List String
capability_names card = map (λ c. c.name) card.capabilities

unfoldable pub band_names : GeoCard → List String
band_names card = map (λ b. b.name) card.bands
