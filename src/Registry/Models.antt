-- ===== src/Registry/Models.antt =====
-- registry/models.py and review.py: the entries of the registry and the vocabulary of the review.
use Prim.Native.String.{◌++◌ as text_append}
use geo_nexus_sdk.Base.{String, Option, List, [], ◌∷◌, Json}
use geo_nexus_sdk.Geocard.Model.{GeoCard}
use geo_nexus_sdk.Geocard.Contract.{ContractResult}

abbrev pub status_pending : String
status_pending = "pending"

abbrev pub status_approved : String
status_approved = "approved"

abbrev pub status_rejected : String
status_rejected = "rejected"

abbrev pub review_statuses : List String
review_statuses = status_pending ∷ status_approved ∷ status_rejected ∷ []

-- One action of a review; `at_time` is the key "at".
pub record ReviewAction : Type 0 where
  pub action : String
  pub by : String
  pub at_time : String
  pub note : String

pub record RegistryEntry : Type 0 where
  pub card : GeoCard
  pub node_url : String
  pub registered_at : String
  pub status : String
  pub review_note : Option String
  pub review_history : List ReviewAction
  pub submitted_by : Option String

pub record SkillDescriptor : Type 0 where
  pub name : String
  pub description : String
  pub input_schema : Json
  pub output_schema : Json
  pub capabilities : List String

pub record SkillEntry : Type 0 where
  pub skill : SkillDescriptor
  pub node_url : String
  pub registered_at : String

pub record PluginEntry : Type 0 where
  pub name : String
  pub version : String
  pub plane : String
  pub install_ref : String
  pub sha256 : Option String
  pub description : String
  pub tags : List String
  pub status : String
  pub submitted_by : Option String
  pub review_note : Option String
  pub registered_at : String

-- f"{name}@{version}"
unfoldable pub address_of : String → String → String
address_of name version = text_append name (text_append "@" version)

abbrev pub address : PluginEntry → String
address e = address_of e.name e.version

pub record RegistrySearchResult : Type 0 where
  pub entry : RegistryEntry
  pub contract : Option ContractResult
