-- ===== src/Cafe/Protocol.antt =====
-- cafe/protocol.py and WorkerCapabilities of cafe/remote.py: requests, results and what a worker is to
-- the central server. An error is a value where the source writes a text.
use geo_nexus_sdk.Base.{
  ℕ, ℤ, String, Bool, Option, List, Dict, contains, Json, if◌then◌else◌, given,
}
use geo_nexus_sdk.Geocard.Model.{Amount, RuntimeSection}

pub data TaskStatus : Type 0 where
  queued running succeeded failed timeout : TaskStatus

-- `region` and `resources` are the keys of `metadata` that the server reads; empty resources are none.
pub record PushdownRequest : Type 0 where
  pub code : String
  pub inputs : Dict String
  pub returns : String
  pub task_id : String
  pub timeout_seconds : ℕ
  pub region : Option String
  pub resources : Option RuntimeSection
  pub skill : Option String

unfoldable pub payload_kind : PushdownRequest → String
payload_kind r = if given r.skill then "skill" else "code"

-- Why a worker is not a candidate.
pub data Exclusion : Type 0 where
  wrong_payload : String → Exclusion
  recently_failed : Exclusion
  no_capacity : Exclusion

pub data RoutingReason : Type 0 where
  no_worker : Dict Exclusion → RoutingReason
  none_large_enough : RoutingReason
  data_locality : ℕ → RoutingReason
  region_tag : Option String → RoutingReason
  fallback : RoutingReason

pub data ResultError : Type 0 where
  of_worker : String → ResultError
  not_routed : RoutingReason → ResultError
  worker_not_found : String → ResultError
  -- the text of None
  no_error : ResultError
  -- an error with the workers that were tried
  tried : ResultError → List String → ResultError

pub record PushdownResult : Type 0 where
  pub task_id : String
  pub status : TaskStatus
  pub result : Option Json
  pub error : Option ResultError
  pub worker_id : Option String
  pub error_code : Option ℕ
  pub retryable : Bool

-- The tags that the server reads.
pub record WorkerTags : Type 0 where
  pub cpu : Option ℤ
  pub memory : Amount
  pub gpu : Option String
  pub region : Option String

-- `payload_kinds` is what `capabilities()` declares; a worker without that method has none.
pub record Worker : Type 0 where
  pub worker_id : String
  pub data_assets : Dict String
  pub tags : WorkerTags
  pub payload_kinds : Option (List String)

-- WorkerCapabilities.accepts
unfoldable pub accepts : List String → PushdownRequest → Bool
unfolding payload_kind
accepts kinds r = contains (payload_kind r) kinds
