-- ===== src/Geotask/Model.antt =====
-- geotask/model.py: the values of a task. A time is a number of milliseconds, a number of cores
-- is in thousandths, a progress in millionths and a multiplier in hundredths.
use geo_nexus_sdk.Base.{
  ℕ, ◌+◌, ◌*◌, ◌/◌, ◌^◌, min, String, Bool, true, false, Option, none, some, List, [], ◌∷◌, Dict,
  get_or, ltb, eqb, if◌then◌else◌, Fields, ℤ, end,
}

pub data TaskKind : Type 0 where
  skill model batch composite : TaskKind

pub data TaskState : Type 0 where
  created queued blocked scheduled running succeeded failed cancelled skipped : TaskState

-- The place in the vocabulary; `a is b` on states.
abbrev pub position : TaskState → ℕ
position created = 0
position queued = 1
position blocked = 2
position scheduled = 3
position running = 4
position succeeded = 5
position failed = 6
position cancelled = 7
position skipped = 8

abbrev pub same_state : TaskState → TaskState → Bool
same_state a b = eqb (position a) (position b)

-- `.value` of the two enumerations.
abbrev pub state_value : TaskState → String
state_value created = "created"
state_value queued = "queued"
state_value blocked = "blocked"
state_value scheduled = "scheduled"
state_value running = "running"
state_value succeeded = "succeeded"
state_value failed = "failed"
state_value cancelled = "cancelled"
state_value skipped = "skipped"

abbrev pub kind_value : TaskKind → String
kind_value skill = "skill"
kind_value model = "model"
kind_value batch = "batch"
kind_value composite = "composite"

-- ERROR_RETRYABLE
abbrev pub error_retryable : Dict Bool
error_retryable =
    ("input_missing", false)
    ∷ ("invalid_spec", false)
    ∷ ("no_compatible_compute", false)
    ∷ ("resource_unavailable", true)
    ∷ ("executor_lost", true)
    ∷ ("timeout", true)
    ∷ ("execution_error", true)
    ∷ ("upstream_failed", false)
    ∷ ("cancelled", false)
    ∷ []

pub record TaskError : Type 0 where
  pub code : String
  pub message : String
  pub retryable : Bool

-- TaskError.of(code, message, retryable=None)
unfoldable pub error_of_code : String → String → Option Bool → TaskError
unfolding get_or
error_of_code code message none = record {
  code = code;
  message = message;
  retryable = get_or code true error_retryable;
}
error_of_code code message (some r) = record { code = code; message = message; retryable = r }

pub record RetryPolicy : Type 0 where
  pub max_attempts : ℕ
  pub backoff : ℕ
  pub multiplier : ℕ
  pub max_backoff : ℕ

abbrev pub default_retry : RetryPolicy
default_retry = record { max_attempts = 1; backoff = 1000; multiplier = 200; max_backoff = 60000 }

unfoldable pub allows_another_attempt : RetryPolicy → ℕ → Bool
allows_another_attempt p attempt = ltb (attempt + 1) p.max_attempts

unfoldable pub backoff_for : RetryPolicy → ℕ → ℕ
backoff_for p attempt =
    if eqb p.backoff 0
    then 0
    else min (p.backoff * p.multiplier ^ attempt / 100 ^ attempt) p.max_backoff

pub record TaskIo : Type 0 where
  pub ref : String
  pub kind : String
  pub from_task : Option String
  pub field_name : Option String

pub record GpuRequirement : Type 0 where
  pub kind : String
  pub count : ℕ
  pub memory_mb : Option ℕ

pub record ResourceRequirement : Type 0 where
  pub cpu : ℕ
  pub memory_mb : ℕ
  pub gpu : Option GpuRequirement

pub record TaskResult : Type 0 where
  pub outputs : Fields
  pub elapsed : ℕ
  pub meta : Fields

pub record GeoTask : Type 0 where
  pub task_id : String
  pub kind : TaskKind
  pub spec : Fields
  pub inputs : Dict TaskIo
  pub outputs : Dict TaskIo
  pub depends_on : List String
  pub priority : ℤ
  pub resources : ResourceRequirement
  pub retry : RetryPolicy
  pub owner : Option String
  pub tenant : Option String
  pub labels : Dict String
  pub provenance : Fields
  pub timeout : ℕ
  pub description : String
  pub state : TaskState
  pub attempt : ℕ
  pub scheduled_to : Option String
  pub lease_expires_at : Option ℕ
  pub cancel_requested : Bool
  pub progress : ℕ
  pub message : String
  pub result : Option TaskResult
  pub error : Option TaskError
  pub created_at : ℕ
  pub started_at : Option ℕ
  pub finished_at : Option ℕ

-- GeoTask(task_id, kind, depends_on=..., priority=..., resources=..., retry=..., owner=...), with
-- the defaults for the rest; `now` is the reading of the clock for `created_at`.
abbrev pub new_task :
    ℕ
    → String
    → TaskKind
    → List String
    → ℤ
    → ResourceRequirement
    → RetryPolicy
    → Option String
    → GeoTask
new_task now task_id kind depends_on priority resources retry owner = record {
  task_id = task_id;
  kind = kind;
  spec = end;
  inputs = [];
  outputs = [];
  depends_on = depends_on;
  priority = priority;
  resources = resources;
  retry = retry;
  owner = owner;
  tenant = none;
  labels = [];
  provenance = end;
  timeout = 300000;
  description = "";
  state = created;
  attempt = 0;
  scheduled_to = none;
  lease_expires_at = none;
  cancel_requested = false;
  progress = 0;
  message = "";
  result = none;
  error = none;
  created_at = now;
  started_at = none;
  finished_at = none;
}

abbrev pub no_resources : ResourceRequirement
no_resources = record { cpu = 0; memory_mb = 0; gpu = none }
