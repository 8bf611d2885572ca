-- ===== src/Recipe/Resources.antt =====
-- recipe/materialize.py, `_resources`: what a step reserves. How Python makes a number of a value, and a text of it, are
-- parameters; a number of cores is in thousandths.
use geo_nexus_sdk.Base.{
  ℕ, String, Bool, true, false, not, ◌&&◌, ◌||◌, Option, none, some, [], ◌∷◌, Dict, map, get_or,
  if◌then◌else◌, ◌==◌, Json, null, bool, int, float, str, arr, obj, nil, cons, end, field, entries,
  finite, pos, eqb_int, Outcome, return, raise, codes, lower, same_text,
}
use geo_nexus_sdk.Geotask.Model.{ResourceRequirement, GpuRequirement, no_resources}
use geo_nexus_sdk.Recipe.Model.{RecipeStep}
use geo_nexus_sdk.Recipe.Queries.{is_null}
use geo_nexus_sdk.Recipe.Params.{Fault, Refusal, bad_value, too_large, refused}

-- `raw not in (None, "")`
abbrev pub is_set : Json → Bool
is_set null = false
is_set (str s) = not (s == "")
is_set _ = true

-- What `if` makes of a value.
abbrev pub truthy : Json → Bool
truthy null = false
truthy (bool b) = b
truthy (int n) = not (eqb_int n (pos 0))
truthy (float (finite n)) = not (eqb_int n (pos 0))
truthy (float _) = true
truthy (str s) = not (s == "")
truthy (arr nil) = false
truthy (arr (cons v vs)) = true
truthy (obj end) = false
truthy (obj (field k v fs)) = true

abbrev pub is_off : String → Bool
is_off t =
    let word = map lower (codes t) in
    same_text word (codes "none") || (same_text word (codes "false") || same_text word (codes "0"))

-- `except (TypeError, ValueError)`: any other error goes on.
abbrev pub or_zero : Outcome Refusal ℕ → Outcome Fault ℕ
or_zero (return n) = return n
or_zero (raise bad_value) = return 0
or_zero (raise too_large) = raise (refused too_large)

-- A number that is not guarded.
abbrev pub or_refused : Outcome Refusal ℕ → Outcome Fault ℕ
or_refused (return n) = return n
or_refused (raise r) = raise (refused r)

module _ (cores whole : Json → Outcome Refusal ℕ) (show : Json → String) where
  abbrev pub cpu_of : Dict Json → Outcome Fault ℕ
  cpu_of spec =
      let raw = get_or "cpu" null spec in if is_set raw then or_zero (cores raw) else return 0

  abbrev pub memory_mb_of : Dict Json → Outcome Fault ℕ
  memory_mb_of spec =
      let raw = get_or "memory_mb" (get_or "memory" null spec) spec in
      if is_set raw then or_zero (whole raw) else return 0

  -- `int(gpu_spec.get("count", 1) or 1)`
  abbrev pub count_of : Dict Json → Outcome Fault ℕ
  count_of spec =
      let raw = get_or "count" (int (pos 1)) spec in
      or_refused (whole (if truthy raw then raw else int (pos 1)))

  abbrev pub gpu_memory_of : Json → Outcome Fault (Option ℕ)
  gpu_memory_of raw =
      if is_null raw
      then return none
      else elim (or_refused (whole raw)) [ raise e ↦ raise e | return n ↦ return (some n) ]

  unfoldable pub gpu_from : String → Dict Json → Outcome Fault (Option GpuRequirement)
  unfolding get_or
  gpu_from kind spec = elim (count_of spec) [
    | raise e ↦ raise e
    | return count ↦ elim (gpu_memory_of (get_or "memory_mb" null spec)) [
      | raise e ↦ raise e
      | return memory ↦ return (some (record { kind = kind; count = count; memory_mb = memory }))
    ]
  ]

  abbrev pub plain_gpu : Json → Outcome Fault (Option GpuRequirement)
  plain_gpu v =
      if truthy v && not (is_off (show v))
      then return (some (record { kind = show v; count = 1; memory_mb = none }))
      else return none

  unfoldable pub gpu_of : Json → Outcome Fault (Option GpuRequirement)
  unfolding gpu_from get_or same_text
  gpu_of (obj fs) =
      let kind = get_or "kind" (str "cuda") (entries fs) in
      if truthy kind && not (is_off (show kind))
      then gpu_from (show kind) (entries fs)
      else return none
  gpu_of v = plain_gpu v

  unfoldable pub reserved : Dict Json → Outcome Fault ResourceRequirement
  unfolding gpu_of get_or
  reserved spec = elim (cpu_of spec) [
    | raise e ↦ raise e
    | return cpu ↦ elim (memory_mb_of spec) [
      | raise e ↦ raise e
      | return memory ↦ elim (gpu_of (get_or "gpu" null spec)) [
        | raise e ↦ raise e
        | return gpu ↦ return (record { cpu = cpu; memory_mb = memory; gpu = gpu })
      ]
    ]
  ]

  unfoldable pub resources_of : RecipeStep → Outcome Fault ResourceRequirement
  unfolding reserved
  resources_of s = elim s.resources [ [] ↦ return no_resources | e ∷ spec ↦ reserved (e ∷ spec) ]
