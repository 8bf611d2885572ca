-- ===== src/Geotask/Scheduler/Tests.antt =====
-- The theorems about the scheduler at concrete inputs, and runs of its methods.
use geo_nexus_sdk.Base.{
  keep, ℕ, ◌≡◌, refl, none, some, List, [], ◌∷◌, String, pos, ℤ, insert, lookup, get_or,
}
use geo_nexus_sdk.Geotask.Model.{GeoTask, new_task, skill, default_retry}
use geo_nexus_sdk.Geotask.Scheduler.{
  Reservation, new_scheduler, reservation_of, fits_within, available, held_sum, enqueue_seq,
}
use mathlib.Core.List.{Perm}
use geo_nexus_sdk.Geotask.Scheduler.Order.{
  round_robin, fair_order, enqueue_all, priorities, insert_priority, layers_order, layer_order,
  groups, owners, sort_by, insert_by, cursor_of, set_cursor,
}
use geo_nexus_sdk.Geotask.Scheduler.Turns.{fair_order-Perm}
use geo_nexus_sdk.Geotask.Scheduler.Admission.{
  nothing, admit, sift, place, rejection_for, note_blocked,
}
use geo_nexus_sdk.Geotask.Scheduler.Sift.{may_start, sift-candidates}
use geo_nexus_sdk.Geotask.Scheduler.Safe.{
  IsSafe, admit-IsSafe, Call, admits, releases, peaks, run_calls, run_calls-IsSafe,
}

-- A node of four cores, and tasks that want two of them each.
abbrev node_size : Reservation
node_size = record { cpu_cores = 4000; memory_mb = 8192; gpu_count = 0; gpu_kind = none }

abbrev two_cores : String → String → ℤ → GeoTask
two_cores id owner priority =
    new_task 1 id skill [] priority (record { cpu = 2000; memory_mb = 512; gpu = none })
      default_retry (some owner)

abbrev crowd : List GeoTask
crowd =
    two_cores "a1" "ann" (pos 0)
    ∷ two_cores "a2" "ann" (pos 0)
    ∷ two_cores "b1" "bob" (pos 0)
    ∷ two_cores "c1" "cyd" (pos 5)
    ∷ []

abbrev morning : List (ℕ × Call)
morning = (10, admits crowd) ∷ (20, peaks) ∷ (30, releases "c1") ∷ (40, admits crowd) ∷ []

-- The highest priority first, and then one task of each owner before the second of any.
crowd-order : (admit crowd 10 (new_scheduler node_size none)).0.admitted ≡ "c1" ∷ "a1" ∷ []
unfolding admit sift place rejection_for note_blocked fair_order enqueue_all priorities
    insert_priority layers_order layer_order groups owners sort_by insert_by cursor_of set_cursor
    round_robin reservation_of fits_within available held_sum enqueue_seq insert lookup get_or
crowd-order = refl

fair_order-Perm_example : Perm (fair_order crowd (new_scheduler node_size none)).0 crowd
fair_order-Perm_example = fair_order-Perm crowd (new_scheduler node_size none)

run_calls-IsSafe_example : IsSafe (run_calls (new_scheduler node_size (some 2)) morning)
run_calls-IsSafe_example = run_calls-IsSafe node_size (some 2) morning

after_morning-IsSafe : IsSafe (run_calls (new_scheduler node_size (some 2)) morning)
after_morning-IsSafe = run_calls-IsSafe node_size (some 2) morning

admit-IsSafe_example :
    IsSafe (admit crowd 50 (run_calls (new_scheduler node_size (some 2)) morning)).1
admit-IsSafe_example =
    admit-IsSafe crowd 50 (run_calls (new_scheduler node_size (some 2)) morning)
      after_morning-IsSafe

-- A task that is too large for the node is not let through.
abbrev too_large : GeoTask
too_large =
    new_task 1 "big" skill [] (pos 9) (record { cpu = 9000; memory_mb = 512; gpu = none })
      default_retry none

sift-candidates_example :
    (sift 10 (too_large ∷ crowd) nothing (new_scheduler node_size none)).0
    ≡ keep (may_start 10 (new_scheduler node_size none)) (too_large ∷ crowd)
sift-candidates_example =
    sift-candidates 10 (too_large ∷ crowd) nothing (new_scheduler node_size none)
