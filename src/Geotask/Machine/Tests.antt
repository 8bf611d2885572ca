-- ===== src/Geotask/Machine/Tests.antt =====
-- The theorems about the machine at concrete inputs.
use geo_nexus_sdk.Base.{◌≡◌, refl, ◌↔◌, true, false, not}
use geo_nexus_sdk.Geotask.Model.{created, queued, scheduled, running, failed, cancelled}
use geo_nexus_sdk.Geotask.Machine.{can_transition, is_terminal_state}
use geo_nexus_sdk.Geotask.Machine.Paths.{Edge, can_transition-cancelled, can_transition_iff}

can_transition_iff_example : (can_transition running queued ≡ true) ↔ Edge running queued
can_transition_iff_example = can_transition_iff running queued

can_transition-cancelled_example :
    can_transition scheduled cancelled ≡ not (is_terminal_state scheduled)
can_transition-cancelled_example = can_transition-cancelled scheduled

failed_over : is_terminal_state failed ≡ true
unfolding is_terminal_state
failed_over = refl

-- A task is never put from created into running at once, and a failed one never tried again.
no_shortcut : can_transition created running ≡ false
unfolding can_transition
no_shortcut = refl

no_revival : can_transition failed queued ≡ false
unfolding can_transition
no_revival = refl
