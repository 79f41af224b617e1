-- ===== src/Core/State/Tests.antt =====
-- A run of the device's life cycle.
use qedl_rs.Prelude.{◌≡◌, refl, ◌⊎◌, List, [], ◌∷◌, ◌++◌, ok}
use qedl_rs.Core.State.{
  DeviceState, disconnected, connected, ready, busy, is_listed, transition, run_transitions,
}
use qedl_rs.Core.State.Reach.{run_transitions_through_ready}

becomes_busy : run_transitions disconnected (connected ∷ ready ∷ busy ∷ []) ≡ ok busy
unfolding run_transitions transition is_listed
becomes_busy = refl

run_transitions_through_ready_example :
    (disconnected ≡ busy)
    ⊎ ((before : List DeviceState) × (after : List DeviceState) × (connected ∷ ready ∷ busy ∷ []
          ≡ before ++ after)
        × (run_transitions disconnected before ≡ ok ready))
run_transitions_through_ready_example =
    run_transitions_through_ready disconnected (connected ∷ ready ∷ busy ∷ []) becomes_busy
