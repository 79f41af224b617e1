-- ===== src/Core/State.antt =====
-- qedl-core/src/state.rs: the device's life cycle.
pub mod Reach
mod Tests
use qedl_rs.Prelude.{
  ℕ, ◌≡◌, Bool, true, false, ◌&&◌, List, [], ◌∷◌, arith, ◌==◌, if◌then◌else◌, Outcome, ok, err,
  ◌>>=◌,
}

pub data DeviceState : Type 0 where
  disconnected connected ready busy resetting error : DeviceState

pub record StateError : Type 0 where
  pub from : DeviceState
  pub to : DeviceState

-- The discriminants, which the derived `==` compares.
abbrev pub tag : DeviceState → ℕ
tag disconnected = 0
tag connected = 1
tag ready = 2
tag busy = 3
tag resetting = 4
tag error = 5

abbrev pub state_eq : DeviceState → DeviceState → Bool
state_eq a b = tag a == tag b

abbrev pub valid_transitions : List (DeviceState × DeviceState)
valid_transitions =
    (disconnected, connected)
    ∷ (connected, ready)
    ∷ (ready, busy)
    ∷ (busy, ready)
    ∷ (ready, resetting)
    ∷ (resetting, connected)
    ∷ (ready, disconnected)
    ∷ (connected, error)
    ∷ (busy, error)
    ∷ (error, disconnected)
    ∷ (error, resetting)
    ∷ (error, connected)
    ∷ (busy, connected)
    ∷ (ready, connected)
    ∷ []

-- `VALID_TRANSITIONS.iter().any(..)`
is_listed : DeviceState → DeviceState → List (DeviceState × DeviceState) → Bool
is_listed s t [] = false
is_listed s t ((from, to) ∷ rest) =
    if state_eq from s && state_eq to t then true else is_listed s t rest

unfoldable pub transition : DeviceState → DeviceState → Outcome StateError DeviceState
unfolding is_listed
transition s target =
    if is_listed s target valid_transitions
    then ok target
    else err (record { from = s; to = target })

unfoldable pub can_execute : DeviceState → Bool
can_execute s = state_eq s ready

-- A sequence of `transition` calls, stopped by the first that is refused.
unfoldable pub run_transitions : DeviceState → List DeviceState → Outcome StateError DeviceState
run_transitions s [] = ok s
run_transitions s (t ∷ rest) = transition s t >>= λ u. run_transitions u rest
