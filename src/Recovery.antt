-- ===== src/Recovery.antt =====
-- Recovery decisions: src/guardian_recovery.py. This file has `assess_recovery`; the host layer, the
-- business layer, their combination and the cooldown ledger are in the children.
pub mod Host
pub mod Business
pub mod TwoLayer
pub mod Ledger
pub mod Facts
use server_resource_guardian.Prelude.{
  String, Bool, true, false, not, ◌&&◌, ◌||◌, Option, none, some, List, [], ◌∷◌, ◌==◌,
  if◌then◌else◌, one_of,
}
use server_resource_guardian.Prelude.Int
use server_resource_guardian.Prelude.Int.{ℤ, pos, ◌≤ℤ◌}

pub record RecoveryPolicy : Type 0 where
  pub action : String
  pub max_wait_seconds : ℤ
  pub healthy_statuses : List String

pub record RecoveryObservation : Type 0 where
  pub target_id : String
  pub target_present : Bool
  pub target_running : Bool
  pub health_status : Option String
  pub risk_state : String
  pub observed_after_seconds : ℤ
  pub exit_code : Option ℤ

pub record RecoveryResult : Type 0 where
  pub state : String
  pub recovered : Bool
  pub reason_codes : List String

-- A result with one reason code.
abbrev pub verdict : String → Bool → String → RecoveryResult
verdict state recovered reason = record {
  state = state;
  recovered = recovered;
  reason_codes = reason ∷ [];
}

-- `value in texts`, where the value may be `None`.
abbrev pub optional_in : Option String → List String → Bool
optional_in none texts = false
optional_in (some text) texts = one_of text texts

-- The observation was taken inside the waiting window.
abbrev pub IsTimely : ℤ → ℤ → Type 0
IsTimely max_wait observed_after = (pos 0 ≤ℤ observed_after) × (observed_after ≤ℤ max_wait)

-- The risk states in which nothing is wrong.
abbrev pub calm : List String
calm = "normal" ∷ "recovered" ∷ []

-- The exit code tests of a graceful stop: `none` where the stop is accepted.
stop_failure : Option ℤ → Option String
stop_failure none = none
stop_failure (some code) =
    if Int.eqb code (pos 137)
    then some "target_force_killed"
    else if Int.eqb code (pos 0) || Int.eqb code (pos 143)
    then none
    else some "target_stopped_nonzero_exit"

stop_reason : Option ℤ → String
stop_reason none = "target_stopped"
stop_reason (some code) =
    if Int.eqb code (pos 143) then "target_stopped_sigterm" else "target_stopped"

or_failed : RecoveryResult → Option String → RecoveryResult
or_failed result none = result
or_failed result (some reason) = verdict "failed" false reason

-- The branch of `graceful_stop` and `terminate`.
assess_stop : RecoveryPolicy → RecoveryObservation → RecoveryResult
unfolding stop_failure stop_reason or_failed
assess_stop policy observation =
    if not observation.target_present || not observation.target_running
    then if policy.action == "graceful_stop"
      then or_failed (verdict "recovered" true (stop_reason observation.exit_code))
          (stop_failure observation.exit_code)
      else verdict "recovered" true "target_stopped"
    else verdict "pending" false "target_still_running"

assess_restart : RecoveryPolicy → RecoveryObservation → RecoveryResult
assess_restart policy observation =
    if observation.target_present
      && observation.target_running
      && optional_in observation.health_status policy.healthy_statuses
      && one_of observation.risk_state calm
    then verdict "recovered" true "target_healthy"
    else verdict "pending" false "target_not_healthy"

abbrev pub is_stop : String → Bool
is_stop action = one_of action ("graceful_stop" ∷ "terminate" ∷ [])

unfoldable pub assess_recovery : RecoveryPolicy → RecoveryObservation → RecoveryResult
unfolding assess_stop assess_restart
assess_recovery policy observation =
    if Int.ltb observation.observed_after_seconds (pos 0)
    then verdict "failed" false "invalid_observation_time"
    else if Int.ltb policy.max_wait_seconds observation.observed_after_seconds
    then verdict "failed" false "recovery_window_expired"
    else if is_stop policy.action
    then assess_stop policy observation
    else if policy.action == "restart"
    then assess_restart policy observation
    else verdict "failed" false "unsupported_recovery_action"
