-- ===== src/Recovery/Business.antt =====
-- The business layer of src/guardian_recovery.py: `assess_business_recovery`.
pub mod Health
use server_resource_guardian.Prelude.{
  String, Bool, true, false, not, ◌&&◌, ◌||◌, Option, none, some, List, ◌==◌, if◌then◌else◌,
}
use server_resource_guardian.Prelude.Int
use server_resource_guardian.Prelude.Int.{ℤ, pos}
use server_resource_guardian.Recovery.{RecoveryResult, verdict, optional_in, is_stop}

pub record BusinessRecoveryObservation : Type 0 where
  pub target_id : String
  pub target_present : Bool
  pub target_running : Bool
  pub health_status : Option String
  pub probe_ok : Option Bool
  pub observed_after_seconds : ℤ

pub record BusinessRecoveryPolicy : Type 0 where
  pub max_wait_seconds : ℤ
  pub healthy_statuses : List String
  pub require_probe : Bool
  pub action : String

-- `expected_target_id is not None and observation.target_id != expected_target_id`
abbrev pub mismatch : Option String → String → Bool
mismatch none target = false
mismatch (some expected) target = not (target == expected)

-- `probe_ok is not True`
abbrev pub not_confirmed : Option Bool → Bool
not_confirmed (some true) = false
not_confirmed _ = true

degraded : String → RecoveryResult
degraded reason = verdict "BUSINESS_DEGRADED" false reason

-- The branch of `graceful_stop` and `terminate`.
assess_contained : BusinessRecoveryPolicy → BusinessRecoveryObservation → RecoveryResult
unfolding degraded
assess_contained policy observation =
    if observation.target_present && observation.target_running
    then degraded "business_target_still_running"
    else if policy.require_probe && not_confirmed observation.probe_ok
    then degraded "business_health_check_not_configured"
    else verdict "BUSINESS_RECOVERED" true "business_health_confirmed"

-- The other actions, which leave the target running.
assess_service : BusinessRecoveryPolicy → BusinessRecoveryObservation → RecoveryResult
unfolding degraded
assess_service policy observation =
    if not observation.target_present || not observation.target_running
    then degraded "business_target_not_running"
    else if not (optional_in observation.health_status policy.healthy_statuses)
    then degraded "business_health_not_healthy"
    else if policy.require_probe && not_confirmed observation.probe_ok
    then degraded "business_probe_not_healthy"
    else verdict "BUSINESS_RECOVERED" true "business_health_recovered"

unfoldable pub assess_business_recovery :
    BusinessRecoveryPolicy → BusinessRecoveryObservation → Option String → RecoveryResult
unfolding degraded assess_contained assess_service
assess_business_recovery policy observation expected_target_id =
    if mismatch expected_target_id observation.target_id
    then degraded "business_target_mismatch"
    else if Int.ltb observation.observed_after_seconds (pos 0)
    then degraded "invalid_observation_time"
    else if Int.ltb policy.max_wait_seconds observation.observed_after_seconds
    then degraded "business_recovery_window_expired"
    else if is_stop policy.action
    then assess_contained policy observation
    else assess_service policy observation
