-- ===== src/Recovery/Host.antt =====
-- The host layer of src/guardian_recovery.py: `assess_host_mitigation`.
pub mod Mitigation
use server_resource_guardian.Prelude.{
  String, true, false, not, ◌||◌, Option, none, some, List, [], ◌∷◌, ◌==◌, if◌then◌else◌, one_of,
}
use server_resource_guardian.Prelude.Int
use server_resource_guardian.Prelude.Int.{ℤ, pos, ◌-ℤ◌}
use server_resource_guardian.Recovery.{RecoveryResult, verdict, optional_in, calm}

pub record HostRecoveryObservation : Type 0 where
  pub before_available_percent : Option ℤ
  pub after_available_percent : Option ℤ
  pub before_psi_full_avg10 : Option ℤ
  pub after_psi_full_avg10 : Option ℤ
  pub before_oom_events : Option ℤ
  pub after_oom_events : Option ℤ
  pub after_risk_state : String
  pub observed_after_seconds : ℤ
  pub resource_kind : String
  pub before_resource_state : Option String
  pub after_resource_state : Option String

pub record HostRecoveryPolicy : Type 0 where
  pub max_wait_seconds : ℤ
  pub minimum_available_improvement_percent : ℤ
  pub minimum_psi_improvement_avg10 : ℤ

-- The states before an action from which a resource other than memory can be mitigated.
abbrev pub actionable_before : List String
actionable_before = "warning" ∷ "critical" ∷ "critical_confirmed" ∷ "CRITICAL_CONFIRMED" ∷ []

assess_resource : HostRecoveryObservation → RecoveryResult
assess_resource observation =
    if not (optional_in observation.before_resource_state actionable_before)
    then verdict "failed" false "resource_recovery_before_state_not_actionable"
    else if not (optional_in observation.after_resource_state calm)
    then verdict "failed" false "resource_risk_still_actionable"
    else verdict "MITIGATED" true "resource_risk_mitigated"

-- The six values that memory needs; `none` where one of them is missing.
pub record HostSamples : Type 0 where
  pub before_available : ℤ
  pub after_available : ℤ
  pub before_psi : ℤ
  pub after_psi : ℤ
  pub before_oom : ℤ
  pub after_oom : ℤ

pub gather : (ba aa bp ap bo ao : Option ℤ) → Option HostSamples
gather (some ba) (some aa) (some bp) (some ap) (some bo) (some ao) = some (record {
  before_available = ba;
  after_available = aa;
  before_psi = bp;
  after_psi = ap;
  before_oom = bo;
  after_oom = ao;
})
gather _ _ _ _ _ _ = none

unfoldable pub samples : HostRecoveryObservation → Option HostSamples
unfolding gather
samples o =
    gather o.before_available_percent o.after_available_percent o.before_psi_full_avg10
      o.after_psi_full_avg10 o.before_oom_events o.after_oom_events

assess_memory : HostRecoveryPolicy → String → Option HostSamples → RecoveryResult
assess_memory policy after_risk_state none =
    verdict "failed" false "host_recovery_observation_incomplete"
assess_memory policy after_risk_state (some s) =
    if not (one_of after_risk_state calm)
    then verdict "failed" false "host_risk_still_actionable"
    else if Int.ltb s.before_oom s.after_oom
    then verdict "failed" false "new_oom_after_action"
    else if Int.leb policy.minimum_available_improvement_percent
          (s.after_available -ℤ s.before_available)
        || Int.leb policy.minimum_psi_improvement_avg10 (s.before_psi -ℤ s.after_psi)
    then verdict "MITIGATED" true "host_risk_mitigated"
    else verdict "pending" false "host_pressure_not_improved"

unfoldable pub assess_host_mitigation :
    HostRecoveryPolicy → HostRecoveryObservation → RecoveryResult
unfolding assess_resource assess_memory
assess_host_mitigation policy observation =
    if Int.ltb observation.observed_after_seconds (pos 0)
    then verdict "failed" false "invalid_observation_time"
    else if Int.ltb policy.max_wait_seconds observation.observed_after_seconds
    then verdict "failed" false "host_recovery_window_expired"
    else if not (observation.resource_kind == "memory")
    then assess_resource observation
    else assess_memory policy observation.after_risk_state (samples observation)
