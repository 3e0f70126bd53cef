-- ===== src/Controller/Assessment.antt =====
-- The recovery stretch of `enforce`, src/guardian_controller.py: which observation is assessed.
use server_resource_guardian.Prelude.{
  String, Bool, false, not, ◌&&◌, Option, none, some, [], ◌∷◌, ◌==◌, if◌then◌else◌,
}
use server_resource_guardian.Prelude.Int
use server_resource_guardian.Prelude.Int.{ℤ, pos}
use server_resource_guardian.Actions.{ActionRequest, ActionResult}
use server_resource_guardian.Recovery.{
  RecoveryPolicy, RecoveryObservation, RecoveryResult, assess_recovery, verdict,
}
use server_resource_guardian.Recovery.Host.{HostRecoveryPolicy, HostRecoveryObservation}
use server_resource_guardian.Recovery.TwoLayer.{TwoLayerRecoveryResult, assess_two_layer_recovery}
use server_resource_guardian.Controller.{
  Call, World, Gate, raised, passed, Probed, observed, probe_error, probe_crashed,
}

-- `returncode == 0`
abbrev pub is_zero : Option ℤ → Bool
is_zero none = false
is_zero (some code) = Int.eqb code (pos 0)

unfoldable pub assess_observation :
    String → Option RecoveryPolicy → RecoveryObservation → RecoveryResult
assess_observation target_id none o =
    if not (o.target_id == target_id)
    then verdict "failed" false "recovery_target_mismatch"
    else verdict "failed" false "recovery_policy_missing"
assess_observation target_id (some policy) o =
    if not (o.target_id == target_id)
    then verdict "failed" false "recovery_target_mismatch"
    else assess_recovery policy o

assess_probed : String → RecoveryPolicy → Probed → Gate (Option RecoveryResult)
assess_probed target_id policy (probe_crashed exception) = raised exception
assess_probed target_id policy (probe_error exception) = passed (
    some (record {
      state = "failed";
      recovered = false;
      reason_codes = "recovery_probe_error" ∷ exception ∷ [];
    }))
assess_probed target_id policy (observed none) =
    passed (some (verdict "failed" false "recovery_observation_missing"))
assess_probed target_id policy (observed (some o)) =
    passed (some (assess_observation target_id (some policy) o))

assess_probe :
    ActionRequest
    → ActionResult
    → Option (ActionRequest → ActionResult → Probed)
    → Option RecoveryPolicy
    → Gate (Option RecoveryResult)
unfolding assess_probed
assess_probe q result (some probe) (some policy) =
    if result.executed && is_zero result.returncode
    then assess_probed q.target_id policy (probe q result)
    else passed none
assess_probe q result _ _ = passed none

pub assess_given :
    Call → ActionRequest → ActionResult → Option RecoveryObservation → Gate (Option RecoveryResult)
unfolding assess_probe
assess_given call q result (some o) =
    passed (some (assess_observation q.target_id call.recovery_policy o))
assess_given call q result none = assess_probe q result call.recovery_probe call.recovery_policy

-- An observation that is given is assessed; without one, a probe is asked after a successful action.
unfoldable pub assess :
    Call → ActionRequest → ActionResult → World → Gate (Option RecoveryResult) × World
unfolding assess_given
assess call q result w = (assess_given call q result call.recovery_observation, w)

-- `HostRecoveryPolicy()`, in thousandths.
abbrev default_host_policy : HostRecoveryPolicy
default_host_policy = record {
  max_wait_seconds = pos 30000;
  minimum_available_improvement_percent = pos 100;
  minimum_psi_improvement_avg10 = pos 100;
}

host_policy : Option HostRecoveryPolicy → HostRecoveryPolicy
host_policy none = default_host_policy
host_policy (some policy) = policy

layers_of : Call → String → Option HostRecoveryObservation → Option TwoLayerRecoveryResult
unfolding host_policy
layers_of call target_id none = none
layers_of call target_id (some o) = some (
    assess_two_layer_recovery (host_policy call.host_recovery_policy) o
      call.business_recovery_policy call.business_recovery_observation (some target_id))

unfoldable pub assess_layers : Call → String → Option TwoLayerRecoveryResult
unfolding layers_of
assess_layers call target_id = layers_of call target_id call.host_recovery_observation
