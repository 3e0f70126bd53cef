-- ===== src/Recovery/TwoLayer.antt =====
-- The two layers together, src/guardian_recovery.py: `assess_two_layer_recovery`.
pub mod Outcome
use server_resource_guardian.Prelude.{
  String, Bool, false, ◌&&◌, ◌||◌, Option, some, List, [], ◌∷◌, ◌++◌, ◌==◌, if◌then◌else◌,
}
use server_resource_guardian.Recovery.{RecoveryResult, verdict}
use server_resource_guardian.Recovery.Host.{
  HostRecoveryPolicy, HostRecoveryObservation, assess_host_mitigation,
}
use server_resource_guardian.Recovery.Business.{
  BusinessRecoveryPolicy, BusinessRecoveryObservation, assess_business_recovery,
}

pub record TwoLayerRecoveryResult : Type 0 where
  pub host_state : String
  pub business_state : String
  pub overall_state : String
  pub host_mitigated : Bool
  pub business_recovered : Bool
  pub reason_codes : List String

-- `tuple(dict.fromkeys(texts))`: the first occurrence of each text, in order.
pub without : String → List String → List String
without text [] = []
without text (t ∷ ts) = let rest = without text ts in if t == text then rest else t ∷ rest

unfoldable pub from_keys : List String → List String
unfolding without
from_keys [] = []
from_keys (t ∷ ts) = t ∷ without t (from_keys ts)

business_layer :
    Option BusinessRecoveryPolicy
    → Option BusinessRecoveryObservation
    → Option String
    → RecoveryResult
business_layer (some policy) (some observation) expected_target_id =
    assess_business_recovery policy observation expected_target_id
business_layer _ _ expected_target_id =
    verdict "BUSINESS_DEGRADED" false "business_probe_not_configured"

overall_state : RecoveryResult → RecoveryResult → String
overall_state host business =
    if host.recovered && business.recovered
    then "BUSINESS_RECOVERED"
    else if host.recovered
    then "MITIGATED"
    else if host.state == "pending" || business.state == "pending"
    then "RECOVERY_PENDING"
    else "RECOVERY_FAILED"

combine : RecoveryResult → RecoveryResult → TwoLayerRecoveryResult
unfolding overall_state
combine host business = record {
  host_state = host.state;
  business_state = business.state;
  overall_state = overall_state host business;
  host_mitigated = host.recovered;
  business_recovered = business.recovered;
  reason_codes = from_keys (host.reason_codes ++ business.reason_codes);
}

unfoldable pub assess_two_layer_recovery :
    HostRecoveryPolicy
    → HostRecoveryObservation
    → Option BusinessRecoveryPolicy
    → Option BusinessRecoveryObservation
    → Option String
    → TwoLayerRecoveryResult
unfolding business_layer combine
assess_two_layer_recovery host_policy host_observation policy observation expected_target_id =
    combine (assess_host_mitigation host_policy host_observation)
      (business_layer policy observation expected_target_id)
