-- ===== src/Tests/Recovery.antt =====
-- Tests for src/guardian_recovery.py.
use server_resource_guardian.Prelude.{
  ◌≡◌, ◌↔◌, ◌⊎◌, refl, true, false, Option, none, some, String, [], ◌∷◌, arith,
}
use server_resource_guardian.Prelude.Int.{pos, ◌-ℤ◌}
use server_resource_guardian.Recovery.{
  RecoveryPolicy, RecoveryObservation, assess_recovery, IsTimely,
}
use server_resource_guardian.Recovery.Facts.{HasStopped, IsHealthy, assess_recovery-recovered}
use server_resource_guardian.Recovery.Host.{
  HostRecoveryPolicy, HostRecoveryObservation, HostSamples, samples, assess_host_mitigation,
}
use server_resource_guardian.Recovery.Host.Mitigation.{HasImproved, assess_host_mitigation-memory}
use server_resource_guardian.Recovery.Business.{
  BusinessRecoveryPolicy, BusinessRecoveryObservation, assess_business_recovery,
}
use server_resource_guardian.Recovery.TwoLayer.{assess_two_layer_recovery, from_keys}
use server_resource_guardian.Recovery.TwoLayer.Outcome.{assess_two_layer_recovery-overall}
use server_resource_guardian.Recovery.Ledger.{empty, recent, is_cooling, allow, record_action}
use server_resource_guardian.Recovery.Ledger.Pacing.{
  History, start, checked, performed, IsPaced, History-IsPaced,
}

abbrev stop_policy : RecoveryPolicy
stop_policy = record {
  action = "graceful_stop";
  max_wait_seconds = pos 30;
  healthy_statuses = "healthy" ∷ "running" ∷ [];
}

abbrev stopped : RecoveryObservation
stopped = record {
  target_id = "0123456789ab";
  target_present = true;
  target_running = false;
  health_status = none;
  risk_state = "normal";
  observed_after_seconds = pos 12;
  exit_code = some (pos 143);
}

stopped_recovers :
    assess_recovery stop_policy stopped
    ≡ record { state = "recovered"; recovered = true; reason_codes = "target_stopped_sigterm" ∷ [] }
unfolding assess_recovery
stopped_recovers = refl

killed_fails :
    (assess_recovery stop_policy (record stopped { exit_code = some (pos 137) })).reason_codes
    ≡ "target_force_killed" ∷ []
unfolding assess_recovery
killed_fails = refl

assess_recovery-recovered_example : ((assess_recovery stop_policy stopped).recovered ≡ true) ↔ (
    IsTimely (pos 30) (pos 12)
    × (HasStopped stop_policy stopped
        ⊎ ((stop_policy.action ≡ "restart") × IsHealthy stop_policy stopped)))
assess_recovery-recovered_example = assess_recovery-recovered stop_policy stopped

abbrev host_policy : HostRecoveryPolicy
host_policy = record {
  max_wait_seconds = pos 30;
  minimum_available_improvement_percent = pos 1;
  minimum_psi_improvement_avg10 = pos 1;
}

abbrev improved : HostRecoveryObservation
improved = record {
  before_available_percent = some (pos 40);
  after_available_percent = some (pos 55);
  before_psi_full_avg10 = some (pos 90);
  after_psi_full_avg10 = some (pos 95);
  before_oom_events = some (pos 2);
  after_oom_events = some (pos 2);
  after_risk_state = "normal";
  observed_after_seconds = pos 12;
  resource_kind = "memory";
  before_resource_state = none;
  after_resource_state = none;
}

assess_host_mitigation-memory_example :
    IsTimely (pos 30) (pos 12)
    × ((s : HostSamples) × (samples improved ≡ some s) × HasImproved host_policy improved s)
unfolding assess_host_mitigation samples ◌-ℤ◌
assess_host_mitigation-memory_example = assess_host_mitigation-memory host_policy improved refl refl

abbrev disk_calmed : HostRecoveryObservation
disk_calmed = record improved {
  resource_kind = "disk";
  before_resource_state = some "critical";
  after_resource_state = some "recovered";
}

abbrev business_policy : BusinessRecoveryPolicy
business_policy = record {
  max_wait_seconds = pos 30;
  healthy_statuses = "healthy" ∷ "running" ∷ [];
  require_probe = true;
  action = "graceful_stop";
}

abbrev contained : BusinessRecoveryObservation
contained = record {
  target_id = "0123456789ab";
  target_present = false;
  target_running = false;
  health_status = none;
  probe_ok = none;
  observed_after_seconds = pos 12;
}

abbrev expected : Option String
expected = some "0123456789ab"

contained_is_mitigated :
    (assess_two_layer_recovery host_policy improved
      (some business_policy)
      (some contained)
      none).overall_state
    ≡ "MITIGATED"
unfolding assess_two_layer_recovery assess_host_mitigation assess_business_recovery samples ◌-ℤ◌
contained_is_mitigated = refl

keys_of_repeated : from_keys ("a" ∷ "b" ∷ "a" ∷ []) ≡ "a" ∷ "b" ∷ []
unfolding from_keys
keys_of_repeated = refl

assess_two_layer_recovery-overall_example :
    let r =
      assess_two_layer_recovery host_policy improved (some business_policy) (some contained) none in
    let h = assess_host_mitigation host_policy improved in
    ((r.overall_state ≡ "BUSINESS_RECOVERED")
      ↔ ((h.recovered ≡ true) × (r.business_recovered ≡ true)))
    × ((r.overall_state ≡ "MITIGATED") ↔ ((h.recovered ≡ true) × (r.business_recovered ≡ false)))
    × ((r.overall_state ≡ "RECOVERY_PENDING") ↔ ((h.recovered ≡ false) × (h.state ≡ "pending")))
assess_two_layer_recovery-overall_example =
    assess_two_layer_recovery-overall host_policy improved (some business_policy) (some contained)
      none

-- A cooldown of 30, at most 2 actions in a window of 300: an action at 10, a refusal at 20, and an
-- action at 50.
two_actions :
    History
      (pos 30)
      (pos 2)
      (pos 300)
      (record_action
        (allow
          (allow
            (record_action (allow empty (pos 10) (pos 30) (pos 2) (pos 300)).1 (pos 10) true)
            (pos 20)
            (pos 30)
            (pos 2)
            (pos 300)).1
          (pos 50)
          (pos 30)
          (pos 2)
          (pos 300)).1
        (pos 50)
        true)
      (pos 50)
      (pos 50 ∷ pos 10 ∷ [])
unfolding allow record_action recent is_cooling ◌-ℤ◌
two_actions =
    performed (pos 50) true
      (checked (pos 20) (performed (pos 10) true (start (pos 0)) (omega arith) refl) (omega arith))
      (omega arith) refl

History-IsPaced_example : IsPaced (pos 30) (pos 2) (pos 300) (pos 50 ∷ pos 10 ∷ [])
unfolding allow record_action recent is_cooling ◌-ℤ◌
History-IsPaced_example = History-IsPaced (pos 30) (pos 2) (pos 300) two_actions
