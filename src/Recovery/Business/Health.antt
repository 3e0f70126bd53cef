-- ===== src/Recovery/Business/Health.antt =====
-- When `assess_business_recovery` of src/guardian_recovery.py reports the service as recovered.
use server_resource_guardian.Prelude.{◌≡◌, ◌⊎◌, true, false, some}
use server_resource_guardian.Recovery.{is_stop, optional_in}
use server_resource_guardian.Recovery.Business.{BusinessRecoveryPolicy, BusinessRecoveryObservation}

-- The probe answered with success, or the policy does not ask for one.
abbrev pub IsProbed : BusinessRecoveryPolicy → BusinessRecoveryObservation → Type 0
IsProbed p o = (p.require_probe ≡ false) ⊎ (o.probe_ok ≡ some true)

-- A target that was to stop is down; one that was to stay up is running with a healthy status.
abbrev pub IsAsPlanned : BusinessRecoveryPolicy → BusinessRecoveryObservation → Type 0
IsAsPlanned p o =
    ((is_stop p.action ≡ true) × ((o.target_present ≡ false) ⊎ (o.target_running ≡ false)))
    ⊎ ((is_stop p.action ≡ false)
        × (o.target_present ≡ true)
        × (o.target_running ≡ true)
        × (optional_in o.health_status p.healthy_statuses ≡ true))
