-- ===== src/Recovery/Host/Mitigation.antt =====
-- When `assess_host_mitigation` of src/guardian_recovery.py reports the host as mitigated.
use server_resource_guardian.Prelude.{◌≡◌, refl, ◌⊎◌, ◌↔◌, true, Option, none, some, arith, eq_iff}
use server_resource_guardian.Prelude.Int.{◌≤ℤ◌, ◌-ℤ◌}
use server_resource_guardian.Recovery.{IsTimely, optional_in, calm}
use server_resource_guardian.Recovery.Host.{
  HostRecoveryPolicy, HostRecoveryObservation, HostSamples, samples, actionable_before,
  assess_memory, assess_host_mitigation,
}

-- The risk is over, no OOM event is new, and the available memory or the pressure moved by at least
-- its minimum.
abbrev pub HasImproved : HostRecoveryPolicy → HostRecoveryObservation → HostSamples → Type 0
HasImproved p o s =
    ((o.after_risk_state ≡ "normal") ⊎ (o.after_risk_state ≡ "recovered"))
    × (s.after_oom ≤ℤ s.before_oom)
    × ((p.minimum_available_improvement_percent ≤ℤ s.after_available -ℤ s.before_available)
        ⊎ (p.minimum_psi_improvement_avg10 ≤ℤ s.before_psi -ℤ s.after_psi))

-- A risk that was actionable before the action and is over after it.
abbrev pub HasCalmed : HostRecoveryObservation → Type 0
HasCalmed o =
    (optional_in o.before_resource_state actionable_before ≡ true)
    × (optional_in o.after_resource_state calm ≡ true)

assess_memory-recovered :
    (p : HostRecoveryPolicy) (o : HostRecoveryObservation) (s : HostSamples)
    → ((assess_memory p o.after_risk_state (some s)).recovered ≡ true) ↔ HasImproved p o s
unfolding assess_memory
assess_memory-recovered p o s =
    ground (arith, eq_iff o.after_risk_state "normal", eq_iff o.after_risk_state "recovered")

assess_memory-samples :
    (p : HostRecoveryPolicy) (o : HostRecoveryObservation) (r : Option HostSamples)
    → (assess_memory p o.after_risk_state r).recovered ≡ true
    → (s : HostSamples) × (r ≡ some s) × HasImproved p o s
unfolding assess_memory
assess_memory-samples p o none h = cc
assess_memory-samples p o (some s) h = (s, refl, (assess_memory-recovered p o s).0 h)

-- For memory, a mitigation means that the observation lies inside the window, that all six samples
-- are there, that the risk afterwards is normal or recovered, that no OOM event is new, and that
-- the available memory or the full PSI improved by at least the minimum of the policy.
pub assess_host_mitigation-memory :
    (p : HostRecoveryPolicy) (o : HostRecoveryObservation)
    → o.resource_kind ≡ "memory"
    → (assess_host_mitigation p o).recovered ≡ true
    → IsTimely p.max_wait_seconds o.observed_after_seconds
      × ((s : HostSamples) × (samples o ≡ some s) × HasImproved p o s)
unfolding assess_host_mitigation
assess_host_mitigation-memory p o kind h = (
  ground (arith, eq_iff o.resource_kind "memory"),
  assess_memory-samples p o (samples o) (ground (arith, eq_iff o.resource_kind "memory")),
)
