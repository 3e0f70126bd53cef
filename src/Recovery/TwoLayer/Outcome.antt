-- ===== src/Recovery/TwoLayer/Outcome.antt =====
-- What the combined states of `assess_two_layer_recovery` of src/guardian_recovery.py mean.
use server_resource_guardian.Prelude.{
  ◌≡◌, ◌≢◌, refl, inl, ◌⊎◌, ◌↔◌, true, false, Option, none, some, String, arith, apart, eq_iff,
}
use server_resource_guardian.Recovery.{RecoveryResult}
use server_resource_guardian.Recovery.Host.{
  HostRecoveryPolicy, HostRecoveryObservation, assess_host_mitigation,
}
use server_resource_guardian.Recovery.Business.{
  BusinessRecoveryPolicy, BusinessRecoveryObservation, assess_business_recovery,
}
use server_resource_guardian.Recovery.TwoLayer.{
  overall_state, combine, business_layer, assess_two_layer_recovery,
}

module _ (h b : RecoveryResult) where
  overall_recovered :
      (overall_state h b ≡ "BUSINESS_RECOVERED") ↔ ((h.recovered ≡ true) × (b.recovered ≡ true))
  unfolding overall_state
  overall_recovered = ground (
    arith,
    apart "MITIGATED" "BUSINESS_RECOVERED" refl,
    apart "RECOVERY_PENDING" "BUSINESS_RECOVERED" refl,
    apart "RECOVERY_FAILED" "BUSINESS_RECOVERED" refl,
  )

  overall_mitigated :
      (overall_state h b ≡ "MITIGATED") ↔ ((h.recovered ≡ true) × (b.recovered ≡ false))
  unfolding overall_state
  overall_mitigated = ground (
    arith,
    apart "BUSINESS_RECOVERED" "MITIGATED" refl,
    apart "RECOVERY_PENDING" "MITIGATED" refl,
    apart "RECOVERY_FAILED" "MITIGATED" refl,
  )

  overall_pending :
      (overall_state h b ≡ "RECOVERY_PENDING")
      ↔ ((h.recovered ≡ false) × ((h.state ≡ "pending") ⊎ (b.state ≡ "pending")))
  unfolding overall_state
  overall_pending = ground (
    arith,
    apart "BUSINESS_RECOVERED" "RECOVERY_PENDING" refl,
    apart "MITIGATED" "RECOVERY_PENDING" refl,
    apart "RECOVERY_FAILED" "RECOVERY_PENDING" refl,
    eq_iff h.state "pending",
    eq_iff b.state "pending",
  )

business_layer-state :
    (bp : Option BusinessRecoveryPolicy) (bo : Option BusinessRecoveryObservation)
    (e : Option String)
    → (business_layer bp bo e).state ≢ "pending"
unfolding business_layer assess_business_recovery
business_layer-state (some p) (some o) e =
    ground
      (arith, apart "BUSINESS_DEGRADED" "pending" refl, apart "BUSINESS_RECOVERED" "pending" refl)
business_layer-state (some p) none e = apart "BUSINESS_DEGRADED" "pending" refl
business_layer-state none bo e = apart "BUSINESS_DEGRADED" "pending" refl

-- The combined state says exactly which layers are satisfied: BUSINESS_RECOVERED when the host is
-- mitigated and the business layer recovered, MITIGATED when only the host is, and
-- RECOVERY_PENDING when the host is not mitigated and its own assessment is pending. The business
-- layer alone never lifts the combined state.
pub assess_two_layer_recovery-overall :
    (hp : HostRecoveryPolicy) (ho : HostRecoveryObservation) (bp : Option BusinessRecoveryPolicy)
    (bo : Option BusinessRecoveryObservation) (e : Option String)
    → let r = assess_two_layer_recovery hp ho bp bo e in
      let h = assess_host_mitigation hp ho in
      ((r.overall_state ≡ "BUSINESS_RECOVERED")
        ↔ ((h.recovered ≡ true) × (r.business_recovered ≡ true)))
      × ((r.overall_state ≡ "MITIGATED") ↔ ((h.recovered ≡ true) × (r.business_recovered ≡ false)))
      × ((r.overall_state ≡ "RECOVERY_PENDING") ↔ ((h.recovered ≡ false) × (h.state ≡ "pending")))
unfolding assess_two_layer_recovery combine
assess_two_layer_recovery-overall hp ho bp bo e =
    let h = assess_host_mitigation hp ho in
    let b = business_layer bp bo e in
    let pending = overall_pending h b in
    (
      overall_recovered h b,
      overall_mitigated h b,
      (
        λ s. ground (arith, pending.0 s, business_layer-state bp bo e),
        λ s. pending.1 (s.0, inl s.1),
      ),
    )
