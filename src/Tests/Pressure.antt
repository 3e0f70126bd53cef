-- ===== src/Tests/Pressure.antt =====
-- Tests for src/guardian_pressure_gate.py.
use server_resource_guardian.Prelude.{◌≡◌, ◌↔◌, refl, ℕ, true, none, some, [], ◌∷◌, All}
use server_resource_guardian.Prelude.Int.{pos, ◌≤ℤ◌, ◌+ℤ◌, ◌-ℤ◌}
use server_resource_guardian.Value.{Fields, text, field, end, array, nil, lookup}
use server_resource_guardian.Pressure.{Signals, PressureDecision, raw_state}
use server_resource_guardian.Pressure.Levels.{IsCritical, raw_state-suspended}
use server_resource_guardian.Pressure.Hysteresis.{
  gate_after, promised_state, gate_after-state, streak, newest_pressure,
}
use server_resource_guardian.Pressure.Collection.{should_collect, should_collect-degraded}
use server_resource_guardian.Pressure.Slimming.{
  alerting, fidelity_of, or_null, slim_audit_event, slim_audit_event-alerting,
}

abbrev gib : ℕ
gib = 1073741824

-- Half of the memory is free.
abbrev calm : Signals
calm = record { available = some 4294967296; total = some 8589934592; psi = some 0 }

-- 100 MiB are free.
abbrev tight : Signals
tight = record { available = some 104857600; total = some 8589934592; psi = some 0 }

-- One sample after pressure is not enough, three are.
one_calm_sample : promised_state (calm ∷ tight ∷ calm ∷ []) ≡ "suspended"
unfolding promised_state streak newest_pressure raw_state
one_calm_sample = refl

three_calm_samples : promised_state (calm ∷ calm ∷ calm ∷ tight ∷ []) ≡ "normal"
unfolding promised_state streak newest_pressure raw_state
three_calm_samples = refl

gate_after-state_example :
    (gate_after (λ _ _. pos 0) (calm ∷ tight ∷ calm ∷ [])).state
    ≡ promised_state (calm ∷ tight ∷ calm ∷ [])
gate_after-state_example = gate_after-state (λ _ _. pos 0) (calm ∷ tight ∷ calm ∷ [])

raw_state-suspended_example : ((raw_state tight).0 ≡ "suspended") ↔ IsCritical tight
raw_state-suspended_example = raw_state-suspended tight

should_collect-degraded_example :
    (should_collect "degraded" (pos 100000) (some (pos 50000)) (some (pos 2000)) ≡ true) ↔ (
      (pos 2000 +ℤ pos 2000 +ℤ pos 2000 ≤ℤ pos 100000 -ℤ pos 50000)
      × (pos 45000 ≤ℤ pos 100000 -ℤ pos 50000))
should_collect-degraded_example = should_collect-degraded (pos 100000) (pos 50000) (pos 2000)

abbrev event : Fields
event =
    field "event_id" (text "event-1")
      (field "state" (text "critical") (field "signals" (array nil) end))

abbrev decision : PressureDecision
decision = record {
  state = "suspended";
  available_bytes = some 104857600;
  total_bytes = some 8589934592;
  available_ratio = some (pos 12207);
  psi_full_avg10 = some 0;
  reason_codes = "memory_available_critical" ∷ [];
  transition = none;
  normal_samples = 0;
}

slim_audit_event-alerting_example :
    All
      (λ key. or_null (lookup key (slim_audit_event event decision)) ≡ or_null (lookup key event))
      alerting
    × (lookup "audit_fidelity" (slim_audit_event event decision)
        ≡ some (text (fidelity_of "suspended")))
slim_audit_event-alerting_example = slim_audit_event-alerting event decision

signals_are_dropped : lookup "signals" (slim_audit_event event decision) ≡ none
unfolding slim_audit_event fidelity_of lookup
signals_are_dropped = refl
