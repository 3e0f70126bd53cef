-- ===== src/Recovery/Facts.antt =====
-- What `assess_recovery` of src/guardian_recovery.py promises, as a condition on the observation.
use server_resource_guardian.Prelude.{
  ◌≡◌, refl, ◌↔◌, ◌⊎◌, true, false, Option, none, some, arith, eq_iff, eq_apart, ◌==◌,
}
use server_resource_guardian.Prelude.Int.{ℤ, pos}
use server_resource_guardian.Recovery.{
  RecoveryPolicy, RecoveryObservation, assess_recovery, assess_stop, assess_restart, stop_failure,
  optional_in, IsTimely,
}

-- The exit codes with which a gracefully stopped target counts as stopped.
abbrev pub IsCleanExit : Option ℤ → Type 0
IsCleanExit code = (code ≡ none) ⊎ (code ≡ some (pos 0)) ⊎ (code ≡ some (pos 143))

abbrev pub IsDown : RecoveryObservation → Type 0
IsDown o = (o.target_present ≡ false) ⊎ (o.target_running ≡ false)

-- The target is gone or not running, and a graceful stop did not end in a kill or a failure.
abbrev pub HasStopped : RecoveryPolicy → RecoveryObservation → Type 0
HasStopped p o =
    IsDown o × ((p.action ≡ "terminate") ⊎ ((p.action ≡ "graceful_stop") × IsCleanExit o.exit_code))

-- The target runs, with a healthy status.
abbrev pub IsHealthy : RecoveryPolicy → RecoveryObservation → Type 0
IsHealthy p o =
    (o.target_present ≡ true)
    × (o.target_running ≡ true)
    × (optional_in o.health_status p.healthy_statuses ≡ true)
    × ((o.risk_state ≡ "normal") ⊎ (o.risk_state ≡ "recovered"))

stop_failure-IsCleanExit : (code : Option ℤ) → (stop_failure code ≡ none) ↔ IsCleanExit code
unfolding stop_failure
stop_failure-IsCleanExit code = ground arith

assess_stop-recovered :
    (p : RecoveryPolicy) (o : RecoveryObservation)
    → ((assess_stop p o).recovered ≡ true)
      ↔ (IsDown o × (((p.action == "graceful_stop") ≡ false) ⊎ (stop_failure o.exit_code ≡ none)))
unfolding assess_stop
assess_stop-recovered p o = ground arith

assess_restart-recovered :
    (p : RecoveryPolicy) (o : RecoveryObservation)
    → ((assess_restart p o).recovered ≡ true) ↔ IsHealthy p o
unfolding assess_restart
assess_restart-recovered p o =
    ground (arith, eq_iff o.risk_state "normal", eq_iff o.risk_state "recovered")

-- An action counts as recovered exactly when the observation lies inside the waiting window and
-- either a stopped target is down, a graceful stop with no exit code or with 0 or 143, or a
-- restarted target is present, running and healthy on a host whose risk is normal or recovered.
pub assess_recovery-recovered :
    (p : RecoveryPolicy) (o : RecoveryObservation)
    → ((assess_recovery p o).recovered ≡ true) ↔ (
        IsTimely p.max_wait_seconds o.observed_after_seconds
        × (HasStopped p o ⊎ ((p.action ≡ "restart") × IsHealthy p o)))
unfolding assess_recovery
assess_recovery-recovered p o = ground (
  arith,
  eq_iff p.action "graceful_stop",
  eq_iff p.action "terminate",
  eq_iff p.action "restart",
  eq_apart p.action "restart" "terminate" refl,
  eq_apart p.action "restart" "graceful_stop" refl,
  eq_apart p.action "terminate" "graceful_stop" refl,
  assess_restart-recovered p o,
  assess_stop-recovered p o,
  stop_failure-IsCleanExit o.exit_code,
)
