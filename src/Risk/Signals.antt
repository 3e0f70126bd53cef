-- ===== src/Risk/Signals.antt =====
-- What the signals of a sample say, in src/guardian_risk.py: the swap, the pressure, and which of the
-- thresholds are crossed.
use Prim.Native.Nat.{◌*◌}
use server_resource_guardian.Prelude.{
  ℕ, ◌+◌, String, Bool, false, not, ◌||◌, Option, none, some, List, [], ◌∷◌, ◌++◌, if◌then◌else◌,
  leb, is_some, length,
}
use server_resource_guardian.Prelude.Int
use server_resource_guardian.Prelude.Int.{ℤ, pos, negsuc, ◌-ℤ◌}
use server_resource_guardian.Risk.{RiskConfig, Growth, when, has_events}

-- `swap_ratio`, and the flags of the swap.
unfoldable pub swap_of : (total ratio : Option ℤ) → Option ℤ × List String
swap_of none ratio = (ratio, "swap_signal_missing" ∷ [])
swap_of (some total) ratio =
    if Int.ltb total (pos 0)
    then (ratio, "swap_signal_invalid" ∷ [])
    else if Int.eqb total (pos 0)
    then (none, [])
    else (ratio, when (not (is_some ratio)) "swap_signal_missing")

-- A value that is present and at least, or at most, a threshold.
abbrev pub reaches : Option ℤ → ℤ → Bool
reaches none threshold = false
reaches (some v) threshold = Int.leb threshold v

abbrev pub is_low : Option ℤ → ℤ → Bool
is_low none threshold = false
is_low (some v) threshold = Int.leb v threshold

-- `threshold * n`
scaled : ℤ → ℕ → ℤ
scaled (pos a) n = pos (a * n)
scaled (negsuc a) n = pos 0 -ℤ pos ((a + 1) * n)

-- `growth_rate >= threshold`, without the division: `threshold` is in bytes for a second, the time in
-- nanoseconds.
unfoldable pub grows : Option Growth → ℤ → Bool
unfolding scaled
grows none threshold = false
grows (some g) threshold =
    Int.leb (scaled threshold (Int.pos_part g.elapsed)) (scaled g.bytes 1000000000)

-- What is added for one signal: the warnings, the support of a critical state, and the reasons.
pub record Crossed : Type 0 where
  pub warning_signals : List String
  pub critical_support : List String
  pub reasons : List String

abbrev pub crossed_none : Crossed
crossed_none = record { warning_signals = []; critical_support = []; reasons = [] }

abbrev pub crossed_warning : String → Crossed
crossed_warning name = record {
  warning_signals = name ∷ [];
  critical_support = [];
  reasons = name ∷ [];
}

abbrev pub crossed_critical : String → Crossed
crossed_critical name = record {
  warning_signals = [];
  critical_support = name ∷ [];
  reasons = name ∷ [];
}

-- `if critical: … elif warning: …`
unfoldable pub graded : (critical warning : Bool) → (critical_name warning_name : String) → Crossed
graded critical warning critical_name warning_name =
    if critical
    then crossed_critical critical_name
    else if warning
    then crossed_warning warning_name
    else crossed_none

-- A critical share of available memory is a reason, and no support: it decides alone.
unfoldable pub available_crossed : Option ℤ → (critical warning : ℤ) → Crossed
available_crossed ratio critical warning =
    if is_low ratio critical
    then record {
      warning_signals = [];
      critical_support = [];
      reasons = "host_memory_available_critical" ∷ [];
    }
    else if is_low ratio warning
    then crossed_warning "host_memory_available_warning"
    else crossed_none

abbrev pub both : Crossed → Crossed → Crossed
both a b = record {
  warning_signals = a.warning_signals ++ b.warning_signals;
  critical_support = a.critical_support ++ b.critical_support;
  reasons = a.reasons ++ b.reasons;
}

unfoldable pub crossed :
    RiskConfig
    → (critical warning : ℤ) → (ratio : Option ℤ) → Option Growth
    → (psi_some psi_full swap_ratio : Option ℤ) → Crossed
unfolding graded available_crossed grows
crossed config critical warning ratio growth psi_some psi_full swap_ratio =
    both (available_crossed ratio critical warning) (
      both
        (graded (grows growth config.trend_critical_bytes_per_second)
          (grows growth config.trend_warning_bytes_per_second) "memory_growth_critical"
          "memory_growth_warning")
        (both
          (graded (reaches psi_full config.psi_memory_full_critical_avg10)
            (reaches psi_some config.psi_memory_some_warning_avg10) "memory_psi_full_critical"
            "memory_psi_some_warning")
          (graded (reaches swap_ratio config.swap_used_critical_percent)
            (reaches swap_ratio config.swap_used_warning_percent) "swap_used_critical"
            "swap_used_warning")))

-- The level that the sample asks for.
unfoldable pub candidate_of :
    Option ℕ → (critical warning : ℤ) → (ratio : Option ℤ) → Crossed → String
candidate_of events critical warning ratio c =
    if has_events events || is_low ratio critical || leb 2 (length c.critical_support)
    then "critical"
    else if leb 1 (length c.warning_signals) || is_low ratio warning
    then "warning"
    else "normal"
