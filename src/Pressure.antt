-- ===== src/Pressure.antt =====
-- The host-pressure gate: src/guardian_pressure_gate.py, from the three signals on. Memory is counted
-- in bytes, the stall share `psi_full_avg10` in hundredths of a percent point, as the kernel prints it.
pub mod Hysteresis
pub mod Levels
pub mod Collection
pub mod Slimming
use server_resource_guardian.Prelude.{
  ℕ, ◌+◌, ◌*◌, String, Bool, true, false, not, ◌&&◌, ◌||◌, Option, none, some, List, [], ◌∷◌, ◌++◌,
  ◌==◌, if◌then◌else◌, ltb, leb, join,
}
use server_resource_guardian.Prelude.Int.{ℤ, pos}

abbrev pub normal_state : String
normal_state = "normal"

abbrev pub degraded_state : String
degraded_state = "degraded"

abbrev pub suspended_state : String
suspended_state = "suspended"

abbrev pub suspended_available_bytes : ℕ
suspended_available_bytes = 134217728

abbrev pub normal_samples_to_resume : ℕ
normal_samples_to_resume = 3

-- `available`, `total` and `psi`, as `_signals` returns them.
pub record Signals : Type 0 where
  pub available : Option ℕ
  pub total : Option ℕ
  pub psi : Option ℕ

pub record PressureDecision : Type 0 where
  pub state : String
  pub available_bytes : Option ℕ
  pub total_bytes : Option ℕ
  pub available_ratio : Option ℤ
  pub psi_full_avg10 : Option ℕ
  pub reason_codes : List String
  pub transition : Option String
  pub normal_samples : ℕ

-- The object: its fields that `evaluate` writes.
pub record PressureGate : Type 0 where
  pub state : String
  pub normal_samples : ℕ
  pub last_transition : Option String

abbrev pub new_gate : PressureGate
new_gate = record { state = "normal"; normal_samples = 0; last_transition = none }

-- `ratio <= percent / 100`, where there is a ratio: the two sides are multiplied by the total.
ratio_within : ℕ → Option ℕ → Option ℕ → Bool
ratio_within percent (some available) (some total) =
    ltb 0 total && leb (100 * available) (percent * total)
ratio_within percent _ _ = false

-- `available <= SUSPENDED_AVAILABLE_BYTES`
few_bytes : Option ℕ → Bool
few_bytes none = false
few_bytes (some available) = leb available suspended_available_bytes

-- `psi >= hundredths / 100`
psi_reaches : ℕ → Option ℕ → Bool
psi_reaches hundredths none = false
psi_reaches hundredths (some psi) = leb hundredths psi

abbrev pub reason_if : Bool → String → List String
reason_if true reason = reason ∷ []
reason_if false reason = []

critical_reasons : Signals → List String
unfolding ratio_within few_bytes psi_reaches
critical_reasons x =
    reason_if (ratio_within 3 x.available x.total) "memory_available_critical"
    ++ reason_if (few_bytes x.available) "memory_available_bytes_critical"
    ++ reason_if (psi_reaches 2500 x.psi) "memory_psi_critical"

low_reasons : Signals → List String
unfolding ratio_within psi_reaches
low_reasons x =
    reason_if (ratio_within 10 x.available x.total) "memory_available_low"
    ++ reason_if (psi_reaches 1000 x.psi) "memory_psi_elevated"

complete : Option ℕ → Option ℕ → String × List String
complete (some available) (some total) = (normal_state, [])
complete _ _ = (degraded_state, "memory_signal_unavailable" ∷ [])

-- The reasons decide the state: critical ones first, then low ones, then missing signals.
pub grade : Signals → List String → List String → String × List String
unfolding complete
grade x [] [] = complete x.available x.total
grade x [] (low ∷ lows) = (degraded_state, low ∷ lows)
grade x (critical ∷ criticals) lows = (suspended_state, critical ∷ criticals)

-- `_raw_state`
unfoldable pub raw_state : Signals → String × List String
unfolding grade critical_reasons low_reasons
raw_state x = grade x (critical_reasons x) (low_reasons x)

-- The number of normal samples in a row, after one more.
abbrev pub next_samples : String → ℕ → ℕ
next_samples raw samples = if raw == normal_state then samples + 1 else 0

next_state : String → String → ℕ → String
next_state raw state samples =
    if raw == normal_state
    then if not (state == normal_state) && leb normal_samples_to_resume samples
      then normal_state
      else state
    else if raw == suspended_state || state == normal_state
    then raw
    else if state == suspended_state && raw == degraded_state
    then degraded_state
    else state

transition_of : String → String → Option String
transition_of previous state =
    if state == previous then none else some (join previous (join "->" state))

abbrev pub or_last : Option String → Option String → Option String
or_last none last = last
or_last (some transition) last = some transition

-- The ratio as it is reported; `round6` is `round(available / total, 6)`, in millionths.
ratio_of : (round6 : ℕ → ℕ → ℤ) → Option ℕ → Option ℕ → Option ℤ
ratio_of round6 (some available) (some total) =
    if ltb 0 total then some (round6 available total) else none
ratio_of round6 _ _ = none

decided :
    (round6 : ℕ → ℕ → ℤ)
    → PressureGate
    → Signals
    → String × List String
    → PressureDecision × PressureGate
unfolding next_state transition_of ratio_of
decided round6 gate x (raw, reasons) =
    let samples = next_samples raw gate.normal_samples in
    let state = next_state raw gate.state samples in
    let transition = transition_of gate.state state in
    (
      record {
        state = state;
        available_bytes = x.available;
        total_bytes = x.total;
        available_ratio = ratio_of round6 x.available x.total;
        psi_full_avg10 = x.psi;
        reason_codes = reasons;
        transition = transition;
        normal_samples = samples;
      },
      record {
        state = state;
        normal_samples = samples;
        last_transition = or_last transition gate.last_transition;
      },
    )

-- The decision, and the gate after it.
unfoldable pub evaluate :
    (round6 : ℕ → ℕ → ℤ) → PressureGate → Signals → PressureDecision × PressureGate
unfolding decided
evaluate round6 gate x = decided round6 gate x (raw_state x)
