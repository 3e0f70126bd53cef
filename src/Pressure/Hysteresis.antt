-- ===== src/Pressure/Hysteresis.antt =====
-- The state of the gate of src/guardian_pressure_gate.py as a function of the samples it was given.
use server_resource_guardian.Prelude.{
  ◌≡◌, ◌⊎◌, inl, inr, refl, ℕ, ◌+◌, String, Bool, true, List, [], ◌∷◌, ◌==◌, if◌then◌else◌, leb,
  arith, eq_iff, Bool-cases, apart,
}
use server_resource_guardian.Prelude.Int.{ℤ}
use server_resource_guardian.Pressure.Levels.{raw_state-cases}
use server_resource_guardian.Pressure.{
  Signals, PressureGate, new_gate, normal_state, next_state, next_samples, decided, raw_state,
  evaluate,
}

-- The gate after the samples, the newest first.
unfoldable pub gate_after : (round6 : ℕ → ℕ → ℤ) → List Signals → PressureGate
gate_after round6 [] = new_gate
gate_after round6 (x ∷ xs) = (evaluate round6 (gate_after round6 xs) x).1

abbrev pub is_normal : Signals → Bool
is_normal x = (raw_state x).0 == normal_state

-- How many of the newest samples in a row are normal.
unfoldable pub streak : List Signals → ℕ
streak [] = 0
streak (x ∷ xs) = if is_normal x then streak xs + 1 else 0

-- The raw state of the newest sample that is not normal.
unfoldable pub newest_pressure : List Signals → String
newest_pressure [] = "normal"
newest_pressure (x ∷ xs) = if is_normal x then newest_pressure xs else (raw_state x).0

-- What the gate promises: pressure counts until three normal samples in a row have followed it.
unfoldable pub promised_state : List Signals → String
promised_state xs = if leb 3 (streak xs) then "normal" else newest_pressure xs

decided-parts :
    (round6 : ℕ → ℕ → ℤ) (gate : PressureGate) (x : Signals) (r : String × List String)
    → ((decided round6 gate x r).1.normal_samples ≡ next_samples r.0 gate.normal_samples)
      × ((decided round6 gate x r).1.state
          ≡ next_state r.0 gate.state (next_samples r.0 gate.normal_samples))
unfolding decided
decided-parts round6 gate x (raw, reasons) = (refl, refl)

evaluate-samples :
    (round6 : ℕ → ℕ → ℤ) (gate : PressureGate) (x : Signals)
    → (evaluate round6 gate x).1.normal_samples ≡ next_samples (raw_state x).0 gate.normal_samples
unfolding evaluate
evaluate-samples round6 gate x = (decided-parts round6 gate x (raw_state x)).0

evaluate-state :
    (round6 : ℕ → ℕ → ℤ) (gate : PressureGate) (x : Signals)
    → (evaluate round6 gate x).1.state
      ≡ next_state (raw_state x).0 gate.state (next_samples (raw_state x).0 gate.normal_samples)
unfolding evaluate
evaluate-state round6 gate x = (decided-parts round6 gate x (raw_state x)).1

gate_after-samples :
    (round6 : ℕ → ℕ → ℤ) (xs : List Signals) → (gate_after round6 xs).normal_samples ≡ streak xs
unfolding gate_after streak
gate_after-samples round6 [] = refl
gate_after-samples round6 (x ∷ xs) =
    rw (evaluate-samples round6 (gate_after round6 xs) x, gate_after-samples round6 xs) refl

-- After pressure the next state is the raw one; there are two raw states of pressure.
next_state-pressure :
    (raw state : String) (samples : ℕ)
    → (raw ≡ "degraded") ⊎ (raw ≡ "suspended")
    → (state ≡ "normal") ⊎ (state ≡ "degraded") ⊎ (state ≡ "suspended")
    → next_state raw state samples ≡ raw
unfolding next_state
next_state-pressure raw state samples p q = ground (
  arith,
  eq_iff raw "normal",
  eq_iff raw "suspended",
  eq_iff raw "degraded",
  eq_iff state "normal",
  eq_iff state "suspended",
  apart "degraded" "normal" refl,
  apart "suspended" "normal" refl,
  apart "degraded" "suspended" refl,
)

next_state-normal :
    (raw state : String) (samples : ℕ)
    → (raw == "normal") ≡ true
    → next_state raw state samples ≡ (if leb 3 samples then "normal" else state)
unfolding next_state
next_state-normal raw state samples p = ground (arith, eq_iff state "normal")

-- The states that a gate can have.
newest_pressure-cases :
    (xs : List Signals)
    → (newest_pressure xs ≡ "normal")
      ⊎ (newest_pressure xs ≡ "degraded")
      ⊎ (newest_pressure xs ≡ "suspended")
unfolding newest_pressure
newest_pressure-cases [] = inl refl
newest_pressure-cases (x ∷ xs) = elim (Bool-cases (is_normal x)) [
  | inl calm ↦ rw calm (newest_pressure-cases xs)
  | inr pressed ↦ ground (arith, raw_state-cases x)
]

promised_state-cases :
    (xs : List Signals)
    → (promised_state xs ≡ "normal")
      ⊎ (promised_state xs ≡ "degraded")
      ⊎ (promised_state xs ≡ "suspended")
unfolding promised_state
promised_state-cases xs = ground (arith, newest_pressure-cases xs)

gate_after-next :
    (round6 : ℕ → ℕ → ℤ) (x : Signals) (xs : List Signals)
    → (gate_after round6 xs).state ≡ promised_state xs
    → (gate_after round6 (x ∷ xs)).state ≡ promised_state (x ∷ xs)
unfolding gate_after promised_state streak newest_pressure
gate_after-next round6 x xs h =
    rw (evaluate-state round6 (gate_after round6 xs) x, gate_after-samples round6 xs, h)
      (elim (Bool-cases (is_normal x)) [
        | inl calm ↦
            rw (calm, next_state-normal (raw_state x).0 (promised_state xs) (streak xs + 1) calm)
              (ground arith)
        | inr pressed ↦
            rw
              (
                pressed,
                next_state-pressure (raw_state x).0 (promised_state xs) 0
                    (ground (arith, raw_state-cases x, eq_iff (raw_state x).0 "normal"))
                    (promised_state-cases xs),
              )
              (ground arith)
      ])

-- After any samples the state of the gate is `normal` when the newest three are normal, and otherwise
-- the raw state of the newest sample that is not normal, or `normal` when there is none: pressure
-- shows at once, and leaves only after three normal samples in a row.
pub gate_after-state :
    (round6 : ℕ → ℕ → ℤ) (xs : List Signals) → (gate_after round6 xs).state ≡ promised_state xs
unfolding gate_after promised_state streak newest_pressure
gate_after-state round6 [] = refl
gate_after-state round6 (x ∷ xs) = gate_after-next round6 x xs (gate_after-state round6 xs)
