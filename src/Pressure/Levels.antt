-- ===== src/Pressure/Levels.antt =====
-- The levels of `_raw_state` in src/guardian_pressure_gate.py.
use server_resource_guardian.Prelude.{
  ◌≡◌, ◌≢◌, refl, sym, ◌∙◌, ◌↔◌, ◌⊎◌, inl, inr, ℕ, ◌*◌, ◌≤◌, ◌<◌, String, Bool, true, false, Option,
  none, some, List, [], ◌∷◌, ◌++◌, arith, apart,
}
use server_resource_guardian.Pressure.{
  Signals, raw_state, grade, critical_reasons, low_reasons, ratio_within, few_bytes, psi_reaches,
  complete, reason_if,
}

complete-cases :
    (available total : Option ℕ)
    → ((complete available total).0 ≡ "normal") ⊎ ((complete available total).0 ≡ "degraded")
unfolding complete
complete-cases none total = inr refl
complete-cases (some a) none = inr refl
complete-cases (some a) (some t) = inl refl

grade-cases :
    (x : Signals) (cs ls : List String)
    → ((grade x cs ls).0 ≡ "normal")
      ⊎ ((grade x cs ls).0 ≡ "degraded")
      ⊎ ((grade x cs ls).0 ≡ "suspended")
unfolding grade
grade-cases x [] [] = elim (complete-cases x.available x.total) [
  | inl calm ↦ inl calm
  | inr low ↦ inr (inl low)
]
grade-cases x [] (l ∷ ls) = inr (inl refl)
grade-cases x (c ∷ cs) ls = inr (inr refl)

pub raw_state-cases :
    (x : Signals)
    → ((raw_state x).0 ≡ "normal")
      ⊎ ((raw_state x).0 ≡ "degraded")
      ⊎ ((raw_state x).0 ≡ "suspended")
unfolding raw_state
raw_state-cases x = grade-cases x (critical_reasons x) (low_reasons x)

-- At most `percent` percent of the memory is available; `none` is a signal that is missing.
abbrev pub IsWithin : ℕ → Option ℕ → Option ℕ → Type 0
IsWithin percent (some available) (some total) = (0 < total) × (100 * available ≤ percent * total)
IsWithin percent _ _ = ⊥

-- At most 128 MiB are available.
abbrev pub IsFew : Option ℕ → Type 0
IsFew none = ⊥
IsFew (some available) = available ≤ 134217728

-- The stall share is at least so many hundredths.
abbrev pub IsStalled : ℕ → Option ℕ → Type 0
IsStalled hundredths none = ⊥
IsStalled hundredths (some psi) = hundredths ≤ psi

abbrev pub IsKnown : Option ℕ → Type 0
IsKnown none = ⊥
IsKnown (some _) = Unit

abbrev pub IsCritical : Signals → Type 0
IsCritical x = IsWithin 3 x.available x.total ⊎ IsFew x.available ⊎ IsStalled 2500 x.psi

ratio_within-IsWithin :
    (percent : ℕ) (o p : Option ℕ) → (ratio_within percent o p ≡ true) ↔ IsWithin percent o p
unfolding ratio_within
ratio_within-IsWithin percent none p = (λ h. cc, λ h. absurd h)
ratio_within-IsWithin percent (some a) none = (λ h. cc, λ h. absurd h)
ratio_within-IsWithin percent (some a) (some t) = ground arith

few_bytes-IsFew : (o : Option ℕ) → (few_bytes o ≡ true) ↔ IsFew o
unfolding few_bytes
few_bytes-IsFew none = (λ h. cc, λ h. absurd h)
few_bytes-IsFew (some a) = ground arith

psi_reaches-IsStalled :
    (hundredths : ℕ) (o : Option ℕ) → (psi_reaches hundredths o ≡ true) ↔ IsStalled hundredths o
unfolding psi_reaches
psi_reaches-IsStalled hundredths none = (λ h. cc, λ h. absurd h)
psi_reaches-IsStalled hundredths (some p) = ground arith

-- The list of the reasons is empty where each test fails.
grade-suspended :
    (x : Signals) (r f p : Bool) (ls : List String)
    → ((grade x
          (reason_if r "memory_available_critical"
            ++ reason_if f "memory_available_bytes_critical"
            ++ reason_if p "memory_psi_critical")
          ls).0
        ≡ "suspended")
      ↔ ((r ≡ true) ⊎ (f ≡ true) ⊎ (p ≡ true))
unfolding grade
grade-suspended x true f p ls = (λ _. inl refl, λ _. refl)
grade-suspended x false true p ls = (λ _. inr (inl refl), λ _. refl)
grade-suspended x false false true ls = (λ _. inr (inr refl), λ _. refl)
grade-suspended x false false false (l ∷ ls) =
    (λ h. absurd (apart "degraded" "suspended" refl h), λ h. ground arith)
grade-suspended x false false false [] =
    (λ h. absurd (not_suspended (complete-cases x.available x.total) h), λ h. ground arith)
  where
    not_suspended : {s : String} → (s ≡ "normal") ⊎ (s ≡ "degraded") → s ≢ "suspended"
    not_suspended (inl calm) h = apart "normal" "suspended" refl (sym calm ∙ h)
    not_suspended (inr low) h = apart "degraded" "suspended" refl (sym low ∙ h)

-- The raw state is `suspended` exactly when at most 3 percent of the memory is available, or at most
-- 128 MiB, or the stall share is at least 25 percent. A missing
-- signal is none of these, and there is no percentage where the total is missing or 0.
pub raw_state-suspended : (x : Signals) → ((raw_state x).0 ≡ "suspended") ↔ IsCritical x
unfolding raw_state critical_reasons
raw_state-suspended x =
    let graded =
      grade-suspended x (ratio_within 3 x.available x.total) (few_bytes x.available)
        (psi_reaches 2500 x.psi) (low_reasons x) in
    (λ h. forth (graded.0 h), λ c. graded.1 (back c))
  where
    forth :
        (ratio_within 3 x.available x.total ≡ true)
          ⊎ (few_bytes x.available ≡ true)
          ⊎ (psi_reaches 2500 x.psi ≡ true)
        → IsCritical x
    forth (inl r) = inl ((ratio_within-IsWithin 3 x.available x.total).0 r)
    forth (inr (inl f)) = inr (inl ((few_bytes-IsFew x.available).0 f))
    forth (inr (inr p)) = inr (inr ((psi_reaches-IsStalled 2500 x.psi).0 p))

    back :
        IsCritical x
        → (ratio_within 3 x.available x.total ≡ true)
          ⊎ (few_bytes x.available ≡ true)
          ⊎ (psi_reaches 2500 x.psi ≡ true)
    back (inl r) = inl ((ratio_within-IsWithin 3 x.available x.total).1 r)
    back (inr (inl f)) = inr (inl ((few_bytes-IsFew x.available).1 f))
    back (inr (inr p)) = inr (inr ((psi_reaches-IsStalled 2500 x.psi).1 p))
