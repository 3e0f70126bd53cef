-- ===== src/Risk/Facts.antt =====
-- What a reported state of src/guardian_risk.py says of the sample.
use server_resource_guardian.Prelude.{
  ℕ, ◌+◌, ◌≤◌, String, Bool, true, false, not, ◌||◌, ◌==◌, ◌≡◌, refl, arith, Option, List, [], ◌∷◌,
  if-cases, leb, ltb, one_of, eq_iff, append_empty, length, sym, ◌∙◌, subst,
}
use server_resource_guardian.Prelude.Int
use server_resource_guardian.Prelude.Int.{ℤ}
use server_resource_guardian.Value.{Value, Fields}
use server_resource_guardian.Risk.{RiskConfig, CompositeRiskEvaluator, when, has_events}
use server_resource_guardian.Risk.Signals.{Crossed, is_low, candidate_of}
use server_resource_guardian.Risk.Evaluation.{
  Thresholds, read, no_flags, required_for, is_alert, state_of,
}

abbrev pub levels : List String
levels = "critical" ∷ "warning" ∷ "normal" ∷ []

pub candidate_of_level :
    (events : Option ℕ) (critical warning : ℤ) (ratio : Option ℤ) (c : Crossed)
    → one_of (candidate_of events critical warning ratio c) levels ≡ true
unfolding candidate_of
candidate_of_level events critical warning ratio c =
    if-cases (λ s. one_of s levels ≡ true)
      (has_events events || is_low ratio critical || leb 2 (length c.critical_support)) _ _
      (λ on. refl)
      (λ off.
        if-cases (λ s. one_of s levels ≡ true)
          (leb 1 (length c.warning_signals) || is_low ratio warning) _ _ (λ on. refl) (λ _. refl))

module _ (config : RiskConfig) (last candidate : String) (flags : List String) (held : ℤ) where
  -- An alert is the level that the sample asks for, held for as long as the policy requires, and
  -- nothing is wrong with the quality of the sample.
  pub state_of-alert :
      is_alert (state_of config last candidate flags held) ≡ true
      → (no_flags flags ≡ true)
        × (state_of config last candidate flags held ≡ candidate)
        × (Int.leb (required_for config candidate) held ≡ true)
  unfolding state_of
  state_of-alert =
      if-cases IsHeld (not (no_flags flags)) _ _ (λ on a. cc a)
        (λ clean.
          if-cases IsHeld (candidate == "normal") _ _
            (λ normal. if-cases IsHeld (is_alert last) _ _ (λ on a. cc a) (λ off a. cc a))
            (λ raised.
              if-cases IsHeld (Int.leb (required_for config candidate) held) _ _
                (λ long a. (not_false (no_flags flags) clean, refl, long)) (λ short a. cc a)))
    where
      IsHeld : String → Type 0
      IsHeld s =
          is_alert s ≡ true
          → (no_flags flags ≡ true)
            × (s ≡ candidate)
            × (Int.leb (required_for config candidate) held ≡ true)

      not_false : (b : Bool) → not b ≡ false → b ≡ true
      not_false true h = refl
      not_false false h = cc

  -- A recovery is reported only after an alert.
  pub state_of-recovered :
      one_of candidate levels ≡ true
      → (state_of config last candidate flags held == "recovered") ≡ true
      → is_alert last ≡ true
  unfolding state_of
  state_of-recovered level =
      if-cases Follows (not (no_flags flags)) _ _ (λ on r. cc r)
        (λ clean.
          if-cases Follows (candidate == "normal") _ _
            (λ normal. if-cases Follows (is_alert last) _ _ (λ on r. on) (λ off r. cc r))
            (λ raised.
              if-cases Follows (Int.leb (required_for config candidate) held) _ _
                (λ long r. cc (sym (no_level candidate r) ∙ level)) (λ short r. cc r)))
    where
      Follows : String → Type 0
      Follows s = (s == "recovered") ≡ true → is_alert last ≡ true

      no_level : (s : String) → (s == "recovered") ≡ true → one_of s levels ≡ false
      no_level s r = subst (λ t. one_of t levels ≡ false) (sym ((eq_iff s "recovered").0 r)) refl

module _ (repr : Value → String) (config : RiskConfig) (thresholds : Thresholds) where
  pub read-level :
      (e : CompositeRiskEvaluator) (observation : Fields) (now : ℤ)
      → one_of (read repr config thresholds e observation now).candidate levels ≡ true
  unfolding read
  read-level e observation now = candidate_of_level _ _ _ _ _

  -- A sample with nothing wrong is not among the first ones.
  pub read-enough :
      (e : CompositeRiskEvaluator) (observation : Fields) (now : ℤ)
      → no_flags (read repr config thresholds e observation now).quality_flags ≡ true
      → config.required_samples ≤ e.sample_count + 1
  unfolding read
  read-enough e observation now h =
      counted (ltb (e.sample_count + 1) config.required_samples) refl
        (append_empty _ _ (empty _ h)).1
    where
      empty : (flags : List String) → no_flags flags ≡ true → flags ≡ []
      empty [] k = refl
      empty (f ∷ fs) k = cc

      counted :
          (few : Bool)
          → ltb (e.sample_count + 1) config.required_samples ≡ few
          → when few "insufficient_samples" ≡ []
          → config.required_samples ≤ e.sample_count + 1
      counted true f k = cc
      counted false f k = ground arith
