-- ===== src/Risk/Dwell.antt =====
-- The reports of src/guardian_risk.py over every sequence of samples of one evaluator.
use server_resource_guardian.Prelude.{
  ◌≤◌, String, true, false, ◌==◌, ◌≡◌, refl, Option, none, some, List, [], ◌∷◌, Bool-cases, inl,
  inr, eq_iff, sym, subst,
}
use server_resource_guardian.Prelude.Int
use server_resource_guardian.Prelude.Int.{ℤ, ◌≤ℤ◌}
use server_resource_guardian.Value.{Value, Fields}
use server_resource_guardian.Risk.{RiskConfig, CompositeRiskEvaluator, new_evaluator}
use server_resource_guardian.Risk.Evaluation.{
  Thresholds, RiskResult, read, since_of, held_for, required_for, is_alert, state_of, emitted,
  decide, evaluate, or_now, no_flags,
}
use server_resource_guardian.Risk.Facts.{
  state_of-alert, state_of-recovered, read-level, read-enough,
}

-- A sample as it was reported.
pub record Report : Type 0 where
  pub at : ℤ
  pub candidate : String
  pub state : String

-- Every report down to an instant asked for the level, that of the instant itself included.
pub data Held (level : String) : ℤ → List Report → Type 0 where
  began : (x : Report) (log : List Report) → x.candidate ≡ level → Held level x.at (x ∷ log)
  went_on :
      (x : Report) (since : ℤ) (log : List Report)
      → x.candidate ≡ level
      → Held level since log
      → Held level since (x ∷ log)

-- An alert was reported, and no recovery after it.
pub data IsAlerting : List Report → Type 0 where
  raised : (x : Report) (log : List Report) → is_alert x.state ≡ true → IsAlerting (x ∷ log)
  lasting :
      (x : Report) (log : List Report)
      → (x.state == "recovered") ≡ false
      → IsAlerting log
      → IsAlerting (x ∷ log)

module _ (repr : Value → String) (round3 : ℤ → ℤ) (config : RiskConfig) where
  abbrev pub report : ℤ → RiskResult → Report
  report now r = record { at = now; candidate = r.candidate_state; state = r.state }

  -- The samples that one evaluator has seen, newest first, with any thresholds and instants.
  pub data Watch : CompositeRiskEvaluator → List Report → Type 0 where
    fresh : Watch new_evaluator []
    sampled :
        {e : CompositeRiskEvaluator} {log : List Report} (thresholds : Thresholds)
        (observation : Fields) (now : ℤ)
        → Watch e log
        → Watch
            (evaluate repr round3 config thresholds e observation now).1
            (report now (evaluate repr round3 config thresholds e observation now).0 ∷ log)

  -- What the evaluator remembers of the log.
  abbrev Remembers : String → Option ℤ → List Report → Type 0
  Remembers level none log = log ≡ []
  Remembers level (some since) log = Held level since log

  since_of-Held :
      (e : CompositeRiskEvaluator) (candidate state : String) (now : ℤ) (log : List Report)
      → Remembers e.candidate_level e.candidate_since log
      → Held candidate
          (since_of e candidate now)
          (record { at = now; candidate = candidate; state = state } ∷ log)
  unfolding since_of
  since_of-Held e candidate state now log h = elim (Bool-cases (candidate == e.candidate_level)) [
    | inl same ↦ rw same (
        kept e.candidate_since (
          subst (λ l. Remembers l e.candidate_since log)
            (sym ((eq_iff candidate e.candidate_level).0 same)) h))
    | inr other ↦ rw other (began _ log refl)
  ]
    where
      kept :
          (o : Option ℤ)
          → Remembers candidate o log
          → Held candidate
              (or_now o now)
              (record { at = now; candidate = candidate; state = state } ∷ log)
      kept none k = began _ log refl
      kept (some since) k = went_on _ since log refl k

  emitted-IsAlerting :
      (last candidate state : String) (now : ℤ) (log : List Report)
      → (is_alert last ≡ true → IsAlerting log)
      → is_alert (emitted last state) ≡ true
      → IsAlerting (record { at = now; candidate = candidate; state = state } ∷ log)
  unfolding emitted
  emitted-IsAlerting last candidate state now log h = elim (Bool-cases (state == "recovered")) [
    | inl on ↦ λ k. cc (rw on at k)
    | inr off ↦ λ k. elim (Bool-cases (is_alert state)) [
      | inl alert ↦ raised _ log alert
      | inr quiet ↦ lasting _ log off (h (rw (off, quiet) at k))
    ]
  ]

  record Follows (e : CompositeRiskEvaluator) (log : List Report) : Type 0 where
    level : Remembers e.candidate_level e.candidate_since log
    alerting : is_alert e.last_emitted ≡ true → IsAlerting log

  Watch-Follows : {e : CompositeRiskEvaluator} {log : List Report} → Watch e log → Follows e log
  unfolding evaluate decide
  Watch-Follows fresh = record { level = refl; alerting = λ h. cc h }
  Watch-Follows (sampled {e} {log} thresholds observation now h) =
      let f = Watch-Follows h in
      let r = read repr config thresholds e observation now in
      record {
        level = since_of-Held e r.candidate _ now log f.level;
        alerting = emitted-IsAlerting e.last_emitted r.candidate _ now log f.alerting;
      }

  module _ {e : CompositeRiskEvaluator} {log : List Report} (thresholds : Thresholds)
      (observation : Fields) (now : ℤ) (watch : Watch e log) where
    -- Why an alert may be reported.
    pub record IsSustained (r : RiskResult) : Type 0 where
      pub since : ℤ
      pub held : Held r.state since (report now r ∷ log)
      pub long : Int.leb (required_for config r.state) (held_for since now) ≡ true
      pub clean : no_flags (read repr config thresholds e observation now).quality_flags ≡ true
      pub enough : config.required_samples ≤ r.sample_count

    -- In every sequence of samples of one evaluator, a sample that reports `warning` or
    -- `critical` has nothing wrong with its quality, comes after the required number of samples,
    -- and closes an unbroken run of samples that all ask for that same level and that began at
    -- least the required time before it.
    pub evaluate-IsSustained :
        is_alert (evaluate repr round3 config thresholds e observation now).0.state ≡ true
        → IsSustained (evaluate repr round3 config thresholds e observation now).0
    unfolding evaluate decide
    evaluate-IsSustained alert =
        let r = read repr config thresholds e observation now in
        let since = since_of e r.candidate now in
        let state =
          state_of config e.last_emitted r.candidate r.quality_flags (held_for since now) in
        let (clean, same, long) =
          state_of-alert config e.last_emitted r.candidate r.quality_flags (held_for since now)
            alert in
        record {
          since = since;
          held =
              subst
                (λ s.
                  Held s since (record { at = now; candidate = r.candidate; state = state } ∷ log))
                (sym same) (since_of-Held e r.candidate state now log (Watch-Follows watch).level);
          long =
              subst (λ s. Int.leb (required_for config s) (held_for since now) ≡ true) (sym same)
                long;
          clean = clean;
          enough = read-enough repr config thresholds e observation now clean;
        }

    -- In every sequence of samples of one evaluator, a sample that reports `recovered` comes
    -- after a reported alert that no other reported recovery has followed.
    pub evaluate-recovered :
        ((evaluate repr round3 config thresholds e observation now).0.state == "recovered") ≡ true
        → IsAlerting log
    unfolding evaluate decide
    evaluate-recovered recovered = (Watch-Follows watch).alerting (
        state_of-recovered config e.last_emitted _ _ _
          (read-level repr config thresholds e observation now) recovered)
