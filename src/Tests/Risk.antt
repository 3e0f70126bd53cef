-- ===== src/Tests/Risk.antt =====
-- Tests for src/guardian_risk.py.
use server_resource_guardian.Prelude.{ℕ, ◌≡◌, refl, true, none, String, [], ◌∷◌, ◌==◌}
use server_resource_guardian.Prelude.Int
use server_resource_guardian.Prelude.Int.{ℤ, pos}
use server_resource_guardian.Value.{
  Value, number, text, array, object, nil, Fields, end, field, lookup, truth,
}
use server_resource_guardian.Joint.{mapping_at}
use server_resource_guardian.Risk.{
  RiskConfig, CompositeRiskEvaluator, new_evaluator, nested_number, counters_of, event_delta,
  kept_flags, quality_flags_of, clock_flags, growth_of,
}
use server_resource_guardian.Risk.Signals.{
  swap_of, grows, graded, available_crossed, crossed, candidate_of,
}
use server_resource_guardian.Risk.Evaluation.{
  Thresholds, RiskResult, read, since_of, held_for, required_for, is_alert, state_of, emitted,
  decide, evaluate,
}
use server_resource_guardian.Risk.Dwell.{
  report, IsAlerting, Watch, fresh, sampled, IsSustained, evaluate-IsSustained, evaluate-recovered,
}

abbrev repr : Value → String
repr value = "value"

abbrev round3 : ℤ → ℤ
round3 n = n

abbrev config : RiskConfig
config = record {
  warning_available_percent = pos 20;
  critical_available_percent = pos 10;
  warning_for = pos 5;
  critical_for = pos 5;
  required_samples = 2;
  max_sample_age = pos 100;
  trend_warning_bytes_per_second = pos 1000;
  trend_critical_bytes_per_second = pos 2000;
  psi_memory_some_warning_avg10 = pos 10;
  psi_memory_full_critical_avg10 = pos 10;
  swap_used_warning_percent = pos 50;
  swap_used_critical_percent = pos 80;
}

abbrev thresholds : Thresholds
thresholds = record { warning_available = none; critical_available = none }

-- A sample with a share of available memory, at an instant.
abbrev sample : ℕ → ℕ → Fields
sample ratio at =
    field "quality" (object (field "status" (text "ok") (field "flags" (array nil) end))) (
      field "memory"
        (object (
          field "available_ratio_percent" (number (pos ratio)) (
            field "available_bytes" (number (pos 1000))
              (field "swap_total_bytes" (number (pos 0)) end))))
        (field "cgroup"
          (object (
            field "memory_events"
              (object (field "oom" (number (pos 0)) (field "oom_kill" (number (pos 0)) end))) end))
          (field "psi"
            (object (
              field "memory"
                (object (
                  field "some" (object (field "avg10" (number (pos 0)) end))
                    (field "full" (object (field "avg10" (number (pos 0)) end)) end)))
                end))
            (field "observed_monotonic_ns" (number (pos at)) end))))

abbrev step : CompositeRiskEvaluator → ℕ → ℕ → RiskResult × CompositeRiskEvaluator
step e ratio at = evaluate repr round3 config thresholds e (sample ratio at) (pos at)

abbrev first_sample : RiskResult × CompositeRiskEvaluator
first_sample = step new_evaluator 5 10

abbrev second_sample : RiskResult × CompositeRiskEvaluator
second_sample = step first_sample.1 5 20

abbrev third_sample : RiskResult × CompositeRiskEvaluator
third_sample = step second_sample.1 50 30

watch_one :
    Watch repr round3 config first_sample.1 (report repr round3 config (pos 10) first_sample.0 ∷ [])
watch_one = sampled thresholds (sample 5 10) (pos 10) fresh

watch_two : Watch repr round3 config second_sample.1 (
    report repr round3 config (pos 20) second_sample.0
    ∷ report repr round3 config (pos 10) first_sample.0
    ∷ [])
watch_two = sampled thresholds (sample 5 20) (pos 20) watch_one

second_is_critical : second_sample.0.state ≡ "critical"
unfolding evaluate decide read since_of held_for required_for state_of emitted mapping_at lookup
    truth nested_number counters_of event_delta kept_flags quality_flags_of clock_flags growth_of
    swap_of grows graded available_crossed crossed candidate_of Int.◌-ℤ◌
second_is_critical = refl

third_is_recovered : third_sample.0.state ≡ "recovered"
unfolding evaluate decide read since_of held_for required_for state_of emitted mapping_at lookup
    truth nested_number counters_of event_delta kept_flags quality_flags_of clock_flags growth_of
    swap_of grows graded available_crossed crossed candidate_of Int.◌-ℤ◌
third_is_recovered = refl

second_is_alert : is_alert second_sample.0.state ≡ true
second_is_alert = rw second_is_critical refl

third_recovers : (third_sample.0.state == "recovered") ≡ true
third_recovers = rw third_is_recovered refl

evaluate-IsSustained_example :
    IsSustained repr round3 config thresholds (sample 5 20) (pos 20) watch_one second_sample.0
evaluate-IsSustained_example =
    evaluate-IsSustained repr round3 config thresholds (sample 5 20) (pos 20) watch_one
      second_is_alert

evaluate-recovered_example : IsAlerting (
    report repr round3 config (pos 20) second_sample.0
    ∷ report repr round3 config (pos 10) first_sample.0
    ∷ [])
evaluate-recovered_example =
    evaluate-recovered repr round3 config thresholds (sample 50 30) (pos 30) watch_two
      third_recovers
