-- ===== src/Risk.antt =====
-- The memory risk of src/guardian_risk.py: `CompositeRiskEvaluator`. This file has the thresholds,
-- the state of an evaluator and what a sample says; Risk/Evaluation has `evaluate`.
pub mod Signals
pub mod Evaluation
pub mod Facts
pub mod Dwell
use server_resource_guardian.Prelude.{
  ℕ, ◌+◌, ◌-◌, String, Bool, true, false, not, ◌||◌, ◌&&◌, Option, none, some, List, [], ◌∷◌, ◌++◌,
  if◌then◌else◌, ltb, one_of, is_some,
}
use server_resource_guardian.Prelude.Int
use server_resource_guardian.Prelude.Int.{ℤ, pos, ◌-ℤ◌}
use server_resource_guardian.Value.{
  Value, number, text, array, object, Items, nil, cons, Fields, end, lookup, truth,
}
use server_resource_guardian.Controller.{str}
use server_resource_guardian.Joint.{mapping_at}

-- What the evaluator reads of `GuardianConfig`. Durations are in nanoseconds, rates in bytes for a
-- second.
pub record RiskConfig : Type 0 where
  pub warning_available_percent : ℤ
  pub critical_available_percent : ℤ
  pub warning_for : ℤ
  pub critical_for : ℤ
  pub required_samples : ℕ
  pub max_sample_age : ℤ
  pub trend_warning_bytes_per_second : ℤ
  pub trend_critical_bytes_per_second : ℤ
  pub psi_memory_some_warning_avg10 : ℤ
  pub psi_memory_full_critical_avg10 : ℤ
  pub swap_used_warning_percent : ℤ
  pub swap_used_critical_percent : ℤ

-- The two counters that are tracked, where a mapping has them.
pub record Counters : Type 0 where
  pub oom : Option ℕ
  pub oom_kill : Option ℕ

pub record CompositeRiskEvaluator : Type 0 where
  pub candidate_level : String
  pub candidate_since : Option ℤ
  pub last_emitted : String
  pub previous_available : Option ℤ
  pub previous_events : Option Counters
  pub previous_monotonic_ns : Option ℤ
  pub previous_timestamp : Option ℤ
  pub sample_count : ℕ

abbrev pub new_evaluator : CompositeRiskEvaluator
new_evaluator = record {
  candidate_level = "normal";
  candidate_since = none;
  last_emitted = "normal";
  previous_available = none;
  previous_events = none;
  previous_monotonic_ns = none;
  previous_timestamp = none;
  sample_count = 0;
}

-- `_number`; numbers are integers here.
abbrev pub number_of : Option Value → Option ℤ
number_of (some (number n)) = some n
number_of _ = none

-- `_nested_number(value, first, second)`
unfoldable pub nested_number : Fields → String → String → Option ℤ
nested_number value first second = number_of (lookup second (mapping_at first value))

-- An integer that is not negative.
abbrev counter_of : Option Value → Option ℕ
counter_of (some (number (pos n))) = some n
counter_of _ = none

unfoldable pub counters_of : Fields → Counters
counters_of events = record {
  oom = counter_of (lookup "oom" events);
  oom_kill = counter_of (lookup "oom_kill" events);
}

-- `value < previous.get(key, value)`, and `max(value - previous.get(key, value), 0)`.
abbrev pub fell : (value previous : Option ℕ) → Bool
fell (some v) (some p) = ltb v p
fell _ _ = false

abbrev pub rise : (value previous : Option ℕ) → ℕ
rise (some v) (some p) = v - p
rise _ _ = 0

-- `_event_delta`: the events since the last sample, whether this is the baseline, and whether a
-- counter fell.
unfoldable pub event_delta : Option Counters → Counters → Option ℕ × Bool × Bool
event_delta none c = (none, true, false)
event_delta (some p) c = (
  some (rise c.oom p.oom + rise c.oom_kill p.oom_kill),
  false,
  fell c.oom p.oom || fell c.oom_kill p.oom_kill,
)

-- `if event_delta`
abbrev pub has_events : Option ℕ → Bool
has_events none = false
has_events (some n) = ltb 0 n

-- `ATTRIBUTION_ONLY_QUALITY_FLAGS`
abbrev pub attribution_only_quality_flags : List String
attribution_only_quality_flags =
    "container_collector_degraded" ∷ "docker_observation_unavailable" ∷ []

-- `flags.append(…)` under a condition.
abbrev pub when : Bool → String → List String
when true flag = flag ∷ []
when false flag = []

unfoldable pub kept_flags : (repr : Value → String) → Items → List String
kept_flags repr nil = []
kept_flags repr (cons flag rest) =
    let kept = kept_flags repr rest in
    if truth flag && not (one_of (str repr flag) attribution_only_quality_flags)
    then str repr flag ∷ kept
    else kept

abbrev is_ok : Option Value → Bool
is_ok (some (text s)) = one_of s ("ok" ∷ [])
is_ok _ = false

-- The flags of `quality`, and a missing status. A missing list counts as an empty one.
listed_flags : (repr : Value → String) → Option Value → List String
unfolding kept_flags
listed_flags repr none = []
listed_flags repr (some (array flags)) = kept_flags repr flags
listed_flags repr (some _) = "observation_quality_flags_invalid" ∷ []

abbrev truth_of : Option Value → Bool
truth_of none = false
truth_of (some value) = truth value

unfoldable pub quality_flags_of : (repr : Value → String) → Option Value → List String
unfolding listed_flags
quality_flags_of repr (some (object quality)) =
    listed_flags repr (lookup "flags" quality)
    ++ when (not (is_ok (lookup "status" quality)) && not (truth_of (lookup "flags" quality)))
        "observation_quality_degraded_without_flags"
quality_flags_of repr _ = "observation_quality_missing" ∷ []

-- The instant of the sample, and what is wrong with it.
unfoldable pub clock_flags : RiskConfig → Option ℤ → Option Value → Option ℤ × List String
clock_flags config previous none = (none, "monotonic_timestamp_missing" ∷ [])
clock_flags config previous (some Value.null) = (none, "monotonic_timestamp_missing" ∷ [])
clock_flags config none (some (number n)) = (some n, [])
clock_flags config (some p) (some (number n)) = (
  some n,
  if Int.leb n p
      then "monotonic_clock_not_increasing" ∷ []
      else when (Int.ltb config.max_sample_age (n -ℤ p)) "sample_gap_too_large",
)
clock_flags config previous (some _) = (none, "monotonic_timestamp_invalid" ∷ [])

-- A rate of growth, as bytes over a positive time in nanoseconds.
pub record Growth : Type 0 where
  pub bytes : ℤ
  pub elapsed : ℤ

-- `max((previous - available) / elapsed, 0.0)`, where both samples have a size.
growth_within : ℤ → ℤ → ℤ → Option Growth × List String
growth_within previous available elapsed =
    if Int.leb elapsed (pos 0) then (none, "evaluation_clock_not_increasing" ∷ []) else (
      some (record {
        bytes = if Int.ltb (previous -ℤ available) (pos 0) then pos 0 else previous -ℤ available;
        elapsed = elapsed;
      }),
      [],
    )

unfoldable pub growth_of :
    (previous_available previous_timestamp : Option ℤ) → Option ℤ → ℤ → Option Growth × List String
unfolding growth_within
growth_of (some previous) (some before) (some available) now =
    growth_within previous available (now -ℤ before)
growth_of (some previous) none (some available) now = growth_within previous available (pos 0)
growth_of _ _ _ now = (none, [])

-- `previous_monotonic_ns` after a sample.
abbrev pub or_previous : Option ℤ → Option ℤ → Option ℤ
or_previous (some n) previous = some n
or_previous none previous = previous
