-- ===== src/Risk/Evaluation.antt =====
-- `CompositeRiskEvaluator.evaluate` of src/guardian_risk.py.
use server_resource_guardian.Prelude.{
  ℕ, ◌+◌, String, Bool, true, false, not, ◌&&◌, ◌==◌, Option, none, some, List, [], ◌∷◌, ◌++◌,
  if◌then◌else◌, ltb, one_of, is_some,
}
use server_resource_guardian.Prelude.Int
use server_resource_guardian.Prelude.Int.{ℤ, pos, ◌-ℤ◌}
use server_resource_guardian.Prelude.Text.{sorted_set}
use server_resource_guardian.Value.{Value, Fields, lookup}
use server_resource_guardian.Joint.{mapping_at}
use server_resource_guardian.Risk.{
  RiskConfig, Counters, CompositeRiskEvaluator, Growth, number_of, nested_number, counters_of,
  event_delta, has_events, when, quality_flags_of, clock_flags, growth_of, or_previous,
}
use server_resource_guardian.Risk.Signals.{Crossed, swap_of, crossed, candidate_of}

-- What one sample says, before the state of the evaluator decides.
pub record Reading : Type 0 where
  pub candidate : String
  pub quality_flags : List String
  pub reasons : List String
  pub signals : Crossed
  pub events : Option ℕ
  pub growth : Option Growth
  pub psi_some : Option ℤ
  pub psi_full : Option ℤ
  pub swap_ratio : Option ℤ
  -- What the evaluator remembers of the sample.
  pub available_bytes : Option ℤ
  pub observed_ns : Option ℤ
  pub counters : Counters

abbrev or_default : Option ℤ → ℤ → ℤ
or_default none value = value
or_default (some value) default = value

-- The optional thresholds of one call.
pub record Thresholds : Type 0 where
  pub warning_available : Option ℤ
  pub critical_available : Option ℤ

module _ (repr : Value → String) (config : RiskConfig) (thresholds : Thresholds) where
  -- The first part of `evaluate`: the sample against the state of the evaluator.
  unfoldable pub read : CompositeRiskEvaluator → Fields → ℤ → Reading
  unfolding mapping_at nested_number
  read e observation now =
      let warning = or_default thresholds.warning_available config.warning_available_percent in
      let critical = or_default thresholds.critical_available config.critical_available_percent in
      let memory = mapping_at "memory" observation in
      let events = mapping_at "memory_events" (mapping_at "cgroup" observation) in
      let ratio = number_of (lookup "available_ratio_percent" memory) in
      let available = number_of (lookup "available_bytes" memory) in
      let clock =
        clock_flags config e.previous_monotonic_ns (lookup "observed_monotonic_ns" observation) in
      let counters = counters_of events in
      let (delta, baseline, reset) = event_delta e.previous_events counters in
      let growth = growth_of e.previous_available e.previous_timestamp available now in
      let swap =
        swap_of (number_of (lookup "swap_total_bytes" memory))
          (number_of (lookup "swap_used_ratio_percent" memory)) in
      let psi = mapping_at "memory" (mapping_at "psi" observation) in
      let psi_some = nested_number psi "some" "avg10" in
      let psi_full = nested_number psi "full" "avg10" in
      let few = ltb (e.sample_count + 1) config.required_samples in
      let signals = crossed config critical warning ratio growth.0 psi_some psi_full swap.0 in
      record {
        candidate = candidate_of delta critical warning ratio signals;
        quality_flags =
            quality_flags_of repr (lookup "quality" observation)
            ++ when (not (is_some (lookup "oom" events) && is_some (lookup "oom_kill" events)))
                "oom_counters_missing"
            ++ when (not (is_some available)) "memory_available_missing"
            ++ clock.1
            ++ when reset "oom_counter_reset"
            ++ growth.1
            ++ swap.1
            ++ when (not (is_some psi_some && is_some psi_full)) "memory_psi_missing"
            ++ when (not (is_some ratio)) "memory_available_ratio_missing"
            ++ when few "insufficient_samples";
        reasons =
            when baseline "oom_counter_baseline_established"
            ++ when (has_events delta) "new_cgroup_memory_oom_event"
            ++ signals.reasons
            ++ when few "insufficient_samples";
        signals = signals;
        events = delta;
        growth = growth.0;
        psi_some = psi_some;
        psi_full = psi_full;
        swap_ratio = swap.0;
        available_bytes = available;
        observed_ns = clock.0;
        counters = counters;
      }

-- `candidate_level` and `candidate_since` after a sample.
abbrev pub or_now : Option ℤ → ℤ → ℤ
or_now none now = now
or_now (some since) now = since

unfoldable pub since_of : CompositeRiskEvaluator → String → ℤ → ℤ
since_of e candidate now =
    if candidate == e.candidate_level then or_now e.candidate_since now else now

abbrev pub no_flags : List String → Bool
no_flags [] = true
no_flags (_ ∷ _) = false

-- `max(timestamp - since, 0.0)`
unfoldable pub held_for : ℤ → ℤ → ℤ
held_for since now = if Int.ltb (now -ℤ since) (pos 0) then pos 0 else now -ℤ since

unfoldable pub required_for : RiskConfig → String → ℤ
required_for config candidate =
    if candidate == "critical" then config.critical_for else config.warning_for

abbrev pub is_alert : String → Bool
is_alert state = one_of state ("warning" ∷ "critical" ∷ [])

-- The state that is reported.
unfoldable pub state_of : RiskConfig → (last_emitted candidate : String) → List String → ℤ → String
unfolding required_for
state_of config last_emitted candidate flags held =
    if not (no_flags flags)
    then "degraded_observability"
    else if candidate == "normal"
    then (if is_alert last_emitted then "recovered" else "normal")
    else if Int.leb (required_for config candidate) held
    then candidate
    else "normal"

unfoldable pub emitted : (last_emitted state : String) → String
emitted last_emitted state =
    if state == "recovered" then "normal" else if is_alert state then state else last_emitted

pub record RiskResult : Type 0 where
  pub state : String
  pub candidate_state : String
  pub candidate_for_seconds : ℤ
  pub required_for_seconds : ℤ
  pub reasons : List String
  pub quality_flags : List String
  pub sample_count : ℕ
  pub oom_events_delta : Option ℕ
  pub growth : Option Growth
  pub quality_status : String
  pub signals : Crossed
  pub psi_memory_some_avg10 : Option ℤ
  pub psi_memory_full_avg10 : Option ℤ
  pub swap_used_ratio_percent : Option ℤ

module _ (round3 : ℤ → ℤ) (config : RiskConfig) where
  -- The second part of `evaluate`: what the sample makes of the state.
  unfoldable pub decide : CompositeRiskEvaluator → ℤ → Reading → RiskResult × CompositeRiskEvaluator
  decide e now r =
      let since = since_of e r.candidate now in
      let held = held_for since now in
      let state = state_of config e.last_emitted r.candidate r.quality_flags held in
      (
        record {
          state = state;
          candidate_state = r.candidate;
          candidate_for_seconds = round3 held;
          required_for_seconds =
              if no_flags r.quality_flags && not (r.candidate == "normal")
              then required_for config r.candidate
              else pos 0;
          reasons = r.reasons;
          quality_flags = sorted_set r.quality_flags;
          sample_count = e.sample_count + 1;
          oom_events_delta = r.events;
          growth = r.growth;
          quality_status = if no_flags r.quality_flags then "ok" else "degraded";
          signals = r.signals;
          psi_memory_some_avg10 = r.psi_some;
          psi_memory_full_avg10 = r.psi_full;
          swap_used_ratio_percent = r.swap_ratio;
        },
        record {
          candidate_level = r.candidate;
          candidate_since = some since;
          last_emitted = emitted e.last_emitted state;
          previous_available = r.available_bytes;
          previous_events = some r.counters;
          previous_monotonic_ns = or_previous r.observed_ns e.previous_monotonic_ns;
          previous_timestamp = some now;
          sample_count = e.sample_count + 1;
        },
      )

-- `evaluate`, at the instant `now`.
unfoldable pub evaluate :
    (repr : Value → String) (round3 : ℤ → ℤ)
    → RiskConfig
    → Thresholds
    → CompositeRiskEvaluator
    → Fields
    → ℤ
    → RiskResult × CompositeRiskEvaluator
evaluate repr round3 config thresholds e observation now =
    decide round3 config e now (read repr config thresholds e observation now)
