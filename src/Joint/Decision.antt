-- ===== src/Joint/Decision.antt =====
-- `build_joint_decision` of src/guardian_multirisk.py.
pub mod Boundary
use server_resource_guardian.Prelude.{
  ℕ, String, Bool, true, false, not, ◌||◌, ◌&&◌, Option, none, some, List, [], ◌∷◌, ◌++◌, ◌==◌,
  if◌then◌else◌, one_of, length, ltb, leb, map,
}
use server_resource_guardian.Prelude.Text.{sorted_set}
use server_resource_guardian.Prelude.Tables.{find}
use server_resource_guardian.Value.{Value, Fields, lookup}
use server_resource_guardian.Joint.{Scan, scan, Targets, targets, severity}

pub record Decision : Type 0 where
  pub mode : String
  pub resource_kind : String
  pub action : String
  pub execution : String
  pub reason_codes : List String
  pub target_state : String
  pub target_id : Option Value
  pub active_resources : List String
  pub quality_flags : List String

pub record JointDecision : Type 0 where
  pub state : String
  pub active_resources : List String
  pub target_state : String
  pub target : Option Fields
  pub targets_by_resource : List (String × Fields)
  pub attribution_states : List (String × String)
  pub quality_flags : List String
  pub decision : Decision

-- `max(states, key=…)`: the first of the most severe states.
most_severe : String → List String → String
most_severe best [] = best
most_severe best (s ∷ ss) = most_severe (if ltb (severity best) (severity s) then s else best) ss

unfoldable pub event_state : List String → Bool → Bool → String
unfolding most_severe
event_state [] degraded recovered =
    if degraded then "degraded_observability" else if recovered then "recovered" else "normal"
event_state (s ∷ ss) degraded recovered = if degraded then "escalated" else most_severe s ss

-- The state of the target, and the reason.
abbrev Verdict : Type 0
Verdict = String × String

found_state : Option (String × String) → String
found_state none = "NO_TARGET"
found_state (some (_, state)) = state

unconfirmed_state : Scan → Targets → List String → Verdict
unfolding found_state
unconfirmed_state s ts [] = ("TARGET_CONFIRMED", "multi_resource_target_confirmed")
unconfirmed_state s ts (kind ∷ kinds) =
    if ltb 1 (length s.active) || ltb 0 (length ts.confirmed)
    then ("MULTI_RESOURCE_AMBIGUOUS", "multi_resource_ambiguous")
    else (
      found_state (find (λ e. e.0 == kind) ts.attribution_states),
      "target_attribution_not_confirmed",
    )

pub target_verdict : Scan → Targets → Verdict
unfolding unconfirmed_state
target_verdict s ts =
    if leb (length s.active) 0
    then ("NO_TARGET", "no_active_resource_risk")
    else if s.degraded
    then ("DEGRADED_OBSERVABILITY", "multi_resource_observability_degraded")
    else if ltb 1 (length ts.confirmed)
    then ("MULTI_RESOURCE_AMBIGUOUS", "multi_resource_ambiguous")
    else unconfirmed_state s ts ts.unconfirmed

resource_target : Targets → List String → Option Fields
resource_target ts [] = none
resource_target ts (kind ∷ _) = found (find (λ e. e.0 == kind) ts.by_resource)
  where
    found : Option (String × Fields) → Option Fields
    found none = none
    found (some (_, target)) = some target

first_target : Targets → List (String × List String) → Option Fields
unfolding resource_target
first_target ts [] = none
first_target ts ((_, kinds) ∷ _) = resource_target ts kinds

-- The target of the first confirmed resource, where there is one target for all.
joint_target : Targets → Verdict → Option Fields
unfolding first_target
joint_target ts verdict =
    if verdict.0 == "TARGET_CONFIRMED" && verdict.1 == "multi_resource_target_confirmed"
    then first_target ts ts.confirmed
    else none

execution_of : String → String
execution_of mode =
    if mode == "observe"
    then "not_applicable"
    else if mode == "simulate"
    then "not_executed"
    else "pending_controller"

-- The action and one more reason, if any.
abbrev Plan : Type 0
Plan = String × List String

pub plan_confirmed : String → String → Bool → List String → Plan
plan_confirmed mode simulate_action protected allowed_actions =
    if protected
    then ("escalate", "protected_object" ∷ [])
    else if not (one_of simulate_action allowed_actions)
    then ("escalate", "action_not_allowlisted" ∷ [])
    else (
      simulate_action,
      (if mode == "simulate"
            then "multi_resource_simulate_only"
            else "multi_resource_enforce_requires_controller")
          ∷ [],
    )

pub plan_of : String → String → Bool → List String → Scan → Verdict → Plan
unfolding plan_confirmed
plan_of mode simulate_action protected allowed_actions s verdict =
    if one_of mode ("simulate" ∷ "enforce" ∷ []) && ltb 0 (length s.active)
    then if not (verdict.0 == "TARGET_CONFIRMED")
      then ("escalate", [])
      else plan_confirmed mode simulate_action protected allowed_actions
    else if mode == "observe"
    then ("none", "observe_only" ∷ [])
    else ("none", [])

target_value : Option Fields → Option Value
target_value none = none
target_value (some target) = lookup "id" target

pub conclude : String → Scan → Targets → Verdict → Option Fields → Plan → JointDecision
unfolding execution_of target_value
conclude mode s ts verdict target plan =
    let kinds = map (λ (e : String × Fields). e.0) s.active in
    record {
      state = event_state s.states s.degraded s.recovered;
      active_resources = kinds;
      target_state = verdict.0;
      target = target;
      targets_by_resource = ts.by_resource;
      attribution_states = ts.attribution_states;
      quality_flags = sorted_set s.flags;
      decision = record {
        mode = mode;
        resource_kind = "multi_resource";
        action = plan.0;
        execution = execution_of mode;
        reason_codes = sorted_set (verdict.1 ∷ plan.1);
        target_state = verdict.0;
        target_id = target_value target;
        active_resources = kinds;
        quality_flags = sorted_set s.flags;
      };
    }

pub decide : String → String → Bool → List String → Scan → Targets → JointDecision
unfolding conclude joint_target
decide mode simulate_action protected allowed_actions s ts =
    let verdict = target_verdict s ts in
    conclude mode s ts verdict (joint_target ts verdict)
      (plan_of mode simulate_action protected allowed_actions s verdict)

-- The evaluations are a mapping by the kind of resource, in its order.
unfoldable pub build_joint_decision :
    (repr : Value → String)
    → List (String × Fields)
    → (mode simulate_action : String) → (protected : Bool) → (allowed_actions : List String)
    → JointDecision
unfolding decide target_verdict plan_of
build_joint_decision repr evaluations mode simulate_action protected allowed_actions =
    let s = scan repr evaluations in
    decide mode simulate_action protected allowed_actions s (targets repr s.active)
