-- ===== src/Tests/Joint.antt =====
-- Tests for src/guardian_multirisk.py.
use server_resource_guardian.Prelude.{◌≡◌, refl, String, false, none, List, [], ◌∷◌}
use server_resource_guardian.Prelude.Text.{sorted_set}
use server_resource_guardian.Prelude.Tables.{find}
use server_resource_guardian.Value.{Fields, text, object, field, end, lookup, truth}
use server_resource_guardian.Controller.{str}
use server_resource_guardian.Controller.Reading.{equals}
use server_resource_guardian.Joint.{
  scan, risk_state, target_id, mapping_at, quality_flags, targets, add_kind,
}
use server_resource_guardian.Joint.Decision.{build_joint_decision, event_state}

-- A critical resource whose target is said to be confirmed.
abbrev evaluation : Fields → Fields
evaluation target = field "risk" (object (field "state" (text "critical") end)) (
    field "attribution"
      (object (field "state" (text "TARGET_CONFIRMED") (field "target" (object target) end))) end)

abbrev named : Fields
named = field "id" (text "0123456789ab") end

abbrev agreeing : List (String × Fields)
agreeing = ("memory", evaluation named) ∷ ("cpu", evaluation named) ∷ []

-- A single resource whose confirmed target has no identity is planned for too.
plans_without_identity :
    (build_joint_decision
      (λ _. "")
      (("memory", evaluation end) ∷ [])
      "enforce"
      "graceful_stop"
      false
      ("graceful_stop" ∷ [])).decision.action
    ≡ "graceful_stop"
unfolding build_joint_decision scan risk_state target_id mapping_at quality_flags targets add_kind
    lookup truth equals sorted_set find event_state str
plans_without_identity = refl

no_target :
    (build_joint_decision
      (λ _. "")
      (("memory", evaluation end) ∷ [])
      "enforce"
      "graceful_stop"
      false
      ("graceful_stop" ∷ [])).target
    ≡ none
unfolding build_joint_decision scan risk_state target_id mapping_at quality_flags targets add_kind
    lookup truth equals sorted_set find event_state str
no_target = refl
