-- ===== src/Tests/Controller.antt =====
-- Tests for src/guardian_controller.py.
use server_resource_guardian.Prelude
use server_resource_guardian.Prelude.{◌≡◌, ◌≢◌, refl, Bool, true, false, none, some, [], ◌∷◌}
use server_resource_guardian.Prelude.Int.{ℤ, pos}
use server_resource_guardian.Prelude.Tables.{find, update}
use server_resource_guardian.Prelude.Text.{decimal, comma_separated, sorted_set, size, every}
use server_resource_guardian.Value.{
  Fields, text, object, field, end, array, cons, nil, boolean, lookup, truth,
}
use server_resource_guardian.Value.Json.{dumps}
use server_resource_guardian.Actions.{
  Authorization, ActionRequest, Execution, finished, validate_request, is_container_id,
  allowed_actions,
}
use server_resource_guardian.Recovery.Ledger.{empty}
use server_resource_guardian.State.{initial, sound, transaction, json, audit}
use server_resource_guardian.State.Capabilities.{register_capability, consume_capability}
use server_resource_guardian.State.Intents.{
  claim_intent, mark_execution_started, key_text, record_result,
}
use server_resource_guardian.State.Cooldowns.{failure_breaker, allow_action, record_action}
use server_resource_guardian.State.History
use server_resource_guardian.Controller.{Call, Environment, Faults, World, event_id_of, host_id_of}
use server_resource_guardian.Controller.Reading.{
  read_event, equals, decision_of, is_actionable, target_of, action_of,
}
use server_resource_guardian.Controller.Gates.{pass_gates, make_request}
use server_resource_guardian.Controller.Grant.{grant}
use server_resource_guardian.Controller.Execute.{execute}
use server_resource_guardian.Controller.Assessment.{assess, assess_layers}
use server_resource_guardian.Controller.Conclusion.{conclude, is_success}
use server_resource_guardian.Controller.Enforce.{enforce}
use server_resource_guardian.Controller.Enforce.Calls.{Called, IsDue, enforce-Called}
use server_resource_guardian.Controller.Enforce.Once.{enforce_once}

abbrev approval : Authorization
approval = record {
  approval_id = "approval-1";
  environment = "local-disposable";
  target_id = "0123456789ab";
  action = "graceful_stop";
  expires_at = pos 100;
}

abbrev event : Fields
event = field "event_id" (text "event-1") (
    field "state" (text "critical") (
      field "decision"
        (object (
          field "mode" (text "enforce")
            (field "action" (text "graceful_stop") (field "protected" (boolean false) end))))
        (field "object_candidates"
          (array (
            cons (object (field "kind" (text "container") (field "id" (text "0123456789ab") end)))
              nil))
          end)))

abbrev call : Call
call = record {
  event = object event;
  authorization = some approval;
  allowed = "graceful_stop" ∷ [];
  now = pos 50;
  recovery_observation = none;
  recovery_policy = none;
  recovery_probe = none;
  host_recovery_observation = none;
  host_recovery_policy = none;
  business_recovery_observation = none;
  business_recovery_policy = none;
  cooldown_seconds = pos 30;
  max_actions = pos 1;
  window_seconds = pos 300;
  max_consecutive_failures = pos 2;
}

abbrev faults : Faults
faults = record {
  at_breaker = sound;
  at_cooldown = sound;
  at_register = sound;
  at_consume = sound;
  at_claim = sound;
  at_start = sound;
  at_denial = sound;
  at_result = sound;
  at_record = sound;
  at_reread = sound;
}

-- An executor that succeeds.
abbrev succeeds : ActionRequest → ℤ → Execution
succeeds q now = finished (record {
  executed = true;
  action = q.action;
  target_id = q.target_id;
  returncode = some (pos 0);
  stdout = "";
  stderr = "";
  reason = "authorized_runtime_call";
})

abbrev environment : Bool → Environment
environment durable = record {
  durable = durable;
  execute = succeeds;
  sha256 = λ text. text;
  new_id = "intent-1";
  faults = faults;
  repr = λ _. "";
  int_text = λ _. none;
}

abbrev world : World
world = record { ledger = empty; tables = initial; requests = [] }

abbrev due : ActionRequest
due = record {
  event_id = "event-1";
  target_id = "0123456789ab";
  action = "graceful_stop";
  protected = false;
  allowed_actions = "graceful_stop" ∷ [];
  authorization = some approval;
  timeout_seconds = pos 30;
}

enforce-Called_example : Called (IsDue call) [] (enforce (environment true) call world).1
enforce-Called_example = enforce-Called (environment true) call world

-- The executor is called, with a store.
calls_once : (enforce (environment true) call world).1.requests ≡ due ∷ []
unfolding enforce read_event equals decision_of is_actionable target_of action_of event_id_of
    host_id_of pass_gates make_request grant execute assess assess_layers conclude lookup truth
    allowed_actions sorted_set validate_request is_container_id size every failure_breaker
    allow_action transaction register_capability consume_capability claim_intent
    mark_execution_started find update json audit dumps key_text decimal comma_separated
    Prelude.join record_result is_success record_action
calls_once = refl

called : (enforce (environment true) call world).1.requests ≢ []
called h = cc (calls_once, h)

-- A later call with the same approval, on the world that the first one leaves.
enforce_once_example :
    (enforce (environment true) call (record (enforce (environment true) call world).1 {
      tables = History.run (λ text. text) [] (enforce (environment true) call world).1.tables;
    })).1.requests
    ≡ (enforce (environment true) call world).1.requests
enforce_once_example =
    enforce_once (environment true) (environment true) call call world approval approval [] refl
      refl refl refl refl tt called
