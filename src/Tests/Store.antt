-- ===== src/Tests/Store.antt =====
-- Tests for src/guardian_state.py.
use server_resource_guardian.Prelude.{
  ◌≡◌, refl, Bool, true, false, none, some, String, List, [], ◌∷◌, arith,
}
use server_resource_guardian.Prelude
use server_resource_guardian.Prelude.Int.{pos}
use server_resource_guardian.Prelude.Text.{decimal, comma_separated}
use server_resource_guardian.Prelude.Tables.{find, update, select}
use server_resource_guardian.Result.{ok}
use server_resource_guardian.Value.{object, end}
use server_resource_guardian.Value.Json.{dumps}
use server_resource_guardian.Actions.{Authorization}
use server_resource_guardian.State.{
  Tables, initial, sound, Intent, transaction, audit, json, CapabilityDecision,
}
use server_resource_guardian.State.Capabilities.{register_capability, consume_capability}
use server_resource_guardian.State.Capabilities.Consumption.{
  IsConsumable, IsConsumed, consume_capability-allowed,
}
use server_resource_guardian.State.Intents.{
  claim_intent, mark_execution_started, record_result, key_text,
}
use server_resource_guardian.State.Intents.{final_state}
use server_resource_guardian.State.Reconcile.{reconcile_pending, in_flight, held}
use server_resource_guardian.State.History.{
  Call, register, claim, start, result, reconcile, perform, run,
}
use server_resource_guardian.State.History.Exclusive.{IsExclusive, run-IsExclusive}
use server_resource_guardian.State.History.SingleUse.{consume_once}
use server_resource_guardian.State.History.Finality.{IsFinished, run-IsFinished}
use server_resource_guardian.State.History.Trail.{Extends, run-Extends}

abbrev approval : Authorization
approval = record {
  approval_id = "approval-1";
  environment = "local-disposable";
  target_id = "0123456789ab";
  action = "graceful_stop";
  expires_at = pos 100;
}

-- A digest for the tests: the text itself.
abbrev digest : String → String
digest text = text

abbrev registered : Tables
registered = (register_capability sound approval initial).1

abbrev granted : CapabilityDecision
granted = record { allowed = true; reason = "capability_consumed" }

consume_is_granted :
    (consume_capability sound approval "event-1" (pos 50) registered).0 ≡ ok granted
unfolding consume_capability register_capability transaction audit json dumps find update decimal
    comma_separated Prelude.join
consume_is_granted = refl

-- A second claim for the target while the first is active, a crash, and a result.
abbrev script : List Call
script =
    register sound approval
    ∷ claim sound "intent-1" "host" "0123456789ab" "graceful_stop" "event-1" (object end) (pos 50)
    ∷ claim sound "intent-2" "host" "0123456789ab" "graceful_stop" "event-2" (object end) (pos 51)
    ∷ start sound "intent-1" (pos 52)
    ∷ reconcile sound (pos 60)
    ∷ result sound "intent-1" end false true (pos 61)
    ∷ []

run-IsExclusive_example : IsExclusive (run digest script initial)
run-IsExclusive_example = run-IsExclusive digest script initial tt

-- The one intent that the script leaves.
abbrev failed_intent : Intent
failed_intent = record {
  intent_id = "intent-1";
  idempotency_key = "host\00123456789ab\0graceful_stop\0event-1";
  host_id = "host";
  object_id = "0123456789ab";
  action = "graceful_stop";
  event_id = "event-1";
  state = "FAILED";
  created_at = pos 50;
  updated_at = pos 61;
  result_json = some "{}";
}

script_intents : (run digest script initial).intents ≡ failed_intent ∷ []
unfolding run perform register_capability claim_intent mark_execution_started record_result
    reconcile_pending in_flight held transaction audit json dumps find update select key_text
    final_state decimal comma_separated Prelude.join
script_intents = refl

abbrev finished : Tables
finished = record initial { intents = failed_intent ∷ [] }

run-IsFinished_example : IsFinished failed_intent (run digest script finished)
unfolding find
run-IsFinished_example = run-IsFinished digest failed_intent script finished (tt, tt) (refl, refl)

run-Extends_example : Extends finished.audit_records (run digest script finished)
run-Extends_example = run-Extends digest script finished (tt, tt)

consume_capability-allowed_example :
    IsConsumable approval (pos 50) registered
    × IsConsumed "approval-1" (consume_capability sound approval "event-1" (pos 50) registered).1
consume_capability-allowed_example =
    consume_capability-allowed sound approval "event-1" (pos 50) registered granted
      consume_is_granted refl

abbrev used : Tables
used = (consume_capability sound approval "event-1" (pos 50) registered).1

abbrev refused : CapabilityDecision
refused = record { allowed = false; reason = "capability_already_consumed" }

second_is_refused :
    (consume_capability sound approval "event-2"
      (pos 60)
      (run digest (register sound approval ∷ reconcile sound (pos 55) ∷ []) used)).0
    ≡ ok refused
unfolding consume_capability register_capability run perform reconcile_pending in_flight held
    transaction audit json dumps find update select decimal comma_separated Prelude.join
second_is_refused = refl

consume_once_example : refused.allowed ≡ false
unfolding register_capability transaction find
consume_once_example =
    consume_once digest sound sound approval approval "event-1" "event-2" (pos 50) (pos 60)
      (register sound approval ∷ reconcile sound (pos 55) ∷ []) registered granted refused tt
      consume_is_granted refl refl second_is_refused
