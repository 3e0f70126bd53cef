-- ===== src/State/Intents.antt =====
-- Intents of src/guardian_state.py: claiming, starting, recording the result, reading.
-- The digest (`hashlib.sha256(…).hexdigest()`) and the new id (`uuid.uuid4()`) are arguments.
pub mod Sound
use server_resource_guardian.Prelude.{
  String, Bool, true, false, not, ◌&&◌, Option, none, some, List, [], ◌∷◌, ◌++◌, ◌==◌,
  if◌then◌else◌, one_of, is_some, join,
}
use server_resource_guardian.Prelude.Int.{ℤ}
use server_resource_guardian.Prelude.Tables.{find, update}
use server_resource_guardian.Result.{Result, ok, err, ◌>>=◌}
use server_resource_guardian.Value.{Value, text, boolean, object, Fields, field, end}
use server_resource_guardian.Value.Json.{dumps}
use server_resource_guardian.State.{
  IntentClaim, Intent, Tables, Fault, open_failed, statement_failed, Outcome, commit, rollback,
  raise, transaction, json, audit, then_commit, active_intent_states, final_intent_states,
}

-- `"\x00".join((host_id, object_id, action, event_id))`
unfoldable pub key_text : String → String → String → String → String
key_text host_id object_id action event_id =
    join host_id (join "\0" (join object_id (join "\0" (join action (join "\0" event_id)))))

abbrev pub is_active : String → Bool
is_active state = one_of state active_intent_states

abbrev pub is_final : String → Bool
is_final state = one_of state final_intent_states

-- The `WHERE` conditions on intents.
abbrev pub has_key : String → Intent → Bool
has_key key i = i.idempotency_key == key

abbrev pub has_id : String → Intent → Bool
has_id intent_id i = i.intent_id == intent_id

abbrev pub is_active_on : String → String → String → Intent → Bool
is_active_on host_id object_id action i =
    i.host_id == host_id && i.object_id == object_id && i.action == action && is_active i.state

abbrev claim_of : Bool → String → String → String → String → IntentClaim
claim_of claimed intent_id key state reason = record {
  claimed = claimed;
  intent_id = intent_id;
  idempotency_key = key;
  state = state;
  reason = reason;
}

-- The insertion, with the two uniqueness constraints of the table. (The key was looked up before.)
intent_write : Fault → Intent → Value → ℤ → Tables → Result Tables
intent_write fault i audit_payload now t =
    audit fault (some i.intent_id) "intent_recorded" audit_payload now
      (record t { intents = t.intents ++ i ∷ [] })

insert_intent : Fault → Intent → Value → ℤ → Tables → Outcome IntentClaim
unfolding intent_write
insert_intent fault i audit_payload now t =
    if is_some (find (has_id i.intent_id) t.intents)
    then raise "intent_claim_failed:UNIQUE constraint failed: intents.intent_id"
    else then_commit
        (claim_of true i.intent_id i.idempotency_key "INTENT_RECORDED" "intent_claimed")
        (intent_write fault i audit_payload now t)

claim_unless :
    Fault → Intent → Value → ℤ → Tables → Option Intent → Option Intent → Outcome IntentClaim
unfolding insert_intent
claim_unless fault i audit_payload now t (some existing) active =
    rollback (
      claim_of false existing.intent_id i.idempotency_key existing.state "idempotent_intent_reused")
claim_unless fault i audit_payload now t none (some active) =
    rollback (claim_of false active.intent_id i.idempotency_key active.state "active_intent_exists")
claim_unless fault i audit_payload now t none none = insert_intent fault i audit_payload now t

abbrev pub new_intent :
    (sha256 : String → String) (intent_id host_id object_id action event_id : String) → ℤ → Intent
new_intent sha256 intent_id host_id object_id action event_id now = record {
  intent_id = intent_id;
  idempotency_key = sha256 (key_text host_id object_id action event_id);
  host_id = host_id;
  object_id = object_id;
  action = action;
  event_id = event_id;
  state = "INTENT_RECORDED";
  created_at = now;
  updated_at = now;
  result_json = none;
}

claim_body : Fault → Intent → Value → ℤ → Tables → Outcome IntentClaim
unfolding claim_unless
claim_body fault i audit_payload now t =
    claim_unless fault i audit_payload now t (find (has_key i.idempotency_key) t.intents)
      (find (is_active_on i.host_id i.object_id i.action) t.intents)

unfoldable pub claim_intent :
    (sha256 : String → String)
    → Fault
    → (intent_id host_id object_id action event_id : String) → Value
    → ℤ
    → Tables
    → Result IntentClaim × Tables
unfolding claim_body
claim_intent sha256 fault intent_id host_id object_id action event_id audit_payload now t =
    transaction fault "intent_claim_failed"
      (claim_body fault (new_intent sha256 intent_id host_id object_id action event_id now)
        audit_payload now)
      t

-- `UPDATE intents SET … WHERE intent_id=?`
abbrev pub set_intent : String → (Intent → Intent) → Tables → Tables
set_intent intent_id f t = record t { intents = update (has_id intent_id) f t.intents }

abbrev pub set_state : String → ℤ → Intent → Intent
set_state state now i = record i { state = state; updated_at = now }

start_write : Fault → String → ℤ → Tables → Result Tables
start_write fault intent_id now t =
    audit fault (some intent_id) "execution_started" (object end) now (record t {
      intents =
          update (λ i. has_id intent_id i && i.state == "INTENT_RECORDED")
            (set_state "EXECUTION_STARTED" now) t.intents;
    })

start_body : Fault → String → ℤ → Tables → Option Intent → Outcome Bool
unfolding start_write
start_body fault intent_id now t none = raise "intent_not_found"
start_body fault intent_id now t (some row) =
    if not (row.state == "INTENT_RECORDED")
    then rollback false
    else then_commit true (start_write fault intent_id now t)

unfoldable pub mark_execution_started : Fault → String → ℤ → Tables → Result Bool × Tables
unfolding start_body
mark_execution_started fault intent_id now t =
    transaction fault "execution_start_failed"
      (λ u. start_body fault intent_id now u (find (has_id intent_id) u.intents)) t

unfoldable pub final_state : Bool → Bool → String
final_state success executed =
    if not executed then "PLANNED" else if success then "SUCCEEDED" else "FAILED"

abbrev pub set_result : String → String → ℤ → Intent → Intent
set_result state result_json now i = record i {
  state = state;
  updated_at = now;
  result_json = some result_json;
}

write_result : Fault → String → Fields → Bool → Bool → ℤ → Tables → Result Tables
unfolding final_state
write_result fault intent_id result success executed now t = do
  result_json ← json (object result)
  audit fault (some intent_id) "result_recorded"
      (object (
        field "result" (object result)
          (field "executed" (boolean executed) (field "success" (boolean success) end))))
      now (set_intent intent_id (set_result (final_state success executed) result_json now) t)

result_body : Fault → String → Fields → Bool → Bool → ℤ → Tables → Option Intent → Outcome String
unfolding write_result
result_body fault intent_id result success executed now t none = raise "intent_not_found"
result_body fault intent_id result success executed now t (some row) =
    if is_final row.state
    then rollback row.state
    else then_commit (final_state success executed)
        (write_result fault intent_id result success executed now t)

unfoldable pub record_result :
    Fault → String → Fields → (success executed : Bool) → ℤ → Tables → Result String × Tables
unfolding result_body
record_result fault intent_id result success executed now t =
    transaction fault "result_record_failed"
      (λ u.
        result_body fault intent_id result success executed now u
          (find (has_id intent_id) u.intents))
      t

-- A read outside a transaction.
unfoldable pub get_intent : Fault → String → Tables → Result (Option Intent)
get_intent (open_failed e) intent_id t = err (join "state_store_open_failed:" e)
get_intent (statement_failed e) intent_id t = err (join "intent_read_failed:" e)
get_intent _ intent_id t = ok (find (has_id intent_id) t.intents)
