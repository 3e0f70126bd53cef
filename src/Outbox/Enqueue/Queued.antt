-- ===== src/Outbox/Enqueue/Queued.antt =====
-- The row that `enqueue` of src/guardian_notification_outbox.py inserts, read off the payload.
use server_resource_guardian.Prelude.{◌≡◌, refl, sym, ap, ◌∙◌, String, none, some}
use server_resource_guardian.Prelude.Int.{ℤ}
use server_resource_guardian.Result.{ok}
use server_resource_guardian.Value.{Value, number, text, object, Fields}
use server_resource_guardian.State.{Fault}
use server_resource_guardian.Outbox.{pending, Notification, get, mapping}
use server_resource_guardian.Outbox.Settings.{Settings}
use server_resource_guardian.Outbox.Payload.{validate_payload}
use server_resource_guardian.Outbox.Payload.Checked.{validate_payload-IsTyped}
use server_resource_guardian.Outbox.Enqueue.{incoming, queued_row, text_in, number_in}

-- The row carries the ids, the severity and the instant of the payload, and the payload itself; it is
-- PENDING, without attempts and without an error, and has the time of the call.
pub record IsRowOf (payload : Fields) (timestamp : ℤ) (row : Notification) : Type 0 where
  pub notification_id : get "notification_id" payload ≡ text row.notification_id
  pub dedup_key : get "dedup_key" payload ≡ text row.dedup_key
  pub event_id : get "event_id" (mapping (get "source" payload)) ≡ text row.event_id
  pub severity : get "severity" payload ≡ text row.severity
  pub observed : get "observed_monotonic_ns" payload ≡ number row.observed_monotonic_ns
  pub payload_json : row.payload_json ≡ some (object payload)
  pub status : row.status ≡ pending
  pub attempts : row.attempts ≡ 0
  pub last_error : row.last_error ≡ none
  pub created_at : row.created_at ≡ timestamp
  pub updated_at : row.updated_at ≡ timestamp

text_read : (v : Value) (s : String) → v ≡ text s → v ≡ text (text_in v)
text_read v s e = e ∙ ap (λ w. text (text_in w)) (sym e)

number_read : (v : Value) (n : ℤ) → v ≡ number n → v ≡ number (number_in v)
number_read v n e = e ∙ ap (λ w. number (number_in w)) (sym e)

pub queued_row-IsRowOf :
    (sha256 : String → String) (settings : Settings) (fault : Fault) (timestamp now : ℤ)
    (payload : Fields)
    → validate_payload settings now payload ≡ ok none
    → IsRowOf payload timestamp
        (queued_row sha256 settings fault timestamp payload (incoming payload))
unfolding queued_row incoming
queued_row-IsRowOf sha256 settings fault timestamp now payload valid =
    let typed = validate_payload-IsTyped settings now payload valid in
    record {
      notification_id = text_read _ typed.notification_id.0 typed.notification_id.1;
      dedup_key = text_read _ typed.dedup_key.0 typed.dedup_key.1;
      event_id = text_read _ typed.event_id.0 typed.event_id.1;
      severity = text_read _ typed.severity.0 typed.severity.1;
      observed = number_read _ typed.observed.0 typed.observed.1;
      payload_json = refl;
      status = refl;
      attempts = refl;
      last_error = refl;
      created_at = refl;
      updated_at = refl;
    }
