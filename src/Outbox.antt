-- ===== src/Outbox.antt =====
-- The durable notification outbox: src/guardian_notification_outbox.py. This file has the tables,
-- the settings, the transaction that every method runs in and the result of a method; the methods
-- are in the children.
pub mod Settings
pub mod Payload
pub mod Audit
pub mod Enqueue
pub mod Finish
pub mod Deliver
pub mod Requeue
pub mod Reading
pub mod Moves
pub mod Histories
pub mod Guarantees
use server_resource_guardian.Prelude.{
  ℕ, String, Bool, true, false, Option, none, some, List, [], join,
}
use server_resource_guardian.Prelude.Int.{ℤ}
use server_resource_guardian.Result.{Result, ok, err}
use server_resource_guardian.Value.{Value, null, text, object, Fields, end, lookup}
use server_resource_guardian.State.{Fault, sound, open_failed, statement_failed, audit_failed}

-- `_ACTIVE_STATUSES` and `_FINAL_STATUSES`: the four texts that the column `status` holds.
pub data Status : Type 0 where
  pending : Status
  in_flight : Status
  delivered : Status
  dead_letter : Status

abbrev pub status_text : Status → String
status_text pending = "PENDING"
status_text in_flight = "IN_FLIGHT"
status_text delivered = "DELIVERED"
status_text dead_letter = "DEAD_LETTER"

abbrev pub is_pending : Status → Bool
is_pending pending = true
is_pending _ = false

abbrev pub is_in_flight : Status → Bool
is_in_flight in_flight = true
is_in_flight _ = false

-- `status IN ('PENDING','IN_FLIGHT')`
abbrev pub is_active : Status → Bool
is_active pending = true
is_active in_flight = true
is_active _ = false

-- A row of `notification_outbox`. `payload_json` is the JSON value that the stored text encodes,
-- `none` where the text is not JSON.
pub record Notification : Type 0 where
  pub notification_id : String
  pub dedup_key : String
  pub event_id : String
  pub severity : String
  pub observed_monotonic_ns : ℤ
  pub payload_json : Option Value
  pub status : Status
  pub attempts : ℕ
  pub last_error : Option String
  pub created_at : ℤ
  pub updated_at : ℤ

-- A row of `notification_dedup_state`. `delivered_severities_json` has the texts that the stored
-- JSON yields, `none` where the stored text is not JSON that can be walked.
pub record DedupState : Type 0 where
  pub dedup_key : String
  pub last_observed_monotonic_ns : ℤ
  pub delivered_severities_json : Option (List String)

-- A row of `notification_audits`; the sequence number is the position.
pub record AuditRecord : Type 0 where
  pub notification_id : Option String
  pub dedup_key : Option String
  pub event_id : Option String
  pub severity : Option String
  pub status : String
  pub attempts : ℕ
  pub reason : Option String
  pub payload_digest : Option String
  pub action_authorization : String
  pub recorded_at : ℤ
  pub previous_digest : Option String
  pub record_digest : String

pub record Tables : Type 0 where
  pub notification_outbox : List Notification
  pub notification_dedup_state : List DedupState
  -- The instants of `notification_attempts`.
  pub notification_attempts : List ℤ
  pub notification_audits : List AuditRecord

-- `_initialize`, on a new database.
abbrev pub initial : Tables
initial = record {
  notification_outbox = [];
  notification_dedup_state = [];
  notification_attempts = [];
  notification_audits = [];
}

-- How the body of a transaction ends, before what it returns is handed on.
settle : {A : Type 0} → Result (A × Tables) → Tables → Result A × Tables
settle (ok (a, u)) t = (ok a, u)
settle (err e) t = (err e, t)

-- `_connect`, `BEGIN IMMEDIATE`, the body, and the handlers: a `NotificationOutboxError` of the body
-- is raised again, an error of the database is raised under the method's label, and both roll back.
unfoldable pub transaction :
    {A : Type 0} → Fault → String → (Tables → Result (A × Tables)) → Tables → Result A × Tables
unfolding settle
transaction (open_failed e) label body t = (err (join "outbox_open_failed:" e), t)
transaction (statement_failed e) label body t = (err (join label (join ":" e)), t)
transaction (audit_failed e) label body t = settle (body t) t
transaction sound label body t = settle (body t) t

-- What a method answers. The schema, `execution` and `action_authorization` are the same in all.
pub record OutboxResult : Type 0 where
  pub status : String
  pub outbox_status : Option Status
  pub notification_id : Value
  pub dedup_key : Value
  pub attempts : ℕ
  pub reason : Option String
  pub execution : String
  pub action_authorization : String

-- `payload.get(key)`, which is `None` on a missing key.
unfoldable pub get : String → Fields → Value
get key payload = elim (lookup key payload) [ none ↦ null | some value ↦ value ]

-- `_result`
unfoldable pub result : Fields → String → ℕ → Option String → Option Status → OutboxResult
unfolding get
result payload status attempts reason outbox_status = record {
  status = status;
  outbox_status = outbox_status;
  notification_id = get "notification_id" payload;
  dedup_key = get "dedup_key" payload;
  attempts = attempts;
  reason = reason;
  execution = "not_executed";
  action_authorization = "unchanged";
}

-- `_mapping`
abbrev pub mapping : Value → Fields
mapping (object fields) = fields
mapping _ = end

-- `value if isinstance(value, str) else None`
abbrev pub text_of : Value → Option String
text_of (text s) = some s
text_of _ = none
