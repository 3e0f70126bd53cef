-- ===== src/Outbox/Enqueue.antt =====
-- `enqueue` of src/guardian_notification_outbox.py: one payload is persisted before any delivery.
pub mod Moved
pub mod Outcomes
pub mod Queued
pub mod Sound
pub mod Answers
use server_resource_guardian.Prelude.{
  ℕ, String, Bool, true, false, ◌&&◌, Option, none, some, List, [], ◌∷◌, ◌++◌, ◌==◌, if◌then◌else◌,
  one_of, is_some, length,
}
use server_resource_guardian.Prelude.Int
use server_resource_guardian.Prelude.Int.{ℤ, pos}
use server_resource_guardian.Prelude.Text.{sorted_set}
use server_resource_guardian.Prelude.Tables.{find, update, select}
use server_resource_guardian.Result.{Result, ok, err, ◌>>=◌}
use server_resource_guardian.Value.{Value, number, text, object, Fields, end}
use server_resource_guardian.State.{Fault}
use server_resource_guardian.Outbox.{
  Status, pending, is_active, Notification, DedupState, Tables, OutboxResult, transaction, get,
  result, mapping,
}
use server_resource_guardian.Outbox.Settings.{Settings}
use server_resource_guardian.Outbox.Payload.{validate_payload}
use server_resource_guardian.Outbox.Audit.{append_audit, record_rejection}

-- What `enqueue` reads of an accepted payload.
pub record Incoming : Type 0 where
  pub notification_id : String
  pub dedup_key : String
  pub event_id : String
  pub severity : String
  pub observed : ℤ

-- `str(value)` on a text, and `int(value)` on an integer: the checks leave no other value.
abbrev text_in : Value → String
text_in (text s) = s
text_in _ = ""

abbrev number_in : Value → ℤ
number_in (number n) = n
number_in _ = pos 0

unfoldable pub incoming : Fields → Incoming
unfolding get
incoming payload = record {
  notification_id = text_in (get "notification_id" payload);
  dedup_key = text_in (get "dedup_key" payload);
  event_id = text_in (get "event_id" (mapping (get "source" payload)));
  severity = text_in (get "severity" payload);
  observed = number_in (get "observed_monotonic_ns" payload);
}

abbrev pub has_id : String → Notification → Bool
has_id notification_id r = r.notification_id == notification_id

abbrev pub has_event : String → Notification → Bool
has_event event_id r = r.event_id == event_id

-- `WHERE dedup_key=? AND severity=? AND status IN ('PENDING','IN_FLIGHT')`
abbrev pub is_same_alert : (dedup_key severity : String) → Notification → Bool
is_same_alert dedup_key severity r =
    r.dedup_key == dedup_key && r.severity == severity && is_active r.status

abbrev pub has_key : String → DedupState → Bool
has_key dedup_key d = d.dedup_key == dedup_key

-- `INSERT … ON CONFLICT(dedup_key) DO UPDATE`: a new row, or the changed old one.
unfoldable pub upsert : DedupState → (DedupState → DedupState) → List DedupState → List DedupState
unfolding find update
upsert row change rows =
    if is_some (find (has_key row.dedup_key) rows)
    then update (has_key row.dedup_key) change rows
    else rows ++ row ∷ []

-- `last_observed or observed`: zero counts as missing.
abbrev or_observed : Option ℤ → ℤ → ℤ
or_observed none observed = observed
or_observed (some last) observed = if Int.eqb last (pos 0) then observed else last

abbrev pub max : ℤ → ℤ → ℤ
max a b = if Int.ltb a b then b else a

-- `last_observed is not None and observed < last_observed`
abbrev is_behind : ℤ → Option ℤ → Bool
is_behind observed none = false
is_behind observed (some last) = Int.ltb observed last

module _ (sha256 : String → String) (settings : Settings) (fault : Fault) (timestamp : ℤ)
    (payload : Fields) where
  -- An audit record, the commit, and the result.
  pub answer :
      (status label : String)
      → ℕ
      → Option String
      → Option Status
      → Tables
      → Result (OutboxResult × Tables)
  answer status label attempts reason outbox_status t = do
    u ← append_audit sha256 fault payload label attempts reason timestamp t
    ok (result payload status 0 reason outbox_status, u)

  suppress : String → Option Status → ℕ → Tables → Result (OutboxResult × Tables)
  unfolding answer
  suppress reason outbox_status attempts t =
      answer "duplicate_suppressed" "DUPLICATE_SUPPRESSED" attempts (some reason) outbox_status t

  refuse : String → Tables → Result (OutboxResult × Tables)
  unfolding answer
  refuse reason t = answer "rejected" "REJECTED" 0 (some reason) none t

  -- The row that is inserted, and the row of the dedup key.
  unfoldable pub queued_row : Incoming → Notification
  queued_row new = record {
    notification_id = new.notification_id;
    dedup_key = new.dedup_key;
    event_id = new.event_id;
    severity = new.severity;
    observed_monotonic_ns = new.observed;
    payload_json = some (object payload);
    status = pending;
    attempts = 0;
    last_error = none;
    created_at = timestamp;
    updated_at = timestamp;
  }

  pub insert_row : Incoming → Option ℤ → List String → Tables → Result (OutboxResult × Tables)
  unfolding answer queued_row upsert
  insert_row new last_observed delivered t =
      let last = max (or_observed last_observed new.observed) new.observed in
      answer "queued" "ENQUEUED" 0 none (some pending) (record t {
        notification_outbox = t.notification_outbox ++ queued_row new ∷ [];
        notification_dedup_state =
            upsert
              (record {
                dedup_key = new.dedup_key;
                last_observed_monotonic_ns = last;
                delivered_severities_json = some (sorted_set delivered);
              })
              (λ d. record d { last_observed_monotonic_ns = last }) t.notification_dedup_state;
      })

  check_capacity : Incoming → Option ℤ → List String → Tables → Result (OutboxResult × Tables)
  unfolding refuse insert_row
  check_capacity new last_observed delivered t =
      let rest = insert_row new last_observed delivered t in
      let active = length (select (λ r. is_active r.status) t.notification_outbox) in
      if Int.leb settings.max_pending (pos active) then refuse "outbox_capacity_reached" t else rest

  check_active :
      Incoming
      → Option ℤ
      → List String
      → Tables
      → Option Notification
      → Result (OutboxResult × Tables)
  unfolding suppress check_capacity
  check_active new last_observed delivered t (some r) =
      suppress "severity_pending" (some r.status) r.attempts t
  check_active new last_observed delivered t none = check_capacity new last_observed delivered t

  check_order : Incoming → Option ℤ → List String → Tables → Result (OutboxResult × Tables)
  unfolding suppress refuse check_active
  check_order new last_observed delivered t =
      let rest =
        check_active new last_observed delivered t
          (find (is_same_alert new.dedup_key new.severity) t.notification_outbox) in
      if is_behind new.observed last_observed
      then refuse "out_of_order" t
      else if one_of new.severity delivered
      then suppress "severity_already_delivered" none 0 t
      else rest

  check_delivered : Incoming → ℤ → Option (List String) → Tables → Result (OutboxResult × Tables)
  unfolding check_order
  check_delivered new last_observed none t = err "dedup_state_corrupt"
  check_delivered new last_observed (some delivered) t =
      check_order new (some last_observed) delivered t

  check_state : Incoming → Tables → Option DedupState → Result (OutboxResult × Tables)
  unfolding check_order check_delivered
  check_state new t none = check_order new none [] t
  check_state new t (some d) =
      check_delivered new d.last_observed_monotonic_ns d.delivered_severities_json t

  check_event : Incoming → Tables → Option Notification → Result (OutboxResult × Tables)
  unfolding suppress check_state
  check_event new t (some r) = suppress "event_id_seen" (some r.status) r.attempts t
  check_event new t none =
      check_state new t (find (has_key new.dedup_key) t.notification_dedup_state)

  check_id : Incoming → Tables → Option Notification → Result (OutboxResult × Tables)
  unfolding suppress check_event
  check_id new t (some r) = suppress "notification_id_seen" (some r.status) r.attempts t
  check_id new t none = check_event new t (find (has_event new.event_id) t.notification_outbox)

  -- The transaction of `enqueue`.
  unfoldable pub enqueue_body : Incoming → Tables → Result (OutboxResult × Tables)
  unfolding check_id
  enqueue_body new t = check_id new t (find (has_id new.notification_id) t.notification_outbox)

  enqueue_checked : Result (Option String) → Tables → Result OutboxResult × Tables
  unfolding enqueue_body
  enqueue_checked (err e) t = (err e, t)
  enqueue_checked (ok (some reason)) t = record_rejection sha256 fault timestamp payload reason t
  enqueue_checked (ok none) t =
      transaction fault "outbox_enqueue_failed" (enqueue_body (incoming payload)) t

-- `enqueue`, of a payload that a caller hands over at a monotonic instant.
unfoldable pub enqueue :
    (String → String)
    → Settings
    → Fault
    → (timestamp now_monotonic_ns : ℤ) → Value
    → Tables
    → Result OutboxResult × Tables
unfolding enqueue_checked
enqueue sha256 settings fault timestamp now (object payload) t =
    enqueue_checked sha256 settings fault timestamp payload (validate_payload settings now payload)
      t
enqueue sha256 settings fault timestamp now _ t =
    record_rejection sha256 fault timestamp end "payload_mapping_required" t
