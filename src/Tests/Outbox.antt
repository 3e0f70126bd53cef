-- ===== src/Tests/Outbox.antt =====
-- Tests for src/guardian_notification_outbox.py.
use server_resource_guardian.Prelude
use server_resource_guardian.Prelude.{
  ℕ, ◌≡◌, ◌*◌, refl, Bool, true, false, none, some, String, List, [], ◌∷◌, arith, length,
}
use server_resource_guardian.Prelude.Int
use server_resource_guardian.Prelude.Int.{ℤ, pos}
use server_resource_guardian.Prelude.Text.{decimal, comma_separated, sorted_set, insert}
use server_resource_guardian.Prelude.Tables.{find, update, select, delete}
use server_resource_guardian.Prelude.Tables.Order.{order_by, insert_by}
use server_resource_guardian.Prelude.Tables.Pairs.{Pairwise}
use server_resource_guardian.Result.{ok, err}
use server_resource_guardian.Value.{
  Value, array, nil, boolean, number, text, object, Fields, end, field, lookup,
}
use server_resource_guardian.Value.Json.{dumps}
use server_resource_guardian.State.{sound, open_failed}
use server_resource_guardian.Outbox.{
  Notification, Tables, OutboxResult, initial, transaction, result, get, status_text,
}
use server_resource_guardian.Outbox.Settings.{Settings, bounded_int, duration_to_ns, make_settings}
use server_resource_guardian.Outbox.Payload.{validate_payload}
use server_resource_guardian.Outbox.Audit.{
  append_audit, sealed, last_digest, digest, body, verify_audit,
}
use server_resource_guardian.Outbox.Enqueue.{enqueue, enqueue_body, incoming, upsert}
use server_resource_guardian.Outbox.Enqueue.Answers.{IsReturned, enqueue-IsReturned}
use server_resource_guardian.Outbox.Enqueue.Queued.{IsRowOf}
use server_resource_guardian.Outbox.Finish.{
  mark_final, allow_attempt, note_delivered, deliver_severity,
}
use server_resource_guardian.Outbox.Deliver.{
  unavailable, Turn, Machine, claim_one, claimable, created_before, drain_pending, drain,
  deliver_row, attempt, gate, backoff,
}
use server_resource_guardian.Outbox.Deliver.Counting.{waiting}
use server_resource_guardian.Outbox.Deliver.Drained.{IsSound}
use server_resource_guardian.Outbox.Deliver.Sends.{IsBounded}
use server_resource_guardian.Outbox.Reading.{get_notification}
use server_resource_guardian.Outbox.Histories.{
  History, created, enqueued, drained, died_claiming, History-verify_audit, History-IsApart,
}
use server_resource_guardian.Outbox.Guarantees.{
  IsRecovered, restart_settles, get_notification-enqueue, drain_pending_sends,
}
use server_resource_guardian.Outbox.Moves.Rows.{IsApart}

-- A digest that forgets nothing.
abbrev same_text : String → String
same_text s = s

abbrev settings : Settings
settings = record {
  max_attempts = pos 3;
  max_age_ns = pos 300;
  rate_limit_count = pos 10;
  rate_limit_window_ns = pos 60;
  max_pending = pos 1000;
  max_payload_bytes = pos 1048576;
}

settings_are_made :
    make_settings
      (number (pos 3))
      (number (pos 300))
      (number (pos 10))
      (number (pos 60))
      (number (pos 1000))
      (number (pos 1048576))
    ≡ ok settings
unfolding make_settings bounded_int duration_to_ns
settings_are_made = refl

abbrev alert : String → Fields
alert severity = field "schema" (text "guardian.notification.v1") (
    field "notification_id" (text "n-1") (
      field "dedup_key" (text "key-1") (
        field "severity" (text severity) (
          field "observed_monotonic_ns" (number (pos 100)) (
            field "source" (object (field "event_id" (text "event-1") end)) (
              field "action_context"
                (object (
                  field "execution" (text "not_executed")
                    (field "authorization" (text "unchanged") end)))
                (field "security"
                  (object (
                    field "credentials_included" (boolean false) (
                      field "raw_signals_included" (boolean false)
                        (field "action_authorization_changed" (boolean false) end))))
                  end)))))))

abbrev queued : Tables
queued = (enqueue same_text settings sound (pos 7) (pos 110) (object (alert "warning")) initial).1

abbrev is_queued : OutboxResult
is_queued = record {
  status = "queued";
  outbox_status = some server_resource_guardian.Outbox.pending;
  notification_id = text "n-1";
  dedup_key = text "key-1";
  attempts = 0;
  reason = none;
  execution = "not_executed";
  action_authorization = "unchanged";
}

alert-queued :
    enqueue same_text settings sound (pos 7) (pos 110) (object (alert "warning")) initial
    ≡ (ok is_queued, queued)
unfolding enqueue enqueue_body validate_payload append_audit transaction result get lookup dumps
    find update select upsert incoming decimal comma_separated sorted_set digest body sealed
    last_digest Int.◌-ℤ◌ Prelude.join
alert-queued = refl

has_id_one : get "notification_id" (alert "warning") ≡ text "n-1"
unfolding get lookup
has_id_one = refl

enqueue-IsReturned_example :
    IsReturned same_text settings sound
      (pos 7)
      (pos 110)
      (object (alert "warning"))
      initial
      is_queued
      queued
enqueue-IsReturned_example =
    enqueue-IsReturned same_text settings sound (pos 7) (pos 110) (object (alert "warning")) initial
      queued is_queued alert-queued

get_notification-enqueue_example :
    (row : Notification) × IsRowOf (alert "warning") (pos 7) row
    × (get_notification sound "JSONDecodeError" "n-1" queued
        ≡ ok (some (row, object (alert "warning"))))
get_notification-enqueue_example =
    get_notification-enqueue same_text settings sound (pos 7) (pos 110) "JSONDecodeError" "n-1"
      (alert "warning") initial queued is_queued has_id_one alert-queued refl

enqueue_cannot_open :
    enqueue same_text settings
      (open_failed "locked")
      (pos 8)
      (pos 110)
      (object (alert "warning"))
      queued
    ≡ (err "outbox_open_failed:locked", queued)
unfolding enqueue validate_payload transaction get lookup Int.◌-ℤ◌ Prelude.join dumps decimal
    comma_separated
enqueue_cannot_open = refl

-- A sink that is down, on a database that answers.
abbrev down : ℕ → Turn
down i = record {
  claim_fault = sound;
  claimed_at = pos 8;
  gate_fault = sound;
  final_fault = sound;
  finished_at = pos 9;
  sink = λ n payload. unavailable;
}

down-IsSound : (i : ℕ) → IsSound (down i)
down-IsSound i = record { claim = refl; gate = refl; final = refl }

abbrev machine : Tables → Machine
machine t = record { tables = t; sent = []; slept = [] }

abbrev drained_machine : Machine
drained_machine =
    (drain_pending same_text settings (pos 120) (number (pos 2)) down (machine queued)).1

-- A queued alert, a drain against a sink that is down, and a process that dies while it claims.
abbrev tables_seen : Tables
tables_seen = (claim_one same_text sound (pos 10) drained_machine.tables).1

history : History same_text tables_seen
history = died_claiming sound (pos 10) (
    drained settings (pos 120) (number (pos 2)) down
      (enqueued settings sound (pos 7) (pos 110) (object (alert "warning")) created))

History-verify_audit_example : (verify_audit same_text tables_seen).0 ≡ true
History-verify_audit_example = History-verify_audit same_text history

-- A payload whose severity is a list.
abbrev listed_severity : Value
listed_severity = object (
    field "schema" (text "guardian.notification.v1") (
      field "notification_id" (text "n-2")
        (field "dedup_key" (text "key-2") (field "severity" (array nil) end))))

listed_severity_raises :
    enqueue same_text settings sound (pos 7) (pos 110) listed_severity queued
    ≡ (err "TypeError", queued)
unfolding enqueue validate_payload get lookup
listed_severity_raises = refl

History-IsApart_example : Pairwise IsApart tables_seen.notification_outbox
History-IsApart_example = History-IsApart same_text history

-- The process dies after the claim: the row is in flight.
abbrev interrupted : Tables
interrupted = (claim_one same_text sound (pos 8) queued).1

interrupted-History : History same_text interrupted
interrupted-History =
    died_claiming sound (pos 8)
      (enqueued settings sound (pos 7) (pos 110) (object (alert "warning")) created)

nothing_waits : waiting interrupted.notification_outbox ≡ 0
unfolding waiting claim_one claimable order_by insert_by created_before enqueue enqueue_body
    validate_payload append_audit transaction result get lookup dumps find update select upsert
    incoming decimal comma_separated sorted_set digest body sealed last_digest Int.◌-ℤ◌ Prelude.join
nothing_waits = refl

restart_settles_example : IsRecovered same_text settings interrupted (pos 20) (pos 120) 1 down
restart_settles_example =
    restart_settles same_text settings interrupted (pos 20) (pos 120) 1 down interrupted-History
      down-IsSound (omega arith) (omega arith) (omega (arith, nothing_waits))

drain_pending_sends_example : IsBounded (2 * 5) (machine queued) drained_machine
drain_pending_sends_example =
    drain_pending_sends same_text (number (pos 3)) (number (pos 300)) (number (pos 10))
      (number (pos 60)) (number (pos 1000)) (number (pos 1048576)) settings (pos 120) 2 down
      (machine queued) settings_are_made

-- Three attempts against a sink that is down, with two pauses, and a dead letter.
three_attempts : drained_machine.slept ≡ 250 ∷ 500 ∷ []
unfolding drain_pending drain deliver_row attempt gate backoff allow_attempt mark_final
    note_delivered deliver_severity bounded_int delete claim_one claimable order_by insert_by
    created_before enqueue enqueue_body validate_payload append_audit transaction result get lookup
    dumps find update select upsert incoming decimal comma_separated sorted_set digest body sealed
    last_digest Int.◌-ℤ◌ Prelude.join
three_attempts = refl

-- After a recovery and a new warning of the same dedup key, a second recovery counts as delivered.
second_recovery_is_known :
    deliver_severity "warning" (deliver_severity "recovered" ("warning" ∷ []))
    ≡ "recovered" ∷ "warning" ∷ []
unfolding deliver_severity sorted_set insert
second_recovery_is_known = refl
