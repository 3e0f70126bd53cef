-- ===== src/Tests/Notices.antt =====
-- Tests for src/guardian_notifications.py.
use server_resource_guardian.Prelude.{◌≡◌, refl, true, none, String}
use server_resource_guardian.Prelude.Int.{pos}
use server_resource_guardian.Prelude.Text.{size}
use server_resource_guardian.Result.{ok}
use server_resource_guardian.Value.{Value, number, text, object, Fields, end, field, lookup}
use server_resource_guardian.Outbox.Settings.{Settings}
use server_resource_guardian.Outbox.Payload.{validate_payload}
use server_resource_guardian.Notices.{string_in}
use server_resource_guardian.Notices.Building.{
  build_notification_event, build_from, observed_of, payload_of,
}
use server_resource_guardian.Notices.Checked.{is_taken, validate_payload-build_notification_event}

abbrev repr : Value → String
repr value = "value"

abbrev sha256 : String → String
sha256 s = "digest"

abbrev take : String → String
take s = s

abbrev settings : Settings
settings = record {
  max_attempts = pos 3;
  max_age_ns = pos 300;
  rate_limit_count = pos 10;
  rate_limit_window_ns = pos 60;
  max_pending = pos 1000;
  max_payload_bytes = pos 1048576;
}

-- An event with one critical resource; its instant is among its signals.
abbrev event : Fields
event = field "state" (text "critical") (
    field "event_id" (text "event-1") (
      field "observed_at" (text "2026-01-01T00:00:00Z") (
        field "signals" (object (field "observed_monotonic_ns" (number (pos 100)) end)) (
          field "resource_evaluations"
            (object (
              field "memory"
                (object (field "risk" (object (field "state" (text "critical") end)) end)) end))
            end))))

abbrev payload : Fields
payload =
    payload_of repr sha256 take event none "critical" "event-1" "2026-01-01T00:00:00Z" (pos 100)

is_built : build_notification_event repr sha256 take (object event) none ≡ ok payload
unfolding build_notification_event build_from observed_of string_in lookup size
is_built = refl

validate_payload-build_notification_event_example :
    is_taken (validate_payload settings (pos 150) payload) ≡ true
validate_payload-build_notification_event_example =
    validate_payload-build_notification_event repr sha256 take settings (object event) none
      (pos 150) payload (λ s. refl) is_built
