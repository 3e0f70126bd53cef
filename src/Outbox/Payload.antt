-- ===== src/Outbox/Payload.antt =====
-- The checks on a payload in src/guardian_notification_outbox.py: `_validate_payload`.
pub mod Checked
use Prim.Native.String.{len}
use server_resource_guardian.Prelude.{
  String, Bool, true, false, not, ◌||◌, Option, none, some, List, [], ◌∷◌, ◌==◌, if◌then◌else◌,
  one_of,
}
use server_resource_guardian.Prelude.Int
use server_resource_guardian.Prelude.Int.{ℤ, pos, ◌-ℤ◌}
use server_resource_guardian.Result.{Result, ok, err}
use server_resource_guardian.Value.{Value, boolean, number, text, array, object, Fields}
use server_resource_guardian.Value.Json.{dumps}
use server_resource_guardian.Outbox.{get, mapping}
use server_resource_guardian.Outbox.Settings.{Settings}

-- `NOTIFIABLE_STATES`
abbrev pub notifiable_states : List String
notifiable_states = "warning" ∷ "critical" ∷ "recovered" ∷ "escalated" ∷ []

-- `isinstance(value, str) and value`
abbrev pub is_named : Value → Bool
is_named (text s) = not (s == "")
is_named _ = false

abbrev pub is_text : String → Value → Bool
is_text literal (text s) = s == literal
is_text literal _ = false

-- `value is False`
abbrev pub is_false : Value → Bool
is_false (boolean false) = true
is_false _ = false

-- The checks that follow those on the time.
check_rest : Settings → Fields → Option String
check_rest settings payload =
    let source = mapping (get "source" payload) in
    let action_context = mapping (get "action_context" payload) in
    let security = mapping (get "security" payload) in
    if not (is_named (get "event_id" source))
    then some "payload_invalid"
    else if not (is_text "not_executed" (get "execution" action_context))
        || not (is_text "unchanged" (get "authorization" action_context))
    then some "action_boundary_invalid"
    else if not (is_false (get "credentials_included" security))
        || not (is_false (get "raw_signals_included" security))
        || not (is_false (get "action_authorization_changed" security))
    then some "security_boundary_invalid"
    else if Int.ltb settings.max_payload_bytes (pos (len (dumps (object payload))))
    then some "payload_too_large"
    else none

check_time : Settings → ℤ → Fields → Value → Option String
unfolding check_rest
check_time settings now payload (number observed) =
    if Int.leb observed (pos 0)
    then some "timestamp_invalid"
    else if Int.ltb now observed
    then some "clock_invalid"
    else if Int.ltb settings.max_age_ns (now -ℤ observed)
    then some "expired"
    else check_rest settings payload
check_time settings now payload _ = some "timestamp_invalid"

-- The membership test in a frozen set raises on a value that has no hash.
check_severity : Settings → ℤ → Fields → Value → Result (Option String)
unfolding check_time
check_severity settings now payload (text severity) = ok (
    if one_of severity notifiable_states
    then check_time settings now payload (get "observed_monotonic_ns" payload)
    else some "payload_invalid")
check_severity settings now payload (array _) = err "TypeError"
check_severity settings now payload (object _) = err "TypeError"
check_severity settings now payload _ = ok (some "payload_invalid")

-- `_validate_payload`: the reason to refuse the payload, if there is one.
unfoldable pub validate_payload : Settings → ℤ → Fields → Result (Option String)
unfolding check_severity
validate_payload settings now payload =
    let severity = check_severity settings now payload (get "severity" payload) in
    if not (is_text "guardian.notification.v1" (get "schema" payload))
    then ok (some "schema_invalid")
    else if not (is_named (get "notification_id" payload))
        || not (is_named (get "dedup_key" payload))
    then ok (some "payload_invalid")
    else severity
