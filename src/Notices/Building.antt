-- ===== src/Notices/Building.antt =====
-- The notification built from an event: `build_notification_event` of src/guardian_notifications.py,
-- and `enqueue_event` of src/guardian_notification_outbox.py.
use server_resource_guardian.Prelude.{
  String, false, Option, none, some, List, [], ◌∷◌, ◌==◌, join, if◌then◌else◌, one_of, is_some, map,
}
use server_resource_guardian.Prelude.Int.{ℤ}
use server_resource_guardian.Prelude.Text.{decimal, comma_separated, sorted_set}
use server_resource_guardian.Prelude.Tables.Order.{order_by}
use server_resource_guardian.Result.{Result, ok, err, ◌>>=◌, require}
use server_resource_guardian.Value.{
  Value, null, boolean, number, text, array, object, Fields, end, field, lookup,
}
use server_resource_guardian.Controller.{str}
use server_resource_guardian.Outbox.Deliver.{text_before}
use server_resource_guardian.State.{Fault}
use server_resource_guardian.Outbox.{Tables, OutboxResult}
use server_resource_guardian.Outbox.Settings.{Settings}
use server_resource_guardian.Outbox.Enqueue.{enqueue}
use server_resource_guardian.Outbox.Payload.{notifiable_states}
use server_resource_guardian.Shedding.{fields_in, or_else}
use server_resource_guardian.Shedding.Identity.{positive_in}
use server_resource_guardian.Notices.{
  string_in, required, or_text, safe_strings, all_texts, colon_separated, or_host, items_of_texts,
  fields_of_texts, truthy, is_list, items_in,
}

-- `str` of a value, the digest, and the first 16 characters of one.
module _ (repr : Value → String) (sha256 take : String → String) where
  abbrev state_text : Option Value → String
  state_text none = "unknown"
  state_text (some value) = str repr value

  states_from : Fields → List (String × String)
  states_from end = []
  states_from (field kind (object raw) rest) =
      (
        kind,
        state_text (
            or_else (truthy (lookup "state" (fields_in (lookup "risk" raw))))
              (truthy (lookup "state" raw))),
      )
      ∷ states_from rest
  states_from (field kind _ rest) = states_from rest

  -- `_resource_states`
  unfoldable pub resource_states : Fields → List (String × String)
  unfolding states_from
  resource_states source =
      order_by (λ a b. text_before a.0 b.0)
        (states_from (fields_in (lookup "resource_evaluations" source)))

  -- `_hash_ref`
  abbrev hash_ref : String → String
  hash_ref s = take (sha256 s)

  active_kinds : List (String × String) → List String
  active_kinds [] = []
  active_kinds (entry ∷ rest) =
      let more = active_kinds rest in
      if one_of entry.1 ("warning" ∷ "critical" ∷ "critical_confirmed" ∷ [])
      then entry.0 ∷ more
      else more

  unfoldable pub active_resources_of : Fields → Fields → List (String × String) → List String
  unfolding active_kinds all_texts
  active_resources_of joint decision states =
      let listed =
        or_else (truthy (lookup "active_resources" joint)) (lookup "active_resources" decision) in
      sorted_set (if is_list listed then all_texts (items_in listed) else active_kinds states)

  abbrev target_of : Fields → Fields → Fields
  target_of end other = other
  target_of (field key value rest) other = field key value rest

  unfoldable pub target_id_of : Fields → Fields → Fields → Option String
  target_id_of target decision joint =
      or_else (string_in (lookup "id" target))
        (or_else (string_in (lookup "target_id" decision)) (string_in (lookup "target_id" joint)))

  module _ (source : Fields) (incident_key : Option String) where
    abbrev decision : Fields
    decision = fields_in (lookup "decision" source)

    abbrev joint : Fields
    joint = fields_in (lookup "joint_evaluation" source)

    unfoldable pub target_id : Option String
    target_id =
        target_id_of
          (target_of (fields_in (lookup "target" (fields_in (lookup "target_attribution" source))))
            (fields_in (lookup "target" joint)))
          decision joint

    abbrev incident_given : Option String
    incident_given = elim incident_key [ none ↦ none | some s ↦ if s == "" then none else some s ]

    unfoldable pub dedup_key : String
    unfolding colon_separated
    dedup_key =
        let states = resource_states source in
        let active = active_resources_of joint decision states in
        let incident =
          or_text (or_else incident_given target_id) (or_host (colon_separated active)) in
        let host = or_text (string_in (lookup "host_id" source)) "unknown-host" in
        join "notification:" (
          sha256 (
            join "guardian.notification.v1|" (
              join (hash_ref host) (
                join "|" (
                  join (hash_ref incident) (
                    join "|"
                      (or_host (comma_separated (map (λ (s : String × String). s.0) states)))))))))

    abbrev text_or_null : Option String → Value
    text_or_null none = null
    text_or_null (some s) = text s

    abbrev ref_of : Option String → Value
    ref_of none = null
    ref_of (some s) = text (hash_ref s)

    -- The payload of an event whose required entries are given.
    unfoldable pub payload_of : (state event_id observed_at : String) → ℤ → Fields
    payload_of state event_id observed_at observed =
        let states = resource_states source in
        field "schema" (text "guardian.notification.v1") (
          field "notification_id"
            (text (sha256 (join dedup_key (join "|" (join state (join "|" (decimal observed)))))))
            (field "dedup_key" (text dedup_key) (
              field "severity" (text state) (
                field "observed_at" (text observed_at) (
                  field "observed_monotonic_ns" (number observed) (
                    field "host_ref"
                      (text
                        (hash_ref (or_text (string_in (lookup "host_id" source)) "unknown-host")))
                      (field "resources" (object (fields_of_texts states)) (
                        field "active_resources"
                          (array (items_of_texts (active_resources_of joint decision states)))
                          (field "target"
                            (object (
                              field "state"
                                (text (
                                  or_text
                                    (or_else (string_in (lookup "target_state" decision))
                                      (string_in (lookup "target_state" joint)))
                                    "NO_TARGET"))
                                (field "ref" (ref_of target_id)
                                  (field "present" (boolean (is_some target_id)) end))))
                            (field "reason_codes"
                              (array (
                                items_of_texts
                                  (sorted_set (safe_strings (lookup "reason_codes" decision)))))
                              (field "quality_flags"
                                (array (
                                  items_of_texts
                                    (sorted_set (safe_strings (lookup "quality_flags" decision)))))
                                (field "action_context"
                                  (object (
                                    field "mode"
                                      (text
                                        (or_text (string_in (lookup "mode" decision)) "observe"))
                                      (field "planned_action"
                                        (text
                                          (or_text (string_in (lookup "action" decision)) "none"))
                                        (field "execution" (text "not_executed")
                                          (field "authorization" (text "unchanged") end)))))
                                  (field "source"
                                    (object (
                                      field "event_id" (text event_id) (
                                        field "config_digest"
                                          (text_or_null (
                                            string_in (
                                              lookup "config_digest"
                                                (fields_in (lookup "evidence" source)))))
                                          end)))
                                    (field "security"
                                      (object (
                                        field "credentials_included" (boolean false) (
                                          field "raw_signals_included" (boolean false) (
                                            field "action_authorization_changed" (boolean false)
                                              end))))
                                      end))))))))))))))

    unfoldable pub observed_of : Option ℤ → Result ℤ
    observed_of none = err "observed_monotonic_ns_required"
    observed_of (some n) = ok n

    unfoldable pub build_from : Result Fields
    unfolding observed_of
    build_from = do
      state ← required "state" (string_in (lookup "state" source))
      _ ← require (one_of state notifiable_states) "state_not_notifiable"
      event_id ← required "event_id" (string_in (lookup "event_id" source))
      observed_at ← required "observed_at" (string_in (lookup "observed_at" source))
      observed ← observed_of (
          or_else (positive_in (lookup "observed_monotonic_ns" source))
            (positive_in (lookup "observed_monotonic_ns" (fields_in (lookup "signals" source)))))
      ok (payload_of state event_id observed_at observed)

  -- `build_notification_event`
  unfoldable pub build_notification_event : Value → Option String → Result Fields
  unfolding build_from
  build_notification_event (object source) incident_key = build_from source incident_key
  build_notification_event _ incident_key = err "source_event_mapping_required"

-- `enqueue_event`: the payload is built, or the call raises before the store is touched.
abbrev enqueue_built :
    (sha256 : String → String)
    → Settings
    → Fault
    → (timestamp now_monotonic_ns : ℤ) → Result Fields
    → Tables
    → Result OutboxResult × Tables
enqueue_built sha256 settings fault timestamp now (err reason) t = (err reason, t)
enqueue_built sha256 settings fault timestamp now (ok payload) t =
    enqueue sha256 settings fault timestamp now (object payload) t

unfoldable pub enqueue_event :
    (repr : Value → String)
    → (sha256 take : String → String) → Settings
    → Fault
    → (timestamp now_monotonic_ns : ℤ) → (source : Value) → (incident_key : Option String) → Tables
    → Result OutboxResult × Tables
enqueue_event repr sha256 take settings fault timestamp now source incident_key t =
    enqueue_built sha256 settings fault timestamp now
      (build_notification_event repr sha256 take source incident_key) t
