-- ===== src/Outbox/Enqueue/Sound.antt =====
-- `enqueue` of src/guardian_notification_outbox.py on a database that answers: it returns for every
-- payload but one whose severity has no hash.
use server_resource_guardian.Prelude.{
  ◌≡◌, ◌⊎◌, inl, inr, refl, ap, String, true, Option, none, some, List, [], All, ℕ, if-cases,
  one_of, is_some, length,
}
use server_resource_guardian.Prelude.Int
use server_resource_guardian.Prelude.Int.{ℤ, pos}
use server_resource_guardian.Prelude.Tables.{find, select}
use server_resource_guardian.Prelude.Tables.Pairs.{find-All}
use server_resource_guardian.Result.{Result, ok, err}
use server_resource_guardian.Value.{Value, null, boolean, number, text, array, object, Fields, end}
use server_resource_guardian.State.{sound}
use server_resource_guardian.Outbox.{
  Status, is_active, Notification, DedupState, Tables, OutboxResult, transaction, settle, get,
  result,
}
use server_resource_guardian.Outbox.Settings.{Settings}
use server_resource_guardian.Outbox.Payload.{validate_payload}
use server_resource_guardian.Outbox.Payload.Checked.{IsContainer, validate_payload-err}
use server_resource_guardian.Outbox.Audit.{record_rejection}
use server_resource_guardian.Outbox.Audit.Facts.{append_audit_sound}
use server_resource_guardian.Outbox.Finish.Answers.{IsKnown}
use server_resource_guardian.Outbox.Enqueue.{
  Incoming, incoming, answer, suppress, refuse, insert_row, check_capacity, check_active,
  check_order, check_delivered, check_state, check_event, check_id, enqueue_body, enqueue_checked,
  enqueue, is_same_alert, has_key, has_event, has_id, is_behind,
}

-- A step that gives a value.
abbrev Answers : {A : Type 0} → Result A → Type 0
Answers {A} m = (a : A) × (m ≡ ok a)

-- A call that returns.
abbrev pub Returns : Result OutboxResult × Tables → Type 0
Returns m = (a : OutboxResult) × (u : Tables) × (m ≡ (ok a, u))

settle_answers :
    (m : Result (OutboxResult × Tables)) (t : Tables) → Answers m → Returns (settle m t)
unfolding settle
settle_answers (ok (a, u)) t h = (a, u, refl)
settle_answers (err e) t h = cc (h.1)

module _ (sha256 : String → String) (settings : Settings) (timestamp : ℤ) (payload : Fields) where
  answer_sound :
      (status label : String) (attempts : ℕ) (reason : Option String)
      (outbox_status : Option Status) (t : Tables)
      → Answers (
          answer sha256 settings sound timestamp payload status label attempts reason outbox_status
            t)
  unfolding answer
  answer_sound status label attempts reason outbox_status t =
      let (u, appended, _) = append_audit_sound sha256 payload label attempts reason timestamp t in
      ((result payload status 0 reason outbox_status, u), rw appended refl)

  insert_row_sound :
      (new : Incoming) (last : Option ℤ) (severities : List String) (t : Tables)
      → Answers (insert_row sha256 settings sound timestamp payload new last severities t)
  unfolding insert_row
  insert_row_sound new last severities t = answer_sound _ _ _ _ _ _

  check_capacity_sound :
      (new : Incoming) (last : Option ℤ) (severities : List String) (t : Tables)
      → Answers (check_capacity sha256 settings sound timestamp payload new last severities t)
  unfolding check_capacity refuse
  check_capacity_sound new last severities t =
      if-cases (λ (m : Result (OutboxResult × Tables)). Answers m)
        (Int.leb settings.max_pending
          (pos (length (select (λ r. is_active r.status) t.notification_outbox))))
        _ _ (λ _. answer_sound _ _ _ _ _ t) (λ _. insert_row_sound new last severities t)

  check_active_sound :
      (new : Incoming) (last : Option ℤ) (severities : List String) (t : Tables)
      (o : Option Notification)
      → Answers (check_active sha256 settings sound timestamp payload new last severities t o)
  unfolding check_active suppress
  check_active_sound new last severities t (some r) = answer_sound _ _ _ _ _ t
  check_active_sound new last severities t none = check_capacity_sound new last severities t

  check_order_sound :
      (new : Incoming) (last : Option ℤ) (severities : List String) (t : Tables)
      → Answers (check_order sha256 settings sound timestamp payload new last severities t)
  unfolding check_order refuse suppress
  check_order_sound new last severities t =
      if-cases (λ (m : Result (OutboxResult × Tables)). Answers m) (is_behind new.observed last) _ _
        (λ _. answer_sound _ _ _ _ _ t)
        (λ _.
          if-cases (λ (m : Result (OutboxResult × Tables)). Answers m)
            (one_of new.severity severities) _ _ (λ _. answer_sound _ _ _ _ _ t)
            (λ _.
              check_active_sound new last severities t
                (find (is_same_alert new.dedup_key new.severity) t.notification_outbox)))

  check_delivered_sound :
      (new : Incoming) (last : ℤ) (o : Option (List String)) (t : Tables)
      → is_some o ≡ true
      → Answers (check_delivered sha256 settings sound timestamp payload new last o t)
  unfolding check_delivered
  check_delivered_sound new last none t h = cc h
  check_delivered_sound new last (some severities) t h =
      check_order_sound new (some last) severities t

  check_state_sound :
      (new : Incoming) (t : Tables) (o : Option DedupState)
      → ((d : DedupState) → o ≡ some d → IsKnown d)
      → Answers (check_state sha256 settings sound timestamp payload new t o)
  unfolding check_state
  check_state_sound new t none h = check_order_sound new none [] t
  check_state_sound new t (some d) h =
      check_delivered_sound new d.last_observed_monotonic_ns d.delivered_severities_json t
        (h d refl)

  module _ (new : Incoming) (t : Tables) (known : All IsKnown t.notification_dedup_state) where
    check_event_sound :
        (o : Option Notification)
        → Answers (check_event sha256 settings sound timestamp payload new t o)
    unfolding check_event suppress
    check_event_sound (some r) = answer_sound _ _ _ _ _ t
    check_event_sound none =
        check_state_sound new t (find (has_key new.dedup_key) t.notification_dedup_state)
          (λ d e. find-All IsKnown (has_key new.dedup_key) t.notification_dedup_state d known e)

    check_id_sound :
        (o : Option Notification)
        → Answers (check_id sha256 settings sound timestamp payload new t o)
    unfolding check_id suppress
    check_id_sound (some r) = answer_sound _ _ _ _ _ t
    check_id_sound none = check_event_sound (find (has_event new.event_id) t.notification_outbox)

  rejection_sound :
      (reason : String) (t : Tables)
      → Returns (record_rejection sha256 sound timestamp payload reason t)
  unfolding record_rejection transaction
  rejection_sound reason t =
      let (u, appended, _) =
        append_audit_sound sha256 payload "REJECTED" 0 (some reason) timestamp t in
      settle_answers _ t ((result payload "rejected" 0 (some reason) none, u), rw appended refl)

  enqueue_checked_sound :
      (now : ℤ) (o : Result (Option String)) (t : Tables)
      → All IsKnown t.notification_dedup_state
      → validate_payload settings now payload ≡ o
      → Returns (enqueue_checked sha256 settings sound timestamp payload o t)
        ⊎ (IsContainer (get "severity" payload)
            × (enqueue_checked sha256 settings sound timestamp payload o t ≡ (err "TypeError", t)))
  unfolding enqueue_checked transaction enqueue_body
  enqueue_checked_sound now (err e) t known valid =
      let (container, raised) = validate_payload-err settings now payload e valid in
      inr (container, ap (λ x. (err x, t)) raised)
  enqueue_checked_sound now (ok (some reason)) t known valid = inl (rejection_sound reason t)
  enqueue_checked_sound now (ok none) t known valid = inl (
      settle_answers _ t (
        check_id_sound (incoming payload) t known
          (find (has_id (incoming payload).notification_id) t.notification_outbox)))

-- The payload is a mapping whose severity is a list or a mapping.
abbrev pub IsUnhashable : Value → Type 0
IsUnhashable payload =
    (fields : Fields) × (payload ≡ object fields) × IsContainer (get "severity" fields)

module _ (sha256 : String → String) (settings : Settings) (timestamp now : ℤ) (t : Tables) where
  pub enqueue_sound :
      (payload : Value)
      → All IsKnown t.notification_dedup_state
      → Returns (enqueue sha256 settings sound timestamp now payload t)
        ⊎ (IsUnhashable payload
            × (enqueue sha256 settings sound timestamp now payload t ≡ (err "TypeError", t)))
  unfolding enqueue
  enqueue_sound (object fields) known =
      elim (enqueue_checked_sound sha256 settings timestamp fields now _ t known refl) [
        | inl returned ↦ inl returned
        | inr (container, raised) ↦ inr ((fields, refl, container), raised)
      ]
  enqueue_sound null known = inl (rejection_sound sha256 settings timestamp end _ t)
  enqueue_sound (boolean b) known = inl (rejection_sound sha256 settings timestamp end _ t)
  enqueue_sound (number n) known = inl (rejection_sound sha256 settings timestamp end _ t)
  enqueue_sound (text s) known = inl (rejection_sound sha256 settings timestamp end _ t)
  enqueue_sound (array items) known = inl (rejection_sound sha256 settings timestamp end _ t)
