-- ===== src/Outbox/Enqueue/Outcomes.antt =====
-- How the transaction of `enqueue` in src/guardian_notification_outbox.py can end: the payload is
-- turned away with an audit record, or every check has passed and the row is inserted.
use server_resource_guardian.Prelude.{
  ℕ, String, false, ◌≡◌, refl, Option, none, some, List, [], ◌==◌, ◌⊎◌, inl, inr, one_of, length,
  Bool-cases, ap, ◌∙◌,
}
use server_resource_guardian.Prelude.Int
use server_resource_guardian.Prelude.Int.{ℤ, pos}
use server_resource_guardian.Prelude.Tables.{find, select}
use server_resource_guardian.Result.{ok}
use server_resource_guardian.Value.{Fields}
use server_resource_guardian.State.{Fault}
use server_resource_guardian.Outbox.{
  Status, is_active, Notification, DedupState, Tables, OutboxResult,
}
use server_resource_guardian.Outbox.Settings.{Settings}
use server_resource_guardian.Outbox.Enqueue.{
  Incoming, has_id, has_event, has_key, is_same_alert, is_behind, answer, suppress, refuse,
  insert_row, check_capacity, check_active, check_order, check_delivered, check_state, check_event,
  check_id, enqueue_body,
}

-- What is known of a dedup key: the last instant, and the delivered severities where the stored text
-- can be read.
abbrev pub last_of : Option DedupState → Option ℤ
last_of none = none
last_of (some d) = some d.last_observed_monotonic_ns

abbrev pub severities_of : Option DedupState → Option (List String)
severities_of none = some []
severities_of (some d) = d.delivered_severities_json

-- What must hold of the table for a payload to be queued.
pub record IsAdmissible (settings : Settings) (new : Incoming) (t : Tables)
    (state : Option DedupState) (severities : List String) : Type 0 where
  pub stored : find (has_key new.dedup_key) t.notification_dedup_state ≡ state
  pub known : severities_of state ≡ some severities
  pub fresh_id : find (has_id new.notification_id) t.notification_outbox ≡ none
  pub fresh_event : find (has_event new.event_id) t.notification_outbox ≡ none
  pub ordered : is_behind new.observed (last_of state) ≡ false
  pub undelivered : one_of new.severity severities ≡ false
  pub alone : find (is_same_alert new.dedup_key new.severity) t.notification_outbox ≡ none
  pub room :
      Int.leb settings.max_pending
        (pos (length (select (λ r. is_active r.status) t.notification_outbox)))
      ≡ false

module _ (sha256 : String → String) (settings : Settings) (fault : Fault) (timestamp : ℤ)
    (payload : Fields) (a : OutboxResult) (u : Tables) where
  -- Turned away, with a status that is not `queued`.
  pub record IsTurnedAway (t : Tables) : Type 0 where
    pub status : String
    pub label : String
    pub attempts : ℕ
    pub reason : Option String
    pub outbox_status : Option Status
    pub other : (status == "queued") ≡ false
    pub answered :
        answer sha256 settings fault timestamp payload status label attempts reason outbox_status t
        ≡ ok (a, u)

  pub record IsInserted (new : Incoming) (t : Tables) : Type 0 where
    pub state : Option DedupState
    pub severities : List String
    pub admissible : IsAdmissible settings new t state severities
    pub inserted :
        insert_row sha256 settings fault timestamp payload new (last_of state) severities t
        ≡ ok (a, u)

  module _ (t : Tables) where
    suppressed :
        (reason : String) (outbox_status : Option Status) (attempts : ℕ)
        → suppress sha256 settings fault timestamp payload reason outbox_status attempts t
          ≡ ok (a, u)
        → IsTurnedAway t
    unfolding suppress
    suppressed reason outbox_status attempts h = record {
      status = "duplicate_suppressed";
      label = "DUPLICATE_SUPPRESSED";
      attempts = attempts;
      reason = some reason;
      outbox_status = outbox_status;
      other = refl;
      answered = h;
    }

    refused :
        (reason : String)
        → refuse sha256 settings fault timestamp payload reason t ≡ ok (a, u)
        → IsTurnedAway t
    unfolding refuse
    refused reason h = record {
      status = "rejected";
      label = "REJECTED";
      attempts = 0;
      reason = some reason;
      outbox_status = none;
      other = refl;
      answered = h;
    }

    module _ (new : Incoming) (state : Option DedupState)
        (stored : find (has_key new.dedup_key) t.notification_dedup_state ≡ state)
        (fresh_id : find (has_id new.notification_id) t.notification_outbox ≡ none)
        (fresh_event : find (has_event new.event_id) t.notification_outbox ≡ none) where
      order_outcome :
          (severities : List String)
          → severities_of state ≡ some severities
          → (o : Option Notification)
          → find (is_same_alert new.dedup_key new.severity) t.notification_outbox ≡ o
          → check_order sha256 settings fault timestamp payload new (last_of state) severities t
            ≡ ok (a, u)
          → IsTurnedAway t ⊎ IsInserted new t
      unfolding check_order check_active check_capacity
      order_outcome severities known o alone h =
          elim (Bool-cases (is_behind new.observed (last_of state))) [
            | inl on ↦ inl (refused "out_of_order" (rw on at h))
            | inr ordered ↦ elim (Bool-cases (one_of new.severity severities)) [
              | inl on ↦
                  inl (suppressed "severity_already_delivered" none 0 (rw (ordered, on) at h))
              | inr undelivered ↦
                  active o alone ordered undelivered (rw (ordered, undelivered, alone) at h)
            ]
          ]
        where
          active :
              (o : Option Notification)
              → find (is_same_alert new.dedup_key new.severity) t.notification_outbox ≡ o
              → is_behind new.observed (last_of state) ≡ false
              → one_of new.severity severities ≡ false
              → check_active sha256 settings fault timestamp payload new
                  (last_of state)
                  severities
                  t
                  o
                ≡ ok (a, u)
              → IsTurnedAway t ⊎ IsInserted new t
          active (some r) alone ordered undelivered k =
              inl (suppressed "severity_pending" (some r.status) r.attempts k)
          active none alone ordered undelivered k =
              elim (Bool-cases (
                Int.leb settings.max_pending
                  (pos (length (select (λ r. is_active r.status) t.notification_outbox))))) [
                    | inl full ↦ inl (refused "outbox_capacity_reached" (rw full at k))
                    | inr room ↦ inr (record {
                      state = state;
                      severities = severities;
                      admissible = record {
                        stored = stored;
                        known = known;
                        fresh_id = fresh_id;
                        fresh_event = fresh_event;
                        ordered = ordered;
                        undelivered = undelivered;
                        alone = alone;
                        room = room;
                      };
                      inserted = rw room at k;
                    })
                  ]

      state_outcome :
          (o : Option DedupState)
          → state ≡ o
          → check_state sha256 settings fault timestamp payload new t o ≡ ok (a, u)
          → IsTurnedAway t ⊎ IsInserted new t
      unfolding check_state check_delivered
      state_outcome none same h =
          order_outcome [] (ap severities_of same)
            (find (is_same_alert new.dedup_key new.severity) t.notification_outbox) refl (rw same h)
      state_outcome (some d) same h = read d.delivered_severities_json refl h
        where
          read :
              (o : Option (List String))
              → d.delivered_severities_json ≡ o
              → check_delivered sha256 settings fault timestamp payload new
                  d.last_observed_monotonic_ns o t
                ≡ ok (a, u)
              → IsTurnedAway t ⊎ IsInserted new t
          read none e k = cc
          read (some severities) e k =
              order_outcome severities (ap severities_of same ∙ e)
                (find (is_same_alert new.dedup_key new.severity) t.notification_outbox) refl
                (rw same k)

    event_outcome :
        (new : Incoming) (o : Option Notification)
        → find (has_id new.notification_id) t.notification_outbox ≡ none
        → find (has_event new.event_id) t.notification_outbox ≡ o
        → check_event sha256 settings fault timestamp payload new t o ≡ ok (a, u)
        → IsTurnedAway t ⊎ IsInserted new t
    unfolding check_event
    event_outcome new (some r) fresh_id e h =
        inl (suppressed "event_id_seen" (some r.status) r.attempts h)
    event_outcome new none fresh_id e h =
        state_outcome new (find (has_key new.dedup_key) t.notification_dedup_state) refl fresh_id e
          (find (has_key new.dedup_key) t.notification_dedup_state) refl h

    id_outcome :
        (new : Incoming) (o : Option Notification)
        → find (has_id new.notification_id) t.notification_outbox ≡ o
        → check_id sha256 settings fault timestamp payload new t o ≡ ok (a, u)
        → IsTurnedAway t ⊎ IsInserted new t
    unfolding check_id
    id_outcome new (some r) e h =
        inl (suppressed "notification_id_seen" (some r.status) r.attempts h)
    id_outcome new none e h =
        event_outcome new (find (has_event new.event_id) t.notification_outbox) e refl h

    -- Every way in which the transaction can commit.
    pub enqueue_body_outcome :
        (new : Incoming)
        → enqueue_body sha256 settings fault timestamp payload new t ≡ ok (a, u)
        → IsTurnedAway t ⊎ IsInserted new t
    unfolding enqueue_body
    enqueue_body_outcome new h =
        id_outcome new (find (has_id new.notification_id) t.notification_outbox) refl h
