-- ===== src/Outbox/Enqueue/Moved.antt =====
-- `enqueue` of src/guardian_notification_outbox.py, as a sequence of changes.
use server_resource_guardian.Prelude.{ℕ, String, ◌≡◌, refl, Option, none, some, List, inl, inr}
use server_resource_guardian.Prelude.Int.{ℤ}
use server_resource_guardian.Prelude.Tables.{find}
use server_resource_guardian.Result.{Result, ok, err}
use server_resource_guardian.Value.{Value, Fields, object}
use server_resource_guardian.State.{Fault}
use server_resource_guardian.Outbox.{Status, pending, Tables, OutboxResult}
use server_resource_guardian.Outbox.Settings.{Settings}
use server_resource_guardian.Outbox.Payload.{validate_payload}
use server_resource_guardian.Outbox.Audit.{record_rejection}
use server_resource_guardian.Outbox.Enqueue.{
  Incoming, incoming, has_id, has_event, answer, queued_row, insert_row, enqueue_body,
  enqueue_checked, enqueue,
}
use server_resource_guardian.Outbox.Enqueue.Outcomes.{last_of, enqueue_body_outcome}
use server_resource_guardian.Outbox.Moves.{
  Moves, stay, onward, inserted, noted, Moves-trans, audit_then-Moves, transaction_keeps,
}

module _ (sha256 : String → String) where
  pub record_rejection-Moves :
      (fault : Fault) (timestamp : ℤ) (payload : Fields) (reason : String) (t : Tables)
      → Moves sha256 t (record_rejection sha256 fault timestamp payload reason t).1
  unfolding record_rejection
  record_rejection-Moves fault timestamp payload reason t =
      transaction_keeps (Moves sha256 t) fault _ _ t stay
        (λ a u h. audit_then-Moves sha256 fault payload _ _ _ timestamp _ a t u h)

module _ (sha256 : String → String) (settings : Settings) (fault : Fault) (timestamp : ℤ)
    (payload : Fields) (a : OutboxResult) (u : Tables) where
  answer-Moves :
      (status label : String) (attempts : ℕ) (reason : Option String)
      (outbox_status : Option Status) (t : Tables)
      → answer sha256 settings fault timestamp payload status label attempts reason outbox_status t
        ≡ ok (a, u)
      → Moves sha256 t u
  unfolding answer
  answer-Moves status label attempts reason outbox_status t h =
      audit_then-Moves sha256 fault payload label attempts reason timestamp _ a t u h

  insert_row-Moves :
      (new : Incoming) (t : Tables) (last_observed : Option ℤ) (severities : List String)
      → find (has_id new.notification_id) t.notification_outbox ≡ none
      → find (has_event new.event_id) t.notification_outbox ≡ none
      → insert_row sha256 settings fault timestamp payload new last_observed severities t
        ≡ ok (a, u)
      → Moves sha256 t u
  unfolding insert_row queued_row answer
  insert_row-Moves new t last_observed severities fresh_id fresh_event h =
      Moves-trans sha256
        (onward
          (onward stay (
            inserted (queued_row sha256 settings fault timestamp payload new) fresh_id fresh_event
              refl))
          (noted _ _ refl (λ x k. k)))
        (answer-Moves "queued" "ENQUEUED" 0 none (some pending) _ h)

  enqueue_body-Moves :
      (new : Incoming) (t : Tables)
      → enqueue_body sha256 settings fault timestamp payload new t ≡ ok (a, u)
      → Moves sha256 t u
  enqueue_body-Moves new t h =
      elim (enqueue_body_outcome sha256 settings fault timestamp payload a u t new h) [
        | inl away ↦
            answer-Moves away.status away.label away.attempts away.reason away.outbox_status t
              away.answered
        | inr i ↦
            insert_row-Moves new t (last_of i.state) i.severities i.admissible.fresh_id
              i.admissible.fresh_event i.inserted
      ]

module _ (sha256 : String → String) (settings : Settings) (fault : Fault) (timestamp now : ℤ)
    (t : Tables) where
  enqueue_checked-Moves :
      (payload : Fields) (o : Result (Option String))
      → Moves sha256 t (enqueue_checked sha256 settings fault timestamp payload o t).1
  unfolding enqueue_checked
  enqueue_checked-Moves payload (err e) = stay
  enqueue_checked-Moves payload (ok (some reason)) =
      record_rejection-Moves sha256 fault timestamp payload reason t
  enqueue_checked-Moves payload (ok none) =
      transaction_keeps (Moves sha256 t) fault _ _ t stay (λ a u h.
        enqueue_body-Moves sha256 settings fault timestamp payload a u (incoming payload) t h)

  pub enqueue-Moves :
      (payload : Value) → Moves sha256 t (enqueue sha256 settings fault timestamp now payload t).1
  unfolding enqueue
  enqueue-Moves (object payload) =
      enqueue_checked-Moves payload (validate_payload settings now payload)
  enqueue-Moves _ = record_rejection-Moves sha256 fault timestamp _ _ t
