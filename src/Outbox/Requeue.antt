-- ===== src/Outbox/Requeue.antt =====
-- What src/guardian_notification_outbox.py does with deliveries that did not end well:
-- `reconcile_in_flight`, `redrive_dead_letters`, and the constructor, which reconciles.
pub mod Moved
pub mod Restart
use server_resource_guardian.Prelude.{
  ℕ, String, Bool, true, false, ◌&&◌, ◌||◌, Option, none, some, List, ◌==◌, if◌then◌else◌, length,
}
use server_resource_guardian.Prelude.Int
use server_resource_guardian.Prelude.Int.{ℤ, pos}
use server_resource_guardian.Prelude.Tables.{update, select}
use server_resource_guardian.Prelude.Tables.Order.{order_by, limit, for_each}
use server_resource_guardian.Result.{Result, ok, err, ◌>>=◌}
use server_resource_guardian.Value.{Value}
use server_resource_guardian.State.{Fault}
use server_resource_guardian.Outbox.{
  Status, pending, dead_letter, is_in_flight, Notification, Tables, OutboxResult, transaction,
  mapping,
}
use server_resource_guardian.Outbox.Settings.{Settings, rounds, bounded_int}
use server_resource_guardian.Outbox.Audit.{append_audit}
use server_resource_guardian.Outbox.Finish.{is_claimed}
use server_resource_guardian.Outbox.Deliver.{text_before, Turn, Machine, drain_pending}

abbrev pub is_dead : Status → Bool
is_dead dead_letter = true
is_dead _ = false

-- `WHERE notification_id=? AND status='DEAD_LETTER'`
abbrev pub is_dead_letter : String → Notification → Bool
is_dead_letter notification_id r = r.notification_id == notification_id && is_dead r.status

-- `ORDER BY created_at`
unfoldable pub interrupted : List Notification → List Notification
interrupted rows =
    order_by (λ r s. Int.ltb r.created_at s.created_at) (select (λ r. is_in_flight r.status) rows)

-- `ORDER BY updated_at,notification_id LIMIT ?`
unfoldable pub dead_letters : ℕ → List Notification → List Notification
dead_letters max_items rows = limit max_items (
    order_by
      (λ r s.
        Int.ltb r.updated_at s.updated_at
        || (Int.eqb r.updated_at s.updated_at && text_before r.notification_id s.notification_id))
      (select (λ r. is_dead r.status) rows))

module _ (sha256 : String → String) (fault : Fault) (timestamp : ℤ) where
  requeued :
      (String → Notification → Bool)
      → (Notification → Notification)
      → (status reason : String) → Notification
      → Tables
      → Option Value
      → Result Tables
  requeued chosen change status reason row t none = err "outbox_payload_corrupt"
  requeued chosen change status reason row t (some payload) =
      append_audit sha256 fault (mapping payload) status row.attempts (some reason) timestamp
        (record t {
          notification_outbox = update (chosen row.notification_id) change t.notification_outbox;
        })

  -- One row: an update by its id, and an audit record. A payload that is not JSON raises.
  unfoldable pub requeue_row :
      (String → Notification → Bool)
      → (Notification → Notification)
      → (status reason : String) → Notification
      → Tables
      → Result Tables
  unfolding requeued
  requeue_row chosen change status reason row t =
      requeued chosen change status reason row t row.payload_json

  unfoldable pub interrupt_row : Notification → Tables → Result Tables
  unfolding requeue_row
  interrupt_row row t =
      requeue_row is_claimed
        (λ r. record r {
          status = dead_letter;
          last_error = some "delivery_interrupted";
          updated_at = timestamp;
        })
        "RECONCILIATION_REQUIRED" "delivery_interrupted" row t

  reconcile_body : Tables → Result (ℕ × Tables)
  unfolding interrupted
  reconcile_body t = do
    u ← for_each interrupt_row (interrupted t.notification_outbox) t
    ok (length (interrupted t.notification_outbox), u)

  -- `reconcile_in_flight`
  unfoldable pub reconcile_in_flight : Tables → Result ℕ × Tables
  unfolding reconcile_body
  reconcile_in_flight t = transaction fault "reconciliation_failed" reconcile_body t

  unfoldable pub redrive_row : Notification → Tables → Result Tables
  unfolding requeue_row
  redrive_row row t =
      requeue_row is_dead_letter
        (λ r. record r { status = pending; last_error = none; updated_at = timestamp })
        "REDRIVE_QUEUED" "explicit_redrive" row t

  redrive_body : ℕ → Tables → Result (Unit {0} × Tables)
  redrive_body max_items t = do
    u ← for_each redrive_row (dead_letters max_items t.notification_outbox) t
    ok (tt, u)

  -- The first half of `redrive_dead_letters`.
  unfoldable pub queue_dead_letters : ℕ → Tables → Result (Unit {0}) × Tables
  unfolding redrive_body
  queue_dead_letters max_items t =
      transaction fault "redrive_queue_failed" (redrive_body max_items) t

-- The constructor, on a database that exists: what is left in flight is reconciled at once.
unfoldable pub open_outbox :
    (String → String) → Fault → ℤ → Result Settings → Tables → Result Settings × Tables
open_outbox sha256 fault timestamp (err e) t = (err e, t)
open_outbox sha256 fault timestamp (ok settings) t =
    let (recovered, u) = reconcile_in_flight sha256 fault timestamp t in
    (recovered >>= λ _. ok settings, u)

module _ (sha256 : String → String) (settings : Settings) (fault : Fault) (timestamp now : ℤ) where
  drain_queued :
      Value
      → (ℕ → Turn)
      → Machine
      → Result (Unit {0}) × Tables
      → Result (List OutboxResult) × Machine
  drain_queued max_items turns m (err e, t) = (err e, record m { tables = t })
  drain_queued max_items turns m (ok _, t) =
      drain_pending sha256 settings now max_items turns (record m { tables = t })

  redrive_within : Value → (ℕ → Turn) → Machine → Result ℤ → Result (List OutboxResult) × Machine
  unfolding drain_queued
  redrive_within max_items turns m (err e) = (err e, m)
  redrive_within max_items turns m (ok n) =
      drain_queued max_items turns m (queue_dead_letters sha256 fault timestamp (rounds n) m.tables)

  -- `redrive_dead_letters`
  unfoldable pub redrive_dead_letters :
      Value → (ℕ → Turn) → Machine → Result (List OutboxResult) × Machine
  unfolding redrive_within
  redrive_dead_letters max_items turns m =
      redrive_within max_items turns m
        (bounded_int max_items (pos 1) (pos 1000) "max_items_out_of_bounds")
