-- ===== src/Outbox/Reading.antt =====
-- The reads of src/guardian_notification_outbox.py: `get_notification`, `status_counts` and
-- `dead_letter_count`.
use server_resource_guardian.Prelude.{ℕ, String, Bool, true, Option, none, some, List, length, join}
use server_resource_guardian.Prelude.Tables.{find, select}
use server_resource_guardian.Result.{Result, ok, err, ◌>>=◌}
use server_resource_guardian.Value.{Value}
use server_resource_guardian.State.{Fault, open_failed, statement_failed}
use server_resource_guardian.Outbox.{Status, is_pending, is_in_flight, Notification, Tables}
use server_resource_guardian.Outbox.Enqueue.{has_id}
use server_resource_guardian.Outbox.Requeue.{is_dead}

-- A read outside a transaction.
unfoldable pub read : {A : Type 0} → Fault → String → Result A → Result A
read (open_failed e) label answer = err (join "outbox_open_failed:" e)
read (statement_failed e) label answer = err (join label (join ":" e))
read _ label answer = answer

-- The row with its decoded payload, or the text of the decoder's exception.
unfoldable pub decoded : String → Option Notification → Result (Option (Notification × Value))
decoded failure none = ok none
decoded failure (some row) = elim row.payload_json [
  | none ↦ err (join "notification_read_failed:" failure)
  | some payload ↦ ok (some (row, payload))
]

-- `get_notification`; `failure` is what the decoder says of a text that is not JSON.
unfoldable pub get_notification :
    Fault → String → String → Tables → Result (Option (Notification × Value))
unfolding decoded
get_notification fault failure notification_id t =
    read fault "notification_read_failed"
      (decoded failure (find (has_id notification_id) t.notification_outbox))

abbrev pub is_delivered : Status → Bool
is_delivered Status.delivered = true
is_delivered _ = Bool.false

pub record Counts : Type 0 where
  pub pending : ℕ
  pub in_flight : ℕ
  pub delivered : ℕ
  pub dead_letter : ℕ

unfoldable pub count : (Status → Bool) → List Notification → ℕ
count test rows = length (select (λ r. test r.status) rows)

-- `status_counts`
unfoldable pub status_counts : Fault → Tables → Result Counts
unfolding count
status_counts fault t = read fault "status_read_failed" (
    ok (record {
      pending = count is_pending t.notification_outbox;
      in_flight = count is_in_flight t.notification_outbox;
      delivered = count is_delivered t.notification_outbox;
      dead_letter = count is_dead t.notification_outbox;
    }))

-- `dead_letter_count`
unfoldable pub dead_letter_count : Fault → Tables → Result ℕ
dead_letter_count fault t = status_counts fault t >>= λ counts. ok counts.dead_letter
