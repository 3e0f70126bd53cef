-- ===== src/Outbox/Finish.antt =====
-- How a delivery ends in src/guardian_notification_outbox.py: the gate on the rate of attempts,
-- `_mark_final` and `_rate_limited`.
pub mod Moved
pub mod Answers
use server_resource_guardian.Prelude.{
  ℕ, String, Bool, true, false, ◌&&◌, Option, none, some, List, [], ◌∷◌, ◌++◌, ◌==◌, if◌then◌else◌,
  length,
}
use server_resource_guardian.Prelude.Int
use server_resource_guardian.Prelude.Int.{ℤ, pos, ◌-ℤ◌}
use server_resource_guardian.Prelude.Text.{sorted_set}
use server_resource_guardian.Prelude.Tables.{find, update, delete}
use server_resource_guardian.Result.{Result, ok, err, ◌>>=◌}
use server_resource_guardian.Value.{Fields}
use server_resource_guardian.State.{Fault, audit_failed, sound}
use server_resource_guardian.Outbox.{
  Status, pending, in_flight, delivered, dead_letter, status_text, is_in_flight, Notification,
  DedupState, Tables, OutboxResult, transaction, result,
}
use server_resource_guardian.Outbox.Settings.{Settings}
use server_resource_guardian.Outbox.Audit.{append_audit}
use server_resource_guardian.Outbox.Enqueue.{has_key, upsert, max}

-- `WHERE notification_id=? AND status='IN_FLIGHT'`
abbrev pub is_claimed : String → Notification → Bool
is_claimed notification_id r = r.notification_id == notification_id && is_in_flight r.status

-- The gate, given the attempts inside the window.
admit : Settings → ℤ → Tables → List ℤ → Bool × Tables
admit settings now t attempts =
    if Int.leb settings.rate_limit_count (pos (length attempts))
    then (false, record t { notification_attempts = attempts })
    else (true, record t { notification_attempts = attempts ++ now ∷ [] })

-- `_allow_attempt`: the attempts that have left the window are deleted whatever the answer.
unfoldable pub allow_attempt : Settings → ℤ → Tables → Bool × Tables
unfolding admit
allow_attempt settings now t =
    admit settings now t
      (delete (λ at. Int.leb at (now -ℤ settings.rate_limit_window_ns)) t.notification_attempts)

-- The severities that count as delivered after one more: a recovery clears the others.
unfoldable pub deliver_severity : String → List String → List String
deliver_severity severity severities =
    sorted_set (if severity == "recovered" then severity ∷ [] else severity ∷ severities)

-- `INSERT … ON CONFLICT … SET delivered_severities_json=…, last_observed_monotonic_ns=MAX(…)`
save_delivered : Notification → ℤ → Option (List String) → Tables → Result Tables
unfolding deliver_severity upsert
save_delivered row last_observed none t = err "dedup_state_corrupt"
save_delivered row last_observed (some severities) t =
    let after = some (deliver_severity row.severity severities) in
    ok (record t {
      notification_dedup_state =
          upsert
            (record {
              dedup_key = row.dedup_key;
              last_observed_monotonic_ns = last_observed;
              delivered_severities_json = after;
            })
            (λ d. record d {
              delivered_severities_json = after;
              last_observed_monotonic_ns = max d.last_observed_monotonic_ns last_observed;
            })
            t.notification_dedup_state;
    })

save_state : Notification → Tables → Option DedupState → Result Tables
unfolding save_delivered
save_state row t none = save_delivered row row.observed_monotonic_ns (some []) t
save_state row t (some d) =
    save_delivered row d.last_observed_monotonic_ns d.delivered_severities_json t

-- `if status == "DELIVERED"`
unfoldable pub note_delivered : Status → Notification → Tables → Result Tables
unfolding save_state
note_delivered delivered row t =
    save_state row t (find (has_key row.dedup_key) t.notification_dedup_state)
note_delivered _ row t = ok t

abbrev final_status : Status → String
final_status delivered = "delivered"
final_status _ = "dead_letter"

module _ (sha256 : String → String) (fault : Fault) (timestamp : ℤ) (row : Notification)
    (payload : Fields) where
  mark_body : Status → ℕ → Option String → Tables → Result (OutboxResult × Tables)
  mark_body status attempts reason t = do
    u ← note_delivered status row (record t {
      notification_outbox =
          update (is_claimed row.notification_id)
            (λ r. record r {
              status = status;
              attempts = attempts;
              last_error = reason;
              updated_at = timestamp;
            })
            t.notification_outbox;
    })
    v ← append_audit sha256 fault payload (status_text status) attempts reason timestamp u
    ok (result payload (final_status status) attempts reason (some status), v)

  -- `_mark_final`, of a claimed row and its decoded payload.
  unfoldable pub mark_final : Status → ℕ → Option String → Tables → Result OutboxResult × Tables
  unfolding mark_body
  mark_final status attempts reason t =
      transaction fault "outbox_finalize_failed" (mark_body status attempts reason) t

  limit_body : Tables → Result (OutboxResult × Tables)
  limit_body t = do
    v ←
        append_audit sha256 fault payload "DEAD_LETTER" row.attempts (some "rate_limited") timestamp
          (record t {
            notification_outbox =
                update (is_claimed row.notification_id)
                  (λ r. record r {
                    status = dead_letter;
                    last_error = some "rate_limited";
                    updated_at = timestamp;
                  })
                  t.notification_outbox;
          })
    ok (result payload "rate_limited" 0 (some "rate_limited") (some dead_letter), v)

  -- `_rate_limited`
  unfoldable pub rate_limited : Tables → Result OutboxResult × Tables
  unfolding limit_body
  rate_limited t = transaction fault "rate_limit_finalize_failed" limit_body t
