-- ===== src/Outbox/Deliver.antt =====
-- The deliveries of src/guardian_notification_outbox.py: `_claim_one`, `_deliver_row` and
-- `drain_pending`. The sink is a parameter of each turn.
pub mod Moved
pub mod Answers
pub mod Counting
pub mod Drained
pub mod Sends
use Prim.Native.Nat.{◌^◌, min, Ordering}
use Prim.Native.String.{compare}
use server_resource_guardian.Prelude.{
  ℕ, zero, suc, ◌+◌, ◌-◌, ◌*◌, String, Bool, true, false, ◌&&◌, ◌||◌, Option, none, some, List, [],
  ◌∷◌, ◌++◌, ◌==◌, if◌then◌else◌, ltb,
}
use server_resource_guardian.Prelude.Int
use server_resource_guardian.Prelude.Int.{ℤ, pos, ◌-ℤ◌}
use server_resource_guardian.Prelude.Tables.{update, select}
use server_resource_guardian.Prelude.Tables.Order.{order_by, first}
use server_resource_guardian.Result.{Result, ok, err, ◌>>=◌}
use server_resource_guardian.Value.{Value, Fields}
use server_resource_guardian.State.{Fault, sound, open_failed, statement_failed, audit_failed}
use server_resource_guardian.Outbox.{
  Status, in_flight, delivered, dead_letter, is_pending, Notification, Tables, OutboxResult,
  transaction, mapping,
}
use server_resource_guardian.Outbox.Settings.{Settings, rounds, bounded_int}
use server_resource_guardian.Outbox.Audit.{append_audit}
use server_resource_guardian.Outbox.Finish.{allow_attempt, mark_final, rate_limited}

abbrev pub text_before : String → String → Bool
text_before a b = elim (compare a b) [ Ordering.lt ↦ true | _ ↦ false ]

-- `ORDER BY created_at,notification_id`: the row comes strictly before the other.
unfoldable pub created_before : Notification → Notification → Bool
created_before r s =
    Int.ltb r.created_at s.created_at
    || (Int.eqb r.created_at s.created_at && text_before r.notification_id s.notification_id)

-- The rows that can be claimed, the oldest first.
unfoldable pub claimable : List Notification → List Notification
unfolding created_before
claimable rows = order_by created_before (select (λ r. is_pending r.status) rows)

-- `WHERE notification_id=? AND status='PENDING'`
abbrev pub is_waiting : String → Notification → Bool
is_waiting notification_id r = r.notification_id == notification_id && is_pending r.status

-- A claimed row, with its decoded payload.
pub record Claimed : Type 0 where
  pub row : Notification
  pub payload : Fields

-- What a sink does with a payload: it returns, or it raises `NotificationSinkUnavailable` or
-- another exception.
pub data Reply : Type 0 where
  accepted : Reply
  unavailable : Reply
  failed : Reply

-- The surroundings of one delivery: the faults and the clock of its three transactions, and the
-- sink, by the number of the attempt.
pub record Turn : Type 0 where
  pub claim_fault : Fault
  pub claimed_at : ℤ
  pub gate_fault : Fault
  pub final_fault : Fault
  pub finished_at : ℤ
  pub sink : ℕ → Fields → Reply

-- The database, the payloads that were handed to the sink, and the pauses in milliseconds.
pub record Machine : Type 0 where
  pub tables : Tables
  pub sent : List Fields
  pub slept : List ℕ

-- `min(2.0, 0.25 * (2 ** (attempts - 1)))`
unfoldable pub backoff : ℕ → ℕ
backoff attempts = min 2000 (250 * 2 ^ (attempts - 1))

-- How the attempts of one delivery ended, and how many were made on the row so far.
pub record Attempted : Type 0 where
  pub is_delivered : Bool
  pub attempts : ℕ
  pub error_code : Option String

send : Fields → Machine → Machine
send payload m = record m { sent = m.sent ++ payload ∷ [] }

-- `if attempts < self.max_attempts: self.sleep(…)`
pause : Settings → ℕ → Machine → Machine
unfolding backoff
pause settings attempts m =
    if Int.ltb (pos attempts) settings.max_attempts
    then record m { slept = m.slept ++ backoff attempts ∷ [] }
    else m

-- One round of the loop, given what the sink did and what the rounds after it would do.
after_send :
    Settings
    → Fields
    → ℕ
    → Machine
    → (Option String → Machine → Attempted × Machine)
    → Reply
    → Attempted × Machine
unfolding send pause
after_send settings payload attempts m rest accepted =
    (record { is_delivered = true; attempts = attempts; error_code = none }, send payload m)
after_send settings payload attempts m rest unavailable =
    rest (some "sink_unavailable") (pause settings attempts (send payload m))
after_send settings payload attempts m rest failed =
    rest (some "sink_error") (pause settings attempts (send payload m))

-- `for _ in range(self.max_attempts)`
unfoldable pub attempt :
    Settings → (ℕ → Fields → Reply) → Fields → ℕ → ℕ → Option String → Machine → Attempted × Machine
unfolding after_send
attempt settings sink payload zero attempts error_code m =
    (record { is_delivered = false; attempts = attempts; error_code = error_code }, m)
attempt settings sink payload (suc n) attempts error_code m =
    after_send settings payload (attempts + 1) m
      (λ e. attempt settings sink payload n (attempts + 1) e) (sink (attempts + 1) payload)

-- The gate has no audit record, and lets a `NotificationOutboxError` of `_connect` through.
unfoldable pub gate : Fault → Settings → ℤ → Tables → Result Bool × Tables
gate fault settings now t =
    transaction fault "attempt_gate_failed" (λ u. ok (allow_attempt settings now u)) t

abbrev or_sink_error : Option String → String
or_sink_error none = "sink_error"
or_sink_error (some code) = if code == "" then "sink_error" else code

abbrev within : {A : Type 0} → Machine → Result A × Tables → Result A × Machine
within m (r, t) = (r, record m { tables = t })

module _ (sha256 : String → String) where
  claim_row : Fault → ℤ → Notification → Tables → Option Value → Result (Option Claimed × Tables)
  claim_row fault timestamp row t none = err "outbox_payload_corrupt"
  claim_row fault timestamp row t (some payload) = do
    u ←
        append_audit sha256 fault (mapping payload) "DELIVERY_STARTED" row.attempts none timestamp
          (record t {
            notification_outbox =
                update (is_waiting row.notification_id)
                  (λ r. record r { status = in_flight; updated_at = timestamp })
                  t.notification_outbox;
          })
    ok (some (record { row = record row { status = in_flight }; payload = mapping payload }), u)

  -- Without a row the transaction is rolled back, before it has changed anything.
  claim_first : Fault → ℤ → Tables → Option Notification → Result (Option Claimed × Tables)
  unfolding claim_row
  claim_first fault timestamp t none = ok (none, t)
  claim_first fault timestamp t (some row) = claim_row fault timestamp row t row.payload_json

  -- `_claim_one`
  unfoldable pub claim_one : Fault → ℤ → Tables → Result (Option Claimed) × Tables
  unfolding claim_first
  claim_one fault timestamp t =
      transaction fault "outbox_claim_failed"
        (λ u. claim_first fault timestamp u (first (claimable u.notification_outbox))) t

  module _ (settings : Settings) (now : ℤ) (turn : Turn) (claimed : Claimed) where
    finish : Status → ℕ → Option String → Machine → Result OutboxResult × Machine
    finish status attempts reason m = within m (
        mark_final sha256 turn.final_fault turn.finished_at claimed.row claimed.payload status
          attempts reason m.tables)

    after_attempts : Attempted × Machine → Result OutboxResult × Machine
    unfolding finish
    after_attempts (a, m) =
        if a.is_delivered
        then finish delivered a.attempts none m
        else finish dead_letter a.attempts (some (or_sink_error a.error_code)) m

    after_gate : Machine → Result Bool → Result OutboxResult × Machine
    unfolding after_attempts
    after_gate m (err e) = (err e, m)
    after_gate m (ok false) =
        within m (
          rate_limited sha256 turn.final_fault turn.finished_at claimed.row claimed.payload
            m.tables)
    after_gate m (ok true) = after_attempts (
        attempt settings turn.sink claimed.payload (rounds settings.max_attempts)
          claimed.row.attempts none m)

    pass_gate : Machine → Result Bool × Tables → Result OutboxResult × Machine
    unfolding after_gate
    pass_gate m (allowed, t) = after_gate (record m { tables = t }) allowed

    -- `_deliver_row`
    unfoldable pub deliver_row : Machine → Result OutboxResult × Machine
    unfolding finish pass_gate
    deliver_row m =
        let observed = claimed.row.observed_monotonic_ns in
        if Int.ltb now observed
        then finish dead_letter claimed.row.attempts (some "clock_invalid") m
        else if Int.ltb settings.max_age_ns (now -ℤ observed)
        then finish dead_letter claimed.row.attempts (some "expired") m
        else pass_gate m (gate turn.gate_fault settings now m.tables)

  module _ (settings : Settings) (now : ℤ) where
    -- A result is put in front of those of the turns after it; an exception loses them all.
    collect :
        (Machine → Result (List OutboxResult) × Machine)
        → Result OutboxResult × Machine
        → Result (List OutboxResult) × Machine
    collect rest (err e, m) = (err e, m)
    collect rest (ok r, m) = let (results, n) = rest m in (results >>= λ rs. ok (r ∷ rs), n)

    after_claim :
        Turn
        → (Machine → Result (List OutboxResult) × Machine)
        → Machine
        → Result (Option Claimed) × Tables
        → Result (List OutboxResult) × Machine
    unfolding collect
    after_claim turn rest m (err e, t) = (err e, record m { tables = t })
    after_claim turn rest m (ok none, t) = (ok [], record m { tables = t })
    after_claim turn rest m (ok (some claimed), t) =
        collect rest (deliver_row settings now turn claimed (record m { tables = t }))

    -- `for _ in range(max_items)`; the turns are counted down.
    unfoldable pub drain : ℕ → (ℕ → Turn) → Machine → Result (List OutboxResult) × Machine
    unfolding after_claim
    drain zero turns m = (ok [], m)
    drain (suc n) turns m =
        after_claim (turns n) (drain n turns) m
          (claim_one (turns n).claim_fault (turns n).claimed_at m.tables)

    drain_within : (ℕ → Turn) → Machine → Result ℤ → Result (List OutboxResult) × Machine
    drain_within turns m (err e) = (err e, m)
    drain_within turns m (ok n) = drain (rounds n) turns m

    -- `drain_pending`
    unfoldable pub drain_pending :
        Value → (ℕ → Turn) → Machine → Result (List OutboxResult) × Machine
    unfolding drain_within
    drain_pending max_items turns m =
        drain_within turns m (bounded_int max_items (pos 1) (pos 1000) "max_items_out_of_bounds")
