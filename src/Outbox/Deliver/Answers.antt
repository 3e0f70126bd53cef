-- ===== src/Outbox/Deliver/Answers.antt =====
-- The deliveries of src/guardian_notification_outbox.py on a database that answers: each method
-- returns, whatever the sink does.
use server_resource_guardian.Prelude.{
  ℕ, String, Bool, true, false, ◌≡◌, refl, Option, none, some, List, All, if-cases, subst, sym,
}
use server_resource_guardian.Prelude.Int
use server_resource_guardian.Prelude.Int.{ℤ, pos, ◌-ℤ◌}
use server_resource_guardian.Prelude.Tables.{update}
use server_resource_guardian.Prelude.Tables.Order.{first}
use server_resource_guardian.Result.{Result, ok}
use server_resource_guardian.Value.{Value}
use server_resource_guardian.State.{sound}
use server_resource_guardian.Outbox.{
  Status, in_flight, delivered, dead_letter, is_active, Notification, Tables, OutboxResult, mapping,
  transaction, settle,
}
use server_resource_guardian.Outbox.Settings.{Settings, rounds}
use server_resource_guardian.Outbox.Audit.Facts.{append_audit_sound}
use server_resource_guardian.Outbox.Finish.{allow_attempt}
use server_resource_guardian.Outbox.Finish.Answers.{
  IsKnown, IsFinished, mark_final_sound, rate_limited_sound, allow_attempt_keeps,
}
use server_resource_guardian.Outbox.Deliver.{
  Claimed, Turn, Machine, Attempted, claimable, is_waiting, attempt, gate, or_sink_error, claim_row,
  claim_first, claim_one, finish, after_attempts, after_gate, pass_gate, deliver_row,
}
use server_resource_guardian.Outbox.Deliver.Moved.{attempt-tables}

-- The gate changes the instants of the attempts alone.
pub record IsAdmitted (t : Tables) (o : Result Bool × Tables) : Type 0 where
  pub answer : (allowed : Bool) × (o.0 ≡ ok allowed)
  pub rows : o.1.notification_outbox ≡ t.notification_outbox
  pub states : o.1.notification_dedup_state ≡ t.notification_dedup_state

gate_sound : (settings : Settings) (now : ℤ) (t : Tables) → IsAdmitted t (gate sound settings now t)
unfolding gate transaction settle
gate_sound settings now t =
    let (rows, states) = allow_attempt_keeps settings now t in
    record { answer = ((allow_attempt settings now t).0, refl); rows = rows; states = states }

-- The delivery has returned and has given the claimed rows a final status.
pub record IsDelivered (id : String) (rows : List Notification) (p : Result OutboxResult × Machine)
    : Type 0 where
  pub answer : (r : OutboxResult) × (p.0 ≡ ok r)
  pub finished : IsFinished id rows p.1.tables.notification_outbox

module _ (sha256 : String → String) where
  abbrev pub marked : ℤ → Notification → Notification
  marked timestamp r = record r { status = in_flight; updated_at = timestamp }

  -- A claim of a row whose payload can be decoded.
  pub claim_one_sound :
      (timestamp : ℤ) (t : Tables) (row : Notification) (payload : Value)
      → first (claimable t.notification_outbox) ≡ some row
      → row.payload_json ≡ some payload
      → (c : Claimed) × (u : Tables) × (claim_one sha256 sound timestamp t ≡ (ok (some c), u))
        × (c.row.notification_id ≡ row.notification_id)
        × (u.notification_outbox
            ≡ update (is_waiting row.notification_id) (marked timestamp) t.notification_outbox)
  unfolding claim_one claim_first claim_row transaction settle
  claim_one_sound timestamp t row payload e p =
      let (u, appended, same) =
        append_audit_sound sha256 (mapping payload) "DELIVERY_STARTED" row.attempts none timestamp
          (record t {
            notification_outbox =
                update (is_waiting row.notification_id) (marked timestamp) t.notification_outbox;
          }) in
      (
        record { row = record row { status = in_flight }; payload = mapping payload },
        u,
        rw (e, p, appended) refl,
        refl,
        same,
      )

  pub claim_none_sound :
      (timestamp : ℤ) (t : Tables)
      → first (claimable t.notification_outbox) ≡ none
      → claim_one sha256 sound timestamp t ≡ (ok none, t)
  unfolding claim_one claim_first transaction settle
  claim_none_sound timestamp t e = rw e refl

  module _ (settings : Settings) (now : ℤ) (turn : Turn) (claimed : Claimed)
      (final_sound : turn.final_fault ≡ sound) (gate_is_sound : turn.gate_fault ≡ sound) where
    finish_sound :
        (status : Status) (attempts : ℕ) (reason : Option String) (m : Machine)
        → is_active status ≡ false
        → All IsKnown m.tables.notification_dedup_state
        → IsDelivered claimed.row.notification_id m.tables.notification_outbox
            (finish sha256 settings now turn claimed status attempts reason m)
    unfolding finish
    finish_sound status attempts reason m final known =
        let (r, u, ended, finished) =
          mark_final_sound sha256 turn.finished_at claimed.row claimed.payload status attempts
            reason m.tables final known in
        rw (final_sound, ended) (record { answer = (r, refl); finished = finished })

    after_attempts_sound :
        (a : Attempted) (m : Machine)
        → All IsKnown m.tables.notification_dedup_state
        → IsDelivered claimed.row.notification_id m.tables.notification_outbox
            (after_attempts sha256 settings now turn claimed (a, m))
    unfolding after_attempts
    after_attempts_sound a m known =
        if-cases (IsDelivered claimed.row.notification_id m.tables.notification_outbox)
          a.is_delivered _ _ (λ on. finish_sound delivered a.attempts none m refl known)
          (λ off.
            finish_sound dead_letter a.attempts (some (or_sink_error a.error_code)) m refl known)

    after_gate_sound :
        (m : Machine) (allowed : Bool)
        → All IsKnown m.tables.notification_dedup_state
        → IsDelivered claimed.row.notification_id m.tables.notification_outbox
            (after_gate sha256 settings now turn claimed m (ok allowed))
    unfolding after_gate
    after_gate_sound m false known =
        let (r, u, ended, finished) =
          rate_limited_sound sha256 turn.finished_at claimed.row claimed.payload m.tables in
        rw (final_sound, ended) (record { answer = (r, refl); finished = finished })
    after_gate_sound m true known =
        let ended =
          attempt settings turn.sink claimed.payload (rounds settings.max_attempts)
            claimed.row.attempts none m in
        let same =
          attempt-tables settings turn.sink claimed.payload (rounds settings.max_attempts)
            claimed.row.attempts none m in
        subst
          (λ (t : Tables).
            IsDelivered claimed.row.notification_id t.notification_outbox
              (after_attempts sha256 settings now turn claimed ended))
          same
          (after_attempts_sound ended.0 ended.1
            (subst (λ (t : Tables). All IsKnown t.notification_dedup_state) (sym same) known))

    pass_gate_sound :
        (m : Machine) (o : Result Bool × Tables)
        → IsAdmitted m.tables o
        → All IsKnown m.tables.notification_dedup_state
        → IsDelivered claimed.row.notification_id m.tables.notification_outbox
            (pass_gate sha256 settings now turn claimed m o)
    unfolding pass_gate
    pass_gate_sound m (allowed, t) h known = rw h.answer.1 (
        subst
          (λ rows.
            IsDelivered claimed.row.notification_id rows (
              after_gate sha256 settings now turn claimed (record m { tables = t })
                (ok h.answer.0)))
          h.rows
          (after_gate_sound (record m { tables = t }) h.answer.0
            (subst (All IsKnown) (sym h.states) known)))

    pub deliver_row_sound :
        (m : Machine)
        → All IsKnown m.tables.notification_dedup_state
        → IsDelivered claimed.row.notification_id m.tables.notification_outbox
            (deliver_row sha256 settings now turn claimed m)
    unfolding deliver_row
    deliver_row_sound m known =
        if-cases (IsDelivered claimed.row.notification_id m.tables.notification_outbox)
          (Int.ltb now claimed.row.observed_monotonic_ns) _ _
          (λ on. finish_sound dead_letter claimed.row.attempts (some "clock_invalid") m refl known)
          (λ off.
            if-cases (IsDelivered claimed.row.notification_id m.tables.notification_outbox)
              (Int.ltb settings.max_age_ns (now -ℤ claimed.row.observed_monotonic_ns)) _ _
              (λ on. finish_sound dead_letter claimed.row.attempts (some "expired") m refl known)
              (λ off.
                pass_gate_sound m (gate turn.gate_fault settings now m.tables)
                  (rw gate_is_sound (gate_sound settings now m.tables)) known))
