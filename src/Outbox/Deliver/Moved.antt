-- ===== src/Outbox/Deliver/Moved.antt =====
-- `_claim_one`, `_deliver_row` and `drain_pending` of src/guardian_notification_outbox.py, as
-- sequences of changes of the tables.
use server_resource_guardian.Prelude.{
  ℕ, zero, suc, ◌+◌, String, Bool, true, false, ◌≡◌, refl, ◌∙◌, ap, arith, Option, none, some, List,
  subst, if-cases,
}
use server_resource_guardian.Prelude.Int
use server_resource_guardian.Prelude.Int.{ℤ, pos, ◌-ℤ◌}
use server_resource_guardian.Prelude.Tables.Order.{first}
use server_resource_guardian.Result.{Result, ok, err, ok-injective}
use server_resource_guardian.Value.{Value, Fields}
use server_resource_guardian.State.{Fault}
use server_resource_guardian.Outbox.{
  Status, delivered, dead_letter, Notification, Tables, OutboxResult, mapping,
}
use server_resource_guardian.Outbox.Settings.{Settings, rounds, bounded_int}
use server_resource_guardian.Outbox.Finish.Moved.{
  allow_attempt-Moves, mark_final-Moves, rate_limited-Moves,
}
use server_resource_guardian.Outbox.Deliver.{
  Claimed, Reply, accepted, unavailable, failed, Turn, Machine, Attempted, claimable, pause,
  after_send, attempt, gate, claim_row, claim_first, claim_one, finish, after_attempts, after_gate,
  pass_gate, deliver_row, collect, after_claim, drain, drain_within, drain_pending, or_sink_error,
}
use server_resource_guardian.Outbox.Moves.{
  Moves, stay, onward, changed, Moves-trans, audit_then-Moves, transaction_keeps,
}

-- The attempts do not touch the database.
pause-tables :
    (settings : Settings) (attempts : ℕ) (m : Machine)
    → (pause settings attempts m).tables ≡ m.tables
unfolding pause
pause-tables settings attempts m = ground arith

after_send-tables :
    (settings : Settings) (payload : Fields) (attempts : ℕ) (m : Machine)
    (rest : Option String → Machine → Attempted × Machine) (reply : Reply)
    → ((e : Option String) (v : Machine) → (rest e v).1.tables ≡ v.tables)
    → (after_send settings payload attempts m rest reply).1.tables ≡ m.tables
unfolding after_send
after_send-tables settings payload attempts m rest accepted h = refl
after_send-tables settings payload attempts m rest unavailable h =
    h (some "sink_unavailable") _ ∙ pause-tables settings attempts _
after_send-tables settings payload attempts m rest failed h =
    h (some "sink_error") _ ∙ pause-tables settings attempts _

pub attempt-tables :
    (settings : Settings) (sink : ℕ → Fields → Reply) (payload : Fields) (n attempts : ℕ)
    (error_code : Option String) (m : Machine)
    → (attempt settings sink payload n attempts error_code m).1.tables ≡ m.tables
unfolding attempt
attempt-tables settings sink payload zero attempts error_code m = refl
attempt-tables settings sink payload (suc n) attempts error_code m =
    after_send-tables settings payload (attempts + 1) m
      (λ e. attempt settings sink payload n (attempts + 1) e) (sink (attempts + 1) payload)
      (λ e v. attempt-tables settings sink payload n (attempts + 1) e v)

module _ (sha256 : String → String) where
  claim_first-Moves :
      (fault : Fault) (timestamp : ℤ) (t u : Tables) (o : Option Notification) (a : Option Claimed)
      → claim_first sha256 fault timestamp t o ≡ ok (a, u)
      → Moves sha256 t u
  unfolding claim_first claim_row
  claim_first-Moves fault timestamp t u none a h =
      subst (Moves sha256 t) (ap (λ p. p.1) (ok-injective h)) stay
  claim_first-Moves fault timestamp t u (some row) a h = claimed row.payload_json h
    where
      claimed :
          (o : Option Value)
          → claim_row sha256 fault timestamp row t o ≡ ok (a, u)
          → Moves sha256 t u
      claimed none k = cc
      claimed (some payload) k =
          Moves-trans sha256 (onward stay (changed _ _ (λ r. (refl, refl, refl)))) (
            audit_then-Moves sha256 fault (mapping payload) "DELIVERY_STARTED" row.attempts none
              timestamp _ a _ u k)

  pub claim_one-Moves :
      (fault : Fault) (timestamp : ℤ) (t : Tables)
      → Moves sha256 t (claim_one sha256 fault timestamp t).1
  unfolding claim_one
  claim_one-Moves fault timestamp t =
      transaction_keeps (Moves sha256 t) fault "outbox_claim_failed" _ t stay (λ a u h.
        claim_first-Moves fault timestamp t u (first (claimable t.notification_outbox)) a h)

  pub gate-Moves :
      (fault : Fault) (settings : Settings) (now : ℤ) (t : Tables)
      → Moves sha256 t (gate fault settings now t).1
  unfolding gate
  gate-Moves fault settings now t =
      transaction_keeps (Moves sha256 t) fault "attempt_gate_failed" _ t stay (λ a u h.
        subst (Moves sha256 t) (ap (λ p. p.1) (ok-injective h))
          (allow_attempt-Moves sha256 settings now t))

  module _ (settings : Settings) (now : ℤ) (turn : Turn) (claimed : Claimed) where
    finish-Moves :
        (status : Status) (attempts : ℕ) (reason : Option String) (m : Machine)
        → Moves sha256 m.tables
            (finish sha256 settings now turn claimed status attempts reason m).1.tables
    unfolding finish
    finish-Moves status attempts reason m =
        mark_final-Moves sha256 turn.final_fault turn.finished_at claimed.row claimed.payload status
          attempts reason m.tables

    after_attempts-Moves :
        (a : Attempted) (m : Machine)
        → Moves sha256 m.tables (after_attempts sha256 settings now turn claimed (a, m)).1.tables
    unfolding after_attempts
    after_attempts-Moves a m =
        if-cases (λ (p : Result OutboxResult × Machine). Moves sha256 m.tables p.1.tables)
          a.is_delivered _ _ (λ on. finish-Moves delivered a.attempts none m)
          (λ off. finish-Moves dead_letter a.attempts (some (or_sink_error a.error_code)) m)

    after_gate-Moves :
        (m : Machine) (o : Result Bool)
        → Moves sha256 m.tables (after_gate sha256 settings now turn claimed m o).1.tables
    unfolding after_gate
    after_gate-Moves m (err e) = stay
    after_gate-Moves m (ok false) =
        rate_limited-Moves sha256 turn.final_fault turn.finished_at claimed.row claimed.payload
          m.tables
    after_gate-Moves m (ok true) =
        let ended =
          attempt settings turn.sink claimed.payload (rounds settings.max_attempts)
            claimed.row.attempts none m in
        subst (λ t. Moves sha256 t (after_attempts sha256 settings now turn claimed ended).1.tables)
          (attempt-tables settings turn.sink claimed.payload (rounds settings.max_attempts)
            claimed.row.attempts none m)
          (after_attempts-Moves ended.0 ended.1)

    pass_gate-Moves :
        (m : Machine) (o : Result Bool × Tables)
        → Moves sha256 m.tables o.1
        → Moves sha256 m.tables (pass_gate sha256 settings now turn claimed m o).1.tables
    unfolding pass_gate
    pass_gate-Moves m (allowed, t) h =
        Moves-trans sha256 h (after_gate-Moves (record m { tables = t }) allowed)

    pub deliver_row-Moves :
        (m : Machine)
        → Moves sha256 m.tables (deliver_row sha256 settings now turn claimed m).1.tables
    unfolding deliver_row
    deliver_row-Moves m =
        if-cases Arrives (Int.ltb now claimed.row.observed_monotonic_ns) _ _
          (λ on. finish-Moves dead_letter claimed.row.attempts (some "clock_invalid") m)
          (λ off.
            if-cases Arrives
              (Int.ltb settings.max_age_ns (now -ℤ claimed.row.observed_monotonic_ns)) _ _
              (λ on. finish-Moves dead_letter claimed.row.attempts (some "expired") m)
              (λ off.
                pass_gate-Moves m (gate turn.gate_fault settings now m.tables)
                  (gate-Moves turn.gate_fault settings now m.tables)))
      where
        Arrives : Result OutboxResult × Machine → Type 0
        Arrives p = Moves sha256 m.tables p.1.tables

  module _ (settings : Settings) (now : ℤ) where
    module _ (rest : Machine → Result (List OutboxResult) × Machine)
        (keep : (v : Machine) → Moves sha256 v.tables (rest v).1.tables) where
      collect-Moves :
          (o : Result OutboxResult) (v : Machine)
          → Moves sha256 v.tables (collect sha256 settings now rest (o, v)).1.tables
      unfolding collect
      collect-Moves (err e) v = stay
      collect-Moves (ok r) v = keep v

      after_claim-Moves :
          (turn : Turn) (m : Machine) (o : Result (Option Claimed) × Tables)
          → Moves sha256 o.1 (after_claim sha256 settings now turn rest m o).1.tables
      unfolding after_claim
      after_claim-Moves turn m (err e, t) = stay
      after_claim-Moves turn m (ok none, t) = stay
      after_claim-Moves turn m (ok (some c), t) =
          let delivery = deliver_row sha256 settings now turn c (record m { tables = t }) in
          Moves-trans sha256 (deliver_row-Moves settings now turn c (record m { tables = t }))
            (collect-Moves delivery.0 delivery.1)

    pub drain-Moves :
        (n : ℕ) (turns : ℕ → Turn) (m : Machine)
        → Moves sha256 m.tables (drain sha256 settings now n turns m).1.tables
    unfolding drain
    drain-Moves zero turns m = stay
    drain-Moves (suc n) turns m =
        Moves-trans sha256 (claim_one-Moves (turns n).claim_fault (turns n).claimed_at m.tables) (
          after_claim-Moves (drain sha256 settings now n turns) (drain-Moves n turns) (turns n) m
            (claim_one sha256 (turns n).claim_fault (turns n).claimed_at m.tables))

    pub drain_pending-Moves :
        (max_items : Value) (turns : ℕ → Turn) (m : Machine)
        → Moves sha256 m.tables (drain_pending sha256 settings now max_items turns m).1.tables
    unfolding drain_pending drain_within
    drain_pending-Moves max_items turns m =
        bounded (bounded_int max_items (pos 1) (pos 1000) "max_items_out_of_bounds")
      where
        bounded :
            (o : Result ℤ)
            → Moves sha256 m.tables (drain_within sha256 settings now turns m o).1.tables
        bounded (err e) = stay
        bounded (ok n) = drain-Moves (rounds n) turns m
