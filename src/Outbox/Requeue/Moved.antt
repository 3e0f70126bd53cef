-- ===== src/Outbox/Requeue/Moved.antt =====
-- `reconcile_in_flight` and `redrive_dead_letters` of src/guardian_notification_outbox.py, as
-- sequences of changes.
use server_resource_guardian.Prelude.{
  ℕ, Bool, String, ◌≡◌, refl, none, some, List, [], ◌∷◌, subst, Option,
}
use server_resource_guardian.Prelude.Int.{ℤ, pos}
use server_resource_guardian.Prelude.Tables.Order.{for_each}
use server_resource_guardian.Result.{Result, ok, err, ◌>>=◌, >>=-eq-ok, ok-injective}
use server_resource_guardian.Value.{Value}
use server_resource_guardian.State.{Fault}
use server_resource_guardian.Outbox.{Notification, Tables, mapping}
use server_resource_guardian.Outbox.Settings.{Settings, rounds, bounded_int}
use server_resource_guardian.Outbox.Finish.{is_claimed}
use server_resource_guardian.Outbox.Deliver.{Turn, Machine}
use server_resource_guardian.Outbox.Deliver.Moved.{drain_pending-Moves}
use server_resource_guardian.Outbox.Requeue.{
  is_dead_letter, interrupted, dead_letters, requeue_row, interrupt_row, reconcile_body,
  reconcile_in_flight, redrive_row, redrive_body, queue_dead_letters, open_outbox, drain_queued,
  requeued, redrive_within, redrive_dead_letters,
}
use server_resource_guardian.Outbox.Moves.{
  Moves, stay, onward, changed, IsKept, Moves-trans, append_audit-Moves, transaction_keeps, paired,
}

module _ (sha256 : String → String) where
  requeue_row-Moves :
      (fault : Fault) (timestamp : ℤ) (chosen : String → Notification → Bool)
      (change : Notification → Notification) (status reason : String) (row : Notification)
      (t u : Tables)
      → IsKept change
      → requeue_row sha256 fault timestamp chosen change status reason row t ≡ ok u
      → Moves sha256 t u
  unfolding requeue_row requeued
  requeue_row-Moves fault timestamp chosen change status reason row t u kept h =
      go row.payload_json h
    where
      go :
          (o : Option Value)
          → requeued sha256 fault timestamp chosen change status reason row t o ≡ ok u
          → Moves sha256 t u
      go none k = cc
      go (some payload) k =
          Moves-trans sha256 (onward stay (changed (chosen row.notification_id) change kept)) (
            append_audit-Moves sha256 fault (mapping payload) status row.attempts (some reason)
              timestamp _ u k)

  -- What one round of a loop does, the loop does.
  for_each-Moves :
      (step : Notification → Tables → Result Tables)
      → ((row : Notification) (t u : Tables) → step row t ≡ ok u → Moves sha256 t u)
      → (rows : List Notification) (t u : Tables) → for_each step rows t ≡ ok u
      → Moves sha256 t u
  unfolding for_each
  for_each-Moves step one [] t u h = subst (Moves sha256 t) (ok-injective h) stay
  for_each-Moves step one (row ∷ rows) t u h =
      let (v, stepped, rest) = >>=-eq-ok (step row t) (for_each step rows) h in
      Moves-trans sha256 (one row t v stepped) (for_each-Moves step one rows v u rest)

  loop-Moves :
      {A : Type 0} (step : Notification → Tables → Result Tables)
      → ((row : Notification) (t u : Tables) → step row t ≡ ok u → Moves sha256 t u)
      → (rows : List Notification) (answer a : A) (t u : Tables)
      → ◌>>=◌ {B = A × Tables} (for_each step rows t) (λ v. ok (answer, v)) ≡ ok (a, u)
      → Moves sha256 t u
  loop-Moves step one rows answer a t u h =
      for_each-Moves step one rows t u (paired (for_each step rows t) answer a u h)

  pub reconcile_in_flight-Moves :
      (fault : Fault) (timestamp : ℤ) (t : Tables)
      → Moves sha256 t (reconcile_in_flight sha256 fault timestamp t).1
  unfolding reconcile_in_flight reconcile_body interrupt_row
  reconcile_in_flight-Moves fault timestamp t =
      transaction_keeps (Moves sha256 t) fault "reconciliation_failed" _ t stay (λ a u h.
        loop-Moves (interrupt_row sha256 fault timestamp)
          (λ row v w k.
            requeue_row-Moves fault timestamp is_claimed _ _ _ row v w (λ r. (refl, refl, refl)) k)
          (interrupted t.notification_outbox) _ a t u h)

  pub queue_dead_letters-Moves :
      (fault : Fault) (timestamp : ℤ) (max_items : ℕ) (t : Tables)
      → Moves sha256 t (queue_dead_letters sha256 fault timestamp max_items t).1
  unfolding queue_dead_letters redrive_body redrive_row
  queue_dead_letters-Moves fault timestamp max_items t =
      transaction_keeps (Moves sha256 t) fault "redrive_queue_failed" _ t stay (λ a u h.
        loop-Moves (redrive_row sha256 fault timestamp)
          (λ row v w k.
            requeue_row-Moves fault timestamp is_dead_letter _ _ _ row v w (λ r. (refl, refl, refl))
              k)
          (dead_letters max_items t.notification_outbox) _ a t u h)

  pub open_outbox-Moves :
      (fault : Fault) (timestamp : ℤ) (settings : Result Settings) (t : Tables)
      → Moves sha256 t (open_outbox sha256 fault timestamp settings t).1
  unfolding open_outbox
  open_outbox-Moves fault timestamp (err e) t = stay
  open_outbox-Moves fault timestamp (ok settings) t = reconcile_in_flight-Moves fault timestamp t

  module _ (settings : Settings) (fault : Fault) (timestamp now : ℤ) (max_items : Value)
      (turns : ℕ → Turn) (m : Machine) where
    drain_queued-Moves :
        (o : Result (Unit {0}) × Tables)
        → Moves sha256 o.1
            (drain_queued sha256 settings fault timestamp now max_items turns m o).1.tables
    unfolding drain_queued
    drain_queued-Moves (err e, t) = stay
    drain_queued-Moves (ok _, t) =
        drain_pending-Moves sha256 settings now max_items turns (record m { tables = t })

    redrive_within-Moves :
        (o : Result ℤ)
        → Moves sha256 m.tables
            (redrive_within sha256 settings fault timestamp now max_items turns m o).1.tables
    unfolding redrive_within
    redrive_within-Moves (err e) = stay
    redrive_within-Moves (ok n) =
        Moves-trans sha256 (queue_dead_letters-Moves fault timestamp (rounds n) m.tables)
          (drain_queued-Moves (queue_dead_letters sha256 fault timestamp (rounds n) m.tables))

    pub redrive_dead_letters-Moves :
        Moves sha256 m.tables
          (redrive_dead_letters sha256 settings fault timestamp now max_items turns m).1.tables
    unfolding redrive_dead_letters
    redrive_dead_letters-Moves =
        redrive_within-Moves (bounded_int max_items (pos 1) (pos 1000) "max_items_out_of_bounds")
