-- ===== src/Outbox/Requeue/Restart.antt =====
-- `reconcile_in_flight` of src/guardian_notification_outbox.py on a database that answers: no row
-- stays in flight, and no row becomes pending.
use server_resource_guardian.Prelude.{
  ◌≤◌, String, Bool, true, false, ◌||◌, ◌≡◌, refl, arith, Option, none, some, List, [], ◌∷◌, ◌==◌,
  is_some, one_of, map, All, Bool-cases, if-cases, inl, inr, eq_refl, subst, sym, ap, ◌∙◌, length,
}
use server_resource_guardian.Prelude.Int
use server_resource_guardian.Prelude.Int.{ℤ}
use server_resource_guardian.Prelude.Tables.{update, select}
use server_resource_guardian.Prelude.Tables.Order.{order_by, insert_by, for_each, All-order_by}
use server_resource_guardian.Prelude.Tables.Pairs.{All-weaken, All-select}
use server_resource_guardian.Result.{ok}
use server_resource_guardian.Value.{Value}
use server_resource_guardian.State.{sound}
use server_resource_guardian.Outbox.{
  Status, dead_letter, is_in_flight, is_active, Notification, Tables, mapping, transaction, settle,
}
use server_resource_guardian.Outbox.Audit.Facts.{append_audit_sound}
use server_resource_guardian.Outbox.Finish.{is_claimed}
use server_resource_guardian.Outbox.Deliver.Counting.{waiting, IsResting, waiting-finished}
use server_resource_guardian.Outbox.Requeue.{
  interrupted, requeued, requeue_row, interrupt_row, reconcile_body, reconcile_in_flight,
}
use server_resource_guardian.Outbox.Moves.Rows.{IsDecodable}

abbrev ids : List Notification → List String
ids rows = map (λ r. r.notification_id) rows

-- A row in flight is among the rows that are still to be reconciled.
abbrev IsCovered : List Notification → Notification → Type 0
IsCovered rest r = is_in_flight r.status ≡ true → one_of r.notification_id (ids rest) ≡ true

one_of-insert_by :
    (before : Notification → Notification → Bool) (id : String) (x : Notification)
    (xs : List Notification)
    → one_of id (ids (insert_by before x xs)) ≡ (id == x.notification_id || one_of id (ids xs))
unfolding insert_by
one_of-insert_by before id x [] = refl
one_of-insert_by before id x (y ∷ ys) = elim (Bool-cases (before y x)) [
  | inl on ↦
      rw (on, one_of-insert_by before id x ys)
        (swap (id == y.notification_id) (id == x.notification_id) _)
  | inr off ↦ rw off refl
]
  where
    swap : (a b c : Bool) → (a || (b || c)) ≡ (b || (a || c))
    swap a b c = ground arith

one_of-order_by :
    (before : Notification → Notification → Bool) (id : String) (xs : List Notification)
    → one_of id (ids (order_by before xs)) ≡ one_of id (ids xs)
unfolding order_by
one_of-order_by before id [] = refl
one_of-order_by before id (x ∷ xs) =
    one_of-insert_by before id x (order_by before xs)
    ∙ ap (λ b. id == x.notification_id || b) (one_of-order_by before id xs)

-- A row in flight is found by the query.
selected_more :
    (r : Notification) (rows : List Notification) (id : String)
    → one_of id (ids (select (λ x. is_in_flight x.status) rows)) ≡ true
    → one_of id (ids (select (λ x. is_in_flight x.status) (r ∷ rows))) ≡ true
unfolding select
selected_more r rows id h = ground arith

All-IsCovered :
    (rows : List Notification) → All (IsCovered (select (λ x. is_in_flight x.status) rows)) rows
unfolding select
All-IsCovered [] = tt
All-IsCovered (r ∷ rows) = (
  here,
  All-weaken (IsCovered (select (λ x. is_in_flight x.status) rows)) _
      (λ x c k. selected_more r rows x.notification_id (c k)) rows (All-IsCovered rows),
)
  where
    here : IsCovered (select (λ x. is_in_flight x.status) (r ∷ rows)) r
    here k = ground (arith, eq_refl r.notification_id)

IsCovered-less :
    (row : Notification) (rest : List Notification) (f : Notification → Notification)
    → ((r : Notification) → is_active (f r).status ≡ false)
    → (rows : List Notification) → All (IsCovered (row ∷ rest)) rows
    → All (IsCovered rest) (update (is_claimed row.notification_id) f rows)
unfolding update
IsCovered-less row rest f final [] h = tt
IsCovered-less row rest f final (r ∷ rows) h = (
  if-cases (IsCovered rest) (is_claimed row.notification_id r) _ _
      (λ on k. cc (sym k ∙ at_rest (f r).status (final r))) (λ off k. other off k (h.0 k)),
  IsCovered-less row rest f final rows h.1,
)
  where
    at_rest : (s : Status) → is_active s ≡ false → is_in_flight s ≡ false
    at_rest s k = ground arith

    other :
        is_claimed row.notification_id r ≡ false
        → is_in_flight r.status ≡ true
        → one_of r.notification_id (ids (row ∷ rest)) ≡ true
        → one_of r.notification_id (ids rest) ≡ true
    other off k c = ground arith

covered_none : (rows : List Notification) → All (IsCovered []) rows → All IsResting rows
covered_none [] h = tt
covered_none (r ∷ rows) h = (resting (is_in_flight r.status) h.0, covered_none rows h.1)
  where
    resting : (b : Bool) → (b ≡ true → false ≡ true) → b ≡ false
    resting true k = sym (k refl)
    resting false k = refl

-- No row is in flight, and no more rows are pending than before.
pub record IsReconciled (t u : Tables) : Type 0 where
  pub resting : All IsResting u.notification_outbox
  pub pending : waiting u.notification_outbox ≤ waiting t.notification_outbox

module _ (sha256 : String → String) (timestamp : ℤ) where
  abbrev dead : Notification → Notification
  dead r = record r {
    status = dead_letter;
    last_error = some "delivery_interrupted";
    updated_at = timestamp;
  }

  interrupt_row_sound :
      (row : Notification) (t : Tables)
      → is_some row.payload_json ≡ true
      → (u : Tables) × (interrupt_row sha256 sound timestamp row t ≡ ok u)
        × (u.notification_outbox
            ≡ update (is_claimed row.notification_id) dead t.notification_outbox)
  unfolding interrupt_row requeue_row
  interrupt_row_sound row t h = go row.payload_json h
    where
      go :
          (o : Option Value)
          → is_some o ≡ true
          → (u : Tables) × (requeued sha256 sound timestamp is_claimed dead
                "RECONCILIATION_REQUIRED" "delivery_interrupted" row t o
              ≡ ok u)
            × (u.notification_outbox
                ≡ update (is_claimed row.notification_id) dead t.notification_outbox)
      go none k = cc
      go (some payload) k =
          append_audit_sound sha256 (mapping payload) "RECONCILIATION_REQUIRED" row.attempts
            (some "delivery_interrupted") timestamp
            (record t {
              notification_outbox =
                  update (is_claimed row.notification_id) dead t.notification_outbox;
            })

  interrupt_rows_sound :
      (rest : List Notification) (t : Tables)
      → All IsDecodable rest
      → All (IsCovered rest) t.notification_outbox
      → (u : Tables) × (for_each (interrupt_row sha256 sound timestamp) rest t ≡ ok u)
        × IsReconciled t u
  unfolding for_each
  interrupt_rows_sound [] t d h =
      (t, refl, record { resting = covered_none t.notification_outbox h; pending = omega arith })
  interrupt_rows_sound (row ∷ rest) t d h =
      let (v, stepped, rows) = interrupt_row_sound row t d.0 in
      let (u, looped, reconciled) = interrupt_rows_sound rest v d.1 (
        subst (All (IsCovered rest)) (sym rows)
          (IsCovered-less row rest dead (λ r. refl) t.notification_outbox h)) in
      (
        u,
        rw (stepped, looped) refl,
        record {
          resting = reconciled.resting;
          pending = omega (
            arith,
            reconciled.pending,
            ap waiting rows,
            waiting-finished row.notification_id dead (λ r. refl) t.notification_outbox,
          );
        },
      )

  pub reconcile_in_flight_sound :
      (t : Tables)
      → All IsDecodable t.notification_outbox
      → (u : Tables) × (reconcile_in_flight sha256 sound timestamp t
          ≡ (ok (length (interrupted t.notification_outbox)), u))
        × IsReconciled t u
  unfolding reconcile_in_flight reconcile_body transaction settle interrupted
  reconcile_in_flight_sound t d =
      let before : Notification → Notification → Bool = λ r s. Int.ltb r.created_at s.created_at in
      let flying = select (λ r. is_in_flight r.status) t.notification_outbox in
      let (u, looped, reconciled) =
        interrupt_rows_sound (order_by before flying) t
          (All-order_by IsDecodable before flying (
            All-select IsDecodable (λ r. is_in_flight r.status) t.notification_outbox
              (All-weaken IsDecodable _ (λ r p. inr p) t.notification_outbox d)))
          (All-weaken (IsCovered flying) (IsCovered (order_by before flying))
            (λ r c k. one_of-order_by before r.notification_id flying ∙ c k) t.notification_outbox
            (All-IsCovered t.notification_outbox)) in
      (u, rw looped refl, reconciled)
