-- ===== src/State/Reconcile.antt =====
-- `reconcile_pending` of src/guardian_state.py: what is in flight after a crash is handed to a person.
pub mod Sound
use server_resource_guardian.Prelude.{
  String, Bool, ◌&&◌, Option, none, some, List, [], ◌∷◌, ◌++◌, ◌==◌, if◌then◌else◌,
}
use server_resource_guardian.Prelude.Int
use server_resource_guardian.Prelude.Int.{ℤ}
use server_resource_guardian.Prelude.Tables.{select, update}
use server_resource_guardian.Result.{Result, ok, err, ◌>>=◌}
use server_resource_guardian.Value.{Value, text, object, field, end}
use server_resource_guardian.State.{
  Intent, ActionSlot, Tables, Fault, Outcome, commit, raise, transaction, audit,
}
use server_resource_guardian.State.Intents.{is_active, set_intent, set_state}
use server_resource_guardian.State.Slots.{is_slot}

abbrev pub reconciliation_required : String
reconciliation_required = "RECONCILIATION_REQUIRED"

-- `ORDER BY`, on a column of instants: insertion after the rows that are not later.
module _ {A : Type 0} (time : A → ℤ) where
  place : A → List A → List A
  place x [] = x ∷ []
  place x (y ∷ ys) =
      let rest = place x ys in if Int.leb (time y) (time x) then y ∷ rest else x ∷ y ∷ ys

  place_all : List A → List A → List A
  place_all [] placed = placed
  place_all (x ∷ xs) placed = place_all xs (place x placed)

  pub order_by : List A → List A
  unfolding place place_all
  order_by rows = place_all rows []

-- One round of the first loop.
mark_intent : Fault → ℤ → Intent → Tables → Result Tables
mark_intent fault now row t =
    audit fault (some row.intent_id) "reconciliation_required"
      (object (field "previous_state" (text row.state) (field "event_id" (text row.event_id) end)))
      now (set_intent row.intent_id (set_state reconciliation_required now) t)

-- `UPDATE action_slots … WHERE host_id=? AND action=? AND state='ACTIVE'`
abbrev pub is_active_slot : String → String → ActionSlot → Bool
is_active_slot host_id action s = is_slot host_id action s && s.state == "ACTIVE"

abbrev pub mark_row : ℤ → ActionSlot → ActionSlot
mark_row now s = record s { state = reconciliation_required; updated_at = now }

-- One round of the second loop.
mark_slot : Fault → ℤ → ActionSlot → Tables → Result Tables
mark_slot fault now row t =
    audit fault (some row.intent_id) "action_slot_reconciliation_required"
      (object (
        field "host_id" (text row.host_id)
          (field "action" (text row.action) (field "previous_state" (text row.state) end))))
      now
      (record t {
        action_slots = update (is_active_slot row.host_id row.action) (mark_row now) t.action_slots;
      })

each : {A : Type 0} → (A → Tables → Result Tables) → List A → Tables → Result Tables
each f [] t = ok t
each f (x ∷ xs) t = do u ← f x t; each f xs u

-- The items that the method returns; the state of each is set to RECONCILIATION_REQUIRED.
pub data Pending : Type 0 where
  pending_intent : (intent_id host_id object_id action event_id state : String) → Pending
  pending_slot : (host_id action intent_id state : String) → Pending

intent_item : Intent → Pending
intent_item i =
    pending_intent i.intent_id i.host_id i.object_id i.action i.event_id reconciliation_required

slot_item : ActionSlot → Pending
slot_item s = pending_slot s.host_id s.action s.intent_id reconciliation_required

items : {A : Type 0} → (A → Pending) → List A → List Pending
items f [] = []
items f (x ∷ xs) = f x ∷ items f xs

-- The rows that are in flight, in the order in which they are handled.
unfoldable pub in_flight : Tables → List Intent
unfolding order_by
in_flight t = order_by (λ i. i.created_at) (select (λ i. is_active i.state) t.intents)

unfoldable pub held : Tables → List ActionSlot
unfolding order_by
held t = order_by (λ s. s.acquired_at) (select (λ s. s.state == "ACTIVE") t.action_slots)

mark_all : Fault → ℤ → Tables → Result Tables
unfolding each mark_intent mark_slot
mark_all fault now t = do
  u ← each (mark_intent fault now) (in_flight t) t
  each (mark_slot fault now) (held u) u

report : Tables → Result Tables → Outcome (List Pending)
unfolding items intent_item slot_item
report t (err e) = raise e
report t (ok u) = commit u (items intent_item (in_flight t) ++ items slot_item (held t))

reconcile_body : Fault → ℤ → Tables → Outcome (List Pending)
unfolding mark_all report
reconcile_body fault now t = report t (mark_all fault now t)

unfoldable pub reconcile_pending : Fault → ℤ → Tables → Result (List Pending) × Tables
unfolding reconcile_body
reconcile_pending fault now t =
    transaction fault "reconciliation_failed" (reconcile_body fault now) t
