-- ===== src/State/Slots.antt =====
-- Action slots of src/guardian_state.py: the lease of a host and action.
pub mod Sound
use server_resource_guardian.Prelude.{
  String, Bool, true, false, not, ◌&&◌, ◌||◌, Option, none, some, List, [], ◌∷◌, ◌++◌, ◌==◌,
  if◌then◌else◌,
}
use server_resource_guardian.Prelude.Int.{ℤ}
use server_resource_guardian.Prelude.Tables.{find, delete}
use server_resource_guardian.Result.{Result}
use server_resource_guardian.Value.{Value, text, object, field, end}
use server_resource_guardian.State.{
  ActionSlot, Tables, Fault, Outcome, rollback, transaction, audit, then_commit,
}

-- `WHERE host_id=? AND action=?`
abbrev pub is_slot : String → String → ActionSlot → Bool
is_slot host_id action s = s.host_id == host_id && s.action == action

slot_payload : String → String → Value
slot_payload host_id action =
    object (field "host_id" (text host_id) (field "action" (text action) end))

abbrev pub new_slot : String → String → String → ℤ → ActionSlot
new_slot host_id action intent_id now = record {
  host_id = host_id;
  action = action;
  intent_id = intent_id;
  state = "ACTIVE";
  acquired_at = now;
  updated_at = now;
}

claim_body : Fault → ActionSlot → ℤ → Tables → Option ActionSlot → Outcome Bool
claim_body fault slot now t (some existing) = rollback false
claim_body fault slot now t none = then_commit true (
    audit fault (some slot.intent_id) "action_slot_claimed" (slot_payload slot.host_id slot.action)
      now (record t { action_slots = t.action_slots ++ slot ∷ [] }))

unfoldable pub claim_action_slot :
    Fault → (host_id action intent_id : String) → ℤ → Tables → Result Bool × Tables
unfolding claim_body slot_payload
claim_action_slot fault host_id action intent_id now t =
    transaction fault "action_slot_claim_failed"
      (λ u.
        claim_body fault (new_slot host_id action intent_id now) now u
          (find (is_slot host_id action) u.action_slots))
      t

-- `WHERE host_id=? AND action=? AND intent_id=? AND state='ACTIVE'`
abbrev pub is_held_slot : String → String → String → ActionSlot → Bool
is_held_slot host_id action intent_id s =
    is_slot host_id action s && s.intent_id == intent_id && s.state == "ACTIVE"

release_write : Fault → (host_id action intent_id : String) → ℤ → Tables → Result Tables
unfolding slot_payload
release_write fault host_id action intent_id now t =
    audit fault (some intent_id) "action_slot_released" (slot_payload host_id action) now
      (record t { action_slots = delete (is_held_slot host_id action intent_id) t.action_slots })

release_body :
    Fault → (host_id action intent_id : String) → ℤ → Tables → Option ActionSlot → Outcome Bool
unfolding release_write
release_body fault host_id action intent_id now t none = rollback false
release_body fault host_id action intent_id now t (some existing) =
    if not (existing.intent_id == intent_id) || not (existing.state == "ACTIVE")
    then rollback false
    else then_commit true (release_write fault host_id action intent_id now t)

unfoldable pub release_action_slot :
    Fault → (host_id action intent_id : String) → ℤ → Tables → Result Bool × Tables
unfolding release_body
release_action_slot fault host_id action intent_id now t =
    transaction fault "action_slot_release_failed"
      (λ u.
        release_body fault host_id action intent_id now u
          (find (is_slot host_id action) u.action_slots))
      t
