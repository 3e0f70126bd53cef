-- ===== src/State/Slots/Sound.antt =====
-- The slot methods of src/guardian_state.py as steps.
use server_resource_guardian.Prelude.{
  String, ◌≡◌, refl, inr, Bool, true, Option, none, some, arith, eq_iff,
}
use server_resource_guardian.Prelude.Int.{ℤ}
use server_resource_guardian.Prelude.Tables.{find, delete}
use server_resource_guardian.Result.{ok}
use server_resource_guardian.State.{ActionSlot, AuditRecord, Tables, Fault, commit}
use server_resource_guardian.State.Atomic.{then_commit-commit, audit-ok}
use server_resource_guardian.State.Slots.{
  is_slot, is_held_slot, new_slot, claim_body, claim_action_slot, release_write, release_body,
  release_action_slot,
}
use server_resource_guardian.State.Steps.{
  audited, Step, slot_claimed, slot_released, Steps, transaction-Steps,
}

claim_body-step :
    (fault : Fault) (s : ActionSlot) (now : ℤ) (t u : Tables) (o : Option ActionSlot) (b : Bool)
    → s.state ≡ "ACTIVE"
    → find (is_slot s.host_id s.action) t.action_slots ≡ o
    → claim_body fault s now t o ≡ commit u b
    → Step t u
unfolding claim_body
claim_body-step fault s now t u (some x) b active e h = cc
claim_body-step fault s now t u none b active e h =
    let (written, _) = then_commit-commit true b _ u h in
    let (r, wrote) = audit-ok fault (some s.intent_id) "action_slot_claimed" _ now _ u written in
    slot_claimed s r active e wrote

pub claim_action_slot-Steps :
    (fault : Fault) (host_id action intent_id : String) (now : ℤ) (t : Tables)
    → Steps t (claim_action_slot fault host_id action intent_id now t).1
unfolding claim_action_slot
claim_action_slot-Steps fault host_id action intent_id now t =
    transaction-Steps fault "action_slot_claim_failed" _ t (λ u b e.
      inr (claim_body-step fault (new_slot host_id action intent_id now) now t u _ b refl refl e))

release_write-ok :
    (fault : Fault) (host_id action intent_id : String) (now : ℤ) (t u : Tables)
    → release_write fault host_id action intent_id now t ≡ ok u
    → (r : AuditRecord) × (u
        ≡ audited r (record t {
          action_slots = delete (is_held_slot host_id action intent_id) t.action_slots;
        }))
unfolding release_write
release_write-ok fault host_id action intent_id now t u h =
    audit-ok fault (some intent_id) "action_slot_released" _ now _ u h

release_body-commit :
    (fault : Fault) (host_id action intent_id : String) (now : ℤ) (t u : Tables) (s : ActionSlot)
    (b : Bool)
    → release_body fault host_id action intent_id now t (some s) ≡ commit u b
    → (s.intent_id ≡ intent_id)
      × (s.state ≡ "ACTIVE")
      × (release_write fault host_id action intent_id now t ≡ ok u)
unfolding release_body
release_body-commit fault host_id action intent_id now t u s b h =
    ground (arith, eq_iff s.intent_id intent_id, eq_iff s.state "ACTIVE")

release_body-step :
    (fault : Fault) (host_id action intent_id : String) (now : ℤ) (t u : Tables)
    (o : Option ActionSlot) (b : Bool)
    → find (is_slot host_id action) t.action_slots ≡ o
    → release_body fault host_id action intent_id now t o ≡ commit u b
    → Step t u
unfolding release_body
release_body-step fault host_id action intent_id now t u none b e h = cc
release_body-step fault host_id action intent_id now t u (some s) b e h =
    let (owner, active, written) =
      release_body-commit fault host_id action intent_id now t u s b h in
    let (r, wrote) = release_write-ok fault host_id action intent_id now t u written in
    slot_released host_id action intent_id s r e owner active wrote

pub release_action_slot-Steps :
    (fault : Fault) (host_id action intent_id : String) (now : ℤ) (t : Tables)
    → Steps t (release_action_slot fault host_id action intent_id now t).1
unfolding release_action_slot
release_action_slot-Steps fault host_id action intent_id now t =
    transaction-Steps fault "action_slot_release_failed" _ t
      (λ u b e. inr (release_body-step fault host_id action intent_id now t u _ b refl e))
