-- ===== src/Reserve/Claims.antt =====
-- `claim_execution` of src/guardian_reserve_state.py.
pub mod Facts
pub mod Started
use server_resource_guardian.Prelude.{
  String, Bool, true, false, not, ◌&&◌, ◌||◌, Option, none, some, List, [], ◌∷◌, ◌++◌, ◌==◌,
  if◌then◌else◌, is_some,
}
use server_resource_guardian.Prelude.Int
use server_resource_guardian.Prelude.Int.{ℤ}
use server_resource_guardian.Prelude.Tables.{find, update}
use server_resource_guardian.Result.{Result, ok, err}
use server_resource_guardian.Value.{Value, text, object, field, end}
use server_resource_guardian.Reserve.{
  ReserveExecutionClaim, ReserveCapability, ReserveIncident, ReserveSlot, ReserveTables, Trouble,
  Ending, rolled_back, Writing, within, reserve_audit, then_commit, then_write,
}
use server_resource_guardian.Reserve.Approvals.{Approval, has_approval}

abbrev pub slot_key : String
slot_key = "release_emergency_reserve"

-- `WHERE incident_id=?`, `WHERE slot_key=?`
abbrev pub has_incident : String → ReserveIncident → Bool
has_incident incident_id i = i.incident_id == incident_id

abbrev pub is_slot : ReserveSlot → Bool
is_slot s = s.slot_key == slot_key

-- `tuple(capability[:3]) == (environment, target_id, action)`
unfoldable pub in_scope : ReserveCapability → Approval → Bool
in_scope c a = c.environment == a.environment && c.target_id == a.target_id && c.action == a.action

abbrev pub claim_of : Bool → String → String → ReserveExecutionClaim
claim_of claimed state reason = record { claimed = claimed; state = state; reason = reason }

abbrev pub new_incident : String → Approval → String → ℤ → ReserveIncident
new_incident incident_id a target now = record {
  incident_id = incident_id;
  approval_id = a.approval_id;
  action = a.action;
  target = target;
  state = "EXECUTION_STARTED";
  created_at = now;
  updated_at = now;
  result_json = none;
}

abbrev pub new_slot : String → Approval → String → ℤ → ReserveSlot
new_slot incident_id a target now = record {
  slot_key = slot_key;
  incident_id = incident_id;
  action = a.action;
  target = target;
  state = "EXECUTION_STARTED";
  acquired_at = now;
  updated_at = now;
}

-- `SET consumed_at=?,consumed_incident_id=? WHERE approval_id=? AND consumed_at IS NULL`
abbrev pub consume_row : ℤ → String → ReserveCapability → ReserveCapability
consume_row now incident_id c = record c {
  consumed_at = some now;
  consumed_incident_id = some incident_id;
}

abbrev pub consumable : String → ReserveCapability → Bool
consumable approval_id c = has_approval approval_id c && not (is_some c.consumed_at)

-- The two insertions and the update.
abbrev pub claim_rows : String → Approval → String → ℤ → ReserveTables → ReserveTables
claim_rows incident_id a target now t = record t {
  capabilities = update (consumable a.approval_id) (consume_row now incident_id) t.capabilities;
  incidents = t.incidents ++ new_incident incident_id a target now ∷ [];
  slots = t.slots ++ new_slot incident_id a target now ∷ [];
}

claim_payload : String → Approval → String → Value
claim_payload incident_id a target = object (
    field "incident_id" (text incident_id) (
      field "approval_id" (text a.approval_id)
        (field "action" (text a.action) (field "target" (text target) end))))

pub write_claim : Trouble → String → Approval → String → ℤ → ReserveTables → Writing
unfolding claim_payload
write_claim trouble incident_id a target now t =
    then_write
      (reserve_audit trouble "reserve_capability_consumed" (some incident_id) (some a.approval_id)
        (claim_payload incident_id a target) now (claim_rows incident_id a target now t))
      (reserve_audit trouble "reserve_execution_started" (some incident_id) (some a.approval_id)
        (claim_payload incident_id a target) now)

-- The incident and the slot are looked up after the capability has been accepted.
pub claim_free :
    Trouble
    → String
    → Approval
    → String
    → ℤ
    → ReserveTables
    → Option ReserveIncident
    → Option ReserveSlot
    → Ending ReserveExecutionClaim
unfolding write_claim
claim_free trouble incident_id a target now t (some existing) slot =
    rolled_back (claim_of false existing.state "reserve_incident_already_claimed")
claim_free trouble incident_id a target now t none (some slot) =
    rolled_back (claim_of false slot.state "reserve_active_slot_occupied")
claim_free trouble incident_id a target now t none none =
    then_commit (claim_of true "EXECUTION_STARTED" "reserve_execution_claimed")
      (write_claim trouble incident_id a target now t)

pub claim_body :
    Trouble
    → String
    → Approval
    → String
    → ℤ
    → ReserveTables
    → Option ReserveCapability
    → Ending ReserveExecutionClaim
unfolding claim_free in_scope
claim_body trouble incident_id a target now t none =
    rolled_back (claim_of false "DENIED" "reserve_approval_not_registered")
claim_body trouble incident_id a target now t (some c) =
    if is_some c.consumed_at
    then rolled_back (claim_of false "DENIED" "reserve_approval_already_consumed")
    else if Int.leb c.expires_at now || Int.leb a.expires_at now
    then rolled_back (claim_of false "DENIED" "reserve_approval_expired")
    else if not (in_scope c a)
    then rolled_back (claim_of false "DENIED" "reserve_approval_scope_mismatch")
    else claim_free trouble incident_id a target now t (find (has_incident incident_id) t.incidents)
        (find is_slot t.slots)

-- Every text of the identity must be there.
unfoldable pub is_named : String → Approval → String → Bool
is_named incident_id a target =
    not (incident_id == "")
    && not (a.approval_id == "")
    && not (a.environment == "")
    && not (a.target_id == "")
    && not (a.action == "")
    && not (target == "")

unfoldable pub claim_execution :
    Trouble
    → String
    → Approval
    → String
    → ℤ
    → ReserveTables
    → Result ReserveExecutionClaim × ReserveTables
unfolding claim_body is_named
claim_execution trouble incident_id a target now t =
    if not (is_named incident_id a target)
    then (err "reserve_execution_identity_invalid", t)
    else within trouble "reserve_execution_claim_failed"
        (λ u.
          claim_body trouble incident_id a target now u
            (find (has_approval a.approval_id) u.capabilities))
        t
