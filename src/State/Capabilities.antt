-- ===== src/State/Capabilities.antt =====
-- Capabilities of src/guardian_state.py: registration and single consumption.
pub mod Sound
pub mod Consumption
use server_resource_guardian.Prelude.{
  String, Bool, true, false, not, ◌&&◌, Option, none, some, List, [], ◌∷◌, ◌++◌, ◌==◌,
  if◌then◌else◌, is_some,
}
use server_resource_guardian.Prelude.Int
use server_resource_guardian.Prelude.Int.{ℤ}
use server_resource_guardian.Prelude.Tables.{find, update}
use server_resource_guardian.Result.{Result, ok, err, ◌>>=◌}
use server_resource_guardian.Value.{text, object, field, end}
use server_resource_guardian.Actions.{Authorization}
use server_resource_guardian.State.{
  CapabilityDecision, Capability, Tables, Fault, Outcome, commit, rollback, raise, transaction,
  audit, then_commit,
}

-- `_authorization_fields`, on a well-formed authorization.
unfoldable pub authorization_fields : Authorization → Result Authorization
authorization_fields authorization =
    if authorization.approval_id == "" then err "approval_id_missing" else ok authorization

-- `WHERE approval_id=?`
abbrev pub has_approval : String → Capability → Bool
has_approval approval_id c = c.approval_id == approval_id

-- `tuple(row[:4]) == (environment, target_id, action, expires_at)`
unfoldable pub same_scope : Capability → Authorization → Bool
same_scope c a =
    c.environment == a.environment
    && c.target_id == a.target_id
    && c.action == a.action
    && Int.eqb c.expires_at a.expires_at

abbrev pub capability_of : Authorization → Capability
capability_of a = record {
  approval_id = a.approval_id;
  environment = a.environment;
  target_id = a.target_id;
  action = a.action;
  expires_at = a.expires_at;
  consumed_at = none;
  consumed_event_id = none;
}

register_body : Authorization → Tables → Option Capability → Outcome (Unit {0})
unfolding same_scope
register_body a t (some existing) =
    if same_scope existing a then commit t tt else raise "capability_conflict"
register_body a t none =
    commit (record t { capabilities = t.capabilities ++ capability_of a ∷ [] }) tt

register_with : Fault → Result Authorization → Tables → Result (Unit {0}) × Tables
unfolding register_body
register_with fault (err e) t = (err e, t)
register_with fault (ok a) t =
    transaction fault "capability_register_failed"
      (λ u. register_body a u (find (has_approval a.approval_id) u.capabilities)) t

unfoldable pub register_capability : Fault → Authorization → Tables → Result (Unit {0}) × Tables
unfolding authorization_fields register_with
register_capability fault authorization t =
    register_with fault (authorization_fields authorization) t

abbrev pub decision : Bool → String → CapabilityDecision
decision allowed reason = record { allowed = allowed; reason = reason }

-- `SET consumed_at=?,consumed_event_id=?`
abbrev pub consume_row : ℤ → String → Capability → Capability
consume_row now event_id c = record c { consumed_at = some now; consumed_event_id = some event_id }

-- `UPDATE capabilities … WHERE approval_id=? AND consumed_at IS NULL`
unfoldable pub consume_rows : String → ℤ → String → List Capability → List Capability
consume_rows approval_id now event_id =
    update (λ c. has_approval approval_id c && not (is_some c.consumed_at))
      (consume_row now event_id)

-- The update of the row and its audit record.
pub consume_write : Fault → Authorization → String → ℤ → Tables → Result Tables
unfolding consume_rows
consume_write fault a event_id now t =
    audit fault none "capability_consumed"
      (object (
        field "approval_id" (text a.approval_id) (
          field "target_id" (text a.target_id)
            (field "action" (text a.action) (field "event_id" (text event_id) end)))))
      now (record t { capabilities = consume_rows a.approval_id now event_id t.capabilities })

pub consume_body :
    Fault → Authorization → String → ℤ → Tables → Option Capability → Outcome CapabilityDecision
unfolding same_scope consume_write
consume_body fault a event_id now t none = rollback (decision false "capability_not_registered")
consume_body fault a event_id now t (some row) =
    if not (same_scope row a)
    then rollback (decision false "capability_record_mismatch")
    else if is_some row.consumed_at
    then rollback (decision false "capability_already_consumed")
    else if Int.leb a.expires_at now
    then rollback (decision false "capability_expired")
    else then_commit (decision true "capability_consumed") (consume_write fault a event_id now t)

pub consume_with :
    Fault → Result Authorization → String → ℤ → Tables → Result CapabilityDecision × Tables
unfolding consume_body
consume_with fault (err e) event_id now t = (err e, t)
consume_with fault (ok a) event_id now t =
    transaction fault "capability_consume_failed"
      (λ u. consume_body fault a event_id now u (find (has_approval a.approval_id) u.capabilities))
      t

unfoldable pub consume_capability :
    Fault → Authorization → String → ℤ → Tables → Result CapabilityDecision × Tables
unfolding authorization_fields consume_with
consume_capability fault authorization event_id now t =
    consume_with fault (authorization_fields authorization) event_id now t
