-- ===== src/Reserve/Approvals.antt =====
-- `register_capability` of src/guardian_reserve_state.py.
pub mod Facts
use server_resource_guardian.Prelude.{
  String, Bool, true, false, ◌&&◌, Option, none, some, List, [], ◌∷◌, ◌++◌, ◌==◌, if◌then◌else◌,
}
use server_resource_guardian.Prelude.Int
use server_resource_guardian.Prelude.Int.{ℤ}
use server_resource_guardian.Prelude.Tables.{find}
use server_resource_guardian.Result.{Result}
use server_resource_guardian.Value.{Value, text, number, object, field, end}
use server_resource_guardian.Reserve.{
  ReserveCapability, ReserveTables, Trouble, Ending, committed, refused, within, reserve_audit,
  then_commit,
}

-- The keyword arguments that describe an approval.
pub record Approval : Type 0 where
  pub approval_id : String
  pub environment : String
  pub target_id : String
  pub action : String
  pub expires_at : ℤ

-- `WHERE approval_id=?`
abbrev pub has_approval : String → ReserveCapability → Bool
has_approval approval_id c = c.approval_id == approval_id

-- `tuple(existing) == (environment, target_id, action, float(expires_at))`
unfoldable pub same_approval : ReserveCapability → Approval → Bool
same_approval c a =
    c.environment == a.environment
    && c.target_id == a.target_id
    && c.action == a.action
    && Int.eqb c.expires_at a.expires_at

abbrev pub capability_of : Approval → ReserveCapability
capability_of a = record {
  approval_id = a.approval_id;
  environment = a.environment;
  target_id = a.target_id;
  action = a.action;
  expires_at = a.expires_at;
  consumed_at = none;
  consumed_incident_id = none;
}

registered_payload : Approval → Value
registered_payload a = object (
    field "approval_id" (text a.approval_id) (
      field "environment" (text a.environment) (
        field "target_id" (text a.target_id)
          (field "action" (text a.action) (field "expires_at" (number a.expires_at) end)))))

register_body :
    Trouble → Approval → ℤ → ReserveTables → Option ReserveCapability → Ending (Unit {0})
unfolding registered_payload same_approval
register_body trouble a now t (some existing) =
    if same_approval existing a then committed t tt else refused "reserve_approval_identity_changed"
register_body trouble a now t none = then_commit tt (
    reserve_audit trouble "reserve_capability_registered" none (some a.approval_id)
      (registered_payload a) now
      (record t { capabilities = t.capabilities ++ capability_of a ∷ [] }))

unfoldable pub register_approval :
    Trouble → Approval → ℤ → ReserveTables → Result (Unit {0}) × ReserveTables
unfolding register_body
register_approval trouble a now t =
    within trouble "reserve_capability_register_failed"
      (λ u. register_body trouble a now u (find (has_approval a.approval_id) u.capabilities)) t
