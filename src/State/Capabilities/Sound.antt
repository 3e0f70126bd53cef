-- ===== src/State/Capabilities/Sound.antt =====
-- The capability methods of src/guardian_state.py as steps.
use server_resource_guardian.Prelude.{
  String, ◌≡◌, ◌≢◌, refl, ◌⊎◌, inl, inr, false, true, Option, none, some, arith, is_some,
}
use server_resource_guardian.Prelude.Int
use server_resource_guardian.Prelude.Int.{ℤ}
use server_resource_guardian.Prelude.Tables.{find}
use server_resource_guardian.Result.{Result, ok, err}
use server_resource_guardian.Actions.{Authorization}
use server_resource_guardian.State.{
  CapabilityDecision, Capability, AuditRecord, Tables, Fault, commit, rollback,
}
use server_resource_guardian.State.Atomic.{audit-ok}
use server_resource_guardian.State.Capabilities.{
  has_approval, same_scope, register_body, register_capability, register_with, consume_with,
  consume_body, consume_rows, consume_write, consume_capability, authorization_fields,
}
use server_resource_guardian.State.Steps.{
  audited, Step, registered, consumed, Steps, here, transaction-Steps,
}

register_body-step :
    (a : Authorization) (t u : Tables) (o : Option Capability)
    → find (has_approval a.approval_id) t.capabilities ≡ o
    → register_body a t o ≡ commit u tt
    → (u ≡ t) ⊎ Step t u
unfolding register_body
register_body-step a t u none e h = inr (registered a e (ground arith))
register_body-step a t u (some c) e h = inl (ground arith)

register_with-Steps :
    (fault : Fault) (r : Result Authorization) (t : Tables) → Steps t (register_with fault r t).1
unfolding register_with
register_with-Steps fault (err e) t = here
register_with-Steps fault (ok a) t =
    transaction-Steps fault "capability_register_failed" _ t
      (λ u x e. register_body-step a t u _ refl e)

pub register_capability-Steps :
    (fault : Fault) (a : Authorization) (t : Tables) → Steps t (register_capability fault a t).1
unfolding register_capability
register_capability-Steps fault a t = register_with-Steps fault (authorization_fields a) t

pub consume_write-ok :
    (fault : Fault) (a : Authorization) (event_id : String) (now : ℤ) (t u : Tables)
    → consume_write fault a event_id now t ≡ ok u
    → (r : AuditRecord) × (u
        ≡ audited r
            (record t { capabilities = consume_rows a.approval_id now event_id t.capabilities }))
unfolding consume_write
consume_write-ok fault a event_id now t u h = audit-ok fault none "capability_consumed" _ now _ u h

-- What a consumption that commits has found and done.
pub consume_body-commit :
    (fault : Fault) (a : Authorization) (event_id : String) (now : ℤ) (t u : Tables)
    (row : Capability) (d : CapabilityDecision)
    → consume_body fault a event_id now t (some row) ≡ commit u d
    → (same_scope row a ≡ true)
      × (is_some row.consumed_at ≡ false)
      × (Int.leb a.expires_at now ≡ false)
      × (consume_write fault a event_id now t ≡ ok u)
unfolding consume_body
consume_body-commit fault a event_id now t u row d h = ground arith

consume_body-step :
    (fault : Fault) (a : Authorization) (event_id : String) (now : ℤ) (t u : Tables)
    (o : Option Capability) (d : CapabilityDecision)
    → find (has_approval a.approval_id) t.capabilities ≡ o
    → consume_body fault a event_id now t o ≡ commit u d
    → Step t u
unfolding consume_body
consume_body-step fault a event_id now t u none d e h = cc
consume_body-step fault a event_id now t u (some row) d e h =
    let (scope, fresh, live, written) = consume_body-commit fault a event_id now t u row d h in
    let (r, wrote) = consume_write-ok fault a event_id now t u written in
    consumed a event_id now row r e scope fresh live wrote

consume_with-Steps :
    (fault : Fault) (r : Result Authorization) (event_id : String) (now : ℤ) (t : Tables)
    → Steps t (consume_with fault r event_id now t).1
unfolding consume_with
consume_with-Steps fault (err e) event_id now t = here
consume_with-Steps fault (ok a) event_id now t =
    transaction-Steps fault "capability_consume_failed" _ t
      (λ u d e. inr (consume_body-step fault a event_id now t u _ d refl e))

pub consume_capability-Steps :
    (fault : Fault) (a : Authorization) (event_id : String) (now : ℤ) (t : Tables)
    → Steps t (consume_capability fault a event_id now t).1
unfolding consume_capability
consume_capability-Steps fault a event_id now t =
    consume_with-Steps fault (authorization_fields a) event_id now t

pub consume_body-allowed :
    (fault : Fault) (a : Authorization) (event_id : String) (now : ℤ) (t : Tables)
    (o : Option Capability) (d : CapabilityDecision)
    → d.allowed ≡ true
    → (consume_body fault a event_id now t o ≢ rollback d)
unfolding consume_body
consume_body-allowed fault a event_id now t none d h e = ground arith
consume_body-allowed fault a event_id now t (some row) d h e = ground arith
