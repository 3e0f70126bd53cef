-- ===== src/Reserve/Claims/Facts.antt =====
-- What `claim_execution` of src/guardian_reserve_state.py takes and leaves.
use server_resource_guardian.Prelude.{
  ◌≡◌, refl, if-cases, inl, inr, String, true, false, not, Option, none, some, List, arith, is_some,
}
use server_resource_guardian.Prelude.Int.{ℤ, ◌<ℤ◌}
use server_resource_guardian.Prelude.Tables.{find}
use server_resource_guardian.Result.{Result, ok}
use server_resource_guardian.Reserve.{
  Ending, within, ReserveExecutionClaim, ReserveCapability, ReserveIncident, ReserveSlot,
  ReserveAudit, ReserveTables, Trouble, committed, rolled_back, wrote, too_large, not_written,
  Writing, then_write,
}
use server_resource_guardian.Reserve.Sound.{
  within_keeps, within-ok, reserve_audit-wrote, then_commit-committed, then_commit-rolled_back,
}
use server_resource_guardian.Reserve.Approvals.{Approval, has_approval}
use server_resource_guardian.Reserve.Claims.{
  has_incident, is_slot, in_scope, claim_rows, write_claim, claim_free, claim_body, claim_execution,
  is_named,
}

-- The tables `u` are `t` with other audits.
abbrev pub Audited : ReserveTables → ReserveTables → Type 0
Audited t u = (rows : List ReserveAudit) × (u ≡ record t { audits = rows })

then_write-wrote :
    (m : Writing) (k : ReserveTables → Writing) (u : ReserveTables)
    → then_write m k ≡ wrote u
    → (v : ReserveTables) × (m ≡ wrote v) × (k v ≡ wrote u)
then_write-wrote (wrote v) k u h = (v, refl, h)
then_write-wrote (too_large e) k u h = cc
then_write-wrote (not_written e) k u h = cc

write_claim-wrote :
    (trouble : Trouble) (incident_id : String) (a : Approval) (target : String) (now : ℤ)
    (t u : ReserveTables)
    → write_claim trouble incident_id a target now t ≡ wrote u
    → Audited (claim_rows incident_id a target now t) u
unfolding write_claim
write_claim-wrote trouble incident_id a target now t u h =
    let (v, first, second) = then_write-wrote _ _ u h in
    let (rows, e) = reserve_audit-wrote trouble "reserve_capability_consumed" _ _ _ now _ v first in
    let (rows', e') =
      reserve_audit-wrote trouble "reserve_execution_started" _ _ _ now v u second in
    (rows', rw (e', e) refl)

-- The conditions under which an execution is claimed.
pub record IsClaimable (incident_id : String) (a : Approval) (now : ℤ) (t : ReserveTables)
    : Type 0 where
  pub capability :
      (c : ReserveCapability) × (find (has_approval a.approval_id) t.capabilities ≡ some c)
      × (is_some c.consumed_at ≡ false)
      × (now <ℤ c.expires_at)
      × (in_scope c a ≡ true)
  pub unexpired : now <ℤ a.expires_at
  pub new_incident : find (has_incident incident_id) t.incidents ≡ none
  pub free_slot : find is_slot t.slots ≡ none

claim_free-committed :
    (trouble : Trouble) (incident_id : String) (a : Approval) (target : String) (now : ℤ)
    (t u : ReserveTables) (i : Option ReserveIncident) (s : Option ReserveSlot)
    (r : ReserveExecutionClaim)
    → claim_free trouble incident_id a target now t i s ≡ committed u r
    → (i ≡ none)
      × (s ≡ none)
      × (r.claimed ≡ true)
      × Audited (claim_rows incident_id a target now t) u
unfolding claim_free
claim_free-committed trouble incident_id a target now t u (some i) s r h = cc
claim_free-committed trouble incident_id a target now t u none (some s) r h = cc
claim_free-committed trouble incident_id a target now t u none none r h =
    let (written, same) = then_commit-committed _ _ r u h in
    (refl, refl, rw same refl, write_claim-wrote trouble incident_id a target now t u written)

claim_body-passed :
    (trouble : Trouble) (incident_id : String) (a : Approval) (target : String) (now : ℤ)
    (t u : ReserveTables) (c : ReserveCapability) (r : ReserveExecutionClaim)
    → claim_body trouble incident_id a target now t (some c) ≡ committed u r
    → (is_some c.consumed_at ≡ false)
      × (now <ℤ c.expires_at)
      × (in_scope c a ≡ true)
      × (now <ℤ a.expires_at)
      × (claim_free trouble incident_id a target now t
            (find (has_incident incident_id) t.incidents)
            (find is_slot t.slots)
          ≡ committed u r)
unfolding claim_body
claim_body-passed trouble incident_id a target now t u c r h = ground arith

-- A claim that commits had every condition, and wrote its rows.
pub claim_body-committed :
    (trouble : Trouble) (incident_id : String) (a : Approval) (target : String) (now : ℤ)
    (t u : ReserveTables) (o : Option ReserveCapability) (r : ReserveExecutionClaim)
    → find (has_approval a.approval_id) t.capabilities ≡ o
    → claim_body trouble incident_id a target now t o ≡ committed u r
    → IsClaimable incident_id a now t
      × (r.claimed ≡ true)
      × Audited (claim_rows incident_id a target now t) u
unfolding claim_body
claim_body-committed trouble incident_id a target now t u none r e h = cc
claim_body-committed trouble incident_id a target now t u (some c) r e h =
    let (fresh, live, scope, unexpired, go) =
      claim_body-passed trouble incident_id a target now t u c r h in
    let (new, free, claimed, written) =
      claim_free-committed trouble incident_id a target now t u _ _ r go in
    (
      record {
        capability = (c, e, fresh, live, scope);
        unexpired = unexpired;
        new_incident = new;
        free_slot = free;
      },
      claimed,
      written,
    )

claim_free-refused :
    (trouble : Trouble) (incident_id : String) (a : Approval) (target : String) (now : ℤ)
    (t : ReserveTables) (i : Option ReserveIncident) (s : Option ReserveSlot)
    (r : ReserveExecutionClaim)
    → claim_free trouble incident_id a target now t i s ≡ rolled_back r
    → r.claimed ≡ false
unfolding claim_free
claim_free-refused trouble incident_id a target now t (some i) s r h = ground arith
claim_free-refused trouble incident_id a target now t none (some s) r h = ground arith
claim_free-refused trouble incident_id a target now t none none r h =
    absurd (then_commit-rolled_back (write_claim trouble incident_id a target now t) _ r h)

-- A claim that rolls back is refused.
pub claim_body-refused :
    (trouble : Trouble) (incident_id : String) (a : Approval) (target : String) (now : ℤ)
    (t : ReserveTables) (o : Option ReserveCapability) (r : ReserveExecutionClaim)
    → claim_body trouble incident_id a target now t o ≡ rolled_back r
    → r.claimed ≡ false
unfolding claim_body
claim_body-refused trouble incident_id a target now t none r h = ground arith
claim_body-refused trouble incident_id a target now t (some c) r h = ground (
  arith,
  claim_free-refused trouble incident_id a target now t
      (find (has_incident incident_id) t.incidents) (find is_slot t.slots) r,
)

-- What holds before a call, and after a claim that is written, holds after the call.
pub claim_execution_keeps :
    (P : ReserveTables → Type 0) (trouble : Trouble) (incident_id : String) (a : Approval)
    (target : String) (now : ℤ) (t : ReserveTables)
    → P t
    → ((u : ReserveTables)
        → IsClaimable incident_id a now t
        → Audited (claim_rows incident_id a target now t) u
        → P u)
    → P (claim_execution trouble incident_id a target now t).1
unfolding claim_execution
claim_execution_keeps P trouble incident_id a target now t h k =
    if-cases (λ (m : Result ReserveExecutionClaim × ReserveTables). P m.1)
      (not (is_named incident_id a target)) _ _ (λ _. h)
      (λ _. within_keeps P trouble "reserve_execution_claim_failed" _ t h (λ u r e.
        let (claimable, _, written) =
          claim_body-committed trouble incident_id a target now t u _ r refl e in
        k u claimable written))

-- An execution is claimed only under a registered approval that has the same scope, was not consumed
-- and has not expired, for an incident that is new and while the slot is free, and it writes its
-- rows.
pub claim_execution-written :
    (trouble : Trouble) (incident_id : String) (a : Approval) (target : String) (now : ℤ)
    (t : ReserveTables) (r : ReserveExecutionClaim)
    → (claim_execution trouble incident_id a target now t).0 ≡ ok r
    → r.claimed ≡ true
    → IsClaimable incident_id a now t
      × Audited
          (claim_rows incident_id a target now t)
          (claim_execution trouble incident_id a target now t).1
unfolding claim_execution
claim_execution-written trouble incident_id a target now t r =
    if-cases
      (λ (m : Result ReserveExecutionClaim × ReserveTables).
        m.0 ≡ ok r
        → r.claimed ≡ true
        → IsClaimable incident_id a now t × Audited (claim_rows incident_id a target now t) m.1)
      (not (is_named incident_id a target)) _ _ (λ _ e c. cc e) (λ _ e c. claimed e c)
  where
    body : ReserveTables → Ending ReserveExecutionClaim
    body u =
        claim_body trouble incident_id a target now u
          (find (has_approval a.approval_id) u.capabilities)

    claimed :
        (within trouble "reserve_execution_claim_failed" body t).0 ≡ ok r
        → r.claimed ≡ true
        → IsClaimable incident_id a now t
          × Audited
              (claim_rows incident_id a target now t)
              (within trouble "reserve_execution_claim_failed" body t).1
    claimed e c = elim (within-ok trouble "reserve_execution_claim_failed" body t r e) [
      | inl done ↦
          let (claimable, _, written) =
            claim_body-committed trouble incident_id a target now t _ _ r refl done in
          (claimable, written)
      | inr back ↦
          let no = claim_body-refused trouble incident_id a target now t _ r back in ground arith
    ]
