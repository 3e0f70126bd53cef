-- ===== src/Reserve/Claims/Started.antt =====
-- The rows that a granted `claim_execution` of src/guardian_reserve_state.py leaves.
use mathlib.Core.Option
use server_resource_guardian.Prelude.{
  ◌≡◌, refl, sym, ◌∙◌, subst, String, true, false, Option, none, some, List, [], ◌∷◌, ◌++◌, ◌==◌,
  if◌then◌else◌, is_some, eq_iff,
}
use server_resource_guardian.Prelude.Int.{ℤ}
use server_resource_guardian.Prelude.Tables.{find, update, find-update, find_test}
use server_resource_guardian.Result.{ok}
use server_resource_guardian.Reserve.{
  ReserveExecutionClaim, ReserveCapability, ReserveTables, Trouble,
}
use server_resource_guardian.Reserve.Approvals.{Approval, has_approval}
use server_resource_guardian.Reserve.Claims.{claim_rows, consumable, consume_row, claim_execution}
use server_resource_guardian.Reserve.Claims.Facts.{IsClaimable, Audited, claim_execution-written}

module _ (incident_id : String) (a : Approval) (target : String) (now : ℤ) where
  -- The approval is consumed for the incident, and the incident and the slot are there.
  pub record IsStarted (t u : ReserveTables) : Type 0 where
    pub consumed :
        (c : ReserveCapability) × (find (has_approval a.approval_id) u.capabilities ≡ some c)
        × (c.consumed_at ≡ some now)
        × (c.consumed_incident_id ≡ some incident_id)
    pub others :
        (approval_id : String)
        → (approval_id == a.approval_id) ≡ false
        → find (has_approval approval_id) u.capabilities
          ≡ find (has_approval approval_id) t.capabilities
    pub incident :
        u.incidents
        ≡ t.incidents
          ++ record {
            incident_id = incident_id;
            approval_id = a.approval_id;
            action = a.action;
            target = target;
            state = "EXECUTION_STARTED";
            created_at = now;
            updated_at = now;
            result_json = none;
          }
            ∷ []
    pub slot :
        u.slots
        ≡ t.slots
          ++ record {
            slot_key = "release_emergency_reserve";
            incident_id = incident_id;
            action = a.action;
            target = target;
            state = "EXECUTION_STARTED";
            acquired_at = now;
            updated_at = now;
          }
            ∷ []

  abbrev consumed_rows : List ReserveCapability → List ReserveCapability
  consumed_rows cs = update (consumable a.approval_id) (consume_row now incident_id) cs

  consumed_found :
      (cs : List ReserveCapability) (c : ReserveCapability)
      → find (has_approval a.approval_id) cs ≡ some c
      → is_some c.consumed_at ≡ false
      → find (has_approval a.approval_id) (consumed_rows cs) ≡ some (consume_row now incident_id c)
  consumed_found cs c found fresh =
      find-update (has_approval a.approval_id) (consumable a.approval_id)
        (consume_row now incident_id) (λ x. refl) cs
      ∙ rw (found, find_test (has_approval a.approval_id) cs c found, fresh) refl

  spared :
      (approval_id : String) (c : ReserveCapability)
      → (approval_id == a.approval_id) ≡ false
      → has_approval approval_id c ≡ true
      → consumable a.approval_id c ≡ false
  spared approval_id c other same = rw ((eq_iff c.approval_id approval_id).0 same, other) refl

  others_found :
      (approval_id : String) (cs : List ReserveCapability)
      → (approval_id == a.approval_id) ≡ false
      → find (has_approval approval_id) (consumed_rows cs) ≡ find (has_approval approval_id) cs
  others_found approval_id cs other =
      find-update (has_approval approval_id) (consumable a.approval_id)
        (consume_row now incident_id) (λ x. refl) cs
      ∙ kept (find (has_approval approval_id) cs) refl
    where
      kept :
          (o : Option ReserveCapability)
          → find (has_approval approval_id) cs ≡ o
          → Option.map
              (λ x. if consumable a.approval_id x then consume_row now incident_id x else x)
              o
            ≡ o
      kept none e = refl
      kept (some c) e =
          rw (spared approval_id c other (find_test (has_approval approval_id) cs c e)) refl

  claim_rows-IsStarted :
      (t u : ReserveTables)
      → IsClaimable incident_id a now t
      → Audited (claim_rows incident_id a target now t) u
      → IsStarted t u
  claim_rows-IsStarted t u claimable (rows, same) =
      let (c, found, fresh, _, _) = claimable.capability in
      subst (IsStarted t) (sym same) (record {
        consumed = (
          consume_row now incident_id c,
          consumed_found t.capabilities c found fresh,
          refl,
          refl,
        );
        others = λ approval_id other. others_found approval_id t.capabilities other;
        incident = refl;
        slot = refl;
      })

  -- An execution is claimed only under a registered approval that has the same scope, was not
  -- consumed and has not expired, for an incident that is new and while the slot is free. After the
  -- claim the approval is consumed, now and for this incident, while every other approval is as it
  -- was; one incident is added, EXECUTION_STARTED and without a result, and one row that takes the
  -- slot for it.
  pub claim_execution-claimed :
      (trouble : Trouble) (t : ReserveTables) (r : ReserveExecutionClaim)
      → (claim_execution trouble incident_id a target now t).0 ≡ ok r
      → r.claimed ≡ true
      → IsClaimable incident_id a now t
        × IsStarted t (claim_execution trouble incident_id a target now t).1
  claim_execution-claimed trouble t r e claimed =
      let (claimable, written) =
        claim_execution-written trouble incident_id a target now t r e claimed in
      (claimable, claim_rows-IsStarted t _ claimable written)
