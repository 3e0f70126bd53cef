-- ===== src/Reserve/Approvals/Facts.antt =====
-- What `register_capability` of src/guardian_reserve_state.py writes.
use server_resource_guardian.Prelude.{◌≡◌, Option, none, some, List, arith}
use server_resource_guardian.Prelude.Int.{ℤ}
use server_resource_guardian.Reserve.{
  ReserveCapability, ReserveAudit, ReserveTables, Trouble, committed,
}
use server_resource_guardian.Reserve.Sound.{
  within_keeps, reserve_audit-wrote, then_commit-committed,
}
use server_resource_guardian.Reserve.Approvals.{Approval, register_body, register_approval}

-- The tables `u` are `t` with other capabilities and audits.
abbrev pub Recorded : ReserveTables → ReserveTables → Type 0
Recorded t u =
    (capabilities : List ReserveCapability) × (audits : List ReserveAudit) × (u
      ≡ record t { capabilities = capabilities; audits = audits })

register_body-committed :
    (trouble : Trouble) (a : Approval) (now : ℤ) (t u : ReserveTables)
    (o : Option ReserveCapability) (x : Unit {0})
    → register_body trouble a now t o ≡ committed u x
    → Recorded t u
unfolding register_body
register_body-committed trouble a now t u none x h =
    let (written, _) = then_commit-committed _ tt x u h in
    let (rows, e) =
      reserve_audit-wrote trouble "reserve_capability_registered" _ _ _ now _ u written in
    (_, rows, e)
register_body-committed trouble a now t u (some c) x h = (t.capabilities, t.audits, ground arith)

pub register_approval_keeps :
    (P : ReserveTables → Type 0) (trouble : Trouble) (a : Approval) (now : ℤ) (t : ReserveTables)
    → P t
    → ((u : ReserveTables) → Recorded t u → P u)
    → P (register_approval trouble a now t).1
unfolding register_approval
register_approval_keeps P trouble a now t h k =
    within_keeps P trouble "reserve_capability_register_failed" _ t h
      (λ u x e. k u (register_body-committed trouble a now t u _ x e))
