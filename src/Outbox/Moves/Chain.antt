-- ===== src/Outbox/Moves/Chain.antt =====
-- The audit chain of src/guardian_notification_outbox.py under every change of the tables.
use server_resource_guardian.Prelude.{String, ◌≡◌, none, []}
use server_resource_guardian.Outbox.{Tables}
use server_resource_guardian.Outbox.Audit.{audit_errors}
use server_resource_guardian.Outbox.Audit.Facts.{audit_errors-append}
use server_resource_guardian.Outbox.Moves.{
  Move, audited, inserted, changed, noted, paced, Moves, Moves_keeps,
}

module _ (sha256 : String → String) where
  -- What `verify_audit` finds wrong.
  abbrev pub IsChained : Tables → Type 0
  IsChained t = audit_errors sha256 1 none t.notification_audits ≡ []

  pub Move-IsChained : (t u : Tables) → Move sha256 t u → IsChained t → IsChained u
  Move-IsChained t _ (audited row p a) h =
      audit_errors-append sha256 1 none t.notification_audits row h p a
  Move-IsChained t _ (inserted r i e k) h = h
  Move-IsChained t _ (changed chosen f k) h = h
  Move-IsChained t _ (noted d change k l) h = h
  Move-IsChained t _ (paced times) h = h

  pub Moves-IsChained : {t u : Tables} → Moves sha256 t u → IsChained t → IsChained u
  Moves-IsChained h = Moves_keeps sha256 IsChained Move-IsChained h
