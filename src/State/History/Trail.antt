-- ===== src/State/History/Trail.antt =====
-- The audit trail of src/guardian_state.py only grows, in every history of the store.
use server_resource_guardian.Prelude.{String, ◌≡◌, sym, ◌∙◌, ap, List, [], ◌∷◌, ◌++◌}
use mathlib.Core.List.{append-nil, append_assoc}
use server_resource_guardian.State.{AuditRecord, Tables}
use server_resource_guardian.State.Steps.{
  Step, registered, consumed, claimed, moved, slot_claimed, slot_released, slot_marked,
  ledger_written, Steps_induction,
}
use server_resource_guardian.State.History.{Call, run}
use server_resource_guardian.State.History.Exclusive.{IsExclusive, run-Steps}

-- The records of the trail are those of an earlier one, and more behind them.
abbrev pub Extends : List AuditRecord → Tables → Type 0
Extends earlier u = (more : List AuditRecord) × (u.audit_records ≡ earlier ++ more)

one_more :
    (earlier : List AuditRecord) (t u : Tables) (r : AuditRecord)
    → u.audit_records ≡ t.audit_records ++ r ∷ []
    → Extends earlier t
    → Extends earlier u
one_more earlier t u r e (more, h) = (more ++ r ∷ [], e ∙ rw h (append_assoc earlier more (r ∷ [])))

Step-Extends :
    (earlier : List AuditRecord) (t u : Tables) → Step t u → Extends earlier t → Extends earlier u
Step-Extends earlier t u (registered a e w) (more, h) = (more, rw w h)
Step-Extends earlier t u (consumed a event_id now row r e s f l w) h =
    one_more earlier t u r (ap (λ (x : Tables). x.audit_records) w) h
Step-Extends earlier t u (claimed i r s unused key active w) h =
    one_more earlier t u r (ap (λ (x : Tables). x.audit_records) w) h
Step-Extends earlier t u (moved test f r same moves w) h =
    one_more earlier t u r (ap (λ (x : Tables). x.audit_records) w) h
Step-Extends earlier t u (slot_claimed s r active free w) h =
    one_more earlier t u r (ap (λ (x : Tables). x.audit_records) w) h
Step-Extends earlier t u (slot_released host_id action intent_id s r e owner active w) h =
    one_more earlier t u r (ap (λ (x : Tables). x.audit_records) w) h
Step-Extends earlier t u (slot_marked host_id action now r w) h =
    one_more earlier t u r (ap (λ (x : Tables). x.audit_records) w) h
Step-Extends earlier t u (ledger_written rows w) (more, h) = (more, rw w h)

-- In a store whose intents are exclusive, the audit records stay as they are through every sequence
-- of calls, and new ones come behind them.
pub run-Extends :
    (sha256 : String → String) (calls : List Call) (t : Tables)
    → IsExclusive t
    → Extends t.audit_records (run sha256 calls t)
run-Extends sha256 calls t h =
    Steps_induction (Extends t.audit_records) (Step-Extends t.audit_records)
      (run-Steps sha256 calls t h) ([], sym (append-nil t.audit_records))
