-- ===== src/Reserve/Sound.antt =====
-- How the calls of src/guardian_reserve_state.py end, and what they leave of the tables.
use server_resource_guardian.Prelude.{
  ◌≡◌, ◌≢◌, refl, ◌⊎◌, inl, inr, String, Option, List, [], ◌∷◌, ◌++◌,
}
use server_resource_guardian.Prelude.Int.{ℤ}
use server_resource_guardian.Result.{Result, ok, err}
use server_resource_guardian.Value.{Value}
use server_resource_guardian.Reserve.{
  ReserveAudit, ReserveTables, Trouble, healthy, opening, beginning, writing, Ending, committed,
  rolled_back, refused, database_error, Writing, wrote, too_large, not_written, then_commit, close,
  within, insert_audit, audit_text, reserve_audit, reserve_json,
}

module _ {A : Type 0} where
  close-keeps :
      (P : ReserveTables → Type 0) (label : String) (x : Ending A) (t : ReserveTables)
      → P t
      → ((u : ReserveTables) (a : A) → x ≡ committed u a → P u)
      → P (close label x t).1
  unfolding close
  close-keeps P label (committed u a) t h k = k u a refl
  close-keeps P label (rolled_back a) t h k = h
  close-keeps P label (refused e) t h k = h
  close-keeps P label (database_error e) t h k = h

  -- What holds before a call and after each of its commits holds after the call.
  pub within_keeps :
      (P : ReserveTables → Type 0) (trouble : Trouble) (label : String)
      (body : ReserveTables → Ending A) (t : ReserveTables)
      → P t
      → ((u : ReserveTables) (a : A) → body t ≡ committed u a → P u)
      → P (within trouble label body t).1
  unfolding within
  within_keeps P healthy label body t h k = close-keeps P label (body t) t h k
  within_keeps P (writing e) label body t h k = close-keeps P label (body t) t h k
  within_keeps P (opening e) label body t h k = h
  within_keeps P (beginning e) label body t h k = h

  close-ok :
      (label : String) (x : Ending A) (t : ReserveTables) (a : A)
      → (close label x t).0 ≡ ok a
      → (x ≡ committed (close label x t).1 a) ⊎ (x ≡ rolled_back a)
  unfolding close
  close-ok label (committed u b) t a h = inl cc
  close-ok label (rolled_back b) t a h = inr cc
  close-ok label (refused e) t a h = cc
  close-ok label (database_error e) t a h = cc

  pub within-ok :
      (trouble : Trouble) (label : String) (body : ReserveTables → Ending A) (t : ReserveTables)
      (a : A)
      → (within trouble label body t).0 ≡ ok a
      → (body t ≡ committed (within trouble label body t).1 a) ⊎ (body t ≡ rolled_back a)
  unfolding within
  within-ok healthy label body t a h = close-ok label (body t) t a h
  within-ok (writing e) label body t a h = close-ok label (body t) t a h
  within-ok (opening e) label body t a h = cc
  within-ok (beginning e) label body t a h = cc

-- Statements before a commit: it commits what they wrote, and never rolls back with a value.
module _ {A : Type 0} where
  pub then_commit-committed :
      (m : Writing) (a b : A) (u : ReserveTables)
      → then_commit a m ≡ committed u b
      → (m ≡ wrote u) × (b ≡ a)
  then_commit-committed (wrote v) a b u h = (cc, cc)
  then_commit-committed (too_large e) a b u h = cc
  then_commit-committed (not_written e) a b u h = cc

  pub then_commit-rolled_back : (m : Writing) (a b : A) → then_commit a m ≢ rolled_back b
  then_commit-rolled_back (wrote v) a b h = cc
  then_commit-rolled_back (too_large e) a b h = cc
  then_commit-rolled_back (not_written e) a b h = cc

insert_audit-wrote :
    (trouble : Trouble) (row : ReserveAudit) (t u : ReserveTables)
    → insert_audit trouble row t ≡ wrote u
    → u ≡ record t { audits = t.audits ++ row ∷ [] }
unfolding insert_audit
insert_audit-wrote healthy row t u h = cc
insert_audit-wrote (opening e) row t u h = cc
insert_audit-wrote (beginning e) row t u h = cc
insert_audit-wrote (writing e) row t u h = cc

audit_text-wrote :
    (trouble : Trouble) (kind : String) (incident_id approval_id : Option String)
    (r : Result String) (now : ℤ) (t u : ReserveTables)
    → audit_text trouble kind incident_id approval_id r now t ≡ wrote u
    → (rows : List ReserveAudit) × (u ≡ record t { audits = rows })
unfolding audit_text
audit_text-wrote trouble kind i a (err e) now t u h = cc
audit_text-wrote trouble kind i a (ok x) now t u h = (_, insert_audit-wrote trouble _ t u h)

-- An audit record changes the audits only.
pub reserve_audit-wrote :
    (trouble : Trouble) (kind : String) (incident_id approval_id : Option String) (payload : Value)
    (now : ℤ) (t u : ReserveTables)
    → reserve_audit trouble kind incident_id approval_id payload now t ≡ wrote u
    → (rows : List ReserveAudit) × (u ≡ record t { audits = rows })
unfolding reserve_audit
reserve_audit-wrote trouble kind i a payload now t u h =
    audit_text-wrote trouble kind i a (reserve_json payload) now t u h
