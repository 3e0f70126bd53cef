-- ===== src/Reserve.antt =====
-- The root-only state of the reserve broker: src/guardian_reserve_state.py. This file has the tables,
-- the faults of the database and the transaction; the methods are in the children.
pub mod Approvals
pub mod Claims
pub mod Finish
pub mod Histories
pub mod Sound
use server_resource_guardian.Prelude.{
  ℕ, String, Bool, Option, none, some, List, [], ◌∷◌, ◌++◌, if◌then◌else◌, ltb, join,
}
use server_resource_guardian.Prelude.Int.{ℤ}
use Prim.Native.String.{len}
use server_resource_guardian.Result.{Result, ok, err, ◌>>=◌}
use server_resource_guardian.Value.{Value}
use server_resource_guardian.Value.Json.{dumps}

pub record ReserveExecutionClaim : Type 0 where
  pub claimed : Bool
  pub state : String
  pub reason : String

-- The rows of the four tables.
pub record ReserveCapability : Type 0 where
  pub approval_id : String
  pub environment : String
  pub target_id : String
  pub action : String
  pub expires_at : ℤ
  pub consumed_at : Option ℤ
  pub consumed_incident_id : Option String

pub record ReserveIncident : Type 0 where
  pub incident_id : String
  pub approval_id : String
  pub action : String
  pub target : String
  pub state : String
  pub created_at : ℤ
  pub updated_at : ℤ
  pub result_json : Option String

pub record ReserveSlot : Type 0 where
  pub slot_key : String
  pub incident_id : String
  pub action : String
  pub target : String
  pub state : String
  pub acquired_at : ℤ
  pub updated_at : ℤ

pub record ReserveAudit : Type 0 where
  pub kind : String
  pub incident_id : Option String
  pub approval_id : Option String
  pub payload_json : String
  pub recorded_at : ℤ

pub record ReserveTables : Type 0 where
  pub capabilities : List ReserveCapability
  pub incidents : List ReserveIncident
  pub slots : List ReserveSlot
  pub audits : List ReserveAudit

-- `_initialize`, on a new database.
abbrev pub initial : ReserveTables
initial = record { capabilities = []; incidents = []; slots = []; audits = [] }

-- How the database fails during one call, if it does: when it is opened, at the first statement of
-- the transaction, or at the insertion of an audit record. Each has the text of the `sqlite3.Error`.
pub data Trouble : Type 0 where
  healthy : Trouble
  opening : String → Trouble
  beginning : String → Trouble
  writing : String → Trouble

-- How the body of a transaction ends: it commits, it rolls back and returns, or it raises a
-- `ReserveStateError` or a `sqlite3.Error`.
pub data Ending (A : Type 0) : Type 0 where
  committed : ReserveTables → A → Ending A
  rolled_back : A → Ending A
  refused : String → Ending A
  database_error : String → Ending A

close : {A : Type 0} → String → Ending A → ReserveTables → Result A × ReserveTables
close label (committed u a) t = (ok a, u)
close label (rolled_back a) t = (ok a, t)
close label (refused e) t = (err e, t)
close label (database_error e) t = (err (join label (join ":" e)), t)

-- `BEGIN IMMEDIATE`, the body, and the handlers.
unfoldable pub within :
    {A : Type 0}
    → Trouble
    → String
    → (ReserveTables → Ending A)
    → ReserveTables
    → Result A × ReserveTables
unfolding close
within (opening e) label body t = (err (join "reserve_state_open_failed:" e), t)
within (beginning e) label body t = close label (database_error e) t
within healthy label body t = close label (body t) t
within (writing e) label body t = close label (body t) t

abbrev pub max_reserve_json_bytes : ℕ
max_reserve_json_bytes = 65536

-- `_json`: JSON values always serialize, so only the length can be refused.
unfoldable pub reserve_json : Value → Result String
reserve_json value =
    let encoded = dumps value in
    if ltb max_reserve_json_bytes (len encoded)
    then err "reserve_state_payload_too_large"
    else ok encoded

-- Statements that may raise, before `connection.commit()` and the returned value.
pub data Writing : Type 0 where
  wrote : ReserveTables → Writing
  too_large : String → Writing
  not_written : String → Writing

insert_audit : Trouble → ReserveAudit → ReserveTables → Writing
insert_audit (writing e) row t = not_written e
insert_audit _ row t = wrote (record t { audits = t.audits ++ row ∷ [] })

audit_text :
    Trouble
    → (kind : String) → (incident_id approval_id : Option String) → Result String
    → ℤ
    → ReserveTables
    → Writing
unfolding insert_audit
audit_text trouble kind incident_id approval_id (err e) recorded_at t = too_large e
audit_text trouble kind incident_id approval_id (ok payload_json) recorded_at t =
    insert_audit trouble
      (record {
        kind = kind;
        incident_id = incident_id;
        approval_id = approval_id;
        payload_json = payload_json;
        recorded_at = recorded_at;
      })
      t

-- `_audit`
unfoldable pub reserve_audit :
    Trouble
    → (kind : String) → (incident_id approval_id : Option String) → Value
    → ℤ
    → ReserveTables
    → Writing
unfolding audit_text
reserve_audit trouble kind incident_id approval_id payload recorded_at t =
    audit_text trouble kind incident_id approval_id (reserve_json payload) recorded_at t

abbrev pub then_commit : {A : Type 0} → A → Writing → Ending A
then_commit a (wrote t) = committed t a
then_commit a (too_large e) = refused e
then_commit a (not_written e) = database_error e

abbrev pub then_write : Writing → (ReserveTables → Writing) → Writing
then_write (wrote t) k = k t
then_write (too_large e) k = too_large e
then_write (not_written e) k = not_written e
