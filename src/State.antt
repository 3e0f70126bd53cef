-- ===== src/State.antt =====
-- The durable state store: src/guardian_state.py. This file has the tables, the faults of the
-- database and the transaction that every method runs in; the methods are in the children.
pub mod Capabilities
pub mod Intents
pub mod Slots
pub mod Cooldowns
pub mod Reconcile
pub mod Atomic
pub mod Steps
pub mod History
use server_resource_guardian.Prelude.{
  ℕ, String, Bool, Option, none, some, List, [], ◌∷◌, ◌++◌, if◌then◌else◌, ltb, join,
}
use server_resource_guardian.Prelude.Int.{ℤ}
use Prim.Native.String.{len}
use server_resource_guardian.Result.{Result, ok, err, ◌>>=◌}
use server_resource_guardian.Value.{Value}
use server_resource_guardian.Value.Json.{dumps}

pub record CapabilityDecision : Type 0 where
  pub allowed : Bool
  pub reason : String

pub record IntentClaim : Type 0 where
  pub claimed : Bool
  pub intent_id : String
  pub idempotency_key : String
  pub state : String
  pub reason : String

abbrev pub active_intent_states : List String
active_intent_states = "INTENT_RECORDED" ∷ "EXECUTION_STARTED" ∷ "RECONCILIATION_REQUIRED" ∷ []

abbrev pub final_intent_states : List String
final_intent_states = "PLANNED" ∷ "SUCCEEDED" ∷ "FAILED" ∷ []

abbrev pub max_state_json_bytes : ℕ
max_state_json_bytes = 65536

-- The rows of the five tables.
pub record Capability : Type 0 where
  pub approval_id : String
  pub environment : String
  pub target_id : String
  pub action : String
  pub expires_at : ℤ
  pub consumed_at : Option ℤ
  pub consumed_event_id : Option String

pub record Intent : Type 0 where
  pub intent_id : String
  pub idempotency_key : String
  pub host_id : String
  pub object_id : String
  pub action : String
  pub event_id : String
  pub state : String
  pub created_at : ℤ
  pub updated_at : ℤ
  pub result_json : Option String

pub record AuditRecord : Type 0 where
  pub intent_id : Option String
  pub kind : String
  pub payload_json : String
  pub recorded_at : ℤ

-- `action_times_json` is `none` where the stored text is not a list of numbers.
pub record LedgerRow : Type 0 where
  pub host_id : String
  pub object_id : String
  pub action : String
  pub last_action_at : Option ℤ
  pub action_times_json : Option (List ℤ)
  pub consecutive_failures : ℕ

pub record ActionSlot : Type 0 where
  pub host_id : String
  pub action : String
  pub intent_id : String
  pub state : String
  pub acquired_at : ℤ
  pub updated_at : ℤ

pub record Tables : Type 0 where
  pub capabilities : List Capability
  pub intents : List Intent
  pub audit_records : List AuditRecord
  pub action_ledger : List LedgerRow
  pub action_slots : List ActionSlot

-- `_initialize`, on a new database.
abbrev pub initial : Tables
initial = record {
  capabilities = [];
  intents = [];
  audit_records = [];
  action_ledger = [];
  action_slots = [];
}

-- How the database fails during one call, if it does: when it is opened, at a statement, or at the
-- insertion of an audit record. Each carries the text of the `sqlite3.Error`.
pub data Fault : Type 0 where
  sound : Fault
  open_failed : String → Fault
  statement_failed : String → Fault
  audit_failed : String → Fault

-- How the body of a transaction ends.
pub data Outcome (A : Type 0) : Type 0 where
  commit : Tables → A → Outcome A
  rollback : A → Outcome A
  raise : String → Outcome A

settle : {A : Type 0} → Outcome A → Tables → Result A × Tables
settle (commit t' a) t = (ok a, t')
settle (rollback a) t = (ok a, t)
settle (raise e) t = (err e, t)

-- `BEGIN IMMEDIATE`, the body, and the handlers: a `StateStoreError` of the body is raised again, an
-- error of the database is raised under the method's label, and both roll back.
unfoldable pub transaction :
    {A : Type 0} → Fault → String → (Tables → Outcome A) → Tables → Result A × Tables
unfolding settle
transaction (open_failed e) label body t = (err (join "state_store_open_failed:" e), t)
transaction (statement_failed e) label body t = (err (join label (join ":" e)), t)
transaction (audit_failed e) label body t = settle (body t) t
transaction sound label body t = settle (body t) t

-- `_json`: JSON values always serialize, so only the length can be refused. It is counted in
-- bytes of UTF-8.
unfoldable pub json : Value → Result String
json value =
    let encoded = dumps value in
    if ltb max_state_json_bytes (len encoded) then err "audit_payload_too_large" else ok encoded

insert_audit : Fault → AuditRecord → Tables → Result Tables
insert_audit (audit_failed e) row t = err (join "audit_write_failed:" e)
insert_audit _ row t = ok (record t { audit_records = t.audit_records ++ row ∷ [] })

-- `_audit`
unfoldable pub audit : Fault → Option String → String → Value → ℤ → Tables → Result Tables
unfolding insert_audit
audit fault intent_id kind payload recorded_at t = do
  payload_json ← json payload
  insert_audit fault
      (record {
        intent_id = intent_id;
        kind = kind;
        payload_json = payload_json;
        recorded_at = recorded_at;
      })
      t

-- `connection.commit()` and the returned value, after statements that may raise.
abbrev pub then_commit : {A : Type 0} → A → Result Tables → Outcome A
then_commit a (ok t) = commit t a
then_commit a (err e) = raise e
