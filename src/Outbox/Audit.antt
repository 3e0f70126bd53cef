-- ===== src/Outbox/Audit.antt =====
-- The audit chain of src/guardian_notification_outbox.py: `_append_audit`, `_record_rejection` and
-- `verify_audit`. The digest is a parameter; the code takes SHA-256 of the canonical JSON.
pub mod Facts
use server_resource_guardian.Prelude.{
  ℕ, suc, String, Bool, true, false, not, Option, none, some, List, [], ◌∷◌, ◌++◌, ◌==◌,
  if◌then◌else◌, join, length,
}
use server_resource_guardian.Prelude.Int.{ℤ, pos}
use server_resource_guardian.Prelude.Text.{decimal}
use server_resource_guardian.Result.{Result, ok, err, ◌>>=◌}
use server_resource_guardian.Value.{Value, null, number, text, object, Fields, end, field}
use server_resource_guardian.Value.Json.{dumps}
use server_resource_guardian.State.{Fault, audit_failed}
use server_resource_guardian.Outbox.{
  AuditRecord, Tables, OutboxResult, transaction, get, result, mapping, text_of,
}

-- `previous[0] if previous is not None else None`, of the last record; or what is given.
unfoldable pub last_digest : Option String → List AuditRecord → Option String
last_digest previous [] = previous
last_digest previous (row ∷ rows) = last_digest (some row.record_digest) rows

-- `None` where the text is missing.
abbrev optional : Option String → Value
optional none = null
optional (some s) = text s

-- The body that the record digest is taken of.
unfoldable pub body : AuditRecord → Value
body row = object (
    field "notification_id" (optional row.notification_id) (
      field "dedup_key" (optional row.dedup_key) (
        field "event_id" (optional row.event_id) (
          field "severity" (optional row.severity) (
            field "status" (text row.status) (
              field "attempts" (number (pos row.attempts)) (
                field "reason" (optional row.reason) (
                  field "payload_digest" (optional row.payload_digest) (
                    field "action_authorization" (text row.action_authorization) (
                      field "recorded_at" (number row.recorded_at)
                        (field "previous_digest" (optional row.previous_digest) end)))))))))))

abbrev pub equal : Option String → Option String → Bool
equal none none = true
equal (some s) (some t) = s == t
equal _ _ = false

module _ (sha256 : String → String) where
  -- `_digest`
  unfoldable pub digest : Value → String
  digest value = sha256 (dumps value)

  -- `_digest(dict(payload_map)) if payload_map else None`
  payload_digest_of : Fields → Option String
  unfolding digest
  payload_digest_of end = none
  payload_digest_of payload = some (digest (object payload))

  -- The row, but for its digest.
  draft : Fields → String → ℕ → Option String → ℤ → Option String → AuditRecord
  unfolding payload_digest_of
  draft payload status attempts reason recorded_at previous_digest = record {
    notification_id = text_of (get "notification_id" payload);
    dedup_key = text_of (get "dedup_key" payload);
    event_id = text_of (get "event_id" (mapping (get "source" payload)));
    severity = text_of (get "severity" payload);
    status = status;
    attempts = attempts;
    reason = reason;
    payload_digest = payload_digest_of payload;
    action_authorization = "unchanged";
    recorded_at = recorded_at;
    previous_digest = previous_digest;
    record_digest = "";
  }

  unfoldable pub sealed : AuditRecord → AuditRecord
  unfolding digest body
  sealed row = record row { record_digest = digest (body row) }

  insert_audit : Fault → AuditRecord → Tables → Result Tables
  unfolding sealed
  insert_audit (audit_failed e) row t = err (join "audit_write_failed:" e)
  insert_audit _ row t =
      ok (record t { notification_audits = t.notification_audits ++ sealed row ∷ [] })

  -- `_append_audit`
  unfoldable pub append_audit :
      Fault → Fields → String → ℕ → Option String → ℤ → Tables → Result Tables
  unfolding insert_audit draft last_digest
  append_audit fault payload status attempts reason recorded_at t =
      insert_audit fault
        (draft payload status attempts reason recorded_at (last_digest none t.notification_audits))
        t

  -- `_record_rejection`
  unfoldable pub record_rejection :
      Fault → ℤ → Fields → String → Tables → Result OutboxResult × Tables
  record_rejection fault timestamp payload reason t =
      transaction fault "rejection_audit_failed"
        (λ u. do
          v ← append_audit fault payload "REJECTED" 0 (some reason) timestamp u
          ok (result payload "rejected" 0 (some reason) none, v))
        t

  complain : Bool → String → ℕ → List String
  complain true label sequence = join label (join ":" (decimal (pos sequence))) ∷ []
  complain false label sequence = []

  -- What is wrong with one row, given the digest of the row before it.
  unfoldable pub row_errors : ℕ → Option String → AuditRecord → List String
  unfolding complain
  row_errors sequence previous row =
      complain (not (equal row.previous_digest previous)) "previous_digest_mismatch" sequence
      ++ complain (not (row.action_authorization == "unchanged")) "action_authorization_changed"
          sequence
      ++ complain (not (digest (body row) == row.record_digest)) "record_digest_mismatch" sequence

  -- The loop of `verify_audit`, from a sequence number.
  unfoldable pub audit_errors : ℕ → Option String → List AuditRecord → List String
  unfolding row_errors
  audit_errors sequence previous [] = []
  audit_errors sequence previous (row ∷ rows) =
      row_errors sequence previous row ++ audit_errors (suc sequence) (some row.record_digest) rows

  -- `verify_audit`, on a database that answers: whether the chain is valid, the number of its
  -- records, and what is wrong.
  unfoldable pub verify_audit : Tables → Bool × ℕ × List String
  verify_audit t =
      let errors = audit_errors 1 none t.notification_audits in
      (elim errors [ [] ↦ true | _ ∷ _ ↦ false ], length t.notification_audits, errors)
