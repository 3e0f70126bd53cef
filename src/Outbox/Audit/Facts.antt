-- ===== src/Outbox/Audit/Facts.antt =====
-- What `_append_audit` of src/guardian_notification_outbox.py adds, and what `verify_audit` says of it.
use server_resource_guardian.Prelude.{
  append_empty, ℕ, suc, String, Bool, true, false, not, subst, ◌==◌, ◌≡◌, refl, sym, Option, none,
  some, List, [], ◌∷◌, ◌++◌, eq_refl,
}
use server_resource_guardian.Prelude.Int.{ℤ}
use server_resource_guardian.Result.{ok, ok-injective}
use server_resource_guardian.Value.{Fields}
use server_resource_guardian.State.{Fault, sound, open_failed, statement_failed, audit_failed}
use server_resource_guardian.Outbox.{AuditRecord, Tables}
use server_resource_guardian.Outbox.Audit.{
  last_digest, sealed, draft, insert_audit, append_audit, body, equal, digest, audit_errors,
  row_errors, complain,
}

equal_refl : (o : Option String) → equal o o ≡ true
equal_refl none = refl
equal_refl (some s) = eq_refl s

empty_append : (xs ys : List String) → xs ≡ [] → ys ≡ [] → xs ++ ys ≡ []
empty_append [] ys h k = k
empty_append (x ∷ xs) ys h k = cc

three_empty : (xs ys zs : List String) → xs ≡ [] → ys ≡ [] → zs ≡ [] → xs ++ ys ++ zs ≡ []
three_empty xs ys zs h k l = empty_append (xs ++ ys) zs (empty_append xs ys h k) l

module _ (sha256 : String → String) where
  -- The row and the digest of the row before it, after an insertion that went well.
  abbrev pub Appended : Tables → Tables → Type 0
  Appended t u =
      (row : AuditRecord) × (row.previous_digest ≡ last_digest none t.notification_audits)
      × (row.action_authorization ≡ "unchanged")
      × (u ≡ record t { notification_audits = t.notification_audits ++ sealed sha256 row ∷ [] })

  insert_audit-ok :
      (fault : Fault) (row : AuditRecord) (t u : Tables)
      → insert_audit sha256 fault row t ≡ ok u
      → u ≡ record t { notification_audits = t.notification_audits ++ sealed sha256 row ∷ [] }
  unfolding insert_audit
  insert_audit-ok (audit_failed e) row t u h = cc
  insert_audit-ok sound row t u h = sym (ok-injective h)
  insert_audit-ok (open_failed e) row t u h = sym (ok-injective h)
  insert_audit-ok (statement_failed e) row t u h = sym (ok-injective h)

  pub append_audit-ok :
      (fault : Fault) (payload : Fields) (status : String) (attempts : ℕ) (reason : Option String)
      (timestamp : ℤ) (t u : Tables)
      → append_audit sha256 fault payload status attempts reason timestamp t ≡ ok u
      → Appended t u
  unfolding append_audit draft
  append_audit-ok fault payload status attempts reason timestamp t u h =
      let row =
        draft sha256 payload status attempts reason timestamp
          (last_digest none t.notification_audits) in
      (row, refl, refl, insert_audit-ok fault row t u h)

  sealed-digest :
      (row : AuditRecord)
      → digest sha256 (body (sealed sha256 row)) ≡ (sealed sha256 row).record_digest
  unfolding sealed body
  sealed-digest row = refl

  complain-not :
      (test : Bool) (label : String) (n : ℕ) → test ≡ true → complain sha256 (not test) label n ≡ []
  unfolding complain
  complain-not true label n h = refl
  complain-not false label n h = cc

  pub row_errors_none :
      (n : ℕ) (previous : Option String) (row : AuditRecord)
      → equal row.previous_digest previous ≡ true
      → (row.action_authorization == "unchanged") ≡ true
      → (digest sha256 (body row) == row.record_digest) ≡ true
      → row_errors sha256 n previous row ≡ []
  unfolding row_errors
  row_errors_none n previous row p a d =
      three_empty _ _ _ (complain-not _ "previous_digest_mismatch" n p)
        (complain-not _ "action_authorization_changed" n a)
        (complain-not _ "record_digest_mismatch" n d)

  audit_errors-in_order :
      (n : ℕ) (previous : Option String) (rows : List AuditRecord) (row : AuditRecord)
      → audit_errors sha256 n previous rows ≡ []
      → equal row.previous_digest (last_digest previous rows) ≡ true
      → (row.action_authorization == "unchanged") ≡ true
      → (digest sha256 (body row) == row.record_digest) ≡ true
      → audit_errors sha256 n previous (rows ++ row ∷ []) ≡ []
  unfolding audit_errors last_digest
  audit_errors-in_order n previous [] row h p a d =
      empty_append _ _ (row_errors_none n previous row p a d) refl
  audit_errors-in_order n previous (r ∷ rows) row h p a d =
      let (first, rest) = append_empty (row_errors sha256 n previous r) _ h in
      empty_append _ _ first
        (audit_errors-in_order (suc n) (some r.record_digest) rows row rest p a d)

  -- A record that is sealed after the last one is in order.
  pub audit_errors-append :
      (n : ℕ) (previous : Option String) (rows : List AuditRecord) (row : AuditRecord)
      → audit_errors sha256 n previous rows ≡ []
      → row.previous_digest ≡ last_digest previous rows
      → row.action_authorization ≡ "unchanged"
      → audit_errors sha256 n previous (rows ++ sealed sha256 row ∷ []) ≡ []
  unfolding sealed
  audit_errors-append n previous rows row h p a =
      audit_errors-in_order n previous rows (sealed sha256 row) h
        (subst (λ o. equal row.previous_digest o ≡ true) p (equal_refl row.previous_digest))
        (subst (λ s. (s == "unchanged") ≡ true) (sym a) refl)
        (subst (λ s. (digest sha256 (body (sealed sha256 row)) == s) ≡ true) (sealed-digest row)
          (eq_refl _))

  -- On a database that answers, the record is added, and nothing else is changed.
  pub append_audit_sound :
      (payload : Fields) (status : String) (attempts : ℕ) (reason : Option String) (timestamp : ℤ)
      (t : Tables)
      → (u : Tables) × (append_audit sha256 sound payload status attempts reason timestamp t ≡ ok u)
        × (u.notification_outbox ≡ t.notification_outbox)
  unfolding append_audit insert_audit
  append_audit_sound payload status attempts reason timestamp t = (_, refl, refl)
