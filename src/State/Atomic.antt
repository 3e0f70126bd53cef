-- ===== src/State/Atomic.antt =====
-- Transactions of src/guardian_state.py are atomic: a method that raises has changed nothing.
use server_resource_guardian.Prelude.{
  String, ◌≡◌, refl, ◌⊎◌, inl, inr, Option, [], ◌∷◌, ◌++◌, arith,
}
use server_resource_guardian.Prelude.Int.{ℤ}
use server_resource_guardian.Result.{Result, ok, err, ◌>>=◌}
use server_resource_guardian.Value.{Value}
use server_resource_guardian.State.{
  AuditRecord, Tables, Fault, sound, open_failed, statement_failed, audit_failed, Outcome, commit,
  rollback, raise, settle, transaction, json, insert_audit, audit, then_commit,
}

module _ {A : Type 0} where
  settle_raised :
      (o : Outcome A) (t : Tables) (e : String) → (settle o t).0 ≡ err e → (settle o t).1 ≡ t
  unfolding settle
  settle_raised (commit u a) t e h = cc
  settle_raised (rollback a) t e h = refl
  settle_raised (raise x) t e h = refl

  -- A transaction that raises leaves the tables as they were.
  pub transaction_raised :
      (fault : Fault) (label : String) (body : Tables → Outcome A) (t : Tables) (e : String)
      → (transaction fault label body t).0 ≡ err e
      → (transaction fault label body t).1 ≡ t
  unfolding transaction
  transaction_raised sound label body t e h = settle_raised (body t) t e h
  transaction_raised (audit_failed x) label body t e h = settle_raised (body t) t e h
  transaction_raised _ label body t e h = refl

  settle_keeps {κ} :
      (P : Tables → Type κ) (o : Outcome A) (t : Tables)
      → P t
      → ((u : Tables) (a : A) → o ≡ commit u a → P u)
      → P (settle o t).1
  unfolding settle
  settle_keeps P (commit u a) t h k = k u a refl
  settle_keeps P (rollback a) t h k = h
  settle_keeps P (raise x) t h k = h

  -- What holds before and after every commit of the body holds after the transaction.
  pub transaction_keeps {κ} :
      (P : Tables → Type κ) (fault : Fault) (label : String) (body : Tables → Outcome A)
      (t : Tables)
      → P t
      → ((u : Tables) (a : A) → body t ≡ commit u a → P u)
      → P (transaction fault label body t).1
  unfolding transaction
  transaction_keeps P sound label body t h k = settle_keeps P (body t) t h k
  transaction_keeps P (audit_failed x) label body t h k = settle_keeps P (body t) t h k
  transaction_keeps P (open_failed x) label body t h k = h
  transaction_keeps P (statement_failed x) label body t h k = h

  settle_returned :
      (o : Outcome A) (t : Tables) (a : A)
      → (settle o t).0 ≡ ok a
      → (o ≡ commit (settle o t).1 a) ⊎ ((o ≡ rollback a) × ((settle o t).1 ≡ t))
  unfolding settle
  settle_returned (commit u b) t a h = inl (cc)
  settle_returned (rollback b) t a h = inr (cc, refl)
  settle_returned (raise x) t a h = cc

  -- A transaction that returns ran its body, which committed or rolled back with that value.
  pub transaction_returned :
      (fault : Fault) (label : String) (body : Tables → Outcome A) (t : Tables) (a : A)
      → (transaction fault label body t).0 ≡ ok a
      → (body t ≡ commit (transaction fault label body t).1 a)
        ⊎ ((body t ≡ rollback a) × ((transaction fault label body t).1 ≡ t))
  unfolding transaction
  transaction_returned sound label body t a h = settle_returned (body t) t a h
  transaction_returned (audit_failed x) label body t a h = settle_returned (body t) t a h
  transaction_returned _ label body t a h = cc

  pub then_commit-commit :
      (a b : A) (m : Result Tables) (u : Tables)
      → then_commit a m ≡ commit u b
      → (m ≡ ok u) × (a ≡ b)
  then_commit-commit a b (ok v) u h = (cc, cc)
  then_commit-commit a b (err e) u h = cc

-- An audit that succeeds has added one record and changed nothing else.
pub audit-ok :
    (fault : Fault) (intent_id : Option String) (kind : String) (payload : Value) (at : ℤ)
    (t u : Tables)
    → audit fault intent_id kind payload at t ≡ ok u
    → (r : AuditRecord) × (u ≡ record t { audit_records = t.audit_records ++ r ∷ [] })
unfolding audit
audit-ok fault intent_id kind payload at t u h = go (json payload) h
  where
    written :
        (row : AuditRecord)
        → insert_audit fault row t ≡ ok u
        → u ≡ record t { audit_records = t.audit_records ++ row ∷ [] }
    written row k = ground arith

    go :
        (m : Result String)
        → (m >>= λ text.
            insert_audit fault
              (record { intent_id = intent_id; kind = kind; payload_json = text; recorded_at = at })
              t)
          ≡ ok u
        → (r : AuditRecord) × (u ≡ record t { audit_records = t.audit_records ++ r ∷ [] })
    go (ok text) k = (
      record { intent_id = intent_id; kind = kind; payload_json = text; recorded_at = at },
      written _ k,
    )
    go (err e) k = cc
