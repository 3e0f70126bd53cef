-- ===== src/Outbox/Moves.antt =====
-- The primitive changes that the methods of src/guardian_notification_outbox.py are made of. The
-- `Moved` modules beside the methods show that what each leaves behind is reached by such changes;
-- the children show what every change keeps.
pub mod Chain
pub mod Rows
use server_resource_guardian.Prelude.{
  ℕ, String, Bool, true, false, ◌≡◌, refl, Option, none, some, List, [], ◌∷◌, ◌++◌, sym, subst,
  is_some,
}
use server_resource_guardian.Prelude.Int.{ℤ}
use server_resource_guardian.Prelude.Tables.{find, update}
use server_resource_guardian.Result.{Result, ok, err, ◌>>=◌}
use server_resource_guardian.Value.{Fields}
use server_resource_guardian.State.{Fault, sound, open_failed, statement_failed, audit_failed}
use server_resource_guardian.Outbox.{
  Notification, DedupState, AuditRecord, Tables, settle, transaction,
}
use server_resource_guardian.Outbox.Audit.{last_digest, sealed, append_audit}
use server_resource_guardian.Outbox.Audit.Facts.{append_audit-ok}
use server_resource_guardian.Outbox.Enqueue.{has_id, has_event, upsert}

-- A change of a row that keeps its ids and its payload.
abbrev pub IsKept : (Notification → Notification) → Type 0
IsKept f =
    (r : Notification)
    → ((f r).notification_id ≡ r.notification_id)
      × ((f r).event_id ≡ r.event_id)
      × ((f r).payload_json ≡ r.payload_json)

module _ (sha256 : String → String) where
  pub data Move : Tables → Tables → Type 0 where
    audited :
        {t : Tables} (row : AuditRecord)
        → row.previous_digest ≡ last_digest none t.notification_audits
        → row.action_authorization ≡ "unchanged"
        → Move t
            (record t { notification_audits = t.notification_audits ++ sealed sha256 row ∷ [] })
    inserted :
        {t : Tables} (r : Notification)
        → find (has_id r.notification_id) t.notification_outbox ≡ none
        → find (has_event r.event_id) t.notification_outbox ≡ none
        → is_some r.payload_json ≡ true
        → Move t (record t { notification_outbox = t.notification_outbox ++ r ∷ [] })
    changed :
        {t : Tables} (chosen : Notification → Bool) (f : Notification → Notification)
        → IsKept f
        → Move t (record t { notification_outbox = update chosen f t.notification_outbox })
    noted :
        {t : Tables} (d : DedupState) (change : DedupState → DedupState)
        → is_some d.delivered_severities_json ≡ true
        → ((x : DedupState)
            → is_some x.delivered_severities_json ≡ true
            → is_some (change x).delivered_severities_json ≡ true)
        → Move t
            (record t { notification_dedup_state = upsert d change t.notification_dedup_state })
    paced : {t : Tables} (times : List ℤ) → Move t (record t { notification_attempts = times })

  pub data Moves : Tables → Tables → Type 0 where
    stay : {t : Tables} → Moves t t
    onward : {t u v : Tables} → Moves t u → Move u v → Moves t v

  pub Moves-trans : {t u v : Tables} → Moves t u → Moves u v → Moves t v
  Moves-trans h stay = h
  Moves-trans h (onward k m) = onward (Moves-trans h k) m

  -- What every change keeps, every sequence of changes keeps.
  pub Moves_keeps {κ} :
      (P : Tables → Type κ)
      → ((t u : Tables) → Move t u → P t → P u)
      → {t u : Tables} → Moves t u
      → P t
      → P u
  Moves_keeps P keep stay p = p
  Moves_keeps P keep (onward h m) p = keep _ _ m (Moves_keeps P keep h p)

  pub append_audit-Moves :
      (fault : Fault) (payload : Fields) (status : String) (attempts : ℕ) (reason : Option String)
      (timestamp : ℤ) (t u : Tables)
      → append_audit sha256 fault payload status attempts reason timestamp t ≡ ok u
      → Moves t u
  append_audit-Moves fault payload status attempts reason timestamp t u h =
      let (row, previous, authorization, added) =
        append_audit-ok sha256 fault payload status attempts reason timestamp t u h in
      subst (Moves t) (sym added) (onward stay (audited row previous authorization))

-- A body that ends with a step and what it answers.
pub paired :
    {A : Type 0} (m : Result Tables) (answer a : A) (u : Tables)
    → ◌>>=◌ {B = A × Tables} m (λ v. ok (answer, v)) ≡ ok (a, u)
    → m ≡ ok u
paired (ok v) answer a u h = cc
paired (err e) answer a u h = cc

module _ (sha256 : String → String) where
  -- An audit record and an answer, at the end of a transaction.
  pub audit_then-Moves :
      (fault : Fault) (payload : Fields) (status : String) (attempts : ℕ) (reason : Option String)
      (timestamp : ℤ) {A : Type 0} (answer a : A) (t u : Tables)
      → ◌>>=◌ {B = A × Tables}
          (append_audit sha256 fault payload status attempts reason timestamp t)
          (λ v. ok (answer, v))
        ≡ ok (a, u)
      → Moves sha256 t u
  audit_then-Moves fault payload status attempts reason timestamp answer a t u h =
      append_audit-Moves sha256 fault payload status attempts reason timestamp t u
        (paired _ answer a u h)

module _ {A : Type 0} where
  settle_keeps {κ} :
      (P : Tables → Type κ) (o : Result (A × Tables)) (t : Tables)
      → P t
      → ((a : A) (u : Tables) → o ≡ ok (a, u) → P u)
      → P (settle o t).1
  unfolding settle
  settle_keeps P (ok (a, u)) t p k = k a u refl
  settle_keeps P (err e) t p k = p

  -- What holds before, and after every commit of the body, holds after the transaction.
  pub transaction_keeps {κ} :
      (P : Tables → Type κ) (fault : Fault) (label : String) (body : Tables → Result (A × Tables))
      (t : Tables)
      → P t
      → ((a : A) (u : Tables) → body t ≡ ok (a, u) → P u)
      → P (transaction fault label body t).1
  unfolding transaction
  transaction_keeps P sound label body t p k = settle_keeps P (body t) t p k
  transaction_keeps P (audit_failed e) label body t p k = settle_keeps P (body t) t p k
  transaction_keeps P (open_failed e) label body t p k = p
  transaction_keeps P (statement_failed e) label body t p k = p

  settle_returned :
      (o : Result (A × Tables)) (t u : Tables) (a : A) → settle o t ≡ (ok a, u) → o ≡ ok (a, u)
  unfolding settle
  settle_returned (ok (b, v)) t u a h = cc
  settle_returned (err e) t u a h = cc

  -- A transaction that returns has committed what its body returned.
  pub transaction_returned :
      (fault : Fault) (label : String) (body : Tables → Result (A × Tables)) (t u : Tables) (a : A)
      → transaction fault label body t ≡ (ok a, u)
      → body t ≡ ok (a, u)
  unfolding transaction
  transaction_returned sound label body t u a h = settle_returned (body t) t u a h
  transaction_returned (audit_failed e) label body t u a h = settle_returned (body t) t u a h
  transaction_returned _ label body t u a h = cc
