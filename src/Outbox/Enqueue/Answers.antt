-- ===== src/Outbox/Enqueue/Answers.antt =====
-- What `enqueue` of src/guardian_notification_outbox.py has done, by how it ended.
use server_resource_guardian.Prelude.{
  ℕ, ◌+◌, String, true, false, ◌≡◌, refl, Option, none, some, List, [], ◌∷◌, ◌++◌, ◌==◌, inl, inr,
  length, length-append, sym, ap, ◌∙◌, subst,
}
use server_resource_guardian.Prelude.Int.{ℤ}
use server_resource_guardian.Result.{Result, ok, err, ◌>>=◌, >>=-eq-ok, ok-injective}
use server_resource_guardian.Value.{Value, null, boolean, number, text, array, object, Fields}
use server_resource_guardian.State.{Fault}
use server_resource_guardian.Outbox.{
  DedupState, Notification, Tables, OutboxResult, result, mapping,
}
use server_resource_guardian.Outbox.Settings.{Settings}
use server_resource_guardian.Outbox.Payload.{validate_payload}
use server_resource_guardian.Outbox.Audit.{append_audit, record_rejection, sealed}
use server_resource_guardian.Outbox.Audit.Facts.{append_audit-ok}
use server_resource_guardian.Outbox.Enqueue.{
  Incoming, incoming, answer, queued_row, insert_row, enqueue_body, enqueue_checked, enqueue,
}
use server_resource_guardian.Outbox.Enqueue.Queued.{IsRowOf, queued_row-IsRowOf}
use server_resource_guardian.Outbox.Enqueue.Outcomes.{IsAdmissible, last_of, enqueue_body_outcome}
use server_resource_guardian.Outbox.Moves.{transaction_returned}

module _ (sha256 : String → String) (settings : Settings) (fault : Fault) (timestamp : ℤ) where
  -- An answer has one more audit record than the tables it was given, and its own status.
  record IsAnswered (payload : Fields) (status : String) (t : Tables) (a : OutboxResult)
      (u : Tables) : Type 0 where
    status_is : a.status ≡ status
    rows : u.notification_outbox ≡ t.notification_outbox
    audits : length u.notification_audits ≡ length t.notification_audits + 1

  audited :
      (payload : Fields) (r a : OutboxResult) (label : String) (attempts : ℕ)
      (reason : Option String) (t u : Tables)
      → ◌>>=◌ {B = OutboxResult × Tables}
          (append_audit sha256 fault payload label attempts reason timestamp t)
          (λ v. ok (r, v))
        ≡ ok (a, u)
      → IsAnswered payload r.status t a u
  audited payload r a label attempts reason t u h =
      let (v, appended, returned) =
        >>=-eq-ok (append_audit sha256 fault payload label attempts reason timestamp t) _ h in
      let (row, previous, authorization, added) =
        append_audit-ok sha256 fault payload label attempts reason timestamp t v appended in
      let same = ok-injective returned in
      subst (λ (p : OutboxResult × Tables). IsAnswered payload r.status t p.0 p.1) same
        (record {
          status_is = refl;
          rows = ap (λ (w : Tables). w.notification_outbox) added;
          audits =
              ap (λ (w : Tables). length w.notification_audits) added
              ∙ length-append t.notification_audits (sealed sha256 row ∷ []);
        })

  module _ (payload : Fields) (a : OutboxResult) (u : Tables) where
    -- What a commit of the transaction of `enqueue` leaves behind.
    abbrev pub IsQueued : Incoming → Tables → Type 0
    IsQueued new t =
        (state : Option DedupState) × (severities : List String) × IsAdmissible settings new t state
          severities
        × (u.notification_outbox
            ≡ t.notification_outbox ++ queued_row sha256 settings fault timestamp payload new ∷ [])

    -- The number of audit records grows by one, and the rows change only for a queued payload.
    pub record IsCommitted (new : Incoming) (t : Tables) : Type 0 where
      pub audits : length u.notification_audits ≡ length t.notification_audits + 1
      pub queued : (a.status == "queued") ≡ true → IsQueued new t
      pub other : (a.status == "queued") ≡ false → u.notification_outbox ≡ t.notification_outbox

    away-IsCommitted :
        (new : Incoming) (status : String) (t : Tables)
        → (status == "queued") ≡ false
        → IsAnswered payload status t a u
        → IsCommitted new t
    away-IsCommitted new status t off h = record {
      audits = h.audits;
      queued = λ on. cc (sym on ∙ (ap (λ s. s == "queued") h.status_is ∙ off));
      other = λ _. h.rows;
    }

    inserted-IsCommitted :
        (new : Incoming) (t : Tables) (state : Option DedupState) (severities : List String)
        → IsAdmissible settings new t state severities
        → insert_row sha256 settings fault timestamp payload new (last_of state) severities t
          ≡ ok (a, u)
        → IsCommitted new t
    unfolding insert_row answer result
    inserted-IsCommitted new t state severities admissible h =
        let g = audited payload _ a "ENQUEUED" 0 none _ u h in
        record {
          audits = g.audits;
          queued = λ _. (state, severities, admissible, g.rows);
          other = λ off. cc (sym off ∙ ap (λ s. s == "queued") g.status_is);
        }

    body-IsCommitted :
        (new : Incoming) (t : Tables)
        → enqueue_body sha256 settings fault timestamp payload new t ≡ ok (a, u)
        → IsCommitted new t
    unfolding answer result
    body-IsCommitted new t h =
        elim (enqueue_body_outcome sha256 settings fault timestamp payload a u t new h) [
          | inl away ↦
              away-IsCommitted new away.status t away.other
                (audited payload _ a away.label away.attempts away.reason t u away.answered)
          | inr i ↦ inserted-IsCommitted new t i.state i.severities i.admissible i.inserted
        ]

  -- What a call that returns has done.
  pub record IsReturned (now : ℤ) (payload : Value) (t : Tables) (a : OutboxResult) (u : Tables)
      : Type 0 where
    pub committed : IsCommitted (mapping payload) a u (incoming (mapping payload)) t
    pub valid :
        (a.status == "queued") ≡ true → validate_payload settings now (mapping payload) ≡ ok none
    pub row :
        (a.status == "queued") ≡ true
        → (row : Notification) × (u.notification_outbox ≡ t.notification_outbox ++ row ∷ [])
          × IsRowOf (mapping payload) timestamp row

  rejection-IsCommitted :
      (payload : Fields) (new : Incoming) (reason : String) (t u : Tables) (a : OutboxResult)
      → record_rejection sha256 fault timestamp payload reason t ≡ (ok a, u)
      → IsCommitted payload a u new t × ((a.status == "queued") ≡ false)
  unfolding record_rejection result
  rejection-IsCommitted payload new reason t u a h =
      let g =
        audited payload _ a "REJECTED" 0 (some reason) t u
          (transaction_returned fault "rejection_audit_failed" _ t u a h) in
      (away-IsCommitted payload a u new "rejected" t refl g, ap (λ s. s == "queued") g.status_is)

  rejected :
      (now : ℤ) (payload : Value) (reason : String) (t u : Tables) (a : OutboxResult)
      → record_rejection sha256 fault timestamp (mapping payload) reason t ≡ (ok a, u)
      → IsReturned now payload t a u
  rejected now payload reason t u a h =
      let (committed, off) =
        rejection-IsCommitted (mapping payload) (incoming (mapping payload)) reason t u a h in
      record {
        committed = committed;
        valid = λ on. cc (sym on ∙ off);
        row = λ on. cc (sym on ∙ off);
      }

  checked-IsReturned :
      (now : ℤ) (payload : Fields) (o : Result (Option String)) (t u : Tables) (a : OutboxResult)
      → validate_payload settings now payload ≡ o
      → enqueue_checked sha256 settings fault timestamp payload o t ≡ (ok a, u)
      → IsReturned now (object payload) t a u
  unfolding enqueue_checked
  checked-IsReturned now payload (err e) t u a v h = cc
  checked-IsReturned now payload (ok (some reason)) t u a v h =
      rejected now (object payload) reason t u a h
  checked-IsReturned now payload (ok none) t u a v h =
      let done =
        body-IsCommitted payload a u (incoming payload) t
          (transaction_returned fault "outbox_enqueue_failed" _ t u a h) in
      record {
        committed = done;
        valid = λ _. v;
        row = λ queued.
            let (_, _, _, rows) = done.queued queued in
            (
              queued_row sha256 settings fault timestamp payload (incoming payload),
              rows,
              queued_row-IsRowOf sha256 settings fault timestamp now payload v,
            );
      }

  -- A call of `enqueue` that returns, on any branch, has added exactly one audit record. If its
  -- status is `queued`, the payload passed every check, its id and its event are new, the instant
  -- is not before the last one of its dedup key, its severity is not among those delivered for
  -- the key nor under delivery, there is room, and one row is new: it has the notification id, the
  -- dedup key, the event id, the severity and the instant that the payload has, keeps the payload
  -- itself, is PENDING without attempts and without an error, and has the time of the call.
  -- Otherwise the rows are as they were.
  pub enqueue-IsReturned :
      (now : ℤ) (payload : Value) (t u : Tables) (a : OutboxResult)
      → enqueue sha256 settings fault timestamp now payload t ≡ (ok a, u)
      → IsReturned now payload t a u
  unfolding enqueue
  enqueue-IsReturned now (object payload) t u a h =
      checked-IsReturned now payload (validate_payload settings now payload) t u a refl h
  enqueue-IsReturned now null t u a h = rejected now null "payload_mapping_required" t u a h
  enqueue-IsReturned now (boolean b) t u a h =
      rejected now (boolean b) "payload_mapping_required" t u a h
  enqueue-IsReturned now (number n) t u a h =
      rejected now (number n) "payload_mapping_required" t u a h
  enqueue-IsReturned now (text s) t u a h = rejected now (text s) "payload_mapping_required" t u a h
  enqueue-IsReturned now (array xs) t u a h =
      rejected now (array xs) "payload_mapping_required" t u a h
