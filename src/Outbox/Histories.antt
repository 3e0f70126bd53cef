-- ===== src/Outbox/Histories.antt =====
-- What holds of the database of src/guardian_notification_outbox.py after every history of calls,
-- those that raised and those that died between two transactions included.
use server_resource_guardian.Prelude.{
  ℕ, String, Option, none, ◌≡◌, refl, List, [], ◌∷◌, true, false,
}
use server_resource_guardian.Prelude.Int.{ℤ}
use server_resource_guardian.Prelude.Tables.Pairs.{Pairwise}
use server_resource_guardian.Result.{Result}
use server_resource_guardian.Value.{Value, Fields}
use server_resource_guardian.State.{Fault}
use server_resource_guardian.Outbox.{Status, Notification, Tables, initial}
use server_resource_guardian.Outbox.Settings.{Settings}
use server_resource_guardian.Outbox.Audit.{audit_errors, verify_audit}
use server_resource_guardian.Outbox.Enqueue.{enqueue}
use server_resource_guardian.Outbox.Enqueue.Moved.{enqueue-Moves}
use server_resource_guardian.Outbox.Finish.{mark_final, rate_limited}
use server_resource_guardian.Outbox.Finish.Moved.{mark_final-Moves, rate_limited-Moves}
use server_resource_guardian.Outbox.Deliver.{Turn, claim_one, gate, drain_pending}
use server_resource_guardian.Outbox.Deliver.Moved.{claim_one-Moves, gate-Moves, drain_pending-Moves}
use server_resource_guardian.Outbox.Requeue.{open_outbox, queue_dead_letters, redrive_dead_letters}
use server_resource_guardian.Outbox.Requeue.Moved.{
  open_outbox-Moves, queue_dead_letters-Moves, redrive_dead_letters-Moves,
}
use server_resource_guardian.Outbox.Moves.{Moves, stay, Moves-trans}
use server_resource_guardian.Outbox.Moves.Chain.{Moves-IsChained}
use server_resource_guardian.Outbox.Moves.Rows.{IsSane, IsApart, Moves-IsSane}

module _ (sha256 : String → String) where
  -- The tables after some calls, each with any arguments, faults and answers of the sink. A process
  -- that dies during a drain leaves what its last transaction left.
  pub data History : Tables → Type 0 where
    created : History initial
    opened :
        {t : Tables} (fault : Fault) (timestamp : ℤ) (settings : Result Settings)
        → History t
        → History (open_outbox sha256 fault timestamp settings t).1
    enqueued :
        {t : Tables} (settings : Settings) (fault : Fault) (timestamp now : ℤ) (payload : Value)
        → History t
        → History (enqueue sha256 settings fault timestamp now payload t).1
    drained :
        {t : Tables} (settings : Settings) (now : ℤ) (max_items : Value) (turns : ℕ → Turn)
        → History t
        → History
            (drain_pending sha256 settings now max_items turns
              (record { tables = t; sent = []; slept = [] })).1.tables
    redriven :
        {t : Tables} (settings : Settings) (fault : Fault) (timestamp now : ℤ) (max_items : Value)
        (turns : ℕ → Turn)
        → History t
        → History
            (redrive_dead_letters sha256 settings fault timestamp now max_items turns
              (record { tables = t; sent = []; slept = [] })).1.tables
    died_claiming :
        {t : Tables} (fault : Fault) (timestamp : ℤ)
        → History t
        → History (claim_one sha256 fault timestamp t).1
    died_sending :
        {t : Tables} (fault : Fault) (settings : Settings) (now : ℤ)
        → History t
        → History (gate fault settings now t).1
    died_finishing :
        {t : Tables} (fault : Fault) (timestamp : ℤ) (row : Notification) (payload : Fields)
        (status : Status) (attempts : ℕ) (reason : Option String)
        → History t
        → History (mark_final sha256 fault timestamp row payload status attempts reason t).1
    died_limiting :
        {t : Tables} (fault : Fault) (timestamp : ℤ) (row : Notification) (payload : Fields)
        → History t
        → History (rate_limited sha256 fault timestamp row payload t).1
    died_requeueing :
        {t : Tables} (fault : Fault) (timestamp : ℤ) (max_items : ℕ)
        → History t
        → History (queue_dead_letters sha256 fault timestamp max_items t).1

  pub History-Moves : {t : Tables} → History t → Moves sha256 initial t
  History-Moves created = stay
  History-Moves (opened fault timestamp settings h) =
      Moves-trans sha256 (History-Moves h) (open_outbox-Moves sha256 fault timestamp settings _)
  History-Moves (enqueued settings fault timestamp now payload h) =
      Moves-trans sha256 (History-Moves h)
        (enqueue-Moves sha256 settings fault timestamp now _ payload)
  History-Moves (drained settings now max_items turns h) =
      Moves-trans sha256 (History-Moves h)
        (drain_pending-Moves sha256 settings now max_items turns _)
  History-Moves (redriven settings fault timestamp now max_items turns h) =
      Moves-trans sha256 (History-Moves h)
        (redrive_dead_letters-Moves sha256 settings fault timestamp now max_items turns _)
  History-Moves (died_claiming fault timestamp h) =
      Moves-trans sha256 (History-Moves h) (claim_one-Moves sha256 fault timestamp _)
  History-Moves (died_sending fault settings now h) =
      Moves-trans sha256 (History-Moves h) (gate-Moves sha256 fault settings now _)
  History-Moves (died_finishing fault timestamp row payload status attempts reason h) =
      Moves-trans sha256 (History-Moves h)
        (mark_final-Moves sha256 fault timestamp row payload status attempts reason _)
  History-Moves (died_limiting fault timestamp row payload h) =
      Moves-trans sha256 (History-Moves h) (rate_limited-Moves sha256 fault timestamp row payload _)
  History-Moves (died_requeueing fault timestamp max_items h) =
      Moves-trans sha256 (History-Moves h)
        (queue_dead_letters-Moves sha256 fault timestamp max_items _)

  pub History-IsSane : {t : Tables} → History t → IsSane t
  History-IsSane h =
      Moves-IsSane sha256 (History-Moves h) (record { unique = tt; decodable = tt; known = tt })

  -- In every history no two stored notifications share an id, and no two come from one event.
  pub History-IsApart : {t : Tables} → History t → Pairwise IsApart t.notification_outbox
  History-IsApart h = (History-IsSane h).unique

  initial_chained : audit_errors sha256 1 none initial.notification_audits ≡ []
  unfolding audit_errors
  initial_chained = refl

  -- In every history of calls, with any faults of the database and with processes that die
  -- between two transactions, `verify_audit` finds the chain valid: every record has the digest
  -- of the one before it and its own, and none changes an authorization.
  pub History-verify_audit : {t : Tables} → History t → (verify_audit sha256 t).0 ≡ true
  unfolding verify_audit
  History-verify_audit {t} h =
      valid (audit_errors sha256 1 none t.notification_audits)
        (Moves-IsChained sha256 (History-Moves h) initial_chained)
    where
      valid :
          (errors : List String) → errors ≡ [] → elim errors [ [] ↦ true | _ ∷ _ ↦ false ] ≡ true
      valid [] e = refl
      valid (x ∷ xs) e = cc
