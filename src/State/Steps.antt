-- ===== src/State/Steps.antt =====
-- The writes of src/guardian_state.py as a step relation on the tables: each method of the store
-- does nothing, or a sequence of these steps.
use server_resource_guardian.Prelude.{
  String, ◌≡◌, sym, subst, ◌≢◌, ◌⊎◌, inl, inr, Bool, true, false, none, some, List, [], ◌∷◌, ◌++◌,
  All, is_some,
}
use server_resource_guardian.Prelude.Int
use server_resource_guardian.Prelude.Int.{ℤ}
use server_resource_guardian.Prelude.Tables.{find, update, delete}
use server_resource_guardian.Actions.{Authorization}
use server_resource_guardian.State.{
  Capability, Intent, AuditRecord, LedgerRow, ActionSlot, Tables, Fault, Outcome, commit,
  transaction,
}
use server_resource_guardian.State.Atomic.{transaction_keeps}
use server_resource_guardian.State.Capabilities.{
  has_approval, same_scope, capability_of, consume_rows,
}
use server_resource_guardian.State.Intents.{has_id, has_key, is_active_on, is_active, is_final}
use server_resource_guardian.State.Slots.{is_slot, is_held_slot}
use server_resource_guardian.State.Reconcile.{is_active_slot, mark_row}

-- One more audit record.
abbrev pub audited : AuditRecord → Tables → Tables
audited r t = record t { audit_records = t.audit_records ++ r ∷ [] }

-- The states that an intent may pass through: a final state is never left, no intent goes back to
-- INTENT_RECORDED, and one that is not active does not become active.
pub record Moves (before after : String) : Type 0 where
  pub unfinished : is_final before ≡ false
  pub not_new : after ≢ "INTENT_RECORDED"
  pub not_revived : (is_active before ≡ true) ⊎ (is_active after ≡ false)

-- The columns of an intent that are written once.
pub record SameIntent (a b : Intent) : Type 0 where
  pub same_id : a.intent_id ≡ b.intent_id
  pub same_key : a.idempotency_key ≡ b.idempotency_key
  pub same_host : a.host_id ≡ b.host_id
  pub same_object : a.object_id ≡ b.object_id
  pub same_action : a.action ≡ b.action

pub data Step (t u : Tables) : Type 0 where
  registered :
      (a : Authorization)
      → find (has_approval a.approval_id) t.capabilities ≡ none
      → u ≡ record t { capabilities = t.capabilities ++ capability_of a ∷ [] }
      → Step t u
  consumed :
      (a : Authorization) (event_id : String) (now : ℤ) (row : Capability) (r : AuditRecord)
      → find (has_approval a.approval_id) t.capabilities ≡ some row
      → same_scope row a ≡ true
      → is_some row.consumed_at ≡ false
      → Int.leb a.expires_at now ≡ false
      → u
        ≡ audited r
            (record t { capabilities = consume_rows a.approval_id now event_id t.capabilities })
      → Step t u
  claimed :
      (i : Intent) (r : AuditRecord)
      → i.state ≡ "INTENT_RECORDED"
      → find (has_id i.intent_id) t.intents ≡ none
      → find (has_key i.idempotency_key) t.intents ≡ none
      → find (is_active_on i.host_id i.object_id i.action) t.intents ≡ none
      → u ≡ audited r (record t { intents = t.intents ++ i ∷ [] })
      → Step t u
  moved :
      (test : Intent → Bool) (f : Intent → Intent) (r : AuditRecord)
      → ((i : Intent) → SameIntent (f i) i)
      → All (λ i. (test i ≡ false) ⊎ Moves i.state (f i).state) t.intents
      → u ≡ audited r (record t { intents = update test f t.intents })
      → Step t u
  slot_claimed :
      (s : ActionSlot) (r : AuditRecord)
      → s.state ≡ "ACTIVE"
      → find (is_slot s.host_id s.action) t.action_slots ≡ none
      → u ≡ audited r (record t { action_slots = t.action_slots ++ s ∷ [] })
      → Step t u
  slot_released :
      (host_id action intent_id : String) (s : ActionSlot) (r : AuditRecord)
      → find (is_slot host_id action) t.action_slots ≡ some s
      → s.intent_id ≡ intent_id
      → s.state ≡ "ACTIVE"
      → u
        ≡ audited r (record t {
          action_slots = delete (is_held_slot host_id action intent_id) t.action_slots;
        })
      → Step t u
  slot_marked :
      (host_id action : String) (now : ℤ) (r : AuditRecord)
      → u
        ≡ audited r (record t {
          action_slots = update (is_active_slot host_id action) (mark_row now) t.action_slots;
        })
      → Step t u
  ledger_written : (rows : List LedgerRow) → u ≡ record t { action_ledger = rows } → Step t u

pub data Steps (t : Tables) : Tables → Type 0 where
  here : Steps t t
  next : {m u : Tables} → Steps t m → Step m u → Steps t u

pub Steps-trans : {t m u : Tables} → Steps t m → Steps m u → Steps t u
Steps-trans a here = a
Steps-trans a (next b s) = next (Steps-trans a b) s

-- What every step keeps holds after any number of steps.
pub Steps_induction {κ} :
    (P : Tables → Type κ)
    → ((t u : Tables) → Step t u → P t → P u)
    → {t u : Tables} → Steps t u
    → P t
    → P u
Steps_induction P keep here h = h
Steps_induction P keep (next {m} {u} r s) h = keep m u s (Steps_induction P keep r h)

-- No two intents share an id or a key, and no two active intents share host, object and action.
abbrev pub Apart : Intent → Intent → Type 0
Apart x y =
    (has_id y.intent_id x ≡ false)
    × (has_key y.idempotency_key x ≡ false)
    × ((is_active_on y.host_id y.object_id y.action x ≡ false) ⊎ (is_active y.state ≡ false))

-- A transaction whose commits are steps, or write nothing.
pub transaction-Steps :
    {A : Type 0} (fault : Fault) (label : String) (body : Tables → Outcome A) (t : Tables)
    → ((u : Tables) (a : A) → body t ≡ commit u a → (u ≡ t) ⊎ Step t u)
    → Steps t (transaction fault label body t).1
transaction-Steps fault label body t k =
    transaction_keeps (Steps t) fault label body t here (λ u a e. taken (k u a e))
  where
    taken : {u : Tables} → (u ≡ t) ⊎ Step t u → Steps t u
    taken (inl same) = subst (Steps t) (sym same) here
    taken (inr step) = next here step
