-- ===== src/State/Intents/Sound.antt =====
-- The intent methods of src/guardian_state.py as steps.
use server_resource_guardian.Prelude.{
  String, ◌≡◌, refl, sym, subst, ◌⊎◌, inl, inr, Bool, false, true, Option, none, some, List, [],
  ◌∷◌, ◌&&◌, ◌==◌, ◌++◌, arith, Bool-cases, All, eq_iff, apart,
}
use mathlib.Core.Option.{some-injective}
use server_resource_guardian.Prelude.Int.{ℤ}
use server_resource_guardian.Prelude.Tables.{find, update}
use server_resource_guardian.Prelude.Tables.Pairs.{Pairwise, All-weaken}
use server_resource_guardian.Result.{ok, >>=-eq-ok}
use server_resource_guardian.Value.{Value, Fields, object}
use server_resource_guardian.State.{IntentClaim, Intent, AuditRecord, Tables, Fault, commit, json}
use server_resource_guardian.State.Atomic.{audit-ok}
use server_resource_guardian.State.Intents.{
  has_id, has_key, is_active_on, is_final, new_intent, intent_write, insert_intent, claim_unless,
  claim_intent, set_state, start_write, start_body, mark_execution_started, set_intent, set_result,
  final_state, write_result, result_body, record_result,
}
use server_resource_guardian.State.Steps.{
  audited, Moves, Apart, Step, claimed, moved, Steps, transaction-Steps,
}

intent_write-ok :
    (fault : Fault) (i : Intent) (payload : Value) (now : ℤ) (t u : Tables)
    → intent_write fault i payload now t ≡ ok u
    → (r : AuditRecord) × (u ≡ audited r (record t { intents = t.intents ++ i ∷ [] }))
unfolding intent_write
intent_write-ok fault i payload now t u h =
    audit-ok fault (some i.intent_id) "intent_recorded" payload now _ u h

insert_intent-commit :
    (fault : Fault) (i : Intent) (payload : Value) (now : ℤ) (t u : Tables) (c : IntentClaim)
    → insert_intent fault i payload now t ≡ commit u c
    → (find (has_id i.intent_id) t.intents ≡ none) × (intent_write fault i payload now t ≡ ok u)
unfolding insert_intent
insert_intent-commit fault i payload now t u c h = ground arith

claim_unless-step :
    (fault : Fault) (i : Intent) (payload : Value) (now : ℤ) (t u : Tables) (c : IntentClaim)
    (existing active : Option Intent)
    → i.state ≡ "INTENT_RECORDED"
    → find (has_key i.idempotency_key) t.intents ≡ existing
    → find (is_active_on i.host_id i.object_id i.action) t.intents ≡ active
    → claim_unless fault i payload now t existing active ≡ commit u c
    → Step t u
unfolding claim_unless
claim_unless-step fault i payload now t u c (some x) active s e f h = cc
claim_unless-step fault i payload now t u c none (some x) s e f h = cc
claim_unless-step fault i payload now t u c none none s e f h =
    let (unused, written) = insert_intent-commit fault i payload now t u c h in
    let (r, wrote) = intent_write-ok fault i payload now t u written in
    claimed i r s unused e f wrote

pub claim_intent-Steps :
    (sha256 : String → String) (fault : Fault)
    (intent_id host_id object_id action event_id : String) (payload : Value) (now : ℤ) (t : Tables)
    → Steps t
        (claim_intent sha256 fault intent_id host_id object_id action event_id payload now t).1
unfolding claim_intent
claim_intent-Steps sha256 fault intent_id host_id object_id action event_id payload now t =
    let i = new_intent sha256 intent_id host_id object_id action event_id now in
    transaction-Steps fault "intent_claim_failed" _ t
      (λ u c e. inr (claim_unless-step fault i payload now t u c _ _ refl refl refl e))

start_write-ok :
    (fault : Fault) (intent_id : String) (now : ℤ) (t u : Tables)
    → start_write fault intent_id now t ≡ ok u
    → (r : AuditRecord) × (u
        ≡ audited r (record t {
          intents =
              update
                (λ i. has_id intent_id i && i.state == "INTENT_RECORDED")
                (set_state "EXECUTION_STARTED" now)
                t.intents;
        }))
unfolding start_write
start_write-ok fault intent_id now t u h =
    audit-ok fault (some intent_id) "execution_started" _ now _ u h

start_body-commit :
    (fault : Fault) (intent_id : String) (now : ℤ) (t u : Tables) (o : Option Intent) (b : Bool)
    → start_body fault intent_id now t o ≡ commit u b
    → start_write fault intent_id now t ≡ ok u
unfolding start_body
start_body-commit fault intent_id now t u none b h = cc
start_body-commit fault intent_id now t u (some row) b h = ground arith

Moves-start : Moves "INTENT_RECORDED" "EXECUTION_STARTED"
Moves-start = record {
  unfinished = refl;
  not_new = apart "EXECUTION_STARTED" "INTENT_RECORDED" refl;
  not_revived = inl refl;
}

recorded_move :
    (intent_id : String) (now : ℤ) (i : Intent)
    → ((has_id intent_id i && i.state == "INTENT_RECORDED") ≡ false)
      ⊎ Moves i.state "EXECUTION_STARTED"
recorded_move intent_id now i = elim (Bool-cases (i.state == "INTENT_RECORDED")) [
  | inl new ↦ inr (
      subst (λ s. Moves s "EXECUTION_STARTED") (sym ((eq_iff i.state "INTENT_RECORDED").0 new))
        Moves-start)
  | inr old ↦ inl (ground arith)
]

everywhere {ℓ κ} : {A : Type ℓ} (P : A → Type κ) → ((x : A) → P x) → (xs : List A) → All P xs
everywhere P h [] = tt
everywhere P h (x ∷ xs) = (h x, everywhere P h xs)

pub mark_execution_started-Steps :
    (fault : Fault) (intent_id : String) (now : ℤ) (t : Tables)
    → Steps t (mark_execution_started fault intent_id now t).1
unfolding mark_execution_started
mark_execution_started-Steps fault intent_id now t =
    transaction-Steps fault "execution_start_failed" _ t λ u b e.
      let (r, wrote) =
        start_write-ok fault intent_id now t u
          (start_body-commit fault intent_id now t u (find (has_id intent_id) t.intents) b e) in
      inr (
        moved (λ i. has_id intent_id i && i.state == "INTENT_RECORDED")
          (set_state "EXECUTION_STARTED" now) r
          (λ i. record {
            same_id = refl;
            same_key = refl;
            same_host = refl;
            same_object = refl;
            same_action = refl;
          })
          (everywhere _ (recorded_move intent_id now) t.intents) wrote)

-- Where ids are unique, the row found by an id is the only one with it.
pub only_row :
    (intent_id : String) (xs : List Intent) (row : Intent)
    → Pairwise Apart xs
    → find (has_id intent_id) xs ≡ some row
    → All (λ x. (has_id intent_id x ≡ false) ⊎ (x ≡ row)) xs
unfolding find
only_row intent_id [] row p e = tt
only_row intent_id (x ∷ xs) row p e = elim (Bool-cases (has_id intent_id x)) [
  | inl hit ↦ (
    inr (some-injective x row (rw hit at e)),
    All-weaken (Apart x) _
        (λ y a. inl (
          ground (
            arith,
            eq_iff x.intent_id intent_id,
            eq_iff y.intent_id intent_id,
            eq_iff x.intent_id y.intent_id,
          )))
        xs p.0,
  )
  | inr miss ↦ (inl miss, only_row intent_id xs row p.1 (rw miss at e))
]

write_result-ok :
    (fault : Fault) (intent_id : String) (result : Fields) (success executed : Bool) (now : ℤ)
    (t u : Tables)
    → write_result fault intent_id result success executed now t ≡ ok u
    → (text : String) × (r : AuditRecord) × (u
        ≡ audited r (set_intent intent_id (set_result (final_state success executed) text now) t))
unfolding write_result
write_result-ok fault intent_id result success executed now t u h =
    let (text, _, k) = >>=-eq-ok (json (object result)) _ h in
    let (r, wrote) = audit-ok fault (some intent_id) "result_recorded" _ now _ u k in
    (text, r, wrote)

result_body-commit :
    (fault : Fault) (intent_id : String) (result : Fields) (success executed : Bool) (now : ℤ)
    (t u : Tables) (row : Intent) (s : String)
    → result_body fault intent_id result success executed now t (some row) ≡ commit u s
    → (is_final row.state ≡ false)
      × (write_result fault intent_id result success executed now t ≡ ok u)
      × (s ≡ final_state success executed)
unfolding result_body
result_body-commit fault intent_id result success executed now t u row s h = ground arith

Moves-final :
    (before : String) (success executed : Bool)
    → is_final before ≡ false
    → Moves before (final_state success executed)
unfolding final_state
Moves-final before success false h = record {
  unfinished = h;
  not_new = apart "PLANNED" "INTENT_RECORDED" refl;
  not_revived = inr refl;
}
Moves-final before true true h = record {
  unfinished = h;
  not_new = apart "SUCCEEDED" "INTENT_RECORDED" refl;
  not_revived = inr refl;
}
Moves-final before false true h = record {
  unfinished = h;
  not_new = apart "FAILED" "INTENT_RECORDED" refl;
  not_revived = inr refl;
}

Moves-row :
    (intent_id : String) (row : Intent) (success executed : Bool)
    → is_final row.state ≡ false
    → (x : Intent) → (has_id intent_id x ≡ false) ⊎ (x ≡ row)
    → (has_id intent_id x ≡ false) ⊎ Moves x.state (final_state success executed)
Moves-row intent_id row success executed open_row x (inl other) = inl other
Moves-row intent_id row success executed open_row x (inr same) = inr (
    subst (λ (y : Intent). Moves y.state (final_state success executed)) (sym same)
      (Moves-final row.state success executed open_row))

result_body-step :
    (fault : Fault) (intent_id : String) (result : Fields) (success executed : Bool) (now : ℤ)
    (t u : Tables) (o : Option Intent) (s : String)
    → Pairwise Apart t.intents
    → find (has_id intent_id) t.intents ≡ o
    → result_body fault intent_id result success executed now t o ≡ commit u s
    → Step t u
unfolding result_body
result_body-step fault intent_id result success executed now t u none s p e h = cc
result_body-step fault intent_id result success executed now t u (some row) s p e h =
    let (open_row, written, _) =
      result_body-commit fault intent_id result success executed now t u row s h in
    let (text, r, wrote) =
      write_result-ok fault intent_id result success executed now t u written in
    moved (has_id intent_id) (set_result (final_state success executed) text now) r
      (λ i. record {
        same_id = refl;
        same_key = refl;
        same_host = refl;
        same_object = refl;
        same_action = refl;
      })
      (All-weaken _ _ (Moves-row intent_id row success executed open_row) t.intents
        (only_row intent_id t.intents row p e))
      wrote

pub record_result-Steps :
    (fault : Fault) (intent_id : String) (result : Fields) (success executed : Bool) (now : ℤ)
    (t : Tables)
    → Pairwise Apart t.intents
    → Steps t (record_result fault intent_id result success executed now t).1
unfolding record_result
record_result-Steps fault intent_id result success executed now t p =
    transaction-Steps fault "result_record_failed" _ t
      (λ u s e. inr (result_body-step fault intent_id result success executed now t u _ s p refl e))
