-- ===== src/State/History/Finality.antt =====
-- A final state of an intent of src/guardian_state.py is never left, in every history of the store.
use server_resource_guardian.Prelude.{
  String, ◌≡◌, ap, ◌∙◌, ◌⊎◌, inl, inr, Bool, true, false, some, List, if◌then◌else◌, ◌==◌,
}
use server_resource_guardian.Prelude.Tables.{find, find-append_found, find-update}
use server_resource_guardian.Prelude.Tables.Pairs.{find-All}
use server_resource_guardian.State.{Intent, Tables}
use server_resource_guardian.State.Intents.{has_id, is_final}
use server_resource_guardian.State.Steps.{
  Moves, Step, registered, consumed, claimed, moved, slot_claimed, slot_released, slot_marked,
  ledger_written, Steps_induction,
}
use server_resource_guardian.State.History.{Call, run}
use server_resource_guardian.State.History.Exclusive.{IsExclusive, run-Steps}

-- The store has this row for the intent, and its state is final.
abbrev pub IsFinished : Intent → Tables → Type 0
IsFinished row t = (find (has_id row.intent_id) t.intents ≡ some row) × (is_final row.state ≡ true)

-- A finished row is not one that moves.
stays :
    (test : Intent → Bool) (f : Intent → Intent) (row : Intent)
    → is_final row.state ≡ true
    → (test row ≡ false) ⊎ Moves row.state (f row).state
    → (if test row then f row else row) ≡ row
stays test f row final (inl miss) = rw miss
stays test f row final (inr m) = cc (final, m.unfinished)

Step-IsFinished : (row : Intent) (t u : Tables) → Step t u → IsFinished row t → IsFinished row u
Step-IsFinished row t u (registered a e w) h = rw w h
Step-IsFinished row t u (consumed a event_id now other r e s fresh l w) h = rw w h
Step-IsFinished row t u (claimed i r s unused key active w) (found, final) =
    (rw w (find-append_found (has_id row.intent_id) t.intents _ row found), final)
Step-IsFinished row t u (moved test f r same moves w) (found, final) = (
  rw w (
      find-update (has_id row.intent_id) test f (λ x. ap (λ s. s == row.intent_id) (same x).same_id)
        t.intents
      ∙ rw found (
          ap some (
            stays test f row final (
              find-All (λ x. (test x ≡ false) ⊎ Moves x.state (f x).state) (has_id row.intent_id)
                t.intents row moves found)))),
  final,
)
Step-IsFinished row t u (slot_claimed s r active free w) h = rw w h
Step-IsFinished row t u (slot_released host_id action intent_id s r e owner active w) h = rw w h
Step-IsFinished row t u (slot_marked host_id action now r w) h = rw w h
Step-IsFinished row t u (ledger_written rows w) h = rw w h

-- In a store whose intents are exclusive, an intent that is PLANNED, SUCCEEDED or FAILED keeps its
-- whole row, result and times included, through every sequence of calls.
pub run-IsFinished :
    (sha256 : String → String) (row : Intent) (calls : List Call) (t : Tables)
    → IsExclusive t
    → IsFinished row t
    → IsFinished row (run sha256 calls t)
run-IsFinished sha256 row calls t h =
    Steps_induction (IsFinished row) (Step-IsFinished row) (run-Steps sha256 calls t h)
