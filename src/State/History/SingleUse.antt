-- ===== src/State/History/SingleUse.antt =====
-- A capability of src/guardian_state.py is consumed at most once, in every history of the store.
use server_resource_guardian.Prelude.{String, ◌≡◌, sym, subst, true, false, List}
use server_resource_guardian.Prelude.Int.{ℤ}
use server_resource_guardian.Prelude.Tables.{find-append_found}
use server_resource_guardian.Result.{ok}
use server_resource_guardian.Actions.{Authorization}
use server_resource_guardian.State.{CapabilityDecision, Tables, Fault}
use server_resource_guardian.State.Capabilities.{has_approval, consume_capability}
use server_resource_guardian.State.Capabilities.Sound.{consume_capability-Steps}
use server_resource_guardian.State.Capabilities.Consumption.{
  IsConsumed, IsConsumed-consume_rows, consume_capability-allowed, consume_capability-refused,
}
use server_resource_guardian.State.Steps.{
  Step, registered, consumed, claimed, moved, slot_claimed, slot_released, slot_marked,
  ledger_written, Steps_induction,
}
use server_resource_guardian.State.History.{Call, run}
use server_resource_guardian.State.History.Exclusive.{IsExclusive, Step-IsExclusive, run-Steps}

pub Step-IsConsumed : (id : String) (t u : Tables) → Step t u → IsConsumed id t → IsConsumed id u
Step-IsConsumed id t u (registered a e w) (row, f, c) =
    (row, rw w (find-append_found (has_approval id) t.capabilities _ row f), c)
Step-IsConsumed id t u (consumed a event_id now other r e s fresh l w) (row, f, c) =
    (row, rw w (IsConsumed-consume_rows id a.approval_id now event_id t.capabilities row f c), c)
Step-IsConsumed id t u (claimed i r s unused key active w) h = rw w h
Step-IsConsumed id t u (moved test f r same moves w) h = rw w h
Step-IsConsumed id t u (slot_claimed s r active free w) h = rw w h
Step-IsConsumed id t u (slot_released host_id action intent_id s r e owner active w) h = rw w h
Step-IsConsumed id t u (slot_marked host_id action now r w) h = rw w h
Step-IsConsumed id t u (ledger_written rows w) h = rw w h

-- A consumed capability stays consumed through every sequence of calls.
pub run-IsConsumed :
    (sha256 : String → String) (id : String) (calls : List Call) (t : Tables)
    → IsExclusive t
    → IsConsumed id t
    → IsConsumed id (run sha256 calls t)
run-IsConsumed sha256 id calls t h =
    Steps_induction (IsConsumed id) (Step-IsConsumed id) (run-Steps sha256 calls t h)

-- In a store whose intents are exclusive, after a consumption that was allowed, no later one of the
-- same approval is allowed: whatever calls lie between, with whatever faults, and whatever its own
-- authorization, event, time and fault are.
pub consume_once :
    (sha256 : String → String) (fault fault' : Fault) (a b : Authorization)
    (event_id event_id' : String) (now now' : ℤ) (calls : List Call) (t : Tables)
    (d d' : CapabilityDecision)
    → IsExclusive t
    → (consume_capability fault a event_id now t).0 ≡ ok d
    → d.allowed ≡ true
    → b.approval_id ≡ a.approval_id
    → (consume_capability fault' b event_id' now'
        (run sha256 calls (consume_capability fault a event_id now t).1)).0
      ≡ ok d'
    → d'.allowed ≡ false
consume_once sha256 fault fault' a b event_id event_id' now now' calls t d d' h e allowed same e' =
    let after = (consume_capability fault a event_id now t).1 in
    let used = (consume_capability-allowed fault a event_id now t d e allowed).1 in
    let exclusive =
      Steps_induction IsExclusive Step-IsExclusive (consume_capability-Steps fault a event_id now t)
        h in
    consume_capability-refused fault' b event_id' now' (run sha256 calls after) d'
      (subst (λ id. IsConsumed id (run sha256 calls after)) (sym same)
        (run-IsConsumed sha256 a.approval_id calls after exclusive used))
      e'
