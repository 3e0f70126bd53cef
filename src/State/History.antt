-- ===== src/State/History.antt =====
-- Any sequence of calls on the store of src/guardian_state.py, with any faults, as steps.
pub mod Exclusive
pub mod SingleUse
pub mod Finality
pub mod Trail
use server_resource_guardian.Prelude.{String, Bool, List, [], ◌∷◌, ◌++◌, ◌≡◌, refl}
use server_resource_guardian.Prelude.Int.{ℤ}
use server_resource_guardian.Prelude.Tables.Pairs.{Pairwise}
use server_resource_guardian.Value.{Value, Fields}
use server_resource_guardian.Actions.{Authorization}
use server_resource_guardian.State.{Tables, Fault}
use server_resource_guardian.State.Capabilities.{register_capability, consume_capability}
use server_resource_guardian.State.Capabilities.Sound.{
  register_capability-Steps, consume_capability-Steps,
}
use server_resource_guardian.State.Intents.{claim_intent, mark_execution_started, record_result}
use server_resource_guardian.State.Intents.Sound.{
  claim_intent-Steps, mark_execution_started-Steps, record_result-Steps,
}
use server_resource_guardian.State.Slots.{claim_action_slot, release_action_slot}
use server_resource_guardian.State.Slots.Sound.{claim_action_slot-Steps, release_action_slot-Steps}
use server_resource_guardian.State.Cooldowns.{allow_action, record_action}
use server_resource_guardian.State.Cooldowns.Sound.{allow_action-Steps, record_action-Steps}
use server_resource_guardian.State.Reconcile.{reconcile_pending}
use server_resource_guardian.State.Reconcile.Sound.{reconcile_pending-Steps}
use server_resource_guardian.State.Steps.{Apart, Steps}

-- The methods that write, each with the fault of its call. `get_intent` and `failure_breaker` read.
pub data Call : Type 0 where
  register : Fault → Authorization → Call
  consume : Fault → Authorization → (event_id : String) → ℤ → Call
  claim : Fault → (intent_id host_id object_id action event_id : String) → Value → ℤ → Call
  start : Fault → (intent_id : String) → ℤ → Call
  result : Fault → (intent_id : String) → Fields → (success executed : Bool) → ℤ → Call
  reconcile : Fault → ℤ → Call
  claim_slot : Fault → (host_id action intent_id : String) → ℤ → Call
  release_slot : Fault → (host_id action intent_id : String) → ℤ → Call
  allow :
      Fault
      → (host_id object_id action : String) → (now cooldown_seconds max_actions window_seconds : ℤ)
      → Call
  record_performed : Fault → (host_id object_id action : String) → ℤ → Bool → Call

module _ (sha256 : String → String) where
  -- The tables after one call, whatever it returned or raised.
  unfoldable pub perform : Call → Tables → Tables
  perform (register fault a) t = (register_capability fault a t).1
  perform (consume fault a event_id now) t = (consume_capability fault a event_id now t).1
  perform (claim fault intent_id host_id object_id action event_id payload now) t =
      (claim_intent sha256 fault intent_id host_id object_id action event_id payload now t).1
  perform (start fault intent_id now) t = (mark_execution_started fault intent_id now t).1
  perform (result fault intent_id fields success executed now) t =
      (record_result fault intent_id fields success executed now t).1
  perform (reconcile fault now) t = (reconcile_pending fault now t).1
  perform (claim_slot fault host_id action intent_id now) t =
      (claim_action_slot fault host_id action intent_id now t).1
  perform (release_slot fault host_id action intent_id now) t =
      (release_action_slot fault host_id action intent_id now t).1
  perform (allow fault host_id object_id action now cooldown_seconds max_actions window_seconds) t =
      (allow_action fault host_id object_id action now cooldown_seconds max_actions window_seconds
        t).1
  perform (record_performed fault host_id object_id action now success) t =
      (record_action fault host_id object_id action now success t).1

  -- The tables after a list of calls, the first call first.
  unfoldable pub run : List Call → Tables → Tables
  run [] t = t
  run (c ∷ cs) t = run cs (perform c t)

  -- A call on tables with unique intent ids is a sequence of steps.
  pub perform-Steps : (c : Call) (t : Tables) → Pairwise Apart t.intents → Steps t (perform c t)
  unfolding perform
  perform-Steps (register fault a) t p = register_capability-Steps fault a t
  perform-Steps (consume fault a event_id now) t p = consume_capability-Steps fault a event_id now t
  perform-Steps (claim fault intent_id host_id object_id action event_id payload now) t p =
      claim_intent-Steps sha256 fault intent_id host_id object_id action event_id payload now t
  perform-Steps (start fault intent_id now) t p = mark_execution_started-Steps fault intent_id now t
  perform-Steps (result fault intent_id fields success executed now) t p =
      record_result-Steps fault intent_id fields success executed now t p
  perform-Steps (reconcile fault now) t p = reconcile_pending-Steps fault now t p
  perform-Steps (claim_slot fault host_id action intent_id now) t p =
      claim_action_slot-Steps fault host_id action intent_id now t
  perform-Steps (release_slot fault host_id action intent_id now) t p =
      release_action_slot-Steps fault host_id action intent_id now t
  perform-Steps
        (allow fault host_id object_id action now cooldown_seconds max_actions window_seconds) t p =
      allow_action-Steps fault host_id object_id action now cooldown_seconds max_actions
        window_seconds t
  perform-Steps (record_performed fault host_id object_id action now success) t p =
      record_action-Steps fault host_id object_id action now success t
