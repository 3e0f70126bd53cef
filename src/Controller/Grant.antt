-- ===== src/Controller/Grant.antt =====
-- The third stretch of `enforce`, src/guardian_controller.py: with a state store, the capability is
-- registered and consumed, the intent is claimed and its execution is marked as started.
pub mod Facts
pub mod Store
pub mod Spending
use server_resource_guardian.Prelude.{
  String, Bool, true, false, not, Option, none, some, ◌==◌, if◌then◌else◌,
}
use server_resource_guardian.Result.{Result, ok, err}
use server_resource_guardian.Actions.{Authorization}
use server_resource_guardian.State.{CapabilityDecision, IntentClaim, Tables}
use server_resource_guardian.State.Capabilities.{register_capability, consume_capability}
use server_resource_guardian.State.Intents.{claim_intent, mark_execution_started}
use server_resource_guardian.Controller.{
  Environment, Call, World, Gate, stopped, passed, denied, no_action, next,
}
use server_resource_guardian.Controller.Reading.{Subject}

-- A call of the store; `except StateStoreError` ends the method.
pub stored : {A : Type 0} → Environment → Call → World → Result A × Tables → Gate A × World
stored env call w (ok a, t) = (passed a, record w { tables = t })
stored env call w (err e, t) = (stopped (denied env call w e "escalated"), record w { tables = t })

pub check_capability : Environment → Call → CapabilityDecision → World → Gate (Unit {0}) × World
check_capability env call d w =
    if d.allowed then (passed tt, w) else (stopped (denied env call w d.reason "denied"), w)

pub check_claim : Environment → Call → Bool → IntentClaim → World → Gate String × World
check_claim env call breaker c w = if c.claimed then (passed c.intent_id, w) else (
  stopped (
      no_action env call (if c.reason == "active_intent_exists" then "escalated" else "denied")
        c.reason c.reason breaker (some c.intent_id)),
  w,
)

pub check_started : Environment → Call → Bool → String → Bool → World → Gate (Option String) × World
check_started env call breaker intent_id started w =
    if started then (passed (some intent_id), w) else (
      stopped (
          no_action env call "escalated" "intent_state_not_executable" "intent_state_not_executable"
            breaker (some intent_id)),
      w,
    )

-- The claim and the start of the intent.
pub start_intent : Environment → Call → Subject → Bool → World → Gate (Option String) × World
unfolding check_claim check_started
start_intent env call s breaker w =
    next
      (stored env call w (
        claim_intent env.sha256 env.faults.at_claim env.new_id s.host_id s.target_id s.action
          s.event_id call.event call.now w.tables))
      λ c w1. next (check_claim env call breaker c w1) λ intent_id w2.
        next
          (stored env call w2
            (mark_execution_started env.faults.at_start intent_id call.now w2.tables))
          (check_started env call breaker intent_id)

-- The registration and the consumption of the capability.
pub spend_capability :
    Environment → Call → Subject → Authorization → World → Gate (Unit {0}) × World
unfolding check_capability
spend_capability env call s authorization w =
    next (stored env call w (register_capability env.faults.at_register authorization w.tables))
      λ _ w1.
        next
          (stored env call w1
            (consume_capability env.faults.at_consume authorization s.event_id call.now w1.tables))
          (check_capability env call)

pub grant_durable :
    Environment
    → Call
    → Subject
    → Bool
    → Option Authorization
    → World
    → Gate (Option String) × World
unfolding start_intent spend_capability
grant_durable env call s breaker none w =
    (stopped (denied env call w "explicit_authorization_required" "denied"), w)
grant_durable env call s breaker (some authorization) w =
    next (spend_capability env call s authorization w) λ _ w1. start_intent env call s breaker w1

-- The value is the id of the intent, if there is a store.
unfoldable pub grant : Environment → Call → Subject → Bool → World → Gate (Option String) × World
unfolding grant_durable next stored
grant env call s breaker w =
    if env.durable then grant_durable env call s breaker call.authorization w else (passed none, w)
