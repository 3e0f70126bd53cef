-- ===== src/Controller.antt =====
-- The orchestration boundary: src/guardian_controller.py. This file has what a call of
-- `GuardianController.enforce` is given, what it returns, and the sequence of its stages; each child
-- has one stretch of the method, and Controller/Enforce composes them.
pub mod Reading
pub mod Gates
pub mod Grant
pub mod Execute
pub mod Assessment
pub mod Conclusion
pub mod Enforce
use server_resource_guardian.Prelude.{
  ◌≡◌, refl, String, Bool, true, false, Option, none, some, List, [], ◌∷◌, if◌then◌else◌,
}
use server_resource_guardian.Prelude.Int.{ℤ}
use server_resource_guardian.Prelude.Text.{decimal}
use server_resource_guardian.Result.{Result, ok, err}
use server_resource_guardian.Value.{
  Value, null, boolean, number, text, array, object, Fields, lookup, truth,
}
use server_resource_guardian.Actions.{Authorization, ActionRequest, ActionResult, Execution}
use server_resource_guardian.Recovery.{RecoveryPolicy, RecoveryObservation, RecoveryResult}
use server_resource_guardian.Recovery.Host.{HostRecoveryPolicy, HostRecoveryObservation}
use server_resource_guardian.Recovery.Business.{BusinessRecoveryPolicy, BusinessRecoveryObservation}
use server_resource_guardian.Recovery.TwoLayer.{TwoLayerRecoveryResult}
use server_resource_guardian.Recovery.Ledger.{CooldownLedger, tripped}
use server_resource_guardian.State.{Tables, Fault}

pub record ControllerResult : Type 0 where
  pub state : String
  pub event_id : String
  pub action_result : Option ActionResult
  pub recovery : Option RecoveryResult
  pub reason_codes : List String
  pub cooldown_state : String
  pub failure_breaker_tripped : Bool
  pub intent_id : Option String
  pub recovery_layers : Option TwoLayerRecoveryResult

-- How a recovery probe ends: it returns, it raises one of the three exceptions that are caught, or
-- it raises another one.
pub data Probed : Type 0 where
  observed : Option RecoveryObservation → Probed
  probe_error : String → Probed
  probe_crashed : String → Probed

-- The arguments of `enforce`.
pub record Call : Type 0 where
  pub event : Value
  pub authorization : Option Authorization
  pub allowed : List String
  pub now : ℤ
  pub recovery_observation : Option RecoveryObservation
  pub recovery_policy : Option RecoveryPolicy
  pub recovery_probe : Option (ActionRequest → ActionResult → Probed)
  pub host_recovery_observation : Option HostRecoveryObservation
  pub host_recovery_policy : Option HostRecoveryPolicy
  pub business_recovery_observation : Option BusinessRecoveryObservation
  pub business_recovery_policy : Option BusinessRecoveryPolicy
  pub cooldown_seconds : ℤ
  pub max_actions : ℤ
  pub window_seconds : ℤ
  pub max_consecutive_failures : ℤ

-- How the database fails in each of the store's calls.
pub record Faults : Type 0 where
  pub at_breaker : Fault
  pub at_cooldown : Fault
  pub at_register : Fault
  pub at_consume : Fault
  pub at_claim : Fault
  pub at_start : Fault
  pub at_denial : Fault
  pub at_result : Fault
  pub at_record : Fault
  pub at_reread : Fault

-- What surrounds the controller. `durable` says that there is a state store. `repr` is Python's text
-- of a list or a mapping, and `int_text` its `int` of a text, `none` where that raises.
pub record Environment : Type 0 where
  pub durable : Bool
  pub execute : ActionRequest → ℤ → Execution
  pub sha256 : String → String
  pub new_id : String
  pub faults : Faults
  pub repr : Value → String
  pub int_text : String → Option ℤ

-- What a call changes: the in-memory ledger, the store's tables, and the requests handed to the
-- executor so far.
pub record World : Type 0 where
  pub ledger : CooldownLedger
  pub tables : Tables
  pub requests : List ActionRequest

-- How a stretch of the method ends: it returns a result, an exception leaves the method, or the
-- method goes on with a value.
pub data Gate (A : Type 0) : Type 0 where
  stopped : ControllerResult → Gate A
  raised : String → Gate A
  passed : A → Gate A

pub next : {A B : Type 0} → Gate A × World → (A → World → Gate B × World) → Gate B × World
next (stopped r, w) k = (stopped r, w)
next (raised e, w) k = (raised e, w)
next (passed a, w) k = k a w

-- What holds after a sequence: it held where the first part stopped, or the second part makes it.
pub next-elim :
    {A B : Type 0} (P : World → Type 0) (m : Gate A × World) (k : A → World → Gate B × World)
    → P m.1
    → ((a : A) → m.0 ≡ passed a → P m.1 → P (k a m.1).1)
    → P (next m k).1
unfolding next
next-elim P (stopped r, w) k here there = here
next-elim P (raised e, w) k here there = here
next-elim P (passed a, w) k here there = there a refl here

-- A sequence that goes on has gone on twice.
pub next-passed :
    {A B : Type 0} (m : Gate A × World) (k : A → World → Gate B × World) (b : B)
    → (next m k).0 ≡ passed b
    → (a : A) × (m.0 ≡ passed a) × ((k a m.1).0 ≡ passed b) × (next m k ≡ k a m.1)
unfolding next
next-passed (stopped r, w) k b h = cc
next-passed (raised e, w) k b h = cc
next-passed (passed a, w) k b h = (a, refl, h, refl)

-- `str(value)`
unfoldable pub str : (repr : Value → String) → Value → String
str repr null = "None"
str repr (boolean true) = "True"
str repr (boolean false) = "False"
str repr (number n) = decimal n
str repr (text s) = s
str repr (array items) = repr (array items)
str repr (object fields) = repr (object fields)

str_or : (repr : Value → String) → String → Option Value → String
unfolding str
str_or repr default none = default
str_or repr default (some value) = str repr value

-- `str(event.get("event_id", ""))`, and `""` where the event is not a mapping.
unfoldable pub event_id_of : (repr : Value → String) → Value → String
unfolding str_or
event_id_of repr (object fields) = str_or repr "" (lookup "event_id" fields)
event_id_of repr _ = ""

-- `value or "unknown-host"`, as a text.
or_unknown : (repr : Value → String) → Option Value → String
unfolding str
or_unknown repr none = "unknown-host"
or_unknown repr (some value) = if truth value then str repr value else "unknown-host"

unfoldable pub host_id_of : (repr : Value → String) → Value → String
unfolding or_unknown
host_id_of repr (object fields) = or_unknown repr (lookup "host_id" fields)
host_id_of repr _ = "unknown-host"

-- A result without an action: the shape of every early return.
abbrev pub no_action :
    Environment
    → Call
    → (state reason cooldown_state : String) → Bool
    → Option String
    → ControllerResult
no_action env call state reason cooldown_state breaker_tripped intent_id = record {
  state = state;
  event_id = event_id_of env.repr call.event;
  action_result = none;
  recovery = none;
  reason_codes = reason ∷ [];
  cooldown_state = cooldown_state;
  failure_breaker_tripped = breaker_tripped;
  intent_id = intent_id;
  recovery_layers = none;
}

-- The local function `denied`.
unfoldable pub denied : Environment → Call → World → (reason state : String) → ControllerResult
denied env call w reason state =
    no_action env call state reason "not_checked"
      (if env.durable then false else tripped w.ledger call.max_consecutive_failures) none
