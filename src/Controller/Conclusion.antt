-- ===== src/Controller/Conclusion.antt =====
-- The end of `enforce`, src/guardian_controller.py: the result is recorded and the state is chosen.
pub mod Facts
pub mod Store
use server_resource_guardian.Prelude.{
  String, Bool, true, false, not, ◌&&◌, Option, none, some, List, [], ◌∷◌, ◌==◌, if◌then◌else◌,
}
use server_resource_guardian.Prelude.Int.{ℤ}
use server_resource_guardian.Result.{Result, ok, err}
use server_resource_guardian.Value.{Value, null, number, text, object, Fields, field, end}
use server_resource_guardian.Actions.{ActionResult}
use server_resource_guardian.Recovery.{RecoveryResult}
use server_resource_guardian.Recovery.TwoLayer.{TwoLayerRecoveryResult}
use server_resource_guardian.Recovery.Ledger
use server_resource_guardian.Recovery.Ledger.{tripped}
use server_resource_guardian.State.{Tables}
use server_resource_guardian.State.Intents.{record_result}
use server_resource_guardian.State.Cooldowns
use server_resource_guardian.State.Cooldowns.{failure_breaker}
use server_resource_guardian.Controller.{
  ControllerResult, Environment, Call, World, Gate, passed, event_id_of,
}
use server_resource_guardian.Controller.Reading.{Subject}
use server_resource_guardian.Controller.Assessment.{is_zero}

-- What the recovery assessments said.
pub record Assessed : Type 0 where
  pub recovery : Option RecoveryResult
  pub layers : Option TwoLayerRecoveryResult

abbrev pub succeeded : ActionResult → Bool
succeeded result = result.executed && is_zero result.returncode

-- `recovery is None or recovery.recovered`
abbrev pub no_failure : Option RecoveryResult → Bool
no_failure none = true
no_failure (some r) = r.recovered

-- The same for the host layer.
abbrev pub no_layer_failure : Option TwoLayerRecoveryResult → Bool
no_layer_failure none = true
no_layer_failure (some l) = l.host_mitigated

unfoldable pub is_success : ActionResult → Assessed → Bool
is_success result a = succeeded result && (no_failure a.recovery && no_layer_failure a.layers)

layers_value : Option TwoLayerRecoveryResult → Value
layers_value none = null
layers_value (some l) = object (
    field "host_state" (text l.host_state) (
      field "business_state" (text l.business_state)
        (field "overall_state" (text l.overall_state) end)))

returncode_value : Option ℤ → Value
returncode_value none = null
returncode_value (some code) = number code

result_payload : ActionResult → Option TwoLayerRecoveryResult → Fields
unfolding layers_value returncode_value
result_payload result layers = field "action" (text result.action) (
    field "target_id" (text result.target_id) (
      field "returncode" (returncode_value result.returncode) (
        field "reason" (text result.reason) (
          field "stderr" (text result.stderr)
            (field "recovery_layers" (layers_value layers) end)))))

-- The value is whether the breaker has tripped, or the error of the store.
after_record :
    Environment → Call → Subject → World → Result (Unit {0}) × Tables → Result Bool × World
after_record env call s w (err e, t) = (err e, record w { tables = t })
after_record env call s w (ok _, t) = (
  failure_breaker env.faults.at_reread s.host_id s.target_id s.action call.max_consecutive_failures
      t,
  record w { tables = t },
)

after_result :
    Environment → Call → Subject → Bool → World → Result String × Tables → Result Bool × World
unfolding after_record
after_result env call s success w (err e, t) = (err e, record w { tables = t })
after_result env call s success w (ok _, t) =
    after_record env call s (record w { tables = t })
      (Cooldowns.record_action env.faults.at_record s.host_id s.target_id s.action call.now success
        t)

record_memory : Call → Bool → World → Result Bool × World
record_memory call success w =
    let ledger = Ledger.record_action w.ledger call.now success in
    (ok (tripped ledger call.max_consecutive_failures), record w { ledger = ledger })

-- The writes after an executed action.
pub record_outcome :
    Environment
    → Call
    → Subject
    → Option String
    → ActionResult
    → Assessed
    → World
    → Result Bool × World
unfolding after_result result_payload record_memory
record_outcome env call s none result a w = record_memory call (is_success result a) w
record_outcome env call s (some intent_id) result a w =
    if env.durable
    then after_result env call s (is_success result a) w (
        record_result env.faults.at_result intent_id (result_payload result a.layers)
          (is_success result a) result.executed call.now w.tables)
    else record_memory call (is_success result a) w

abbrev State : Type 0
State = String × List String

layers_state : Bool → Option TwoLayerRecoveryResult → Bool → State
layers_state breaker none assessed =
    (if assessed then "recovered" else "executed", "action_succeeded" ∷ [])
layers_state breaker (some l) assessed =
    if not l.host_mitigated
    then (if breaker then "escalated" else "failed", l.reason_codes)
    else if l.business_recovered
    then ("recovered", l.reason_codes)
    else ("mitigated", l.reason_codes)

recovery_state : Bool → Assessed → Option RecoveryResult → State
unfolding layers_state
recovery_state breaker a none = layers_state breaker a.layers false
recovery_state breaker a (some r) =
    if not r.recovered
    then (if breaker then "escalated" else r.state, r.reason_codes)
    else layers_state breaker a.layers true

-- The state and the reasons of an executed action, given the breaker after it.
unfoldable pub final_state : Bool → ActionResult → Assessed → State
unfolding recovery_state
final_state breaker result a =
    if not (succeeded result)
    then (
      "failed",
      (if result.reason == "executor_timeout" then "action_timeout" else "action_failed") ∷ [],
    )
    else recovery_state breaker a a.recovery

abbrev pub with_action :
    Environment
    → Call
    → ActionResult
    → Option RecoveryResult
    → Option TwoLayerRecoveryResult
    → State
    → String
    → Bool
    → Option String
    → ControllerResult
with_action env call result recovery layers state cooldown_state breaker intent_id = record {
  state = state.0;
  event_id = event_id_of env.repr call.event;
  action_result = some result;
  recovery = recovery;
  reason_codes = state.1;
  cooldown_state = cooldown_state;
  failure_breaker_tripped = breaker;
  intent_id = intent_id;
  recovery_layers = layers;
}

after_recorded :
    Environment
    → Call
    → Bool
    → Option String
    → ActionResult
    → Assessed
    → Result Bool × World
    → Gate ControllerResult × World
after_recorded env call before intent_id result a (err _, w) = (
  passed (
      with_action env call result a.recovery none ("escalated", "audit_persistence_failed" ∷ [])
        "audit_persistence_failed" before intent_id),
  w,
)
after_recorded env call before intent_id result a (ok breaker, w) = (
  passed (
      with_action env call result a.recovery a.layers (final_state breaker result a) "recorded"
        breaker intent_id),
  w,
)

-- `action_result.reason or "action_not_executed"`
abbrev or_not_executed : String → String
or_not_executed reason = if reason == "" then "action_not_executed" else reason

unfoldable pub conclude :
    Environment
    → Call
    → Subject
    → Bool
    → Option String
    → ActionResult
    → Assessed
    → World
    → Gate ControllerResult × World
unfolding record_outcome after_recorded
conclude env call s breaker intent_id result a w =
    if not result.executed
    then (
      passed (
          with_action env call result a.recovery a.layers
            ("planned", or_not_executed result.reason ∷ []) "not_recorded" breaker intent_id),
      w,
    )
    else after_recorded env call breaker intent_id result a
        (record_outcome env call s intent_id result a w)
