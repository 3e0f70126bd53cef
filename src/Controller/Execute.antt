-- ===== src/Controller/Execute.antt =====
-- The call of the executor in `enforce`, src/guardian_controller.py, and what a refusal of the
-- adapter leaves.
pub mod Facts
pub mod Store
use server_resource_guardian.Prelude.{String, Bool, true, false, Option, none, some, [], ◌∷◌, ◌++◌}
use server_resource_guardian.Result.{Result, ok, err}
use server_resource_guardian.Value.{text, boolean, field, end}
use server_resource_guardian.Actions.{ActionRequest, ActionResult, Execution}
use server_resource_guardian.Actions
use server_resource_guardian.State.{Tables}
use server_resource_guardian.State.Intents.{record_result}
use server_resource_guardian.Controller.{
  ControllerResult, Environment, Call, World, Gate, stopped, raised, passed, no_action,
}

-- The failed write of a result: the action may or may not be on record.
abbrev pub not_persisted : Environment → Call → Bool → Option String → ControllerResult
not_persisted env call breaker intent_id =
    no_action env call "escalated" "audit_persistence_failed" "audit_persistence_failed" breaker
      intent_id

after_denial :
    Environment
    → Call
    → Bool
    → String
    → String
    → World
    → Result String × Tables
    → Gate ActionResult × World
after_denial env call breaker intent_id reason w (ok _, t) = (
  stopped (no_action env call "denied" reason "adapter_rejected" breaker (some intent_id)),
  record w { tables = t },
)
after_denial env call breaker intent_id reason w (err _, t) =
    (stopped (not_persisted env call breaker (some intent_id)), record w { tables = t })

after_execution :
    Environment → Call → Bool → Option String → World → Execution → Gate ActionResult × World
unfolding after_denial
after_execution env call breaker intent_id w (Actions.finished result) = (passed result, w)
after_execution env call breaker intent_id w (Actions.crashed exception) = (raised exception, w)
after_execution env call breaker none w (Actions.denied reason) =
    (stopped (no_action env call "denied" reason "adapter_rejected" breaker none), w)
after_execution env call breaker (some intent_id) w (Actions.denied reason) =
    after_denial env call breaker intent_id reason w (
      record_result env.faults.at_denial intent_id
        (field "reason" (text reason) (field "executed" (boolean false) end)) false false call.now
        w.tables)

unfoldable pub execute :
    Environment → Call → Bool → ActionRequest → Option String → World → Gate ActionResult × World
unfolding after_execution
execute env call breaker q intent_id w =
    after_execution env call breaker intent_id (record w { requests = w.requests ++ q ∷ [] })
      (env.execute q call.now)
