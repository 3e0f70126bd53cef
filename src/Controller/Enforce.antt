-- ===== src/Controller/Enforce.antt =====
-- The whole of `GuardianController.enforce`, src/guardian_controller.py.
pub mod Calls
pub mod Store
pub mod Once
use server_resource_guardian.Prelude.{String, Bool, Option}
use server_resource_guardian.Result.{Result, ok, err}
use server_resource_guardian.Actions.{ActionRequest, ActionResult}
use server_resource_guardian.Controller.{
  ControllerResult, Environment, Call, World, Gate, stopped, raised, passed, next,
}
use server_resource_guardian.Controller.Reading.{Subject, read_event}
use server_resource_guardian.Controller.Gates.{pass_gates, make_request}
use server_resource_guardian.Controller.Grant.{grant}
use server_resource_guardian.Controller.Execute.{execute}
use server_resource_guardian.Controller.Assessment.{assess, assess_layers}
use server_resource_guardian.Controller.Conclusion.{conclude}

-- From the executor's result on.
pub settle :
    Environment
    → Call
    → Subject
    → Bool
    → ActionRequest
    → Option String
    → ActionResult
    → World
    → Gate ControllerResult × World
settle env call s breaker q intent_id result w = next (assess call q result w) λ recovery w1.
    conclude env call s breaker intent_id result
      (record { recovery = recovery; layers = assess_layers call s.target_id }) w1

-- From the request on: the grant, the executor, and the rest.
pub act :
    Environment → Call → Subject → Bool → ActionRequest → World → Gate ControllerResult × World
unfolding settle
act env call s breaker q w = next (grant env call s breaker w) λ intent_id w1.
    next (execute env call breaker q intent_id w1)
      λ result w2. settle env call s breaker q intent_id result w2

pub decide : Environment → Call → World → Gate ControllerResult × World
unfolding act
decide env call w = next (read_event env call w) λ s w1.
    next (pass_gates env call s w1)
      λ breaker w2. next (make_request env call s breaker w2) λ q w3. act env call s breaker q w3

returned : Gate ControllerResult → Result ControllerResult
returned (stopped r) = ok r
returned (raised exception) = err exception
returned (passed r) = ok r

-- The result, or the exception that leaves the method, and the world after it.
unfoldable pub enforce : Environment → Call → World → Result ControllerResult × World
unfolding decide returned next
enforce env call w = (returned (decide env call w).0, (decide env call w).1)
