-- ===== src/Controller/Conclusion/Facts.antt =====
-- What the conclusion of `enforce`, src/guardian_controller.py, leaves alone.
use server_resource_guardian.Prelude.{◌≡◌, refl, String, Bool, Option, none, some, if-cases, not}
use server_resource_guardian.Result.{Result, ok, err}
use server_resource_guardian.Actions.{ActionResult}
use server_resource_guardian.State.{Tables}
use server_resource_guardian.Controller.{ControllerResult, Gate, Environment, Call, World}
use server_resource_guardian.Controller.Reading.{Subject}
use server_resource_guardian.Controller.Conclusion.{
  Assessed, after_record, after_result, record_memory, record_outcome, after_recorded, conclude,
}

after_record-requests :
    (env : Environment) (call : Call) (s : Subject) (w : World) (r : Result (Unit {0}) × Tables)
    → (after_record env call s w r).1.requests ≡ w.requests
unfolding after_record
after_record-requests env call s w (ok a, t) = refl
after_record-requests env call s w (err e, t) = refl

after_result-requests :
    (env : Environment) (call : Call) (s : Subject) (b : Bool) (w : World)
    (r : Result String × Tables)
    → (after_result env call s b w r).1.requests ≡ w.requests
unfolding after_result
after_result-requests env call s b w (ok a, t) =
    after_record-requests env call s (record w { tables = t }) _
after_result-requests env call s b w (err e, t) = refl

record_outcome-requests :
    (env : Environment) (call : Call) (s : Subject) (i : Option String) (r : ActionResult)
    (a : Assessed) (w : World)
    → (record_outcome env call s i r a w).1.requests ≡ w.requests
unfolding record_outcome record_memory
record_outcome-requests env call s none r a w = refl
record_outcome-requests env call s (some i) r a w =
    if-cases (λ (m : Result Bool × World). m.1.requests ≡ w.requests) env.durable _ _
      (λ _. after_result-requests env call s _ w _) (λ _. refl)

after_recorded-requests :
    (env : Environment) (call : Call) (b : Bool) (i : Option String) (r : ActionResult)
    (a : Assessed) (m : Result Bool × World)
    → (after_recorded env call b i r a m).1.requests ≡ m.1.requests
unfolding after_recorded
after_recorded-requests env call b i r a (ok x, w) = refl
after_recorded-requests env call b i r a (err e, w) = refl

pub conclude-requests :
    (env : Environment) (call : Call) (s : Subject) (b : Bool) (i : Option String)
    (r : ActionResult) (a : Assessed) (w : World)
    → (conclude env call s b i r a w).1.requests ≡ w.requests
unfolding conclude
conclude-requests env call s b i r a w =
    if-cases (λ (m : Gate ControllerResult × World). m.1.requests ≡ w.requests) (not r.executed) _ _
      (λ _. refl)
      (λ _.
        rw (after_recorded-requests env call b i r a (record_outcome env call s i r a w))
          (record_outcome-requests env call s i r a w))
