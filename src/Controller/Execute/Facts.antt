-- ===== src/Controller/Execute/Facts.antt =====
-- The requests that `enforce` of src/guardian_controller.py hands to the executor.
use server_resource_guardian.Prelude.{◌≡◌, refl, String, Bool, Option, none, some, [], ◌∷◌, ◌++◌}
use server_resource_guardian.Result.{Result, ok, err}
use server_resource_guardian.Actions.{ActionRequest, Execution}
use server_resource_guardian.Actions
use server_resource_guardian.State.{Tables}
use server_resource_guardian.Controller.{Environment, Call, World}
use server_resource_guardian.Controller.Execute.{after_denial, after_execution, execute}

after_denial-requests :
    (env : Environment) (call : Call) (b : Bool) (i reason : String) (w : World)
    (r : Result String × Tables)
    → (after_denial env call b i reason w r).1.requests ≡ w.requests
unfolding after_denial
after_denial-requests env call b i reason w (ok a, t) = refl
after_denial-requests env call b i reason w (err e, t) = refl

after_execution-requests :
    (env : Environment) (call : Call) (b : Bool) (i : Option String) (w : World) (x : Execution)
    → (after_execution env call b i w x).1.requests ≡ w.requests
unfolding after_execution
after_execution-requests env call b i w (Actions.finished r) = refl
after_execution-requests env call b i w (Actions.crashed e) = refl
after_execution-requests env call b none w (Actions.denied e) = refl
after_execution-requests env call b (some i) w (Actions.denied e) =
    after_denial-requests env call b i e w _

-- It is handed one request.
pub execute-requests :
    (env : Environment) (call : Call) (b : Bool) (q : ActionRequest) (i : Option String) (w : World)
    → (execute env call b q i w).1.requests ≡ w.requests ++ q ∷ []
unfolding execute
execute-requests env call b q i w = after_execution-requests env call b i _ _
