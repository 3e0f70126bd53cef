-- ===== src/Controller/Execute/Store.antt =====
-- What the call of the executor in `enforce`, src/guardian_controller.py, does to the store.
use server_resource_guardian.Prelude.{String, Bool, false, Option, none, some}
use server_resource_guardian.Prelude.Tables.Pairs.{Pairwise}
use server_resource_guardian.Result.{Result, ok, err}
use server_resource_guardian.Actions
use server_resource_guardian.Actions.{ActionRequest, Execution}
use server_resource_guardian.State
use server_resource_guardian.State.Steps.{Steps, here, Apart}
use server_resource_guardian.State.Intents.Sound.{record_result-Steps}
use server_resource_guardian.Controller.{Environment, Call, World}
use server_resource_guardian.Controller.Execute.{after_denial, after_execution, execute}

after_denial-tables :
    (env : Environment) (call : Call) (b : Bool) (i reason : String) (w : World)
    (r : Result String × State.Tables) {t : State.Tables}
    → Steps t r.1
    → Steps t (after_denial env call b i reason w r).1.tables
unfolding after_denial
after_denial-tables env call b i reason w (ok a, u) h = h
after_denial-tables env call b i reason w (err e, u) h = h

after_execution-Steps :
    (env : Environment) (call : Call) (b : Bool) (i : Option String) (w : World) (x : Execution)
    → Pairwise Apart w.tables.intents
    → Steps w.tables (after_execution env call b i w x).1.tables
unfolding after_execution
after_execution-Steps env call b i w (Actions.finished r) p = here
after_execution-Steps env call b i w (Actions.crashed e) p = here
after_execution-Steps env call b none w (Actions.denied e) p = here
after_execution-Steps env call b (some i) w (Actions.denied e) p =
    after_denial-tables env call b i e w _
      (record_result-Steps env.faults.at_denial i _ false false call.now w.tables p)

pub execute-Steps :
    (env : Environment) (call : Call) (b : Bool) (q : ActionRequest) (i : Option String) (w : World)
    → Pairwise Apart w.tables.intents
    → Steps w.tables (execute env call b q i w).1.tables
unfolding execute
execute-Steps env call b q i w p = after_execution-Steps env call b i _ (env.execute q call.now) p
