-- ===== src/Controller/Conclusion/Store.antt =====
-- What the conclusion of `enforce`, src/guardian_controller.py, does to the store.
use server_resource_guardian.Prelude.{◌≡◌, refl, String, Bool, Option, none, some, if-cases, not}
use server_resource_guardian.Prelude.Tables.Pairs.{Pairwise}
use server_resource_guardian.Result.{Result, ok, err}
use server_resource_guardian.Actions.{ActionResult}
use server_resource_guardian.State
use server_resource_guardian.State.Steps.{Steps, here, Apart, Steps-trans}
use server_resource_guardian.State.Intents.Sound.{record_result-Steps}
use server_resource_guardian.State.Cooldowns.Sound.{record_action-Steps}
use server_resource_guardian.Controller.{ControllerResult, Gate, Environment, Call, World}
use server_resource_guardian.Controller.Reading.{Subject}
use server_resource_guardian.Controller.Conclusion.{
  Assessed, after_record, after_result, record_memory, record_outcome, after_recorded, conclude,
}

after_record-tables :
    (env : Environment) (call : Call) (s : Subject) (w : World)
    (r : Result (Unit {0}) × State.Tables)
    → (after_record env call s w r).1.tables ≡ r.1
unfolding after_record
after_record-tables env call s w (ok a, t) = refl
after_record-tables env call s w (err e, t) = refl

after_result-Steps :
    (env : Environment) (call : Call) (s : Subject) (b : Bool) (w : World)
    (r : Result String × State.Tables)
    → Steps r.1 (after_result env call s b w r).1.tables
unfolding after_result
after_result-Steps env call s b w (err e, t) = here
after_result-Steps env call s b w (ok a, t) =
    rw (after_record-tables env call s (record w { tables = t }) _)
      (record_action-Steps env.faults.at_record s.host_id s.target_id s.action call.now b t)

record_outcome-Steps :
    (env : Environment) (call : Call) (s : Subject) (i : Option String) (r : ActionResult)
    (a : Assessed) (w : World)
    → Pairwise Apart w.tables.intents
    → Steps w.tables (record_outcome env call s i r a w).1.tables
unfolding record_outcome record_memory
record_outcome-Steps env call s none r a w p = here
record_outcome-Steps env call s (some i) r a w p =
    if-cases (λ (m : Result Bool × World). Steps w.tables m.1.tables) env.durable _ _
      (λ _.
        Steps-trans (record_result-Steps env.faults.at_result i _ _ r.executed call.now w.tables p)
          (after_result-Steps env call s _ w _))
      (λ _. here)

after_recorded-tables :
    (env : Environment) (call : Call) (b : Bool) (i : Option String) (r : ActionResult)
    (a : Assessed) (m : Result Bool × World)
    → (after_recorded env call b i r a m).1.tables ≡ m.1.tables
unfolding after_recorded
after_recorded-tables env call b i r a (ok x, w) = refl
after_recorded-tables env call b i r a (err e, w) = refl

pub conclude-Steps :
    (env : Environment) (call : Call) (s : Subject) (b : Bool) (i : Option String)
    (r : ActionResult) (a : Assessed) (w : World)
    → Pairwise Apart w.tables.intents
    → Steps w.tables (conclude env call s b i r a w).1.tables
unfolding conclude
conclude-Steps env call s b i r a w p =
    if-cases (λ (m : Gate ControllerResult × World). Steps w.tables m.1.tables) (not r.executed) _ _
      (λ _. here)
      (λ _.
        rw (after_recorded-tables env call b i r a (record_outcome env call s i r a w))
          (record_outcome-Steps env call s i r a w p))
