-- ===== src/Controller/Gates/Store.antt =====
-- What the gates of `enforce`, src/guardian_controller.py, do to the store.
use server_resource_guardian.Prelude.{◌≡◌, refl, String, Bool, true, false, if-cases}
use server_resource_guardian.Result.{Result, ok, err}
use server_resource_guardian.State
use server_resource_guardian.State.Steps.{Steps, here, Steps-trans}
use server_resource_guardian.State.Cooldowns.{allow_action}
use server_resource_guardian.State.Cooldowns.Sound.{allow_action-Steps}
use server_resource_guardian.Controller.{Environment, Call, World}
use server_resource_guardian.Controller.Reading.{Subject}
use server_resource_guardian.Controller.Gates.{
  Answers, read_memory, read_cooldown, read_durable, read_answers, check_answers, pass_gates,
}

read_cooldown-tables :
    (w : World) (b : Bool) (r : Result (Bool × String) × State.Tables)
    → (read_cooldown w b r).1.tables ≡ r.1
unfolding read_cooldown
read_cooldown-tables w b (ok a, t) = refl
read_cooldown-tables w b (err e, t) = refl

read_durable-Steps :
    (env : Environment) (call : Call) (s : Subject) (w : World) (r : Result Bool)
    → Steps w.tables (read_durable env call s w r).1.tables
unfolding read_durable
read_durable-Steps env call s w (err e) = here
read_durable-Steps env call s w (ok b) =
    rw
      (read_cooldown-tables w b (
        allow_action env.faults.at_cooldown s.host_id s.target_id s.action call.now
          call.cooldown_seconds call.max_actions call.window_seconds w.tables))
      (allow_action-Steps env.faults.at_cooldown s.host_id s.target_id s.action call.now
        call.cooldown_seconds call.max_actions call.window_seconds w.tables)

read_answers-Steps :
    (env : Environment) (call : Call) (s : Subject) (w : World)
    → Steps w.tables (read_answers env call s w).1.tables
unfolding read_answers read_memory
read_answers-Steps env call s w =
    if-cases (λ (m : Result Answers × World). Steps w.tables m.1.tables) env.durable _ _
      (λ _. read_durable-Steps env call s w _) (λ _. here)

check_answers-tables :
    (env : Environment) (call : Call) (m : Result Answers × World)
    → (check_answers env call m).1.tables ≡ m.1.tables
unfolding check_answers
check_answers-tables env call (err e, w) = refl
check_answers-tables env call (ok (true, (c, s)), w) = refl
check_answers-tables env call (ok (false, (true, s)), w) = refl
check_answers-tables env call (ok (false, (false, s)), w) = refl

pub pass_gates-Steps :
    (env : Environment) (call : Call) (s : Subject) (w : World) {t : State.Tables}
    → Steps t w.tables
    → Steps t (pass_gates env call s w).1.tables
unfolding pass_gates
pass_gates-Steps env call s w h = Steps-trans h (
    rw (check_answers-tables env call (read_answers env call s w))
      (read_answers-Steps env call s w))
