-- ===== src/Controller/Grant/Store.antt =====
-- What the grant of `enforce`, src/guardian_controller.py, does to the store.
use server_resource_guardian.Prelude.{String, Bool, Option, none, some, if-cases}
use server_resource_guardian.Result.{Result, ok, err}
use server_resource_guardian.Actions.{Authorization}
use server_resource_guardian.State
use server_resource_guardian.State.{CapabilityDecision, IntentClaim}
use server_resource_guardian.State.Steps.{Steps, Steps-trans}
use server_resource_guardian.State.Capabilities.Sound.{
  register_capability-Steps, consume_capability-Steps,
}
use server_resource_guardian.State.Intents.Sound.{claim_intent-Steps, mark_execution_started-Steps}
use server_resource_guardian.Controller.{Environment, Call, World, Gate, next-elim}
use server_resource_guardian.Controller.Reading.{Subject}
use server_resource_guardian.Controller.Grant.{
  stored, start_intent, spend_capability, grant_durable, grant,
}
use server_resource_guardian.Controller.Grant.Facts.{
  check_capability-world, check_claim-world, check_started-world,
}

-- The tables are reached from `t` by the store's own writes.
abbrev pub From : State.Tables → World → Type 0
From t w = Steps t w.tables

stored-From :
    {A : Type 0} (env : Environment) (call : Call) (w : World) (r : Result A × State.Tables)
    {t : State.Tables}
    → Steps t r.1
    → From t (stored env call w r).1
unfolding stored
stored-From env call w (ok a, u) h = h
stored-From env call w (err e, u) h = h

spend_capability-From :
    (env : Environment) (call : Call) (s : Subject) (a : Authorization) (w : World)
    {t : State.Tables}
    → From t w
    → From t (spend_capability env call s a w).1
unfolding spend_capability
spend_capability-From env call s a w {t} h =
    next-elim (From t) _ _
      (stored-From env call w _
        (Steps-trans h (register_capability-Steps env.faults.at_register a w.tables)))
      λ _ _ h1.
        next-elim (From t) _ _
          (stored-From env call _ _ (
            Steps-trans h1
              (consume_capability-Steps env.faults.at_consume a s.event_id call.now _)))
          λ d _ h2. check_capability-world (From t) env call d _ h2

pub start_intent-From :
    (env : Environment) (call : Call) (s : Subject) (b : Bool) (w : World) {t : State.Tables}
    → From t w
    → From t (start_intent env call s b w).1
unfolding start_intent
start_intent-From env call s b w {t} h =
    next-elim (From t) _ _
      (stored-From env call w _ (
        Steps-trans h (
          claim_intent-Steps env.sha256 env.faults.at_claim env.new_id s.host_id s.target_id
            s.action s.event_id call.event call.now w.tables)))
      λ c _ h1. next-elim (From t) _ _ (check_claim-world (From t) env call b c _ h1) λ i _ h2.
        next-elim (From t) _ _
          (stored-From env call _ _
            (Steps-trans h2 (mark_execution_started-Steps env.faults.at_start i call.now _)))
          λ x _ h3. check_started-world (From t) env call b i x _ h3

grant_durable-From :
    (env : Environment) (call : Call) (s : Subject) (b : Bool) (o : Option Authorization)
    (w : World) {t : State.Tables}
    → From t w
    → From t (grant_durable env call s b o w).1
unfolding grant_durable
grant_durable-From env call s b none w h = h
grant_durable-From env call s b (some a) w {t} h =
    next-elim (From t) _ _ (spend_capability-From env call s a w h)
      λ _ _ k. start_intent-From env call s b _ k

pub grant-Steps :
    (env : Environment) (call : Call) (s : Subject) (b : Bool) (w : World) {t : State.Tables}
    → Steps t w.tables
    → Steps t (grant env call s b w).1.tables
unfolding grant
grant-Steps env call s b w {t} h =
    if-cases (λ (m : Gate (Option String) × World). Steps t m.1.tables) env.durable _ _
      (λ _. grant_durable-From env call s b call.authorization w h) (λ _. h)
