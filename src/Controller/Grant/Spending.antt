-- ===== src/Controller/Grant/Spending.antt =====
-- The consumption of the capability in `enforce`, src/guardian_controller.py.
use server_resource_guardian.Prelude.{
  ◌≡◌, refl, sym, String, Bool, true, false, Option, some, if-cases, arith, subst,
}
use server_resource_guardian.Result.{Result, ok, err}
use server_resource_guardian.Actions.{Authorization}
use server_resource_guardian.State
use server_resource_guardian.State.{CapabilityDecision}
use server_resource_guardian.State.Steps.{Steps_induction, Steps, here}
use server_resource_guardian.State.Capabilities.{register_capability, consume_capability}
use server_resource_guardian.State.Capabilities.Sound.{register_capability-Steps}
use server_resource_guardian.State.Capabilities.Consumption.{
  IsConsumed, consume_capability-allowed, consume_capability-refused,
}
use server_resource_guardian.State.History.SingleUse.{Step-IsConsumed}
use server_resource_guardian.Controller.{Environment, Call, World, Gate, passed, next, next-passed}
use server_resource_guardian.Controller.Reading.{Subject}
use server_resource_guardian.Controller.Grant.Store.{start_intent-From}
use server_resource_guardian.Controller.Grant.Facts.{check_capability-world}
use server_resource_guardian.Controller.Grant.{
  stored, check_capability, spend_capability, start_intent, grant_durable, grant,
}

stored-ok :
    {A : Type 0} (env : Environment) (call : Call) (w : World) (r : Result A × State.Tables) (a : A)
    → (stored env call w r).0 ≡ passed a
    → r.0 ≡ ok a
unfolding stored
stored-ok env call w (ok b, t) a h = cc
stored-ok env call w (err e, t) a h = cc

stored-tables :
    {A : Type 0} (env : Environment) (call : Call) (w : World) (r : Result A × State.Tables)
    → (stored env call w r).1.tables ≡ r.1
unfolding stored
stored-tables env call w (ok b, t) = refl
stored-tables env call w (err e, t) = refl

check_capability-passed :
    (env : Environment) (call : Call) (d : CapabilityDecision) (w : World)
    → (check_capability env call d w).0 ≡ passed tt
    → d.allowed ≡ true
unfolding check_capability
check_capability-passed env call d w h = ground arith

-- The consumption alone, on the world after the registration.
abbrev consumption : Environment → Call → Subject → Authorization → World → Gate (Unit {0}) × World
consumption env call s a w =
    next
      (stored env call w (consume_capability env.faults.at_consume a s.event_id call.now w.tables))
      (check_capability env call)

-- Where it goes on, the consumption was allowed and is on record.
consumption-passed :
    (env : Environment) (call : Call) (s : Subject) (a : Authorization) (w : World)
    → (consumption env call s a w).0 ≡ passed tt
    → ¬ IsConsumed a.approval_id w.tables
      × IsConsumed a.approval_id (consumption env call s a w).1.tables
consumption-passed env call s a w h =
    let r = consume_capability env.faults.at_consume a s.event_id call.now w.tables in
    let (d, consumed, checked, same) =
      next-passed (stored env call w r) (check_capability env call) tt h in
    let decided = stored-ok env call w r d consumed in
    let allowed = check_capability-passed env call d _ checked in
    let done =
      (consume_capability-allowed env.faults.at_consume a s.event_id call.now w.tables d decided
        allowed).1 in
    (
      λ used.
          let refused =
            consume_capability-refused env.faults.at_consume a s.event_id call.now w.tables d used
              decided in
          ground arith,
      subst (λ (m : Gate (Unit {0}) × World). IsConsumed a.approval_id m.1.tables) (sym same)
          (check_capability-world (λ x. IsConsumed a.approval_id x.tables) env call d _
            (subst (IsConsumed a.approval_id) (sym (stored-tables env call w r)) done)),
    )

-- A consumed capability stays consumed through the store's writes.
pub still-IsConsumed :
    (id : String) {t u : State.Tables} → Steps t u → IsConsumed id t → IsConsumed id u
still-IsConsumed id r h = Steps_induction (IsConsumed id) (Step-IsConsumed id) r h

spend_capability-passed :
    (env : Environment) (call : Call) (s : Subject) (a : Authorization) (w : World)
    → (spend_capability env call s a w).0 ≡ passed tt
    → ¬ IsConsumed a.approval_id w.tables
      × IsConsumed a.approval_id (spend_capability env call s a w).1.tables
unfolding spend_capability
spend_capability-passed env call s a w h =
    let r = register_capability env.faults.at_register a w.tables in
    let after = (stored env call w r).1 in
    let (x, _, rest, same) =
      next-passed (stored env call w r) (λ _ w1. consumption env call s a w1) tt h in
    let (fresh, used) = consumption-passed env call s a after rest in
    (
      λ old. fresh (
          subst (IsConsumed a.approval_id) (sym (stored-tables env call w r)) (
            still-IsConsumed a.approval_id
              (register_capability-Steps env.faults.at_register a w.tables) old)),
      subst (λ (m : Gate (Unit {0}) × World). IsConsumed a.approval_id m.1.tables) (sym same) used,
    )

grant_durable-passed :
    (env : Environment) (call : Call) (s : Subject) (b : Bool) (a : Authorization) (w : World)
    (i : Option String)
    → (grant_durable env call s b (some a) w).0 ≡ passed i
    → ¬ IsConsumed a.approval_id w.tables
      × IsConsumed a.approval_id (grant_durable env call s b (some a) w).1.tables
unfolding grant_durable
grant_durable-passed env call s b a w i h =
    let (x, spent, _, same) =
      next-passed (spend_capability env call s a w) (λ _ w1. start_intent env call s b w1) i h in
    let (fresh, used) = spend_capability-passed env call s a w spent in
    (
      fresh,
      subst (λ (m : Gate (Option String) × World). IsConsumed a.approval_id m.1.tables) (sym same)
          (still-IsConsumed a.approval_id (start_intent-From env call s b _ here) used),
    )

-- With a store, the grant goes on only with a capability that was not consumed before, and is now.
pub grant-passed :
    (env : Environment) (call : Call) (s : Subject) (b : Bool) (a : Authorization) (w : World)
    (i : Option String)
    → env.durable ≡ true
    → call.authorization ≡ some a
    → (grant env call s b w).0 ≡ passed i
    → ¬ IsConsumed a.approval_id w.tables × IsConsumed a.approval_id (grant env call s b w).1.tables
unfolding grant
grant-passed env call s b a w i on given =
    if-cases
      (λ (m : Gate (Option String) × World).
        m.0 ≡ passed i → ¬ IsConsumed a.approval_id w.tables × IsConsumed a.approval_id m.1.tables)
      env.durable _ _
      (λ _.
        subst
          (λ (o : Option Authorization).
            (grant_durable env call s b o w).0 ≡ passed i
            → ¬ IsConsumed a.approval_id w.tables
              × IsConsumed a.approval_id (grant_durable env call s b o w).1.tables)
          (sym given) (grant_durable-passed env call s b a w i))
      (λ off. absurd (both on off))
  where
    both : {c : Bool} → c ≡ true → c ≡ false → ⊥
    both on off = cc
