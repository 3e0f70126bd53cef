-- ===== src/Controller/Grant/Facts.antt =====
-- What the grant of `enforce`, src/guardian_controller.py, leaves alone.
use server_resource_guardian.Prelude.{
  ◌≡◌, refl, inl, inr, List, String, Bool, true, false, Option, none, some, Bool-cases, if-cases,
}
use server_resource_guardian.Result.{Result, ok, err}
use server_resource_guardian.Actions.{Authorization, ActionRequest}
use server_resource_guardian.State.{CapabilityDecision, IntentClaim, Tables}
use server_resource_guardian.Controller.{Environment, Call, World, Gate, next-elim}
use server_resource_guardian.Controller.Reading.{Subject}
use server_resource_guardian.Controller.Grant.{
  stored, check_capability, check_claim, check_started, start_intent, spend_capability,
  grant_durable, grant,
}

-- A call of the store writes its tables only.
pub stored-requests :
    {A : Type 0} (env : Environment) (call : Call) (w : World) (r : Result A × Tables)
    {requests : List ActionRequest}
    → w.requests ≡ requests
    → (stored env call w r).1.requests ≡ requests
unfolding stored
stored-requests env call w (ok a, t) h = h
stored-requests env call w (err e, t) h = h

-- The tests between the calls leave the world as it is.
module _ (P : World → Type 0) (env : Environment) (call : Call) where
  pub check_capability-world :
      (d : CapabilityDecision) (w : World) → P w → P (check_capability env call d w).1
  unfolding check_capability
  check_capability-world d w h = elim (Bool-cases d.allowed) [
    | inl on ↦ rw on h
    | inr off ↦ rw off h
  ]

  pub check_claim-world :
      (b : Bool) (c : IntentClaim) (w : World) → P w → P (check_claim env call b c w).1
  unfolding check_claim
  check_claim-world b c w h = elim (Bool-cases c.claimed) [ inl on ↦ rw on h | inr off ↦ rw off h ]

  pub check_started-world :
      (b : Bool) (intent_id : String) (started : Bool) (w : World)
      → P w
      → P (check_started env call b intent_id started w).1
  unfolding check_started
  check_started-world b intent_id true w h = h
  check_started-world b intent_id false w h = h

Requested : List ActionRequest → World → Type 0
Requested requests w = w.requests ≡ requests

spend_capability-requests :
    (env : Environment) (call : Call) (s : Subject) (a : Authorization) (w : World)
    → (spend_capability env call s a w).1.requests ≡ w.requests
unfolding spend_capability Requested
spend_capability-requests env call s a w =
    next-elim (Requested w.requests) _ _ (stored-requests env call _ _ refl) λ _ _ h.
      next-elim (Requested w.requests) _ _ (stored-requests env call _ _ h)
        λ d _ k. check_capability-world (Requested w.requests) env call d _ k

start_intent-requests :
    (env : Environment) (call : Call) (s : Subject) (b : Bool) (w : World)
    {requests : List ActionRequest}
    → w.requests ≡ requests
    → (start_intent env call s b w).1.requests ≡ requests
unfolding start_intent Requested
start_intent-requests env call s b w {requests} h =
    next-elim (Requested requests) _ _ (stored-requests env call _ _ h) λ c _ h1.
      next-elim (Requested requests) _ _ (check_claim-world (Requested requests) env call b c _ h1)
        λ i _ h2.
          next-elim (Requested requests) _ _ (stored-requests env call _ _ h2)
            λ x _ h3. check_started-world (Requested requests) env call b i x _ h3

grant_durable-requests :
    (env : Environment) (call : Call) (s : Subject) (b : Bool) (o : Option Authorization)
    (w : World)
    → (grant_durable env call s b o w).1.requests ≡ w.requests
unfolding grant_durable Requested
grant_durable-requests env call s b none w = refl
grant_durable-requests env call s b (some a) w =
    next-elim (Requested w.requests) _ _ (spend_capability-requests env call s a w)
      λ _ _ h. start_intent-requests env call s b _ h

pub grant-requests :
    (env : Environment) (call : Call) (s : Subject) (b : Bool) (w : World)
    → (grant env call s b w).1.requests ≡ w.requests
unfolding grant
grant-requests env call s b w =
    if-cases (λ (m : Gate (Option String) × World). m.1.requests ≡ w.requests) env.durable _ _
      (λ _. grant_durable-requests env call s b call.authorization w) (λ _. refl)
