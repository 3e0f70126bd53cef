-- ===== src/Controller/Enforce/Calls.antt =====
-- When `enforce` of src/guardian_controller.py calls the executor, and with what.
use server_resource_guardian.Prelude.{
  ◌≡◌, refl, ◌∙◌, ◌⊎◌, inl, inr, String, Bool, Option, List, [], ◌∷◌, ◌++◌,
}
use server_resource_guardian.Value.{object, Fields}
use server_resource_guardian.Actions.{ActionRequest, ActionResult}
use server_resource_guardian.Actions.Validation.{IsAuthorized}
use server_resource_guardian.Controller.{Environment, Call, World, next-elim}
use server_resource_guardian.Controller.Reading.{Subject}
use server_resource_guardian.Controller.Reading.Facts.{Asks, read_event-Asks, read_event-requests}
use server_resource_guardian.Controller.Gates.Facts.{
  pass_gates-requests, make_request-passed, make_request-requests,
}
use server_resource_guardian.Controller.Grant.Facts.{grant-requests}
use server_resource_guardian.Controller.Execute.{execute}
use server_resource_guardian.Controller.Execute.Facts.{execute-requests}
use server_resource_guardian.Controller.Assessment.{assess}
use server_resource_guardian.Controller.Conclusion.Facts.{conclude-requests}
use server_resource_guardian.Controller.Enforce.{settle, act, decide, enforce}

-- One request was handed to the executor since `before`, and it has the property, or none was.
abbrev pub Called : (ActionRequest → Type 0) → List ActionRequest → World → Type 0
Called P before w =
    (w.requests ≡ before) ⊎ ((q : ActionRequest) × (w.requests ≡ before ++ q ∷ []) × P q)

settle-requests :
    (env : Environment) (call : Call) (s : Subject) (b : Bool) (q : ActionRequest)
    (i : Option String) (r : ActionResult) (w : World)
    → (settle env call s b q i r w).1.requests ≡ w.requests
unfolding settle assess
settle-requests env call s b q i r w =
    next-elim (λ x. x.requests ≡ w.requests) _ _ refl
      λ a _ h. conclude-requests env call s b i r _ w

execute-handed :
    (env : Environment) (call : Call) (b : Bool) (q : ActionRequest) (i : Option String) (w : World)
    {before : List ActionRequest}
    → w.requests ≡ before
    → (execute env call b q i w).1.requests ≡ before ++ q ∷ []
execute-handed env call b q i w h = rw (execute-requests env call b q i w, h) refl

-- After the request is made: nothing is called before the grant, and one request after it.
act-Called :
    (env : Environment) (call : Call) (s : Subject) (b : Bool) (q : ActionRequest) (w : World)
    (P : ActionRequest → Type 0) (before : List ActionRequest)
    → P q
    → w.requests ≡ before
    → Called P before (act env call s b q w).1
unfolding act
act-Called env call s b q w P before p h =
    let granted = grant-requests env call s b w ∙ h in
    next-elim (Called P before) _ _ (inl granted) λ i _ _.
      let handed = execute-handed env call b q i _ granted in
      next-elim (Called P before) _ _ (inr (q, handed, p))
        λ r _ _. inr (q, settle-requests env call s b q i r _ ∙ handed, p)

-- An authorized request that the event asks for.
abbrev pub IsDue : Call → ActionRequest → Type 0
IsDue call q =
    IsAuthorized q call.now
    × (q.authorization ≡ call.authorization)
    × ((event : Fields) × (call.event ≡ object event) × Asks event q.target_id q.action)

decide-Called :
    (env : Environment) (call : Call) (w : World)
    → Called (IsDue call) w.requests (decide env call w).1
unfolding decide
decide-Called env call w =
    let P = Called (IsDue call) w.requests in
    let h0 = read_event-requests env call w in
    next-elim P _ _ (inl h0) λ s read _.
      let h1 = pass_gates-requests env call s _ h0 in
      next-elim P _ _ (inl h1) λ b _ _.
        let h2 = make_request-requests env call s b _ h1 in
        next-elim P _ _ (inl h2) λ q made _.
          let (event, same, asks) = read_event-Asks env call w s read in
          let (authorized, target, action, approval) = make_request-passed env call s b _ q made in
          act-Called env call s b q _ (IsDue call) w.requests
            (authorized, approval, (event, same, rw (target, action) asks)) h2

-- A call of `enforce` hands at most one request to the executor. The request has passed the whole
-- authorization contract at the time of the call, carries the caller's authorization, and is for an
-- event that is in mode `enforce` and in state `warning` or `critical`, with exactly one candidate,
-- a container with the request's target as its id, and with the request's action in its decision.
pub enforce-Called :
    (env : Environment) (call : Call) (w : World)
    → Called (IsDue call) w.requests (enforce env call w).1
unfolding enforce
enforce-Called env call w = decide-Called env call w
