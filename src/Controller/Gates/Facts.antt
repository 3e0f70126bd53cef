-- ===== src/Controller/Gates/Facts.antt =====
-- What passing the gates of `enforce`, src/guardian_controller.py, takes, and what it leaves alone.
use server_resource_guardian.Prelude.{
  ◌≡◌, refl, inl, inr, String, Bool, true, false, arith, List, Bool-cases,
}
use server_resource_guardian.Prelude.Int.{ℤ}
use server_resource_guardian.Result.{Result, ok, err}
use server_resource_guardian.Actions.{ActionRequest, validate_request}
use server_resource_guardian.Actions.Validation.{IsAuthorized, validate_request-IsAuthorized}
use server_resource_guardian.State.{Tables}
use server_resource_guardian.Controller.{Environment, Call, World, passed}
use server_resource_guardian.Controller.Reading.{Subject}
use server_resource_guardian.Controller.Gates.{
  Answers, read_memory, read_cooldown, read_durable, read_answers, check_answers, pass_gates,
  check_valid, request_of, check_request, make_request,
}

read_cooldown-requests :
    (w : World) (b : Bool) (r : Result (Bool × String) × Tables)
    → (read_cooldown w b r).1.requests ≡ w.requests
unfolding read_cooldown
read_cooldown-requests w b (ok a, t) = refl
read_cooldown-requests w b (err e, t) = refl

read_durable-requests :
    (env : Environment) (call : Call) (s : Subject) (w : World) (r : Result Bool)
    → (read_durable env call s w r).1.requests ≡ w.requests
unfolding read_durable
read_durable-requests env call s w (err e) = refl
read_durable-requests env call s w (ok b) = read_cooldown-requests w b _

read_answers-requests :
    (env : Environment) (call : Call) (s : Subject) (w : World)
    → (read_answers env call s w).1.requests ≡ w.requests
unfolding read_answers
read_answers-requests env call s w = elim (Bool-cases env.durable) [
  | inl on ↦ rw on (read_durable-requests env call s w _)
  | inr off ↦ rw off (ground (arith, read_memory))
]

check_answers-requests :
    (env : Environment) (call : Call) (m : Result Answers × World)
    → (check_answers env call m).1.requests ≡ m.1.requests
unfolding check_answers
check_answers-requests env call (err e, w) = refl
check_answers-requests env call (ok (true, (c, s)), w) = refl
check_answers-requests env call (ok (false, (true, s)), w) = refl
check_answers-requests env call (ok (false, (false, s)), w) = refl

pub pass_gates-requests :
    (env : Environment) (call : Call) (s : Subject) (w : World) {before : List ActionRequest}
    → w.requests ≡ before
    → (pass_gates env call s w).1.requests ≡ before
unfolding pass_gates
pass_gates-requests env call s w h =
    rw
      (
        check_answers-requests env call (read_answers env call s w),
        read_answers-requests env call s w,
      )
      h

check_answers-passed :
    (env : Environment) (call : Call) (m : Result Answers × World) (b : Bool)
    → (check_answers env call m).0 ≡ passed b
    → (reason : String) × (m.0 ≡ ok (false, (true, reason)))
unfolding check_answers
check_answers-passed env call (err e, w) b h = cc
check_answers-passed env call (ok (true, (c, s)), w) b h = cc
check_answers-passed env call (ok (false, (true, s)), w) b h = (s, refl)
check_answers-passed env call (ok (false, (false, s)), w) b h = cc

-- Both answers were favourable.
pub pass_gates-passed :
    (env : Environment) (call : Call) (s : Subject) (w : World) (b : Bool)
    → (pass_gates env call s w).0 ≡ passed b
    → (reason : String) × ((read_answers env call s w).0 ≡ ok (false, (true, reason)))
unfolding pass_gates
pass_gates-passed env call s w b h = check_answers-passed env call (read_answers env call s w) b h

check_valid-passed :
    (env : Environment) (call : Call) (b : Bool) (q p : ActionRequest) (r : Result (Unit {0}))
    → check_valid env call b q r ≡ passed p
    → (r ≡ ok tt) × (p ≡ q)
unfolding check_valid
check_valid-passed env call b q p (ok tt) h = (refl, cc)
check_valid-passed env call b q p (err e) h = cc

check_request-passed :
    (env : Environment) (call : Call) (s : Subject) (b : Bool) (r : Result ℤ) (q : ActionRequest)
    → check_request env call s b r ≡ passed q
    → (timeout_seconds : ℤ) × (validate_request q call.now ≡ ok tt)
      × (q ≡ request_of call s timeout_seconds)
unfolding check_request
check_request-passed env call s b (err e) q h = cc
check_request-passed env call s b (ok n) q h =
    let (valid, same) = check_valid-passed env call b (request_of call s n) q _ h in
    (n, rw same valid, same)

-- The request is authorized, and it is for the subject.
pub make_request-passed :
    (env : Environment) (call : Call) (s : Subject) (b : Bool) (w : World) (q : ActionRequest)
    → (make_request env call s b w).0 ≡ passed q
    → IsAuthorized q call.now
      × (q.target_id ≡ s.target_id)
      × (q.action ≡ s.action)
      × (q.authorization ≡ call.authorization)
unfolding make_request
make_request-passed env call s b w q h =
    let (n, valid, same) = check_request-passed env call s b _ q h in
    ((validate_request-IsAuthorized q call.now).0 valid, rw same refl, rw same refl, rw same refl)

pub make_request-requests :
    (env : Environment) (call : Call) (s : Subject) (b : Bool) (w : World)
    {before : List ActionRequest}
    → w.requests ≡ before
    → (make_request env call s b w).1.requests ≡ before
unfolding make_request
make_request-requests env call s b w h = h
