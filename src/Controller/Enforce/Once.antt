-- ===== src/Controller/Enforce/Once.antt =====
-- One approval, one call of the executor: `enforce` of src/guardian_controller.py over a state store.
use server_resource_guardian.Prelude.{
  ◌≡◌, ◌≢◌, sym, ◌∙◌, ◌⊎◌, inl, inr, String, Bool, true, some, List, subst,
}
use server_resource_guardian.Actions.{Authorization, ActionRequest}
use server_resource_guardian.State.Steps.{Steps, here}
use server_resource_guardian.State.Capabilities.Consumption.{IsConsumed}
use server_resource_guardian.State.History
use server_resource_guardian.State.History.Exclusive.{IsExclusive, run-Steps}
use server_resource_guardian.Controller.{Environment, Call, World, next-elim}
use server_resource_guardian.Controller.Reading.{Subject}
use server_resource_guardian.Controller.Reading.Facts.{read_event-requests}
use server_resource_guardian.Controller.Gates.Facts.{pass_gates-requests, make_request-requests}
use server_resource_guardian.Controller.Gates.Store.{pass_gates-Steps}
use server_resource_guardian.Controller.Grant.Facts.{grant-requests}
use server_resource_guardian.Controller.Grant.Spending.{grant-passed, still-IsConsumed}
use server_resource_guardian.Controller.Grant.Store.{grant-Steps}
use server_resource_guardian.Controller.Enforce.{act, decide, enforce}
use server_resource_guardian.Controller.Enforce.Store.{
  still-IsExclusive, before_gates, make_request-Steps, execute-From, settle-Steps, enforce-Steps,
}

-- No request was handed over, or the approval was not consumed at first and is consumed now.
abbrev pub IsSpent : String → World → World → Type 0
IsSpent id before w =
    (w.requests ≡ before.requests) ⊎ (¬ IsConsumed id before.tables × IsConsumed id w.tables)

act-IsSpent :
    (env : Environment) (call : Call) (s : Subject) (b : Bool) (q : ActionRequest)
    (w before : World) (a : Authorization)
    → env.durable ≡ true
    → call.authorization ≡ some a
    → IsExclusive before.tables
    → w.requests ≡ before.requests
    → Steps before.tables w.tables
    → IsSpent a.approval_id before (act env call s b q w).1
unfolding act
act-IsSpent env call s b q w before a on given exclusive same reached =
    let P = IsSpent a.approval_id before in
    let granted = grant-Steps env call s b w reached in
    next-elim P _ _ (inl (grant-requests env call s b w ∙ same)) λ i passed _.
      let (fresh, used) = grant-passed env call s b a w i on given passed in
      let new = λ (old : IsConsumed a.approval_id before.tables).
        fresh (still-IsConsumed a.approval_id reached old) in
      let e = still-IsExclusive exclusive granted in
      let executed = execute-From env call b q i _ e here in
      next-elim P _ _ (inr (new, still-IsConsumed a.approval_id executed used)) λ r _ _.
        inr
          (new, still-IsConsumed a.approval_id (settle-Steps env call s b q i r _ e executed) used)

decide-IsSpent :
    (env : Environment) (call : Call) (w : World) (a : Authorization)
    → env.durable ≡ true
    → call.authorization ≡ some a
    → IsExclusive w.tables
    → IsSpent a.approval_id w (decide env call w).1
unfolding decide
decide-IsSpent env call w a on given exclusive =
    let P = IsSpent a.approval_id w in
    let h0 = read_event-requests env call w in
    next-elim P _ _ (inl h0) λ s _ _.
      let h1 = pass_gates-requests env call s _ h0 in
      let t1 = pass_gates-Steps env call s _ (before_gates env call w) in
      next-elim P _ _ (inl h1) λ b _ _.
        let h2 = make_request-requests env call s b _ h1 in
        let t2 = make_request-Steps env call s b _ t1 in
        next-elim P _ _ (inl h2) λ q _ _. act-IsSpent env call s b q _ w a on given exclusive h2 t2

-- With a state store whose intents are exclusive, a call of `enforce` that hands a request to the
-- executor does so under an approval that was not consumed before the call and is consumed after it.
pub enforce-IsSpent :
    (env : Environment) (call : Call) (w : World) (a : Authorization)
    → env.durable ≡ true
    → call.authorization ≡ some a
    → IsExclusive w.tables
    → IsSpent a.approval_id w (enforce env call w).1
unfolding enforce
enforce-IsSpent env call w a on given exclusive = decide-IsSpent env call w a on given exclusive

unspent :
    (id : String) (before w : World)
    → IsConsumed id before.tables
    → IsSpent id before w
    → w.requests ≡ before.requests
unspent id before w used (inl same) = same
unspent id before w used (inr (fresh, _)) = absurd (fresh used)

spent :
    (id : String) (before w : World)
    → w.requests ≢ before.requests
    → IsSpent id before w
    → IsConsumed id w.tables
spent id before w called (inl same) = absurd (called same)
spent id before w called (inr (_, used)) = used

-- With a state store whose intents are exclusive at first, one approval runs the executor at most
-- once: after a call of `enforce` that handed a request over, no later call with an approval of the
-- same id hands one over, whatever calls of the store lie between, and whatever the later event,
-- time, target and faults are.
pub enforce_once :
    (env env' : Environment) (call call' : Call) (w : World) (a b : Authorization)
    (calls : List History.Call)
    → env.durable ≡ true
    → env'.durable ≡ true
    → call.authorization ≡ some a
    → call'.authorization ≡ some b
    → b.approval_id ≡ a.approval_id
    → IsExclusive w.tables
    → (enforce env call w).1.requests ≢ w.requests
    → (enforce env' call' (record (enforce env call w).1 {
      tables = History.run env.sha256 calls (enforce env call w).1.tables;
    })).1.requests
      ≡ (enforce env call w).1.requests
enforce_once env env' call call' w a b calls on on' given given' same exclusive called =
    let after = (enforce env call w).1 in
    let used =
      spent a.approval_id w after called (enforce-IsSpent env call w a on given exclusive) in
    let e1 = still-IsExclusive exclusive (enforce-Steps env call w exclusive) in
    let ran = run-Steps env.sha256 calls after.tables e1 in
    let later = record after { tables = History.run env.sha256 calls after.tables } in
    unspent b.approval_id later (enforce env' call' later).1
      (subst (λ id. IsConsumed id later.tables) (sym same)
        (still-IsConsumed a.approval_id ran used))
      (enforce-IsSpent env' call' later b on' given' (still-IsExclusive e1 ran))
