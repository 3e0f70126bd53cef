-- ===== src/Controller/Enforce/Store.antt =====
-- What a call of `enforce`, src/guardian_controller.py, does to the store.
use server_resource_guardian.Prelude.{String, Bool, Option}
use server_resource_guardian.Actions.{ActionRequest, ActionResult}
use server_resource_guardian.State
use server_resource_guardian.State.Steps.{Steps, here, Steps-trans, Steps_induction}
use server_resource_guardian.State.History.Exclusive.{IsExclusive, Step-IsExclusive}
use server_resource_guardian.Controller.{Environment, Call, World, next-elim}
use server_resource_guardian.Controller.Reading.{Subject, read_event}
use server_resource_guardian.Controller.Gates.{make_request}
use server_resource_guardian.Controller.Gates.Store.{pass_gates-Steps}
use server_resource_guardian.Controller.Grant.Store.{grant-Steps}
use server_resource_guardian.Controller.Execute.{execute}
use server_resource_guardian.Controller.Execute.Store.{execute-Steps}
use server_resource_guardian.Controller.Assessment.{assess}
use server_resource_guardian.Controller.Conclusion.Store.{conclude-Steps}
use server_resource_guardian.Controller.Enforce.{settle, act, decide, enforce}

abbrev From : State.Tables → World → Type 0
From t w = Steps t w.tables

-- Intents that do not share ids, keys or targets still do not after the store's writes.
pub still-IsExclusive : {t u : State.Tables} → IsExclusive t → Steps t u → IsExclusive u
still-IsExclusive h r = Steps_induction IsExclusive Step-IsExclusive r h

pub settle-Steps :
    (env : Environment) (call : Call) (s : Subject) (b : Bool) (q : ActionRequest)
    (i : Option String) (r : ActionResult) (w : World) {t : State.Tables}
    → IsExclusive t
    → Steps t w.tables
    → Steps t (settle env call s b q i r w).1.tables
unfolding settle assess
settle-Steps env call s b q i r w {t} x h =
    next-elim (From t) _ _ h
      λ a _ k. Steps-trans k (conclude-Steps env call s b i r _ w (still-IsExclusive x k))

pub execute-From :
    (env : Environment) (call : Call) (b : Bool) (q : ActionRequest) (i : Option String) (w : World)
    {t : State.Tables}
    → IsExclusive t
    → Steps t w.tables
    → Steps t (execute env call b q i w).1.tables
execute-From env call b q i w x h =
    Steps-trans h (execute-Steps env call b q i w (still-IsExclusive x h))

pub act-Steps :
    (env : Environment) (call : Call) (s : Subject) (b : Bool) (q : ActionRequest) (w : World)
    {t : State.Tables}
    → IsExclusive t
    → Steps t w.tables
    → Steps t (act env call s b q w).1.tables
unfolding act
act-Steps env call s b q w {t} x h = next-elim (From t) _ _ (grant-Steps env call s b w h) λ i _ h1.
    next-elim (From t) _ _ (execute-From env call b q i _ x h1)
      λ r _ h2. settle-Steps env call s b q i r _ x h2

pub before_gates :
    (env : Environment) (call : Call) (w : World) → Steps w.tables (read_event env call w).1.tables
unfolding read_event
before_gates env call w = here

pub make_request-Steps :
    (env : Environment) (call : Call) (s : Subject) (b : Bool) (w : World) {t : State.Tables}
    → Steps t w.tables
    → Steps t (make_request env call s b w).1.tables
unfolding make_request
make_request-Steps env call s b w h = h

decide-Steps :
    (env : Environment) (call : Call) (w : World)
    → IsExclusive w.tables
    → Steps w.tables (decide env call w).1.tables
unfolding decide
decide-Steps env call w x =
    let P = From w.tables in
    next-elim P _ _ (before_gates env call w) λ s _ h0.
      next-elim P _ _ (pass_gates-Steps env call s _ h0) λ b _ h1.
        next-elim P _ _ (make_request-Steps env call s b _ h1)
          λ q _ h2. act-Steps env call s b q _ x h2

-- A call of `enforce` changes the store by the writes of its methods alone.
pub enforce-Steps :
    (env : Environment) (call : Call) (w : World)
    → IsExclusive w.tables
    → Steps w.tables (enforce env call w).1.tables
unfolding enforce
enforce-Steps env call w x = decide-Steps env call w x
