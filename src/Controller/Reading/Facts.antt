-- ===== src/Controller/Reading/Facts.antt =====
-- What an event says when `enforce` of src/guardian_controller.py goes on with it.
use server_resource_guardian.Prelude.{
  ◌≡◌, ap, ◌⊎◌, inl, inr, refl, String, Bool, true, false, Option, none, some, arith, eq_iff,
  Bool-cases,
}
use server_resource_guardian.Result.{Result, ok, err, >>=-eq-ok}
use server_resource_guardian.Value.{
  Value, null, boolean, number, text, array, object, cons, nil, Fields, lookup,
}
use server_resource_guardian.Actions.{allowed_actions}
use server_resource_guardian.Controller.{Environment, Call, World, passed}
use server_resource_guardian.Controller.Reading.{
  Subject, equals, decision_of, is_actionable, stable_id, candidate_id, target_of, action_of,
  subject_of, or_denied, read_actionable, read_fields, read_event,
}

-- The event asks for the action `action` on the container `target_id`, in so many words.
pub record Asks (event : Fields) (target_id action : String) : Type 0 where
  pub mode : lookup "mode" (decision_of event) ≡ some (text "enforce")
  pub risk :
      (lookup "state" event ≡ some (text "warning"))
      ⊎ (lookup "state" event ≡ some (text "critical"))
  pub candidate :
      (c : Fields) × (lookup "object_candidates" event ≡ some (array (cons (object c) nil)))
      × (lookup "kind" c ≡ some (text "container"))
      × (lookup "id" c ≡ some (text target_id))
  pub planned : lookup "action" (decision_of event) ≡ some (text action)

equals-true :
    (expected : String) (o : Option Value) → equals expected o ≡ true → o ≡ some (text expected)
unfolding equals
equals-true expected none h = cc
equals-true expected (some null) h = cc
equals-true expected (some (boolean b)) h = cc
equals-true expected (some (number n)) h = cc
equals-true expected (some (array xs)) h = cc
equals-true expected (some (object fs)) h = cc
equals-true expected (some (text s)) h = ground (arith, eq_iff s expected)

is_actionable-true :
    (o : Option Value)
    → is_actionable o ≡ ok true
    → (o ≡ some (text "warning")) ⊎ (o ≡ some (text "critical"))
unfolding is_actionable
is_actionable-true none h = cc
is_actionable-true (some null) h = cc
is_actionable-true (some (boolean b)) h = cc
is_actionable-true (some (number n)) h = cc
is_actionable-true (some (array xs)) h = cc
is_actionable-true (some (object fs)) h = cc
is_actionable-true (some (text s)) h = ground (arith, eq_iff s "warning", eq_iff s "critical")

stable_id-ok : (o : Option Value) (id : String) → stable_id o ≡ ok id → o ≡ some (text id)
unfolding stable_id
stable_id-ok none id h = cc
stable_id-ok (some null) id h = cc
stable_id-ok (some (boolean b)) id h = cc
stable_id-ok (some (number n)) id h = cc
stable_id-ok (some (array xs)) id h = cc
stable_id-ok (some (object fs)) id h = cc
stable_id-ok (some (text s)) id h = ground arith

candidate_id-ok :
    (v : Value) (id : String)
    → candidate_id v ≡ ok id
    → (c : Fields) × (v ≡ object c)
      × (lookup "kind" c ≡ some (text "container"))
      × (lookup "id" c ≡ some (text id))
unfolding candidate_id
candidate_id-ok null id h = cc
candidate_id-ok (boolean b) id h = cc
candidate_id-ok (number n) id h = cc
candidate_id-ok (text s) id h = cc
candidate_id-ok (array xs) id h = cc
candidate_id-ok (object c) id h = elim (Bool-cases (equals "container" (lookup "kind" c))) [
  | inl kind ↦ (
    c,
    refl,
    equals-true "container" (lookup "kind" c) kind,
    stable_id-ok (lookup "id" c) id (rw kind at h),
  )
  | inr other ↦ cc (rw other at h)
]

target_of-ok :
    (o : Option Value) (id : String)
    → target_of o ≡ ok id
    → (c : Fields) × (o ≡ some (array (cons (object c) nil)))
      × (lookup "kind" c ≡ some (text "container"))
      × (lookup "id" c ≡ some (text id))
unfolding target_of
target_of-ok none id h = cc
target_of-ok (some null) id h = cc
target_of-ok (some (boolean b)) id h = cc
target_of-ok (some (number n)) id h = cc
target_of-ok (some (text s)) id h = cc
target_of-ok (some (object fs)) id h = cc
target_of-ok (some (array nil)) id h = cc
target_of-ok (some (array (cons v (cons u us)))) id h = cc
target_of-ok (some (array (cons v nil))) id h =
    let (c, same, kind, stable) = candidate_id-ok v id h in
    (c, ap (λ u. some (array (cons u nil))) same, kind, stable)

action_of-ok :
    (o : Option Value) (action : String) → action_of o ≡ ok action → o ≡ some (text action)
unfolding action_of
action_of-ok none action h = cc
action_of-ok (some null) action h = cc
action_of-ok (some (boolean b)) action h = cc
action_of-ok (some (number n)) action h = cc
action_of-ok (some (array xs)) action h = cc
action_of-ok (some (object fs)) action h = cc
action_of-ok (some (text s)) action h = ground arith

-- What the subject of an event is made of.
subject_of-ok :
    (env : Environment) (call : Call) (event : Fields) (s : Subject)
    → subject_of env call event ≡ ok s
    → (target_of (lookup "object_candidates" event) ≡ ok s.target_id)
      × (action_of (lookup "action" (decision_of event)) ≡ ok s.action)
unfolding subject_of
subject_of-ok env call event s h =
    let (target_id, t, h1) = >>=-eq-ok (target_of (lookup "object_candidates" event)) _ h in
    let (action, a, h2) = >>=-eq-ok (action_of (lookup "action" (decision_of event))) _ h1 in
    let (normalized, n, h3) = >>=-eq-ok (allowed_actions call.allowed) _ h2 in ground arith

or_denied-passed :
    {A : Type 0} (env : Environment) (call : Call) (w : World) (r : Result A) (a : A)
    → or_denied env call w r ≡ passed a
    → r ≡ ok a
unfolding or_denied
or_denied-passed env call w (ok b) a h = cc
or_denied-passed env call w (err e) a h = cc

read_actionable-passed :
    (env : Environment) (call : Call) (w : World) (event : Fields) (r : Result Bool) (s : Subject)
    → read_actionable env call w event r ≡ passed s
    → (r ≡ ok true) × (subject_of env call event ≡ ok s)
unfolding read_actionable
read_actionable-passed env call w event (err e) s h = cc
read_actionable-passed env call w event (ok false) s h = cc
read_actionable-passed env call w event (ok true) s h =
    (refl, or_denied-passed env call w (subject_of env call event) s h)

read_fields-passed :
    (env : Environment) (call : Call) (w : World) (v : Value) (s : Subject)
    → read_fields env call w v ≡ passed s
    → (event : Fields) × (v ≡ object event) × Asks event s.target_id s.action
unfolding read_fields
read_fields-passed env call w null s h = cc
read_fields-passed env call w (boolean b) s h = cc
read_fields-passed env call w (number n) s h = cc
read_fields-passed env call w (text t) s h = cc
read_fields-passed env call w (array xs) s h = cc
read_fields-passed env call w (object event) s h =
    elim (Bool-cases (equals "enforce" (lookup "mode" (decision_of event)))) [
      | inr other ↦ cc (rw other at h)
      | inl mode ↦
          let (risk, made) =
            read_actionable-passed env call w event (is_actionable (lookup "state" event)) s
              (rw mode at h) in
          let (target, action) = subject_of-ok env call event s made in
          (
            event,
            refl,
            record {
              mode = equals-true "enforce" (lookup "mode" (decision_of event)) mode;
              risk = is_actionable-true (lookup "state" event) risk;
              candidate = target_of-ok (lookup "object_candidates" event) s.target_id target;
              planned = action_of-ok (lookup "action" (decision_of event)) s.action action;
            },
          )
    ]

pub read_event-Asks :
    (env : Environment) (call : Call) (w : World) (s : Subject)
    → (read_event env call w).0 ≡ passed s
    → (event : Fields) × (call.event ≡ object event) × Asks event s.target_id s.action
unfolding read_event
read_event-Asks env call w s h = read_fields-passed env call w call.event s h

pub read_event-requests :
    (env : Environment) (call : Call) (w : World) → (read_event env call w).1.requests ≡ w.requests
unfolding read_event
read_event-requests env call w = refl
