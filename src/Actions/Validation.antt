-- ===== src/Actions/Validation.antt =====
-- What `validate_request` and the adapters of src/guardian_actions.py guarantee.
use server_resource_guardian.Prelude.{
  ◌≡◌, ◌≢◌, ◌↔◌, ◌⊎◌, refl, String, true, false, Option, none, some, List, [], ◌∷◌, All, arith,
  eq_iff, eq_apart, one_of, sym, subst,
}
use server_resource_guardian.Prelude.Int.{ℤ, pos, ◌≤ℤ◌, ◌<ℤ◌}
use server_resource_guardian.Prelude.Text.{sorted_set, insert, decimal}
use mathlib.Core.Option.{some-injective}
use server_resource_guardian.Result.{Result, ok, err, ◌>>◌}
use server_resource_guardian.Actions.{
  Authorization, ActionRequest, supported_actions, is_container_id, validate_approval,
  validate_request, docker_command, docker_execute, Run, allowed_actions, run_command,
  check_unknown, unknown, check_unknown, run_command,
}

-- An approval that covers the request at the time `now`.
pub record Covers (a : Authorization) (q : ActionRequest) (now : ℤ) : Type 0 where
  pub named : a.approval_id ≢ ""
  pub disposable : a.environment ≡ "local-disposable"
  pub same_target : a.target_id ≡ q.target_id
  pub same_action : a.action ≡ q.action
  pub unexpired : now <ℤ a.expires_at
  pub timeout : (pos 1 ≤ℤ q.timeout_seconds) × (q.timeout_seconds ≤ℤ pos 120)

-- The whole safety contract of a request.
pub record IsAuthorized (q : ActionRequest) (now : ℤ) : Type 0 where
  pub supported : (q.action ≡ "graceful_stop") ⊎ (q.action ≡ "restart") ⊎ (q.action ≡ "terminate")
  pub stable : is_container_id q.target_id ≡ true
  pub unprotected : q.protected ≡ false
  pub allowlisted : one_of q.action q.allowed_actions ≡ true
  pub approved : (a : Authorization) × (q.authorization ≡ some a) × Covers a q now

validate_approval-Covers :
    (q : ActionRequest) (now : ℤ) (a : Authorization)
    → (validate_approval q now (some a) ≡ ok tt) ↔ Covers a q now
unfolding validate_approval
validate_approval-Covers q now a = ground (
  arith,
  eq_iff a.approval_id "",
  eq_iff a.environment "local-disposable",
  eq_iff a.target_id q.target_id,
  eq_iff a.action q.action,
)

validate_approval-approved :
    (q : ActionRequest) (now : ℤ) (o : Option Authorization)
    → (validate_approval q now o ≡ ok tt) ↔ ((a : Authorization) × (o ≡ some a) × Covers a q now)
unfolding validate_approval
validate_approval-approved q now none = (λ h. cc, λ h. cc (h.1))
validate_approval-approved q now (some a) = (
  λ h. (a, refl, (validate_approval-Covers q now a).0 h),
  λ h.
      (validate_approval-Covers q now a).1
        (subst (λ b. Covers b q now) (some-injective h.0 a (sym h.1)) h.2),
)

supported_iff :
    (action : String)
    → (one_of action supported_actions ≡ true)
      ↔ ((action ≡ "graceful_stop") ⊎ (action ≡ "restart") ⊎ (action ≡ "terminate"))
supported_iff action =
    ground
      (arith, eq_iff action "graceful_stop", eq_iff action "restart", eq_iff action "terminate")

-- A request passes the validation exactly when the whole safety contract holds: a supported and
-- allowlisted action, a stable container id, an unprotected target, and an approval that is named,
-- for the disposable environment, for this target and action, unexpired, with a timeout of 1 to
-- 120 seconds.
pub validate_request-IsAuthorized :
    (q : ActionRequest) (now : ℤ) → (validate_request q now ≡ ok tt) ↔ IsAuthorized q now
unfolding validate_request
validate_request-IsAuthorized q now = (
  λ h. record {
    supported = (supported_iff q.action).0 (ground arith);
    stable = ground arith;
    unprotected = ground arith;
    allowlisted = ground arith;
    approved = (validate_approval-approved q now q.authorization).0 (ground arith);
  },
  λ h. ground (
    arith,
    h.stable,
    h.unprotected,
    h.allowlisted,
    (supported_iff q.action).1 h.supported,
    (validate_approval-approved q now q.authorization).1 h.approved,
  ),
)

run_command-ok :
    (runner : List String → ℤ → Run) (q : ActionRequest) (c : Result (List String))
    {command : List String}
    → ((run_command runner q c).1 ≡ some command) ↔ (c ≡ ok command)
unfolding run_command
run_command-ok runner q (ok c) = (λ h. cc h, λ h. cc h)
run_command-ok runner q (err reason) = (λ h. cc h, λ h. cc h)

then-ok {ℓ} :
    {A : Type ℓ} (m : Result (Unit {0})) (k : Result A) {a : A}
    → ((m >> k) ≡ ok a) ↔ ((m ≡ ok tt) × (k ≡ ok a))
then-ok (ok tt) k = (λ h. (refl, h), λ h. h.1)
then-ok (err reason) k = (λ h. cc h, λ h. cc (h.0))

-- The command of the action, with the target of the request as its last word.
abbrev pub Commands : ActionRequest → List String → Type 0
Commands q command =
    ((q.action ≡ "graceful_stop")
      × (command ≡ "docker" ∷ "kill" ∷ "--signal" ∷ "TERM" ∷ q.target_id ∷ []))
    ⊎ ((q.action ≡ "restart")
        × (command
            ≡ "docker" ∷ "restart" ∷ "--timeout" ∷ decimal q.timeout_seconds ∷ q.target_id ∷ []))
    ⊎ ((q.action ≡ "terminate") × (command ≡ "docker" ∷ "kill" ∷ q.target_id ∷ []))

docker_command-Commands :
    (q : ActionRequest) (command : List String)
    → (docker_command q ≡ ok command) ↔ Commands q command
unfolding docker_command
docker_command-Commands q command = ground (
  arith,
  eq_iff q.action "graceful_stop",
  eq_iff q.action "restart",
  eq_iff q.action "terminate",
  eq_apart q.action "graceful_stop" "restart" refl,
  eq_apart q.action "graceful_stop" "terminate" refl,
  eq_apart q.action "restart" "terminate" refl,
)

-- The Docker adapter gives a command to the runner exactly when the request is authorized, and then
-- it is `docker kill --signal TERM` for `graceful_stop`, `docker restart --timeout` with the timeout
-- of the request for `restart`, and `docker kill` for `terminate`, each with the target of the
-- request as its last word.
pub docker_execute-command :
    (runner : List String → ℤ → Run) (q : ActionRequest) (now : ℤ) (command : List String)
    → ((docker_execute runner q now).1 ≡ some command) ↔ (IsAuthorized q now × Commands q command)
unfolding docker_execute
docker_execute-command runner q now command =
    let valid = validate_request-IsAuthorized q now in
    let ran =
      run_command-ok runner q (validate_request q now >> docker_command q) {command = command} in
    let both = then-ok (validate_request q now) (docker_command q) {a = command} in
    let said = docker_command-Commands q command in
    (
      λ h. let (v, c) = both.0 (ran.0 h) in (valid.0 v, said.0 c),
      λ h. ran.1 (both.1 (valid.1 h.0, said.1 h.1)),
    )

insert-ne-nil : (t : String) (ts : List String) → insert t ts ≢ []
unfolding insert
insert-ne-nil t [] h = cc
insert-ne-nil t (u ∷ us) h = ground arith

sorted_set-nil : (ts : List String) → sorted_set ts ≡ [] → ts ≡ []
unfolding sorted_set
sorted_set-nil [] h = refl
sorted_set-nil (t ∷ ts) h = absurd (insert-ne-nil t (sorted_set ts) h)

unknown-nil : (vs : List String) → unknown vs ≡ [] → All (λ v. one_of v supported_actions ≡ true) vs
unfolding unknown
unknown-nil [] h = tt
unknown-nil (v ∷ vs) h = ground (arith, unknown-nil vs)

-- An allowlist that is accepted is the given one, and every action on it is supported.
pub allowed_actions-supported :
    (values allowed : List String)
    → allowed_actions values ≡ ok allowed
    → (allowed ≡ values) × All (λ v. one_of v supported_actions ≡ true) values
unfolding allowed_actions
allowed_actions-supported values allowed h = go (sorted_set (unknown values)) refl h
  where
    go :
        (us : List String)
        → sorted_set (unknown values) ≡ us
        → check_unknown values us ≡ ok allowed
        → (allowed ≡ values) × All (λ v. one_of v supported_actions ≡ true) values
    go [] e k = (cc, unknown-nil values (sorted_set-nil (unknown values) e))
    go (u ∷ us) e k = cc
