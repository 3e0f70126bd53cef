-- ===== src/Actions.antt =====
-- The enforcement boundary: src/guardian_actions.py. Requests, their validation, and the adapters.
-- The process runner of the Docker adapter is an argument.
pub mod Validation
use server_resource_guardian.Prelude.{
  ℕ, String, Bool, true, false, not, ◌&&◌, ◌||◌, Option, none, some, List, [], ◌∷◌, ◌++◌, ◌==◌,
  if◌then◌else◌, one_of, leb, join,
}
use server_resource_guardian.Prelude.Int
use server_resource_guardian.Prelude.Int.{ℤ, pos, ◌+ℤ◌}
use server_resource_guardian.Prelude.Text.{size, every, decimal, strip, sorted_set, comma_separated}
use server_resource_guardian.Result.{Result, ok, err, ◌>>=◌, ◌>>◌, require}

abbrev pub supported_actions : List String
supported_actions = "graceful_stop" ∷ "restart" ∷ "terminate" ∷ []

-- One character of `[0-9a-f]`.
is_hex : ℕ → Bool
is_hex c = (leb b'0' c && leb c b'9') || (leb b'a' c && leb c b'f')

-- `CONTAINER_ID.fullmatch(text)`, for the pattern `^[0-9a-f]{12,64}$`.
unfoldable pub is_container_id : String → Bool
unfolding is_hex size every
is_container_id text = every is_hex text && leb 12 (size text) && leb (size text) 64

pub record Authorization : Type 0 where
  pub approval_id : String
  pub environment : String
  pub target_id : String
  pub action : String
  pub expires_at : ℤ

pub record ActionRequest : Type 0 where
  pub event_id : String
  pub target_id : String
  pub action : String
  pub protected : Bool
  pub allowed_actions : List String
  pub authorization : Option Authorization
  pub timeout_seconds : ℤ

pub record ActionResult : Type 0 where
  pub executed : Bool
  pub action : String
  pub target_id : String
  pub returncode : Option ℤ
  pub stdout : String
  pub stderr : String
  pub reason : String

-- The tests on the approval itself, at the time `now`.
validate_approval : ActionRequest → ℤ → Option Authorization → Result (Unit {0})
validate_approval request now none = err "explicit_authorization_required"
validate_approval request now (some approval) = do
  require (not (approval.approval_id == "")) "approval_id_missing"
  require (approval.environment == "local-disposable") "environment_not_local_disposable"
  require (approval.target_id == request.target_id) "authorization_target_mismatch"
  require (approval.action == request.action) "authorization_action_mismatch"
  require (not (Int.leb approval.expires_at now)) "authorization_expired"
  require (Int.leb (pos 1) request.timeout_seconds && Int.leb request.timeout_seconds (pos 120))
      "invalid_timeout"

-- `ActionDenied` is the error.
unfoldable pub validate_request : ActionRequest → ℤ → Result (Unit {0})
unfolding validate_approval
validate_request request now = do
  require (one_of request.action supported_actions) "unsupported_action"
  require (is_container_id request.target_id) "unstable_or_invalid_container_id"
  require (not request.protected) "protected_object"
  require (one_of request.action request.allowed_actions) "action_not_allowlisted"
  validate_approval request now request.authorization

unfoldable pub docker_command : ActionRequest → Result (List String)
docker_command request =
    if request.action == "graceful_stop"
    then ok ("docker" ∷ "kill" ∷ "--signal" ∷ "TERM" ∷ request.target_id ∷ [])
    else if request.action == "restart"
    then ok (
        "docker"
        ∷ "restart"
        ∷ "--timeout"
        ∷ decimal request.timeout_seconds
        ∷ request.target_id
        ∷ [])
    else if request.action == "terminate"
    then ok ("docker" ∷ "kill" ∷ request.target_id ∷ [])
    else err "unsupported_action"

-- What an executor does with a request: a result, `ActionDenied`, or another exception.
pub data Execution : Type 0 where
  finished : ActionResult → Execution
  denied : String → Execution
  crashed : String → Execution

mock_result :
    List ActionRequest → ActionRequest → Result (Unit {0}) → Execution × List ActionRequest
mock_result requests request (err reason) = (denied reason, requests)
mock_result requests request (ok _) = (
  finished (record {
    executed = false;
    action = request.action;
    target_id = request.target_id;
    returncode = none;
    stdout = "";
    stderr = "";
    reason = "mock_only_not_executed";
  }),
  requests ++ request ∷ [],
)

-- `MockActionExecutor.execute`: the outcome, and the requests recorded so far.
unfoldable pub mock_execute :
    List ActionRequest → ActionRequest → ℤ → Execution × List ActionRequest
unfolding mock_result
mock_execute requests request now = mock_result requests request (validate_request request now)

-- How `subprocess.run` ends: with a return code and the two captured texts, by its timeout with the
-- captured text where that is a `str`, or by another exception.
pub data Run : Type 0 where
  completed : ℤ → Option String → Option String → Run
  timed_out : Option String → Run
  failed : String → Run

-- `(text or "").strip()`
abbrev stripped : Option String → String
stripped none = ""
stripped (some text) = strip text

run_result : ActionRequest → Run → Execution
run_result request (completed returncode stdout stderr) = finished (record {
  executed = true;
  action = request.action;
  target_id = request.target_id;
  returncode = some returncode;
  stdout = stripped stdout;
  stderr = stripped stderr;
  reason = "authorized_runtime_call";
})
run_result request (timed_out stdout) = finished (record {
  executed = true;
  action = request.action;
  target_id = request.target_id;
  returncode = none;
  stdout = stripped stdout;
  stderr = "executor_timeout";
  reason = "executor_timeout";
})
run_result request (failed exception) = crashed exception

run_command :
    (runner : List String → ℤ → Run)
    → ActionRequest
    → Result (List String)
    → Execution × Option (List String)
unfolding run_result
run_command runner request (err reason) = (denied reason, none)
run_command runner request (ok command) =
    (run_result request (runner command (request.timeout_seconds +ℤ pos 5)), some command)

-- `DockerActionAdapter.execute`: the outcome, and the command given to the runner, if any.
unfoldable pub docker_execute :
    (runner : List String → ℤ → Run) → ActionRequest → ℤ → Execution × Option (List String)
unfolding run_command
docker_execute runner request now =
    run_command runner request (do validate_request request now; docker_command request)

-- The names of an allowlist that are not supported.
unknown : List String → List String
unknown [] = []
unknown (v ∷ vs) = let rest = unknown vs in if one_of v supported_actions then rest else v ∷ rest

check_unknown : List String → List String → Result (List String)
check_unknown values [] = ok values
check_unknown values (u ∷ us) = err (join "unknown_allowlist_action:" (comma_separated (u ∷ us)))

-- A set is kept as the list of its members.
unfoldable pub allowed_actions : List String → Result (List String)
unfolding unknown check_unknown
allowed_actions values = check_unknown values (sorted_set (unknown values))
