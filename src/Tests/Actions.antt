-- ===== src/Tests/Actions.antt =====
-- Tests for src/guardian_actions.py.
use server_resource_guardian.Prelude.{
  ◌≡◌, ◌↔◌, refl, Bool, true, false, none, some, String, List, [], ◌∷◌, All, one_of, arith,
}
use server_resource_guardian.Prelude.Int.{ℤ, pos}
use server_resource_guardian.Prelude.Text.{decimal, sorted_set, comma_separated}
use server_resource_guardian.Prelude
use server_resource_guardian.Result.{ok, err}
use server_resource_guardian.Actions.{
  Authorization, ActionRequest, is_container_id, validate_request, docker_command, docker_execute,
  allowed_actions, supported_actions, Run, completed,
}
use server_resource_guardian.Actions.Validation.{
  IsAuthorized, Commands, validate_request-IsAuthorized, docker_execute-command,
  allowed_actions-supported,
}

abbrev approval : Authorization
approval = record {
  approval_id = "approval-1";
  environment = "local-disposable";
  target_id = "0123456789ab";
  action = "graceful_stop";
  expires_at = pos 100;
}

abbrev request : ActionRequest
request = record {
  event_id = "event-1";
  target_id = "0123456789ab";
  action = "graceful_stop";
  protected = false;
  allowed_actions = "graceful_stop" ∷ [];
  authorization = some approval;
  timeout_seconds = pos 30;
}

container_ids :
    (is_container_id "0123456789ab" ≡ true)
    × (is_container_id "0123456789a" ≡ false)
    × (is_container_id "0123456789aB" ≡ false)
unfolding is_container_id
container_ids = (refl, refl, refl)

request_is_valid : validate_request request (pos 99) ≡ ok tt
unfolding validate_request is_container_id
request_is_valid = refl

request_expires : validate_request request (pos 100) ≡ err "authorization_expired"
unfolding validate_request is_container_id
request_expires = refl

restart_command :
    docker_command (record request { action = "restart" })
    ≡ ok ("docker" ∷ "restart" ∷ "--timeout" ∷ "30" ∷ "0123456789ab" ∷ [])
unfolding docker_command decimal Prelude.join
restart_command = refl

unknown_action :
    allowed_actions ("stop" ∷ "restart" ∷ "kill" ∷ "stop" ∷ [])
    ≡ err "unknown_allowlist_action:kill,stop"
unfolding allowed_actions sorted_set comma_separated Prelude.join
unknown_action = refl

validate_request-IsAuthorized_example :
    (validate_request request (pos 99) ≡ ok tt) ↔ IsAuthorized request (pos 99)
validate_request-IsAuthorized_example = validate_request-IsAuthorized request (pos 99)

abbrev runner : List String → ℤ → Run
runner command timeout = completed (pos 0) (some " done\n") none

abbrev term : List String
term = "docker" ∷ "kill" ∷ "--signal" ∷ "TERM" ∷ "0123456789ab" ∷ []

docker_execute-command_example :
    ((docker_execute runner request (pos 99)).1 ≡ some term)
    ↔ (IsAuthorized request (pos 99) × Commands request term)
docker_execute-command_example = docker_execute-command runner request (pos 99) term

abbrev allowlist : List String
allowlist = "restart" ∷ "graceful_stop" ∷ []

allowed_actions-supported_example :
    (allowlist ≡ allowlist) × All (λ v. one_of v supported_actions ≡ true) allowlist
unfolding allowed_actions sorted_set
allowed_actions-supported_example = allowed_actions-supported allowlist allowlist refl
