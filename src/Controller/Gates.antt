-- ===== src/Controller/Gates.antt =====
-- The second stretch of `enforce`, src/guardian_controller.py: failure breaker, cooldown, and the
-- request that the adapter will be given.
pub mod Facts
pub mod Store
use server_resource_guardian.Prelude.{
  String, Bool, true, false, not, Option, none, some, [], if◌then◌else◌,
}
use server_resource_guardian.Prelude.Int.{ℤ, pos}
use server_resource_guardian.Result.{Result, ok, err, ◌>>=◌}
use server_resource_guardian.Value.{Value, boolean, number, text, Fields, lookup, truth}
use server_resource_guardian.Actions.{ActionRequest, validate_request}
use server_resource_guardian.Recovery.Ledger
use server_resource_guardian.Recovery.Ledger.{CooldownLedger, tripped}
use server_resource_guardian.State.{Tables}
use server_resource_guardian.State.Cooldowns.{allow_action, failure_breaker}
use server_resource_guardian.Controller.{
  Environment, Call, World, Gate, stopped, raised, passed, denied, no_action, next,
}
use server_resource_guardian.Controller.Reading.{Subject}

-- The breaker, and the answer of the cooldown with its reason.
abbrev Answers : Type 0
Answers = Bool × (Bool × String)

read_memory : World → Bool → (Bool × String) × CooldownLedger → Result Answers × World
read_memory w breaker (answer, ledger) = (ok (breaker, answer), record w { ledger = ledger })

read_cooldown : World → Bool → Result (Bool × String) × Tables → Result Answers × World
read_cooldown w breaker (err e, t) = (err e, record w { tables = t })
read_cooldown w breaker (ok answer, t) = (ok (breaker, answer), record w { tables = t })

read_durable : Environment → Call → Subject → World → Result Bool → Result Answers × World
unfolding read_cooldown
read_durable env call s w (err e) = (err e, w)
read_durable env call s w (ok breaker) = read_cooldown w breaker (
    allow_action env.faults.at_cooldown s.host_id s.target_id s.action call.now
      call.cooldown_seconds call.max_actions call.window_seconds w.tables)

pub read_answers : Environment → Call → Subject → World → Result Answers × World
unfolding read_durable read_memory
read_answers env call s w =
    if env.durable
    then read_durable env call s w (
        failure_breaker env.faults.at_breaker s.host_id s.target_id s.action
          call.max_consecutive_failures w.tables)
    else read_memory w (tripped w.ledger call.max_consecutive_failures)
        (Ledger.allow w.ledger call.now call.cooldown_seconds call.max_actions call.window_seconds)

pub check_answers : Environment → Call → Result Answers × World → Gate Bool × World
check_answers env call (err e, w) =
    (stopped (denied env call w "state_store_read_failed" "escalated"), w)
check_answers env call (ok (breaker, (can_run, cooldown_state)), w) =
    if breaker
    then (stopped (denied env call w "failure_breaker_tripped" "escalated"), w)
    else if not can_run
    then (stopped (no_action env call "escalated" cooldown_state cooldown_state breaker none), w)
    else (passed breaker, w)

-- The value is whether the breaker has tripped.
unfoldable pub pass_gates : Environment → Call → Subject → World → Gate Bool × World
unfolding read_answers check_answers
pass_gates env call s w = check_answers env call (read_answers env call s w)

-- `int(value)`, with the exceptions `TypeError` and `ValueError`.
int_or : Option ℤ → Result ℤ
int_or none = err "ValueError"
int_or (some n) = ok n

int_of : (int_text : String → Option ℤ) → Option Value → Result ℤ
unfolding int_or
int_of int_text none = ok (pos 30)
int_of int_text (some (number n)) = ok n
int_of int_text (some (boolean true)) = ok (pos 1)
int_of int_text (some (boolean false)) = ok (pos 0)
int_of int_text (some (text s)) = int_or (int_text s)
int_of int_text (some _) = err "TypeError"

-- `bool(decision.get("protected", True))`
pub is_protected : Option Value → Bool
is_protected none = true
is_protected (some value) = truth value

abbrev pub request_of : Call → Subject → ℤ → ActionRequest
request_of call s timeout_seconds = record {
  event_id = s.event_id;
  target_id = s.target_id;
  action = s.action;
  protected = is_protected (lookup "protected" s.decision);
  allowed_actions = s.allowed_actions;
  authorization = call.authorization;
  timeout_seconds = timeout_seconds;
}

check_valid : Environment → Call → Bool → ActionRequest → Result (Unit {0}) → Gate ActionRequest
check_valid env call breaker q (ok _) = passed q
check_valid env call breaker q (err reason) =
    stopped (no_action env call "denied" reason "adapter_rejected" breaker none)

pub check_request : Environment → Call → Subject → Bool → Result ℤ → Gate ActionRequest
unfolding check_valid
check_request env call s breaker (err exception) = raised exception
check_request env call s breaker (ok timeout_seconds) =
    let q = request_of call s timeout_seconds in
    check_valid env call breaker q (validate_request q call.now)

unfoldable pub make_request :
    Environment → Call → Subject → Bool → World → Gate ActionRequest × World
unfolding check_request is_protected int_of
make_request env call s breaker w = (
  check_request env call s breaker (int_of env.int_text (lookup "timeout_seconds" s.decision)),
  w,
)
