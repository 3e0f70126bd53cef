-- ===== src/Controller/Reading.antt =====
-- The first stretch of `enforce`, src/guardian_controller.py: what the event must say.
pub mod Facts
use server_resource_guardian.Prelude.{
  String, Bool, true, false, not, Option, none, some, List, [], ◌∷◌, ◌==◌, if◌then◌else◌, one_of,
}
use server_resource_guardian.Result.{Result, ok, err, ◌>>=◌}
use server_resource_guardian.Value.{Value, text, array, object, cons, nil, Fields, end, lookup}
use server_resource_guardian.Actions.{allowed_actions}
use server_resource_guardian.Controller.{
  Environment, Call, World, Gate, stopped, raised, passed, event_id_of, host_id_of, denied,
}

-- What the event asks for.
pub record Subject : Type 0 where
  pub event_id : String
  pub host_id : String
  pub target_id : String
  pub action : String
  pub allowed_actions : List String
  pub decision : Fields

-- `value == "…"`
unfoldable pub equals : String → Option Value → Bool
equals expected (some (text s)) = s == expected
equals expected _ = false

fields_of : Option Value → Fields
fields_of (some (object fields)) = fields
fields_of _ = end

-- `event.get("decision", {})`, and `{}` where that is not a mapping.
unfoldable pub decision_of : Fields → Fields
unfolding fields_of
decision_of event = fields_of (lookup "decision" event)

abbrev pub actionable : List String
actionable = "warning" ∷ "critical" ∷ []

-- `value in {"warning", "critical"}`: a list or a mapping cannot be looked up in a set.
unfoldable pub is_actionable : Option Value → Result Bool
is_actionable (some (text s)) = ok (one_of s actionable)
is_actionable (some (array _)) = err "TypeError"
is_actionable (some (object _)) = err "TypeError"
is_actionable _ = ok false

stable_id : Option Value → Result String
stable_id (some (text s)) = if s == "" then err "no_stable_object_identity" else ok s
stable_id _ = err "no_stable_object_identity"

candidate_id : Value → Result String
unfolding stable_id equals
candidate_id (object candidate) =
    if equals "container" (lookup "kind" candidate)
    then stable_id (lookup "id" candidate)
    else err "unsupported_object_kind"
candidate_id _ = err "unsupported_object_kind"

-- `object_candidates` must be a list of one.
unfoldable pub target_of : Option Value → Result String
unfolding candidate_id
target_of (some (array (cons candidate nil))) = candidate_id candidate
target_of _ = err "ambiguous_object_identity"

unfoldable pub action_of : Option Value → Result String
action_of (some (text s)) =
    if one_of s ("none" ∷ "escalate" ∷ []) then err "no_action_plan" else ok s
action_of _ = err "no_action_plan"

subject_of : Environment → Call → Fields → Result Subject
unfolding decision_of
subject_of env call event = do
  target_id ← target_of (lookup "object_candidates" event)
  action ← action_of (lookup "action" (decision_of event))
  normalized ← allowed_actions call.allowed
  ok (record {
    event_id = event_id_of env.repr call.event;
    host_id = host_id_of env.repr call.event;
    target_id = target_id;
    action = action;
    allowed_actions = normalized;
    decision = decision_of event;
  })

pub or_denied : {A : Type 0} → Environment → Call → World → Result A → Gate A
or_denied env call w (ok a) = passed a
or_denied env call w (err reason) = stopped (denied env call w reason "denied")

read_actionable : Environment → Call → World → Fields → Result Bool → Gate Subject
unfolding or_denied
read_actionable env call w event (err exception) = raised exception
read_actionable env call w event (ok b) =
    if not b
    then stopped (denied env call w "risk_not_actionable" "denied")
    else or_denied env call w (subject_of env call event)

read_fields : Environment → Call → World → Value → Gate Subject
unfolding read_actionable
read_fields env call w (object event) =
    if not (equals "enforce" (lookup "mode" (decision_of event)))
    then stopped (denied env call w "enforce_mode_required" "denied")
    else read_actionable env call w event (is_actionable (lookup "state" event))
read_fields env call w _ = stopped (denied env call w "enforce_mode_required" "denied")

unfoldable pub read_event : Environment → Call → World → Gate Subject × World
unfolding read_fields subject_of
read_event env call w = (read_fields env call w call.event, w)
