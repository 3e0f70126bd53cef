-- ===== src/Joint.antt =====
-- Joint risk arbitration: src/guardian_multirisk.py. The evaluations of the resources are combined
-- into one decision; this file reads the evaluations, Joint/Decision decides.
pub mod Decision
pub mod Agreement
use server_resource_guardian.Prelude.{
  ℕ, String, Bool, true, false, not, ◌||◌, Option, none, some, List, [], ◌∷◌, ◌++◌, ◌==◌,
  if◌then◌else◌, one_of, is_some,
}
use server_resource_guardian.Prelude.Text.{sorted_set}
use server_resource_guardian.Prelude.Tables.{find}
use server_resource_guardian.Value.{
  Value, text, array, object, Items, nil, cons, Fields, end, lookup, truth,
}
use server_resource_guardian.Controller.{str}
use server_resource_guardian.Controller.Reading.{equals}

abbrev pub active_states : List String
active_states = "warning" ∷ "critical" ∷ "critical_confirmed" ∷ []

abbrev pub degraded_states : List String
degraded_states = "degraded_observability" ∷ []

-- `SEVERITY_ORDER.get(state, 0)`
unfoldable pub severity : String → ℕ
severity state =
    if state == "recovered"
    then 1
    else if state == "warning"
    then 2
    else if state == "critical"
    then 3
    else if state == "critical_confirmed"
    then 4
    else 0

-- `_mapping(mapping.get(key))`
mapping_value : Option Value → Fields
mapping_value (some (object fields)) = fields
mapping_value _ = end

unfoldable pub mapping_at : String → Fields → Fields
unfolding mapping_value
mapping_at key fields = mapping_value (lookup key fields)

-- `first or rest`, as a text.
or_text : (repr : Value → String) → Option Value → String → String
or_text repr none rest = rest
or_text repr (some value) rest = if truth value then str repr value else rest

-- `_risk_state`
unfoldable pub risk_state : (repr : Value → String) → Fields → String
unfolding or_text
risk_state repr evaluation =
    or_text repr (lookup "state" (mapping_at "risk" evaluation))
      (or_text repr (lookup "state" evaluation) "normal")

identity : Option Value → Option String → Option String
identity (some (text s)) rest = if s == "" then rest else some s
identity _ rest = rest

-- `_target_id`
unfoldable pub target_id : Fields → Option String
unfolding identity
target_id attribution =
    let target = mapping_at "target" attribution in
    if not (equals "TARGET_CONFIRMED" (lookup "state" attribution))
    then none
    else identity (lookup "id" target)
        (identity (lookup "stable_id" target) (identity (lookup "identity" target) none))

flag_texts : (repr : Value → String) → Items → List String
flag_texts repr nil = []
flag_texts repr (cons flag flags) =
    let rest = flag_texts repr flags in if truth flag then str repr flag ∷ rest else rest

flags_in : (repr : Value → String) → Option Value → List String
unfolding flag_texts
flags_in repr (some (array flags)) = flag_texts repr flags
flags_in repr _ = []

-- `_quality_flags`
unfoldable pub quality_flags : (repr : Value → String) → Fields → List String
unfolding flags_in
quality_flags repr evaluation = sorted_set (
    flags_in repr (lookup "quality_flags" (mapping_at "risk" evaluation))
    ++ flags_in repr (lookup "quality_flags" (mapping_at "attribution" evaluation)))

-- What the first loop gathers.
pub record Scan : Type 0 where
  pub active : List (String × Fields)
  pub states : List String
  pub degraded : Bool
  pub recovered : Bool
  pub flags : List String

is_degraded : String → Fields → Bool
is_degraded state evaluation =
    one_of state degraded_states
    || equals "degraded" (lookup "quality_status" (mapping_at "risk" evaluation))

scan_one : (repr : Value → String) → String → Fields → String → Scan → Scan
unfolding is_degraded
scan_one repr kind evaluation state s =
    let flags = s.flags ++ quality_flags repr evaluation in
    if one_of state active_states
    then record s {
      active = s.active ++ (kind, evaluation) ∷ [];
      states = s.states ++ state ∷ [];
      flags = flags;
    }
    else if is_degraded state evaluation
    then record s { degraded = true; flags = flags }
    else if state == "recovered"
    then record s { recovered = true; flags = flags }
    else record s { flags = flags }

scan_from : (repr : Value → String) → List (String × Fields) → Scan → Scan
unfolding scan_one
scan_from repr [] s = s
scan_from repr ((kind, evaluation) ∷ rest) s =
    scan_from repr rest (scan_one repr kind evaluation (risk_state repr evaluation) s)

unfoldable pub scan : (repr : Value → String) → List (String × Fields) → Scan
unfolding scan_from
scan repr evaluations =
    scan_from repr evaluations
      (record { active = []; states = []; degraded = false; recovered = false; flags = [] })

-- What the second loop gathers: the resources of each confirmed target, the resources without one,
-- and the targets.
pub record Targets : Type 0 where
  pub confirmed : List (String × List String)
  pub unconfirmed : List String
  pub by_resource : List (String × Fields)
  pub attribution_states : List (String × String)

abbrev pub has_key : String → String × List String → Bool
has_key key entry = entry.0 == key

-- `confirmed.setdefault(target, []).append(kind)`
unfoldable pub add_kind :
    String → String → List (String × List String) → List (String × List String)
add_kind target kind [] = (target, kind ∷ []) ∷ []
add_kind target kind ((key, kinds) ∷ rest) =
    let others = add_kind target kind rest in
    if key == target then (key, kinds ++ kind ∷ []) ∷ rest else (key, kinds) ∷ others

add_target : String → Fields → Option String → Targets → Targets
add_target kind attribution none ts = record ts { unconfirmed = ts.unconfirmed ++ kind ∷ [] }
add_target kind attribution (some target) ts = record ts {
  confirmed = add_kind target kind ts.confirmed;
  by_resource = ts.by_resource ++ (kind, mapping_at "target" attribution) ∷ [];
}

pub attribution_state : (repr : Value → String) → Fields → String
unfolding or_text
attribution_state repr attribution = or_text repr (lookup "state" attribution) "UNKNOWN"

pub targets_from : (repr : Value → String) → List (String × Fields) → Targets → Targets
unfolding add_target
targets_from repr [] ts = ts
targets_from repr ((kind, evaluation) ∷ rest) ts =
    let attribution = mapping_at "attribution" evaluation in
    targets_from repr rest (
      add_target kind attribution (target_id attribution) (record ts {
        attribution_states =
            ts.attribution_states ++ (kind, attribution_state repr attribution) ∷ [];
      }))

abbrev pub no_targets : Targets
no_targets = record { confirmed = []; unconfirmed = []; by_resource = []; attribution_states = [] }

unfoldable pub targets : (repr : Value → String) → List (String × Fields) → Targets
unfolding targets_from attribution_state
targets repr active = targets_from repr active no_targets
