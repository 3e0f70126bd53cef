-- ===== src/Shedding/Reading.antt =====
-- What src/guardian_emergency_shedding.py reads of the risks of the host.
use server_resource_guardian.Prelude.{
  String, Bool, true, false, ◌&&◌, ◌||◌, not, Option, none, some, [], ◌∷◌, ◌==◌, if◌then◌else◌,
  one_of, is_some,
}
use server_resource_guardian.Prelude.Int
use server_resource_guardian.Prelude.Int.{ℤ, pos}
use server_resource_guardian.Prelude.Text.{strip}
use server_resource_guardian.Value.{
  Value, boolean, number, text, array, object, nil, Fields, end, field, lookup, truth,
}
use server_resource_guardian.Controller.{str}
use server_resource_guardian.Shedding.{Platform, EmergencySheddingPolicy, or_else, fields_in}

-- `value == literal`, of a value that may be missing.
abbrev pub says : String → Option Value → Bool
says literal (some (text s)) = s == literal
says literal _ = false

abbrev pub is_true : Option Value → Bool
is_true (some (boolean true)) = true
is_true _ = false

abbrev pub number_in : Option Value → Option ℤ
number_in (some (number n)) = some n
number_in _ = none

-- `str(value or default)`
abbrev pub text_or : Platform → Option Value → String → String
text_or platform none default = default
text_or platform (some value) default = if truth value then str platform.repr value else default

-- `_RESOURCE_ALIASES`
alias_of : String → Option String
alias_of s =
    if one_of s ("capacity" ∷ "disk_capacity" ∷ "disk" ∷ [])
    then some "disk_capacity"
    else if one_of s ("memory" ∷ "cpu" ∷ "io" ∷ [])
    then some s
    else none

-- `_resource_kind`
unfoldable pub resource_kind : Platform → Value → Option String
unfolding alias_of
resource_kind platform (text s) = alias_of (platform.lower (strip s))
resource_kind platform _ = none

nested_risk : Fields → Option Value → Fields
nested_risk fields (some (object nested)) = nested
nested_risk fields _ = fields

-- `_risk_mapping`
unfoldable pub risk_mapping : Value → Fields
unfolding nested_risk
risk_mapping (object fields) = nested_risk fields (lookup "risk" fields)
risk_mapping _ = end

is_kind : Option String → String → Bool
is_kind none kind = false
is_kind (some k) kind = k == kind

-- `normalized_risks.get(kind, {})`: a later entry of the same kind wins.
risk_in : Platform → String → Fields → Option Fields
unfolding is_kind
risk_in platform kind end = none
risk_in platform kind (field key value rest) =
    let here =
      if is_kind (resource_kind platform (text key)) kind
      then some (risk_mapping value)
      else none in
    or_else (risk_in platform kind rest) here

unfoldable pub risk_of : Platform → Value → String → Fields
unfolding risk_in
risk_of platform host_risks kind = elim (risk_in platform kind (fields_in (some host_risks))) [
  | none ↦ end
  | some risk ↦ risk
]

-- `_risk_state`
unfoldable pub risk_state : Platform → Fields → String
risk_state platform risk = platform.upper (text_or platform (lookup "state" risk) "NORMAL")

-- `_is_confirmed`
unfoldable pub is_confirmed : Platform → Fields → Bool
unfolding risk_state
is_confirmed platform risk =
    risk_state platform risk == "CRITICAL_CONFIRMED"
    || (risk_state platform risk == "CRITICAL" && is_true (lookup "danger_confirmed" risk))

-- The first of the three keys that is present.
explicit_complete : Fields → Bool
explicit_complete risk =
    elim (or_else (lookup "sample_complete" risk)
      (or_else (lookup "samples_complete" risk) (lookup "sample_window_complete" risk))) [
        | none ↦ true
        | some value ↦ is_true (some value)
      ]

abbrev required_of : Option Value → ℤ → Option ℤ
required_of none required = some required
required_of (some value) required = number_in (some value)

abbrev is_bounded : Option ℤ → Option ℤ → Bool
is_bounded (some count) (some required) =
    Int.leb (pos 1) required && Int.leb required (pos 60) && Int.leb required count
is_bounded _ _ = false

abbrev no_flags : Option Value → Bool
no_flags none = true
no_flags (some (array nil)) = true
no_flags (some _) = false

-- `_sample_complete`
unfoldable pub sample_complete : EmergencySheddingPolicy → Fields → Bool
unfolding explicit_complete
sample_complete policy risk =
    explicit_complete risk
    && is_bounded (number_in (lookup "sample_count" risk))
        (required_of (lookup "required_samples" risk) policy.required_samples)
    && (not (is_some (lookup "quality_status" risk)) || says "ok" (lookup "quality_status" risk))
    && no_flags (lookup "quality_flags" risk)
