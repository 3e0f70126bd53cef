-- ===== src/Shedding/Policy.antt =====
-- The policy of src/guardian_emergency_shedding.py: its checks, its mapping and its digest.
use server_resource_guardian.Prelude.{
  String, Bool, true, false, ◌&&◌, not, Option, none, some, List, [], ◌∷◌, ◌==◌, if◌then◌else◌,
  one_of, length, leb, join,
}
use server_resource_guardian.Prelude.Int
use server_resource_guardian.Prelude.Int.{ℤ, pos}
use server_resource_guardian.Result.{Result, ok, err, ◌>>=◌, require}
use server_resource_guardian.Value.{
  Value, boolean, number, text, array, object, Items, nil, cons, Fields, end, field, lookup,
}
use server_resource_guardian.Value.Json.{dumps}
use server_resource_guardian.Shedding.{Platform, supported_resources, EmergencySheddingPolicy}

-- `EmergencySheddingPolicy()`
abbrev pub default_policy : EmergencySheddingPolicy
default_policy = record {
  enabled = false;
  window_seconds = number (pos 15);
  required_samples = pos 2;
  min_host_contribution_percent = pos 20;
  resource_priority = supported_resources;
  action = "graceful_stop";
  protected_set = [];
  actionable_set = [];
}

-- `raw.get(key, default)`
abbrev or_value : Option Value → Value → Value
or_value none default = default
or_value (some value) default = value

abbrev bool_of : Value → String → Result Bool
bool_of (boolean b) error = ok b
bool_of _ error = err error

positive : Value → String → Result (Unit {0})
positive (number n) error = require (not (Int.leb n (pos 0))) error
positive _ error = err error

bounded : Value → ℤ → ℤ → String → Result ℤ
bounded (number n) low high error = if Int.leb low n && Int.leb n high then ok n else err error
bounded _ low high error = err error

texts_of : Items → Option (List String)
texts_of nil = some []
texts_of (cons (text s) rest) = elim (texts_of rest) [ none ↦ none | some ts ↦ some (s ∷ ts) ]
texts_of (cons _ rest) = none

-- The four resources, each once: as many as there are, and each of them present.
covers : List String → Bool
covers priority =
    leb (length priority) 4
    && leb 4 (length priority)
    && one_of "memory" priority
    && one_of "cpu" priority
    && one_of "io" priority
    && one_of "disk_capacity" priority

priority_of : Option (List String) → Result (List String)
unfolding covers
priority_of none = err "resource_priority_must_cover_all_resources"
priority_of (some priority) =
    if covers priority then ok priority else err "resource_priority_must_cover_all_resources"

listed : Value → String → Result Items
listed (array items) error = ok items
listed _ error = err error

entries_of : Items → String → Result (List Fields)
entries_of nil error = ok []
entries_of (cons (object fields) rest) error = entries_of rest error >>= λ es. ok (fields ∷ es)
entries_of (cons _ rest) error = err error

-- `entry_tuple`
entry_tuple : String → Fields → Result (List Fields)
unfolding listed entries_of
entry_tuple key raw = do
  items ← listed (or_value (lookup key raw) (array nil)) (join key "_must_be_list")
  entries_of items (join key "_entries_must_be_mappings")

abbrev action_of : Value → Result String
action_of (text s) = if s == "graceful_stop" then ok s else err "only_graceful_stop_is_supported"
action_of _ = err "only_graceful_stop_is_supported"

abbrev schema_ok : Option Value → Bool
schema_ok none = true
schema_ok (some (text s)) = s == "guardian.emergency_shedding.v1"
schema_ok (some _) = false

supported_items : Items
supported_items =
    cons (text "memory") (cons (text "cpu") (cons (text "io") (cons (text "disk_capacity") nil)))

-- A block that is present and not empty: the checks of the mapping, then those of the policy.
read_policy : Fields → Result EmergencySheddingPolicy
unfolding positive bounded priority_of entry_tuple texts_of listed supported_items
read_policy raw = do
  _ ← require (schema_ok (lookup "schema" raw)) "schema_unsupported"
  enabled ← bool_of (or_value (lookup "enabled" raw) (boolean false)) "enabled_must_be_boolean"
  priority ←
      listed (or_value (lookup "resource_priority" raw) (array supported_items))
        "resource_priority_must_be_list"
  protected ← entry_tuple "protected_set" raw
  actionable ← entry_tuple "actionable_set" raw
  _ ←
      positive (or_value (lookup "window_seconds" raw) (number (pos 15)))
        "window_seconds_must_be_positive"
  samples ←
      bounded (or_value (lookup "required_samples" raw) (number (pos 2))) (pos 1) (pos 60)
        "required_samples_out_of_bounds"
  contribution ←
      bounded (or_value (lookup "min_host_contribution_percent" raw) (number (pos 20))) (pos 0)
        (pos 100) "min_host_contribution_out_of_bounds"
  resources ← priority_of (texts_of priority)
  action ← action_of (or_value (lookup "action" raw) (text "graceful_stop"))
  ok (record {
    enabled = enabled;
    window_seconds = or_value (lookup "window_seconds" raw) (number (pos 15));
    required_samples = samples;
    min_host_contribution_percent = contribution;
    resource_priority = resources;
    action = action;
    protected_set = protected;
    actionable_set = actionable;
  })

-- `policy_from_mapping`
unfoldable pub policy_from_mapping : Value → Result EmergencySheddingPolicy
unfolding read_policy
policy_from_mapping (object (field key value rest)) = read_policy (field key value rest)
policy_from_mapping _ = ok default_policy

texts : List String → Items
texts [] = nil
texts (t ∷ ts) = cons (text t) (texts ts)

objects : List Fields → Items
objects [] = nil
objects (f ∷ fs) = cons (object f) (objects fs)

-- `emergency_policy_digest`
unfoldable pub emergency_policy_digest : Platform → EmergencySheddingPolicy → String
unfolding texts objects
emergency_policy_digest platform policy = platform.sha256 (
    dumps (
      object (
        field "schema" (text "guardian.emergency_shedding.v1") (
          field "enabled" (boolean policy.enabled) (
            field "window_seconds" policy.window_seconds (
              field "required_samples" (number policy.required_samples) (
                field "min_host_contribution_percent" (number policy.min_host_contribution_percent)
                  (field "resource_priority" (array (texts policy.resource_priority)) (
                    field "action" (text policy.action) (
                      field "protected_set" (array (objects policy.protected_set)) (
                        field "actionable_set" (array (objects policy.actionable_set))
                          end)))))))))))
