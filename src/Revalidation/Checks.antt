-- ===== src/Revalidation/Checks.antt =====
-- `revalidate_observer_event` of src/guardian_revalidation.py: what it reads of the fresh event, its
-- guards in their order, and its result.
use server_resource_guardian.Prelude.{
  String, Bool, true, false, ◌&&◌, ◌||◌, not, Option, none, some, List, [], ◌∷◌, ◌==◌,
  if◌then◌else◌, one_of, is_some,
}
use server_resource_guardian.Prelude.Int
use server_resource_guardian.Prelude.Int.{ℤ, pos}
use server_resource_guardian.Prelude.Tables.{select}
use server_resource_guardian.Prelude.Tables.Order.{first}
use server_resource_guardian.Value.{
  Value, null, boolean, number, array, object, Items, nil, cons, Fields, end, lookup,
}
use server_resource_guardian.Shedding.{Platform, fields_in, named, or_else}
use server_resource_guardian.Shedding.Policy.{emergency_policy_digest}
use server_resource_guardian.Shedding.Reading.{says, is_true, number_in, text_or}
use server_resource_guardian.Shedding.Identity.{positive_in, same_text}
use server_resource_guardian.Revalidation.{
  FreshRevalidation, Observed, failure, settle, is_mapping, equals_text, int_in, equals_int,
  is_digest, is_empty_list, underscored, starts_with_slash, labels_in, same_labels,
}

abbrev pub earlier : Option ℤ → Option ℤ → Bool
earlier (some m) (some n) = Int.ltb m n
earlier _ _ = false

-- `expected_config_digest or intent_config_digest`
abbrev pub or_intent : Option String → Option String → Option String
or_intent none own = own
or_intent (some s) own = if s == "" then own else some s

abbrev pub instant : Value → ℤ → Option ℤ
instant null clock = some clock
instant (number n) clock = some n
instant _ clock = none

abbrev pub positive_instant : Option ℤ → Option ℤ
positive_instant none = none
positive_instant (some n) = if Int.leb n (pos 0) then none else some n

abbrev pub entry_at : Option String → Fields → Option Value
entry_at none fields = none
entry_at (some key) fields = lookup key fields

mappings : Items → List Fields
mappings nil = []
mappings (cons (object fields) rest) = fields ∷ mappings rest
mappings (cons _ rest) = mappings rest

abbrev is_filled : Option Value → Bool
is_filled (some (array (cons _ _))) = true
is_filled _ = false

listed : Option Value → List Fields
unfolding mappings
listed (some (array items)) = mappings items
listed _ = []

abbrev pub is_single : {A : Type 0} → List A → Bool
is_single (_ ∷ []) = true
is_single _ = false

abbrev pub or_end : Option Fields → Fields
or_end none = end
or_end (some fields) = fields

abbrev mapping_or : Option Value → Option Value → Option Value
mapping_or (some (object fields)) other = some (object fields)
mapping_or _ other = other

abbrev is_object : Option Value → Bool
is_object (some (object _)) = true
is_object _ = false

module _ (platform : Platform) (o : Observed) where
  abbrev pub fresh : Fields
  fresh = fields_in (some o.fresh_event)

  abbrev pub signals : Fields
  signals = fields_in (lookup "signals" fresh)

  abbrev pub epoch : Option ℤ
  epoch = instant o.now_epoch_s o.clock

  abbrev pub monotonic : Option ℤ
  monotonic = positive_instant (instant o.now_monotonic_ns o.monotonic_clock)

  abbrev pub expires_at : Option ℤ
  expires_at = number_in (some o.intent.expires_at)

  abbrev pub original_monotonic : Option ℤ
  original_monotonic = positive_in (some o.intent.observed_monotonic_ns)

  -- The instant of the event where it is a positive number, or else that of its signals.
  unfoldable pub raw_monotonic : Option Value
  raw_monotonic =
      if is_some (positive_in (lookup "observed_monotonic_ns" fresh))
      then lookup "observed_monotonic_ns" fresh
      else lookup "observed_monotonic_ns" signals

  abbrev pub fresh_monotonic : Option ℤ
  fresh_monotonic = number_in raw_monotonic

  abbrev pub fresh_event_id : Option String
  fresh_event_id = named (lookup "event_id" fresh)

  unfoldable pub fresh_sample_id : Option String
  fresh_sample_id = or_else (named (lookup "sample_id" fresh)) (named (lookup "sample_id" signals))

  abbrev pub evidence : Fields
  evidence = fields_in (lookup "evidence" fresh)

  abbrev pub is_false : Option Value → Bool
  is_false (some (boolean false)) = true
  is_false _ = false

  abbrev pub fresh_config_digest : Option String
  fresh_config_digest = named (lookup "config_digest" evidence)

  abbrev pub fresh_policy_digest : Option String
  fresh_policy_digest = named (lookup "policy_digest" evidence)

  -- The risk of the resource of the intent is confirmed, on complete data of good quality.
  unfoldable pub is_risk_confirmed : Bool
  is_risk_confirmed =
      let evaluations = fields_in (lookup "resource_evaluations" fresh) in
      let risk =
        fields_in (lookup "risk" (fields_in (entry_at o.intent.resource_kind evaluations))) in
      underscored (platform.upper (text_or platform (lookup "state" risk) ""))
        == "CRITICAL_CONFIRMED"
      && is_true (lookup "danger_confirmed" risk)
      && is_true (lookup "sample_complete" risk)
      && says "ok" (lookup "quality_status" risk)
      && is_empty_list (lookup "quality_flags" risk)

  unfoldable pub fresh_action : Option Value
  fresh_action =
      lookup "action"
        (fields_in (lookup "decision" (fields_in (lookup "emergency_shedding" fresh))))

  -- The registry block of the signals where it is a mapping, or else that of the event.
  unfoldable pub registry_block : Option Value
  registry_block = mapping_or (lookup "object_registry" signals) (lookup "object_registry" fresh)

  abbrev pub raw_objects : Option Value
  raw_objects = lookup "objects" (fields_in registry_block)

  unfoldable pub registry : List Fields
  unfolding listed
  registry = listed raw_objects

  unfoldable pub matches : List Fields
  matches = select (λ item. equals_text (lookup "id" item) o.intent.target_id) registry

  unfoldable pub identity : Fields
  identity = or_end (first matches)

  -- The object is the target of the intent, mapped to its cgroup without errors.
  unfoldable pub is_same_identity : Fields → Bool
  is_same_identity item =
      equals_text (lookup "created_at" item) o.intent.target_created_at
      && equals_text (lookup "cgroup_path" item) o.intent.target_cgroup_path
      && equals_int (lookup "cgroup_inode" item) o.intent.target_cgroup_inode
      && same_labels (labels_in (lookup "labels" item)) o.intent.target_labels
      && says "high" (lookup "mapping_confidence" item)
      && is_empty_list (lookup "mapping_errors" item)

  unfoldable pub is_running : Fields → Bool
  is_running item =
      one_of (platform.lower (text_or platform (lookup "status" item) ""))
        ("running" ∷ "restarting" ∷ [])
      || is_true (lookup "running" item)

  -- A failure before the ids are known, with the id of the event, with both ids, and with the
  -- instant too.
  abbrev early : String → FreshRevalidation
  early reason = failure reason none none none fresh

  abbrev of_event : String → FreshRevalidation
  of_event reason = failure reason fresh_event_id none none fresh

  abbrev of_sample : String → Option ℤ → FreshRevalidation
  of_sample reason at = failure reason fresh_event_id fresh_sample_id at fresh

  abbrev late : String → FreshRevalidation
  late reason = of_sample reason fresh_monotonic

  unfoldable pub guards : List (Bool × FreshRevalidation)
  guards =
      (
        not (is_mapping o.original_event && is_mapping o.fresh_event),
        early "fresh_event_mapping_required",
      )
      ∷ (not (is_some original_monotonic), early "original_monotonic_timestamp_missing")
      ∷ (not (is_digest o.intent.target_id), early "target_full_id_required")
      ∷ (not (is_some o.intent.target_labels), early "target_labels_invalid")
      ∷ (not (is_some expires_at), early "intent_expiry_invalid")
      ∷ (not (is_some epoch && is_some monotonic), early "revalidation_clock_invalid")
      ∷ (not (earlier epoch expires_at), early "intent_expired")
      ∷ (not (is_some fresh_event_id), early "fresh_event_id_missing")
      ∷ (
        not (equals_text (lookup "host_id" fresh) o.intent.host_id),
        of_event "fresh_host_identity_changed",
      )
      ∷ (not (is_some fresh_sample_id), of_event "fresh_sample_id_missing")
      ∷ (
        same_text fresh_event_id o.intent.event_id || same_text fresh_sample_id o.intent.sample_id,
        of_sample "fresh_sample_reused" none,
      )
      ∷ (
        not (earlier original_monotonic fresh_monotonic),
        of_sample "fresh_monotonic_timestamp_stale" (int_in raw_monotonic),
      )
      ∷ (earlier monotonic fresh_monotonic, late "fresh_monotonic_timestamp_in_future")
      ∷ (
        is_false (lookup "execution_allowed" (fields_in (lookup "runtime_gate" evidence))),
        late "fresh_runtime_gate_closed",
      )
      ∷ (
        not (
            is_digest fresh_config_digest
            && same_text fresh_config_digest
                (or_intent o.expected_config_digest o.intent.config_digest)
            && same_text fresh_config_digest o.intent.config_digest),
        late "fresh_config_digest_mismatch",
      )
      ∷ (
        not (
            is_digest fresh_policy_digest
            && same_text fresh_policy_digest o.intent.policy_digest
            && same_text fresh_policy_digest (some (emergency_policy_digest platform o.policy))),
        late "fresh_policy_digest_mismatch",
      )
      ∷ (not is_risk_confirmed, late "fresh_risk_not_confirmed")
      ∷ (not (says "graceful_stop" fresh_action), late "fresh_action_not_allowed")
      ∷ (
        not (is_object registry_block && says "ok" (lookup "status" (fields_in registry_block))),
        late "fresh_object_registry_unavailable",
      )
      ∷ (not (is_filled raw_objects), late "fresh_object_registry_incomplete")
      ∷ (not (is_single matches), late "fresh_target_identity_changed")
      ∷ (not (is_same_identity identity), late "fresh_target_identity_changed")
      ∷ (not (is_some (named (lookup "created_at" identity))), late "fresh_created_at_missing")
      ∷ (
        not (starts_with_slash (named (lookup "cgroup_path" identity))),
        late "fresh_cgroup_path_missing",
      )
      ∷ (
        not (is_some (positive_in (lookup "cgroup_inode" identity))),
        late "fresh_cgroup_inode_missing",
      )
      ∷ (not (is_running identity), late "fresh_target_not_running")
      ∷ []

  -- `revalidate_observer_event`
  unfoldable pub revalidate_observer_event : FreshRevalidation
  revalidate_observer_event = settle guards (record {
    accepted = true;
    reason_codes = "fresh_revalidation_passed" ∷ [];
    fresh_event_id = fresh_event_id;
    fresh_sample_id = fresh_sample_id;
    fresh_observed_monotonic_ns = fresh_monotonic;
    registry = registry;
    event = fresh;
  })
