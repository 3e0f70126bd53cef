-- ===== src/Shedding/Target.antt =====
-- `build_emergency_shedding_decision` of src/guardian_emergency_shedding.py: the checks on the top
-- consumer of a resource, and the plan for it.
use server_resource_guardian.Prelude.{
  String, Bool, false, ◌&&◌, ◌||◌, not, Option, none, some, List, [], ◌∷◌, ◌==◌, if◌then◌else◌,
  one_of, is_some, join,
}
use server_resource_guardian.Prelude.Int
use server_resource_guardian.Prelude.Int.{ℤ, pos}
use server_resource_guardian.Prelude.Tables.{find, select}
use server_resource_guardian.Prelude.Tables.Order.{first}
use server_resource_guardian.Value.{
  text, array, object, Items, nil, cons, Fields, end, field, lookup,
}
use server_resource_guardian.Value.Json.{dumps}
use server_resource_guardian.Shedding.{
  Platform, EmergencySheddingPlan, Row, Shedding, empty_decision, Step, refused, ◌>>=◌, unless,
}
use server_resource_guardian.Shedding.Policy.{emergency_policy_digest}
use server_resource_guardian.Shedding.Reading.{says, text_or}
use server_resource_guardian.Shedding.Identity.{identity_fields, same_number}
use server_resource_guardian.Shedding.Entries.{
  actionable_expiry_reason, kinds_of, labels_of, list_in,
}
use server_resource_guardian.Shedding.Ranking.{Request, is_empty}
use server_resource_guardian.Shedding.Rows.{
  Inputs, or_empty, or_zero, or_missing, allows_kind, ranked_refusal, no_target,
}

module _ (platform : Platform) (q : Request) (i : Inputs) where
  failed_ids : List Row → Items
  failed_ids [] = nil
  failed_ids (row ∷ rows) = cons (text row.id) (failed_ids rows)

  module _ (rankings : List (String × List Row)) (resource : String) where
    abbrev refuse : String → Option String → Fields → Shedding
    refuse reason top details =
        ranked_refusal platform q i rankings (no_target reason) (some resource) top details

    -- Nothing is wrong with the identity of any row.
    unfoldable pub check_identities : List Row → Step (List Row)
    unfolding ranked_refusal failed_ids
    check_identities rows =
        let failures = select (λ r. is_some r.identity_reason) rows in
        let changed =
          find (λ r. or_missing r.identity_reason == "TARGET_IDENTITY_CHANGED") failures in
        unless (not (is_empty failures))
          (refuse (if is_some changed then "TARGET_IDENTITY_CHANGED" else "DATA_INCOMPLETE") none
            (field "identity_failures" (array (failed_ids failures)) end))
          rows

    -- The second row has the contribution of the first.
    unfoldable pub ties : Row → Option Row → Bool
    ties top none = false
    ties top (some second) = same_number top.contribution_percent second.contribution_percent

    unfoldable pub top_alone : List Row → Step Row
    unfolding ranked_refusal ties
    top_alone [] = refused (refuse "UNKNOWN_TOP_CONSUMER" none end)
    top_alone (top ∷ rest) =
        unless (ties top (first rest)) (refuse "AMBIGUOUS_TOP_CONSUMER" none end) top

    -- The top consumer is alone at the top, may be stopped, and contributes enough.
    unfoldable pub check_top : List Row → Step Row
    unfolding top_alone
    check_top rows = do
      top ← top_alone rows
      t ← unless top.protected (refuse "PROTECTED_TOP_CONSUMER" (some top.id) end) top
      u ← unless (not t.actionable) (refuse "UNKNOWN_TOP_CONSUMER" (some t.id) end) t
      v ←
          unless (is_some u.identity_reason) (refuse (or_missing u.identity_reason) (some u.id) end)
            u
      w ←
          unless (resource == "disk_capacity" && not v.writer_evidence)
            (refuse "CAPACITY_WRITER_EVIDENCE_MISSING" none end) v
      unless (Int.ltb (or_zero w.contribution_percent) q.policy.min_host_contribution_percent)
          (refuse "CONTRIBUTION_BELOW_MINIMUM" (some w.id) end) w

    -- In the mode `observe` the ranking is shown and nothing is planned.
    unfoldable pub check_observe : Row → Step Row
    check_observe top =
        unless (i.mode == "observe")
          (record {
            decision = record (empty_decision i.mode "not_applicable" ("OBSERVE_ONLY" ∷ [])) {
              resource_kind = some resource;
              top_consumer = some top.id;
            };
            active_resources = i.active;
            rankings = rankings;
          })
          top

    -- The entry of the actionable set allows this action on this resource now.
    unfoldable pub check_entry : Row → Option Fields → Step Fields
    unfolding ranked_refusal
    check_entry top none = refused (refuse "UNKNOWN_TOP_CONSUMER" (some top.id) end)
    check_entry top (some entry) = do
      e ←
          unless (is_some (actionable_expiry_reason platform entry i.now))
            (refuse (or_missing (actionable_expiry_reason platform entry i.now)) (some top.id) end)
            entry
      f ←
          unless
            (not
              (allows_kind resource (kinds_of platform (list_in (lookup "allowed_resources" e)))))
            (refuse "RESOURCE_NOT_ALLOWED" none end) e
      unless
          ((is_some (lookup "action" f) && not (says "graceful_stop" (lookup "action" f)))
            || not (one_of "graceful_stop" i.allowed_actions))
          (refuse "ACTION_NOT_ALLOWLISTED" none end) f

    -- `_plan_id`; `take` is the start of the digest.
    plan_id : (take : String → String) → String → String
    plan_id take target = join "es-v1-" (
        take (
          platform.sha256 (
            dumps (
              object (
                field "event_id" (text (or_empty q.event_id)) (
                  field "resource_kind" (text resource) (
                    field "target_id" (text target) (
                      field "config_digest" (text (or_empty q.config_digest))
                        (field "schema" (text "guardian.emergency_shedding.v1") end)))))))))

    unfoldable pub make_plan :
        (take : String → String) → Row → Fields → Fields → EmergencySheddingPlan
    unfolding plan_id
    make_plan take top entry candidate =
        let own = identity_fields candidate in
        record {
          plan_id = plan_id take top.id;
          resource_kind = resource;
          target_id = top.id;
          target_created_at = or_empty own.created_at;
          target_cgroup_path = or_empty own.cgroup_path;
          target_cgroup_inode = or_zero own.cgroup_inode;
          target_labels = labels_of (lookup "labels" candidate);
          action = "graceful_stop";
          execution = "not_executed";
          max_actions = 1;
          root_cause_claimed = false;
          event_id = or_empty q.event_id;
          sample_id = or_empty q.sample_id;
          policy_digest = emergency_policy_digest platform q.policy;
          config_digest = or_empty q.config_digest;
          expires_at = text_or platform (lookup "expires_at" entry) "";
        }

    -- The answer that carries a plan.
    unfoldable pub planned : Row → EmergencySheddingPlan → Shedding
    planned top plan =
        let acts = one_of i.mode ("simulate" ∷ "enforce" ∷ []) in
        record {
          decision = record {
            mode = i.mode;
            action = if acts then "graceful_stop" else "none";
            execution = "not_executed";
            resource_kind = some resource;
            target_id = some top.id;
            top_consumer = some top.id;
            reason_codes = "PLAN_GENERATED" ∷ "TOP_ACTIONABLE_CONSUMER" ∷ [];
            plan = if acts then some plan else none;
            plans_count = if acts then 1 else 0;
            details = end;
          };
          active_resources = i.active;
          rankings = rankings;
        }
