-- ===== src/Tests/Revalidation.antt =====
-- Tests for src/guardian_revalidation.py.
use server_resource_guardian.Prelude.{◌≡◌, refl, true, join, some, String, [], ◌∷◌}
use server_resource_guardian.Prelude.Int.{pos}
use server_resource_guardian.Prelude.Text.{size, every}
use server_resource_guardian.Prelude.Tables.{select}
use server_resource_guardian.Prelude.Tables.Order.{order_by}
use server_resource_guardian.Value.{
  Value, null, boolean, number, text, array, object, nil, cons, end, field, lookup, truth,
}
use server_resource_guardian.Controller.{str}
use server_resource_guardian.Shedding.{Platform, named, is_full_container_id}
use server_resource_guardian.Shedding.Policy.{emergency_policy_digest, default_policy}
use server_resource_guardian.Revalidation.{
  Observed, settle, failure, underscored, starts_with_slash, labels_in,
}
use server_resource_guardian.Revalidation.Checks.{
  raw_monotonic, fresh_sample_id, is_risk_confirmed, fresh_action, registry_block, registry,
  matches, identity, is_same_identity, is_running, guards, revalidate_observer_event,
}
use server_resource_guardian.Revalidation.Accepted.{IsFresh, revalidate_observer_event-IsFresh}

abbrev digest : String
digest = "dddddddddddddddddddddddddddddddddddddddddddddddddddddddddddddddd"

abbrev platform : Platform
platform = record {
  repr = λ value. "value";
  upper = λ s. s;
  lower = λ s. s;
  instant_of = λ s. some (pos 500);
  sha256 = λ s. digest;
}

abbrev container : String
container = "aaaaaaaaaaaaaaaaaaaaaaaaaaaaaaaaaaaaaaaaaaaaaaaaaaaaaaaaaaaaaaaa"

abbrev item : Value
item = object (
    field "id" (text container) (
      field "created_at" (text "2026-01-01T00:00:00Z") (
        field "cgroup_path" (text "/docker/one") (
          field "cgroup_inode" (number (pos 42)) (
            field "labels" (object (field "team" (text "ops") end)) (
              field "mapping_confidence" (text "high")
                (field "mapping_errors" (array nil) (field "status" (text "running") end))))))))

abbrev risk : Value
risk = object (
    field "state" (text "CRITICAL-CONFIRMED") (
      field "danger_confirmed" (boolean true) (
        field "sample_complete" (boolean true)
          (field "quality_status" (text "ok") (field "quality_flags" (array nil) end)))))

-- A fresh event; its sample id is among its signals.
abbrev event : Value
event = object (
    field "event_id" (text "event-2") (
      field "host_id" (text "host") (
        field "observed_monotonic_ns" (number (pos 200)) (
          field "signals"
            (object (
              field "sample_id" (text "sample-2") (
                field "object_registry"
                  (object
                    (field "status" (text "ok") (field "objects" (array (cons item nil)) end)))
                  end)))
            (field "evidence"
              (object
                (field "config_digest" (text digest) (field "policy_digest" (text digest) end)))
              (field "resource_evaluations"
                (object (field "cpu" (object (field "risk" risk end)) end))
                (field "emergency_shedding"
                  (object
                    (field "decision" (object (field "action" (text "graceful_stop") end)) end))
                  end)))))))

abbrev observed : Observed
observed = record {
  intent = record {
    observed_monotonic_ns = number (pos 100);
    target_id = some container;
    target_created_at = some "2026-01-01T00:00:00Z";
    target_cgroup_path = some "/docker/one";
    target_cgroup_inode = some (pos 42);
    target_labels = some (("team", "ops") ∷ []);
    event_id = some "event-1";
    sample_id = some "sample-1";
    host_id = some "host";
    policy_digest = some digest;
    config_digest = some digest;
    resource_kind = some "cpu";
    expires_at = number (pos 1000);
  };
  original_event = object end;
  fresh_event = event;
  policy = default_policy;
  expected_config_digest = some "";
  now_epoch_s = null;
  now_monotonic_ns = number (pos 300);
  clock = pos 900;
  monotonic_clock = pos 0;
}

is_accepted : (revalidate_observer_event platform observed).accepted ≡ true
unfolding revalidate_observer_event settle failure underscored starts_with_slash labels_in
    raw_monotonic fresh_sample_id is_risk_confirmed fresh_action registry_block registry matches
    identity is_same_identity is_running guards emergency_policy_digest named is_full_container_id
    lookup truth str size every select order_by join
is_accepted = refl

-- A replayed sample is refused, whatever else the event says.
replayed_is_refused :
    (revalidate_observer_event platform (record observed {
      intent = record observed.intent { sample_id = some "sample-2" };
    })).reason_codes
    ≡ "fresh_sample_reused" ∷ []
unfolding revalidate_observer_event settle failure raw_monotonic fresh_sample_id guards named
    is_full_container_id lookup size every
replayed_is_refused = refl

revalidate_observer_event-IsFresh_example : IsFresh platform observed
revalidate_observer_event-IsFresh_example =
    revalidate_observer_event-IsFresh platform observed is_accepted
