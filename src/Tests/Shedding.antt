-- ===== src/Tests/Shedding.antt =====
-- Tests for src/guardian_emergency_shedding.py.
use server_resource_guardian.Prelude.{ℕ, true, false, some, String, []}
use server_resource_guardian.Prelude.Int.{pos}
use server_resource_guardian.Value.{Value, number, text, array, object, nil, cons, end, field}
use server_resource_guardian.Shedding.{Platform, EmergencySheddingPlan}
use server_resource_guardian.Shedding.Policy.{default_policy}
use server_resource_guardian.Shedding.Reading.{resource_kind}
use server_resource_guardian.Shedding.Ranking.{Request}

abbrev platform : Platform
platform = record {
  repr = λ value. "value";
  upper = λ s. s;
  lower = λ s. s;
  instant_of = λ s. some (pos 500);
  sha256 = λ s. "digest";
}

abbrev take : String → String
take s = s

abbrev container : String
container = "aaaaaaaaaaaaaaaaaaaaaaaaaaaaaaaaaaaaaaaaaaaaaaaaaaaaaaaaaaaaaaaa"

abbrev other : String
other = "bbbbbbbbbbbbbbbbbbbbbbbbbbbbbbbbbbbbbbbbbbbbbbbbbbbbbbbbbbbbbbbb"

abbrev item : String → ℕ → Value
item id share = object (
    field "kind" (text "container") (
      field "id" (text id) (
        field "status" (text "running") (
          field "created_at" (text "2026-01-01T00:00:00Z") (
            field "cgroup_path" (text "/docker/one") (
              field "cgroup_inode" (number (pos 42))
                (field "host_contribution_percent" (number (pos share)) end)))))))

abbrev entry : Value
entry = object (
    field "stable_id" (text container) (
      field "environment" (text "local-disposable") (
        field "action" (text "graceful_stop") (
          field "allowed_resources" (array (cons (text "cpu") nil))
            (field "expires_at" (text "2026-02-01T00:00:00+00:00") end)))))

abbrev request : Request
request = record {
  host_risks = object (
      field "cpu"
        (object
          (field "state" (text "CRITICAL_CONFIRMED") (field "sample_count" (number (pos 3)) end)))
        end);
  candidates = array (cons (item other 10) (cons (item container 60) nil));
  registry = array (cons (item other 10) (cons (item container 60) nil));
  protected_set = array nil;
  actionable_set = array (cons entry nil);
  mode = text "simulate";
  policy = record default_policy { enabled = true };
  allowed_actions = array (cons (text "graceful_stop") nil);
  event_id = some "event-1";
  sample_id = some "sample-1";
  config_digest = some "config";
  now_epoch_s = number (pos 100);
  clock = pos 0;
}

abbrev plan : EmergencySheddingPlan
plan = record {
  plan_id = "es-v1-digest";
  resource_kind = "cpu";
  target_id = container;
  target_created_at = "2026-01-01T00:00:00Z";
  target_cgroup_path = "/docker/one";
  target_cgroup_inode = pos 42;
  target_labels = [];
  action = "graceful_stop";
  execution = "not_executed";
  max_actions = 1;
  root_cause_claimed = false;
  event_id = "event-1";
  sample_id = "sample-1";
  policy_digest = "digest";
  config_digest = "config";
  expires_at = "2026-02-01T00:00:00+00:00";
}
