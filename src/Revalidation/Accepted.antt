-- ===== src/Revalidation/Accepted.antt =====
-- The acceptance of `revalidate_observer_event` in src/guardian_revalidation.py: what holds of the
-- fresh event when it is accepted.
use server_resource_guardian.Prelude.{
  ℕ, String, true, false, ◌≡◌, refl, subst, some, [], ◌∷◌, ◌==◌, is_some,
}
use server_resource_guardian.Prelude.Tables.Order.{first}
use server_resource_guardian.Prelude.Int.{ℤ}
use server_resource_guardian.Value.{Fields, text, lookup}
use server_resource_guardian.Shedding.{Platform, fields_in}
use server_resource_guardian.Shedding.Policy.{emergency_policy_digest}
use server_resource_guardian.Shedding.Reading.{says}
use server_resource_guardian.Shedding.Identity.{same_text}
use server_resource_guardian.Revalidation.{Observed, failure, equals_text, is_digest}
use server_resource_guardian.Revalidation.Settled.{
  condition_at, refuses, settle-off, is_true_of, third, second, neither, given, unclosed,
  named-some, either-named, single,
}
use server_resource_guardian.Revalidation.Checks.{
  earlier, fresh, signals, evidence, is_false, epoch, monotonic, expires_at, original_monotonic,
  fresh_monotonic, fresh_event_id, fresh_sample_id, fresh_config_digest, fresh_policy_digest,
  is_risk_confirmed, fresh_action, matches, identity, is_same_identity, is_running, or_end,
  or_intent, guards, revalidate_observer_event,
}

module _ (platform : Platform) (o : Observed) where
  -- The facts that acceptance stands for.
  abbrev pub IsFresh : Type 0
  IsFresh =
      (event_id : String) × (sample_id : String) × (now : ℤ) × (lookup "event_id" (fresh platform o)
        ≡ some (text event_id))
      × ((event_id == "") ≡ false)
      × (fresh_sample_id platform o ≡ some sample_id)
      × ((sample_id == "") ≡ false)
      × (monotonic platform o ≡ some now)
      × (earlier (epoch platform o) (expires_at platform o) ≡ true)
      × (equals_text (lookup "host_id" (fresh platform o)) o.intent.host_id ≡ true)
      × (same_text (fresh_event_id platform o) o.intent.event_id ≡ false)
      × (same_text (fresh_sample_id platform o) o.intent.sample_id ≡ false)
      × (earlier (original_monotonic platform o) (fresh_monotonic platform o) ≡ true)
      × (earlier (monotonic platform o) (fresh_monotonic platform o) ≡ false)
      × (is_false platform o
            (lookup "execution_allowed" (fields_in (lookup "runtime_gate" (evidence platform o))))
          ≡ false)
      × (same_text (fresh_config_digest platform o) o.intent.config_digest ≡ true)
      × (same_text (fresh_policy_digest platform o) o.intent.policy_digest ≡ true)
      × (same_text (fresh_policy_digest platform o)
            (some (emergency_policy_digest platform o.policy))
          ≡ true)
      × (is_risk_confirmed platform o ≡ true)
      × (says "graceful_stop" (fresh_action platform o) ≡ true)
      × (item : Fields) × (matches platform o ≡ item ∷ [])
      × (is_same_identity platform o item ≡ true)
      × (is_running platform o item ≡ true)

  fresh_sample_id-named : (s : String) → fresh_sample_id platform o ≡ some s → (s == "") ≡ false
  unfolding fresh_sample_id
  fresh_sample_id-named s h =
      either-named (lookup "sample_id" (fresh platform o)) (lookup "sample_id" (signals platform o))
        s h

  -- By the places of the guards.
  guards-IsFresh : ((n : ℕ) → condition_at (guards platform o) n ≡ false) → IsFresh
  unfolding guards identity condition_at
  guards-IsFresh off =
      let ids = neither _ _ (off 10) in
      let digest = fresh_policy_digest platform o in
      let own = same_text digest o.intent.policy_digest in
      let found = single (matches platform o) (is_true_of _ (off 20)) in
      let (event_id, named_id) = given _ (off 7) in
      let (sample_id, chosen) = given _ (off 9) in
      let (now, ticking) = given _ (unclosed (is_some (epoch platform o)) _ (off 5)) in
      let raw = named-some _ event_id named_id in
      (
        event_id,
        sample_id,
        now,
        raw.0,
        raw.1,
        chosen,
        fresh_sample_id-named sample_id chosen,
        ticking,
        is_true_of _ (off 6),
        is_true_of _ (off 8),
        ids.0,
        ids.1,
        is_true_of _ (off 11),
        off 12,
        off 13,
        third (is_digest (fresh_config_digest platform o))
            (same_text (fresh_config_digest platform o)
              (or_intent o.expected_config_digest o.intent.config_digest))
            _ (off 14),
        second (is_digest digest) own _ (off 15),
        third (is_digest digest) own _ (off 15),
        is_true_of _ (off 16),
        is_true_of _ (off 17),
        found.0,
        found.1,
        subst (λ xs. is_same_identity platform o (or_end (first xs)) ≡ true) found.1
            (is_true_of _ (off 21)),
        subst (λ xs. is_running platform o (or_end (first xs)) ≡ true) found.1
            (is_true_of _ (off 25)),
      )

  guards_refuse : refuses (guards platform o) ≡ true
  unfolding guards failure refuses
  guards_refuse = refl

  -- When a fresh event is accepted, the intent has not expired, and the event is of the same host,
  -- has an id and a sample that are not empty and not those of the intent, was observed after the
  -- event of the intent and, by a clock that was read, not in the future, does not close the runtime
  -- gate, carries the configuration digest and the policy digest of the intent, the latter that of
  -- the policy in force, confirms the risk of the resource, and still decides on `graceful_stop`.
  -- Exactly one object of its registry has the id of the target, and that object has the creation
  -- time, the cgroup and the labels of the intent, is mapped without errors, and is running.
  pub revalidate_observer_event-IsFresh :
      (revalidate_observer_event platform o).accepted ≡ true → IsFresh
  unfolding revalidate_observer_event
  revalidate_observer_event-IsFresh e =
      guards-IsFresh (settle-off (guards platform o) _ guards_refuse e)
