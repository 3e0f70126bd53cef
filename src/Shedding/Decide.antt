-- ===== src/Shedding/Decide.antt =====
-- `build_emergency_shedding_decision` of src/guardian_emergency_shedding.py, from the checks on the
-- inputs to the plan.
use server_resource_guardian.Prelude.{String, none, some, List, [], ◌∷◌}
use server_resource_guardian.Value.{object, end}
use server_resource_guardian.Shedding.{
  Platform, Row, Shedding, Step, refused, went, ◌>>=◌, fields_in,
}
use server_resource_guardian.Shedding.Identity.{get_entry}
use server_resource_guardian.Shedding.Ranking.{
  Request, check_mode, check_clock, check_risks, check_candidates, check_registry, check_sets,
  check_allowed,
}
use server_resource_guardian.Shedding.Rows.{Inputs, ranked_refusal, rank, check_agreement}
use server_resource_guardian.Shedding.Target.{
  check_identities, check_top, check_observe, check_entry, planned, make_plan,
}

-- The checks on the inputs, in their order.
unfoldable pub read_inputs : Platform → Request → Step Inputs
read_inputs platform q = do
  mode ← check_mode q
  now ← check_clock q mode
  active ← check_risks platform q mode
  candidates ← check_candidates mode active q.candidates
  registry ← check_registry mode active q.registry
  sets ← check_sets mode active platform now q.protected_set q.actionable_set
  allowed ← check_allowed mode active q.allowed_actions
  went (record {
    mode = mode;
    now = now;
    active = active;
    candidates = candidates;
    registry = registry;
    protected = sets.0;
    actionable = sets.1;
    allowed_actions = allowed;
  })

module _ (platform : Platform) (take : String → String) (q : Request) (i : Inputs) where
  abbrev pub ranking_of : String → List (String × List Row) → List Row
  ranking_of resource rankings = elim (get_entry resource rankings) [ none ↦ [] | some rows ↦ rows ]

  -- The plan for the first active resource, and what it rests on.
  unfoldable pub plan_for : List (String × List Row) → String → Step Shedding
  plan_for rankings resource = do
    rows ← check_identities platform q i rankings resource (ranking_of resource rankings)
    top ← check_top platform q i rankings resource rows
    shown ← check_observe platform q i rankings resource top
    entry ← check_entry platform q i rankings resource shown (get_entry shown.id i.actionable)
    went (
        planned platform q i rankings resource shown (
          make_plan platform q i rankings resource take shown entry (
            fields_in
              (elim (get_entry shown.id i.candidates) [ none ↦ none | some c ↦ some (object c) ]))))

  unfoldable pub decide_active : List String → List (String × List Row) → Step Shedding
  unfolding plan_for
  decide_active [] rankings =
      refused (ranked_refusal platform q i rankings ("HOST_RISK_NOT_CONFIRMED" ∷ []) none none end)
  decide_active (resource ∷ rest) rankings = plan_for rankings resource

  unfoldable pub decide : Step Shedding
  unfolding decide_active
  decide = do
    rankings ← rank platform q i
    agreed ← check_agreement platform q i rankings
    decide_active i.active agreed

abbrev pub outcome : Step Shedding → Shedding
outcome (refused s) = s
outcome (went s) = s

-- `build_emergency_shedding_decision`; `take` is `digest[:24]`.
unfoldable pub build_emergency_shedding_decision :
    Platform → (take : String → String) → Request → Shedding
build_emergency_shedding_decision platform take q =
    outcome (read_inputs platform q >>= λ i. decide platform take q i)
