-- ===== src/Shedding/Plans.antt =====
-- The plan of `build_emergency_shedding_decision` in src/guardian_emergency_shedding.py, and what it
-- rests on.
use server_resource_guardian.Prelude.{String, true, ◌≡◌, Option, some, List, [], ◌∷◌, one_of}
use server_resource_guardian.Prelude.Tables.Order.{first}
use server_resource_guardian.Value.{Fields}
use server_resource_guardian.Shedding.{Platform, EmergencySheddingPlan, Row, Shedding}
use server_resource_guardian.Shedding.Ranking.{Request}
use server_resource_guardian.Shedding.Rows.{Inputs}
use server_resource_guardian.Shedding.Targets.{ranking, IsTop, IsAllowed}

module _ (platform : Platform) (take : String → String) (q : Request) where
  -- What a plan rests on: the resource comes first among those confirmed critical, the target is the
  -- top of its ranking, and the entry of the target allows the action.
  abbrev pub Rests : Inputs → EmergencySheddingPlan → Type 0
  Rests i plan =
      (resource : String) × (rankings : List (String × List Row)) × (top : Row) × (entry : Fields)
      × (first i.active ≡ some resource)
      × (one_of i.mode ("simulate" ∷ "enforce" ∷ []) ≡ true)
      × IsTop platform q i rankings resource (ranking platform q i resource) top
      × IsAllowed platform q i rankings resource top entry
      × (plan.resource_kind ≡ resource)
      × (plan.target_id ≡ top.id)
      × (plan.action ≡ "graceful_stop")

  -- Every plan of a result rests on the inputs.
  abbrev pub IsGrounded : Inputs → Shedding → Type 0
  IsGrounded i s = (plan : EmergencySheddingPlan) → s.decision.plan ≡ some plan → Rests i plan
