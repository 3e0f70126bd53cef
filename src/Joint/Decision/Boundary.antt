-- ===== src/Joint/Decision/Boundary.antt =====
-- When `build_joint_decision` of src/guardian_multirisk.py plans an action.
use server_resource_guardian.Prelude.{◌≡◌, ◌≢◌, ◌⊎◌, ◌≤◌, String, none, List, [], ◌∷◌, ◌==◌, length}
use server_resource_guardian.Prelude.Tables.{find}
use server_resource_guardian.Value.{Value, Fields}
use server_resource_guardian.Joint.{Scan, Targets, target_id, mapping_at, attribution_state}
use server_resource_guardian.Joint.Agreement.{Agree}
use server_resource_guardian.Joint.Decision.{found_state}

-- An action that is neither of the two answers that no adapter runs.
abbrev pub IsAction : String → Type 0
IsAction action = (action ≢ "none") × (action ≢ "escalate")

-- The first resource without a target is the only active one, and its attribution is confirmed.
abbrev IsLabelled : Scan → Targets → List String → Type 0
IsLabelled s ts us =
    (length s.active ≤ 1)
    × (kind : String) × (kinds : List String) × (us ≡ kind ∷ kinds)
    × (found_state (find (λ e. e.0 == kind) ts.attribution_states) ≡ "TARGET_CONFIRMED")

-- What the active resources look like when the target counts as confirmed: they agree, or there is
-- one alone, whose attribution says TARGET_CONFIRMED for a target without an identity.
abbrev pub IsJoint : (repr : Value → String) → List (String × Fields) → Type 0
IsJoint repr active =
    ((t : String) × Agree t active)
    ⊎ ((kind : String) × (e : Fields) × (active ≡ (kind, e) ∷ [])
        × (attribution_state repr (mapping_at "attribution" e) ≡ "TARGET_CONFIRMED")
        × (target_id (mapping_at "attribution" e) ≡ none))
