-- ===== src/Recovery/Ledger.antt =====
-- The in-memory ledger of src/guardian_recovery.py: `CooldownLedger`.
pub mod Pacing
use server_resource_guardian.Prelude.{
  ℕ, ◌+◌, String, Bool, true, false, Option, none, some, List, [], ◌∷◌, ◌++◌, if◌then◌else◌, length,
}
use server_resource_guardian.Prelude.Int
use server_resource_guardian.Prelude.Int.{ℤ, pos, ◌-ℤ◌}

pub record CooldownLedger : Type 0 where
  pub last_action_at : Option ℤ
  pub action_times : List ℤ
  pub consecutive_failures : ℕ

abbrev pub empty : CooldownLedger
empty = record { last_action_at = none; action_times = []; consecutive_failures = 0 }

-- The times `t` with `now - t <= window_seconds`.
unfoldable pub recent : ℤ → ℤ → List ℤ → List ℤ
recent now window_seconds [] = []
recent now window_seconds (t ∷ ts) =
    let rest = recent now window_seconds ts in
    if Int.leb (now -ℤ t) window_seconds then t ∷ rest else rest

-- `last is not None and now - last < cooldown_seconds`
unfoldable pub is_cooling : Option ℤ → ℤ → ℤ → Bool
is_cooling none now cooldown_seconds = false
is_cooling (some last) now cooldown_seconds = Int.ltb (now -ℤ last) cooldown_seconds

-- The method prunes the times whatever its answer.
unfoldable pub allow : CooldownLedger → ℤ → ℤ → ℤ → ℤ → (Bool × String) × CooldownLedger
unfolding recent is_cooling
allow ledger now cooldown_seconds max_actions window_seconds =
    let action_times = recent now window_seconds ledger.action_times in
    let pruned = record ledger { action_times = action_times } in
    if is_cooling ledger.last_action_at now cooldown_seconds
    then ((false, "cooldown_active"), pruned)
    else if Int.leb max_actions (pos (length action_times))
    then ((false, "action_limit_reached"), pruned)
    else ((true, "allowed"), pruned)

unfoldable pub record_action : CooldownLedger → ℤ → Bool → CooldownLedger
record_action ledger now success = record {
  last_action_at = some now;
  action_times = ledger.action_times ++ now ∷ [];
  consecutive_failures = if success then 0 else ledger.consecutive_failures + 1;
}

unfoldable pub tripped : CooldownLedger → ℤ → Bool
tripped ledger max_consecutive_failures =
    Int.leb max_consecutive_failures (pos ledger.consecutive_failures)
