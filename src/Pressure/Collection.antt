-- ===== src/Pressure/Collection.antt =====
-- `should_collect` of src/guardian_pressure_gate.py. Times are in thousandths of a second here.
use server_resource_guardian.Prelude.{
  ◌≡◌, ◌↔◌, String, Bool, true, not, Option, none, some, ◌==◌, if◌then◌else◌, arith,
}
use server_resource_guardian.Prelude.Int
use server_resource_guardian.Prelude.Int.{ℤ, pos, ◌+ℤ◌, ◌-ℤ◌, ◌≤ℤ◌, +ℤ_parts, -ℤ_parts}
use server_resource_guardian.Pressure.{degraded_state}

abbrev pub min_degraded_interval : ℤ
min_degraded_interval = pos 15000

-- `max(float(interval_seconds), 15.0)`; `none` where `float` raises.
unfoldable pub interval_of : Option ℤ → ℤ
interval_of none = min_degraded_interval
interval_of (some interval) =
    if Int.leb min_degraded_interval interval then interval else min_degraded_interval

due : ℤ → Option ℤ → ℤ → Bool
due now none interval = true
due now (some last) interval = Int.leb (interval +ℤ interval +ℤ interval) (now -ℤ last)

unfoldable pub should_collect : String → ℤ → Option ℤ → Option ℤ → Bool
unfolding due
should_collect state now last_collection interval_seconds =
    if not (state == degraded_state)
    then true
    else due now last_collection (interval_of interval_seconds)

-- In the degraded state, a collection after an earlier one waits for three intervals, of at least 15
-- seconds each; and it is let through as soon as they have passed.
pub should_collect-degraded :
    (now last interval : ℤ)
    → (should_collect "degraded" now (some last) (some interval) ≡ true)
      ↔ ((interval +ℤ interval +ℤ interval ≤ℤ now -ℤ last) × (pos 45000 ≤ℤ now -ℤ last))
unfolding should_collect interval_of
should_collect-degraded now last interval = ground (
  arith,
  +ℤ_parts interval interval,
  +ℤ_parts (interval +ℤ interval) interval,
  -ℤ_parts now last,
  +ℤ_parts (pos 15000) (pos 15000),
  +ℤ_parts (pos 15000 +ℤ pos 15000) (pos 15000),
)
