-- ===== src/Reserve/Histories.antt =====
-- Any sequence of calls of the reserve store, src/guardian_reserve_state.py.
pub mod Blocked
use server_resource_guardian.Prelude.{String, List, [], ◌∷◌}
use server_resource_guardian.Prelude.Int.{ℤ}
use server_resource_guardian.Value.{Fields}
use server_resource_guardian.Reserve.{ReserveTables, Trouble}
use server_resource_guardian.Reserve.Approvals.{Approval, register_approval}
use server_resource_guardian.Reserve.Claims.{claim_execution}
use server_resource_guardian.Reserve.Finish.{finish_execution}

pub data ReserveCall : Type 0 where
  register : Trouble → Approval → ℤ → ReserveCall
  claim : Trouble → String → Approval → String → ℤ → ReserveCall
  finish : Trouble → String → String → Fields → ℤ → ReserveCall

unfoldable pub perform : ReserveCall → ReserveTables → ReserveTables
perform (register trouble a now) t = (register_approval trouble a now t).1
perform (claim trouble incident_id a target now) t =
    (claim_execution trouble incident_id a target now t).1
perform (finish trouble incident_id state result now) t =
    (finish_execution trouble incident_id state result now t).1

unfoldable pub run : List ReserveCall → ReserveTables → ReserveTables
run [] t = t
run (c ∷ cs) t = run cs (perform c t)
