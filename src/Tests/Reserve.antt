-- ===== src/Tests/Reserve.antt =====
-- Tests for src/guardian_reserve_state.py.
use server_resource_guardian.Prelude
use server_resource_guardian.Prelude.{
  ◌≡◌, refl, Bool, true, false, none, some, String, List, [], ◌∷◌,
}
use server_resource_guardian.Prelude.Int.{pos}
use server_resource_guardian.Prelude.Text.{decimal, comma_separated}
use server_resource_guardian.Prelude.Tables.{find, update, delete}
use server_resource_guardian.Result.{ok}
use server_resource_guardian.Value.{end}
use server_resource_guardian.Value.Json.{dumps}
use server_resource_guardian.Reserve.{
  ReserveExecutionClaim, ReserveSlot, ReserveTables, initial, healthy, within, reserve_json,
  reserve_audit,
}
use server_resource_guardian.Reserve.Approvals.{Approval, register_approval}
use server_resource_guardian.Reserve.Claims.{claim_execution, new_slot}
use server_resource_guardian.Reserve.Claims.Facts.{IsClaimable}
use server_resource_guardian.Reserve.Claims.Started.{IsStarted, claim_execution-claimed}
use server_resource_guardian.Reserve.Finish.{finish_execution}
use server_resource_guardian.Reserve.Histories.{run}
use server_resource_guardian.Reserve.Histories.Blocked.{finish_execution-blocks}

abbrev approval : String → Approval
approval approval_id = record {
  approval_id = approval_id;
  environment = "production";
  target_id = "host-1";
  action = "release_emergency_reserve";
  expires_at = pos 100;
}

abbrev registered : ReserveTables
registered =
    (register_approval healthy (approval "approval-2") (pos 2)
      (register_approval healthy (approval "approval-1") (pos 1) initial).1).1

abbrev granted : ReserveExecutionClaim
granted = record {
  claimed = true;
  state = "EXECUTION_STARTED";
  reason = "reserve_execution_claimed";
}

claim_is_granted :
    (claim_execution healthy "incident-1" (approval "approval-1") "reserve" (pos 5) registered).0
    ≡ ok granted
unfolding claim_execution register_approval within reserve_json reserve_audit dumps find update
    decimal comma_separated Prelude.join
claim_is_granted = refl

abbrev started : ReserveTables
started =
    (claim_execution healthy "incident-1" (approval "approval-1") "reserve" (pos 5) registered).1

claim_execution-claimed_example :
    IsClaimable "incident-1" (approval "approval-1") (pos 5) registered
    × IsStarted "incident-1" (approval "approval-1") "reserve" (pos 5) registered started
claim_execution-claimed_example =
    claim_execution-claimed "incident-1" (approval "approval-1") "reserve" (pos 5) healthy
      registered granted claim_is_granted refl

abbrev unknown : ReserveTables
unknown = (finish_execution healthy "incident-1" "UNKNOWN" end (pos 6) started).1

finish_is_done : (finish_execution healthy "incident-1" "UNKNOWN" end (pos 6) started).0 ≡ ok true
unfolding finish_execution claim_execution register_approval within reserve_json reserve_audit dumps
    find update delete decimal comma_separated Prelude.join
finish_is_done = refl

abbrev occupied : ReserveExecutionClaim
occupied = record { claimed = false; state = "UNKNOWN"; reason = "reserve_active_slot_occupied" }

second_is_refused :
    (claim_execution healthy "incident-2"
      (approval "approval-2")
      "reserve"
      (pos 7)
      (run [] unknown)).0
    ≡ ok occupied
unfolding run finish_execution claim_execution register_approval within reserve_json reserve_audit
    dumps find update delete decimal comma_separated Prelude.join
second_is_refused = refl

abbrev held : ReserveSlot
held = new_slot "incident-1" (approval "approval-1") "reserve" (pos 5)

finish_execution-blocks_example : occupied.claimed ≡ false
unfolding claim_execution register_approval within reserve_json reserve_audit dumps find update
    delete decimal comma_separated Prelude.join
finish_execution-blocks_example =
    finish_execution-blocks healthy healthy "incident-1" "UNKNOWN" "incident-2" "reserve" end
      (approval "approval-2") (pos 6) (pos 7) [] started held occupied refl refl refl finish_is_done
      second_is_refused
