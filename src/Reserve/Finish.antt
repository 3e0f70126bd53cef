-- ===== src/Reserve/Finish.antt =====
-- `finish_execution` of src/guardian_reserve_state.py.
pub mod Facts
use server_resource_guardian.Prelude.{
  String, Bool, true, false, not, ◌&&◌, ◌||◌, Option, none, some, List, [], ◌∷◌, ◌==◌, ◌++◌,
  if◌then◌else◌, one_of,
}
use server_resource_guardian.Prelude.Int.{ℤ}
use server_resource_guardian.Prelude.Tables.{find, update, delete}
use server_resource_guardian.Result.{Result, ok, err}
use server_resource_guardian.Value.{text, object, Fields, field, end}
use server_resource_guardian.Reserve.{
  ReserveIncident, ReserveSlot, ReserveTables, Trouble, Ending, rolled_back, Writing, too_large,
  within, reserve_json, reserve_audit, then_commit,
}
use server_resource_guardian.Reserve.Claims.{has_incident, is_slot}

abbrev pub terminal_states : List String
terminal_states = "RELEASED" ∷ "FAILED" ∷ "UNKNOWN" ∷ "EXECUTED_UNVERIFIED" ∷ []

abbrev pub is_started : ReserveIncident → Bool
is_started i = i.state == "EXECUTION_STARTED"

abbrev pub finish_row : String → ℤ → String → ReserveIncident → ReserveIncident
finish_row state now result_json i = record i {
  state = state;
  updated_at = now;
  result_json = some result_json;
}

-- `WHERE slot_key=? AND incident_id=?`
abbrev pub is_slot_of : String → ReserveSlot → Bool
is_slot_of incident_id s = is_slot s && s.incident_id == incident_id

abbrev pub mark_slot : String → ℤ → ReserveSlot → ReserveSlot
mark_slot state now s = record s { state = state; updated_at = now }

-- The two states that keep the slot.
abbrev pub keeps_slot : String → Bool
keeps_slot state = one_of state ("UNKNOWN" ∷ "EXECUTED_UNVERIFIED" ∷ [])

unfoldable pub finish_slots : String → String → ℤ → List ReserveSlot → List ReserveSlot
finish_slots incident_id state now slots =
    if keeps_slot state
    then update (is_slot_of incident_id) (mark_slot state now) slots
    else delete (is_slot_of incident_id) slots

abbrev pub finish_incidents :
    String → String → ℤ → String → List ReserveIncident → List ReserveIncident
finish_incidents incident_id state now result_json =
    update (λ i. has_incident incident_id i && is_started i) (finish_row state now result_json)

abbrev pub finish_rows : String → String → ℤ → String → ReserveTables → ReserveTables
finish_rows incident_id state now result_json t = record t {
  incidents = finish_incidents incident_id state now result_json t.incidents;
  slots = finish_slots incident_id state now t.slots;
}

pub finish_text :
    Trouble
    → String
    → String
    → Fields
    → ℤ
    → ReserveTables
    → ReserveIncident
    → Result String
    → Writing
finish_text trouble incident_id state result now t row (err e) = too_large e
finish_text trouble incident_id state result now t row (ok result_json) =
    reserve_audit trouble "reserve_execution_finished" (some incident_id) (some row.approval_id)
      (object (field "state" (text state) (field "result" (object result) end))) now
      (finish_rows incident_id state now result_json t)

pub finish_body :
    Trouble → String → String → Fields → ℤ → ReserveTables → Option ReserveIncident → Ending Bool
unfolding finish_text finish_slots
finish_body trouble incident_id state result now t none = rolled_back false
finish_body trouble incident_id state result now t (some row) =
    if not (is_started row)
    then rolled_back false
    else then_commit true
        (finish_text trouble incident_id state result now t row (reserve_json (object result)))

unfoldable pub finish_execution :
    Trouble → String → String → Fields → ℤ → ReserveTables → Result Bool × ReserveTables
unfolding finish_body
finish_execution trouble incident_id state result now t =
    if not (one_of state terminal_states)
    then (err "reserve_execution_terminal_state_invalid", t)
    else within trouble "reserve_execution_finish_failed"
        (λ u.
          finish_body trouble incident_id state result now u
            (find (has_incident incident_id) u.incidents))
        t
