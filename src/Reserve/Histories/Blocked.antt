-- ===== src/Reserve/Histories/Blocked.antt =====
-- The reserve slot of src/guardian_reserve_state.py after an execution whose effect is not known.
use mathlib.Core.Option.{some-injective}
use server_resource_guardian.Prelude.{
  ◌≡◌, refl, sym, ◌∙◌, subst, inl, inr, String, true, false, some, List, [], ◌∷◌, arith, if-cases,
  apart, eq_iff, Bool-cases, ◌&&◌, ◌==◌,
}
use server_resource_guardian.Prelude.Int.{ℤ}
use server_resource_guardian.Prelude.Tables.{find, find-update, find-delete, find_test}
use server_resource_guardian.Result.{ok}
use server_resource_guardian.Value.{Fields}
use server_resource_guardian.Reserve.{
  ReserveExecutionClaim, ReserveIncident, ReserveSlot, ReserveTables, Trouble,
}
use server_resource_guardian.Reserve.Approvals.{Approval}
use server_resource_guardian.Reserve.Approvals.Facts.{Recorded, register_approval_keeps}
use server_resource_guardian.Reserve.Claims.{has_incident, is_slot, claim_execution}
use server_resource_guardian.Reserve.Claims.Facts.{claim_execution_keeps, claim_execution-written}
use server_resource_guardian.Reserve.Finish.{
  is_started, finish_row, finish_incidents, finish_slots, is_slot_of, mark_slot, keeps_slot,
  finish_execution,
}
use server_resource_guardian.Reserve.Finish.Facts.{
  IsFinished, finish_execution_keeps, finish_execution-true,
}
use server_resource_guardian.Reserve.Histories.{ReserveCall, register, claim, finish, perform, run}

-- The slot is held by an incident that is no longer running.
pub record IsBlocked (t : ReserveTables) : Type 0 where
  pub slot : ReserveSlot
  pub row : ReserveIncident
  pub held : find is_slot t.slots ≡ some slot
  pub recorded : find (has_incident slot.incident_id) t.incidents ≡ some row
  pub over : is_started row ≡ false

-- A running incident is another one than the incident that blocks.
other_incident :
    (incidents : List ReserveIncident) (id incident_id : String) (over row : ReserveIncident)
    → find (has_incident id) incidents ≡ some over
    → is_started over ≡ false
    → find (has_incident incident_id) incidents ≡ some row
    → is_started row ≡ true
    → (id == incident_id) ≡ false
other_incident incidents id incident_id over row f stopped e started =
    elim (Bool-cases (id == incident_id)) [
      | inr other ↦ other
      | inl same ↦
          let found = rw ((eq_iff id incident_id).0 same) at f in
          let rows = some-injective over row (sym found ∙ e) in
          let wrong = subst (λ (x : ReserveIncident). is_started x ≡ false) rows stopped in
          cc started
    ]

-- The blocking incident is left as it is.
incident_kept :
    (incidents : List ReserveIncident) (id incident_id state result_json : String) (now : ℤ)
    (over : ReserveIncident)
    → find (has_incident id) incidents ≡ some over
    → is_started over ≡ false
    → find (has_incident id) (finish_incidents incident_id state now result_json incidents)
      ≡ some over
incident_kept incidents id incident_id state result_json now over f stopped =
    rw
      (
        find-update (has_incident id) (λ i. has_incident incident_id i && is_started i)
            (finish_row state now result_json) (λ x. refl) incidents,
        f,
      )
      (ground (arith, stopped))

-- The slot of another incident is left as it is.
slot_kept :
    (slots : List ReserveSlot) (slot : ReserveSlot) (incident_id state : String) (now : ℤ)
    → find is_slot slots ≡ some slot
    → (slot.incident_id == incident_id) ≡ false
    → find is_slot (finish_slots incident_id state now slots) ≡ some slot
unfolding finish_slots
slot_kept slots slot incident_id state now f other =
    if-cases (λ rows. find is_slot rows ≡ some slot) (keeps_slot state) _ _
      (λ _.
        rw (find-update is_slot (is_slot_of incident_id) (mark_slot state now) (λ x. refl) slots, f)
          (ground (arith, other)))
      (λ _. find-delete is_slot (is_slot_of incident_id) slots slot f (ground (arith, other)))

finish-IsBlocked :
    (incident_id state : String) (now : ℤ) (t u : ReserveTables)
    → IsFinished incident_id state now t u
    → IsBlocked t
    → IsBlocked u
finish-IsBlocked incident_id state now t u (row, e, started, text, rows, wrote) b =
    let other =
      other_incident t.incidents b.slot.incident_id incident_id b.row row b.recorded b.over e
        started in
    record {
      slot = b.slot;
      row = b.row;
      held = rw wrote (slot_kept t.slots b.slot incident_id state now b.held other);
      recorded = rw wrote (
          incident_kept t.incidents b.slot.incident_id incident_id state text now b.row b.recorded
            b.over);
      over = b.over;
    }

Recorded-IsBlocked : (t u : ReserveTables) → Recorded t u → IsBlocked t → IsBlocked u
Recorded-IsBlocked t u (capabilities, audits, wrote) b = record {
  slot = b.slot;
  row = b.row;
  held = rw wrote b.held;
  recorded = rw wrote b.recorded;
  over = b.over;
}

perform-IsBlocked : (c : ReserveCall) (t : ReserveTables) → IsBlocked t → IsBlocked (perform c t)
unfolding perform
perform-IsBlocked (register trouble a now) t b =
    register_approval_keeps IsBlocked trouble a now t b (λ u r. Recorded-IsBlocked t u r b)
perform-IsBlocked (claim trouble incident_id a target now) t b =
    claim_execution_keeps IsBlocked trouble incident_id a target now t b
      (λ u claimable written. let free = claimable.free_slot in let held = b.held in cc)
perform-IsBlocked (finish trouble incident_id state result now) t b =
    finish_execution_keeps IsBlocked trouble incident_id state result now t b
      (λ u finished. finish-IsBlocked incident_id state now t u finished b)

run-IsBlocked :
    (calls : List ReserveCall) (t : ReserveTables) → IsBlocked t → IsBlocked (run calls t)
unfolding run
run-IsBlocked [] t b = b
run-IsBlocked (c ∷ cs) t b = run-IsBlocked cs (perform c t) (perform-IsBlocked c t b)

-- While the slot is blocked, no claim succeeds.
claim-IsBlocked :
    (trouble : Trouble) (incident_id : String) (a : Approval) (target : String) (now : ℤ)
    (t : ReserveTables) (r : ReserveExecutionClaim)
    → IsBlocked t
    → (claim_execution trouble incident_id a target now t).0 ≡ ok r
    → r.claimed ≡ false
claim-IsBlocked trouble incident_id a target now t r b e = elim (Bool-cases r.claimed) [
  | inr refused ↦ refused
  | inl claimed ↦
      let free =
        (claim_execution-written trouble incident_id a target now t r e claimed).0.free_slot in
      let held = b.held in cc
]

terminal_is_over :
    (state : String) → keeps_slot state ≡ true → (state == "EXECUTION_STARTED") ≡ false
terminal_is_over state h = ground (
  arith,
  eq_iff state "UNKNOWN",
  eq_iff state "EXECUTED_UNVERIFIED",
  apart "UNKNOWN" "EXECUTION_STARTED" refl,
  apart "EXECUTED_UNVERIFIED" "EXECUTION_STARTED" refl,
  eq_iff state "EXECUTION_STARTED",
)

-- The incident of the slot ends in a state that keeps the slot.
finished-IsBlocked :
    (incident_id state : String) (now : ℤ) (t u : ReserveTables) (slot : ReserveSlot)
    → keeps_slot state ≡ true
    → find is_slot t.slots ≡ some slot
    → slot.incident_id ≡ incident_id
    → IsFinished incident_id state now t u
    → IsBlocked u
unfolding finish_slots
finished-IsBlocked incident_id state now t u slot keeps held same
      (row, e, started, text, rows, wrote) =
    let here = find_test is_slot t.slots slot held in
    let mine = find_test (has_incident incident_id) t.incidents row e in
    record {
      slot = mark_slot state now slot;
      row = finish_row state now text row;
      held =
          rw
            (
              wrote,
              keeps,
              find-update is_slot (is_slot_of incident_id) (mark_slot state now) (λ x. refl)
                  t.slots,
              held,
            )
            (ground (arith, eq_iff slot.incident_id incident_id));
      recorded =
          rw
            (
              wrote,
              same,
              find-update (has_incident incident_id)
                  (λ i. has_incident incident_id i && is_started i) (finish_row state now text)
                  (λ x. refl) t.incidents,
              e,
            )
            (ground (arith));
      over = terminal_is_over state keeps;
    }

-- A finish that leaves the effect unknown (`UNKNOWN`) or unverified (`EXECUTED_UNVERIFIED`) blocks the
-- reserve for good: when the incident that holds the slot ends so, no later claim succeeds, whatever
-- calls lie between, with whatever faults, and whatever the claim's own approval, incident and time.
pub finish_execution-blocks :
    (trouble trouble' : Trouble) (incident_id state incident_id' target : String) (result : Fields)
    (a : Approval) (now now' : ℤ) (calls : List ReserveCall) (t : ReserveTables)
    (slot : ReserveSlot) (r : ReserveExecutionClaim)
    → keeps_slot state ≡ true
    → find is_slot t.slots ≡ some slot
    → slot.incident_id ≡ incident_id
    → (finish_execution trouble incident_id state result now t).0 ≡ ok true
    → (claim_execution trouble' incident_id' a target now'
        (run calls (finish_execution trouble incident_id state result now t).1)).0
      ≡ ok r
    → r.claimed ≡ false
finish_execution-blocks trouble trouble' incident_id state incident_id' target result a now now'
      calls t slot r keeps held same done e =
    let after = (finish_execution trouble incident_id state result now t).1 in
    let blocked =
      finished-IsBlocked incident_id state now t after slot keeps held same
        (finish_execution-true trouble incident_id state result now t done) in
    claim-IsBlocked trouble' incident_id' a target now' (run calls after) r
      (run-IsBlocked calls after blocked) e
