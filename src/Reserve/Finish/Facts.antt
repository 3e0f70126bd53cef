-- ===== src/Reserve/Finish/Facts.antt =====
-- What `finish_execution` of src/guardian_reserve_state.py writes when it commits.
use server_resource_guardian.Prelude.{
  ◌≡◌, refl, inl, inr, if-cases, not, one_of, String, Bool, true, false, Option, some, none, List,
  arith,
}
use server_resource_guardian.Prelude.Int.{ℤ}
use server_resource_guardian.Result.{Result, ok, err}
use server_resource_guardian.Value.{Fields, object}
use server_resource_guardian.Prelude.Tables.{find}
use server_resource_guardian.Reserve.Claims.{has_incident}
use server_resource_guardian.Reserve.{
  Ending, within, ReserveIncident, ReserveAudit, ReserveTables, Trouble, committed, rolled_back,
  wrote, then_commit, reserve_json,
}
use server_resource_guardian.Reserve.Sound.{
  within_keeps, within-ok, reserve_audit-wrote, then_commit-committed, then_commit-rolled_back,
}
use server_resource_guardian.Reserve.Finish.{
  is_started, finish_rows, finish_text, finish_body, finish_execution, terminal_states,
}

finish_text-wrote :
    (trouble : Trouble) (incident_id state : String) (result : Fields) (now : ℤ)
    (t u : ReserveTables) (row : ReserveIncident) (r : Result String)
    → finish_text trouble incident_id state result now t row r ≡ wrote u
    → (text : String) × (rows : List ReserveAudit) × (u
        ≡ record (finish_rows incident_id state now text t) { audits = rows })
unfolding finish_text
finish_text-wrote trouble incident_id state result now t u row (err e) h = cc
finish_text-wrote trouble incident_id state result now t u row (ok text) h =
    let (rows, e) = reserve_audit-wrote trouble "reserve_execution_finished" _ _ _ now _ u h in
    (text, rows, e)

finish_body-passed :
    (trouble : Trouble) (incident_id state : String) (result : Fields) (now : ℤ)
    (t u : ReserveTables) (row : ReserveIncident) (b : Bool)
    → finish_body trouble incident_id state result now t (some row) ≡ committed u b
    → (is_started row ≡ true)
      × (then_commit true
            (finish_text trouble incident_id state result now t row (reserve_json (object result)))
          ≡ committed u b)
unfolding finish_body
finish_body-passed trouble incident_id state result now t u row b h = ground arith

pub finish_body-committed :
    (trouble : Trouble) (incident_id state : String) (result : Fields) (now : ℤ)
    (t u : ReserveTables) (o : Option ReserveIncident) (b : Bool)
    → finish_body trouble incident_id state result now t o ≡ committed u b
    → (row : ReserveIncident) × (o ≡ some row)
      × (is_started row ≡ true)
      × (text : String) × (rows : List ReserveAudit) × (u
          ≡ record (finish_rows incident_id state now text t) { audits = rows })
unfolding finish_body
finish_body-committed trouble incident_id state result now t u none b h = cc
finish_body-committed trouble incident_id state result now t u (some row) b h =
    let (started, go) = finish_body-passed trouble incident_id state result now t u row b h in
    let (text, rows, e) =
      finish_text-wrote trouble incident_id state result now t u row _
        (then_commit-committed _ true b u go).0 in
    (row, refl, started, text, rows, e)

-- A call that rolls back returns `False`.
pub finish_body-rolled_back :
    (trouble : Trouble) (incident_id state : String) (result : Fields) (now : ℤ) (t : ReserveTables)
    (o : Option ReserveIncident) (b : Bool)
    → finish_body trouble incident_id state result now t o ≡ rolled_back b
    → b ≡ false
unfolding finish_body
finish_body-rolled_back trouble incident_id state result now t none b h = ground arith
finish_body-rolled_back trouble incident_id state result now t (some row) b h = ground (
  arith,
  then_commit-rolled_back
      (finish_text trouble incident_id state result now t row (reserve_json (object result))) true
      b,
)

-- What a call that returns `True` has found and written.
abbrev pub IsFinished : String → String → ℤ → ReserveTables → ReserveTables → Type 0
IsFinished incident_id state now t u =
    (row : ReserveIncident) × (find (has_incident incident_id) t.incidents ≡ some row)
    × (is_started row ≡ true)
    × (text : String) × (rows : List ReserveAudit) × (u
        ≡ record (finish_rows incident_id state now text t) { audits = rows })

pub finish_execution_keeps :
    (P : ReserveTables → Type 0) (trouble : Trouble) (incident_id state : String) (result : Fields)
    (now : ℤ) (t : ReserveTables)
    → P t
    → ((u : ReserveTables) → IsFinished incident_id state now t u → P u)
    → P (finish_execution trouble incident_id state result now t).1
unfolding finish_execution
finish_execution_keeps P trouble incident_id state result now t h k =
    if-cases (λ (m : Result Bool × ReserveTables). P m.1) (not (one_of state terminal_states)) _ _
      (λ _. h)
      (λ _.
        within_keeps P trouble "reserve_execution_finish_failed" _ t h
          (λ u b e. k u (finish_body-committed trouble incident_id state result now t u _ b e)))

-- An execution is finished only while it is running.
pub finish_execution-true :
    (trouble : Trouble) (incident_id state : String) (result : Fields) (now : ℤ) (t : ReserveTables)
    → (finish_execution trouble incident_id state result now t).0 ≡ ok true
    → IsFinished incident_id state now t (finish_execution trouble incident_id state result now t).1
unfolding finish_execution
finish_execution-true trouble incident_id state result now t =
    if-cases
      (λ (m : Result Bool × ReserveTables). m.0 ≡ ok true → IsFinished incident_id state now t m.1)
      (not (one_of state terminal_states)) _ _ (λ _ e. cc e) (λ _ e. finished e)
  where
    body : ReserveTables → Ending Bool
    body u =
        finish_body trouble incident_id state result now u
          (find (has_incident incident_id) u.incidents)

    finished :
        (within trouble "reserve_execution_finish_failed" body t).0 ≡ ok true
        → IsFinished incident_id state now t
            (within trouble "reserve_execution_finish_failed" body t).1
    finished e = elim (within-ok trouble "reserve_execution_finish_failed" body t true e) [
      | inl done ↦ finish_body-committed trouble incident_id state result now t _ _ true done
      | inr back ↦
          let no =
            finish_body-rolled_back trouble incident_id state result now t
              (find (has_incident incident_id) t.incidents) true back in
          cc no
    ]
