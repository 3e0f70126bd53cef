-- ===== src/State/Cooldowns/Sound.antt =====
-- The ledger methods of src/guardian_state.py as steps: they write the ledger and nothing else.
use server_resource_guardian.Prelude.{
  String, ◌≡◌, inl, inr, Bool, Option, none, some, List, arith, Bool-cases,
}
use server_resource_guardian.Prelude.Int
use server_resource_guardian.Prelude.Int.{ℤ, pos}
use server_resource_guardian.State.{LedgerRow, Tables, Fault, commit}
use server_resource_guardian.State.Cooldowns.{
  allow_times, allow_row, allow_body, allow_action, write_row, record_action,
}
use server_resource_guardian.State.Steps.{ledger_written, Steps, here, transaction-Steps}

-- Only the ledger differs.
abbrev OnlyLedger : Tables → Tables → Type 0
OnlyLedger t u = u ≡ record t { action_ledger = u.action_ledger }

module _ (host_id object_id action : String) (now cooldown_seconds max_actions window_seconds : ℤ)
    (t u : Tables) (b : Bool × String) where
  allow_times-OnlyLedger :
      (last : Option ℤ) (times : List ℤ)
      → allow_times host_id object_id action now cooldown_seconds max_actions t last times
        ≡ commit u b
      → OnlyLedger t u
  unfolding allow_times
  allow_times-OnlyLedger last times h = ground arith

  allow_row-OnlyLedger :
      (last : Option ℤ) (times : Option (List ℤ))
      → allow_row host_id object_id action now cooldown_seconds max_actions window_seconds t last
          times
        ≡ commit u b
      → OnlyLedger t u
  unfolding allow_row
  allow_row-OnlyLedger last none h = cc
  allow_row-OnlyLedger last (some times) h = allow_times-OnlyLedger last _ h

  allow_body-OnlyLedger :
      (o : Option LedgerRow)
      → allow_body host_id object_id action now cooldown_seconds max_actions window_seconds t o
        ≡ commit u b
      → OnlyLedger t u
  unfolding allow_body
  allow_body-OnlyLedger none h = ground arith
  allow_body-OnlyLedger (some row) h =
      allow_row-OnlyLedger row.last_action_at row.action_times_json h

pub allow_action-Steps :
    (fault : Fault) (host_id object_id action : String)
    (now cooldown_seconds max_actions window_seconds : ℤ) (t : Tables)
    → Steps t
        (allow_action fault host_id object_id action now cooldown_seconds max_actions window_seconds
          t).1
unfolding allow_action
allow_action-Steps fault host_id object_id action now cooldown_seconds max_actions window_seconds
      t =
    elim (Bool-cases (Int.leb max_actions (pos 0))) [
      | inl closed ↦ rw (closed, allow_action) here
      | inr positive ↦
          rw (positive, allow_action)
            (transaction-Steps fault "cooldown_read_failed" _ t (λ u b e. inr (
              ledger_written u.action_ledger (
                allow_body-OnlyLedger host_id object_id action now cooldown_seconds max_actions
                  window_seconds t u b _ e))))
    ]

write_row-OnlyLedger :
    (host_id object_id action : String) (now : ℤ) (success : Bool) (t u : Tables)
    (o : Option LedgerRow)
    → write_row host_id object_id action now success t o ≡ commit u tt
    → OnlyLedger t u
unfolding write_row
write_row-OnlyLedger host_id object_id action now success t u none h = ground arith
write_row-OnlyLedger host_id object_id action now success t u (some row) h = ground arith

pub record_action-Steps :
    (fault : Fault) (host_id object_id action : String) (now : ℤ) (success : Bool) (t : Tables)
    → Steps t (record_action fault host_id object_id action now success t).1
unfolding record_action
record_action-Steps fault host_id object_id action now success t =
    transaction-Steps fault "cooldown_write_failed" _ t (λ u x e. inr (
      ledger_written u.action_ledger
        (write_row-OnlyLedger host_id object_id action now success t u _ e)))
