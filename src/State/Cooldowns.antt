-- ===== src/State/Cooldowns.antt =====
-- The durable cooldown ledger of src/guardian_state.py: one row for each host, object and action.
pub mod Sound
pub mod Refinement
use server_resource_guardian.Prelude.{
  ℕ, ◌+◌, String, Bool, true, false, ◌&&◌, Option, none, some, List, [], ◌∷◌, ◌++◌, ◌==◌,
  if◌then◌else◌, length, join, is_some,
}
use server_resource_guardian.Prelude.Int
use server_resource_guardian.Prelude.Int.{ℤ, pos}
use server_resource_guardian.Prelude.Tables.{find, update}
use server_resource_guardian.Result.{Result, ok, err}
use server_resource_guardian.Recovery.Ledger.{recent, is_cooling}
use server_resource_guardian.State.{
  LedgerRow, Tables, Fault, open_failed, statement_failed, Outcome, commit, raise, transaction,
}

-- `WHERE host_id=? AND object_id=? AND action=?`
abbrev pub is_row : (host_id object_id action : String) → LedgerRow → Bool
is_row host_id object_id action r =
    r.host_id == host_id && r.object_id == object_id && r.action == action

-- `max_actions` and the times are at hand: the tests, and the pruned times written back.
allow_times :
    (host_id object_id action : String)
    → (now cooldown_seconds max_actions : ℤ) → Tables
    → Option ℤ
    → List ℤ
    → Outcome (Bool × String)
allow_times host_id object_id action now cooldown_seconds max_actions t last_action_at times =
    if is_cooling last_action_at now cooldown_seconds
    then commit t (false, "cooldown_active")
    else if Int.leb max_actions (pos (length times))
    then commit t (false, "action_limit_reached")
    else commit
        (record t {
          action_ledger =
              update (is_row host_id object_id action)
                (λ r. record r { action_times_json = some times }) t.action_ledger;
        })
        (true, "allowed")

allow_row :
    (host_id object_id action : String)
    → (now cooldown_seconds max_actions window_seconds : ℤ) → Tables
    → Option ℤ
    → Option (List ℤ)
    → Outcome (Bool × String)
unfolding allow_times
allow_row host_id object_id action now cooldown_seconds max_actions window_seconds t last none =
    raise "action_ledger_corrupt"
allow_row host_id object_id action now cooldown_seconds max_actions window_seconds t last
      (some times) =
    allow_times host_id object_id action now cooldown_seconds max_actions t last
      (recent now window_seconds times)

allow_body :
    (host_id object_id action : String)
    → (now cooldown_seconds max_actions window_seconds : ℤ) → Tables
    → Option LedgerRow
    → Outcome (Bool × String)
unfolding allow_row
allow_body host_id object_id action now cooldown_seconds max_actions window_seconds t none =
    commit t (true, "allowed")
allow_body host_id object_id action now cooldown_seconds max_actions window_seconds t (some row) =
    allow_row host_id object_id action now cooldown_seconds max_actions window_seconds t
      row.last_action_at row.action_times_json

unfoldable pub allow_action :
    Fault
    → (host_id object_id action : String) → (now cooldown_seconds max_actions window_seconds : ℤ)
    → Tables
    → Result (Bool × String) × Tables
unfolding allow_body
allow_action fault host_id object_id action now cooldown_seconds max_actions window_seconds t =
    if Int.leb max_actions (pos 0)
    then (ok (false, "action_limit_reached"), t)
    else transaction fault "cooldown_read_failed"
        (λ u.
          allow_body host_id object_id action now cooldown_seconds max_actions window_seconds u
            (find (is_row host_id object_id action) u.action_ledger))
        t

abbrev next_failures : Bool → ℕ → ℕ
next_failures success failures = if success then 0 else failures + 1

-- `INSERT … ON CONFLICT … DO UPDATE`: a new row, or the three columns of the old one.
write_row :
    (host_id object_id action : String) → ℤ → Bool → Tables → Option LedgerRow → Outcome (Unit {0})
write_row host_id object_id action now success t none =
    commit
      (record t {
        action_ledger =
            t.action_ledger
            ++ record {
              host_id = host_id;
              object_id = object_id;
              action = action;
              last_action_at = some now;
              action_times_json = some (now ∷ []);
              consecutive_failures = next_failures success 0;
            }
              ∷ [];
      })
      tt
write_row host_id object_id action now success t (some row) = elim row.action_times_json [
  | none ↦ raise "action_ledger_corrupt"
  | some times ↦
      commit
        (record t {
          action_ledger =
              update (is_row host_id object_id action)
                (λ r. record r {
                  last_action_at = some now;
                  action_times_json = some (times ++ now ∷ []);
                  consecutive_failures = next_failures success row.consecutive_failures;
                })
                t.action_ledger;
        })
        tt
]

unfoldable pub record_action :
    Fault → (host_id object_id action : String) → ℤ → Bool → Tables → Result (Unit {0}) × Tables
unfolding write_row
record_action fault host_id object_id action now success t =
    transaction fault "cooldown_write_failed"
      (λ u.
        write_row host_id object_id action now success u
          (find (is_row host_id object_id action) u.action_ledger))
      t

abbrev breaker : ℤ → Option LedgerRow → Bool
breaker max_consecutive_failures none = false
breaker max_consecutive_failures (some row) =
    Int.leb max_consecutive_failures (pos row.consecutive_failures)

-- A read outside a transaction.
unfoldable pub failure_breaker :
    Fault → (host_id object_id action : String) → ℤ → Tables → Result Bool
failure_breaker (open_failed e) host_id object_id action max_consecutive_failures t =
    err (join "state_store_open_failed:" e)
failure_breaker (statement_failed e) host_id object_id action max_consecutive_failures t =
    err (join "cooldown_read_failed:" e)
failure_breaker _ host_id object_id action max_consecutive_failures t =
    ok (breaker max_consecutive_failures (find (is_row host_id object_id action) t.action_ledger))
