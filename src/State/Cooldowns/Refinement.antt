-- ===== src/State/Cooldowns/Refinement.antt =====
-- The durable cooldown ledger of src/guardian_state.py against the in-memory ledger of
-- src/guardian_recovery.py: on a database that answers, for one host, object and action, every
-- sequence of calls under a clock that does not run backwards gets the same answers.
pub mod Agreement
use server_resource_guardian.Prelude.{
  ℕ, ◌+◌, String, Bool, true, false, ◌≡◌, refl, arith, Option, none, some, List, [], ◌∷◌, ◌++◌,
  ◌==◌, if◌then◌else◌, Bool-cases, ◌⊎◌, inl, inr, length, All, sym, eq_refl, ◌≤◌, ap, ◌∙◌, subst,
  map,
}
use server_resource_guardian.Prelude.Int
use server_resource_guardian.Prelude.Int.{ℤ, pos, ◌-ℤ◌, ◌≤ℤ◌, -ℤ_parts}
use server_resource_guardian.Prelude.Tables.{find, update, find-update, find_test, find-append_none}
use server_resource_guardian.Result.{Result, ok, err, ◌>>=◌}
use server_resource_guardian.Recovery.Ledger
use server_resource_guardian.Recovery.Ledger.{
  CooldownLedger, empty, recent, is_cooling, allow, tripped,
}
use server_resource_guardian.State.{LedgerRow, Tables, initial, sound, settle, transaction}
use server_resource_guardian.State.Cooldowns.{
  is_row, allow_times, allow_row, allow_body, allow_action, next_failures, write_row, record_action,
  breaker, failure_breaker,
}

-- The calls of a controller on a ledger, and their answers.
pub data Call : Type 0 where
  ask : (now : ℤ) → Call
  note : (now : ℤ) (success : Bool) → Call
  check : (now max_consecutive_failures : ℤ) → Call

pub data Answer : Type 0 where
  asked : Bool × String → Answer
  noted : Answer
  checked : Bool → Answer

abbrev pub time_of : Call → ℤ
time_of (ask now) = now
time_of (note now success) = now
time_of (check now max_consecutive_failures) = now

-- The clock does not run backwards.
abbrev pub IsOrdered : ℤ → List Call → Type 0
IsOrdered last [] = Unit
IsOrdered last (c ∷ cs) = (last ≤ℤ time_of c) × IsOrdered (time_of c) cs

-- A check against a positive limit; other calls need nothing.
abbrev pub IsMeaningful : Call → Type 0
IsMeaningful (ask now) = Unit
IsMeaningful (note now success) = Unit
IsMeaningful (check now max_consecutive_failures) = 1 ≤ Int.pos_part max_consecutive_failures

module _ (host_id object_id action : String) (cooldown max_actions window : ℤ) where
  abbrev pub in_memory : Call → CooldownLedger → Answer × CooldownLedger
  in_memory (ask now) l = (
    asked (allow l now cooldown max_actions window).0,
    (allow l now cooldown max_actions window).1,
  )
  in_memory (note now success) l = (noted, Ledger.record_action l now success)
  in_memory (check now failures) l = (checked (tripped l failures), l)

  abbrev pub durable : Call → Tables → Result Answer × Tables
  durable (ask now) t =
      let (r, u) = allow_action sound host_id object_id action now cooldown max_actions window t in
      (r >>= λ a. ok (asked a), u)
  durable (note now success) t =
      let (r, u) = record_action sound host_id object_id action now success t in
      (r >>= λ _. ok noted, u)
  durable (check now failures) t =
      (failure_breaker sound host_id object_id action failures t >>= λ b. ok (checked b), t)

  unfoldable pub run_in_memory : List Call → CooldownLedger → List (Result Answer)
  run_in_memory [] l = []
  run_in_memory (c ∷ cs) l = let (a, k) = in_memory c l in ok a ∷ run_in_memory cs k

  unfoldable pub run_durable : List Call → Tables → List (Result Answer)
  run_durable [] t = []
  run_durable (c ∷ cs) t = let (r, u) = durable c t in r ∷ run_durable cs u
