-- ===== src/Tests/Cooldowns.antt =====
-- Tests for the durable cooldown ledger of src/guardian_state.py against the one in memory.
use server_resource_guardian.Prelude.{◌≡◌, refl, true, false, List, [], ◌∷◌, arith}
use server_resource_guardian.Prelude.Int.{pos}
use server_resource_guardian.Recovery.Ledger.{empty}
use server_resource_guardian.State.{initial}
use server_resource_guardian.State.Cooldowns.Refinement.{
  Call, ask, note, check, run_durable, run_in_memory,
}
use server_resource_guardian.State.Cooldowns.Refinement.Agreement.{run_durable-run_in_memory}

-- An action at 10, a question at 12 while it cools down, a failure at 20 and the breaker at 30.
abbrev ledger_calls : List Call
ledger_calls =
    ask (pos 10)
    ∷ note (pos 10) true
    ∷ ask (pos 12)
    ∷ note (pos 20) false
    ∷ check (pos 30) (pos 1)
    ∷ []

run_durable-run_in_memory_example :
    run_durable "host-1" "object-1" "stop" (pos 5) (pos 3) (pos 60) ledger_calls initial
    ≡ run_in_memory "host-1" "object-1" "stop" (pos 5) (pos 3) (pos 60) ledger_calls empty
run_durable-run_in_memory_example =
    run_durable-run_in_memory "host-1" "object-1" "stop" (pos 5) (pos 3) (pos 60) refl ledger_calls
      (pos 0) (omega arith, (omega arith, (omega arith, (omega arith, (omega arith, tt)))))
      (tt, (tt, (tt, (tt, (omega arith, tt)))))
