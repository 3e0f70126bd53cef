-- ===== src/State/Cooldowns/Refinement/Agreement.antt =====
-- The proof that the durable cooldown ledger of src/guardian_state.py answers as the in-memory ledger
-- of src/guardian_recovery.py does.
use server_resource_guardian.Prelude.{
  String, Bool, true, false, ◌≡◌, refl, arith, Option, none, some, List, [], ◌∷◌, ◌++◌,
  if◌then◌else◌, Bool-cases, ◌⊎◌, inl, inr, length, All, sym, eq_refl, ◌≤◌, ap, ◌∙◌, subst,
}
use server_resource_guardian.Prelude.Int
use server_resource_guardian.Prelude.Int.{ℤ, pos, ◌-ℤ◌, ◌≤ℤ◌, -ℤ_parts}
use server_resource_guardian.Prelude.Tables.{find, update, find-update, find_test, find-append_none}
use server_resource_guardian.Result.{Result, ok}
use server_resource_guardian.Recovery.Ledger
use server_resource_guardian.Recovery.Ledger.{
  CooldownLedger, empty, recent, is_cooling, allow, tripped,
}
use server_resource_guardian.State.{LedgerRow, Tables, initial, settle, transaction}
use server_resource_guardian.State.Cooldowns.{
  is_row, allow_times, allow_row, allow_body, allow_action, next_failures, write_row, record_action,
  failure_breaker,
}
use server_resource_guardian.State.Cooldowns.Refinement.{
  Call, ask, note, check, Answer, checked, time_of, IsOrdered, IsMeaningful, in_memory, durable,
  run_in_memory, run_durable,
}

recent-append :
    (now window : ℤ) (xs ys : List ℤ)
    → recent now window (xs ++ ys) ≡ recent now window xs ++ recent now window ys
unfolding recent
recent-append now window [] ys = refl
recent-append now window (x ∷ xs) ys = ground (arith, recent-append now window xs ys)

-- Times that are dropped once stay dropped.
recent-recent :
    (now later window : ℤ) (xs : List ℤ)
    → now ≤ℤ later
    → recent later window (recent now window xs) ≡ recent later window xs
unfolding recent
recent-recent now later window [] h = refl
recent-recent now later window (x ∷ xs) h =
    ground (arith, -ℤ_parts now x, -ℤ_parts later x, recent-recent now later window xs h)

module _ (host_id object_id action : String) (cooldown max_actions window : ℤ) where
  abbrev ledger_step : Call → CooldownLedger → Answer × CooldownLedger
  ledger_step c l = in_memory host_id object_id action cooldown max_actions window c l

  abbrev store_step : Call → Tables → Result Answer × Tables
  store_step c t = durable host_id object_id action cooldown max_actions window c t

  abbrev ledger_run : List Call → CooldownLedger → List (Result Answer)
  ledger_run cs l = run_in_memory host_id object_id action cooldown max_actions window cs l

  abbrev store_run : List Call → Tables → List (Result Answer)
  store_run cs t = run_durable host_id object_id action cooldown max_actions window cs t

  -- The row stands for the ledger, from an instant on.
  data Stands (now : ℤ) (l : CooldownLedger) : Option LedgerRow → Type 0 where
    no_row :
        l.last_action_at ≡ none
        → l.consecutive_failures ≡ 0
        → ((later : ℤ) → now ≤ℤ later → recent later window l.action_times ≡ [])
        → Stands now l none
    a_row :
        (r : LedgerRow) (times : List ℤ)
        → r.last_action_at ≡ l.last_action_at
        → r.consecutive_failures ≡ l.consecutive_failures
        → r.action_times_json ≡ some times
        → ((later : ℤ)
            → now ≤ℤ later
            → recent later window times ≡ recent later window l.action_times)
        → Stands now l (some r)

  abbrev stored : Tables → Option LedgerRow
  stored t = find (is_row host_id object_id action) t.action_ledger

  -- A changed row is found in place of the old one.
  stored-update :
      (f : LedgerRow → LedgerRow) (t : Tables) (r : LedgerRow)
      → ((x : LedgerRow)
          → is_row host_id object_id action (f x) ≡ is_row host_id object_id action x)
      → stored t ≡ some r
      → stored
          (record t { action_ledger = update (is_row host_id object_id action) f t.action_ledger })
        ≡ some (f r)
  stored-update f t r keeps h =
      find-update (is_row host_id object_id action) (is_row host_id object_id action) f keeps
        t.action_ledger
      ∙ rw (h, find_test (is_row host_id object_id action) t.action_ledger r h) refl

  -- One call on the two ledgers: the same answer, and the row stands for the ledger again.
  record Agrees (now : ℤ) (a : Answer × CooldownLedger) (p : Result Answer × Tables) : Type 0 where
    answer : p.0 ≡ ok a.0
    stands : Stands now a.1 (stored p.1)

  later-Stands :
      (now later : ℤ) (l : CooldownLedger) (o : Option LedgerRow)
      → now ≤ℤ later
      → Stands now l o
      → Stands later l o
  later-Stands now later l _ h (no_row a b c) = no_row a b (λ t k. c t (omega (arith, h, k)))
  later-Stands now later l _ h (a_row r times a b c d) =
      a_row r times a b c (λ t k. d t (omega (arith, h, k)))

  -- The answer of both ledgers, given the last action and the times inside the window.
  abbrev verdict : ℤ → Option ℤ → List ℤ → Bool × String
  verdict now last times =
      if is_cooling last now cooldown
      then (false, "cooldown_active")
      else if Int.leb max_actions (pos (length times))
      then (false, "action_limit_reached")
      else (true, "allowed")

  allow-verdict :
      (now : ℤ) (l : CooldownLedger)
      → allow l now cooldown max_actions window ≡ (
        verdict now l.last_action_at (recent now window l.action_times),
        record l { action_times = recent now window l.action_times },
      )
  unfolding allow
  allow-verdict now l = elim (Bool-cases (is_cooling l.last_action_at now cooldown)) [
    | inl on ↦ rw on refl
    | inr off ↦
        elim (Bool-cases (Int.leb max_actions (pos (length (recent now window l.action_times))))) [
          | inl full ↦ rw (off, full) refl
          | inr room ↦ rw (off, room) refl
        ]
  ]

  abbrev pruned : Tables → List ℤ → Tables
  pruned t times = record t {
    action_ledger =
        update (is_row host_id object_id action) (λ r. record r { action_times_json = some times })
          t.action_ledger;
  }

  allow_times-verdict :
      (now : ℤ) (t : Tables) (last : Option ℤ) (times : List ℤ)
      → (u : Tables) × (settle
            (allow_times host_id object_id action now cooldown max_actions t last times)
            t
          ≡ (ok (verdict now last times), u))
        × ((u ≡ t) ⊎ (u ≡ pruned t times))
  unfolding allow_times settle
  allow_times-verdict now t last times = elim (Bool-cases (is_cooling last now cooldown)) [
    | inl on ↦ (t, rw on refl, inl refl)
    | inr off ↦ elim (Bool-cases (Int.leb max_actions (pos (length times)))) [
      | inl full ↦ (t, rw (off, full) refl, inl refl)
      | inr room ↦ (pruned t times, rw (off, room) refl, inr refl)
    ]
  ]

  -- After a question, whether the pruned times were written back or not.
  asked-Stands :
      (now : ℤ) (l : CooldownLedger) (t u : Tables) (r : LedgerRow) (kept : List ℤ)
      → stored t ≡ some r
      → r.last_action_at ≡ l.last_action_at
      → r.consecutive_failures ≡ l.consecutive_failures
      → r.action_times_json ≡ some kept
      → ((later : ℤ) → now ≤ℤ later → recent later window kept ≡ recent later window l.action_times)
      → (u ≡ t) ⊎ (u ≡ pruned t (recent now window kept))
      → Stands now (record l { action_times = recent now window l.action_times }) (stored u)
  asked-Stands now l t u r kept h last failures json times (inl same) =
      subst (Stands now (record l { action_times = recent now window l.action_times }))
        (sym (ap stored same ∙ h))
        (a_row r kept last failures json
          (λ later k. times later k ∙ sym (recent-recent now later window l.action_times k)))
  asked-Stands now l t u r kept h last failures json times (inr written) =
      subst (Stands now (record l { action_times = recent now window l.action_times }))
        (sym (
          ap stored written
          ∙ stored-update (λ x. record x { action_times_json = some (recent now window kept) }) t r
              (λ x. refl) h))
        (a_row (record r { action_times_json = some (recent now window kept) })
          (recent now window kept) last failures refl
          (λ later k.
            recent-recent now later window kept k
            ∙ times later k
            ∙ sym (recent-recent now later window l.action_times k)))

  module _ (positive : Int.leb max_actions (pos 0) ≡ false) where
    ask-Agrees :
        (now : ℤ) (l : CooldownLedger) (t : Tables) (o : Option LedgerRow)
        → stored t ≡ o
        → Stands now l o
        → Agrees now (ledger_step (ask now) l) (store_step (ask now) t)
    unfolding allow_action transaction allow_body allow_row settle is_cooling recent
    ask-Agrees now l t none h (no_row last failures times) =
        rw (allow-verdict now l, times now (omega arith), last, positive, h)
          (record { answer = refl; stands = rw h (no_row refl failures (λ later k. refl)) })
    ask-Agrees now l t (some r) h (a_row _ kept last failures json times) =
        let same = times now (omega arith) in
        let (u, answered, after) =
          allow_times-verdict now t r.last_action_at (recent now window kept) in
        rw (allow-verdict now l, positive, h, json, answered)
          (record {
            answer = rw (last, same) refl;
            stands = asked-Stands now l t u r kept h last failures json times after;
          })

    note-Agrees :
        (now : ℤ) (success : Bool) (l : CooldownLedger) (t : Tables) (o : Option LedgerRow)
        → stored t ≡ o
        → Stands now l o
        → Agrees now (ledger_step (note now success) l) (store_step (note now success) t)
    unfolding record_action transaction write_row settle Ledger.record_action
    note-Agrees now success l t none h (no_row last failures times) = rw h (record {
      answer = refl;
      stands =
          rw
            (
              find-append_none (is_row host_id object_id action) t.action_ledger _ h,
              eq_refl host_id,
              eq_refl object_id,
              eq_refl action,
            )
            (a_row _ (now ∷ []) refl (ap (λ n. next_failures success n) (sym failures)) refl
              (λ later k. sym (
                recent-append later window l.action_times (now ∷ [])
                ∙ ap (λ ts. ts ++ recent later window (now ∷ [])) (times later k))));
    })
    note-Agrees now success l t (some r) h (a_row _ kept last failures json times) =
        rw (h, json)
          (record {
            answer = refl;
            stands = subst (Stands now _) (sym (stored-update _ t r (λ x. refl) h)) (
                a_row _ (kept ++ now ∷ []) refl (ap (λ n. next_failures success n) failures) refl
                  (λ later k.
                    recent-append later window kept (now ∷ [])
                    ∙ ap (λ ts. ts ++ recent later window (now ∷ [])) (times later k)
                    ∙ sym (recent-append later window l.action_times (now ∷ []))));
          })

    check-Agrees :
        (now failures : ℤ) (l : CooldownLedger) (t : Tables) (o : Option LedgerRow)
        → stored t ≡ o
        → 1 ≤ Int.pos_part failures
        → Stands now l o
        → Agrees now (ledger_step (check now failures) l) (store_step (check now failures) t)
    unfolding failure_breaker tripped
    check-Agrees now failures l t none h some_failures (no_row last none_failed times) =
        rw h (record {
          answer = ap (λ b. ok (checked b)) (quiet failures some_failures);
          stands = rw h (no_row last none_failed times);
        })
      where
        quiet : (n : ℤ) → 1 ≤ Int.pos_part n → false ≡ Int.leb n (pos l.consecutive_failures)
        quiet n k = ground (arith, none_failed)
    check-Agrees now failures l t (some r) h some_failures (a_row _ kept last same json times) =
        rw h (record {
          answer = ap (λ n. ok (checked (Int.leb failures (pos n)))) same;
          stands = rw h (a_row r kept last same json times);
        })

    call-Agrees :
        (c : Call) (last : ℤ) (l : CooldownLedger) (t : Tables)
        → last ≤ℤ time_of c
        → IsMeaningful c
        → Stands last l (stored t)
        → Agrees (time_of c) (ledger_step c l) (store_step c t)
    call-Agrees (ask now) last l t h m s =
        ask-Agrees now l t (stored t) refl (later-Stands last now l (stored t) h s)
    call-Agrees (note now success) last l t h m s =
        note-Agrees now success l t (stored t) refl (later-Stands last now l (stored t) h s)
    call-Agrees (check now failures) last l t h m s =
        check-Agrees now failures l t (stored t) refl m (later-Stands last now l (stored t) h s)

    -- From a row that stands for the ledger.
    run_agrees :
        (calls : List Call) (last : ℤ) (l : CooldownLedger) (t : Tables)
        → IsOrdered last calls
        → All IsMeaningful calls
        → Stands last l (stored t)
        → store_run calls t ≡ ledger_run calls l
    unfolding run_durable run_in_memory
    run_agrees [] last l t h m s = refl
    run_agrees (c ∷ cs) last l t h m s =
        let g = call-Agrees c last l t h.0 m.0 s in
        ap (λ r. r ∷ store_run cs (store_step c t).1) g.answer
        ∙ ap (λ rs. ok (ledger_step c l).0 ∷ rs)
            (run_agrees cs (time_of c) (ledger_step c l).1 (store_step c t).1 h.1 m.1 g.stands)

    -- The durable ledger on a new database answers every sequence of questions, records and checks of
    -- one host, object and action as a new in-memory ledger does, if the database answers, the clock
    -- does not run backwards, the action limit is positive and every check has a positive limit.
    pub run_durable-run_in_memory :
        (calls : List Call) (start : ℤ)
        → IsOrdered start calls
        → All IsMeaningful calls
        → store_run calls initial ≡ ledger_run calls empty
    unfolding find recent
    run_durable-run_in_memory calls start h m =
        run_agrees calls start empty initial h m (no_row refl refl (λ later k. refl))
