-- ===== src/Recovery/Ledger/Pacing.antt =====
-- The rate limit of `CooldownLedger` in src/guardian_recovery.py, over every history of its calls.
use server_resource_guardian.Prelude.{
  ℕ, ◌+◌, ◌≡◌, refl, Bool, true, false, Option, none, some, List, [], ◌∷◌, ◌++◌, arith, length, ◌∙◌,
  subst,
}
use server_resource_guardian.Prelude.Int.{ℤ, pos, ◌-ℤ◌, ◌≤ℤ◌, -ℤ_parts}
use server_resource_guardian.Recovery.Ledger.{
  CooldownLedger, empty, recent, is_cooling, allow, record_action,
}

-- The most recent entry of a log that has its newest entry first.
abbrev newest : List ℤ → Option ℤ
newest [] = none
newest (t ∷ _) = some t

module _ (cooldown max_actions window : ℤ) where
  -- How many entries lie inside the window that ends at `now`.
  abbrev pub in_window : ℤ → List ℤ → ℕ
  in_window now times = length (recent now window times)

  -- The calls on one ledger under a clock that does not run backwards: the ledger, the time of the
  -- last call, and the times at which an action was recorded, newest first. An action is recorded
  -- only after `allow` said yes at that time.
  pub data History : CooldownLedger → ℤ → List ℤ → Type 0 where
    start : (now : ℤ) → History empty now []
    checked :
        {ledger : CooldownLedger} {last : ℤ} {log : List ℤ} (now : ℤ)
        → History ledger last log
        → last ≤ℤ now
        → History (allow ledger now cooldown max_actions window).1 now log
    performed :
        {ledger : CooldownLedger} {last : ℤ} {log : List ℤ} (now : ℤ) (success : Bool)
        → History ledger last log
        → last ≤ℤ now
        → (allow ledger now cooldown max_actions window).0.0 ≡ true
        → History
            (record_action (allow ledger now cooldown max_actions window).1 now success)
            now
            (now ∷ log)

  abbrev IsSpaced : ℤ → Option ℤ → Type 0
  IsSpaced now none = Unit
  IsSpaced now (some before) = cooldown ≤ℤ now -ℤ before

  -- Every action came at least the cooldown after the one before it, and the window that ends with
  -- it holds at most the allowed number of actions.
  abbrev pub IsPaced : List ℤ → Type 0
  IsPaced [] = Unit
  IsPaced (now ∷ log) =
      (pos (in_window now (now ∷ log)) ≤ℤ max_actions) × IsSpaced now (newest log) × IsPaced log

  in_window-recent :
      (now later : ℤ) (times : List ℤ)
      → now ≤ℤ later
      → in_window later (recent now window times) ≡ in_window later times
  unfolding recent
  in_window-recent now later [] h = refl
  in_window-recent now later (t ∷ ts) h =
      ground (arith, -ℤ_parts now t, -ℤ_parts later t, in_window-recent now later ts h)

  in_window-append :
      (now t : ℤ) (times : List ℤ) → in_window now (times ++ t ∷ []) ≡ in_window now (t ∷ times)
  unfolding recent
  in_window-append now t [] = refl
  in_window-append now t (s ∷ ts) = ground (arith, in_window-append now t ts)

  record Follows (ledger : CooldownLedger) (last : ℤ) (log : List ℤ) : Type 0 where
    counts : (now : ℤ) → last ≤ℤ now → in_window now ledger.action_times ≡ in_window now log
    latest : ledger.last_action_at ≡ newest log
    paced : IsPaced log

  spaced : (last : Option ℤ) (now : ℤ) → is_cooling last now cooldown ≡ false → IsSpaced now last
  unfolding is_cooling
  spaced none now h = tt
  spaced (some last) now h = ground arith

  module _ (ledger : CooldownLedger) (now : ℤ) where
    allow-action_times :
        (allow ledger now cooldown max_actions window).1.action_times
        ≡ recent now window ledger.action_times
    unfolding allow
    allow-action_times = ground arith

    allow-last_action_at :
        (allow ledger now cooldown max_actions window).1.last_action_at ≡ ledger.last_action_at
    unfolding allow
    allow-last_action_at = ground arith

    -- What a positive answer says of the pruned times and of the last action.
    allow_grants :
        (allow ledger now cooldown max_actions window).0.0 ≡ true
        → (pos (in_window now ledger.action_times + 1) ≤ℤ max_actions)
          × IsSpaced now ledger.last_action_at
    unfolding allow
    allow_grants granted = ground (arith, spaced ledger.last_action_at now)

  allow-Follows :
      {ledger : CooldownLedger} {last : ℤ} {log : List ℤ} (now : ℤ)
      → last ≤ℤ now
      → Follows ledger last log
      → Follows (allow ledger now cooldown max_actions window).1 now log
  allow-Follows {ledger} {last} {log} now h f = record {
    counts = λ later k.
        rw (allow-action_times ledger now)
          (in_window-recent now later ledger.action_times k ∙ f.counts later (omega arith));
    latest = allow-last_action_at ledger now ∙ f.latest;
    paced = f.paced;
  }

  record_action-Follows :
      {ledger : CooldownLedger} {last : ℤ} {log : List ℤ} (now : ℤ) (success : Bool)
      → last ≤ℤ now
      → Follows ledger last log
      → (allow ledger now cooldown max_actions window).0.0 ≡ true
      → Follows
          (record_action (allow ledger now cooldown max_actions window).1 now success)
          now
          (now ∷ log)
  unfolding record_action recent
  record_action-Follows {ledger} {last} {log} now success h f granted =
      let g = allow-Follows now h f in
      let (room, spaced) = allow_grants ledger now granted in
      record {
        counts = λ later k. in_window-append later now _ ∙ ground (arith, g.counts later k);
        latest = refl;
        paced = (ground (arith, f.counts now h), subst (IsSpaced now) f.latest spaced, f.paced);
      }

  History-Follows :
      {ledger : CooldownLedger} {last : ℤ} {log : List ℤ}
      → History ledger last log
      → Follows ledger last log
  History-Follows (start now) = record { counts = λ later k. refl; latest = refl; paced = tt }
  History-Follows (checked now h k) = allow-Follows now k (History-Follows h)
  History-Follows (performed now success h k ok) =
      record_action-Follows now success k (History-Follows h) ok

  -- In every history of one ledger under a clock that does not run backwards, the recorded actions
  -- are at least the cooldown apart, and no window that ends with an action holds more than the
  -- allowed number of them, although `allow` forgets the times that it prunes.
  pub History-IsPaced :
      {ledger : CooldownLedger} {last : ℤ} {log : List ℤ} → History ledger last log → IsPaced log
  History-IsPaced h = (History-Follows h).paced
