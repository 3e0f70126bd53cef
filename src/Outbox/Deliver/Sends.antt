-- ===== src/Outbox/Deliver/Sends.antt =====
-- How often src/guardian_notification_outbox.py calls its sink, and how long it pauses.
use Prim.Native.Nat.{min, ◌^◌}
use server_resource_guardian.Prelude.{
  ℕ, zero, suc, ◌+◌, ◌-◌, ◌*◌, ◌≤◌, String, Bool, true, false, arith, Option, none, some, List, [],
  ◌∷◌, ◌&&◌, length, length-append, All, if-cases,
}
use server_resource_guardian.Prelude.Int
use server_resource_guardian.Prelude.Int.{ℤ, pos, ◌-ℤ◌}
use server_resource_guardian.Prelude.Tables.{All-append}
use server_resource_guardian.Result.{Result, ok, err}
use server_resource_guardian.Value.{Fields, number}
use server_resource_guardian.Outbox.{Status, delivered, dead_letter, Tables, OutboxResult}
use server_resource_guardian.Outbox.Settings.{Settings, rounds, bounded_int}
use server_resource_guardian.Outbox.Deliver.{
  Claimed, Reply, accepted, unavailable, failed, Turn, Machine, Attempted, backoff, send, pause,
  after_send, attempt, gate, claim_one, finish, after_attempts, after_gate, pass_gate, deliver_row,
  collect, after_claim, drain, drain_within, drain_pending, or_sink_error,
}

abbrev IsShort : ℕ → Type 0
IsShort pause_ms = pause_ms ≤ 2000

-- From one machine to a later one: at most `n` more payloads were sent, and every pause is short.
pub record IsBounded (n : ℕ) (m v : Machine) : Type 0 where
  pub sends : length v.sent ≤ length m.sent + n
  pub pauses : All IsShort m.slept → All IsShort v.slept

IsBounded-less : {n k : ℕ} {m v : Machine} → n ≤ k → IsBounded n m v → IsBounded k m v
IsBounded-less le b = record { sends = omega (arith, b.sends, le); pauses = b.pauses }

IsBounded-trans :
    {n k : ℕ} {m v w : Machine} → IsBounded n m v → IsBounded k v w → IsBounded (n + k) m w
IsBounded-trans b c = record {
  sends = omega (arith, b.sends, c.sends);
  pauses = λ h. c.pauses (b.pauses h);
}

nothing_sent : {m : Machine} (t : Tables) → IsBounded 0 m (record m { tables = t })
nothing_sent t = record { sends = omega arith; pauses = λ h. h }

min_below : (a b : ℕ) → min a b ≤ a
min_below a b = omega arith

backoff-IsShort : (n : ℕ) → IsShort (backoff n)
unfolding backoff
backoff-IsShort n = min_below 2000 (250 * 2 ^ (n - 1))

module _ (settings : Settings) where
  pause-IsBounded : (n : ℕ) (m : Machine) → IsBounded 0 m (pause settings n m)
  unfolding pause
  pause-IsBounded n m =
      if-cases (IsBounded 0 m) (Int.ltb (pos n) settings.max_attempts) _ _
        (λ on. record {
          sends = omega arith;
          pauses = λ h. All-append IsShort m.slept (backoff n ∷ []) (h, (backoff-IsShort n, tt));
        })
        (λ off. record { sends = omega arith; pauses = λ h. h })

  send-IsBounded : (payload : Fields) (m : Machine) → IsBounded 1 m (send payload m)
  unfolding send
  send-IsBounded payload m = record {
    sends = omega (arith, length-append m.sent (payload ∷ []));
    pauses = λ h. h;
  }

  after_send-IsBounded :
      (payload : Fields) (n attempts : ℕ) (m : Machine)
      (rest : Option String → Machine → Attempted × Machine) (reply : Reply)
      → ((e : Option String) (v : Machine) → IsBounded n v (rest e v).1)
      → IsBounded (suc n) m (after_send settings payload attempts m rest reply).1
  unfolding after_send
  after_send-IsBounded payload n attempts m rest accepted h =
      IsBounded-less (omega arith) (send-IsBounded payload m)
  after_send-IsBounded payload n attempts m rest unavailable h = IsBounded-less (omega arith) (
      IsBounded-trans (send-IsBounded payload m) (
        IsBounded-trans (pause-IsBounded attempts (send payload m))
          (h (some "sink_unavailable") _)))
  after_send-IsBounded payload n attempts m rest failed h = IsBounded-less (omega arith) (
      IsBounded-trans (send-IsBounded payload m)
        (IsBounded-trans (pause-IsBounded attempts (send payload m)) (h (some "sink_error") _)))

  attempt-IsBounded :
      (sink : ℕ → Fields → Reply) (payload : Fields) (n attempts : ℕ) (e : Option String)
      (m : Machine)
      → IsBounded n m (attempt settings sink payload n attempts e m).1
  unfolding attempt
  attempt-IsBounded sink payload zero attempts e m = record { sends = omega arith; pauses = λ h. h }
  attempt-IsBounded sink payload (suc n) attempts e m =
      after_send-IsBounded payload n (attempts + 1) m
        (λ x. attempt settings sink payload n (attempts + 1) x) (sink (attempts + 1) payload)
        (λ x v. attempt-IsBounded sink payload n (attempts + 1) x v)

times_le : (n a b : ℕ) → a ≤ b → n * a ≤ n * b
times_le zero a b h = omega arith
times_le (suc n) a b h = omega (arith, times_le n a b h)

module _ (sha256 : String → String) (settings : Settings) (now : ℤ) where
  module _ (turn : Turn) (claimed : Claimed) where
    finish-IsBounded :
        (status : Status) (attempts : ℕ) (reason : Option String) (m : Machine)
        → IsBounded 0 m (finish sha256 settings now turn claimed status attempts reason m).1
    unfolding finish
    finish-IsBounded status attempts reason m = nothing_sent _

    after_attempts-IsBounded :
        (a : Attempted) (m : Machine)
        → IsBounded 0 m (after_attempts sha256 settings now turn claimed (a, m)).1
    unfolding after_attempts
    after_attempts-IsBounded a m =
        if-cases (λ (p : Result OutboxResult × Machine). IsBounded 0 m p.1) a.is_delivered _ _
          (λ on. finish-IsBounded delivered a.attempts none m)
          (λ off. finish-IsBounded dead_letter a.attempts (some (or_sink_error a.error_code)) m)

    after_gate-IsBounded :
        (m : Machine) (o : Result Bool)
        → IsBounded
            (rounds settings.max_attempts)
            m
            (after_gate sha256 settings now turn claimed m o).1
    unfolding after_gate
    after_gate-IsBounded m (err e) = record { sends = omega arith; pauses = λ h. h }
    after_gate-IsBounded m (ok false) = IsBounded-less (omega arith) (nothing_sent _)
    after_gate-IsBounded m (ok true) =
        let ended =
          attempt settings turn.sink claimed.payload (rounds settings.max_attempts)
            claimed.row.attempts none m in
        IsBounded-less (omega arith) (
          IsBounded-trans
            (attempt-IsBounded settings turn.sink claimed.payload (rounds settings.max_attempts)
              claimed.row.attempts none m)
            (after_attempts-IsBounded ended.0 ended.1))

    pass_gate-IsBounded :
        (m : Machine) (o : Result Bool × Tables)
        → IsBounded
            (rounds settings.max_attempts)
            m
            (pass_gate sha256 settings now turn claimed m o).1
    unfolding pass_gate
    pass_gate-IsBounded m (allowed, t) = IsBounded-less (omega arith) (
        IsBounded-trans (nothing_sent {m = m} t)
          (after_gate-IsBounded (record m { tables = t }) allowed))

    -- A delivery calls the sink at most `max_attempts` times.
    pub deliver_row-IsBounded :
        (m : Machine)
        → IsBounded
            (rounds settings.max_attempts)
            m
            (deliver_row sha256 settings now turn claimed m).1
    unfolding deliver_row
    deliver_row-IsBounded m =
        if-cases Bounded (Int.ltb now claimed.row.observed_monotonic_ns) _ _
          (λ on.
            IsBounded-less (omega arith)
              (finish-IsBounded dead_letter claimed.row.attempts (some "clock_invalid") m))
          (λ off.
            if-cases Bounded
              (Int.ltb settings.max_age_ns (now -ℤ claimed.row.observed_monotonic_ns)) _ _
              (λ on.
                IsBounded-less (omega arith)
                  (finish-IsBounded dead_letter claimed.row.attempts (some "expired") m))
              (λ off. pass_gate-IsBounded m (gate turn.gate_fault settings now m.tables)))
      where
        Bounded : Result OutboxResult × Machine → Type 0
        Bounded p = IsBounded (rounds settings.max_attempts) m p.1

  module _ (n : ℕ) (rest : Machine → Result (List OutboxResult) × Machine)
      (keep : (v : Machine) → IsBounded n v (rest v).1) where
    collect-IsBounded :
        (o : Result OutboxResult) (v : Machine)
        → IsBounded n v (collect sha256 settings now rest (o, v)).1
    unfolding collect
    collect-IsBounded (err e) v = IsBounded-less (omega arith) (nothing_sent v.tables)
    collect-IsBounded (ok r) v = keep v

    after_claim-IsBounded :
        (turn : Turn) (m : Machine) (o : Result (Option Claimed) × Tables)
        → IsBounded
            (rounds settings.max_attempts + n)
            m
            (after_claim sha256 settings now turn rest m o).1
    unfolding after_claim
    after_claim-IsBounded turn m (err e, t) = IsBounded-less (omega arith) (nothing_sent t)
    after_claim-IsBounded turn m (ok none, t) = IsBounded-less (omega arith) (nothing_sent t)
    after_claim-IsBounded turn m (ok (some c), t) =
        let delivery = deliver_row sha256 settings now turn c (record m { tables = t }) in
        IsBounded-less (omega arith) (
          IsBounded-trans (nothing_sent {m = m} t) (
            IsBounded-trans (deliver_row-IsBounded turn c (record m { tables = t }))
              (collect-IsBounded delivery.0 delivery.1)))

  pub drain-IsBounded :
      (n : ℕ) (turns : ℕ → Turn) (m : Machine)
      → IsBounded (n * rounds settings.max_attempts) m (drain sha256 settings now n turns m).1
  unfolding drain
  drain-IsBounded zero turns m = IsBounded-less (omega arith) (nothing_sent {m = m} m.tables)
  drain-IsBounded (suc n) turns m = IsBounded-less (omega arith) (
      after_claim-IsBounded (n * rounds settings.max_attempts) (drain sha256 settings now n turns)
        (drain-IsBounded n turns) (turns n) m
        (claim_one sha256 (turns n).claim_fault (turns n).claimed_at m.tables))

  pub drain_pending-IsBounded :
      (k n : ℕ) (turns : ℕ → Turn) (m : Machine)
      → rounds settings.max_attempts ≤ k
      → IsBounded (n * k) m (drain_pending sha256 settings now (number (pos n)) turns m).1
  unfolding drain_pending drain_within bounded_int
  drain_pending-IsBounded k n turns m few =
      if-cases
        (λ (o : Result ℤ). IsBounded (n * k) m (drain_within sha256 settings now turns m o).1)
        (Int.leb (pos 1) (pos n) && Int.leb (pos n) (pos 1000)) _ _
        (λ on. IsBounded-less (times_le n _ k few) (drain-IsBounded n turns m))
        (λ off. IsBounded-less (omega arith) (nothing_sent {m = m} m.tables))
