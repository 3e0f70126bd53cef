-- ===== src/Outbox/Guarantees.antt =====
-- What src/guardian_notification_outbox.py promises its callers, over whole calls.
use server_resource_guardian.Prelude.{
  ℕ, ◌*◌, ◌≤◌, String, true, ◌&&◌, ◌≡◌, refl, arith, some, [], ◌==◌, eq_refl, All, subst, sym, ap,
  ◌∙◌,
}
use server_resource_guardian.Prelude.Int
use server_resource_guardian.Prelude.Int.{ℤ, pos, negsuc}
use server_resource_guardian.Prelude.Tables.{find, find-append_none}
use server_resource_guardian.Result.{ok, ◌>>=◌, >>=-eq-ok, ok-injective}
use server_resource_guardian.Value.{Value, number, text, object, Fields}
use server_resource_guardian.State.{Fault, sound}
use server_resource_guardian.Outbox.{Notification, Tables, OutboxResult, get}
use server_resource_guardian.Outbox.Settings.{
  Settings, rounds, bounded_int, duration_to_ns, make_settings,
}
use server_resource_guardian.Outbox.Enqueue.{incoming, enqueue, has_id, queued_row}
use server_resource_guardian.Outbox.Enqueue.Queued.{IsRowOf, queued_row-IsRowOf}
use server_resource_guardian.Outbox.Enqueue.Answers.{enqueue-IsReturned}
use server_resource_guardian.Outbox.Deliver.{Turn, Machine, drain_pending}
use server_resource_guardian.Outbox.Deliver.Counting.{waiting, IsResting}
use server_resource_guardian.Outbox.Deliver.Drained.{IsSound, IsSettled, drain_pending-IsSettled}
use server_resource_guardian.Outbox.Deliver.Sends.{IsBounded, drain_pending-IsBounded}
use server_resource_guardian.Outbox.Requeue.{open_outbox}
use server_resource_guardian.Outbox.Requeue.Moved.{open_outbox-Moves}
use server_resource_guardian.Outbox.Requeue.Restart.{reconcile_in_flight_sound}
use server_resource_guardian.Outbox.Reading.{read, get_notification, decoded}
use server_resource_guardian.Outbox.Histories.{History, History-IsSane}
use server_resource_guardian.Outbox.Moves.Rows.{Moves-IsSane}

module _ (sha256 : String → String) (settings : Settings) where
  -- The outbox is opened again and drained once.
  pub record IsRecovered (t : Tables) (timestamp now : ℤ) (n : ℕ) (turns : ℕ → Turn) : Type 0 where
    pub opened : (open_outbox sha256 sound timestamp (ok settings) t).0 ≡ ok settings
    pub drained : IsSettled (
        drain_pending sha256 settings now (number (pos n)) turns (record {
          tables = (open_outbox sha256 sound timestamp (ok settings) t).1;
          sent = [];
          slept = [];
        }))
    pub resting :
        All IsResting (open_outbox sha256 sound timestamp (ok settings) t).1.notification_outbox
    pub pending :
        waiting (open_outbox sha256 sound timestamp (ok settings) t).1.notification_outbox
        ≤ waiting t.notification_outbox

  -- After any history, if the database answers from then on: the constructor of the outbox
  -- returns, it leaves no row in flight and no more rows pending than there were, and a drain with
  -- room for the pending rows, between 1 and 1000, returns its results and leaves every row
  -- DELIVERED or DEAD_LETTER, whatever the sink does.
  pub restart_settles :
      (t : Tables) (timestamp now : ℤ) (n : ℕ) (turns : ℕ → Turn)
      → History sha256 t
      → ((i : ℕ) → IsSound (turns i))
      → 1 ≤ n
      → n ≤ 1000
      → waiting t.notification_outbox ≤ n
      → IsRecovered t timestamp now n turns
  unfolding open_outbox
  restart_settles t timestamp now n turns h answers least most room =
      let sane = History-IsSane sha256 h in
      let (u, reconciled, done) = reconcile_in_flight_sound sha256 timestamp t sane.decodable in
      let same = ap (λ p. p.1) reconciled in
      record {
        opened = ap (λ p. p.0 >>= λ _. ok settings) reconciled;
        drained =
            drain_pending-IsSettled sha256 settings now turns answers n _ least most
              (Moves-IsSane sha256 (open_outbox-Moves sha256 sound timestamp (ok settings) t) sane)
              (subst (λ (w : Tables). All IsResting w.notification_outbox) (sym same) done.resting)
              (omega (
                arith,
                done.pending,
                room,
                ap (λ (w : Tables). waiting w.notification_outbox) same,
              ));
        resting =
            subst (λ (w : Tables). All IsResting w.notification_outbox) (sym same) done.resting;
        pending =
            subst (λ (w : Tables). waiting w.notification_outbox ≤ waiting t.notification_outbox)
              (sym same) done.pending;
      }

  -- If `enqueue` returns `queued` for a payload with this notification id, then `get_notification`
  -- under the id, on a database that answers, finds a row and the payload as it was given; the row
  -- has the ids, the dedup key, the severity and the instant of the payload, and is PENDING without
  -- attempts and without an error.
  pub get_notification-enqueue :
      (fault : Fault) (timestamp now : ℤ) (failure id : String) (payload : Fields) (t u : Tables)
      (a : OutboxResult)
      → get "notification_id" payload ≡ text id
      → enqueue sha256 settings fault timestamp now (object payload) t ≡ (ok a, u)
      → (a.status == "queued") ≡ true
      → (row : Notification) × IsRowOf payload timestamp row
        × (get_notification sound failure id u ≡ ok (some (row, object payload)))
  unfolding get_notification decoded read queued_row
  get_notification-enqueue fault timestamp now failure id payload t u a named h queued =
      let returned =
        enqueue-IsReturned sha256 settings fault timestamp now (object payload) t u a h in
      let (state, severities, admissible, rows) = returned.committed.queued queued in
      let row = queued_row sha256 settings fault timestamp payload (incoming payload) in
      let is_row =
        queued_row-IsRowOf sha256 settings fault timestamp now payload (returned.valid queued) in
      let found =
        ap (find (has_id (incoming payload).notification_id)) rows
        ∙ find-append_none (has_id (incoming payload).notification_id) t.notification_outbox row
            admissible.fresh_id in
      let same : (incoming payload).notification_id ≡ id = cc (is_row.notification_id, named) in
      (
        row,
        is_row,
        subst (λ i. get_notification sound failure i u ≡ ok (some (row, object payload))) same
            (rw (found, eq_refl (incoming payload).notification_id) refl),
      )

bounded_int_within :
    (value : Value) (low high n : ℤ) (error : String)
    → bounded_int value low high error ≡ ok n
    → (Int.leb low n && Int.leb n high) ≡ true
unfolding bounded_int
bounded_int_within value low high n error h = ground arith

-- The settings that the constructor accepts make at most five attempts.
made_attempts :
    (a b c d e f : Value) (settings : Settings)
    → make_settings a b c d e f ≡ ok settings
    → rounds settings.max_attempts ≤ 5
unfolding make_settings
made_attempts a b c d e f settings h =
    let (attempts, bounded, h1) =
      >>=-eq-ok (bounded_int a (pos 1) (pos 5) "max_attempts_out_of_bounds") _ h in
    let (age, h2, h3) = >>=-eq-ok (duration_to_ns b "notification_window_must_be_positive") _ h1 in
    let (count, h4, h5) =
      >>=-eq-ok (bounded_int c (pos 1) (pos 100) "rate_limit_count_out_of_bounds") _ h3 in
    let (window, h6, h7) =
      >>=-eq-ok (duration_to_ns d "notification_window_must_be_positive") _ h5 in
    let (capacity, h8, h9) =
      >>=-eq-ok (bounded_int e (pos 1) (pos 100000) "max_pending_out_of_bounds") _ h7 in
    let (bytes, h10, h11) =
      >>=-eq-ok (bounded_int f (pos 1024) (pos 16777216) "max_payload_bytes_out_of_bounds") _ h9 in
    subst (λ (s : Settings). rounds s.max_attempts ≤ 5) (ok-injective h11)
      (small attempts (bounded_int_within a (pos 1) (pos 5) attempts _ bounded))
  where
    small : (n : ℤ) → (Int.leb (pos 1) n && Int.leb n (pos 5)) ≡ true → rounds n ≤ 5
    small (pos n) k = ground arith
    small (negsuc n) k = omega arith

-- Under settings that the constructor accepts, a drain of `n` items calls the sink at most five
-- times for each, whatever the faults and the answers of the sink, and adds no pause longer than
-- two seconds.
pub drain_pending_sends :
    (sha256 : String → String) (a b c d e f : Value) (settings : Settings) (now : ℤ) (n : ℕ)
    (turns : ℕ → Turn) (m : Machine)
    → make_settings a b c d e f ≡ ok settings
    → IsBounded (n * 5) m (drain_pending sha256 settings now (number (pos n)) turns m).1
drain_pending_sends sha256 a b c d e f settings now n turns m made =
    drain_pending-IsBounded sha256 settings now 5 n turns m
      (made_attempts a b c d e f settings made)
