-- ===== src/Outbox/Deliver/Drained.antt =====
-- `drain_pending` of src/guardian_notification_outbox.py on a database that answers: with room for
-- all pending rows it returns, and no row is left without a final status, whatever the sink does.
use server_resource_guardian.Prelude.{
  ℕ, zero, suc, ◌≤◌, String, true, false, ◌≡◌, refl, arith, Option, none, some, List, [], ◌∷◌,
  is_some, All, Option-cases, inl, inr, subst, sym, ap, ◌∙◌,
}
use server_resource_guardian.Prelude.Int.{ℤ, pos}
use server_resource_guardian.Prelude.Tables.{update}
use server_resource_guardian.Prelude.Tables.Order.{first}
use server_resource_guardian.Result.{Result, ok, err, ◌>>=◌}
use server_resource_guardian.Value.{number}
use server_resource_guardian.State.{sound}
use server_resource_guardian.Outbox.{is_active, Notification, Tables, OutboxResult}
use server_resource_guardian.Outbox.Settings.{Settings, bounded_int}
use server_resource_guardian.Outbox.Deliver.{
  Claimed, Turn, Machine, claimable, claim_one, deliver_row, collect, after_claim, drain,
  drain_within, drain_pending, is_waiting,
}
use server_resource_guardian.Outbox.Deliver.Moved.{claim_one-Moves, deliver_row-Moves}
use server_resource_guardian.Outbox.Deliver.Answers.{
  IsDelivered, claim_one_sound, claim_none_sound, deliver_row_sound, marked,
}
use server_resource_guardian.Outbox.Deliver.Counting.{
  waiting, IsResting, IsOnly, waiting-claimed, waiting-finished, waiting-none, claimed_All,
  claimed-IsOnly, finished-IsResting, All-final,
}
use server_resource_guardian.Outbox.Moves.Rows.{IsSane, IsDecodable, Moves-IsSane}

-- The database answers every transaction of the turn.
pub record IsSound (turn : Turn) : Type 0 where
  pub claim : turn.claim_fault ≡ sound
  pub gate : turn.gate_fault ≡ sound
  pub final : turn.final_fault ≡ sound

-- The loop has returned its results, and every row has a final status.
pub record IsSettled (p : Result (List OutboxResult) × Machine) : Type 0 where
  pub answer : (results : List OutboxResult) × (p.0 ≡ ok results)
  pub final : All (λ r. is_active r.status ≡ false) p.1.tables.notification_outbox

-- What the loop needs: the rows can be decoded, none is in flight, and at most `n` are pending.
record IsReady (n : ℕ) (t : Tables) : Type 0 where
  sane : IsSane t
  resting : All IsResting t.notification_outbox
  room : waiting t.notification_outbox ≤ n

settled :
    (t : Tables)
    → IsSane t
    → All IsResting t.notification_outbox
    → waiting t.notification_outbox ≡ 0
    → (m : Machine) → IsSettled (ok [], record m { tables = t })
settled t sane resting w m = record {
  answer = ([], refl);
  final = All-final t.notification_outbox w resting;
}

module _ (sha256 : String → String) (settings : Settings) (now : ℤ) where
  collect-IsSettled :
      (rest : Machine → Result (List OutboxResult) × Machine) (o : Result OutboxResult)
      (v : Machine) (r : OutboxResult)
      → o ≡ ok r
      → IsSettled (rest v)
      → IsSettled (collect sha256 settings now rest (o, v))
  unfolding collect
  collect-IsSettled rest o v r e h = rw e (record {
    answer = (r ∷ h.answer.0, added (rest v).0 h.answer.0 h.answer.1);
    final = h.final;
  })
    where
      added :
          (results : Result (List OutboxResult)) (rs : List OutboxResult)
          → results ≡ ok rs
          → (results >>= λ qs. ok (r ∷ qs)) ≡ ok (r ∷ rs)
      added (ok qs) rs k = cc
      added (err x) rs k = cc

  -- A claimed row and the end of its delivery leave one pending row less, and none in flight.
  delivered-IsReady :
      (n : ℕ) (t u : Tables) (row : Notification) (timestamp : ℤ) (turn : Turn) (c : Claimed)
      (m : Machine)
      → IsReady (suc n) t
      → first (claimable t.notification_outbox) ≡ some row
      → IsSane u
      → u.notification_outbox
        ≡ update (is_waiting row.notification_id) (marked sha256 timestamp) t.notification_outbox
      → c.row.notification_id ≡ row.notification_id
      → IsDelivered c.row.notification_id u.notification_outbox
          (deliver_row sha256 settings now turn c (record m { tables = u }))
      → IsReady n (deliver_row sha256 settings now turn c (record m { tables = u })).1.tables
  delivered-IsReady n t u row timestamp turn c m ready first_row sane claimed id h =
      let (f, final, after) = h.finished in
      record {
        sane =
            Moves-IsSane sha256
              (deliver_row-Moves sha256 settings now turn c (record m { tables = u })) sane;
        resting = subst (All IsResting) (sym after) (
            finished-IsResting c.row.notification_id f final u.notification_outbox (
              subst (All (IsOnly c.row.notification_id)) (sym claimed) (
                subst
                  (λ id. All (IsOnly id) (
                    update (is_waiting row.notification_id) (marked sha256 timestamp)
                      t.notification_outbox))
                  (sym id)
                  (claimed-IsOnly row.notification_id (marked sha256 timestamp) (λ r. refl)
                    t.notification_outbox ready.resting))));
        room = omega (
          arith,
          ready.room,
          ap waiting after,
          ap waiting claimed,
          waiting-finished c.row.notification_id f final u.notification_outbox,
          waiting-claimed t.notification_outbox row first_row (marked sha256 timestamp) (λ r. refl),
        );
      }

  module _ (turns : ℕ → Turn) (answers : (i : ℕ) → IsSound (turns i)) where
    -- The loop goes on from what a claim has answered.
    taken :
        (n : ℕ) (m : Machine) (o : Result (Option Claimed) × Tables)
        → claim_one sha256 sound (turns n).claimed_at m.tables ≡ o
        → IsSettled
            (after_claim sha256 settings now (turns n) (drain sha256 settings now n turns) m o)
        → IsSettled (drain sha256 settings now (suc n) turns m)
    unfolding drain
    taken n m o claims h =
        subst
          (λ p.
            IsSettled
              (after_claim sha256 settings now (turns n) (drain sha256 settings now n turns) m p))
          (sym claims
            ∙ ap (λ f. claim_one sha256 f (turns n).claimed_at m.tables) (sym (answers n).claim))
          h

    drain-IsSettled :
        (n : ℕ) (m : Machine) → IsReady n m.tables → IsSettled (drain sha256 settings now n turns m)
    unfolding drain after_claim
    drain-IsSettled zero m ready =
        settled m.tables ready.sane ready.resting (omega (arith, ready.room)) m
    drain-IsSettled (suc n) m ready =
        elim (Option-cases (first (claimable m.tables.notification_outbox))) [
          | inl none_left ↦
              taken n m (ok none, m.tables)
                (claim_none_sound sha256 (turns n).claimed_at m.tables none_left)
                (settled m.tables ready.sane ready.resting
                  (waiting-none m.tables.notification_outbox none_left) m)
          | inr (row, first_row) ↦
              let (payload, decoded) = some_of row.payload_json (
                claimed_All m.tables.notification_outbox row first_row IsDecodable
                  ready.sane.decodable) in
              let (c, u, claims, id, rows) =
                claim_one_sound sha256 (turns n).claimed_at m.tables row payload first_row
                  decoded in
              let sane = subst IsSane (ap (λ p. p.1) claims) (
                Moves-IsSane sha256 (claim_one-Moves sha256 sound (turns n).claimed_at m.tables)
                  ready.sane) in
              let delivery =
                deliver_row_sound sha256 settings now (turns n) c (answers n).final (answers n).gate
                  (record m { tables = u }) sane.known in
              taken n m (ok (some c), u) claims
                (collect-IsSettled (drain sha256 settings now n turns) _ _ delivery.answer.0
                  delivery.answer.1
                  (drain-IsSettled n _ (
                    delivered-IsReady n m.tables u row (turns n).claimed_at (turns n) c m ready
                      first_row sane rows id delivery)))
        ]
      where
        some_of : {A : Type 0} (o : Option A) → is_some o ≡ true → (a : A) × (o ≡ some a)
        some_of none h = cc
        some_of (some a) h = (a, refl)

    pub drain_pending-IsSettled :
        (n : ℕ) (m : Machine)
        → 1 ≤ n
        → n ≤ 1000
        → IsSane m.tables
        → All IsResting m.tables.notification_outbox
        → waiting m.tables.notification_outbox ≤ n
        → IsSettled (drain_pending sha256 settings now (number (pos n)) turns m)
    unfolding drain_pending drain_within bounded_int
    drain_pending-IsSettled n m least most sane resting room =
        rw (within_bounds n least most)
          (drain-IsSettled n m (record { sane = sane; resting = resting; room = room }))
      where
        within_bounds :
            (k : ℕ)
            → 1 ≤ k
            → k ≤ 1000
            → bounded_int (number (pos k)) (pos 1) (pos 1000) "max_items_out_of_bounds" ≡ ok (pos k)
        within_bounds k low high = ground arith
