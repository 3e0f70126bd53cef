-- ===== src/Outbox/Finish/Answers.antt =====
-- The end of a delivery in src/guardian_notification_outbox.py on a database that answers: the
-- transaction returns, and the claimed rows have the final status.
use server_resource_guardian.Prelude.{
  ℕ, String, false, true, ◌≡◌, refl, Option, none, some, List, [], is_some, All, ◌∙◌, Bool, length,
  if-cases,
}
use server_resource_guardian.Prelude.Int
use server_resource_guardian.Prelude.Int.{ℤ, pos}
use server_resource_guardian.Prelude.Tables.{find, update}
use server_resource_guardian.Prelude.Tables.Pairs.{find-All}
use server_resource_guardian.Result.{ok}
use server_resource_guardian.Value.{Fields}
use server_resource_guardian.State.{sound}
use server_resource_guardian.Outbox.{
  Status, pending, in_flight, delivered, dead_letter, status_text, is_active, Notification,
  DedupState, Tables, OutboxResult, settle, transaction, result,
}
use server_resource_guardian.Outbox.Settings.{Settings}
use server_resource_guardian.Outbox.Audit.Facts.{append_audit_sound}
use server_resource_guardian.Outbox.Enqueue.{has_key}
use server_resource_guardian.Outbox.Finish.{
  is_claimed, admit, allow_attempt, save_delivered, save_state, note_delivered, mark_body,
  mark_final, final_status, limit_body, rate_limited,
}

abbrev pub IsKnown : DedupState → Type 0
IsKnown d = is_some d.delivered_severities_json ≡ true

-- The claimed rows with the id have been given a final status, and no other row has changed.
abbrev pub IsFinished : String → List Notification → List Notification → Type 0
IsFinished id rows after =
    (f : Notification → Notification) × ((r : Notification) → is_active (f r).status ≡ false)
    × (after ≡ update (is_claimed id) f rows)

save_delivered_sound :
    (row : Notification) (last_observed : ℤ) (o : Option (List String)) (t : Tables)
    → is_some o ≡ true
    → (u : Tables) × (save_delivered row last_observed o t ≡ ok u)
      × (u.notification_outbox ≡ t.notification_outbox)
unfolding save_delivered
save_delivered_sound row last_observed none t h = cc
save_delivered_sound row last_observed (some severities) t h = (_, refl, refl)

save_state_sound :
    (row : Notification) (o : Option DedupState) (t : Tables)
    → ((d : DedupState) → o ≡ some d → IsKnown d)
    → (u : Tables) × (save_state row t o ≡ ok u) × (u.notification_outbox ≡ t.notification_outbox)
unfolding save_state
save_state_sound row none t h = save_delivered_sound row row.observed_monotonic_ns (some []) t refl
save_state_sound row (some d) t h =
    save_delivered_sound row d.last_observed_monotonic_ns d.delivered_severities_json t (h d refl)

note_delivered_sound :
    (status : Status) (row : Notification) (t : Tables)
    → All IsKnown t.notification_dedup_state
    → (u : Tables) × (note_delivered status row t ≡ ok u)
      × (u.notification_outbox ≡ t.notification_outbox)
unfolding note_delivered
note_delivered_sound delivered row t h =
    save_state_sound row (find (has_key row.dedup_key) t.notification_dedup_state) t
      (λ d e. find-All IsKnown (has_key row.dedup_key) t.notification_dedup_state d h e)
note_delivered_sound pending row t h = (t, refl, refl)
note_delivered_sound in_flight row t h = (t, refl, refl)
note_delivered_sound dead_letter row t h = (t, refl, refl)

module _ (sha256 : String → String) (timestamp : ℤ) (row : Notification) (payload : Fields) where
  abbrev finished : Status → ℕ → Option String → Notification → Notification
  finished status attempts reason r = record r {
    status = status;
    attempts = attempts;
    last_error = reason;
    updated_at = timestamp;
  }

  abbrev limited : Notification → Notification
  limited r = record r {
    status = dead_letter;
    last_error = some "rate_limited";
    updated_at = timestamp;
  }

  pub mark_final_sound :
      (status : Status) (attempts : ℕ) (reason : Option String) (t : Tables)
      → is_active status ≡ false
      → All IsKnown t.notification_dedup_state
      → (r : OutboxResult) × (u : Tables) × (mark_final sha256 sound timestamp row payload status
            attempts reason t
          ≡ (ok r, u))
        × IsFinished row.notification_id t.notification_outbox u.notification_outbox
  unfolding mark_final mark_body transaction settle
  mark_final_sound status attempts reason t final known =
      let (u, noted, kept) =
        note_delivered_sound status row
          (record t {
            notification_outbox =
                update (is_claimed row.notification_id) (finished status attempts reason)
                  t.notification_outbox;
          })
          known in
      let (v, appended, same) =
        append_audit_sound sha256 payload (status_text status) attempts reason timestamp u in
      (
        result payload (final_status status) attempts reason (some status),
        v,
        rw (noted, appended) refl,
        (finished status attempts reason, (λ r. final), same ∙ kept),
      )

  pub rate_limited_sound :
      (t : Tables)
      → (r : OutboxResult) × (u : Tables) × (rate_limited sha256 sound timestamp row payload t
          ≡ (ok r, u))
        × IsFinished row.notification_id t.notification_outbox u.notification_outbox
  unfolding rate_limited limit_body transaction settle
  rate_limited_sound t =
      let (v, appended, same) =
        append_audit_sound sha256 payload "DEAD_LETTER" row.attempts (some "rate_limited") timestamp
          (record t {
            notification_outbox =
                update (is_claimed row.notification_id) limited t.notification_outbox;
          }) in
      (
        result payload "rate_limited" 0 (some "rate_limited") (some dead_letter),
        v,
        rw appended refl,
        (limited, (λ r. refl), same),
      )

-- The gate changes the instants of the attempts alone.
pub allow_attempt_keeps :
    (settings : Settings) (now : ℤ) (t : Tables)
    → ((allow_attempt settings now t).1.notification_outbox ≡ t.notification_outbox)
      × ((allow_attempt settings now t).1.notification_dedup_state ≡ t.notification_dedup_state)
unfolding allow_attempt admit
allow_attempt_keeps settings now t = admit_keeps _
  where
    admit_keeps :
        (attempts : List ℤ)
        → ((admit settings now t attempts).1.notification_outbox ≡ t.notification_outbox)
          × ((admit settings now t attempts).1.notification_dedup_state
              ≡ t.notification_dedup_state)
    admit_keeps attempts =
        if-cases
          (λ (p : Bool × Tables).
            (p.1.notification_outbox ≡ t.notification_outbox)
            × (p.1.notification_dedup_state ≡ t.notification_dedup_state))
          (Int.leb settings.rate_limit_count (pos (length attempts))) _ _ (λ on. (refl, refl))
          (λ off. (refl, refl))
