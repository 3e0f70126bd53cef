-- ===== src/Outbox/Finish/Moved.antt =====
-- The end of a delivery in src/guardian_notification_outbox.py, as a sequence of changes.
use server_resource_guardian.Prelude.{
  ℕ, String, ◌≡◌, refl, Option, none, some, List, [], Bool, subst, if-cases, ◌++◌, ◌∷◌, length,
}
use server_resource_guardian.Prelude.Int
use server_resource_guardian.Prelude.Int.{ℤ, pos}
use server_resource_guardian.Prelude.Tables.{find}
use server_resource_guardian.Result.{ok, >>=-eq-ok, ok-injective}
use server_resource_guardian.Value.{Fields}
use server_resource_guardian.State.{Fault}
use server_resource_guardian.Outbox.{
  Status, pending, in_flight, delivered, dead_letter, status_text, Notification, DedupState, Tables,
  OutboxResult,
}
use server_resource_guardian.Outbox.Settings.{Settings}
use server_resource_guardian.Outbox.Enqueue.{has_key}
use server_resource_guardian.Outbox.Finish.{
  admit, allow_attempt, save_delivered, save_state, note_delivered, mark_body, mark_final,
  limit_body, rate_limited,
}
use server_resource_guardian.Outbox.Moves.{
  Moves, stay, onward, changed, noted, paced, Moves-trans, audit_then-Moves, transaction_keeps,
}

module _ (sha256 : String → String) where
  save_delivered-Moves :
      (row : Notification) (last_observed : ℤ) (severities : Option (List String)) (t u : Tables)
      → save_delivered row last_observed severities t ≡ ok u
      → Moves sha256 t u
  unfolding save_delivered
  save_delivered-Moves row last_observed none t u h = cc
  save_delivered-Moves row last_observed (some severities) t u h =
      subst (Moves sha256 t) (ok-injective h) (onward stay (noted _ _ refl (λ x k. refl)))

  save_state-Moves :
      (row : Notification) (o : Option DedupState) (t u : Tables)
      → save_state row t o ≡ ok u
      → Moves sha256 t u
  unfolding save_state
  save_state-Moves row none t u h =
      save_delivered-Moves row row.observed_monotonic_ns (some []) t u h
  save_state-Moves row (some d) t u h =
      save_delivered-Moves row d.last_observed_monotonic_ns d.delivered_severities_json t u h

  note_delivered-Moves :
      (status : Status) (row : Notification) (t u : Tables)
      → note_delivered status row t ≡ ok u
      → Moves sha256 t u
  unfolding note_delivered
  note_delivered-Moves delivered row t u h =
      save_state-Moves row (find (has_key row.dedup_key) t.notification_dedup_state) t u h
  note_delivered-Moves pending row t u h = subst (Moves sha256 t) (ok-injective h) stay
  note_delivered-Moves in_flight row t u h = subst (Moves sha256 t) (ok-injective h) stay
  note_delivered-Moves dead_letter row t u h = subst (Moves sha256 t) (ok-injective h) stay

  admit-Moves :
      (settings : Settings) (now : ℤ) (t : Tables) (attempts : List ℤ)
      → Moves sha256 t (admit settings now t attempts).1
  unfolding admit
  admit-Moves settings now t attempts =
      if-cases (λ (p : Bool × Tables). Moves sha256 t p.1)
        (Int.leb settings.rate_limit_count (pos (length attempts))) _ _
        (λ on. onward stay (paced attempts)) (λ off. onward stay (paced (attempts ++ now ∷ [])))

  pub allow_attempt-Moves :
      (settings : Settings) (now : ℤ) (t : Tables) → Moves sha256 t (allow_attempt settings now t).1
  unfolding allow_attempt
  allow_attempt-Moves settings now t = admit-Moves settings now t _

  module _ (fault : Fault) (timestamp : ℤ) (row : Notification) (payload : Fields) where
    mark_body-Moves :
        (status : Status) (attempts : ℕ) (reason : Option String) (t u : Tables) (a : OutboxResult)
        → mark_body sha256 fault timestamp row payload status attempts reason t ≡ ok (a, u)
        → Moves sha256 t u
    unfolding mark_body
    mark_body-Moves status attempts reason t u a h =
        let (v, saved, rest) = >>=-eq-ok (note_delivered status row _) _ h in
        Moves-trans sha256
          (Moves-trans sha256 (onward stay (changed _ _ (λ r. (refl, refl, refl))))
            (note_delivered-Moves status row _ v saved))
          (audit_then-Moves sha256 fault payload (status_text status) attempts reason timestamp _ a
            v u rest)

    pub mark_final-Moves :
        (status : Status) (attempts : ℕ) (reason : Option String) (t : Tables)
        → Moves sha256 t (mark_final sha256 fault timestamp row payload status attempts reason t).1
    unfolding mark_final
    mark_final-Moves status attempts reason t =
        transaction_keeps (Moves sha256 t) fault "outbox_finalize_failed"
          (mark_body sha256 fault timestamp row payload status attempts reason) t stay
          (λ a u h. mark_body-Moves status attempts reason t u a h)

    limit_body-Moves :
        (t u : Tables) (a : OutboxResult)
        → limit_body sha256 fault timestamp row payload t ≡ ok (a, u)
        → Moves sha256 t u
    unfolding limit_body
    limit_body-Moves t u a h =
        Moves-trans sha256 (onward stay (changed _ _ (λ r. (refl, refl, refl)))) (
          audit_then-Moves sha256 fault payload "DEAD_LETTER" row.attempts (some "rate_limited")
            timestamp _ a _ u h)

    pub rate_limited-Moves :
        (t : Tables) → Moves sha256 t (rate_limited sha256 fault timestamp row payload t).1
    unfolding rate_limited
    rate_limited-Moves t =
        transaction_keeps (Moves sha256 t) fault "rate_limit_finalize_failed"
          (limit_body sha256 fault timestamp row payload) t stay (λ a u h. limit_body-Moves t u a h)
