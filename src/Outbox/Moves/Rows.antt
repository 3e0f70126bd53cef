-- ===== src/Outbox/Moves/Rows.antt =====
-- The rows of src/guardian_notification_outbox.py under every change of the tables: the ids stay
-- unique, and what is stored can be decoded.
use server_resource_guardian.Prelude.{
  String, Bool, true, false, ◌≡◌, ◌≢◌, subst, sym, arith, List, [], ◌∷◌, eq_iff, is_some, All,
  if◌then◌else◌, if-cases,
}
use server_resource_guardian.Prelude.Tables.{find, All-append}
use server_resource_guardian.Prelude.Tables.Pairs.{
  Pairwise, All-update, Pairwise-append, Pairwise-update, find-none,
}
use server_resource_guardian.Outbox.{Notification, DedupState, Tables}
use server_resource_guardian.Outbox.Enqueue.{has_id, has_event, has_key, upsert}
use server_resource_guardian.Outbox.Finish.Answers.{IsKnown}
use server_resource_guardian.Outbox.Moves.{
  Move, audited, inserted, changed, noted, paced, Moves, Moves_keeps, IsKept,
}

-- Two rows that differ in their id and in their event.
abbrev pub IsApart : Notification → Notification → Type 0
IsApart r s = (r.notification_id ≢ s.notification_id) × (r.event_id ≢ s.event_id)

abbrev pub IsDecodable : Notification → Type 0
IsDecodable r = is_some r.payload_json ≡ true

pub record IsSane (t : Tables) : Type 0 where
  pub unique : Pairwise IsApart t.notification_outbox
  pub decodable : All IsDecodable t.notification_outbox
  pub known : All IsKnown t.notification_dedup_state

pub All-upsert {κ} :
    (P : DedupState → Type κ) (d : DedupState) (change : DedupState → DedupState)
    (rows : List DedupState)
    → P d
    → ((x : DedupState) → P x → P (change x))
    → All P rows
    → All P (upsert d change rows)
unfolding upsert
All-upsert P d change rows p keep h =
    if-cases (All P) (is_some (find (has_key d.dedup_key) rows)) _ _
      (λ on.
        All-update P (has_key d.dedup_key) change
          (λ x q. if-cases P (has_key d.dedup_key x) _ _ (λ _. keep x q) (λ _. q)) rows h)
      (λ off. All-append P rows (d ∷ []) (h, (p, tt)))

kept-IsApart :
    (chosen : Notification → Bool) (f : Notification → Notification)
    → IsKept f
    → (x y : Notification) → IsApart x y
    → IsApart (if chosen x then f x else x) (if chosen y then f y else y)
kept-IsApart chosen f kept x y h =
    if-cases (λ r. IsApart r (if chosen y then f y else y)) (chosen x) _ _
      (λ _.
        if-cases (IsApart (f x)) (chosen y) _ _ (λ _. ground (arith, h, kept x, kept y))
          (λ _. ground (arith, h, kept x)))
      (λ _. if-cases (IsApart x) (chosen y) _ _ (λ _. ground (arith, h, kept y)) (λ _. h))

module _ (sha256 : String → String) where
  Move-IsSane : (t u : Tables) → Move sha256 t u → IsSane t → IsSane u
  Move-IsSane t _ (audited row p a) h = record {
    unique = h.unique;
    decodable = h.decodable;
    known = h.known;
  }
  Move-IsSane t _ (inserted r i e k) h = record {
    unique =
        Pairwise-append IsApart t.notification_outbox r h.unique
          (apart t.notification_outbox (find-none _ _ i) (find-none _ _ e));
    decodable = All-append IsDecodable t.notification_outbox (r ∷ []) (h.decodable, (k, tt));
    known = h.known;
  }
    where
      apart :
          (rows : List Notification)
          → All (λ x. has_id r.notification_id x ≡ false) rows
          → All (λ x. has_event r.event_id x ≡ false) rows
          → All (λ x. IsApart x r) rows
      apart [] a b = tt
      apart (x ∷ xs) a b = (
        ground (
          arith,
          eq_iff x.notification_id r.notification_id,
          eq_iff x.event_id r.event_id,
          a.0,
          b.0,
        ),
        apart xs a.1 b.1,
      )
  Move-IsSane t _ (changed chosen f k) h = record {
    unique =
        Pairwise-update IsApart IsDecodable chosen f (λ x y _ _ a. kept-IsApart chosen f k x y a)
          t.notification_outbox h.decodable h.unique;
    decodable =
        All-update IsDecodable chosen f
          (λ x d.
            if-cases IsDecodable (chosen x) _ _ (λ _. subst (λ p. is_some p ≡ true) (sym (k x).2) d)
              (λ _. d))
          t.notification_outbox h.decodable;
    known = h.known;
  }
  Move-IsSane t _ (noted d change k l) h = record {
    unique = h.unique;
    decodable = h.decodable;
    known = All-upsert IsKnown d change t.notification_dedup_state k l h.known;
  }
  Move-IsSane t _ (paced times) h = record {
    unique = h.unique;
    decodable = h.decodable;
    known = h.known;
  }

  pub Moves-IsSane : {t u : Tables} → Moves sha256 t u → IsSane t → IsSane u
  Moves-IsSane h = Moves_keeps sha256 IsSane Move-IsSane h
