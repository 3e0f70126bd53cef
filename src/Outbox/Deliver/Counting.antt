-- ===== src/Outbox/Deliver/Counting.antt =====
-- The pending rows of src/guardian_notification_outbox.py, counted: a claim makes them fewer, and the
-- end of a delivery leaves no row in flight.
use server_resource_guardian.Prelude.{
  ℕ, ◌≤◌, ◌<◌, String, Bool, true, false, ◌≡◌, refl, arith, none, some, List, [], ◌∷◌, ◌==◌, ◌&&◌,
  Option-cases, if-cases, ◌⊎◌, eq_refl, is_some, All, length, inl, inr, subst, sym, ◌∙◌,
}
use server_resource_guardian.Prelude.Tables.{find, update, select}
use server_resource_guardian.Prelude.Tables.Order.{order_by, first, All-order_by, length-order_by}
use server_resource_guardian.Prelude.Tables.Pairs.{All-select, find-none, All-weaken}
use server_resource_guardian.Outbox.{Status, is_pending, is_in_flight, is_active, Notification}
use mathlib.Core.Option.{some-injective}
use server_resource_guardian.Outbox.Finish.{is_claimed}
use server_resource_guardian.Outbox.Deliver.{created_before, claimable, is_waiting}

-- The number of pending rows.
unfoldable pub waiting : List Notification → ℕ
waiting rows = length (select (λ r. is_pending r.status) rows)

abbrev pub IsResting : Notification → Type 0
IsResting r = is_in_flight r.status ≡ false

-- Only rows with the id may be in flight.
abbrev pub IsOnly : String → Notification → Type 0
IsOnly id r = is_in_flight r.status ≡ true → (r.notification_id == id) ≡ true

waiting-update :
    (id : String) (f : Notification → Notification)
    → ((r : Notification) → is_pending (f r).status ≡ false)
    → (rows : List Notification) → waiting (update (is_waiting id) f rows) ≤ waiting rows
unfolding waiting select update
waiting-update id f final [] = omega arith
waiting-update id f final (r ∷ rows) = ground (arith, final r, waiting-update id f final rows)

-- An update of the waiting rows with an id makes them fewer, if there is one.
waiting_fewer :
    (id : String) (f : Notification → Notification)
    → ((r : Notification) → is_pending (f r).status ≡ false)
    → (rows : List Notification) → is_some (find (is_waiting id) rows) ≡ true
    → waiting (update (is_waiting id) f rows) < waiting rows
unfolding waiting select update find
waiting_fewer id f final [] h = cc
waiting_fewer id f final (r ∷ rows) h =
    ground (arith, final r, waiting-update id f final rows, waiting_fewer id f final rows)

pub waiting-finished :
    (id : String) (f : Notification → Notification)
    → ((r : Notification) → is_active (f r).status ≡ false)
    → (rows : List Notification) → waiting (update (is_claimed id) f rows) ≤ waiting rows
unfolding waiting select update
waiting-finished id f final [] = omega arith
waiting-finished id f final (r ∷ rows) =
    ground (arith, inactive (f r).status (final r), waiting-finished id f final rows)
  where
    inactive : (s : Status) → is_active s ≡ false → is_pending s ≡ false
    inactive s h = ground arith

-- What the query of `_claim_one` selects: pending rows of the table.
claimable-All {κ} :
    (P : Notification → Type κ) (rows : List Notification) → All P rows → All P (claimable rows)
unfolding claimable
claimable-All P rows h =
    All-order_by P created_before _
      (All-select P (λ r. is_pending r.status) rows (All-weaken P _ (λ r p. inr p) rows h))

claimable_pending :
    (rows : List Notification) → All (λ r. is_pending r.status ≡ true) (claimable rows)
unfolding claimable
claimable_pending rows =
    All-order_by (λ r. is_pending r.status ≡ true) created_before _
      (All-select (λ r. is_pending r.status ≡ true) (λ r. is_pending r.status) rows (either rows))
  where
    decided : (b : Bool) → (b ≡ false) ⊎ (b ≡ true)
    decided true = inr refl
    decided false = inl refl

    either :
        (rs : List Notification)
        → All (λ r. (is_pending r.status ≡ false) ⊎ (is_pending r.status ≡ true)) rs
    either [] = tt
    either (r ∷ rs) = (decided (is_pending r.status), either rs)

first_All {κ} :
    (P : Notification → Type κ) (rows : List Notification) (row : Notification)
    → first rows ≡ some row
    → All P rows
    → P row
first_All P [] row e h = cc
first_All P (r ∷ rows) row e h = subst P (some-injective r row e) h.0

module _ (rows : List Notification) (row : Notification)
    (claims : first (claimable rows) ≡ some row) where
  pub claimed_All {κ} : (P : Notification → Type κ) → All P rows → P row
  claimed_All P h = first_All P (claimable rows) row claims (claimable-All P rows h)

  pub claimed_pending : is_pending row.status ≡ true
  claimed_pending =
      first_All (λ r. is_pending r.status ≡ true) (claimable rows) row claims
        (claimable_pending rows)

  -- The update of a claim meets the row that was selected.
  claimed_found : is_some (find (is_waiting row.notification_id) rows) ≡ true
  claimed_found = elim (Option-cases (find (is_waiting row.notification_id) rows)) [
    | inl e ↦ missed (eq_refl row.notification_id) claimed_pending (
        claimed_All (λ r. is_waiting row.notification_id r ≡ false)
          (find-none (is_waiting row.notification_id) rows e))
    | inr (r, e) ↦ rw e refl
  ]
    where
      missed :
          (row.notification_id == row.notification_id) ≡ true
          → is_pending row.status ≡ true
          → is_waiting row.notification_id row ≡ false
          → is_some (find (is_waiting row.notification_id) rows) ≡ true
      missed a b c = ground arith

  pub waiting-claimed :
      (f : Notification → Notification)
      → ((r : Notification) → is_pending (f r).status ≡ false)
      → waiting (update (is_waiting row.notification_id) f rows) < waiting rows
  waiting-claimed f final = waiting_fewer row.notification_id f final rows claimed_found

pub waiting-none : (rows : List Notification) → first (claimable rows) ≡ none → waiting rows ≡ 0
unfolding waiting claimable
waiting-none rows h =
    sym (length-order_by created_before (select (λ r. is_pending r.status) rows))
    ∙ empty (order_by created_before (select (λ r. is_pending r.status) rows)) h
  where
    empty : (rs : List Notification) → first rs ≡ none → length rs ≡ 0
    empty [] e = refl
    empty (r ∷ rs) e = cc

pub claimed-IsOnly :
    (id : String) (f : Notification → Notification)
    → ((r : Notification) → (f r).notification_id ≡ r.notification_id)
    → (rows : List Notification) → All IsResting rows
    → All (IsOnly id) (update (is_waiting id) f rows)
unfolding update
claimed-IsOnly id f same [] h = tt
claimed-IsOnly id f same (r ∷ rows) h = (
  if-cases (IsOnly id) (is_waiting id r) _ _
      (λ on _. subst (λ i. (i == id) ≡ true) (sym (same r)) (and_left _ _ on)) (λ off k. cc),
  claimed-IsOnly id f same rows h.1,
)
  where
    and_left : (a b : Bool) → (a && b) ≡ true → a ≡ true
    and_left true b k = refl
    and_left false b k = cc

pub finished-IsResting :
    (id : String) (f : Notification → Notification)
    → ((r : Notification) → is_active (f r).status ≡ false)
    → (rows : List Notification) → All (IsOnly id) rows
    → All IsResting (update (is_claimed id) f rows)
unfolding update
finished-IsResting id f final [] h = tt
finished-IsResting id f final (r ∷ rows) h = (
  if-cases IsResting (is_claimed id r) _ _ (λ on. at_rest (f r).status (final r))
      (λ off. ground (arith, h.0)),
  finished-IsResting id f final rows h.1,
)
  where
    at_rest : (s : Status) → is_active s ≡ false → is_in_flight s ≡ false
    at_rest s k = ground arith

-- Without pending rows and without rows in flight, every row has a final status.
pub All-final :
    (rows : List Notification)
    → waiting rows ≡ 0
    → All IsResting rows
    → All (λ r. is_active r.status ≡ false) rows
unfolding waiting select
All-final [] w h = tt
All-final (r ∷ rows) w h = (final, All-final rows (ground (arith, h.0)) h.1)
  where
    final : is_active r.status ≡ false
    final = ground (arith, h.0)
