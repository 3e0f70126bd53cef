-- ===== src/State/Reconcile/Sound.antt =====
-- `reconcile_pending` of src/guardian_state.py as steps.
use server_resource_guardian.Prelude.{
  String, ◌≡◌, refl, subst, ◌⊎◌, inl, inr, false, true, some, List, [], ◌∷◌, arith, Bool-cases, All,
  eq_iff, eq_apart, apart,
}
use server_resource_guardian.Prelude.Int
use server_resource_guardian.Prelude.Int.{ℤ}
use server_resource_guardian.Prelude.Tables.Pairs.{
  Pairwise, All-weaken, All-update, All-select, All-square,
}
use server_resource_guardian.Result.{Result, ok, err, >>=-eq-ok}
use server_resource_guardian.State.{Intent, ActionSlot, AuditRecord, Tables, Fault, commit}
use server_resource_guardian.State.Atomic.{audit-ok, transaction_keeps}
use server_resource_guardian.State.Intents.{has_id, is_active, is_final, set_intent, set_state}
use server_resource_guardian.State.Reconcile.{
  Pending, reconciliation_required, place, place_all, order_by, mark_intent, mark_slot, each,
  in_flight, held, mark_all, report, reconcile_pending,
}
use server_resource_guardian.State.Steps.{
  audited, Moves, Apart, Step, moved, slot_marked, Steps, here, next, Steps-trans,
}

module _ {κ} {A : Type 0} (P : A → Type κ) (time : A → ℤ) where
  All-place : (x : A) (ys : List A) → P x → All P ys → All P (place time x ys)
  unfolding place
  All-place x [] h k = (h, tt)
  All-place x (y ∷ ys) h k = elim (Bool-cases (Int.leb (time y) (time x))) [
    | inl later ↦ rw later (k.0, All-place x ys h k.1)
    | inr sooner ↦ rw sooner (h, k)
  ]

  All-place_all : (xs ys : List A) → All P xs → All P ys → All P (place_all time xs ys)
  unfolding place_all
  All-place_all [] ys h k = k
  All-place_all (x ∷ xs) ys h k = All-place_all xs (place time x ys) h.1 (All-place x ys h.0 k)

  All-order_by : (xs : List A) → All P xs → All P (order_by time xs)
  unfolding order_by
  All-order_by xs h = All-place_all xs [] h tt

active_not_final : (s : String) → is_active s ≡ true → is_final s ≡ false
active_not_final s h = ground (
  arith,
  eq_apart s "INTENT_RECORDED" "PLANNED" refl,
  eq_apart s "INTENT_RECORDED" "SUCCEEDED" refl,
  eq_apart s "INTENT_RECORDED" "FAILED" refl,
  eq_apart s "EXECUTION_STARTED" "PLANNED" refl,
  eq_apart s "EXECUTION_STARTED" "SUCCEEDED" refl,
  eq_apart s "EXECUTION_STARTED" "FAILED" refl,
  eq_apart s "RECONCILIATION_REQUIRED" "PLANNED" refl,
  eq_apart s "RECONCILIATION_REQUIRED" "SUCCEEDED" refl,
  eq_apart s "RECONCILIATION_REQUIRED" "FAILED" refl,
)

-- Every intent with the id is active.
abbrev ActiveWith : String → Intent → Type 0
ActiveWith intent_id x = (has_id intent_id x ≡ false) ⊎ (is_active x.state ≡ true)

Moves-mark : (x : Intent) → is_active x.state ≡ true → Moves x.state reconciliation_required
Moves-mark x active = record {
  unfinished = active_not_final x.state active;
  not_new = apart "RECONCILIATION_REQUIRED" "INTENT_RECORDED" refl;
  not_revived = inl active;
}

marked :
    (id : String) (x : Intent)
    → ActiveWith id x
    → (has_id id x ≡ false) ⊎ Moves x.state reconciliation_required
marked id x (inl other) = inl other
marked id x (inr active) = inr (Moves-mark x active)

module _ (fault : Fault) (now : ℤ) where
  mark_intent-ok :
      (row : Intent) (t u : Tables)
      → mark_intent fault now row t ≡ ok u
      → (r : AuditRecord) × (u
          ≡ audited r (set_intent row.intent_id (set_state reconciliation_required now) t))
  unfolding mark_intent
  mark_intent-ok row t u h =
      audit-ok fault (some row.intent_id) "reconciliation_required" _ now _ u h

  mark_intent-step :
      (row : Intent) (t u : Tables)
      → All (ActiveWith row.intent_id) t.intents
      → mark_intent fault now row t ≡ ok u
      → Step t u
  mark_intent-step row t u active h =
      let (r, wrote) = mark_intent-ok row t u h in
      moved (has_id row.intent_id) (set_state reconciliation_required now) r
        (λ i. record {
          same_id = refl;
          same_key = refl;
          same_host = refl;
          same_object = refl;
          same_action = refl;
        })
        (All-weaken _ _ (marked row.intent_id) t.intents active) wrote

  mark_intent-ActiveWith :
      (row : Intent) (id : String) (t u : Tables)
      → mark_intent fault now row t ≡ ok u
      → All (ActiveWith id) t.intents
      → All (ActiveWith id) u.intents
  mark_intent-ActiveWith row id t u h active =
      let (r, wrote) = mark_intent-ok row t u h in
      rw wrote (
        All-update (ActiveWith id) (has_id row.intent_id) (set_state reconciliation_required now)
          (λ x k. elim (Bool-cases (has_id row.intent_id x)) [
            | inl hit ↦ rw hit (inr refl)
            | inr miss ↦ rw miss k
          ])
          t.intents active)

  abbrev AllActive : Tables → List Intent → Type 0
  AllActive t rows = All (λ (row : Intent). All (ActiveWith row.intent_id) t.intents) rows

  mark_intents-Steps :
      (rows : List Intent) (t u : Tables)
      → AllActive t rows
      → each (mark_intent fault now) rows t ≡ ok u
      → Steps t u
  unfolding each
  mark_intents-Steps [] t u active h = subst (Steps t) (cc) here
  mark_intents-Steps (row ∷ rows) t u active h =
      let (m, first, rest) = >>=-eq-ok (mark_intent fault now row t) _ h in
      Steps-trans (next here (mark_intent-step row t m active.0 first)) (
        mark_intents-Steps rows m u
          (All-weaken _ _
            (λ (other : Intent) k. mark_intent-ActiveWith row other.intent_id t m first k) rows
            active.1)
          rest)

  mark_slots-Steps :
      (rows : List ActionSlot) (t u : Tables) → each (mark_slot fault now) rows t ≡ ok u → Steps t u
  unfolding each mark_slot
  mark_slots-Steps [] t u h = subst (Steps t) (cc) here
  mark_slots-Steps (row ∷ rows) t u h =
      let (m, first, rest) = >>=-eq-ok (mark_slot fault now row t) _ h in
      let (r, wrote) =
        audit-ok fault (some row.intent_id) "action_slot_reconciliation_required" _ now _ m first in
      Steps-trans (next here (slot_marked row.host_id row.action now r wrote))
        (mark_slots-Steps rows m u rest)

-- Two rows with one id are one row, so a row in flight shares its id only with active rows.
abbrev InFlightWith : Intent → Intent → Type 0
InFlightWith row x =
    (is_active row.state ≡ false) ⊎ (has_id row.intent_id x ≡ false) ⊎ (is_active x.state ≡ true)

diagonal : (x : Intent) → InFlightWith x x
diagonal x = ground arith

forth : (x y : Intent) → Apart x y → InFlightWith x y
forth x y a =
    inr (inl (ground (arith, eq_iff x.intent_id y.intent_id, eq_iff y.intent_id x.intent_id)))

back : (x y : Intent) → Apart x y → InFlightWith y x
back x y a = inr (inl a.0)

only :
    (row x : Intent) → is_active row.state ≡ true → InFlightWith row x → ActiveWith row.intent_id x
only row x active h = ground arith

in_flight-AllActive :
    (t : Tables)
    → Pairwise Apart t.intents
    → All (λ (row : Intent). All (ActiveWith row.intent_id) t.intents) (in_flight t)
unfolding in_flight
in_flight-AllActive t p =
    All-order_by (λ (row : Intent). All (ActiveWith row.intent_id) t.intents) (λ i. i.created_at) _
      (All-select _ _ t.intents (
        All-weaken _ _ choose t.intents
          (All-square Apart InFlightWith diagonal forth back t.intents p)))
  where
    choose :
        (row : Intent)
        → All (InFlightWith row) t.intents
        → (is_active row.state ≡ false) ⊎ All (ActiveWith row.intent_id) t.intents
    choose row h = elim (Bool-cases (is_active row.state)) [
      | inl active ↦ inr (All-weaken _ _ (λ x k. only row x active k) t.intents h)
      | inr idle ↦ inl idle
    ]

mark_all-Steps :
    (fault : Fault) (now : ℤ) (t u : Tables)
    → Pairwise Apart t.intents
    → mark_all fault now t ≡ ok u
    → Steps t u
unfolding mark_all
mark_all-Steps fault now t u p h =
    let (m, first, rest) = >>=-eq-ok (each (mark_intent fault now) (in_flight t) t) _ h in
    Steps-trans (mark_intents-Steps fault now (in_flight t) t m (in_flight-AllActive t p) first)
      (mark_slots-Steps fault now (held m) m u rest)

reconcile_body-commit :
    (fault : Fault) (now : ℤ) (t u : Tables) (m : Result Tables) (l : List Pending)
    → mark_all fault now t ≡ m
    → report t m ≡ commit u l
    → mark_all fault now t ≡ ok u
unfolding report
reconcile_body-commit fault now t u (ok v) l e h = cc
reconcile_body-commit fault now t u (err x) l e h = cc

pub reconcile_pending-Steps :
    (fault : Fault) (now : ℤ) (t : Tables)
    → Pairwise Apart t.intents
    → Steps t (reconcile_pending fault now t).1
unfolding reconcile_pending
reconcile_pending-Steps fault now t p =
    transaction_keeps (Steps t) fault "reconciliation_failed" _ t here
      λ u l e. mark_all-Steps fault now t u p (reconcile_body-commit fault now t u _ l refl e)
