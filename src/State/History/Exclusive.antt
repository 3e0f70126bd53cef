-- ===== src/State/History/Exclusive.antt =====
-- Intents of src/guardian_state.py exclude one another, in every history of the store.
use server_resource_guardian.Prelude.{
  String, ◌≡◌, refl, ◌⊎◌, inl, inr, Bool, true, false, List, [], ◌∷◌, arith, Bool-cases, All,
  if◌then◌else◌,
}
use server_resource_guardian.Prelude.Tables.Pairs.{
  Pairwise, Pairwise-append, Pairwise-update, find-none,
}
use server_resource_guardian.State.{Intent, Tables}
use server_resource_guardian.State.Intents.{has_id, has_key, is_active_on, is_active}
use server_resource_guardian.State.Steps.{
  Moves, SameIntent, Apart, Step, registered, consumed, claimed, moved, slot_claimed, slot_released,
  slot_marked, ledger_written, Steps, Steps-trans, Steps_induction, here,
}
use server_resource_guardian.State.History.{Call, perform, run, perform-Steps}

-- No two intents share an id or an idempotency key, and of two intents for one host, object and
-- action at most one is active.
abbrev pub IsExclusive : Tables → Type 0
IsExclusive t = Pairwise Apart t.intents

three :
    (i : Intent) (xs : List Intent)
    → All (λ x. has_id i.intent_id x ≡ false) xs
    → All (λ x. has_key i.idempotency_key x ≡ false) xs
    → All (λ x. is_active_on i.host_id i.object_id i.action x ≡ false) xs
    → All (λ x. Apart x i) xs
three i [] a b c = tt
three i (x ∷ xs) a b c = ((a.0, b.0, inl c.0), three i xs a.1 b.1 c.1)

-- The row after an update.
abbrev after : (Intent → Bool) → (Intent → Intent) → Intent → Intent
after test f x = if test x then f x else x

after-SameIntent :
    (test : Intent → Bool) (f : Intent → Intent)
    → ((i : Intent) → SameIntent (f i) i)
    → (x : Intent) → SameIntent (after test f x) x
after-SameIntent test f same x = elim (Bool-cases (test x)) [
  | inl hit ↦ rw hit (same x)
  | inr miss ↦ rw miss (record {
    same_id = refl;
    same_key = refl;
    same_host = refl;
    same_object = refl;
    same_action = refl;
  })
]

-- An updated row is active only if it was.
after_not_revived :
    (test : Intent → Bool) (f : Intent → Intent) (x : Intent)
    → (test x ≡ false) ⊎ Moves x.state (f x).state
    → (is_active x.state ≡ true) ⊎ (is_active (after test f x).state ≡ false)
after_not_revived test f x (inl miss) = rw miss (ground arith)
after_not_revived test f x (inr m) = elim (Bool-cases (test x)) [
  | inl hit ↦ rw hit m.not_revived
  | inr miss ↦ rw miss (ground arith)
]

Apart-moved :
    (x y x' y' : Intent)
    → SameIntent x' x
    → SameIntent y' y
    → (is_active x.state ≡ true) ⊎ (is_active x'.state ≡ false)
    → (is_active y.state ≡ true) ⊎ (is_active y'.state ≡ false)
    → Apart x y
    → Apart x' y'
Apart-moved x y x' y' sx sy rx ry a = ground arith

pub Step-IsExclusive : (t u : Tables) → Step t u → IsExclusive t → IsExclusive u
Step-IsExclusive t u (registered a e w) h = rw w h
Step-IsExclusive t u (consumed a event_id now row r e s c l w) h = rw w h
Step-IsExclusive t u (claimed i r s unused key active w) h = rw w (
    Pairwise-append Apart t.intents i h (
      three i t.intents (find-none _ t.intents unused) (find-none _ t.intents key)
        (find-none _ t.intents active)))
Step-IsExclusive t u (moved test f r same moves w) h = rw w (
    Pairwise-update Apart (λ (x : Intent). (test x ≡ false) ⊎ Moves x.state (f x).state) test f
      (λ x y mx my a.
        Apart-moved x y (after test f x) (after test f y) (after-SameIntent test f same x)
          (after-SameIntent test f same y) (after_not_revived test f x mx)
          (after_not_revived test f y my) a)
      t.intents moves h)
Step-IsExclusive t u (slot_claimed s r active free w) h = rw w h
Step-IsExclusive t u (slot_released host_id action intent_id s r e owner active w) h = rw w h
Step-IsExclusive t u (slot_marked host_id action now r w) h = rw w h
Step-IsExclusive t u (ledger_written rows w) h = rw w h

module _ (sha256 : String → String) where
  pub perform-IsExclusive :
      (c : Call) (t : Tables) → IsExclusive t → IsExclusive (perform sha256 c t)
  perform-IsExclusive c t h =
      Steps_induction IsExclusive Step-IsExclusive (perform-Steps sha256 c t h) h

  -- Every sequence of calls, with any faults, keeps the intents exclusive: ids and idempotency keys
  -- stay unique, and no host, object and action has two active intents.
  pub run-IsExclusive :
      (calls : List Call) (t : Tables) → IsExclusive t → IsExclusive (run sha256 calls t)
  unfolding run
  run-IsExclusive [] t h = h
  run-IsExclusive (c ∷ cs) t h = run-IsExclusive cs (perform sha256 c t) (perform-IsExclusive c t h)

  pub run-Steps : (calls : List Call) (t : Tables) → IsExclusive t → Steps t (run sha256 calls t)
  unfolding run
  run-Steps [] t h = here
  run-Steps (c ∷ cs) t h =
      Steps-trans (perform-Steps sha256 c t h)
        (run-Steps cs (perform sha256 c t) (perform-IsExclusive c t h))
