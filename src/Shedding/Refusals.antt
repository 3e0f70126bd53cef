-- ===== src/Shedding/Refusals.antt =====
-- The checks of `build_emergency_shedding_decision` in src/guardian_emergency_shedding.py: no refusal
-- carries a plan, and what is known of the inputs when the checks on them pass.
use server_resource_guardian.Prelude.{
  String, Bool, true, false, ◌≡◌, refl, Option, none, some, List, [], ◌∷◌, not, one_of, arith,
}
use server_resource_guardian.Prelude.Tables.{find}
use server_resource_guardian.Value.{
  Value, null, boolean, number, text, array, object, Items, Fields,
}
use server_resource_guardian.Shedding.{
  Platform, Shedding, empty_decision, Step, refused, went, ◌>>=◌, unless, items_of,
}
use server_resource_guardian.Shedding.Entries.{Entries, validated_entry_map}
use server_resource_guardian.Shedding.Ranking.{
  Request, refusal, check_mode, check_clock, active_resources, is_unready, check_risks,
  check_candidates, check_registry, check_sets, check_allowed, check_list, sets_of, allowed_of,
  unready_risks,
}
use server_resource_guardian.Prelude.Int.{ℤ}
use server_resource_guardian.Shedding.Rows.{Inputs}
use server_resource_guardian.Shedding.Decide.{read_inputs}

-- A refusal carries no plan, and a value that is passed on has a property.
abbrev pub IsSafe : {A : Type 0} → (A → Type 0) → Step A → Type 0
IsSafe Q (refused s) = s.decision.plan ≡ none
IsSafe Q (went a) = Q a

pub >>=-IsSafe :
    {A B : Type 0}
    → (Q : A → Type 0) → (R : B → Type 0) → (step : Step A) → (next : A → Step B) → IsSafe Q step
    → ((a : A) → Q a → IsSafe R (next a))
    → IsSafe R (step >>= next)
>>=-IsSafe Q R (refused s) next safe rest = safe
>>=-IsSafe Q R (went a) next safe rest = rest a safe

pub unless-IsSafe :
    {A : Type 0}
    → (Q : A → Type 0) → (b : Bool) → (s : Shedding) → (a : A) → s.decision.plan ≡ none
    → (b ≡ false → Q a)
    → IsSafe Q (unless b s a)
unfolding unless
unless-IsSafe Q true s a bare holds = bare
unless-IsSafe Q false s a bare holds = holds refl

-- What follows a check that passes its value on.
pub unless_then-IsSafe :
    {A B : Type 0}
    → (R : B → Type 0) → (b : Bool) → (s : Shedding) → (a : A) → (next : A → Step B)
    → s.decision.plan ≡ none
    → (b ≡ false → IsSafe R (next a))
    → IsSafe R (unless b s a >>= next)
unfolding unless
unless_then-IsSafe R true s a next bare rest = bare
unless_then-IsSafe R false s a next bare rest = rest refl

abbrev pub Any : {A : Type 0} → A → Type 0
Any _ = Unit {0}

pub not-false : (b : Bool) → not b ≡ false → b ≡ true
not-false b off = ground arith

abbrev pub IsMode : Request → String → Type 0
IsMode q mode =
    (q.policy.enabled ≡ true) × (one_of mode ("observe" ∷ "simulate" ∷ "enforce" ∷ []) ≡ true)

check_mode-IsSafe : (q : Request) → IsSafe (λ m. IsMode q m) (check_mode q)
unfolding check_mode refusal empty_decision
check_mode-IsSafe q =
    >>=-IsSafe (λ _. q.policy.enabled ≡ true) (λ m. IsMode q m) _ _
      (unless-IsSafe (λ _. q.policy.enabled ≡ true) (not q.policy.enabled) _ _ refl (not-false _))
      (λ m on.
        unless-IsSafe (λ m. IsMode q m) (not (one_of m ("observe" ∷ "simulate" ∷ "enforce" ∷ []))) _
          _ refl (λ known. (on, not-false _ known)))

check_clock-IsSafe : (q : Request) → (mode : String) → IsSafe Any (check_clock q mode)
unfolding check_clock refusal empty_decision
check_clock-IsSafe q mode =
    elim q.now_epoch_s as (λ v. IsSafe Any (check_clock (record q { now_epoch_s = v }) mode)) [
      | null ↦ tt
      | number n ↦ tt
      | boolean _ ↦ refl
      | text _ ↦ refl
      | array _ ↦ refl
      | object _ ↦ refl
    ]

check_list-IsSafe :
    (mode : String)
    → (active : List String) → (input label : String) → (items : Option Items)
    → IsSafe Any (check_list mode active input label items)
unfolding check_list refusal empty_decision
check_list-IsSafe mode active input label none = refl
check_list-IsSafe mode active input label (some items) = unless-IsSafe Any _ _ _ refl (λ _. tt)

check_candidates-IsSafe :
    (mode : String)
    → (active : List String) → (candidates : Value)
    → IsSafe Any (check_candidates mode active candidates)
unfolding check_candidates refusal empty_decision
check_candidates-IsSafe mode active candidates =
    >>=-IsSafe Any Any _ _ (check_list-IsSafe mode active _ _ (items_of candidates))
      (λ cs _. unless-IsSafe Any _ _ _ refl (λ _. tt))

check_registry-IsSafe :
    (mode : String)
    → (active : List String) → (registry : Value) → IsSafe Any (check_registry mode active registry)
unfolding check_registry refusal empty_decision
check_registry-IsSafe mode active registry =
    >>=-IsSafe Any Any _ _ (check_list-IsSafe mode active _ _ (items_of registry)) (λ rs _.
      >>=-IsSafe Any Any _ _ (unless-IsSafe Any _ _ _ refl (λ _. tt))
        (λ es _. unless-IsSafe Any _ _ _ refl (λ _. tt)))

sets_of-IsSafe :
    (mode : String)
    → (active : List String) → (protected actionable : Option Entries) → (details : Fields)
    → IsSafe Any (sets_of mode active protected actionable details)
unfolding sets_of refusal empty_decision
sets_of-IsSafe mode active (some p) (some a) details = unless-IsSafe Any _ _ _ refl (λ _. tt)
sets_of-IsSafe mode active (some p) none details = refl
sets_of-IsSafe mode active none a details = refl

check_sets-IsSafe :
    (mode : String)
    → (active : List String) → (platform : Platform) → (now : ℤ) → (protected actionable : Value)
    → IsSafe Any (check_sets mode active platform now protected actionable)
unfolding check_sets
check_sets-IsSafe mode active platform now protected actionable =
    sets_of-IsSafe mode active (validated_entry_map platform false now protected)
      (validated_entry_map platform true now actionable) _

allowed_of-IsSafe :
    (mode : String)
    → (active : List String) → (allowed : Option (List String))
    → IsSafe Any (allowed_of mode active allowed)
unfolding allowed_of refusal empty_decision
allowed_of-IsSafe mode active none = refl
allowed_of-IsSafe mode active (some actions) = tt

check_allowed-IsSafe :
    (mode : String)
    → (active : List String) → (allowed : Value) → IsSafe Any (check_allowed mode active allowed)
unfolding check_allowed
check_allowed-IsSafe mode active allowed = allowed_of-IsSafe mode active _

module _ (platform : Platform) (q : Request) where
  abbrev pub AreReady : List String → Type 0
  AreReady active =
      (active ≡ active_resources platform q)
      × (find (λ kind. is_unready platform q kind) q.policy.resource_priority ≡ none)

  unready_risks-IsSafe :
      (mode : String)
      → (unready : Option String)
      → find (λ kind. is_unready platform q kind) q.policy.resource_priority ≡ unready
      → (active : List String) → active ≡ active_resources platform q
      → IsSafe AreReady (unready_risks platform q mode unready active)
  unfolding unready_risks refusal empty_decision
  unready_risks-IsSafe mode (some kind) e active same = refl
  unready_risks-IsSafe mode none e [] same = refl
  unready_risks-IsSafe mode none e (kind ∷ kinds) same = (same, e)

  check_risks-IsSafe : (mode : String) → IsSafe AreReady (check_risks platform q mode)
  unfolding check_risks
  check_risks-IsSafe mode = unready_risks-IsSafe mode _ refl _ refl

  -- The mode is known, the policy is enabled, and no critical resource lacks its samples.
  abbrev pub IsRead : Inputs → Type 0
  IsRead i =
      (q.policy.enabled ≡ true)
      × (one_of i.mode ("observe" ∷ "simulate" ∷ "enforce" ∷ []) ≡ true)
      × (i.active ≡ active_resources platform q)
      × (find (λ kind. is_unready platform q kind) q.policy.resource_priority ≡ none)

  pub read_inputs-IsSafe : IsSafe IsRead (read_inputs platform q)
  unfolding read_inputs
  read_inputs-IsSafe =
      >>=-IsSafe (λ m. IsMode q m) IsRead _ _ (check_mode-IsSafe q)
        (λ mode m. >>=-IsSafe Any IsRead _ _ (check_clock-IsSafe q mode) (λ now _.
          >>=-IsSafe AreReady IsRead _ _ (check_risks-IsSafe mode) (λ active a.
            >>=-IsSafe Any IsRead _ _ (check_candidates-IsSafe mode active _) (λ cs _.
              >>=-IsSafe Any IsRead _ _ (check_registry-IsSafe mode active _) (λ rs _.
                >>=-IsSafe Any IsRead _ _ (check_sets-IsSafe mode active platform now _ _)
                  (λ sets _.
                    >>=-IsSafe Any IsRead _ _ (check_allowed-IsSafe mode active _)
                      (λ allowed _. (m.0, m.1, a.0, a.1))))))))
