-- ===== src/Revalidation/Settled.antt =====
-- The guards of `revalidate_observer_event` in src/guardian_revalidation.py as a list: when none of
-- them answers, and what the outcome of a test says.
use mathlib.Core.Option.{some-injective}
use server_resource_guardian.Prelude.{
  ℕ, zero, suc, String, Bool, true, false, ◌≡◌, refl, ap, subst, ◌&&◌, ◌||◌, not, Option, none,
  some, List, [], ◌∷◌, arith, ◌==◌, if◌then◌else◌, if-cases, is_some,
}
use server_resource_guardian.Value.{Value, null, boolean, number, text, array, object}
use server_resource_guardian.Shedding.{named, or_else}
use server_resource_guardian.Revalidation.{FreshRevalidation, settle}
use server_resource_guardian.Revalidation.Checks.{is_single}

-- The condition of a guard, by its place in the list.
unfoldable pub condition_at : List (Bool × FreshRevalidation) → ℕ → Bool
condition_at [] n = false
condition_at (guard ∷ rest) zero = guard.0
condition_at (guard ∷ rest) (suc n) = condition_at rest n

-- No guard answers with an acceptance.
unfoldable pub refuses : List (Bool × FreshRevalidation) → Bool
refuses [] = true
refuses (guard ∷ rest) = not guard.1.accepted && refuses rest

clash : {a : Bool} → a ≡ false → a ≡ true → ⊥
clash off on = ground (arith, off, on)

-- What is accepted has passed every guard.
pub settle-off :
    (guards : List (Bool × FreshRevalidation)) (done : FreshRevalidation)
    → refuses guards ≡ true
    → (settle guards done).accepted ≡ true
    → (n : ℕ) → condition_at guards n ≡ false
unfolding settle condition_at refuses
settle-off [] done r e n = refl
settle-off ((true, f) ∷ rest) done r e n = absurd (both f.accepted (refuses rest) r e)
  where
    both : (a b : Bool) → (not a && b) ≡ true → a ≡ true → ⊥
    both a b p q = ground arith
settle-off ((false, f) ∷ rest) done r e zero = refl
settle-off ((false, f) ∷ rest) done r e (suc n) =
    settle-off rest done (last f.accepted (refuses rest) r) e n
  where
    last : (a b : Bool) → (not a && b) ≡ true → b ≡ true
    last a b p = ground arith

pub is_true_of : (a : Bool) → not a ≡ false → a ≡ true
is_true_of a e = ground arith

pub third : (a b c : Bool) → not (a && b && c) ≡ false → c ≡ true
third a b c e = ground arith

pub second : (a b c : Bool) → not (a && b && c) ≡ false → b ≡ true
second a b c e = ground arith

pub neither : (a b : Bool) → (a || b) ≡ false → (a ≡ false) × (b ≡ false)
neither a b e = (ground arith, ground arith)

pub given : {A : Type 0} → (o : Option A) → not (is_some o) ≡ false → (a : A) × (o ≡ some a)
given none off = absurd (clash off refl)
given (some a) off = (a, refl)

pub unclosed : (a b : Bool) → not (a && b) ≡ false → not b ≡ false
unclosed a b e = ground arith

named_text :
    (s t : String) → (if s == "" then none else some s) ≡ some t → (s ≡ t) × ((t == "") ≡ false)
named_text s t =
    if-cases (λ (o : Option String). o ≡ some t → (s ≡ t) × ((t == "") ≡ false)) (s == "") _ _
      (λ on h. cc h)
      (λ off h. let same = some-injective s t h in (same, subst (λ u. (u == "") ≡ false) same off))

-- A text that is read is a text of the event, and not empty.
pub named-some :
    (value : Option Value)
    → (s : String) → named value ≡ some s
    → (value ≡ some (text s)) × ((s == "") ≡ false)
unfolding named
named-some none s h = cc h
named-some (some null) s h = cc h
named-some (some (boolean b)) s h = cc h
named-some (some (number n)) s h = cc h
named-some (some (text t)) s h =
    let (same, filled) = named_text t s h in (ap (λ u. some (text u)) same, filled)
named-some (some (array items)) s h = cc h
named-some (some (object fields)) s h = cc h

or_else-named :
    (a b : Option String)
    → (s : String) → (a ≡ some s → (s == "") ≡ false)
    → (b ≡ some s → (s == "") ≡ false)
    → or_else a b ≡ some s
    → (s == "") ≡ false
or_else-named none b s p q h = q h
or_else-named (some t) b s p q h = p h

-- So is one of two texts.
pub either-named :
    (v w : Option Value) → (s : String) → or_else (named v) (named w) ≡ some s → (s == "") ≡ false
either-named v w s h =
    or_else-named (named v) (named w) s (λ e. (named-some v s e).1) (λ e. (named-some w s e).1) h

pub single : {A : Type 0} → (xs : List A) → is_single xs ≡ true → (x : A) × (xs ≡ x ∷ [])
single [] e = absurd (clash refl e)
single (x ∷ []) e = (x, refl)
single (x ∷ y ∷ ys) e = absurd (clash refl e)
