-- ===== src/Prelude/Tables.antt =====
-- Tables as lists of rows: selection, update and deletion by a test on the row, and their laws.
pub mod Pairs
pub mod Order
use mathlib.Core.Path.{◌≡◌, refl}
use mathlib.Core.Bool.{Bool, true, false}
use mathlib.Core.Option
use mathlib.Core.Option.{Option, none, some, some-injective}
use mathlib.Core.List.{List, [], ◌∷◌, ◌++◌}
use native.Mathlib.Omega.{arith}
use server_resource_guardian.Prelude.Tests.{if◌then◌else◌}
use server_resource_guardian.Prelude.Lists.{All}

module _ {ℓ} {A : Type ℓ} where
  -- The first row that passes the test.
  unfoldable pub find : (A → Bool) → List A → Option A
  find test [] = none
  find test (x ∷ xs) = if test x then some x else find test xs

  unfoldable pub update : (A → Bool) → (A → A) → List A → List A
  update test f [] = []
  update test f (x ∷ xs) = (if test x then f x else x) ∷ update test f xs

  -- The rows that do not pass the test.
  unfoldable pub delete : (A → Bool) → List A → List A
  delete test [] = []
  delete test (x ∷ xs) = let rest = delete test xs in if test x then rest else x ∷ rest

  -- The rows that pass the test.
  unfoldable pub select : (A → Bool) → List A → List A
  select test [] = []
  select test (x ∷ xs) = let rest = select test xs in if test x then x ∷ rest else rest

  pub find-append_found :
      (test : A → Bool) (xs ys : List A) (x : A)
      → find test xs ≡ some x
      → find test (xs ++ ys) ≡ some x
  unfolding find
  find-append_found test [] ys x h = cc
  find-append_found test (y ∷ xs) ys x h = ground (arith, find-append_found test xs ys x)

  pub find-append_none :
      (test : A → Bool) (xs : List A) (y : A)
      → find test xs ≡ none
      → find test (xs ++ y ∷ []) ≡ (if test y then some y else none)
  unfolding find
  find-append_none test [] y h = refl
  find-append_none test (x ∷ xs) y h = ground (arith, find-append_none test xs y)

  pub find_test : (test : A → Bool) (xs : List A) (x : A) → find test xs ≡ some x → test x ≡ true
  unfolding find
  find_test test [] x h = cc
  find_test test (y ∷ xs) x h = ground (arith, find_test test xs x)

  -- An update that does not change the outcome of the test changes the found row alone.
  pub find-update :
      (test chosen : A → Bool) (f : A → A)
      → ((x : A) → test (f x) ≡ test x)
      → (xs : List A)
      → find test (update chosen f xs)
        ≡ Option.map (λ x. if chosen x then f x else x) (find test xs)
  unfolding find update
  find-update test chosen f keeps [] = refl
  find-update test chosen f keeps (x ∷ xs) =
      ground (arith, keeps x, find-update test chosen f keeps xs)

  -- A deletion that spares the found row.
  pub find-delete :
      (test chosen : A → Bool) (xs : List A) (x : A)
      → find test xs ≡ some x
      → chosen x ≡ false
      → find test (delete chosen xs) ≡ some x
  unfolding find delete
  find-delete test chosen [] x h spared = cc
  find-delete test chosen (y ∷ xs) x h spared =
      ground (arith, find-delete test chosen xs x, some-injective y x)

  pub All-append {κ} :
      (P : A → Type κ) (rows added : List A) → All P rows × All P added → All P (rows ++ added)
  All-append P [] added (_, new) = new
  All-append P (row ∷ rows) added ((here, old), new) = (here, All-append P rows added (old, new))
