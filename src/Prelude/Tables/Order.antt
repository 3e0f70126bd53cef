-- ===== src/Prelude/Tables/Order.antt =====
-- `ORDER BY`, `LIMIT` and the loop over the rows of a query, with their laws.
use mathlib.Core.Path.{◌≡◌, refl, subst}
use mathlib.Core.Bool.{Bool}
use mathlib.Core.Option.{Option, none, some}
use mathlib.Core.List.{List, [], ◌∷◌}
use Prim.Native.Nat.{ℕ, zero, suc}
use native.Mathlib.Omega.{arith}
use server_resource_guardian.Prelude.Tests.{if◌then◌else◌, if-cases}
use server_resource_guardian.Prelude.Lists.{All, length}
use server_resource_guardian.Result.{Result, ok, ◌>>=◌, >>=-eq-ok, ok-injective}

module _ {ℓ} {A : Type ℓ} where
  unfoldable pub insert_by : (A → A → Bool) → A → List A → List A
  insert_by before x [] = x ∷ []
  insert_by before x (y ∷ ys) =
      let rest = insert_by before x ys in if before y x then y ∷ rest else x ∷ y ∷ ys

  -- `ORDER BY`, with the test that says when a row must come before another.
  unfoldable pub order_by : (A → A → Bool) → List A → List A
  unfolding insert_by
  order_by before [] = []
  order_by before (x ∷ xs) = insert_by before x (order_by before xs)

  -- `LIMIT`
  unfoldable pub limit : ℕ → List A → List A
  limit zero xs = []
  limit (suc n) [] = []
  limit (suc n) (x ∷ xs) = x ∷ limit n xs

  -- `fetchone`
  abbrev pub first : List A → Option A
  first [] = none
  first (x ∷ _) = some x

  All-insert_by {κ} :
      (P : A → Type κ) (before : A → A → Bool) (x : A) (xs : List A)
      → P x
      → All P xs
      → All P (insert_by before x xs)
  unfolding insert_by
  All-insert_by P before x [] p h = (p, tt)
  All-insert_by P before x (y ∷ ys) p h =
      if-cases (All P) (before y x) _ _ (λ on. (h.0, All-insert_by P before x ys p h.1))
        (λ off. (p, h))

  pub All-order_by {κ} :
      (P : A → Type κ) (before : A → A → Bool) (xs : List A) → All P xs → All P (order_by before xs)
  unfolding order_by
  All-order_by P before [] h = tt
  All-order_by P before (x ∷ xs) h =
      All-insert_by P before x (order_by before xs) h.0 (All-order_by P before xs h.1)

  pub All-limit {κ} : (P : A → Type κ) (n : ℕ) (xs : List A) → All P xs → All P (limit n xs)
  unfolding limit
  All-limit P zero xs h = tt
  All-limit P (suc n) [] h = tt
  All-limit P (suc n) (x ∷ xs) h = (h.0, All-limit P n xs h.1)

  length-insert_by :
      (before : A → A → Bool) (x : A) (xs : List A)
      → length (insert_by before x xs) ≡ suc (length xs)
  unfolding insert_by
  length-insert_by before x [] = refl
  length-insert_by before x (y ∷ ys) = ground (arith, length-insert_by before x ys)

  pub length-order_by :
      (before : A → A → Bool) (xs : List A) → length (order_by before xs) ≡ length xs
  unfolding order_by
  length-order_by before [] = refl
  length-order_by before (x ∷ xs) =
      omega (arith, length-insert_by before x (order_by before xs), length-order_by before xs)

module _ {ℓ κ} {A : Type ℓ} {S : Type κ} where
  -- `for row in rows`, with a body that may raise.
  unfoldable pub for_each : (A → S → Result S) → List A → S → Result S
  for_each step [] s = ok s
  for_each step (x ∷ xs) s = step x s >>= for_each step xs

  -- What every round keeps, the loop keeps.
  pub for_each_keeps {μ ν} :
      (P : S → Type μ) (Q : A → Type ν) (step : A → S → Result S)
      → ((x : A) (s u : S) → Q x → P s → step x s ≡ ok u → P u)
      → (xs : List A) (s u : S) → All Q xs
      → P s
      → for_each step xs s ≡ ok u
      → P u
  unfolding for_each
  for_each_keeps P Q step keep [] s u q p h = subst P (ok-injective h) p
  for_each_keeps P Q step keep (x ∷ xs) s u q p h =
      let (v, stepped, rest) = >>=-eq-ok (step x s) (for_each step xs) h in
      for_each_keeps P Q step keep xs v u q.1 (keep x s v q.0 p stepped) rest
