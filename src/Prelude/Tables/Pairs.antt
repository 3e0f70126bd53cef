-- ===== src/Prelude/Tables/Pairs.antt =====
-- Predicates on all rows of a table, and on all pairs of rows, under appending and updating.
use mathlib.Core.Path.{◌≡◌, subst}
use mathlib.Core.Logic.{◌⊎◌, inl, inr}
use mathlib.Core.Bool.{Bool, true, false}
use mathlib.Core.Option.{none, some, some-injective}
use mathlib.Core.List.{List, [], ◌∷◌, ◌++◌}
use server_resource_guardian.Prelude.Tests.{if◌then◌else◌, Bool-cases}
use server_resource_guardian.Prelude.Lists.{All}
use server_resource_guardian.Prelude.Tables.{find, update, select, All-append}

-- Every row with every later row.
abbrev pub Pairwise {ℓ κ} : {A : Type ℓ} → (A → A → Type κ) → List A → Type κ
Pairwise R [] = Unit
Pairwise R (x ∷ xs) = All (R x) xs × Pairwise R xs

module _ {ℓ κ} {A : Type ℓ} where
  pub All-weaken {μ} :
      (P : A → Type κ) (Q : A → Type μ)
      → ((x : A) → P x → Q x)
      → (xs : List A) → All P xs
      → All Q xs
  All-weaken P Q f [] h = tt
  All-weaken P Q f (x ∷ xs) h = (f x h.0, All-weaken P Q f xs h.1)

  pub All-update :
      (P : A → Type κ) (test : A → Bool) (f : A → A)
      → ((x : A) → P x → P (if test x then f x else x))
      → (xs : List A) → All P xs
      → All P (update test f xs)
  unfolding update
  All-update P test f keep [] h = tt
  All-update P test f keep (x ∷ xs) h = (keep x h.0, All-update P test f keep xs h.1)

  pub find-All :
      (P : A → Type κ) (test : A → Bool) (xs : List A) (x : A)
      → All P xs
      → find test xs ≡ some x
      → P x
  unfolding find
  find-All P test [] x h e = cc
  find-All P test (y ∷ xs) x h e = elim (Bool-cases (test y)) [
    | inl hit ↦ subst P (some-injective y x (rw hit at e)) h.0
    | inr miss ↦ find-All P test xs x h.1 (rw miss at e)
  ]

  pub Pairwise-append :
      (R : A → A → Type κ) (xs : List A) (y : A)
      → Pairwise R xs
      → All (λ x. R x y) xs
      → Pairwise R (xs ++ y ∷ [])
  Pairwise-append R [] y h k = (tt, tt)
  Pairwise-append R (x ∷ xs) y h k =
      (All-append (R x) xs (y ∷ []) (h.0, (k.0, tt)), Pairwise-append R xs y h.1 k.1)

pub find-none {ℓ} :
    {A : Type ℓ} (test : A → Bool) (xs : List A)
    → find test xs ≡ none
    → All (λ x. test x ≡ false) xs
unfolding find
find-none test [] h = tt
find-none test (x ∷ xs) h = elim (Bool-cases (test x)) [
  | inl hit ↦ cc (rw hit at h)
  | inr miss ↦ (miss, find-none test xs (rw miss at h))
]

-- An update keeps a relation between all pairs if it keeps it between two rows that satisfy `Q`.
module _ {ℓ κ μ} {A : Type ℓ} (R : A → A → Type κ) (Q : A → Type μ) (test : A → Bool) (f : A → A)
    (keep : (x y : A)
      → Q x
      → Q y
      → R x y
      → R (if test x then f x else x) (if test y then f y else y)) where
  one_update :
      (x : A) (ys : List A)
      → Q x
      → All Q ys
      → All (R x) ys
      → All (R (if test x then f x else x)) (update test f ys)
  unfolding update
  one_update x [] qx q h = tt
  one_update x (y ∷ ys) qx q h = (keep x y qx q.0 h.0, one_update x ys qx q.1 h.1)

  pub Pairwise-update : (xs : List A) → All Q xs → Pairwise R xs → Pairwise R (update test f xs)
  unfolding update
  Pairwise-update [] q h = tt
  Pairwise-update (x ∷ xs) q h = (one_update x xs q.0 q.1 h.0, Pairwise-update xs q.1 h.1)

module _ {ℓ κ} {A : Type ℓ} where
  pub All-select :
      (P : A → Type κ) (test : A → Bool) (xs : List A)
      → All (λ x. (test x ≡ false) ⊎ P x) xs
      → All P (select test xs)
  unfolding select
  All-select P test [] h = tt
  All-select P test (x ∷ xs) h = elim (Bool-cases (test x)) [
    | inl hit ↦ rw hit (holds hit h.0, All-select P test xs h.1)
    | inr miss ↦ rw miss (All-select P test xs h.1)
  ]
    where
      holds : test x ≡ true → (test x ≡ false) ⊎ P x → P x
      holds hit (inl miss) = cc
      holds hit (inr p) = p

  All-pair :
      (S : A → A → Type κ) (x : A) (xs rows : List A)
      → All (λ row. S row x) rows
      → All (λ row. All (S row) xs) rows
      → All (λ row. All (S row) (x ∷ xs)) rows
  All-pair S x xs [] h k = tt
  All-pair S x xs (row ∷ rows) h k = ((h.0, k.0), All-pair S x xs rows h.1 k.1)

  -- A relation that holds on the diagonal and, both ways, of every two rows, holds of all pairs.
  pub All-square {μ} :
      (R : A → A → Type μ) (S : A → A → Type κ)
      → ((x : A) → S x x)
      → ((x y : A) → R x y → S x y)
      → ((x y : A) → R x y → S y x)
      → (xs : List A) → Pairwise R xs
      → All (λ row. All (S row) xs) xs
  All-square R S diagonal forth back [] p = tt
  All-square R S diagonal forth back (x ∷ xs) p = (
    (diagonal x, All-weaken (R x) (S x) (forth x) xs p.0),
    All-pair S x xs xs (All-weaken (R x) (λ y. S y x) (back x) xs p.0)
        (All-square R S diagonal forth back xs p.1),
  )
