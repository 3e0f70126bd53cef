-- ===== src/Result.antt =====
-- The result of code that may raise: a value, or the text of the exception.
use server_resource_guardian.Prelude.{String, Bool, true, false, ◌≡◌, refl}

pub data Result {ℓ} (A : Type ℓ) : Type ℓ where
  ok : A → Result A
  err : String → Result A

-- Sequencing: an exception skips what follows. It computes wherever it stands.
infixl 5 ◌>>=◌
abbrev pub ◌>>=◌ {ℓ κ} :
    {A : Type ℓ} → {B : Type κ} → (first : Result A) → (next : A → Result B) → Result B
err reason >>= next = err reason
ok value >>= next = next value

-- A check, which has no value, before what follows.
infixl 5 ◌>>◌
abbrev pub ◌>>◌ {κ} : {B : Type κ} → (check : Result (Unit {0})) → (next : Result B) → Result B
check >> next = check >>= λ _. next

-- `if not condition: raise …(reason)`
abbrev pub require : Bool → String → Result (Unit {0})
require false reason = err reason
require true reason = ok tt

-- What a sequence that succeeds went through.
pub >>=-eq-ok {ℓ κ} :
    {A : Type ℓ}
    → {B : Type κ} → (first : Result A) → (next : A → Result B) → {b : B} → (first >>= next) ≡ ok b
    → (a : A) × (first ≡ ok a) × (next a ≡ ok b)
>>=-eq-ok (err reason) next h = cc
>>=-eq-ok (ok value) next h = (value, refl, h)

pub ok-injective {ℓ} : {A : Type ℓ} {a b : A} → ok a ≡ ok b → a ≡ b
ok-injective h = cc
