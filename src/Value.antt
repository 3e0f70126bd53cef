-- ===== src/Value.antt =====
-- The dynamic data of the program: the JSON values of its events, decisions and audit payloads.
-- Numbers are integers here.
pub mod Json
use server_resource_guardian.Prelude.{
  String, Bool, true, false, not, Option, none, some, ◌==◌, if◌then◌else◌,
}
use server_resource_guardian.Prelude.Int
use server_resource_guardian.Prelude.Int.{ℤ, pos}

mutual
  -- The entries of a mapping, in the order of insertion.
  pub data Fields : Type 0 where
    end : Fields
    field : (key : String) → (value : Value) → (rest : Fields) → Fields

  -- The items of a sequence.
  pub data Items : Type 0 where
    nil : Items
    cons : (head : Value) → (tail : Items) → Items

  pub data Value : Type 0 where
    null : Value
    boolean : Bool → Value
    number : ℤ → Value
    text : String → Value
    array : Items → Value
    object : Fields → Value

-- `mapping.get(key)`; `none` where the key is missing.
unfoldable pub lookup : String → Fields → Option Value
lookup key end = none
lookup key (field k v rest) = if k == key then some v else lookup key rest

-- `bool(value)`
unfoldable pub truth : Value → Bool
truth null = false
truth (boolean b) = b
truth (number n) = not (Int.eqb n (pos 0))
truth (text s) = not (s == "")
truth (array nil) = false
truth (array (cons _ _)) = true
truth (object end) = false
truth (object (field _ _ _)) = true
