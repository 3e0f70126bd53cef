-- ===== src/Value/Json.antt =====
-- The text that `json.dumps(value, ensure_ascii=False, sort_keys=True, separators=(",", ":"))` makes
-- of a JSON value.
use Prim.Native.Nat.{Ordering}
use Prim.Native.Char.{code}
use Prim.Native.String.{compare}
use server_resource_guardian.Prelude.{
  ℕ, ◌-◌, String, true, false, List, [], ◌∷◌, map, ◌||◌, ◌&&◌, ◌≡◌, refl, if◌then◌else◌, leb, join,
}
use server_resource_guardian.Prelude.Int.{pos}
use server_resource_guardian.Prelude.Text.{decimal, comma_separated}
use server_resource_guardian.Value.{
  Value, null, boolean, number, text, array, object, Items, nil, cons, Fields, end, field,
}

-- A character below 32, by its code point.
control : ℕ → String
control n =
    if leb n 7
    then join "\\u000" (decimal (pos n))
    else if leb n 8
    then "\\b"
    else if leb n 9
    then "\\t"
    else if leb n 10
    then "\\n"
    else if leb n 11
    then "\\u000b"
    else if leb n 12
    then "\\f"
    else if leb n 13
    then "\\r"
    else if leb n 14
    then "\\u000e"
    else if leb n 15
    then "\\u000f"
    else if leb n 25
    then join "\\u00" (decimal (pos (n - 6)))
    else if leb n 26
    then "\\u001a"
    else if leb n 27
    then "\\u001b"
    else if leb n 28
    then "\\u001c"
    else if leb n 29
    then "\\u001d"
    else if leb n 30
    then "\\u001e"
    else "\\u001f"

escape : String → String
unfolding control
escape String.[] = ""
escape (String.◌∷◌ c s) =
    let rest = escape s in
    let n = code c in
    if leb n 31
    then join (control n) rest
    else if (leb 34 n && leb n 34) || (leb 92 n && leb n 92)
    then join "\\" (String.◌∷◌ c rest)
    else String.◌∷◌ c rest

quoted : String → String
unfolding escape
quoted s = join "\"" (join (escape s) "\"")

-- Insertion by key.
by_key : String × String → List (String × String) → List (String × String)
by_key e [] = e ∷ []
by_key e (d ∷ ds) =
    let rest = by_key e ds in
    elim (compare e.0 d.0) [
      | Ordering.lt ↦ e ∷ d ∷ ds
      | Ordering.eq ↦ d ∷ rest
      | Ordering.gt ↦ d ∷ rest
    ]

entry : String × String → String
unfolding quoted
entry (key, value) = join (quoted key) (join ":" value)

unfoldable mutual
  unfolding quoted by_key entry

  pub dumps : Value → String
  dumps null = "null"
  dumps (boolean true) = "true"
  dumps (boolean false) = "false"
  dumps (number n) = decimal n
  dumps (text s) = quoted s
  dumps (array xs) = join "[" (join (comma_separated (dumps_items xs)) "]")
  dumps (object fs) = join "{" (join (comma_separated (map entry (dumps_fields fs))) "}")

  pub dumps_items : Items → List String
  dumps_items nil = []
  dumps_items (cons x xs) = dumps x ∷ dumps_items xs

  pub dumps_fields : Fields → List (String × String)
  dumps_fields end = []
  dumps_fields (field key value fs) = by_key (key, dumps value) (dumps_fields fs)

abbrev sample : Value
sample = object (
    field "b" (array (cons (number (pos 12)) (cons null nil)))
      (field "a" (text "x\"\n\u{1f}y") end))

dumps-sample : dumps sample ≡ "{\"a\":\"x\\\"\\n\\u001fy\",\"b\":[12,null]}"
unfolding dumps join comma_separated decimal
dumps-sample = refl
