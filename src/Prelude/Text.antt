-- ===== src/Prelude/Text.antt =====
-- Texts walked by character: decimal numerals, `str.strip`, `",".join` and sorted sets of texts.
use Prim.Native.Nat.{ℕ, zero, suc, ◌/◌, ◌%◌, Ordering}
use Prim.Native.Char.{code}
use Prim.Native.String.{String, compare}
use mathlib.Core.Bool.{Bool, true, ◌&&◌, ◌||◌}
use mathlib.Core.List.{List, [], ◌∷◌}
use text.Mathlib.Text.{◌==◌}
use server_resource_guardian.Prelude.Tests.{ltb, leb, if◌then◌else◌, join}
use server_resource_guardian.Prelude.Int.{ℤ, pos, negsuc}

-- The number of characters.
unfoldable pub size : String → ℕ
size String.[] = 0
size (String.◌∷◌ c s) = suc (size s)

-- Every character passes the test on its code point.
unfoldable pub every : (ℕ → Bool) → String → Bool
every test String.[] = true
every test (String.◌∷◌ c s) = test (code c) && every test s

digit : ℕ → String
digit n =
    if leb n 0
    then "0"
    else if leb n 1
    then "1"
    else if leb n 2
    then "2"
    else if leb n 3
    then "3"
    else if leb n 4
    then "4"
    else if leb n 5
    then "5"
    else if leb n 6
    then "6"
    else if leb n 7
    then "7"
    else if leb n 8
    then "8"
    else "9"

-- The decimal digits of `n`, with `n` itself as fuel: each round divides by ten.
decimal_from : ℕ → ℕ → String
unfolding digit join
decimal_from zero n = digit n
decimal_from (suc fuel) n =
    let rest = join (decimal_from fuel (n / 10)) (digit (n % 10)) in
    if ltb n 10 then digit n else rest

-- `str(n)` on an integer.
unfoldable pub decimal : ℤ → String
unfolding decimal_from
decimal (pos n) = decimal_from n n
decimal (negsuc n) = join "-" (decimal_from (suc n) (suc n))

-- The code points that `str.strip` removes.
is_space : ℕ → Bool
is_space c =
    (leb 9 c && leb c 13)
    || (leb 28 c && leb c 32)
    || (leb 133 c && leb c 133)
    || (leb 160 c && leb c 160)
    || (leb 5760 c && leb c 5760)
    || (leb 8192 c && leb c 8202)
    || (leb 8232 c && leb c 8233)
    || (leb 8239 c && leb c 8239)
    || (leb 8287 c && leb c 8287)
    || (leb 12288 c && leb c 12288)

strip_left : String → String
unfolding is_space
strip_left String.[] = ""
strip_left (String.◌∷◌ c s) =
    let rest = strip_left s in if is_space (code c) then rest else String.◌∷◌ c s

strip_right : String → String
unfolding is_space
strip_right String.[] = ""
strip_right (String.◌∷◌ c s) =
    let rest = strip_right s in if rest == "" && is_space (code c) then "" else String.◌∷◌ c rest

-- `text.strip()`
unfoldable pub strip : String → String
unfolding strip_left strip_right
strip s = strip_right (strip_left s)

-- `",".join(texts)`
unfoldable pub comma_separated : List String → String
unfolding join
comma_separated [] = ""
comma_separated (t ∷ []) = t
comma_separated (t ∷ u ∷ ts) = join t (join "," (comma_separated (u ∷ ts)))

unfoldable pub insert : String → List String → List String
insert t [] = t ∷ []
insert t (u ∷ us) =
    let rest = insert t us in
    elim (compare t u) [ Ordering.lt ↦ t ∷ u ∷ us | Ordering.eq ↦ u ∷ us | Ordering.gt ↦ u ∷ rest ]

-- `sorted(set(texts))`
unfoldable pub sorted_set : List String → List String
unfolding insert
sorted_set [] = []
sorted_set (t ∷ ts) = insert t (sorted_set ts)
