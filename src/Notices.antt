-- ===== src/Notices.antt =====
-- The texts that src/guardian_notifications.py reads of an event; Notices/Building builds the
-- notification.
pub mod Building
pub mod Checked
use server_resource_guardian.Prelude.{
  ℕ, zero, suc, String, Bool, true, false, ◌&&◌, ◌||◌, not, Option, none, some, List, [], ◌∷◌, ◌==◌,
  join, if◌then◌else◌, one_of, is_some, ltb, map,
}
use server_resource_guardian.Prelude.Int.{ℤ, pos}
use server_resource_guardian.Prelude.Text.{size, decimal, comma_separated, sorted_set}
use server_resource_guardian.Prelude.Tables.Order.{order_by}
use server_resource_guardian.Result.{Result, ok, err, ◌>>=◌, require}
use server_resource_guardian.Value.{
  Value, null, boolean, number, text, array, object, Items, nil, cons, Fields, end, field, lookup,
  truth,
}
use server_resource_guardian.Controller.{str}
use server_resource_guardian.Outbox.Deliver.{text_before}
use server_resource_guardian.State.{Fault}
use server_resource_guardian.Outbox.{Tables, OutboxResult}
use server_resource_guardian.Outbox.Settings.{Settings}
use server_resource_guardian.Outbox.Enqueue.{enqueue}
use server_resource_guardian.Outbox.Payload.{notifiable_states}
use server_resource_guardian.Shedding.{fields_in, or_else}
use server_resource_guardian.Shedding.Identity.{positive_in}

-- `_string`, where the text is not required.
unfoldable pub string_in : Option Value → Option String
string_in (some (text s)) = if s == "" || ltb 512 (size s) then none else some s
string_in _ = none

abbrev pub required : String → Option String → Result String
required label none = err (join label "_required")
required label (some s) = ok s

abbrev or_text : Option String → String → String
or_text none default = default
or_text (some s) default = s

first_of : ℕ → List String → List String
first_of zero ss = []
first_of (suc n) [] = []
first_of (suc n) (s ∷ ss) = s ∷ first_of n ss

texts_of : Items → List String
texts_of nil = []
texts_of (cons (text s) rest) = let more = texts_of rest in if s == "" then more else s ∷ more
texts_of (cons _ rest) = texts_of rest

-- `_safe_strings`
unfoldable pub safe_strings : Option Value → List String
unfolding first_of texts_of
safe_strings (some (array items)) = first_of 12 (texts_of items)
safe_strings _ = []

all_texts : Items → List String
all_texts nil = []
all_texts (cons (text s) rest) = s ∷ all_texts rest
all_texts (cons _ rest) = all_texts rest

colon_separated : List String → String
colon_separated [] = ""
colon_separated (t ∷ []) = t
colon_separated (t ∷ u ∷ ts) = join t (join ":" (colon_separated (u ∷ ts)))

abbrev or_host : String → String
or_host s = if s == "" then "host" else s

unfoldable pub items_of_texts : List String → Items
items_of_texts [] = nil
items_of_texts (s ∷ ss) = cons (text s) (items_of_texts ss)

unfoldable pub fields_of_texts : List (String × String) → Fields
fields_of_texts [] = end
fields_of_texts (s ∷ ss) = field s.0 (text s.1) (fields_of_texts ss)

-- `value or …`, of a value that may be missing.
abbrev truthy : Option Value → Option Value
truthy none = none
truthy (some value) = if truth value then some value else none

abbrev is_list : Option Value → Bool
is_list (some (array _)) = true
is_list _ = false

abbrev items_in : Option Value → Items
items_in (some (array items)) = items
items_in _ = nil
