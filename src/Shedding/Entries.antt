-- ===== src/Shedding/Entries.antt =====
-- The protected and the actionable set of src/guardian_emergency_shedding.py, and the labels of a
-- candidate.
use Prim.Native.Char.{code}
use server_resource_guardian.Prelude.{
  ℕ, suc, String, Bool, true, false, ◌&&◌, ◌||◌, not, Option, none, some, List, [], ◌∷◌, ◌++◌, ◌==◌,
  if◌then◌else◌, is_some, leb, ltb,
}
use server_resource_guardian.Prelude.Int
use server_resource_guardian.Prelude.Int.{ℤ, pos}
use server_resource_guardian.Prelude.Text.{size}
use server_resource_guardian.Prelude.Tables.Order.{order_by}
use server_resource_guardian.Value.{
  Value, text, array, object, Items, nil, cons, Fields, end, field, lookup,
}
use server_resource_guardian.Outbox.Deliver.{text_before}
use server_resource_guardian.Shedding.{
  Platform, items_of, named, fields_in, entry_id, is_full_container_id,
}
use server_resource_guardian.Shedding.Reading.{says, resource_kind}
use server_resource_guardian.Shedding.Identity.{get_entry}

-- A closing `Z` is read as `+00:00`.
normalized : String → String
normalized String.[] = ""
normalized (String.◌∷◌ c s) =
    let rest = normalized s in
    if s == "" && leb 90 (code c) && leb (code c) 90 then "+00:00" else String.◌∷◌ c rest

expired_at : ℤ → Option ℤ → Option String
expired_at now none = some "DATA_INCOMPLETE"
expired_at now (some at) = if Int.leb at now then some "ACTIONABLE_ENTRY_EXPIRED" else none

expiry_of : Platform → ℤ → Option String → Option String
unfolding normalized expired_at
expiry_of platform now none = some "DATA_INCOMPLETE"
expiry_of platform now (some expires_at) =
    expired_at now (platform.instant_of (normalized expires_at))

-- `_actionable_expiry_reason`
unfoldable pub actionable_expiry_reason : Platform → Fields → ℤ → Option String
unfolding expiry_of
actionable_expiry_reason platform entry now =
    expiry_of platform now (named (lookup "expires_at" entry))

-- `{_resource_kind(value) for value in values}`
unfoldable pub kinds_of : Platform → Items → List (Option String)
kinds_of platform nil = []
kinds_of platform (cons value rest) = resource_kind platform value ∷ kinds_of platform rest

all_known : List (Option String) → Bool
all_known [] = true
all_known (kind ∷ kinds) = is_some kind && all_known kinds

some_known : List (Option String) → Bool
unfolding all_known
some_known [] = false
some_known (kind ∷ kinds) = all_known (kind ∷ kinds)

abbrev pub list_in : Option Value → Items
list_in (some (array items)) = items
list_in _ = nil

is_incomplete : Option String → Bool
is_incomplete none = false
is_incomplete (some reason) = reason == "DATA_INCOMPLETE"

-- The checks on an entry of the actionable set.
unfoldable pub is_actionable_entry : Platform → ℤ → Fields → Bool
unfolding some_known is_incomplete
is_actionable_entry platform now entry =
    says "local-disposable" (lookup "environment" entry)
    && says "graceful_stop" (lookup "action" entry)
    && some_known (kinds_of platform (list_in (lookup "allowed_resources" entry)))
    && not (is_incomplete (actionable_expiry_reason platform entry now))

-- The entries by id so far, and the indexes of the malformed ones.
pub record Entries : Type 0 where
  pub result : List (String × Fields)
  pub malformed : List ℕ

bad : ℕ → Entries → Entries
bad index e = record e { malformed = e.malformed ++ index ∷ [] }

take_named : Platform → (actionable : Bool) → ℤ → ℕ → Fields → Option String → Entries → Entries
unfolding bad
take_named platform actionable now index entry none e = bad index e
take_named platform actionable now index entry (some id) e =
    if not (is_full_container_id id)
      || is_some (get_entry id e.result)
      || (actionable && not (is_actionable_entry platform now entry))
    then bad index e
    else record e { result = e.result ++ (id, entry) ∷ [] }

take_entry : Platform → (actionable : Bool) → ℤ → ℕ → Value → Entries → Entries
unfolding take_named
take_entry platform actionable now index (object entry) e =
    take_named platform actionable now index entry (entry_id entry) e
take_entry platform actionable now index _ e = bad index e

take_entries : Platform → (actionable : Bool) → ℤ → ℕ → Items → Entries → Entries
unfolding take_entry
take_entries platform actionable now index nil e = e
take_entries platform actionable now index (cons item rest) e =
    take_entries platform actionable now (suc index) rest
      (take_entry platform actionable now index item e)

-- `_validated_entry_map`: nothing where the entries are not a list.
unfoldable pub validated_entry_map : Platform → (actionable : Bool) → ℤ → Value → Option Entries
unfolding take_entries
validated_entry_map platform actionable now entries = elim (items_of entries) [
  | none ↦ none
  | some items ↦
      some (take_entries platform actionable now 0 items (record { result = []; malformed = [] }))
]

-- `_labels`: the entries whose key and value are texts of a bounded length, by key.
label_pairs : Fields → List (String × String)
label_pairs end = []
label_pairs (field key (text value) rest) =
    let pairs = label_pairs rest in
    if key == "" || ltb 256 (size key) || ltb 1024 (size value) then pairs else (key, value) ∷ pairs
label_pairs (field key _ rest) = label_pairs rest

unfoldable pub labels_of : Option Value → List (String × String)
unfolding label_pairs
labels_of labels = order_by (λ a b. text_before a.0 b.0) (label_pairs (fields_in labels))
