-- ===== src/Revalidation.antt =====
-- The check of a fresh observation at the time of the action: src/guardian_revalidation.py. This file
-- has what it reads; Revalidation/Checks is `revalidate_observer_event`.
pub mod Checks
pub mod Settled
pub mod Accepted
use Prim.Native.Char.{code}
use server_resource_guardian.Prelude.{
  ℕ, String, Bool, true, false, ◌&&◌, ◌||◌, not, Option, none, some, List, [], ◌∷◌, ◌==◌, join,
  if◌then◌else◌, is_some, leb, ltb,
}
use server_resource_guardian.Prelude.Int
use server_resource_guardian.Prelude.Int.{ℤ, pos}
use server_resource_guardian.Prelude.Text.{size}
use server_resource_guardian.Prelude.Tables.Order.{order_by}
use server_resource_guardian.Value.{
  Value, null, boolean, number, text, array, object, Items, nil, cons, Fields, end, field, lookup,
}
use server_resource_guardian.Outbox.Deliver.{text_before}
use server_resource_guardian.Shedding.{
  EmergencySheddingPolicy, fields_in, named, or_else, is_full_container_id,
}
use server_resource_guardian.Shedding.Identity.{positive_in}

-- The attributes of the intent that are read. A text or a number that is missing is nothing, and the
-- labels are nothing where they are not a tuple.
pub record Intent : Type 0 where
  pub observed_monotonic_ns : Value
  pub target_id : Option String
  pub target_created_at : Option String
  pub target_cgroup_path : Option String
  pub target_cgroup_inode : Option ℤ
  pub target_labels : Option (List (String × String))
  pub event_id : Option String
  pub sample_id : Option String
  pub host_id : Option String
  pub policy_digest : Option String
  pub config_digest : Option String
  pub resource_kind : Option String
  pub expires_at : Value

pub record FreshRevalidation : Type 0 where
  pub accepted : Bool
  pub reason_codes : List String
  pub fresh_event_id : Option String
  pub fresh_sample_id : Option String
  pub fresh_observed_monotonic_ns : Option ℤ
  pub registry : List Fields
  pub event : Fields

-- The arguments of one call, with the clocks that are read where an instant is `None`.
pub record Observed : Type 0 where
  pub intent : Intent
  pub original_event : Value
  pub fresh_event : Value
  pub policy : EmergencySheddingPolicy
  pub expected_config_digest : Option String
  pub now_epoch_s : Value
  pub now_monotonic_ns : Value
  pub clock : ℤ
  pub monotonic_clock : ℤ

-- `_failure`, with one reason.
unfoldable pub failure :
    String → (event_id sample_id : Option String) → Option ℤ → Fields → FreshRevalidation
failure reason event_id sample_id monotonic event = record {
  accepted = false;
  reason_codes = reason ∷ [];
  fresh_event_id = event_id;
  fresh_sample_id = sample_id;
  fresh_observed_monotonic_ns = monotonic;
  registry = [];
  event = event;
}

-- The guards in their order: the first that holds answers.
unfoldable pub settle : List (Bool × FreshRevalidation) → FreshRevalidation → FreshRevalidation
settle [] done = done
settle (guard ∷ guards) done = let rest = settle guards done in if guard.0 then guard.1 else rest

abbrev pub is_mapping : Value → Bool
is_mapping (object _) = true
is_mapping _ = false

-- `value == text`, where either may be `None`.
abbrev pub equals_text : Option Value → Option String → Bool
equals_text none none = true
equals_text (some null) none = true
equals_text (some (text s)) (some t) = s == t
equals_text _ _ = false

-- A number, and a Boolean that Python reads as one.
abbrev pub int_in : Option Value → Option ℤ
int_in (some (number n)) = some n
int_in (some (boolean true)) = some (pos 1)
int_in (some (boolean false)) = some (pos 0)
int_in _ = none

abbrev is_none : Option Value → Bool
is_none none = true
is_none (some null) = true
is_none _ = false

abbrev same_int : Option Value → Option ℤ → Option ℤ → Bool
same_int value (some m) (some n) = Int.eqb m n
same_int value none none = is_none value
same_int value _ _ = false

abbrev pub equals_int : Option Value → Option ℤ → Bool
equals_int value n = same_int value (int_in value) n

abbrev pub is_digest : Option String → Bool
is_digest none = false
is_digest (some s) = is_full_container_id s

-- A list, and an empty one.
abbrev pub is_empty_list : Option Value → Bool
is_empty_list (some (array nil)) = true
is_empty_list _ = false

-- `replace("-", "_")`
unfoldable pub underscored : String → String
underscored String.[] = ""
underscored (String.◌∷◌ c s) =
    let rest = underscored s in
    if leb 45 (code c) && leb (code c) 45 then join "_" rest else String.◌∷◌ c rest

unfoldable pub starts_with_slash : Option String → Bool
starts_with_slash none = false
starts_with_slash (some String.[]) = false
starts_with_slash (some (String.◌∷◌ c s)) = leb 47 (code c) && leb (code c) 47

pairs_of : Fields → Option (List (String × String))
pairs_of end = some []
pairs_of (field key (text value) rest) =
    let pairs = pairs_of rest in
    if key == "" || ltb 256 (size key) || ltb 1024 (size value)
    then none
    else elim pairs [ none ↦ none | some ps ↦ some ((key, value) ∷ ps) ]
pairs_of (field key _ rest) = none

abbrev sorted_pairs : Option (List (String × String)) → Option (List (String × String))
sorted_pairs none = none
sorted_pairs (some pairs) = some (order_by (λ a b. text_before a.0 b.0) pairs)

-- `_labels`: nothing where an entry is not a text of a bounded length under such a key.
unfoldable pub labels_in : Option Value → Option (List (String × String))
unfolding pairs_of
labels_in (some (object fields)) = sorted_pairs (pairs_of fields)
labels_in _ = none

abbrev pub same_pairs : List (String × String) → List (String × String) → Bool
same_pairs [] [] = true
same_pairs (a ∷ more) (b ∷ rest) = a.0 == b.0 && a.1 == b.1 && same_pairs more rest
same_pairs _ _ = false

-- `labels is not None and labels == target_labels`
abbrev pub same_labels : Option (List (String × String)) → Option (List (String × String)) → Bool
same_labels (some pairs) (some others) = same_pairs pairs others
same_labels _ _ = false
