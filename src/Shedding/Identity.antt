-- ===== src/Shedding/Identity.antt =====
-- The identity and the contribution of a candidate in src/guardian_emergency_shedding.py.
use server_resource_guardian.Prelude.{
  String, Bool, true, false, ◌&&◌, ◌||◌, not, Option, none, some, List, [], ◌∷◌, ◌==◌,
  if◌then◌else◌, is_some,
}
use server_resource_guardian.Prelude.Int
use server_resource_guardian.Prelude.Int.{ℤ, pos}
use server_resource_guardian.Prelude.Tables.{find}
use server_resource_guardian.Value.{Value, number, object, Fields, lookup}
use server_resource_guardian.Shedding.{named, or_else, fields_in, entry_id, is_full_container_id}
use server_resource_guardian.Shedding.Reading.{is_true, number_in}

-- `_identity_fields`
pub record Identity : Type 0 where
  pub stable_id : Option String
  pub created_at : Option String
  pub cgroup_path : Option String
  pub cgroup_inode : Option ℤ

abbrev pub positive_in : Option Value → Option ℤ
positive_in (some (number n)) = if Int.leb n (pos 0) then none else some n
positive_in _ = none

unfoldable pub identity_fields : Fields → Identity
identity_fields value = record {
  stable_id = entry_id value;
  created_at = named (lookup "created_at" value);
  cgroup_path = named (lookup "cgroup_path" value);
  cgroup_inode = positive_in (lookup "cgroup_inode" value);
}

abbrev pub same_text : Option String → Option String → Bool
same_text none none = true
same_text (some s) (some t) = s == t
same_text _ _ = false

abbrev pub same_number : Option ℤ → Option ℤ → Bool
same_number none none = true
same_number (some m) (some n) = Int.eqb m n
same_number _ _ = false

-- The candidate against what the registry has under its id.
compared : Identity → String → Option Fields → Option String
compared own id none = some "TARGET_IDENTITY_CHANGED"
compared own id (some observed) =
    let other = identity_fields observed in
    if same_text other.stable_id (some id)
      && same_text own.created_at other.created_at
      && same_text own.cgroup_path other.cgroup_path
      && same_number own.cgroup_inode other.cgroup_inode
    then none
    else some "TARGET_IDENTITY_CHANGED"

abbrev pub has_key : {A : Type 0} → String → String × A → Bool
has_key key entry = entry.0 == key

abbrev pub get_entry : {A : Type 0} → String → List (String × A) → Option A
get_entry key entries = elim (find (has_key key) entries) [ none ↦ none | some e ↦ some e.1 ]

identity_against : Identity → Option String → List (String × Fields) → Option String
unfolding compared
identity_against own none registry = some "DATA_INCOMPLETE"
identity_against own (some id) registry =
    if not (is_full_container_id id)
      || not (is_some own.created_at)
      || not (is_some own.cgroup_path)
      || not (is_some own.cgroup_inode)
    then some "DATA_INCOMPLETE"
    else compared own id (get_entry id registry)

-- `_identity_reason`
unfoldable pub identity_reason : Fields → List (String × Fields) → Option String
unfolding identity_against
identity_reason candidate registry =
    if is_true (lookup "identity_changed" candidate)
      || is_true (lookup "registry_identity_changed" candidate)
    then some "TARGET_IDENTITY_CHANGED"
    else identity_against (identity_fields candidate) (entry_id candidate) registry

-- The mapping of contributions, where there is one.
listed_contribution : String → Option Value → Option Value → Option ℤ
listed_contribution kind (some (object values)) rest = number_in (lookup kind values)
listed_contribution kind _ (some (object values)) = number_in (lookup kind values)
listed_contribution kind _ _ = none

contribution_keys : String → List String
contribution_keys kind =
    if kind == "memory"
    then "memory_contribution_percent" ∷ "host_contribution_percent" ∷ "memory_growth_share_percent"
      ∷ []
    else if kind == "cpu"
    then "cpu_contribution_percent" ∷ "host_contribution_percent" ∷ []
    else if kind == "io"
    then "io_contribution_percent" ∷ "host_contribution_percent" ∷ []
    else "capacity_contribution_percent" ∷ "capacity_writer_contribution_percent"
      ∷ "host_contribution_percent" ∷ []

first_number : List String → Fields → Option ℤ
first_number [] fields = none
first_number (key ∷ keys) fields =
    or_else (number_in (lookup key fields)) (first_number keys fields)

-- `_contribution`, with the second look that the ranking takes at the first mapping.
unfoldable pub contribution_of : Fields → String → Option ℤ
unfolding listed_contribution contribution_keys first_number
contribution_of candidate kind =
    or_else
      (listed_contribution kind (lookup "resource_contributions" candidate)
        (lookup "contributions" candidate))
      (or_else (first_number (contribution_keys kind) candidate)
        (number_in (lookup kind (fields_in (lookup "resource_contributions" candidate)))))
