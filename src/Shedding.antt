-- ===== src/Shedding.antt =====
-- Emergency shedding: src/guardian_emergency_shedding.py. This file has the policy, the plan and the
-- decision; Shedding/Reading, Shedding/Identity and Shedding/Entries read the inputs, Shedding/Ranking ranks the candidates and
-- Shedding/Decide is `build_emergency_shedding_decision`.
pub mod Policy
pub mod Reading
pub mod Identity
pub mod Entries
pub mod Ranking
pub mod Rows
pub mod Target
pub mod Decide
pub mod Refusals
pub mod Targets
pub mod Plans
use server_resource_guardian.Prelude.{
  ℕ, String, Bool, true, false, ◌&&◌, ◌||◌, Option, none, some, List, [], ◌∷◌, ◌++◌, ◌==◌, not, leb,
  if◌then◌else◌,
}
use server_resource_guardian.Prelude.Int.{ℤ}
use server_resource_guardian.Prelude.Text.{size, every, sorted_set}
use server_resource_guardian.Value.{
  Value, text, array, object, Items, nil, cons, Fields, end, lookup,
}

-- What the module uses of Python: the texts of lists and mappings, `str.upper` and `str.lower`,
-- `datetime.fromisoformat` with its time zone (nothing where it raises or has none), and SHA-256.
pub record Platform : Type 0 where
  pub repr : Value → String
  pub upper : String → String
  pub lower : String → String
  pub instant_of : String → Option ℤ
  pub sha256 : String → String

abbrev pub supported_resources : List String
supported_resources = "memory" ∷ "cpu" ∷ "io" ∷ "disk_capacity" ∷ []

pub record EmergencySheddingPolicy : Type 0 where
  pub enabled : Bool
  pub window_seconds : Value
  pub required_samples : ℤ
  pub min_host_contribution_percent : ℤ
  pub resource_priority : List String
  pub action : String
  pub protected_set : List Fields
  pub actionable_set : List Fields

pub record EmergencySheddingPlan : Type 0 where
  pub plan_id : String
  pub resource_kind : String
  pub target_id : String
  pub target_created_at : String
  pub target_cgroup_path : String
  pub target_cgroup_inode : ℤ
  pub target_labels : List (String × String)
  pub action : String
  pub execution : String
  pub max_actions : ℕ
  pub root_cause_claimed : Bool
  pub event_id : String
  pub sample_id : String
  pub policy_digest : String
  pub config_digest : String
  pub expires_at : String

-- One candidate in the ranking of a resource.
pub record Row : Type 0 where
  pub id : String
  pub name : Value
  pub contribution_percent : Option ℤ
  pub protected : Bool
  pub actionable : Bool
  pub identity_reason : Option String
  pub writer_evidence : Bool

pub record Decision : Type 0 where
  pub mode : String
  pub action : String
  pub execution : String
  pub resource_kind : Option String
  pub target_id : Option String
  pub top_consumer : Option String
  pub reason_codes : List String
  pub plan : Option EmergencySheddingPlan
  pub plans_count : ℕ
  -- The further entries that a refusal adds.
  pub details : Fields

pub record Shedding : Type 0 where
  pub decision : Decision
  pub active_resources : List String
  pub rankings : List (String × List Row)

-- `_empty_decision`; the reasons are texts that are not empty.
unfoldable pub empty_decision : (mode execution : String) → List String → Decision
empty_decision mode execution reasons = record {
  mode = mode;
  action = "none";
  execution = execution;
  resource_kind = none;
  target_id = none;
  top_consumer = none;
  reason_codes = sorted_set reasons;
  plan = none;
  plans_count = 0;
  details = end;
}

-- A check ends the call with a refusal, or goes on with a value.
pub data Step (A : Type 0) : Type 0 where
  refused : Shedding → Step A
  went : A → Step A

infixl 5 ◌>>=◌
abbrev pub ◌>>=◌ : {A B : Type 0} → (first : Step A) → (next : A → Step B) → Step B
refused s >>= next = refused s
went a >>= next = next a

-- `if refusing: return …`
unfoldable pub unless : {A : Type 0} → Bool → Shedding → A → Step A
unless refusing s a = if refusing then refused s else went a

-- `_materialize_iterable`: only a list can be walked.
abbrev pub items_of : Value → Option Items
items_of (array items) = some items
items_of _ = none

-- A text that is not empty.
unfoldable pub named : Option Value → Option String
named (some (text s)) = if s == "" then none else some s
named _ = none

abbrev pub or_else : {A : Type 0} → Option A → Option A → Option A
or_else none rest = rest
or_else (some a) rest = some a

-- `value if isinstance(value, Mapping) else {}`
abbrev pub fields_in : Option Value → Fields
fields_in (some (object fields)) = fields
fields_in _ = end

first_id : Fields → Option String
unfolding named
first_id fields =
    or_else (named (lookup "stable_id" fields))
      (or_else (named (lookup "container_id" fields)) (named (lookup "id" fields)))

-- `_entry_id`
unfoldable pub entry_id : Fields → Option String
unfolding first_id
entry_id fields = or_else (first_id fields) (first_id (fields_in (lookup "selector" fields)))

is_hex : ℕ → Bool
is_hex c = (leb 48 c && leb c 57) || (leb 97 c && leb c 102)

-- `FULL_CONTAINER_ID.fullmatch`
unfoldable pub is_full_container_id : String → Bool
unfolding is_hex
is_full_container_id s = leb 64 (size s) && leb (size s) 64 && every is_hex s
