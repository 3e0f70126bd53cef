-- ===== src/Shedding/Ranking.antt =====
-- The checks on the inputs of `build_emergency_shedding_decision` in
-- src/guardian_emergency_shedding.py, and the ranking of the candidates for each resource.
use server_resource_guardian.Prelude.{
  ℕ, suc, String, Bool, true, false, ◌&&◌, ◌||◌, not, Option, none, some, List, [], ◌∷◌, ◌==◌,
  if◌then◌else◌, one_of, is_some,
}
use server_resource_guardian.Prelude.Int
use server_resource_guardian.Prelude.Int.{ℤ, pos}
use server_resource_guardian.Prelude.Text.{sorted_set}
use server_resource_guardian.Prelude.Tables.{find, select}
use server_resource_guardian.Value.{
  Value, null, boolean, number, text, array, object, Items, nil, cons, Fields, end, field, lookup,
}
use server_resource_guardian.Shedding.{
  Platform, EmergencySheddingPolicy, Shedding, empty_decision, Step, refused, went, ◌>>=◌, unless,
  items_of, entry_id,
}
use server_resource_guardian.Shedding.Reading.{
  says, risk_of, risk_state, is_confirmed, sample_complete,
}
use server_resource_guardian.Shedding.Identity.{has_key}
use server_resource_guardian.Shedding.Entries.{Entries, validated_entry_map}

-- The arguments of one call.
pub record Request : Type 0 where
  pub host_risks : Value
  pub candidates : Value
  pub registry : Value
  pub protected_set : Value
  pub actionable_set : Value
  pub mode : Value
  pub policy : EmergencySheddingPolicy
  pub allowed_actions : Value
  pub event_id : Option String
  pub sample_id : Option String
  pub config_digest : Option String
  -- `now_epoch_s`, and the clock that is read where it is `None`.
  pub now_epoch_s : Value
  pub clock : ℤ

abbrev mode_text : Value → String
mode_text (text s) = s
mode_text _ = "invalid"

abbrev pub execution_of : String → String
execution_of mode = if mode == "observe" then "not_applicable" else "not_executed"

-- A refusal before any ranking.
unfoldable pub refusal :
    (mode execution : String) → List String → Option String → Fields → List String → Shedding
refusal mode execution reasons resource details active = record {
  decision = record (empty_decision mode execution reasons) {
    resource_kind = resource;
    details = details;
  };
  active_resources = active;
  rankings = [];
}

abbrev incomplete_data : List String
incomplete_data = "DATA_INCOMPLETE" ∷ "NO_EFFECTIVE_SHEDDING_TARGET" ∷ []

-- The policy is enabled and the mode is one of the three.
unfoldable pub check_mode : Request → Step String
unfolding refusal
check_mode q =
    let mode = mode_text q.mode in
    unless (not q.policy.enabled)
      (refusal mode (execution_of mode) ("EMERGENCY_SHEDDING_DISABLED" ∷ []) none end []) mode
    >>= λ m.
        unless (not (one_of m ("observe" ∷ "simulate" ∷ "enforce" ∷ [])))
          (refusal m "not_executed" ("EMERGENCY_SHEDDING_SIMULATE_ONLY" ∷ []) none end []) m

-- The instant of the call.
unfoldable pub check_clock : Request → String → Step ℤ
unfolding refusal
check_clock q mode = elim q.now_epoch_s [
  | null ↦ went q.clock
  | number n ↦ went n
  | boolean _ ↦ refused (refusal mode (execution_of mode) incomplete_data none end [])
  | text _ ↦ refused (refusal mode (execution_of mode) incomplete_data none end [])
  | array _ ↦ refused (refusal mode (execution_of mode) incomplete_data none end [])
  | object _ ↦ refused (refusal mode (execution_of mode) incomplete_data none end [])
]

module _ (platform : Platform) (q : Request) where
  abbrev pub risk_for : String → Fields
  risk_for kind = risk_of platform q.host_risks kind

  unfoldable pub active_resources : List String
  active_resources = select (λ r. is_confirmed platform (risk_for r)) q.policy.resource_priority

  -- Critical, but without a complete window of samples.
  unfoldable pub is_unready : String → Bool
  is_unready kind =
      one_of (risk_state platform (risk_for kind)) ("CRITICAL" ∷ "CRITICAL_CONFIRMED" ∷ [])
      && not (sample_complete q.policy (risk_for kind))

  unfoldable pub unready_risks : String → Option String → List String → Step (List String)
  unready_risks mode (some kind) active =
      refused (refusal mode (execution_of mode) ("INCOMPLETE_SAMPLES" ∷ []) (some kind) end active)
  unready_risks mode none [] =
      refused (refusal mode (execution_of mode) ("HOST_RISK_NOT_CONFIRMED" ∷ []) none end [])
  unready_risks mode none (kind ∷ kinds) = went (kind ∷ kinds)

  -- At least one resource is confirmed, and none is critical without its samples.
  unfoldable pub check_risks : String → Step (List String)
  unfolding unready_risks
  check_risks mode =
      unready_risks mode (find is_unready q.policy.resource_priority) active_resources

-- The indexes of the items that are not containers with an id.
unfoldable pub malformed_from : ℕ → Items → List ℕ
malformed_from index nil = []
malformed_from index (cons (object item) rest) =
    let more = malformed_from (suc index) rest in
    if says "container" (lookup "kind" item) && is_some (entry_id item) then more else index ∷ more
malformed_from index (cons _ rest) = index ∷ malformed_from (suc index) rest

-- The containers by id, in order.
unfoldable pub containers : Items → List (String × Fields)
containers nil = []
containers (cons (object item) rest) =
    let more = containers rest in elim (entry_id item) [ none ↦ more | some id ↦ (id, item) ∷ more ]
containers (cons _ rest) = containers rest

-- The ids that occur again later.
unfoldable pub repeated : {A : Type 0} → List (String × A) → List String
repeated [] = []
repeated (entry ∷ rest) =
    let more = repeated rest in
    if is_some (find (has_key entry.0) rest) then entry.0 ∷ more else more

indexes : List ℕ → Items
indexes [] = nil
indexes (n ∷ ns) = cons (number (pos n)) (indexes ns)

names : List String → Items
names [] = nil
names (s ∷ ss) = cons (text s) (names ss)

abbrev pub is_empty : {A : Type 0} → List A → Bool
is_empty [] = true
is_empty (_ ∷ _) = false

module _ (mode : String) (active : List String) where
  unreadable : Fields → Shedding
  unreadable details = refusal mode (execution_of mode) incomplete_data none details active

  check_items : String → Items → Step (List (String × Fields))
  unfolding unreadable indexes
  check_items label items =
      unless (not (is_empty (malformed_from 0 items)))
        (unreadable (field label (array (indexes (malformed_from 0 items))) end)) (containers items)

  unfoldable pub check_list : (input label : String) → Option Items → Step (List (String × Fields))
  unfolding unreadable check_items
  check_list input label none = refused (unreadable (field input (boolean true) end))
  check_list input label (some items) = check_items label items

  -- Every candidate is a container with an id of its own.
  unfoldable pub check_candidates : Value → Step (List (String × Fields))
  unfolding check_list unreadable names
  check_candidates candidates =
      check_list "malformed_candidate_input" "malformed_candidate_indexes" (items_of candidates)
      >>= λ cs.
          unless (not (is_empty (repeated cs)))
            (unreadable
              (field "duplicate_candidate_ids" (array (names (sorted_set (repeated cs)))) end))
            cs

  -- The registry is not empty, and every entry is a container with an id of its own.
  unfoldable pub check_registry : Value → Step (List (String × Fields))
  unfolding check_list unreadable names
  check_registry registry =
      check_list "malformed_registry_input" "malformed_registry_indexes" (items_of registry)
      >>= λ rs.
          unless (is_empty rs)
            (refusal mode (execution_of mode)
              ("INCOMPLETE_SAMPLES" ∷ "NO_EFFECTIVE_SHEDDING_TARGET" ∷ []) none end active)
            rs
          >>= λ es.
              unless (not (is_empty (repeated es)))
                (unreadable
                  (field "duplicate_registry_ids" (array (names (sorted_set (repeated es)))) end))
                es

  -- The detail that names malformed entries: -1 stands for a set that is not a list.
  malformed_detail : String → Option Entries → Fields → Fields
  unfolding indexes
  malformed_detail label none rest = field label (array (cons (number (Int.negsuc 0)) nil)) rest
  malformed_detail label (some e) rest =
      if is_empty e.malformed then rest else field label (array (indexes e.malformed)) rest

  unfoldable pub sets_of :
      Option Entries
      → Option Entries
      → Fields
      → Step (List (String × Fields) × List (String × Fields))
  unfolding unreadable
  sets_of (some protected) (some actionable) details =
      unless (not (is_empty protected.malformed) || not (is_empty actionable.malformed))
        (unreadable details) (protected.result, actionable.result)
  sets_of _ _ details = refused (unreadable details)

  -- The protected and the actionable set, every entry of which is well formed.
  unfoldable pub check_sets :
      Platform
      → ℤ
      → (protected actionable : Value) → Step (List (String × Fields) × List (String × Fields))
  unfolding sets_of malformed_detail
  check_sets platform now protected actionable =
      let p = validated_entry_map platform false now protected in
      let a = validated_entry_map platform true now actionable in
      sets_of p a (
        malformed_detail "malformed_protected_set_indexes" p
          (malformed_detail "malformed_actionable_set_indexes" a end))

  texts_in : Items → Option (List String)
  texts_in nil = some []
  texts_in (cons (text s) rest) = elim (texts_in rest) [ none ↦ none | some ts ↦ some (s ∷ ts) ]
  texts_in (cons _ rest) = none

  texts_of : Value → Option (List String)
  unfolding texts_in
  texts_of (array items) = texts_in items
  texts_of _ = none

  unfoldable pub allowed_of : Option (List String) → Step (List String)
  unfolding refusal
  allowed_of none = refused (
      refusal mode (execution_of mode) ("DATA_INCOMPLETE" ∷ "ACTION_NOT_ALLOWLISTED" ∷ []) none end
        active)
  allowed_of (some actions) = went actions

  -- The allowed actions are a list of texts.
  unfoldable pub check_allowed : Value → Step (List String)
  unfolding texts_of
  check_allowed allowed = allowed_of (texts_of allowed)
