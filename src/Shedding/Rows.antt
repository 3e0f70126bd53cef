-- ===== src/Shedding/Rows.antt =====
-- `build_emergency_shedding_decision` of src/guardian_emergency_shedding.py: the rows of the
-- candidates and the ranking for each resource.
use server_resource_guardian.Prelude.{
  String, Bool, false, ◌&&◌, ◌||◌, not, Option, none, some, List, [], ◌∷◌, ◌++◌, ◌==◌, one_of,
  is_some, length, ltb, map,
}
use server_resource_guardian.Prelude.Int
use server_resource_guardian.Prelude.Int.{ℤ, pos}
use server_resource_guardian.Prelude.Tables.{find, select}
use server_resource_guardian.Prelude.Tables.Order.{order_by}
use server_resource_guardian.Value.{null, text, object, Fields, end, field, lookup}
use server_resource_guardian.Outbox.Deliver.{text_before}
use server_resource_guardian.Shedding.{
  Platform, Row, Shedding, empty_decision, Step, went, ◌>>=◌, unless,
}
use server_resource_guardian.Shedding.Reading.{is_true, text_or}
use server_resource_guardian.Shedding.Identity.{
  identity_reason, contribution_of, same_number, get_entry,
}
use server_resource_guardian.Shedding.Ranking.{Request, execution_of, is_empty}

-- The inputs after the checks.
pub record Inputs : Type 0 where
  pub mode : String
  pub now : ℤ
  pub active : List String
  pub candidates : List (String × Fields)
  pub registry : List (String × Fields)
  pub protected : List (String × Fields)
  pub actionable : List (String × Fields)
  pub allowed_actions : List String

-- `value or ""`
abbrev pub or_empty : Option String → String
or_empty none = ""
or_empty (some s) = s

abbrev pub or_zero : Option ℤ → ℤ
or_zero none = pos 0
or_zero (some n) = n

abbrev pub or_missing : Option String → String
or_missing none = "DATA_INCOMPLETE"
or_missing (some reason) = reason

abbrev is_kind_of : String → Option String → Bool
is_kind_of resource none = false
is_kind_of resource (some kind) = kind == resource

unfoldable pub allows_kind : String → List (Option String) → Bool
allows_kind resource [] = false
allows_kind resource (kind ∷ kinds) = is_kind_of resource kind || allows_kind resource kinds

-- The larger contribution first, then the smaller id.
abbrev pub larger : Option ℤ → Option ℤ → Bool
larger (some m) (some n) = Int.ltb n m
larger _ _ = false

unfoldable pub row_before : Row → Row → Bool
row_before r s =
    larger r.contribution_percent s.contribution_percent
    || (same_number r.contribution_percent s.contribution_percent && text_before r.id s.id)

abbrev pub no_target : String → List String
no_target reason = reason ∷ "NO_EFFECTIVE_SHEDDING_TARGET" ∷ []

module _ (platform : Platform) (q : Request) (i : Inputs) where
  unfoldable pub is_running : Fields → Bool
  is_running candidate =
      is_true (lookup "running" candidate)
      || one_of (platform.lower (text_or platform (lookup "status" candidate) "unknown"))
          ("running" ∷ "restarting" ∷ [])

  unfoldable pub row_of : String → String × Fields → Row
  row_of resource (id, candidate) = record {
    id = id;
    name = elim (lookup "name" candidate) [ none ↦ null | some value ↦ value ];
    contribution_percent = contribution_of candidate resource;
    protected = is_some (get_entry id i.protected);
    actionable = is_some (get_entry id i.actionable);
    identity_reason = identity_reason candidate i.registry;
    writer_evidence =
        not (resource == "disk_capacity")
        || is_true (lookup "writer_evidence" candidate)
        || is_true (lookup "capacity_writer" candidate);
  }

  unfoldable pub rows_of : String → List Row
  unfolding row_of is_running
  rows_of resource =
      map (λ c. row_of resource c) (select (λ (c : String × Fields). is_running c.1) i.candidates)

  -- A refusal with the rankings so far.
  unfoldable pub ranked_refusal :
      List (String × List Row) → List String → Option String → Option String → Fields → Shedding
  ranked_refusal rankings reasons resource top details = record {
    decision = record (empty_decision i.mode (execution_of i.mode) reasons) {
      resource_kind = resource;
      top_consumer = top;
      details = details;
    };
    active_resources = i.active;
    rankings = rankings;
  }

  -- The rows of one resource, all with a contribution, the largest first.
  unfoldable pub rank_one : List (String × List Row) → String → Step (List Row)
  unfolding ranked_refusal rows_of row_before
  rank_one rankings resource =
      unless
        (is_some (find (λ r. not (is_some r.contribution_percent)) (rows_of resource))
          || is_empty (rows_of resource))
        (ranked_refusal
          (rankings ++ (resource, order_by (λ r s. text_before r.id s.id) (rows_of resource)) ∷ [])
          (no_target "INCOMPLETE_SAMPLES") (some resource) none end)
        (order_by row_before (rows_of resource))

  unfoldable pub rank_from :
      List String → List (String × List Row) → Step (List (String × List Row))
  unfolding rank_one
  rank_from [] rankings = went rankings
  rank_from (resource ∷ rest) rankings =
      rank_one rankings resource >>= λ rows. rank_from rest (rankings ++ (resource, rows) ∷ [])

  -- The ranking of every active resource.
  unfoldable pub rank : Step (List (String × List Row))
  unfolding rank_from
  rank = rank_from i.active []

  -- `top_by_resource`
  unfoldable pub tops : List (String × List Row) → List (String × Row)
  tops [] = []
  tops ((resource, []) ∷ rest) = tops rest
  tops ((resource, row ∷ rows) ∷ rest) = (resource, row) ∷ tops rest

  top_names : List (String × Row) → Fields
  top_names [] = end
  top_names (entry ∷ rest) = field entry.0 (text entry.1.id) (top_names rest)

  -- Two resources whose top consumers are different objects.
  unfoldable pub disagree : List (String × Row) → Bool
  disagree [] = false
  disagree (entry ∷ rest) =
      is_some (find (λ (other : String × Row). not (other.1.id == entry.1.id)) rest)

  lacks_writer : Option Row → Bool
  lacks_writer none = false
  lacks_writer (some row) = not row.writer_evidence

  top_id : Option Row → Option String
  top_id none = none
  top_id (some row) = some row.id

  -- All active resources point at one object, which writes if the disk is among them.
  unfoldable pub check_agreement : List (String × List Row) → Step (List (String × List Row))
  unfolding ranked_refusal top_names lacks_writer top_id
  check_agreement rankings =
      let top = tops rankings in
      let disk = get_entry "disk_capacity" top in
      unless (ltb 1 (length i.active) && disagree top)
        (ranked_refusal rankings (no_target "MULTI_RESOURCE_AMBIGUOUS") (some "multi_resource") none
          (field "top_consumers" (object (top_names top)) end))
        rankings
      >>= λ rs.
          unless (lacks_writer disk)
            (ranked_refusal rs (no_target "CAPACITY_WRITER_EVIDENCE_MISSING") (some "disk_capacity")
              (top_id disk) end)
            rs
