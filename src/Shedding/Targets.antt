-- ===== src/Shedding/Targets.antt =====
-- The target of `build_emergency_shedding_decision` in src/guardian_emergency_shedding.py: what the
-- checks on the ranking, the top consumer and its entry leave.
use server_resource_guardian.Prelude.{
  String, Bool, true, false, ◌≡◌, refl, sym, subst, Option, none, some, List, [], ◌∷◌, ◌++◌, ◌&&◌,
  ◌||◌, not, one_of, arith, is_some, ◌==◌, eq_refl,
}
use server_resource_guardian.Prelude.Int
use server_resource_guardian.Prelude.Tables.{find}
use server_resource_guardian.Prelude.Tables.Order.{order_by, first}
use server_resource_guardian.Value.{Fields, lookup}
use server_resource_guardian.Shedding.{Platform, Row, empty_decision}
use server_resource_guardian.Shedding.Identity.{get_entry}
use server_resource_guardian.Shedding.Entries.{actionable_expiry_reason, kinds_of, list_in}
use server_resource_guardian.Shedding.Ranking.{Request}
use server_resource_guardian.Shedding.Rows.{
  Inputs, or_zero, allows_kind, row_before, rows_of, ranked_refusal, rank_one, rank_from,
  check_agreement,
}
use server_resource_guardian.Shedding.Target.{
  check_identities, ties, top_alone, check_top, check_observe, check_entry,
}
use server_resource_guardian.Shedding.Refusals.{
  IsSafe, >>=-IsSafe, unless-IsSafe, unless_then-IsSafe, not-false,
}

or_not-false : (a b : Bool) → (a || not b) ≡ false → b ≡ true
or_not-false a b e = ground arith

module _ (platform : Platform) (q : Request) (i : Inputs) where
  -- The rows of a resource, the largest contribution first.
  abbrev pub ranking : String → List Row
  ranking resource = order_by row_before (rows_of platform q i resource)

  rank_one-IsSafe :
      (rankings : List (String × List Row))
      → (resource : String)
      → IsSafe (λ rows. rows ≡ ranking resource) (rank_one platform q i rankings resource)
  unfolding rank_one ranked_refusal empty_decision
  rank_one-IsSafe rankings resource =
      unless-IsSafe (λ rows. rows ≡ ranking resource) _ _ _ refl (λ _. refl)

  abbrev pub IsHead : String × List Row → List (String × List Row) → Type 0
  IsHead head rankings = (more : List (String × List Row)) × (rankings ≡ head ∷ more)

  rank_from-IsSafe :
      (head : String × List Row)
      → (rest : List String) → (more : List (String × List Row))
      → IsSafe (λ rs. IsHead head rs) (rank_from platform q i rest (head ∷ more))
  unfolding rank_from
  rank_from-IsSafe head [] more = (more, refl)
  rank_from-IsSafe head (resource ∷ rest) more =
      >>=-IsSafe (λ rows. rows ≡ ranking resource) (λ rs. IsHead head rs) _ _
        (rank_one-IsSafe (head ∷ more) resource)
        (λ rows _. rank_from-IsSafe head rest (more ++ (resource, rows) ∷ []))

  pub rank-IsSafe :
      (resource : String)
      → (rest : List String)
      → IsSafe
          (λ rs. IsHead (resource, ranking resource) rs)
          (rank_from platform q i (resource ∷ rest) [])
  unfolding rank_from
  rank-IsSafe resource rest =
      >>=-IsSafe (λ rows. rows ≡ ranking resource) (λ rs. IsHead (resource, ranking resource) rs) _
        _ (rank_one-IsSafe [] resource)
        (λ rows e.
          subst
            (λ r.
              IsSafe (λ rs. IsHead (resource, ranking resource) rs)
                (rank_from platform q i rest ((resource, r) ∷ [])))
            (sym e) (rank_from-IsSafe (resource, ranking resource) rest []))

  pub check_agreement-IsSafe :
      (P : List (String × List Row) → Type 0)
      → (rankings : List (String × List Row)) → P rankings
      → IsSafe P (check_agreement platform q i rankings)
  unfolding check_agreement ranked_refusal empty_decision
  check_agreement-IsSafe P rankings holds =
      >>=-IsSafe P P _ _ (unless-IsSafe P _ _ _ refl (λ _. holds))
        (λ rs p. unless-IsSafe P _ _ _ refl (λ _. p))

  pub get_entry-head :
      (resource : String)
      → (rows : List Row) → (rankings : List (String × List Row)) → IsHead (resource, rows) rankings
      → get_entry resource rankings ≡ some rows
  unfolding find
  get_entry-head resource rows rankings (more, e) =
      subst (λ rs. get_entry resource rs ≡ some rows) (sym e)
        (rw (eq_refl resource, get_entry) refl)

  module _ (rankings : List (String × List Row)) (resource : String) where
    pub check_identities-IsSafe :
        (rows : List Row)
        → IsSafe (λ r. r ≡ rows) (check_identities platform q i rankings resource rows)
    unfolding check_identities ranked_refusal empty_decision
    check_identities-IsSafe rows = unless-IsSafe (λ r. r ≡ rows) _ _ _ refl (λ _. refl)

    -- The row is the first, and the second contributes less.
    abbrev pub IsAlone : List Row → Row → Type 0
    IsAlone rows top =
        (others : List Row) × (rows ≡ top ∷ others)
        × (ties platform q i rankings resource top (first others) ≡ false)

    top_alone-IsSafe :
        (rows : List Row)
        → IsSafe (λ top. IsAlone rows top) (top_alone platform q i rankings resource rows)
    unfolding top_alone ranked_refusal empty_decision
    top_alone-IsSafe [] = refl
    top_alone-IsSafe (top ∷ rest) =
        unless-IsSafe (λ r. IsAlone (top ∷ rest) r) _ _ _ refl (λ alone. (rest, refl, alone))

    -- The checks on the top consumer.
    abbrev pub IsTop : List Row → Row → Type 0
    IsTop rows top =
        IsAlone rows top
        × (top.protected ≡ false)
        × (top.actionable ≡ true)
        × (is_some top.identity_reason ≡ false)
        × ((resource == "disk_capacity" && not top.writer_evidence) ≡ false)
        × (Int.ltb (or_zero top.contribution_percent) q.policy.min_host_contribution_percent
            ≡ false)

    pub check_top-IsSafe :
        (rows : List Row)
        → IsSafe (λ top. IsTop rows top) (check_top platform q i rankings resource rows)
    unfolding check_top ranked_refusal empty_decision
    check_top-IsSafe rows =
        >>=-IsSafe (λ r. IsAlone rows r) (λ r. IsTop rows r) _ _ (top_alone-IsSafe rows)
          (λ r alone.
            unless_then-IsSafe (λ r. IsTop rows r) _ _ _ _ refl
              (λ free.
                unless_then-IsSafe (λ r. IsTop rows r) _ _ _ _ refl
                  (λ may.
                    unless_then-IsSafe (λ r. IsTop rows r) _ _ _ _ refl
                      (λ known.
                        unless_then-IsSafe (λ r. IsTop rows r) _ _ _ _ refl
                          (λ writes.
                            unless-IsSafe (λ r. IsTop rows r) _ _ _ refl
                              (λ enough. (alone, free, not-false _ may, known, writes, enough)))))))

    pub check_observe-IsSafe :
        (P : Row → Type 0)
        → (top : Row) → P top
        → IsSafe P (check_observe platform q i rankings resource top)
    unfolding check_observe empty_decision
    check_observe-IsSafe P top holds = unless-IsSafe P _ _ _ refl (λ _. holds)

    -- The entry of the top consumer in the actionable set allows the action now.
    abbrev pub IsAllowed : Row → Fields → Type 0
    IsAllowed top entry =
        (get_entry top.id i.actionable ≡ some entry)
        × (is_some (actionable_expiry_reason platform entry i.now) ≡ false)
        × (allows_kind resource (kinds_of platform (list_in (lookup "allowed_resources" entry)))
            ≡ true)
        × (one_of "graceful_stop" i.allowed_actions ≡ true)

    check_entry_of-IsSafe :
        (top : Row)
        → (o : Option Fields) → get_entry top.id i.actionable ≡ o
        → IsSafe (λ e. IsAllowed top e) (check_entry platform q i rankings resource top o)
    unfolding check_entry ranked_refusal empty_decision
    check_entry_of-IsSafe top none e = refl
    check_entry_of-IsSafe top (some entry) e =
        unless_then-IsSafe (λ f. IsAllowed top f) _ _ _ _ refl
          (λ now.
            unless_then-IsSafe (λ f. IsAllowed top f) _ _ _ _ refl
              (λ kind.
                unless-IsSafe (λ f. IsAllowed top f) _ _ _ refl
                  (λ action. (e, now, not-false _ kind, or_not-false _ _ action))))

    pub check_entry-IsSafe :
        (top : Row)
        → IsSafe
            (λ e. IsAllowed top e)
            (check_entry platform q i rankings resource top (get_entry top.id i.actionable))
    check_entry-IsSafe top = check_entry_of-IsSafe top _ refl
