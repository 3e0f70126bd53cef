-- ===== src/Joint/Agreement.antt =====
-- The confirmed targets of src/guardian_multirisk.py: one target for every active resource.
use server_resource_guardian.Prelude.{
  ◌≡◌, refl, ℕ, ◌+◌, ◌≤◌, String, Bool, true, Option, none, some, List, [], ◌∷◌, ◌++◌, arith,
  eq_iff, length, length-append, All, is_some,
}
use server_resource_guardian.Prelude.Tables.{find}
use server_resource_guardian.Value.{Value, Fields}
use server_resource_guardian.Joint.{
  Targets, has_key, add_kind, add_target, mapping_at, target_id, attribution_state, targets_from,
  targets, no_targets,
}

-- A target is among the confirmed ones.
unfoldable pub is_confirmed : String → List (String × List String) → Bool
is_confirmed key entries = is_some (find (has_key key) entries)

add_kind-added :
    (target kind : String) (entries : List (String × List String))
    → is_confirmed target (add_kind target kind entries) ≡ true
unfolding is_confirmed add_kind find
add_kind-added target kind [] = ground (arith, eq_iff target target)
add_kind-added target kind ((key, kinds) ∷ rest) =
    ground (arith, add_kind-added target kind rest, eq_iff key target)

add_kind-kept :
    (target kind other : String) (entries : List (String × List String))
    → is_confirmed other entries ≡ true
    → is_confirmed other (add_kind target kind entries) ≡ true
unfolding is_confirmed add_kind find
add_kind-kept target kind other [] h = cc
add_kind-kept target kind other ((key, kinds) ∷ rest) h =
    ground (arith, add_kind-kept target kind other rest, eq_iff key target, eq_iff key other)

-- Where there is at most one, two confirmed targets are the same.
single_target :
    (entries : List (String × List String)) (a b : String)
    → length entries ≤ 1
    → is_confirmed a entries ≡ true
    → is_confirmed b entries ≡ true
    → a ≡ b
unfolding is_confirmed find
single_target [] a b h p q = cc
single_target ((key, kinds) ∷ []) a b h p q = ground (arith, eq_iff key a, eq_iff key b)
single_target ((key, kinds) ∷ e ∷ es) a b h p q = ground arith

-- The target of an evaluation is among the confirmed ones.
abbrev pub HasTarget : List (String × List String) → String × Fields → Type 0
HasTarget entries e =
    (t : String) × (target_id (mapping_at "attribution" e.1) ≡ some t)
    × (is_confirmed t entries ≡ true)

add_target-kept :
    (kind : String) (attribution : Fields) (o : Option String) (ts : Targets) (u : String)
    → is_confirmed u ts.confirmed ≡ true
    → is_confirmed u (add_target kind attribution o ts).confirmed ≡ true
unfolding add_target
add_target-kept kind attribution none ts u h = h
add_target-kept kind attribution (some t) ts u h = add_kind-kept t kind u ts.confirmed h

targets_from-kept :
    (repr : Value → String) (xs : List (String × Fields)) (ts : Targets) (u : String)
    → is_confirmed u ts.confirmed ≡ true
    → is_confirmed u (targets_from repr xs ts).confirmed ≡ true
unfolding targets_from
targets_from-kept repr [] ts u h = h
targets_from-kept repr ((kind, e) ∷ rest) ts u h = targets_from-kept repr rest _ u (
    add_target-kept kind (mapping_at "attribution" e) (target_id (mapping_at "attribution" e)) _ u
      h)

-- The resources without a target are never taken off the list.
add_target-grows :
    (kind : String) (attribution : Fields) (o : Option String) (ts : Targets)
    → length ts.unconfirmed ≤ length (add_target kind attribution o ts).unconfirmed
unfolding add_target
add_target-grows kind attribution none ts = omega (arith, length-append ts.unconfirmed (kind ∷ []))
add_target-grows kind attribution (some t) ts = omega arith

targets_from-grows :
    (repr : Value → String) (xs : List (String × Fields)) (ts : Targets)
    → length ts.unconfirmed ≤ length (targets_from repr xs ts).unconfirmed
unfolding targets_from
targets_from-grows repr [] ts = omega arith
targets_from-grows repr ((kind, e) ∷ rest) ts =
    let attribution = mapping_at "attribution" e in
    let labelled = record ts {
      attribution_states = ts.attribution_states ++ (kind, attribution_state repr attribution) ∷ [];
    } in
    omega (
      arith,
      add_target-grows kind attribution (target_id attribution) labelled,
      targets_from-grows repr rest (add_target kind attribution (target_id attribution) labelled),
    )

-- One evaluation, by its target.
targets_from-first :
    (repr : Value → String) (kind : String) (e : Fields) (rest : List (String × Fields))
    (labelled : Targets) (o : Option String)
    → target_id (mapping_at "attribution" e) ≡ o
    → length
        (targets_from repr rest
          (add_target kind (mapping_at "attribution" e) o labelled)).unconfirmed
      ≡ 0
    → HasTarget
        (targets_from repr rest (add_target kind (mapping_at "attribution" e) o labelled)).confirmed
        (kind, e)
unfolding add_target
targets_from-first repr kind e rest labelled none found h =
    let grown =
      targets_from-grows repr rest
        (record labelled { unconfirmed = labelled.unconfirmed ++ kind ∷ [] }) in
    let longer = length-append labelled.unconfirmed (kind ∷ []) in
    absurd (none_left _ _ _ longer grown h)
  where
    none_left : (k m n : ℕ) → m ≡ k + 1 → m ≤ n → n ≡ 0 → ⊥
    none_left k m n e l z = omega arith
targets_from-first repr kind e rest labelled (some t) found h =
    (t, found, targets_from-kept repr rest _ t (add_kind-added t kind labelled.confirmed))

targets_from-HasTarget :
    (repr : Value → String) (xs : List (String × Fields)) (ts : Targets)
    → length (targets_from repr xs ts).unconfirmed ≡ 0
    → All (HasTarget (targets_from repr xs ts).confirmed) xs
unfolding targets_from
targets_from-HasTarget repr [] ts h = tt
targets_from-HasTarget repr ((kind, e) ∷ rest) ts h =
    (targets_from-first repr kind e rest _ _ refl h, targets_from-HasTarget repr rest _ h)

-- Every active resource has the same confirmed target.
abbrev pub Agree : String → List (String × Fields) → Type 0
Agree t active =
    All (λ (e : String × Fields). target_id (mapping_at "attribution" e.1) ≡ some t) active

All-Agree :
    (entries : List (String × List String)) (t : String) (xs : List (String × Fields))
    → length entries ≤ 1
    → is_confirmed t entries ≡ true
    → All (HasTarget entries) xs
    → Agree t xs
All-Agree entries t [] short known h = tt
All-Agree entries t (x ∷ xs) short known ((u, found, here), more) =
    (rw (single_target entries t u short known here) found, All-Agree entries t xs short known more)

-- Where no resource lacks a target and there is at most one target, all agree on it.
pub targets-Agree :
    (repr : Value → String) (x : String × Fields) (xs : List (String × Fields))
    → length (targets repr (x ∷ xs)).unconfirmed ≡ 0
    → length (targets repr (x ∷ xs)).confirmed ≤ 1
    → (t : String) × Agree t (x ∷ xs)
unfolding targets
targets-Agree repr x xs h short =
    let all = targets_from-HasTarget repr (x ∷ xs) no_targets h in
    let (t, _, known) = all.0 in (t, All-Agree _ t (x ∷ xs) short known all)
