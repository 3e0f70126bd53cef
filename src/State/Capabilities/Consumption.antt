-- ===== src/State/Capabilities/Consumption.antt =====
-- What `consume_capability` of src/guardian_state.py finds, writes and refuses.
use mathlib.Core.Option
use server_resource_guardian.Prelude.{
  String, ◌≡◌, refl, inl, inr, true, false, not, Option, none, some, List, ◌&&◌, ◌==◌, arith,
  Bool-cases, is_some, if◌then◌else◌,
}
use server_resource_guardian.Prelude.Int.{ℤ, ◌<ℤ◌}
use server_resource_guardian.Prelude.Tables.{find, find-update, find_test}
use server_resource_guardian.Result.{Result, ok, err}
use server_resource_guardian.Actions.{Authorization}
use server_resource_guardian.State.{Capability, CapabilityDecision, Tables, Fault, commit}
use server_resource_guardian.State.Atomic.{transaction_returned}
use server_resource_guardian.State.Capabilities.{
  has_approval, same_scope, consume_row, consume_rows, consume_body, consume_with,
  consume_capability, authorization_fields,
}
use server_resource_guardian.State.Capabilities.Sound.{
  consume_body-commit, consume_write-ok, consume_body-allowed,
}

-- The row of the approval is there, and it is consumed.
abbrev pub IsConsumed : String → Tables → Type 0
IsConsumed approval_id t =
    (row : Capability) × (find (has_approval approval_id) t.capabilities ≡ some row)
    × (is_some row.consumed_at ≡ true)

-- What an update of one approval does to the row of another lookup.
pub find-consume_rows :
    (approval_id other : String) (now : ℤ) (event_id : String) (rows : List Capability)
    → find (has_approval approval_id) (consume_rows other now event_id rows)
      ≡ Option.map
          (λ c.
            if has_approval other c && not (is_some c.consumed_at)
            then consume_row now event_id c
            else c)
          (find (has_approval approval_id) rows)
unfolding consume_rows
find-consume_rows approval_id other now event_id rows =
    find-update (has_approval approval_id) _ (consume_row now event_id) (λ x. refl) rows

pub IsConsumed-consume_rows :
    (approval_id other : String) (now : ℤ) (event_id : String) (rows : List Capability)
    (row : Capability)
    → find (has_approval approval_id) rows ≡ some row
    → is_some row.consumed_at ≡ true
    → find (has_approval approval_id) (consume_rows other now event_id rows) ≡ some row
IsConsumed-consume_rows approval_id other now event_id rows row e c =
    rw (find-consume_rows approval_id other now event_id rows, e) (ground arith)

-- The conditions under which a consumption is allowed.
abbrev pub IsConsumable : Authorization → ℤ → Tables → Type 0
IsConsumable a now t =
    (row : Capability) × (find (has_approval a.approval_id) t.capabilities ≡ some row)
    × (same_scope row a ≡ true)
    × (is_some row.consumed_at ≡ false)
    × (now <ℤ a.expires_at)

consume_body-consumes :
    (fault : Fault) (a : Authorization) (event_id : String) (now : ℤ) (t u : Tables)
    (o : Option Capability) (d : CapabilityDecision)
    → find (has_approval a.approval_id) t.capabilities ≡ o
    → consume_body fault a event_id now t o ≡ commit u d
    → IsConsumable a now t × IsConsumed a.approval_id u
unfolding consume_body
consume_body-consumes fault a event_id now t u none d e h = cc
consume_body-consumes fault a event_id now t u (some row) d e h =
    let (scope, fresh, live, written) = consume_body-commit fault a event_id now t u row d h in
    let (r, wrote) = consume_write-ok fault a event_id now t u written in
    let mine = find_test (has_approval a.approval_id) t.capabilities row e in
    (
      (row, e, scope, fresh, ground arith),
      (
        consume_row now event_id row,
        rw (wrote, find-consume_rows a.approval_id a.approval_id now event_id t.capabilities, e)
            (ground arith),
        refl,
      ),
    )

consume_with-consumes :
    (fault : Fault) (a : Authorization) (event_id : String) (now : ℤ) (t : Tables)
    (d : CapabilityDecision)
    → (consume_with fault (ok a) event_id now t).0 ≡ ok d
    → d.allowed ≡ true
    → IsConsumable a now t × IsConsumed a.approval_id (consume_with fault (ok a) event_id now t).1
unfolding consume_with
consume_with-consumes fault a event_id now t d e allowed =
    elim (transaction_returned fault "capability_consume_failed" _ t d e) [
      | inl committed ↦ consume_body-consumes fault a event_id now t _ _ d refl committed
      | inr rolled ↦ absurd (consume_body-allowed fault a event_id now t _ d allowed rolled.0)
    ]

-- A recorded authorization is the one that was given.
authorization_fields-ok : (a b : Authorization) → authorization_fields a ≡ ok b → b ≡ a
unfolding authorization_fields
authorization_fields-ok a b h = ground arith

fields-cases :
    (a : Authorization) (P : Result Authorization → Type 0)
    → P (ok a)
    → ((e : String) → P (err e))
    → P (authorization_fields a)
unfolding authorization_fields
fields-cases a P good bad = elim (Bool-cases (a.approval_id == "")) [
  | inl unnamed ↦ rw (unnamed, authorization_fields) (bad _)
  | inr named ↦ rw (named, authorization_fields) good
]

-- A consumption is allowed only for a registered capability with the same environment, target,
-- action and expiry, that was not consumed before and has not expired; and it leaves the capability
-- consumed.
pub consume_capability-allowed :
    (fault : Fault) (a : Authorization) (event_id : String) (now : ℤ) (t : Tables)
    (d : CapabilityDecision)
    → (consume_capability fault a event_id now t).0 ≡ ok d
    → d.allowed ≡ true
    → IsConsumable a now t × IsConsumed a.approval_id (consume_capability fault a event_id now t).1
unfolding consume_capability
consume_capability-allowed fault a event_id now t d =
    fields-cases a
      (λ r.
        (consume_with fault r event_id now t).0 ≡ ok d
        → d.allowed ≡ true
        → IsConsumable a now t × IsConsumed a.approval_id (consume_with fault r event_id now t).1)
      (consume_with-consumes fault a event_id now t d) (λ e h k. cc h)

-- A consumed capability is refused.
pub consume_capability-refused :
    (fault : Fault) (a : Authorization) (event_id : String) (now : ℤ) (t : Tables)
    (d : CapabilityDecision)
    → IsConsumed a.approval_id t
    → (consume_capability fault a event_id now t).0 ≡ ok d
    → d.allowed ≡ false
consume_capability-refused fault a event_id now t d (row, found, used) e =
    elim (Bool-cases d.allowed) [
      | inl allowed ↦
          let (other, found', _, fresh, _) =
            (consume_capability-allowed fault a event_id now t d e allowed).0 in
          ground (arith)
      | inr refused ↦ refused
    ]
