-- ===== src/Pressure/Slimming.antt =====
-- `slim_audit_event` of src/guardian_pressure_gate.py.
use server_resource_guardian.Prelude.{
  ◌≡◌, refl, ap, ℕ, String, false, Option, none, some, List, [], ◌∷◌, ◌==◌, if◌then◌else◌, join,
  arith, eq_iff, is_some, if-cases, All,
}
use server_resource_guardian.Prelude.Int.{ℤ, pos}
use server_resource_guardian.Value.{
  Value, null, text, number, array, object, Items, nil, cons, Fields, end, field, lookup,
}
use server_resource_guardian.Pressure.{PressureDecision, suspended_state, degraded_state}

-- `event[key] = value`: the value of the key is replaced, or the key is added at the end.
unfoldable pub assign : String → Value → Fields → Fields
assign key value end = field key value end
assign key value (field k v rest) =
    let others = assign key value rest in if k == key then field k value rest else field k v others

pub or_null : Option Value → Value
or_null none = null
or_null (some value) = value

-- `event.get(key)`
abbrev got : String → Fields → Value
got key event = or_null (lookup key event)

texts : List String → Items
texts [] = nil
texts (t ∷ ts) = cons (text t) (texts ts)

int_value : Option ℤ → Value
int_value none = null
int_value (some n) = number n

nat_value : Option ℕ → Value
nat_value none = null
nat_value (some n) = number (pos n)

text_value : Option String → Value
text_value none = null
text_value (some t) = text t

-- `decision.as_dict()`
unfoldable pub as_dict : PressureDecision → Value
unfolding texts int_value nat_value text_value
as_dict d = object (
    field "state" (text d.state) (
      field "available_bytes" (nat_value d.available_bytes) (
        field "total_bytes" (nat_value d.total_bytes) (
          field "available_ratio" (int_value d.available_ratio) (
            field "psi_full_avg10" (nat_value d.psi_full_avg10) (
              field "reason_codes" (array (texts d.reason_codes)) (
                field "transition" (text_value d.transition)
                  (field "normal_samples" (number (pos d.normal_samples)) end))))))))

-- The keys that are listed as dropped when the event has them.
abbrev pub droppable : List String
droppable =
    "signals" ∷ "resource_evaluations" ∷ "joint_evaluation" ∷ "object_attribution"
    ∷ "object_candidates" ∷ "presentation" ∷ "target_attribution" ∷ "runtime_result" ∷ []

present : Fields → List String → List String
present event [] = []
present event (key ∷ keys) =
    let rest = present event keys in if is_some (lookup key event) then key ∷ rest else rest

unfoldable pub fidelity_of : String → String
fidelity_of state =
    if state == suspended_state
    then "minimal"
    else if state == degraded_state
    then "summary"
    else "full"

-- The slimmed event.
slim : String → PressureDecision → Fields → Fields
unfolding or_null texts present
slim fidelity d event = field "schema" (got "schema" event) (
    field "event_id" (got "event_id" event) (
      field "sample_id" (got "sample_id" event) (
        field "observed_at" (got "observed_at" event) (
          field "observed_monotonic_ns" (got "observed_monotonic_ns" event) (
            field "host_id" (got "host_id" event) (
              field "state" (got "state" event) (
                field "audit_fidelity" (text fidelity) (
                  field "risk" (got "risk" event) (
                    field "decision" (got "decision" event) (
                      field "pressure_gate" (as_dict d) (
                        field "emergency_shedding" (got "emergency_shedding" event) (
                          field "evidence" (got "evidence" event) (
                            field "slimmed"
                              (object (
                                field "dropped" (array (texts (present event droppable))) (
                                  field "reason"
                                    (text
                                      (join "audit_fidelity_" (join fidelity "_under_pressure")))
                                    end)))
                              end)))))))))))))

unfoldable pub slim_audit_event : Fields → PressureDecision → Fields
unfolding slim
slim_audit_event event d =
    if fidelity_of d.state == "full"
    then assign "audit_fidelity" (text (fidelity_of d.state)) event
    else slim (fidelity_of d.state) d event

-- The keys that alerting and its decision need.
abbrev pub alerting : List String
alerting =
    "schema" ∷ "event_id" ∷ "sample_id" ∷ "observed_at" ∷ "observed_monotonic_ns" ∷ "host_id"
    ∷ "state" ∷ "risk" ∷ "decision" ∷ "emergency_shedding" ∷ "evidence" ∷ []

lookup-assign-same :
    (key : String) (value : Value) (event : Fields)
    → lookup key (assign key value event) ≡ some value
unfolding lookup assign
lookup-assign-same key value end = rw ((eq_iff key key).1 refl) refl
lookup-assign-same key value (field k v rest) =
    ground (arith, lookup-assign-same key value rest, eq_iff key key)

lookup-assign-other :
    (key other : String) (value : Value) (event : Fields)
    → (key == other) ≡ false
    → lookup other (assign key value event) ≡ lookup other event
unfolding lookup assign
lookup-assign-other key other value end h = rw h refl
lookup-assign-other key other value (field k v rest) h = ground (
  arith,
  lookup-assign-other key other value rest h,
  eq_iff k key,
  eq_iff k other,
  eq_iff key other,
)

assign-kept :
    (event : Fields) (value : Value) (key : String)
    → ("audit_fidelity" == key) ≡ false
    → or_null (lookup key (assign "audit_fidelity" value event)) ≡ or_null (lookup key event)
assign-kept event value key h = ap or_null (lookup-assign-other "audit_fidelity" key value event h)

-- Whatever the pressure, the persisted event has the fields of `alerting` (identity, times, host,
-- state, risk, decision, shedding and evidence) with the values of the event, a missing one counted
-- as null, and it says its own fidelity.
pub slim_audit_event-alerting :
    (event : Fields) (d : PressureDecision)
    → All
        (λ key. or_null (lookup key (slim_audit_event event d)) ≡ or_null (lookup key event))
        alerting
      × (lookup "audit_fidelity" (slim_audit_event event d) ≡ some (text (fidelity_of d.state)))
unfolding slim_audit_event lookup
slim_audit_event-alerting event d =
    if-cases
      (λ (kept : Fields).
        All (λ key. or_null (lookup key kept) ≡ or_null (lookup key event)) alerting
        × (lookup "audit_fidelity" kept ≡ some (text (fidelity_of d.state))))
      (fidelity_of d.state == "full") _ _
      (λ _. (every_kept _, lookup-assign-same "audit_fidelity" _ event))
      (λ _. (
        (refl, (refl, (refl, (refl, (refl, (refl, (refl, (refl, (refl, (refl, (refl, tt))))))))))),
        refl,
      ))
  where
    every_kept :
        (value : Value)
        → All
            (λ key.
              or_null (lookup key (assign "audit_fidelity" value event))
              ≡ or_null (lookup key event))
            alerting
    every_kept value = (
      assign-kept event value "schema" refl,
      (
        assign-kept event value "event_id" refl,
        (
          assign-kept event value "sample_id" refl,
          (
            assign-kept event value "observed_at" refl,
            (
              assign-kept event value "observed_monotonic_ns" refl,
              (
                assign-kept event value "host_id" refl,
                (
                  assign-kept event value "state" refl,
                  (
                    assign-kept event value "risk" refl,
                    (
                      assign-kept event value "decision" refl,
                      (
                        assign-kept event value "emergency_shedding" refl,
                        (assign-kept event value "evidence" refl, tt),
                      ),
                    ),
                  ),
                ),
              ),
            ),
          ),
        ),
      ),
    )
