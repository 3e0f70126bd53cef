-- ===== src/Outbox/Payload/Checked.antt =====
-- What a payload has that `_validate_payload` of src/guardian_notification_outbox.py lets pass.
use server_resource_guardian.Prelude.{◌⊎◌, inl, inr, String, true, ◌≡◌, refl, none, arith}
use server_resource_guardian.Prelude.Int.{ℤ}
use server_resource_guardian.Result.{ok, err}
use server_resource_guardian.Value.{
  Value, null, boolean, number, text, array, object, Items, Fields,
}
use server_resource_guardian.Outbox.{get, mapping}
use server_resource_guardian.Outbox.Settings.{Settings}
use server_resource_guardian.Outbox.Payload.{
  is_named, check_rest, check_time, check_severity, validate_payload,
}

-- A text that is not empty.
pub named_text : (v : Value) → is_named v ≡ true → (s : String) × (v ≡ text s)
named_text null h = cc h
named_text (boolean b) h = cc h
named_text (number n) h = cc h
named_text (text s) h = (s, refl)
named_text (array items) h = cc h
named_text (object fields) h = cc h

module _ (settings : Settings) (now : ℤ) (payload : Fields) where
  -- The entries that `enqueue` reads are there, with their types.
  pub record IsTyped : Type 0 where
    pub notification_id : (s : String) × (get "notification_id" payload ≡ text s)
    pub dedup_key : (s : String) × (get "dedup_key" payload ≡ text s)
    pub event_id : (s : String) × (get "event_id" (mapping (get "source" payload)) ≡ text s)
    pub severity : (s : String) × (get "severity" payload ≡ text s)
    pub observed : (n : ℤ) × (get "observed_monotonic_ns" payload ≡ number n)

  check_rest-named :
      check_rest settings payload ≡ none
      → is_named (get "event_id" (mapping (get "source" payload))) ≡ true
  unfolding check_rest
  check_rest-named h = ground arith

  check_time-number :
      (v : Value)
      → check_time settings now payload v ≡ none
      → (n : ℤ) × (v ≡ number n) × (check_rest settings payload ≡ none)
  unfolding check_time
  check_time-number null h = cc h
  check_time-number (boolean b) h = cc h
  check_time-number (number n) h = (n, refl, ground arith)
  check_time-number (text s) h = cc h
  check_time-number (array items) h = cc h
  check_time-number (object fields) h = cc h

  check_severity-text :
      (v : Value)
      → check_severity settings now payload v ≡ ok none
      → (s : String) × (v ≡ text s)
        × (check_time settings now payload (get "observed_monotonic_ns" payload) ≡ none)
  unfolding check_severity
  check_severity-text null h = cc h
  check_severity-text (boolean b) h = cc h
  check_severity-text (number n) h = cc h
  check_severity-text (text s) h = (s, refl, ground arith)
  check_severity-text (array items) h = cc h
  check_severity-text (object fields) h = cc h

  validate_payload-passed :
      validate_payload settings now payload ≡ ok none
      → (is_named (get "notification_id" payload) ≡ true)
        × (is_named (get "dedup_key" payload) ≡ true)
        × (check_severity settings now payload (get "severity" payload) ≡ ok none)
  unfolding validate_payload
  validate_payload-passed h = ground arith

  pub validate_payload-IsTyped : validate_payload settings now payload ≡ ok none → IsTyped
  validate_payload-IsTyped h =
      let (id, key, rest) = validate_payload-passed h in
      let (severity, is_severity, timed) = check_severity-text (get "severity" payload) rest in
      let (observed, is_observed, more) =
        check_time-number (get "observed_monotonic_ns" payload) timed in
      record {
        notification_id = named_text _ id;
        dedup_key = named_text _ key;
        event_id = named_text _ (check_rest-named more);
        severity = (severity, is_severity);
        observed = (observed, is_observed);
      }

-- A list or a mapping: what has no hash.
abbrev pub IsContainer : Value → Type 0
IsContainer v = ((items : Items) × (v ≡ array items)) ⊎ ((fields : Fields) × (v ≡ object fields))

check_severity-err :
    (settings : Settings) (now : ℤ) (payload : Fields) (v : Value) (e : String)
    → check_severity settings now payload v ≡ err e
    → IsContainer v × (e ≡ "TypeError")
unfolding check_severity
check_severity-err settings now payload null e h = cc h
check_severity-err settings now payload (boolean b) e h = cc h
check_severity-err settings now payload (number n) e h = cc h
check_severity-err settings now payload (text s) e h = cc h
check_severity-err settings now payload (array items) e h = (inl (items, refl), cc h)
check_severity-err settings now payload (object fields) e h = (inr (fields, refl), cc h)

validate_payload-severity :
    (settings : Settings) (now : ℤ) (payload : Fields) (e : String)
    → validate_payload settings now payload ≡ err e
    → check_severity settings now payload (get "severity" payload) ≡ err e
unfolding validate_payload
validate_payload-severity settings now payload e h = ground arith

-- The checks raise only for a severity that has no hash.
pub validate_payload-err :
    (settings : Settings) (now : ℤ) (payload : Fields) (e : String)
    → validate_payload settings now payload ≡ err e
    → IsContainer (get "severity" payload) × (e ≡ "TypeError")
validate_payload-err settings now payload e h =
    check_severity-err settings now payload (get "severity" payload) e
      (validate_payload-severity settings now payload e h)
