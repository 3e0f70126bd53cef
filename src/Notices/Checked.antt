-- ===== src/Notices/Checked.antt =====
-- `build_notification_event` of src/guardian_notifications.py against `_validate_payload` of
-- src/guardian_notification_outbox.py.
use server_resource_guardian.Prelude.{
  ℕ, String, Bool, true, false, ◌≡◌, refl, sym, subst, Option, none, some, [], ◌∷◌, ◌==◌, join,
  if◌then◌else◌, one_of, arith, ◌||◌, ltb, ◌+◌, ◌∙◌, ap, Bool-cases, inl, inr, if-cases, len-append,
  eq_iff,
}
use Prim.Native.String.{len}
use server_resource_guardian.Prelude.Int
use server_resource_guardian.Prelude.Int.{ℤ, pos}
use server_resource_guardian.Prelude.Text.{size}
use server_resource_guardian.Result.{Result, ok, err, ◌>>=◌, require}
use server_resource_guardian.Value.{
  Value, null, boolean, number, text, array, object, Fields, lookup,
}
use server_resource_guardian.Shedding.{or_else, fields_in}
use server_resource_guardian.Shedding.Identity.{positive_in}
use server_resource_guardian.Outbox.{get}
use server_resource_guardian.Outbox.Settings.{Settings}
use server_resource_guardian.Outbox.Payload.{notifiable_states, validate_payload}
use server_resource_guardian.Notices.{string_in, required}
use server_resource_guardian.Notices.Building.{
  payload_of, dedup_key, build_from, observed_of, build_notification_event,
}

-- Nothing, or a reason that lies in the time or in the size.
abbrev pub is_outside : Option String → Bool
is_outside none = true
is_outside (some reason) = one_of reason ("clock_invalid" ∷ "expired" ∷ "payload_too_large" ∷ [])

-- The payload is taken, or refused for its time or its size alone.
abbrev pub is_taken : Result (Option String) → Bool
is_taken (err reason) = false
is_taken (ok reason) = is_outside reason

outside :
    (a b c : Bool)
    → is_outside (
        if a
        then some "clock_invalid"
        else if b
        then some "expired"
        else if c
        then some "payload_too_large"
        else none)
      ≡ true
outside true b c = refl
outside false true c = refl
outside false false true = refl
outside false false false = refl

no_length : (n : ℕ) → 13 + n ≡ 0 → ⊥
no_length n e = ground arith

too_long : (s : String) → join "notification:" s ≡ "" → ⊥
unfolding join
too_long s e = no_length (len s) (sym (len-append "notification:" s) ∙ ap len e)

named_join : (s : String) → (join "notification:" s == "") ≡ false
named_join s = elim (Bool-cases (join "notification:" s == "")) [
  | inl on ↦ absurd (too_long s ((eq_iff _ _).0 on))
  | inr off ↦ off
]

-- Where a step gives a value, the value has a property.
abbrev Gives : {A : Type 0} → (A → Type 0) → Result A → Type 0
Gives P (err reason) = Unit {0}
Gives P (ok a) = P a

>>=-Gives :
    {A B : Type 0}
    → (P : A → Type 0) → (R : B → Type 0) → (step : Result A) → (next : A → Result B) → Gives P step
    → ((a : A) → P a → Gives R (next a))
    → Gives R (step >>= next)
>>=-Gives P R (err reason) next given rest = tt
>>=-Gives P R (ok a) next given rest = rest a given

require-Gives : (b : Bool) → (reason : String) → Gives (λ _. b ≡ true) (require b reason)
require-Gives true reason = refl
require-Gives false reason = tt

unnamed : (a b : Bool) → (a || b) ≡ false → a ≡ false
unnamed a b e = ground arith

string_given :
    (label s : String)
    → Gives
        (λ t. (t == "") ≡ false)
        (required label (if s == "" || ltb 512 (size s) then none else some s))
string_given label s =
    if-cases (λ (o : Option String). Gives (λ t. (t == "") ≡ false) (required label o))
      (s == "" || ltb 512 (size s)) _ _ (λ on. tt) (λ off. unnamed _ _ off)

required-Gives :
    (label : String)
    → (value : Option Value) → Gives (λ s. (s == "") ≡ false) (required label (string_in value))
unfolding string_in
required-Gives label none = tt
required-Gives label (some null) = tt
required-Gives label (some (boolean b)) = tt
required-Gives label (some (number n)) = tt
required-Gives label (some (text s)) = string_given label s
required-Gives label (some (array items)) = tt
required-Gives label (some (object fields)) = tt

abbrev IsPast : Option ℤ → Type 0
IsPast none = Unit {0}
IsPast (some n) = Int.leb n (pos 0) ≡ false

if_positive-IsPast : (n : ℤ) → IsPast (if Int.leb n (pos 0) then none else some n)
if_positive-IsPast n =
    if-cases (λ (o : Option ℤ). IsPast o) (Int.leb n (pos 0)) _ _ (λ on. tt) (λ off. off)

positive_in-IsPast : (value : Option Value) → IsPast (positive_in value)
positive_in-IsPast none = tt
positive_in-IsPast (some null) = tt
positive_in-IsPast (some (boolean b)) = tt
positive_in-IsPast (some (number n)) = if_positive-IsPast n
positive_in-IsPast (some (text s)) = tt
positive_in-IsPast (some (array items)) = tt
positive_in-IsPast (some (object fields)) = tt

or_else-IsPast : (a b : Option ℤ) → IsPast a → IsPast b → IsPast (or_else a b)
or_else-IsPast none b p q = q
or_else-IsPast (some n) b p q = p

Gives-some :
    (repr : Value → String)
    → (sha256 take : String → String) → (source : Fields) → (incident_key : Option String)
    → (o : Option ℤ) → IsPast o
    → Gives (λ n. Int.leb n (pos 0) ≡ false) (observed_of repr sha256 take source incident_key o)
unfolding observed_of
Gives-some repr sha256 take source incident_key none past = tt
Gives-some repr sha256 take source incident_key (some n) past = past

module _ (repr : Value → String) (sha256 take : String → String) (settings : Settings) where
  dedup_key-named :
      (source : Fields)
      → (incident_key : Option String)
      → (dedup_key repr sha256 take source incident_key == "") ≡ false
  unfolding dedup_key
  dedup_key-named source incident_key = named_join _

  payload_of-is_taken :
      (source : Fields)
      → (incident_key : Option String) → (state event_id observed_at : String) → (observed now : ℤ)
      → one_of state notifiable_states ≡ true
      → (event_id == "") ≡ false
      → Int.leb observed (pos 0) ≡ false
      → ((s : String) → (sha256 s == "") ≡ false)
      → is_taken (
          validate_payload settings now
            (payload_of repr sha256 take source incident_key state event_id observed_at observed))
        ≡ true
  unfolding validate_payload payload_of get lookup
  payload_of-is_taken source incident_key state event_id observed_at observed now known given late
        digests =
      rw (digests _, dedup_key-named source incident_key, known, late, given) (outside _ _ _)

  observed-Gives :
      (source : Fields)
      → (incident_key : Option String) → (a b : Option Value)
      → Gives
          (λ n. Int.leb n (pos 0) ≡ false)
          (observed_of repr sha256 take source incident_key
            (or_else (positive_in a) (positive_in b)))
  unfolding observed_of
  observed-Gives source incident_key a b =
      Gives-some repr sha256 take source incident_key _
        (or_else-IsPast _ _ (positive_in-IsPast a) (positive_in-IsPast b))

  build_from-is_taken :
      (source : Fields)
      → (incident_key : Option String) → (now : ℤ) → ((s : String) → (sha256 s == "") ≡ false)
      → Gives
          (λ payload. is_taken (validate_payload settings now payload) ≡ true)
          (build_from repr sha256 take source incident_key)
  unfolding build_from
  build_from-is_taken source incident_key now digests =
      let Taken = λ (payload : Fields). is_taken (validate_payload settings now payload) ≡ true in
      >>=-Gives (λ s. (s == "") ≡ false) Taken _ _ (required-Gives "state" (lookup "state" source))
        (λ state _.
          >>=-Gives (λ _. one_of state notifiable_states ≡ true) Taken _ _
            (require-Gives (one_of state notifiable_states) _)
            (λ _ known.
              >>=-Gives (λ s. (s == "") ≡ false) Taken _ _
                (required-Gives "event_id" (lookup "event_id" source))
                (λ event_id given.
                  >>=-Gives (λ s. (s == "") ≡ false) Taken _ _
                    (required-Gives "observed_at" (lookup "observed_at" source))
                    (λ observed_at _.
                      >>=-Gives (λ n. Int.leb n (pos 0) ≡ false) Taken _
                        (λ n. ok (
                          payload_of repr sha256 take source incident_key state event_id observed_at
                            n))
                        (observed-Gives source incident_key (lookup "observed_monotonic_ns" source)
                          (lookup "observed_monotonic_ns" (fields_in (lookup "signals" source))))
                        (λ observed late.
                          payload_of-is_taken source incident_key state event_id observed_at
                            observed now known given late digests)))))

  build-is_taken :
      (source : Value)
      → (incident_key : Option String) → (now : ℤ) → ((s : String) → (sha256 s == "") ≡ false)
      → Gives
          (λ payload. is_taken (validate_payload settings now payload) ≡ true)
          (build_notification_event repr sha256 take source incident_key)
  unfolding build_notification_event
  build-is_taken null key now digests = tt
  build-is_taken (boolean b) key now digests = tt
  build-is_taken (number n) key now digests = tt
  build-is_taken (text s) key now digests = tt
  build-is_taken (array items) key now digests = tt
  build-is_taken (object source) key now digests = build_from-is_taken source key now digests

  -- A payload that is built from an event is taken by the outbox: it is never refused for its
  -- schema, its ids, its severity, its boundaries of action and security or the form of its time,
  -- only because it lies in the future, is too old, or is too large. The digest is never empty.
  pub validate_payload-build_notification_event :
      (source : Value)
      → (incident_key : Option String) → (now : ℤ) → (payload : Fields)
      → ((s : String) → (sha256 s == "") ≡ false)
      → build_notification_event repr sha256 take source incident_key ≡ ok payload
      → is_taken (validate_payload settings now payload) ≡ true
  unfolding build_notification_event
  validate_payload-build_notification_event source incident_key now payload digests e =
      subst (λ r. Gives (λ p. is_taken (validate_payload settings now p) ≡ true) r) e
        (build-is_taken source incident_key now digests)
