-- ===== src/Outbox/Settings.antt =====
-- The settings of src/guardian_notification_outbox.py, as the constructor accepts them, with the
-- bounds of src/guardian_notifications.py.
use server_resource_guardian.Prelude.{ℕ, String, ◌&&◌, if◌then◌else◌}
use server_resource_guardian.Prelude.Int
use server_resource_guardian.Prelude.Int.{ℤ, pos, negsuc}
use server_resource_guardian.Result.{Result, ok, err, ◌>>=◌}
use server_resource_guardian.Value.{Value, number}

-- `_bounded_int`: only an integer within the bounds, and no Boolean.
unfoldable pub bounded_int : Value → ℤ → ℤ → String → Result ℤ
bounded_int (number n) minimum maximum error =
    if Int.leb minimum n && Int.leb n maximum then ok n else err error
bounded_int _ minimum maximum error = err error

-- `_duration_to_ns`, on durations that are counted in nanoseconds here.
unfoldable pub duration_to_ns : Value → String → Result ℤ
duration_to_ns (number n) error = if Int.leb n (pos 0) then err error else ok n
duration_to_ns _ error = err error

-- The number of rounds of `range(n)`.
abbrev pub rounds : ℤ → ℕ
rounds (pos n) = n
rounds (negsuc n) = 0

pub record Settings : Type 0 where
  pub max_attempts : ℤ
  pub max_age_ns : ℤ
  pub rate_limit_count : ℤ
  pub rate_limit_window_ns : ℤ
  pub max_pending : ℤ
  pub max_payload_bytes : ℤ

unfoldable pub make_settings :
    (max_attempts max_age_seconds rate_limit_count rate_limit_window_seconds max_pending
      max_payload_bytes : Value)
    → Result Settings
unfolding bounded_int duration_to_ns
make_settings max_attempts max_age_seconds rate_limit_count rate_limit_window_seconds max_pending
      max_payload_bytes =
    do
      attempts ← bounded_int max_attempts (pos 1) (pos 5) "max_attempts_out_of_bounds"
      age ← duration_to_ns max_age_seconds "notification_window_must_be_positive"
      count ← bounded_int rate_limit_count (pos 1) (pos 100) "rate_limit_count_out_of_bounds"
      window ← duration_to_ns rate_limit_window_seconds "notification_window_must_be_positive"
      capacity ← bounded_int max_pending (pos 1) (pos 100000) "max_pending_out_of_bounds"
      bytes ←
          bounded_int max_payload_bytes (pos 1024) (pos 16777216) "max_payload_bytes_out_of_bounds"
      ok (record {
        max_attempts = attempts;
        max_age_ns = age;
        rate_limit_count = count;
        rate_limit_window_ns = window;
        max_pending = capacity;
        max_payload_bytes = bytes;
      })
