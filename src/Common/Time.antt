-- ===== src/Common/Time.antt =====
-- src/common/time_utils.hpp. Every reading of the steady clock is in microseconds; `Stopwatch` is its
-- starting point.
use spout_relay.Base.{ℕ, ◌+◌, ◌-◌, ◌/◌, ◌%◌, Bool, ℤ, pos, leb_ℤ, [], ◌∷◌, ◌++◌, Codes}

abbrev pub Stopwatch : Type 0
Stopwatch = ℕ

-- `now_ms()` at a reading.
abbrev pub to_ms : ℕ → ℕ
to_ms us = us / 1000

-- The steady clock never goes back, so the difference is not negative.
abbrev pub elapsed_us : ℕ → Stopwatch → ℕ
elapsed_us now start = now - start

abbrev pub elapsed_ms : ℕ → Stopwatch → ℕ
elapsed_ms now start = (now - start) / 1000

abbrev pub expired : ℕ → Stopwatch → ℤ → Bool
expired now start timeout_ms = leb_ℤ timeout_ms (pos (elapsed_ms now start))

-- The parts of `struct tm` that are printed, as `gmtime` fills them: `year` is tm_year + 1900 and
-- `month` is tm_mon + 1.
pub record Tm : Type 0 where
  pub year : ℕ
  pub month : ℕ
  pub day : ℕ
  pub hour : ℕ
  pub minute : ℕ
  pub second : ℕ

-- The last two digits, filled with '0'.
unfoldable pub two_digits : ℕ → Codes
two_digits n = (b'0' + n / 10 % 10) ∷ (b'0' + n % 10) ∷ []

-- `iso8601_now`: "%Y-%m-%dT%H:%M:%S" for a year of four digits, then the milliseconds since the epoch
-- modulo 1000 in three digits, and 'Z'.
unfoldable pub iso8601 : Tm → ℕ → Codes
unfolding two_digits
iso8601 now epoch_ms =
    let ms = epoch_ms % 1000 in
    two_digits (now.year / 100)
    ++ two_digits now.year
    ++ b'-' ∷ two_digits now.month
    ++ b'-' ∷ two_digits now.day
    ++ b'T' ∷ two_digits now.hour
    ++ b':' ∷ two_digits now.minute
    ++ b':' ∷ two_digits now.second
    ++ b'.' ∷ (b'0' + ms / 100 % 10) ∷ two_digits ms
    ++ b'Z' ∷ []
