-- ===== src/Common/Backoff.antt =====
-- `BackoffState` of src/common/types.hpp. Float arithmetic is the platform's: a record of operations.
pub mod Bounds
use spout_relay.Base.{ℤ, pos, ◌+ℤ◌, Bool, if◌then◌else◌}
use spout_relay.Common.Types.{Float}

-- `static_cast<float>`, `*`, `<` and `static_cast<int>`.
pub record FloatOps : Type 0 where
  pub of_int : ℤ → Float
  pub mul : Float → Float → Float
  pub lt : Float → Float → Bool
  pub to_int : Float → ℤ

pub record BackoffState : Type 0 where
  pub attempt : ℤ
  pub delay_ms : ℤ

unfoldable pub reset : ℤ → BackoffState → BackoffState
reset initial_ms b = record { attempt = pos 0; delay_ms = initial_ms }

-- `std::min(a, b)` is `(b < a) ? b : a`.
abbrev pub min_float : FloatOps → Float → Float → Float
min_float fl a b = if fl.lt b a then b else a

unfoldable pub next_delay : FloatOps → ℤ → Float → BackoffState → ℤ × BackoffState
unfolding ◌+ℤ◌
next_delay fl max_ms multiplier b = (
  b.delay_ms,
  record {
    attempt = b.attempt +ℤ pos 1;
    delay_ms =
        fl.to_int (min_float fl (fl.mul (fl.of_int b.delay_ms) multiplier) (fl.of_int max_ms));
  },
)
