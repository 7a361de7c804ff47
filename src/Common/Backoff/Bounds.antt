-- ===== src/Common/Backoff/Bounds.antt =====
-- The delays of `BackoffState` in src/common/types.hpp stay within the settings.
use spout_relay.Base.{
  Bool, true, ℤ, ℕ, zero, suc, ◌<◌, ◌≤◌, ◌^◌, false, ◌≡◌, arith, pos, negsuc, ◌≤ℤ◌, choose,
}
use spout_relay.Common.Types.{Float}
use spout_relay.Common.Backoff.{FloatOps, BackoffState, reset, min_float, next_delay}

-- What IEEE 754 and C++ say of `<` and the two conversions, for integers below 2^24: these convert
-- without loss, and a value that is not NaN, not negative and not above one of them converts to at
-- most it. `is_amount` says which values are neither NaN nor negative; the products of an integer from
-- 0 on with the multiplier are among them, as with any multiplier that is one and is finite.
pub record IsFloat (fl : FloatOps) (is_amount : Float → Bool) (multiplier : Float) : Type 0 where
  pub exact : (n : ℕ) → n < 2 ^ 24 → fl.to_int (fl.of_int (pos n)) ≡ pos n
  pub below :
      (x : Float) (n : ℕ)
      → n < 2 ^ 24
      → is_amount x ≡ true
      → fl.lt (fl.of_int (pos n)) x ≡ false
      → (pos 0 ≤ℤ fl.to_int x) × (fl.to_int x ≤ℤ pos n)
  pub product : (n : ℕ) → is_amount (fl.mul (fl.of_int (pos n)) multiplier) ≡ true

-- The state after `n` calls of `next_delay`.
unfoldable pub after : FloatOps → ℤ → Float → ℕ → BackoffState → BackoffState
after fl max_ms multiplier zero b = b
after fl max_ms multiplier (suc n) b =
    after fl max_ms multiplier n (next_delay fl max_ms multiplier b).1

-- From 0 to the bound.
abbrev pub IsWithin : ℕ → ℤ → Type 0
IsWithin bound z = (pos 0 ≤ℤ z) × (z ≤ℤ pos bound)

module _ (fl : FloatOps) (is_amount : Float → Bool) (multiplier : Float)
    (h : IsFloat fl is_amount multiplier) where
  amount : (z : ℤ) → pos 0 ≤ℤ z → is_amount (fl.mul (fl.of_int z) multiplier) ≡ true
  amount (pos n) le = h.product n
  amount (negsuc n) le = ground (arith, le)

  capped :
      (x : Float) (n : ℕ)
      → is_amount x ≡ true
      → n < 2 ^ 24
      → IsWithin n (fl.to_int (min_float fl x (fl.of_int (pos n))))
  capped x n number lt =
      choose (λ y. IsWithin n (fl.to_int y)) (fl.lt (fl.of_int (pos n)) x)
        (λ _. rw (h.exact n lt) (omega arith, omega arith)) (λ e. h.below x n lt number e)

  after-IsWithin :
      (max_ms bound : ℕ) (n : ℕ) (b : BackoffState)
      → max_ms < 2 ^ 24
      → max_ms ≤ bound
      → IsWithin bound b.delay_ms
      → IsWithin bound (after fl (pos max_ms) multiplier n b).delay_ms
  unfolding after next_delay
  after-IsWithin max_ms bound zero b lt le d = d
  after-IsWithin max_ms bound (suc n) b lt le d =
      let c = capped (fl.mul (fl.of_int b.delay_ms) multiplier) max_ms (amount b.delay_ms d.0) lt in
      after-IsWithin max_ms bound n _ lt le (c.0, omega (arith, c.1, le))

-- After a reset and any number of calls, the delay that `next_delay` returns next is not negative and at
-- most the larger of the initial and the maximal delay, for a maximal delay below 2^24 ms and a finite
-- multiplier that is not negative, and given that on such values the comparison and conversion of
-- `float` agree with the order of the integers.
pub next_delay-bounded :
    (fl : FloatOps) (is_amount : Float → Bool) (initial_ms max_ms bound : ℕ) (multiplier : Float)
    (n : ℕ) (b : BackoffState)
    → IsFloat fl is_amount multiplier
    → max_ms < 2 ^ 24
    → initial_ms ≤ bound
    → max_ms ≤ bound
    → IsWithin bound
        (next_delay fl
          (pos max_ms)
          multiplier
          (after fl (pos max_ms) multiplier n (reset (pos initial_ms) b))).0
unfolding next_delay reset
next_delay-bounded fl is_amount initial_ms max_ms bound multiplier n b h lt le le' =
    after-IsWithin fl is_amount multiplier h max_ms bound n _ lt le' (omega arith, omega arith)
