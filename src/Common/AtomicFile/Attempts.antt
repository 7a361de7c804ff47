-- ===== src/Common/AtomicFile/Attempts.antt =====
-- When the loop of `replace_file` in src/common/atomic_file.cpp gives up.
use spout_relay.Base.{
  ℕ, zero, suc, ◌+◌, ◌≤◌, ◌<◌, true, false, not, ◌||◌, Option, none, some, ◌==◌, ◌≡◌, ◌⊎◌, inl, inr,
  refl, arith, Option-cases, choose,
}
use spout_relay.Common.AtomicFile.{is_transient_error, k_max_attempts, attempt, Tries}

module _ (moves : ℕ → Option ℕ) where
  -- Call `n` moves the file, and each call from `i` on before it met a passing error.
  pub data Succeeds : ℕ → ℕ → Type 0 where
    now : {i : ℕ} → moves i ≡ none → Succeeds i i
    again :
        {i n code : ℕ}
        → moves i ≡ some code
        → is_transient_error code ≡ true
        → Succeeds (i + 1) n
        → Succeeds i n

  -- What the loop reports of its calls from `i` on, `left` of them at most.
  pub record IsReport (left i : ℕ) (t : Tries) : Type 0 where
    pub success : t.moved ≡ true → (n : ℕ) × Succeeds i n × (t.calls ≡ n + 1) × (t.waits ≡ n)
    pub failure : t.moved ≡ false → (n : ℕ) → n < i + left → Succeeds i n → ⊥
    pub few : t.calls ≤ i + left

  Succeeds-le : {i n : ℕ} → Succeeds i n → i ≤ n
  Succeeds-le (now e) = omega arith
  Succeeds-le (again e passing later) = omega (arith, Succeeds-le later)

  no_success :
      {i n code : ℕ} (left : ℕ)
      → moves i ≡ some code
      → (is_transient_error code ≡ false) ⊎ (left ≡ 0)
      → n < i + suc left
      → Succeeds i n
      → ⊥
  no_success left e stop h (now e') = cc (e, e')
  no_success left e stop h (again e' passing later) = ground (arith, e, e', stop, Succeeds-le later)

  IsReport-moved :
      (left i last_error : ℕ)
      → moves i ≡ none
      → IsReport
          (suc left)
          i
          (record { moved = true; last_error = last_error; calls = i + 1; waits = i })
  IsReport-moved left i last_error e = record {
    success = λ _. (i, now e, refl, refl);
    failure = λ h. absurd (ground arith);
    few = omega arith;
  }

  IsReport-stopped :
      {i code : ℕ} (left : ℕ)
      → moves i ≡ some code
      → (is_transient_error code ≡ false) ⊎ (left ≡ 0)
      → IsReport
          (suc left)
          i
          (record { moved = false; last_error = code; calls = i + 1; waits = i })
  IsReport-stopped left e stop = record {
    success = λ h. absurd (ground arith);
    failure = λ _ n below ok. no_success left e stop below ok;
    few = omega arith;
  }

  later_failure :
      {i code : ℕ} (left : ℕ)
      → moves i ≡ some code
      → ((n : ℕ) → n < (i + 1) + left → Succeeds (i + 1) n → ⊥)
      → (n : ℕ) → n < i + suc left
      → Succeeds i n
      → ⊥
  later_failure left e never n below (now e') = cc (e, e')
  later_failure left e never n below (again _ _ ok) = never n (omega arith) ok

  IsReport-later :
      {left i code : ℕ} {t : Tries}
      → moves i ≡ some code
      → is_transient_error code ≡ true
      → IsReport left (i + 1) t
      → IsReport (suc left) i t
  IsReport-later {left} {i} e passing r = record {
    success = λ h. let (n, ok, calls, waits) = r.success h in (n, again e passing ok, calls, waits);
    failure = λ h n below ok. later_failure left e (λ m. r.failure h m) n below ok;
    few = omega (arith, r.few);
  }

  attempt-IsReport :
      (left i last_error : ℕ)
      → i + left ≡ k_max_attempts
      → IsReport left i (attempt moves left i last_error)
  unfolding attempt
  attempt-IsReport zero i last_error h = record {
    success = λ h. absurd (ground arith);
    failure = λ _ n below ok. absurd (omega (arith, Succeeds-le ok));
    few = omega arith;
  }
  attempt-IsReport (suc left) i last_error h = elim (Option-cases (moves i)) [
    | inl e ↦ rw (e, attempt) (IsReport-moved left i last_error e)
    | inr (code, e) ↦
        rw (e, attempt)
          (choose (IsReport (suc left) i) (not (is_transient_error code) || i + 1 == k_max_attempts)
            (λ stop. IsReport-stopped left e (ground arith))
            (λ go.
              IsReport-later e (ground arith) (attempt-IsReport left (i + 1) code (omega arith))))
  ]

-- The loop of `replace_file` succeeds only at a call that moved the file with nothing but passing errors
-- before it, and made one call more than it waited; if it fails, none of the first five calls was such a
-- call; and there are never more than five calls.
pub attempt_lem :
    (moves : ℕ → Option ℕ) → IsReport moves k_max_attempts 0 (attempt moves k_max_attempts 0 0)
attempt_lem moves = attempt-IsReport moves k_max_attempts 0 0 refl
