-- ===== src/Sleep.antt =====
-- npm/src/sleep.ts: `executeWithRetries`, on a function whose n-th call has a known outcome.
pub mod Retries
use denokv.Prelude.{ℕ, zero, suc, ◌+◌, ◌*◌, leb, if◌then◌else◌, Error}

-- What a call of `fn` does: it returns, or throws an error that is or is not retryable.
pub data Outcome {ℓ} (T : Type ℓ) : Type ℓ where
  returns : T → Outcome T
  throws_retryable throws_other : Error → Outcome T

-- What `executeWithRetries` does. `no_answer` is no outcome of the program: the fuel ran out.
pub data Answer {ℓ} (T : Type ℓ) : Type ℓ where
  value : T → Answer T
  thrown out_of_retries : Error → Answer T
  no_answer : Answer T

-- `if (retries > 0)` the loop sleeps for so many milliseconds.
abbrev pub wait_millis : ℕ → ℕ
wait_millis retries = retries * 1000

module _ {ℓ} {T : Type ℓ} where
  -- What follows a call; `again` is the next round of the loop.
  abbrev pub after_call : ℕ → ℕ → ℕ → Outcome T → Answer T × ℕ → Answer T × ℕ
  after_call max_retries retries slept (returns t) again = (value t, slept)
  after_call max_retries retries slept (throws_other e) again = (thrown e, slept)
  after_call max_retries retries slept (throws_retryable e) again =
      if leb max_retries retries then (out_of_retries e, slept) else again

  -- The loop, with the time slept before. `fuel` bounds the rounds.
  unfoldable pub retry_loop : (ℕ → Outcome T) → ℕ → ℕ → ℕ → ℕ → Answer T × ℕ
  retry_loop fn max_retries zero retries slept = (no_answer, slept)
  retry_loop fn max_retries (suc fuel) retries slept =
      after_call max_retries retries (slept + wait_millis retries) (fn retries)
        (retry_loop fn max_retries fuel (retries + 1) (slept + wait_millis retries))

  -- The first call, and one for each retry.
  abbrev pub execute_with_retries : (ℕ → Outcome T) → ℕ → Answer T × ℕ
  execute_with_retries fn max_retries = retry_loop fn max_retries (suc max_retries) 0 0
