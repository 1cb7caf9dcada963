-- ===== src/Sleep/Retries.antt =====
-- The answer of `executeWithRetries` of npm/src/sleep.ts, and how long it sleeps.
use denokv.Prelude.{
  ℕ, zero, suc, ◌+◌, ◌≤◌, ◌<◌, ◌≡◌, ◌⊎◌, inl, inr, refl, ap, ◌∙◌, subst, false, true, leb, arith,
}
use denokv.Sleep.{
  Outcome, returns, throws_retryable, throws_other, Answer, value, thrown, out_of_retries,
  wait_millis, after_call, retry_loop, execute_with_retries,
}

-- The milliseconds slept before the calls `from` to `from + n`.
abbrev pub total_wait : ℕ → ℕ → ℕ
total_wait zero from = wait_millis from
total_wait (suc n) from = wait_millis from + total_wait n (from + 1)

module _ {ℓ} {T : Type ℓ} where
  abbrev pub IsRetryable : Outcome T → Type 0
  IsRetryable (returns t) = ⊥
  IsRetryable (throws_other e) = ⊥
  IsRetryable (throws_retryable e) = Unit {0}

  -- The answer after the last call.
  abbrev pub last_answer : Outcome T → Answer T
  last_answer (returns t) = value t
  last_answer (throws_other e) = thrown e
  last_answer (throws_retryable e) = out_of_retries e

  -- A retry is made.
  after-retryable :
      (max r slept : ℕ) (o : Outcome T) (again : Answer T × ℕ)
      → IsRetryable o
      → r < max
      → after_call max r slept o again ≡ again
  after-retryable max r slept (returns t) again h k = absurd h
  after-retryable max r slept (throws_other e) again h k = absurd h
  after-retryable max r slept (throws_retryable e) again h k = rw (not_last max r k) refl
    where
      not_last : (m n : ℕ) → n < m → leb m n ≡ false
      not_last m n h = ground arith

  after-last :
      (max r slept : ℕ) (o : Outcome T) (again : Answer T × ℕ)
      → (¬ IsRetryable o) ⊎ (r ≡ max)
      → after_call max r slept o again ≡ (last_answer o, slept)
  after-last max r slept (returns t) again h = refl
  after-last max r slept (throws_other e) again h = refl
  after-last max r slept (throws_retryable e) again (inl h) = absurd (h tt)
  after-last max r slept (throws_retryable e) again (inr h) = rw (at_last max r h) refl
    where
      at_last : (m n : ℕ) → n ≡ m → leb m n ≡ true
      at_last m n h = ground arith

  retry_loop_lem :
      (fn : ℕ → Outcome T) (max j n r slept : ℕ)
      → r + n ≡ j
      → j ≤ max
      → ((i : ℕ) → i < j → IsRetryable (fn i))
      → (¬ IsRetryable (fn j)) ⊎ (j ≡ max)
      → (fuel : ℕ) → n < fuel
      → retry_loop fn max fuel r slept ≡ (last_answer (fn j), slept + total_wait n r)
  unfolding retry_loop
  retry_loop_lem fn max j n r slept e le again last zero lt = absurd (omega arith)
  retry_loop_lem fn max j zero r slept e le again last (suc fuel) lt =
      let same : r ≡ j = omega arith in
      subst
        (λ k.
          (¬ IsRetryable (fn k)) ⊎ (k ≡ max)
          → retry_loop fn max (suc fuel) r slept ≡ (last_answer (fn k), slept + total_wait 0 r))
        same (λ l. after-last max r (slept + wait_millis r) (fn r) _ l) last
  retry_loop_lem fn max j (suc n) r slept e le again last (suc fuel) lt =
      after-retryable max r (slept + wait_millis r) (fn r) _ (again r (omega arith)) (omega arith)
      ∙ retry_loop_lem fn max j n (r + 1) (slept + wait_millis r) (omega arith) le again last fuel
          (omega arith)
      ∙ ap (λ w. (last_answer (fn j), w)) (omega arith)

  -- `executeWithRetries` ends, and answers with its call number n (from 0), if the calls before it
  -- threw retryable errors and n is at most `maxRetries`, and if the call itself does not throw a
  -- retryable error or n is `maxRetries`: it returns the value of the call, throws its error, or
  -- throws "Out of retries" where the error is retryable. It has slept i seconds before every call i.
  pub execute_with_retries_lem :
      (fn : ℕ → Outcome T) (max n : ℕ)
      → n ≤ max
      → ((i : ℕ) → i < n → IsRetryable (fn i))
      → (¬ IsRetryable (fn n)) ⊎ (n ≡ max)
      → execute_with_retries fn max ≡ (last_answer (fn n), total_wait n 0)
  execute_with_retries_lem fn max n le again last =
      retry_loop_lem fn max n n 0 0 (omega arith) le again last (suc max) (omega arith)
      ∙ ap (λ w. (last_answer (fn n), w)) (omega arith)
