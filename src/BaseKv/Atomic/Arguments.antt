-- ===== src/BaseKv/Atomic/Arguments.antt =====
-- The checks of the arguments of a `GenericAtomicOperation` of npm/src/kv_util.ts.
use denokv.Prelude.{
  ℕ, ◌-◌, ◌^◌, ◌<◌, ◌≡◌, ◌≢◌, refl, true, false, ltb, Bool-cases, inl, inr, ◌&&◌, Option, none,
  some, List, [], ◌∷◌, All, All-append, Ensures, seq-Ensures, then-Ensures, weaken-Ensures, IsOk,
  bind-IsOk, then-IsOk, arith,
}
use denokv.Prelude.Int.{ℤ, pos, negsuc}
use denokv.KvKey.{KvKey}
use denokv.KvU64.{make_kv_u64}
use denokv.InMemory.Transaction.{AtomicCheck, Operation, KvMutation, Enqueue, mutation_key}
use denokv.InMemory.Transaction
use denokv.BaseKv.Atomic.{
  Number, integer, not_an_integer, MutationArgument, set_argument, delete_argument,
  combine_argument, argument_key, AtomicOperation, check_key_not_empty, check_expire_in,
  check_all_keys, checked_mutation, check_all_expire_in, mutate,
}

-- A positive integer below 2 ^ 53, or undefined.
abbrev pub IsExpireIn : Option Number → Type 0
IsExpireIn none = Unit {0}
IsExpireIn (some (integer (pos n))) = (0 < n) × (n < 2 ^ 53)
IsExpireIn (some (integer (negsuc n))) = ⊥
IsExpireIn (some not_an_integer) = ⊥

-- What `commit` may add to the time.
abbrev pub IsLifetime : Option ℕ → Type 0
IsLifetime none = Unit {0}
IsLifetime (some n) = (0 < n) × (n < 2 ^ 53)

abbrev pub IsU64 : ℤ → Type 0
IsU64 (pos n) = n < 2 ^ 64
IsU64 (negsuc n) = ⊥

pub key_checked : (k : KvKey) → Ensures (λ _. k ≢ []) (check_key_not_empty k)
key_checked [] = tt
key_checked (p ∷ ps) = λ q. cc

pub check_expire_in-IsLifetime :
    (e : Option Number) → Ensures (λ n. IsExpireIn e × IsLifetime n) (check_expire_in e)
check_expire_in-IsLifetime none = (tt, tt)
check_expire_in-IsLifetime (some (integer (pos n))) =
    elim (Bool-cases (ltb 0 n && ltb n (2 ^ 53))) [
      | inl h ↦ rw h ((ground arith, ground arith), (ground arith, ground arith))
      | inr h ↦ rw h tt
    ]
check_expire_in-IsLifetime (some (integer (negsuc n))) = tt
check_expire_in-IsLifetime (some not_an_integer) = tt

pub make_kv_u64-IsU64 : (n : ℤ) → Ensures (λ _. IsU64 n) (make_kv_u64 n)
unfolding make_kv_u64
make_kv_u64-IsU64 (pos n) = elim (Bool-cases (ltb (2 ^ 64 - 1) n)) [
  | inl h ↦ rw h tt
  | inr h ↦ rw h (ground arith)
]
make_kv_u64-IsU64 (negsuc n) = tt

-- Allowed arguments pass the checks.
pub key-IsOk : (k : KvKey) → k ≢ [] → IsOk (check_key_not_empty k)
key-IsOk [] h = h refl
key-IsOk (p ∷ ps) h = tt

pub expire_in-IsOk : (e : Option Number) → IsExpireIn e → IsOk (check_expire_in e)
expire_in-IsOk none h = tt
expire_in-IsOk (some (integer (pos n))) h = rw (allowed n h.0 h.1) tt
  where
    allowed : (n : ℕ) → 0 < n → n < 2 ^ 53 → (ltb 0 n && ltb n (2 ^ 53)) ≡ true
    allowed n h k = ground arith
expire_in-IsOk (some (integer (negsuc n))) h = absurd h
expire_in-IsOk (some not_an_integer) h = absurd h

pub u64-IsOk : (n : ℤ) → IsU64 n → IsOk (make_kv_u64 n)
unfolding make_kv_u64
u64-IsOk (pos n) h = rw (fits n h) tt
  where
    fits : (n : ℕ) → n < 2 ^ 64 → ltb (2 ^ 64 - 1) n ≡ false
    fits n h = ground arith
u64-IsOk (negsuc n) h = absurd h

module _ {V : Type 0} where
  -- The arguments that the documentation allows.
  abbrev pub IsArgument : MutationArgument V → Type 0
  IsArgument (set_argument k v e) = (k ≢ []) × IsExpireIn e
  IsArgument (delete_argument k) = k ≢ []
  IsArgument (combine_argument o k n) = k ≢ []

  -- A mutation of the operation: its key has a part, and its `expireIn` is a lifetime.
  abbrev pub IsChecked : KvMutation V → Type 0
  IsChecked (Transaction.set k v e) = (k ≢ []) × IsLifetime e
  IsChecked (Transaction.delete k) = k ≢ []
  IsChecked (Transaction.combine o k n) = k ≢ []

  abbrev HasKey : MutationArgument V → Type 0
  HasKey m = argument_key m ≢ []

  keys_checked : (ms : List (MutationArgument V)) → Ensures (λ _. All HasKey ms) (check_all_keys ms)
  unfolding check_all_keys
  keys_checked [] = tt
  keys_checked (m ∷ ms) =
      then-Ensures (HasKey m) (λ _. All HasKey (m ∷ ms)) (check_key_not_empty (argument_key m)) _
        (key_checked (argument_key m))
        λ h.
          weaken-Ensures (λ _. All HasKey ms) _ (check_all_keys ms) (keys_checked ms) λ _ k. (h, k)

  checked_mutation-IsChecked :
      (m : MutationArgument V)
      → HasKey m
      → Ensures (λ n. IsArgument m × IsChecked n) (checked_mutation m)
  unfolding checked_mutation
  checked_mutation-IsChecked (set_argument k v e) h =
      seq-Ensures (λ n. IsExpireIn e × IsLifetime n) _ (check_expire_in e) _
        (check_expire_in-IsLifetime e) λ n p. ((h, p.0), (h, p.1))
  checked_mutation-IsChecked (delete_argument k) h = (h, h)
  checked_mutation-IsChecked (combine_argument o k n) h = (h, h)

  check_all_expire_in-IsChecked :
      (ms : List (MutationArgument V))
      → All HasKey ms
      → Ensures (λ ns. All IsArgument ms × All IsChecked ns) (check_all_expire_in ms)
  unfolding check_all_expire_in
  check_all_expire_in-IsChecked [] h = (tt, tt)
  check_all_expire_in-IsChecked (m ∷ ms) h =
      seq-Ensures (λ n. IsArgument m × IsChecked n) _ (checked_mutation m) _
        (checked_mutation-IsChecked m h.0)
        λ n p.
          seq-Ensures (λ ns. All IsArgument ms × All IsChecked ns) _ (check_all_expire_in ms) _
            (check_all_expire_in-IsChecked ms h.1) λ ns q. ((p.0, q.0), (p.1, q.1))

  pub mutate-Ensures :
      (ms : List (MutationArgument V)) (op : AtomicOperation V)
      → All IsChecked op.mutations
      → Ensures (λ op'. All IsArgument ms × All IsChecked op'.mutations) (mutate ms op)
  unfolding mutate
  mutate-Ensures ms op h =
      then-Ensures (All HasKey ms) (λ op'. All IsArgument ms × All IsChecked op'.mutations)
        (check_all_keys ms) _ (keys_checked ms)
        λ k.
          seq-Ensures (λ ns. All IsArgument ms × All IsChecked ns) _ (check_all_expire_in ms) _
            (check_all_expire_in-IsChecked ms k)
            λ ns p. (p.0, All-append IsChecked op.mutations ns h p.1)

  argument-HasKey : (m : MutationArgument V) → IsArgument m → HasKey m
  argument-HasKey (set_argument k v e) h = h.0
  argument-HasKey (delete_argument k) h = h
  argument-HasKey (combine_argument o k n) h = h

  keys-IsOk : (ms : List (MutationArgument V)) → All IsArgument ms → IsOk (check_all_keys ms)
  unfolding check_all_keys
  keys-IsOk [] h = tt
  keys-IsOk (m ∷ ms) h =
      then-IsOk (check_key_not_empty (argument_key m)) _
        (key-IsOk (argument_key m) (argument-HasKey m h.0)) (keys-IsOk ms h.1)

  checked_mutation-IsOk : (m : MutationArgument V) → IsArgument m → IsOk (checked_mutation m)
  unfolding checked_mutation
  checked_mutation-IsOk (set_argument k v e) h =
      bind-IsOk (check_expire_in e) _ (expire_in-IsOk e h.1) λ n. tt
  checked_mutation-IsOk (delete_argument k) h = tt
  checked_mutation-IsOk (combine_argument o k n) h = tt

  mutations-IsOk :
      (ms : List (MutationArgument V)) → All IsArgument ms → IsOk (check_all_expire_in ms)
  unfolding check_all_expire_in
  mutations-IsOk [] h = tt
  mutations-IsOk (m ∷ ms) h =
      bind-IsOk (checked_mutation m) _ (checked_mutation-IsOk m h.0)
        λ n. bind-IsOk (check_all_expire_in ms) _ (mutations-IsOk ms h.1) λ ns. tt

  pub mutate-IsOk :
      (ms : List (MutationArgument V)) (op : AtomicOperation V)
      → All IsArgument ms
      → IsOk (mutate ms op)
  unfolding mutate
  mutate-IsOk ms op h =
      then-IsOk (check_all_keys ms) _ (keys-IsOk ms h)
        (bind-IsOk (check_all_expire_in ms) _ (mutations-IsOk ms h) λ ns. tt)
