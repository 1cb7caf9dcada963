-- ===== src/BaseKv/Atomic.antt =====
-- `GenericAtomicOperation` of npm/src/kv_util.ts: the calls that build an atomic operation.
pub mod Arguments
pub mod Calls
use denokv.Prelude.{
  ℕ, ◌^◌, Bool, true, false, ◌&&◌, Option, none, some, List, [], ◌∷◌, ◌++◌, ltb, if◌then◌else◌,
  Result, ok, err, ◌>>=◌, ◌>>◌, guard, empty_key, bad_expire_in,
}
use denokv.Prelude.Int.{ℤ, pos, negsuc}
use denokv.KvKey.{KvKey}
use denokv.KvU64.{KvU64, make_kv_u64}
use denokv.KvUtil.Value.{Value}
use denokv.InMemory.Transaction.{AtomicCheck, Operand, Operation, instance_of, KvMutation, Enqueue}
use denokv.InMemory.Transaction

pub record AtomicOperation (V : Type 0) : Type 0 where
  pub checks : List AtomicCheck
  pub mutations : List (KvMutation V)
  pub enqueues : List (Enqueue V)

abbrev pub new_operation : {V : Type 0} → AtomicOperation V
new_operation = record { checks = []; mutations = []; enqueues = [] }

abbrev pub check_key_not_empty : KvKey → Result (Unit {0})
check_key_not_empty [] = err empty_key
check_key_not_empty (p ∷ ps) = ok tt

-- A number of JavaScript; `not_an_integer` stands for the fractions, the infinities and NaN.
pub data Number : Type 0 where
  integer : ℤ → Number
  not_an_integer : Number

-- The mutations that `mutate` is called with: `expireIn` is any number there, or undefined.
pub data MutationArgument (V : Type 0) : Type 0 where
  set_argument : KvKey → Value V → Option Number → MutationArgument V
  delete_argument : KvKey → MutationArgument V
  combine_argument : Operation → KvKey → Operand → MutationArgument V

abbrev pub argument_key : {V : Type 0} → MutationArgument V → KvKey
argument_key (set_argument k v e) = k
argument_key (delete_argument k) = k
argument_key (combine_argument op k o) = k

-- Undefined, or a positive safe integer, which `commit` then adds to the time.
abbrev pub check_expire_in : Option Number → Result (Option ℕ)
check_expire_in none = ok none
check_expire_in (some (integer (pos n))) =
    if ltb 0 n && ltb n (2 ^ 53) then ok (some n) else err bad_expire_in
check_expire_in (some (integer (negsuc n))) = err bad_expire_in
check_expire_in (some not_an_integer) = err bad_expire_in

module _ {V : Type 0} where
  unfoldable pub check_all_keys : List (MutationArgument V) → Result (Unit {0})
  check_all_keys [] = ok tt
  check_all_keys (m ∷ ms) = check_key_not_empty (argument_key m) >> check_all_keys ms

  -- The argument as a mutation, once its `expireIn` is checked.
  unfoldable pub checked_mutation : MutationArgument V → Result (KvMutation V)
  checked_mutation (set_argument k v e) = do n ← check_expire_in e; ok (Transaction.set k v n)
  checked_mutation (delete_argument k) = ok (Transaction.delete k)
  checked_mutation (combine_argument op k o) = ok (Transaction.combine op k o)

  unfoldable pub check_all_expire_in : List (MutationArgument V) → Result (List (KvMutation V))
  check_all_expire_in [] = ok []
  check_all_expire_in (m ∷ ms) = do n ← checked_mutation m; ns ← check_all_expire_in ms; ok (n ∷ ns)

  abbrev pub check : List AtomicCheck → AtomicOperation V → AtomicOperation V
  check cs op = record op { checks = op.checks ++ cs }

  unfoldable pub mutate : List (MutationArgument V) → AtomicOperation V → Result (AtomicOperation V)
  mutate ms op = do
    check_all_keys ms
    ns ← check_all_expire_in ms
    ok (record op { mutations = op.mutations ++ ns })

  -- `sum`, `min` and `max`.
  unfoldable pub combine : Operation → KvKey → ℤ → AtomicOperation V → Result (AtomicOperation V)
  unfolding mutate
  combine o key n op = do
    check_key_not_empty key
    u ← make_kv_u64 n
    mutate (combine_argument o key (instance_of u) ∷ []) op

  unfoldable pub set :
      KvKey → Value V → Option Number → AtomicOperation V → Result (AtomicOperation V)
  unfolding mutate
  set key value expire_in op = do
    _ ← check_expire_in expire_in
    check_key_not_empty key
    mutate (set_argument key value expire_in ∷ []) op

  unfoldable pub delete : KvKey → AtomicOperation V → Result (AtomicOperation V)
  unfolding mutate
  delete key op = do check_key_not_empty key; mutate (delete_argument key ∷ []) op

  abbrev pub enqueue : Enqueue V → AtomicOperation V → AtomicOperation V
  enqueue e op = record op { enqueues = op.enqueues ++ (e ∷ []) }
