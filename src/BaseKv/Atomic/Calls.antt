-- ===== src/BaseKv/Atomic/Calls.antt =====
-- What any chain of calls on a `GenericAtomicOperation` of npm/src/kv_util.ts may build.
use denokv.Prelude.{◌≢◌, Option, List, [], ◌∷◌, All, Result, ok, ◌>>=◌}
use denokv.Prelude.Int.{ℤ}
use denokv.KvKey.{KvKey}
use denokv.KvUtil.Value.{Value}
use denokv.InMemory.Transaction.{AtomicCheck, Operation, Enqueue}
use denokv.BaseKv.Atomic.Arguments.{IsExpireIn, IsU64, IsArgument, IsChecked}
use denokv.BaseKv.Atomic.{
  Number, MutationArgument, AtomicOperation, check, mutate, combine, set, delete, enqueue,
}

-- A call on the operation.
pub data Call (V : Type 0) : Type 0 where
  call_check : List AtomicCheck → Call V
  call_mutate : List (MutationArgument V) → Call V
  call_combine : Operation → KvKey → ℤ → Call V
  call_set : KvKey → Value V → Option Number → Call V
  call_delete : KvKey → Call V
  call_enqueue : Enqueue V → Call V

module _ {V : Type 0} where
  unfoldable pub apply_call : Call V → AtomicOperation V → Result (AtomicOperation V)
  apply_call (call_check cs) op = ok (check cs op)
  apply_call (call_mutate ms) op = mutate ms op
  apply_call (call_combine o key n) op = combine o key n op
  apply_call (call_set key v e) op = set key v e op
  apply_call (call_delete key) op = delete key op
  apply_call (call_enqueue e) op = ok (enqueue e op)

  unfoldable pub apply_all : List (Call V) → AtomicOperation V → Result (AtomicOperation V)
  apply_all [] op = ok op
  apply_all (c ∷ cs) op = do op' ← apply_call c op; apply_all cs op'

  abbrev pub IsCall : Call V → Type 0
  IsCall (call_check cs) = Unit {0}
  IsCall (call_mutate ms) = All IsArgument ms
  IsCall (call_combine o k n) = (k ≢ []) × IsU64 n
  IsCall (call_set k v e) = (k ≢ []) × IsExpireIn e
  IsCall (call_delete k) = k ≢ []
  IsCall (call_enqueue e) = Unit {0}

  -- A call that does not throw was allowed, and keeps the mutations checked.
  abbrev Passes : Call V → AtomicOperation V → Type 0
  Passes c op = IsCall c × All IsChecked op.mutations
