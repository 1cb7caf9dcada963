-- ===== src/InMemory/Transaction.antt =====
-- The arguments of `commit` of npm/src/in_memory.ts, its checks and its enqueues, and `getOne`. A
-- method that may throw returns the state beside its result: what was written before the exception
-- stays written.
use denokv.Prelude.{
  ℕ, ◌+◌, Bool, true, false, Option, none, some, List, [], ◌∷◌, ◌++◌, any, min, ◌==◌, if◌then◌else◌,
  Result, ok, err, ◌>>=◌, bad_versionstamp,
}
use denokv.Prelude.Int.{ℤ, pos}
use denokv.Bytes.{equal_bytes}
use denokv.KvKey.{KvKey, pack_key}
use denokv.KvU64.{KvU64}
use denokv.KvU64
use denokv.KvUtil.Value.{Value, u64, holder}
use denokv.KvUtil.Versionstamp.{is_valid_versionstamp}
use denokv.InMemory.Rows.{KvRow}
use denokv.InMemory.State.{Env, KvEntryMaybe, Store}

-- `none` is the versionstamp `null`.
pub record AtomicCheck : Type 0 where
  pub key : KvKey
  pub versionstamp : Option (List ℕ)

-- The value of `sum`, `min` and `max`: any object with a bigint `value`.
pub data Operand : Type 0 where
  instance_of : KvU64 → Operand
  object : ℤ → Operand

abbrev pub operand_value : Operand → ℤ
operand_value (instance_of u) = pos u.value
operand_value (object n) = n

pub data Operation : Type 0 where
  op_sum op_min op_max : Operation

pub data KvMutation (V : Type 0) : Type 0 where
  set : KvKey → Value V → Option ℕ → KvMutation V
  delete : KvKey → KvMutation V
  combine : Operation → KvKey → Operand → KvMutation V

pub record Enqueue (V : Type 0) : Type 0 where
  pub value : Value V
  pub delay : ℕ
  pub keys_if_undelivered : List KvKey

-- `{ ok: false }`, or `{ ok: true, versionstamp }`.
pub data CommitResult : Type 0 where
  failed : CommitResult
  committed : List ℕ → CommitResult

-- The statements after one that may throw.
abbrev pub after {ℓ} : {A B S : Type ℓ} → Result A × S → (A → S → Result B × S) → Result B × S
after (ok a, s) f = f a s
after (err e, s) f = (err e, s)

-- `versionstamp === null && existing`, and the comparison with the stamp of the row.
abbrev pub check_passes : {V : Type 0} → Option (List ℕ) → Option (KvRow V) → Bool
check_passes none none = true
check_passes none (some r) = false
check_passes (some s) none = false
check_passes (some s) (some r) = equal_bytes r.versionstamp s

abbrev pub is_valid_stamp : Option (List ℕ) → Bool
is_valid_stamp none = true
is_valid_stamp (some s) = is_valid_versionstamp s

-- `Math.min(expires, minExpires ?? Number.MAX_SAFE_INTEGER)`, on times below that bound.
abbrev pub min_option : ℕ → Option ℕ → Option ℕ
min_option n none = some n
min_option n (some m) = some (min n m)

-- `Date.now() + Math.round(expireIn)` of an integer.
abbrev pub expiry : ℕ → Option ℕ → Option ℕ
expiry now none = none
expiry now (some n) = some (now + n)

abbrev pub earliest : Option ℕ → Option ℕ → Option ℕ
earliest none m = m
earliest (some n) m = min_option n m

abbrev pub combined : Operation → KvU64 → Operand → Result KvU64
combined op_sum u o = KvU64.sum u (operand_value o)
combined op_min u o = KvU64.minimum u (operand_value o)
combined op_max u o = KvU64.maximum u (operand_value o)

abbrev pub operand_object : {V : Type 0} → Operand → Value V
operand_object (instance_of u) = u64 u
operand_object (object n) = holder n

abbrev pub mutation_key : {V : Type 0} → KvMutation V → KvKey
mutation_key (set k v e) = k
mutation_key (delete k) = k
mutation_key (combine op k o) = k

abbrev pub is_member : ℕ → List ℕ → Bool
is_member i is = any (λ j. i == j) is

module _ {V : Type 0} (E : Env V) where
  -- `copyValueIfNecessary`
  unfoldable pub copy_value : Value V → Result (Value V)
  copy_value (u64 u) = ok (u64 u)
  copy_value v = E.structured_clone v

  abbrev pub find_key : E.tree.Tree → KvKey → Option (KvRow V)
  find_key rows k = E.tree.find rows (pack_key E.text k)

  unfoldable pub entry_of : KvKey → Option (KvRow V) → Result (KvEntryMaybe V)
  entry_of k none = ok (record { key = k; found = none })
  entry_of k (some r) = do
    v ← copy_value r.value
    ok (record { key = k; found = some (v, r.versionstamp) })

  unfoldable pub get_one : E.tree.Tree → KvKey → Result (KvEntryMaybe V)
  get_one rows k = entry_of k (find_key rows k)

  -- The loop over the checks; `ok false` is the early `return { ok: false }`.
  unfoldable pub run_checks : E.tree.Tree → List AtomicCheck → Result Bool
  run_checks rows [] = ok true
  run_checks rows (c ∷ cs) =
      let rest = run_checks rows cs in
      if is_valid_stamp c.versionstamp
      then (if check_passes c.versionstamp (find_key rows c.key) then rest else ok false)
      else err bad_versionstamp

  -- The loop over `enqueues`.
  unfoldable pub enqueue_all : ℕ → List (Enqueue V) → Store E → Result (Unit {0}) × Store E
  enqueue_all now [] s = (ok tt, s)
  enqueue_all now (e ∷ es) s =
      let s' : Store E = record s { next_queue_item_id = s.next_queue_item_id + 1 } in
      after {B = Unit {0}} (copy_value e.value, s')
        λ v t. enqueue_all now es (record t {
          queue =
              t.queue
              ++ (record {
                id = s.next_queue_item_id;
                value = v;
                enqueued = now;
                available = now + e.delay;
                failures = 0;
                keys_if_undelivered = e.keys_if_undelivered;
                locked = false;
              }
                  ∷ []);
        })
