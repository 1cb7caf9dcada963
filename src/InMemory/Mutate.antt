-- ===== src/InMemory/Mutate.antt =====
-- The loop over the mutations in `commit` of npm/src/in_memory.ts.
pub mod Refines
pub mod Keeps
use denokv.Prelude.{
  ℕ, suc, ◌+◌, Bool, true, false, not, ◌&&◌, ◌||◌, Option, none, some, List, [], ◌∷◌, ◌++◌, map,
  any, min, ltb, ◌==◌, if◌then◌else◌, Error, Result, ok, err, ◌>>=◌, bad_versionstamp, not_kv_u64,
  stream_closed,
}
use denokv.Prelude.Int.{ℤ, pos}
use denokv.Bytes.{equal_bytes}
use denokv.KvKey.{KvKey, pack_key, unpack_key}
use denokv.KvU64.{KvU64}
use denokv.KvU64
use denokv.KvUtil.Value.{Value, u64, byte_array, holder, plain}
use denokv.KvUtil.Versionstamp.{pack_versionstamp, is_valid_versionstamp}
use denokv.KvUtil.Timers.{Expirer, reschedule_expirer, reschedule_worker}
use denokv.InMemory.Rows.{KvRow, RowTree}
use denokv.InMemory.State.{Env, KvEntryMaybe, QueueItem, Watch, Store}
use denokv.InMemory.Transaction.{
  AtomicCheck, Operand, instance_of, object, operand_value, Operation, op_sum, op_min, op_max,
  KvMutation, set, delete, combine, Enqueue, CommitResult, failed, committed, after, check_passes,
  is_valid_stamp, min_option, expiry, earliest, combined, operand_object, mutation_key, is_member,
  copy_value, find_key, entry_of, get_one, run_checks, enqueue_all,
}

module _ {V : Type 0} (E : Env V) where
  -- The local variables of the loop over the mutations, and the rows.
  pub record Work : Type 0 where
    pub rows : E.tree.Tree
    pub min_expires : Option ℕ
    pub watch_ids : List ℕ

  abbrev pub put_row : E.tree.Tree → List ℕ → Value V → List ℕ → Option ℕ → E.tree.Tree
  put_row rows k v stamp expires =
      E.tree.insert rows
        (record { key_bytes = k; value = v; versionstamp = stamp; expires = expires })

  -- `sum`, `min` or `max` on the value of an existing row, which must be a `_KvU64`.
  unfoldable pub combine_value :
      List ℕ → Operation → List ℕ → Operand → Value V → Work → Result (Unit {0}) × Work
  combine_value stamp op k o (u64 u) w =
      after {B = Unit {0}} (combined op u o, w)
        λ result w'.
          (ok tt, record w' { rows = put_row (E.tree.remove w'.rows k) k (u64 result) stamp none })
  combine_value stamp op k o (byte_array bs) w = (err not_kv_u64, w)
  combine_value stamp op k o (holder n) w = (err not_kv_u64, w)
  combine_value stamp op k o (plain v) w = (err not_kv_u64, w)

  unfoldable pub combine_row :
      List ℕ → Operation → List ℕ → Operand → Option (KvRow V) → Work → Result (Unit {0}) × Work
  combine_row stamp op k o none w =
      (ok tt, record w { rows = put_row w.rows k (operand_object o) stamp none })
  combine_row stamp op k o (some r) w = combine_value stamp op k o r.value w

  -- The branches on the type of a mutation. `set` removes the old row before it copies the value.
  unfoldable pub mutate_row : List ℕ → ℕ → KvMutation V → Work → Result (Unit {0}) × Work
  mutate_row stamp now (set k v expire_in) w =
      let key_bytes = pack_key E.text k in
      let expires = expiry now expire_in in
      let w' : Work = record w {
        rows = E.tree.remove w.rows key_bytes;
        min_expires = earliest expires w.min_expires;
      } in
      after {B = Unit {0}} (copy_value E v, w')
        λ copy w''. (ok tt, record w'' { rows = put_row w''.rows key_bytes copy stamp expires })
  mutate_row stamp now (delete k) w =
      (ok tt, record w { rows = E.tree.remove w.rows (pack_key E.text k) })
  mutate_row stamp now (combine op k o) w =
      combine_row stamp op (pack_key E.text k) o (find_key E w.rows k) w

  -- The inner loop over the watches, after a mutation of the key.
  unfoldable pub add_watch_ids : List ℕ → List (Watch V) → List ℕ → List ℕ
  add_watch_ids k [] ids = ids
  add_watch_ids k (w ∷ ws) ids = add_watch_ids k ws (
      if not (is_member w.id ids) && any (λ b. equal_bytes b k) w.keys_as_bytes
      then ids ++ (w.id ∷ [])
      else ids)

  unfoldable pub mutate_all :
      List ℕ → ℕ → List (Watch V) → List (KvMutation V) → Work → Result (Unit {0}) × Work
  mutate_all stamp now watches [] w = (ok tt, w)
  mutate_all stamp now watches (m ∷ ms) w = after (mutate_row stamp now m w) λ _ w'.
      mutate_all stamp now watches ms (record w' {
        watch_ids = add_watch_ids (pack_key E.text (mutation_key m)) watches w'.watch_ids;
      })
