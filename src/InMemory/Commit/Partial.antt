-- ===== src/InMemory/Commit/Partial.antt =====
-- Commits of npm/src/in_memory.ts that throw halfway: what was written before stays written.
use denokv.Prelude.{
  ℕ, ◌≡◌, refl, ap, sym, ◌∙◌, false, Option, none, some, List, [], ◌∷◌, Error, ok, err, not_kv_u64,
}
use denokv.Bytes.{equal_bytes}
use denokv.Bytes.Order.{equal_bytes_refl}
use denokv.KvKey.{KvKey, pack_key}
use denokv.KvUtil.Value.{Value, u64, byte_array, holder, plain}
use denokv.KvUtil.Versionstamp.{pack_versionstamp}
use denokv.InMemory.Rows.{KvRow, find_row, insert_row}
use denokv.InMemory.Rows.Laws.{find-remove, find-replace}
use denokv.InMemory.State.{next_version, Env, Store}
use denokv.InMemory.Transaction.{
  KvMutation, Operand, Operation, set, combine, copy_value, find_key, run_checks, enqueue_all,
}
use denokv.InMemory.Mutate.{Work, put_row, combine_value, combine_row, mutate_row, mutate_all}
use denokv.InMemory.Commit.{commit_checked, commit}

module _ {V : Type 0} (E : Env V) where
  -- A `set` whose value cannot be cloned throws, and the row that its key had is gone: the code
  -- removes the old row before it copies the new value.
  pub set_uncloneable_loses_row :
      (now : ℕ) (key : KvKey) (v : Value V) (expire_in : Option ℕ) (ms : List (KvMutation V))
      (s : Store E) (e : Error)
      → copy_value E v ≡ err e
      → ((commit E now [] (set key v expire_in ∷ ms) [] none s).0 ≡ err e)
        × (find_key E (commit E now [] (set key v expire_in ∷ ms) [] none s).1.rows key ≡ none)
  unfolding commit run_checks commit_checked enqueue_all mutate_all mutate_row
  set_uncloneable_loses_row now key v expire_in ms s e uncloneable = rw uncloneable (
    refl,
    E.tree.find-values _ (pack_key E.text key)
        ∙ rw (E.tree.values-remove, find-remove, equal_bytes_refl) refl,
  )

  -- A value that is no `_KvU64`.
  abbrev pub IsNoU64 : Value V → Type 0
  IsNoU64 (u64 u) = ⊥
  IsNoU64 (byte_array bs) = Unit {0}
  IsNoU64 (holder n) = Unit {0}
  IsNoU64 (plain v) = Unit {0}

  combine_value_throws :
      (stamp : List ℕ) (op : Operation) (k : List ℕ) (o : Operand) (v : Value V) (w : Work E)
      → IsNoU64 v
      → combine_value E stamp op k o v w ≡ (err not_kv_u64, w)
  unfolding combine_value
  combine_value_throws stamp op k o (u64 u) w h = absurd h
  combine_value_throws stamp op k o (byte_array bs) w h = refl
  combine_value_throws stamp op k o (holder n) w h = refl
  combine_value_throws stamp op k o (plain v) w h = refl

  put_row-find_other :
      (rows : E.tree.Tree) (k l stamp : List ℕ) (v : Value V)
      → equal_bytes k l ≡ false
      → E.tree.find (put_row E (E.tree.remove rows k) k v stamp none) l ≡ E.tree.find rows l
  put_row-find_other rows k l stamp v differ =
      E.tree.find-values _ l
      ∙ ap (find_row l) (E.tree.values-insert _ _ ∙ ap (insert_row _) (E.tree.values-remove rows k))
      ∙ find-replace l (record { key_bytes = k; value = v; versionstamp = stamp; expires = none })
          (E.tree.values rows)
      ∙ rw differ (sym (E.tree.find-values rows l))

  put_row-find_same :
      (rows : E.tree.Tree) (k stamp : List ℕ) (v : Value V)
      → E.tree.find (put_row E (E.tree.remove rows k) k v stamp none) k
        ≡ some (record { key_bytes = k; value = v; versionstamp = stamp; expires = none })
  put_row-find_same rows k stamp v =
      E.tree.find-values _ k
      ∙ ap (find_row k) (E.tree.values-insert _ _ ∙ ap (insert_row _) (E.tree.values-remove rows k))
      ∙ find-replace k (record { key_bytes = k; value = v; versionstamp = stamp; expires = none })
          (E.tree.values rows)
      ∙ rw equal_bytes_refl refl

  -- A commit is not atomic where a later mutation throws: a `set` before a `sum`, `min` or `max` of
  -- a key whose value is no `_KvU64` is stored, under a new versionstamp, although the commit
  -- throws.
  pub failed_sum_keeps_set :
      (now : ℕ) (key other : KvKey) (v copy : Value V) (op : Operation) (o : Operand) (s : Store E)
      (r : KvRow V)
      → copy_value E v ≡ ok copy
      → equal_bytes (pack_key E.text key) (pack_key E.text other) ≡ false
      → find_key E s.rows other ≡ some r
      → IsNoU64 r.value
      → ((commit E now [] (set key v none ∷ combine op other o ∷ []) [] none s).0 ≡ err not_kv_u64)
        × (find_key E
              (commit E now [] (set key v none ∷ combine op other o ∷ []) [] none s).1.rows
              key
            ≡ some (record {
              key_bytes = pack_key E.text key;
              value = copy;
              versionstamp = pack_versionstamp (next_version s.version);
              expires = none;
            }))
  unfolding commit run_checks commit_checked enqueue_all mutate_all mutate_row combine_row
  failed_sum_keeps_set now key other v copy op o s r copied differ there no_u64 =
      rw
        (
          copied,
          put_row-find_other s.rows (pack_key E.text key) (pack_key E.text other)
              (pack_versionstamp (next_version s.version)) copy differ,
          there,
          combine_value_throws (pack_versionstamp (next_version s.version)) op
              (pack_key E.text other) o r.value _ no_u64,
        )
        (
          refl,
          put_row-find_same s.rows (pack_key E.text key)
              (pack_versionstamp (next_version s.version)) copy,
        )
