-- ===== src/InMemory/Commit.antt =====
-- `commit` of npm/src/in_memory.ts: what follows the checks and the mutations, and the whole.
pub mod Invariant
pub mod Keeps
pub mod Stale
pub mod Partial
pub mod Plain
use denokv.Prelude.{
  ℕ, suc, ◌+◌, Bool, true, false, not, ◌&&◌, ◌||◌, Option, none, some, List, [], ◌∷◌, ◌++◌, map,
  any, min, ltb, ◌==◌, if◌then◌else◌, Error, Result, ok, err, ◌>>=◌, bad_versionstamp, not_kv_u64,
  stream_closed,
}
use denokv.Prelude.Int.{ℤ, pos}
use denokv.Bytes.{equal_bytes}
use denokv.KvKey.{KvKey, pack_key, unpack_key}
use denokv.KvU64.{KvU64}
use denokv.KvU64
use denokv.KvUtil.Value.{Value, u64, holder}
use denokv.KvUtil.Versionstamp.{pack_versionstamp, is_valid_versionstamp}
use denokv.KvUtil.Timers.{Expirer, reschedule_expirer, reschedule_worker}
use denokv.InMemory.Rows.{KvRow, RowTree}
use denokv.InMemory.State.{next_version, Env, KvEntryMaybe, QueueItem, Watch, Store}
use denokv.InMemory.Transaction.{
  AtomicCheck, Operand, instance_of, object, operand_value, Operation, op_sum, op_min, op_max,
  KvMutation, set, delete, combine, Enqueue, CommitResult, failed, committed, after, check_passes,
  is_valid_stamp, min_option, expiry, earliest, combined, operand_object, mutation_key, is_member,
  copy_value, find_key, entry_of, get_one, run_checks, enqueue_all,
}
use denokv.InMemory.Mutate.{Work, put_row, combine_row, mutate_row, add_watch_ids, mutate_all}

module _ {V : Type 0} (E : Env V) where
  -- `watch.keysAsBytes.map((v) => this.getOne(unpackKey(v)))`
  unfoldable pub watch_entries : E.tree.Tree → List (List ℕ) → Result (List (KvEntryMaybe V))
  watch_entries rows [] = ok []
  watch_entries rows (k ∷ ks) = do
    key ← unpack_key E.text k
    e ← get_one E rows key
    es ← watch_entries rows ks
    ok (e ∷ es)

  -- `controller.enqueue(entries)` throws after the controller was closed.
  unfoldable pub on_entries : List (KvEntryMaybe V) → Watch V → Result (Watch V)
  on_entries es w =
      if w.is_open then ok (record w { sent = w.sent ++ (es ∷ []) }) else err stream_closed

  -- The watch with this id is called, if it is there still.
  unfoldable pub notify_one : E.tree.Tree → ℕ → List (Watch V) → Result (Unit {0}) × List (Watch V)
  notify_one rows id [] = (ok tt, [])
  notify_one rows id (w ∷ ws) =
      let rest = notify_one rows id ws in
      if w.id == id
      then (let told : Result (Watch V) =
            watch_entries rows w.keys_as_bytes >>= λ es. on_entries es w in
          elim told [ ok w' ↦ (ok tt, w' ∷ ws) | err e ↦ (err e, w ∷ ws) ])
      else (rest.0, w ∷ rest.1)

  unfoldable pub notify_all :
      E.tree.Tree → List ℕ → List (Watch V) → Result (Unit {0}) × List (Watch V)
  notify_all rows [] ws = (ok tt, ws)
  notify_all rows (id ∷ ids) ws = after (notify_one rows id ws) λ _ ws'. notify_all rows ids ws'

  -- `additionalWork` is the deletion of a queue item, or nothing.
  unfoldable pub without_item : Option ℕ → List (QueueItem V) → List (QueueItem V)
  without_item none q = q
  without_item (some id) [] = []
  without_item (some id) (i ∷ q) =
      let rest = without_item (some id) q in if i.id == id then rest else i ∷ rest

  -- The statements after the loop over the mutations.
  unfoldable pub finish_commit :
      ℕ → List ℕ → Bool → Option ℕ → Option ℕ → List ℕ → Store E → Result CommitResult × Store E
  finish_commit now stamp has_enqueues additional min_expires watch_ids s =
      let e : Expirer = elim min_expires [
        | none ↦ s.expirer
        | some m ↦ reschedule_expirer now m s.expirer
      ] in
      let w = if has_enqueues then reschedule_worker 0 s.queue_worker else s.queue_worker in
      let told = notify_all s.rows watch_ids s.watches in
      let s' : Store E = record s {
        queue = without_item additional s.queue;
        expirer = e;
        queue_worker = w;
        watches = told.1;
      } in
      after (told.0, s') λ _ t. (ok (committed stamp), t)

  abbrev pub is_nonempty : {A : Type 0} → List A → Bool
  is_nonempty [] = false
  is_nonempty (x ∷ xs) = true

  -- `commit` once the checks have passed.
  unfoldable pub commit_checked :
      ℕ
      → List (KvMutation V)
      → List (Enqueue V)
      → Option ℕ
      → Store E
      → Result CommitResult × Store E
  commit_checked now mutations enqueues additional s =
      let stamp = pack_versionstamp (next_version s.version) in
      after (enqueue_all E now enqueues (record s { version = next_version s.version })) λ _ t.
        let done =
          mutate_all E stamp now t.watches mutations
            (record { rows = t.rows; min_expires = none; watch_ids = [] }) in
        let w = done.1 in
        after {A = Unit {0}} (done.0, record t { rows = w.rows })
          λ _ u.
            finish_commit now stamp (is_nonempty enqueues) additional w.min_expires w.watch_ids u

  -- The early exits of the checks.
  abbrev pub after_checks :
      Result Bool → Store E → Result CommitResult × Store E → Result CommitResult × Store E
  after_checks (err e) s rest = (err e, s)
  after_checks (ok false) s rest = (ok failed, s)
  after_checks (ok true) s rest = rest

  -- `Date.now()` is read as one value in the whole call.
  unfoldable pub commit :
      ℕ
      → List AtomicCheck
      → List (KvMutation V)
      → List (Enqueue V)
      → Option ℕ
      → Store E
      → Result CommitResult × Store E
  commit now checks mutations enqueues additional s =
      after_checks (run_checks E s.rows checks) s
        (commit_checked now mutations enqueues additional s)
