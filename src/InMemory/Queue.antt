-- ===== src/InMemory/Queue.antt =====
-- `runWorker` of npm/src/in_memory.ts: the dispatch of a queue item, and what follows the handler.
pub mod Fifo
use denokv.Prelude.{
  ℕ, ◌+◌, ◌-◌, ◌*◌, Bool, true, false, not, ◌&&◌, Option, none, some, List, [], ◌∷◌, any, map, ltb,
  leb, min, ◌==◌, if◌then◌else◌, Result, ok, err, empty_key, closed,
}
use denokv.KvKey.{KvKey}
use denokv.KvUtil.Value.{Value}
use denokv.KvUtil.Timers.{reschedule_worker}
use denokv.InMemory.State.{Env, QueueItem, Store}
use denokv.InMemory.Transaction.{KvMutation, set, after, CommitResult}
use denokv.InMemory.Commit.{without_item, commit}

-- `v.available <= time && !v.locked`
abbrev pub is_candidate : {V : Type 0} → ℕ → QueueItem V → Bool
is_candidate now i = leb i.available now && not i.locked

abbrev pub least : ℕ → List ℕ → ℕ
least n [] = n
least n (m ∷ ms) = least (min n m) ms

module _ {V : Type 0} where
  unfoldable pub candidate_ids : ℕ → List (QueueItem V) → List ℕ
  candidate_ids now [] = []
  candidate_ids now (i ∷ q) =
      let rest = candidate_ids now q in if is_candidate now i then i.id ∷ rest else rest

  -- The least `available` of the unlocked items.
  unfoldable pub next_available : List (QueueItem V) → Option ℕ
  next_available [] = none
  next_available (i ∷ q) =
      let rest = next_available q in
      if i.locked
      then rest
      else some (elim rest [ none ↦ i.available | some n ↦ min i.available n ])

  unfoldable pub get_item : ℕ → List (QueueItem V) → Option (QueueItem V)
  get_item id [] = none
  get_item id (i ∷ q) = let rest = get_item id q in if i.id == id then some i else rest

  unfoldable pub lock_item : ℕ → List (QueueItem V) → List (QueueItem V)
  lock_item id [] = []
  lock_item id (i ∷ q) =
      let rest = lock_item id q in if i.id == id then record i { locked = true } ∷ q else i ∷ rest

  -- What a failed item becomes, to be tried again later.
  unfoldable pub retry_item : ℕ → ℕ → ℕ → List (QueueItem V) → List (QueueItem V)
  retry_item id failures available [] = []
  retry_item id failures available (i ∷ q) =
      let rest = retry_item id failures available q in
      if i.id == id
      then record i { failures = failures; available = available; locked = false } ∷ q
      else i ∷ rest

  abbrev pub set_all : Value V → List KvKey → List (KvMutation V)
  set_all v [] = []
  set_all v (k ∷ ks) = set k v none ∷ set_all v ks

abbrev pub is_empty : KvKey → Bool
is_empty [] = true
is_empty (p ∷ ps) = false

module _ {V : Type 0} (E : Env V) where
  -- No item is ready: the timer is set for the next one.
  unfoldable pub wait : ℕ → Option ℕ → Store E → Option (QueueItem V) × Store E
  wait now none s = (none, s)
  wait now (some n) s =
      (none, record s { queue_worker = reschedule_worker (n - now) s.queue_worker })

  unfoldable pub take_first : ℕ → List ℕ → Store E → Option (QueueItem V) × Store E
  unfolding wait
  take_first now [] s = wait now (next_available s.queue) s
  take_first now (id ∷ ids) s =
      (get_item (least id ids) s.queue, record s { queue = lock_item (least id ids) s.queue })

  -- Up to the call of the handler. The result is the item that the handler is called with.
  unfoldable pub dispatch : ℕ → Store E → Option (QueueItem V) × Store E
  unfolding take_first
  dispatch now s =
      if s.queue_worker.has_handler then take_first now (candidate_ids now s.queue) s else (none, s)

  abbrev pub rescheduled : Store E → Store E
  rescheduled s = record s { queue_worker = reschedule_worker 0 s.queue_worker }

  -- After the handler returned.
  unfoldable pub handler_succeeded : QueueItem V → Store E → Store E
  handler_succeeded i s = rescheduled (record s { queue = without_item E (some i.id) s.queue })

  -- After the handler threw, in a KV that may be closed. At the last attempt the value is set at
  -- each of `keysIfUndelivered`, in a commit that deletes the item; `atomic.set` throws on an empty
  -- key, and `atomic.commit` on a closed KV.
  unfoldable pub handler_failed : ℕ → Bool → QueueItem V → Store E → Result (Unit {0}) × Store E
  handler_failed now is_closed i s =
      let given_up =
        after {B = Unit {0}}
          (commit E now [] (set_all i.value i.keys_if_undelivered) [] (some i.id) s)
          (λ _ t. (ok tt, rescheduled t)) in
      let retried = rescheduled (record s {
        queue = retry_item i.id (i.failures + 1) (now + 1000 * (i.failures + 1)) s.queue;
      }) in
      if leb s.max_queue_attempts (i.failures + 1)
      then (if any is_empty i.keys_if_undelivered
          then (err empty_key, s)
          else if is_closed
          then (err closed, s)
          else given_up)
      else (ok tt, retried)
