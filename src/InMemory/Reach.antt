-- ===== src/InMemory/Reach.antt =====
-- The states that the methods, timers and queue handlers of an InMemoryKv of npm/src/in_memory.ts lead
-- to, in any order.
pub mod Keeps
pub mod Stale
use denokv.Prelude.{
  ℕ, ◌+◌, ◌≡◌, subst, sym, Bool, Option, none, some, List, [], ◌∷◌, any, leb, ◌==◌, Result, ok, err,
  if◌then◌else◌, Bool-cases, inl, inr,
}
use denokv.KvKey.{KvKey}
use denokv.KvUtil.Timers.{listen}
use denokv.InMemory.Rows.{KvRow}
use denokv.InMemory.State.{Env, QueueItem, Store, new_store}
use denokv.InMemory.Transaction.{AtomicCheck, KvMutation, Enqueue, CommitResult, after}
use denokv.InMemory.Mutate.Refines.{Result-cases}
use denokv.InMemory.Commit.{commit}
use denokv.InMemory.Commit.Invariant.{
  HasIds, IsValidRows, IsValid, IsValidRows-remove, HasIds-without, commit-IsValid,
  new_store-IsValid,
}
use denokv.InMemory.Expiry.{expired_rows, remove_rows, expire, run_expirer}
use denokv.InMemory.Queue.{
  least, candidate_ids, next_available, is_empty, set_all, lock_item, retry_item, wait, take_first,
  dispatch, rescheduled, handler_succeeded, handler_failed,
}
use denokv.InMemory.Watches.{watch_, cancel_watch, close_}
use denokv.InMemory.Service.{with_worker, listen_queue_}

module _ {V : Type 0} where
  HasIds-lock :
      (id lo hi : ℕ) (q : List (QueueItem V)) → HasIds lo hi q → HasIds lo hi (lock_item id q)
  unfolding lock_item
  HasIds-lock id lo hi [] h = h
  HasIds-lock id lo hi (i ∷ q) h = elim (Bool-cases (i.id == id)) [
    | inl same ↦ rw same h
    | inr other ↦ rw other (h.0, HasIds-lock id (i.id + 1) hi q h.1)
  ]

  HasIds-retry :
      (id failures available lo hi : ℕ) (q : List (QueueItem V))
      → HasIds lo hi q
      → HasIds lo hi (retry_item id failures available q)
  unfolding retry_item
  HasIds-retry id failures available lo hi [] h = h
  HasIds-retry id failures available lo hi (i ∷ q) h = elim (Bool-cases (i.id == id)) [
    | inl same ↦ rw same h
    | inr other ↦ rw other (h.0, HasIds-retry id failures available (i.id + 1) hi q h.1)
  ]

module _ {V : Type 0} (E : Env V) where
  -- One step of the program: a method, the timer of the expirer, the start of the queue worker, and
  -- what follows its handler. A step that throws is one, too.
  pub data Step : Store E → Store E → Type 0 where
    commits :
        (now : ℕ) (checks : List AtomicCheck) (ms : List (KvMutation V)) (es : List (Enqueue V))
        (s t : Store E)
        → (commit E now checks ms es none s).1 ≡ t
        → Step s t
    expires : (now : ℕ) (s t : Store E) → run_expirer E now s ≡ t → Step s t
    dispatches : (now : ℕ) (s t : Store E) → (dispatch E now s).1 ≡ t → Step s t
    succeeds : (i : QueueItem V) (s t : Store E) → handler_succeeded E i s ≡ t → Step s t
    fails :
        (now : ℕ) (is_closed : Bool) (i : QueueItem V) (s t : Store E)
        → (handler_failed E now is_closed i s).1 ≡ t
        → Step s t
    listens : (s t : Store E) → (listen_queue_ E s).1 ≡ t → Step s t
    watches : (keys : List KvKey) (s t : Store E) → (watch_ E keys s).1 ≡ t → Step s t
    cancels : (raw : Bool) (id : ℕ) (s t : Store E) → cancel_watch E raw id s ≡ t → Step s t
    closes : (s t : Store E) → close_ E s ≡ t → Step s t

  -- The states that a new store comes to.
  pub data Reach (max_queue_attempts : ℕ) : Store E → Type 0 where
    starts : (s : Store E) → new_store E max_queue_attempts ≡ s → Reach max_queue_attempts s
    goes_on : (s t : Store E) → Reach max_queue_attempts s → Step s t → Reach max_queue_attempts t

  IsValidRows-remove_rows :
      (n : ℕ) (xs : List (KvRow V)) (t : E.tree.Tree)
      → IsValidRows E n t
      → IsValidRows E n (remove_rows E xs t)
  unfolding remove_rows
  IsValidRows-remove_rows n [] t v = v
  IsValidRows-remove_rows n (x ∷ xs) t v =
      IsValidRows-remove_rows n xs (E.tree.remove t x.key_bytes)
        (IsValidRows-remove E n t x.key_bytes v)

  run_expirer-IsValid : (now : ℕ) (s : Store E) → IsValid E s → IsValid E (run_expirer E now s)
  unfolding run_expirer expire
  run_expirer-IsValid now s v = record {
    rows_valid =
        IsValidRows-remove_rows s.version (expired_rows now (E.tree.values s.rows)) s.rows
          v.rows_valid;
    ids = v.ids;
  }

  wait-IsValid : (now : ℕ) (n : Option ℕ) (s : Store E) → IsValid E s → IsValid E (wait E now n s).1
  unfolding wait
  wait-IsValid now none s v = v
  wait-IsValid now (some n) s v = record { rows_valid = v.rows_valid; ids = v.ids }

  take_first-IsValid :
      (now : ℕ) (ids : List ℕ) (s : Store E) → IsValid E s → IsValid E (take_first E now ids s).1
  unfolding take_first
  take_first-IsValid now [] s v = wait-IsValid now (next_available s.queue) s v
  take_first-IsValid now (id ∷ ids) s v = record {
    rows_valid = v.rows_valid;
    ids = HasIds-lock (least id ids) 0 s.next_queue_item_id s.queue v.ids;
  }

  dispatch-IsValid : (now : ℕ) (s : Store E) → IsValid E s → IsValid E (dispatch E now s).1
  unfolding dispatch
  dispatch-IsValid now s v = elim (Bool-cases s.queue_worker.has_handler) [
    | inl h ↦
        subst
          (λ b.
            IsValid E (if b then take_first E now (candidate_ids now s.queue) s else (none, s)).1)
          (sym h) (take_first-IsValid now (candidate_ids now s.queue) s v)
    | inr h ↦
        subst
          (λ b.
            IsValid E (if b then take_first E now (candidate_ids now s.queue) s else (none, s)).1)
          (sym h) v
  ]

  rescheduled-IsValid : (s : Store E) → IsValid E s → IsValid E (rescheduled E s)
  rescheduled-IsValid s v = record { rows_valid = v.rows_valid; ids = v.ids }

  handler_succeeded-IsValid :
      (i : QueueItem V) (s : Store E) → IsValid E s → IsValid E (handler_succeeded E i s)
  unfolding handler_succeeded
  handler_succeeded-IsValid i s v = record {
    rows_valid = v.rows_valid;
    ids = HasIds-without E (some i.id) 0 s.next_queue_item_id s.queue v.ids;
  }

  after-rescheduled :
      (p : Result CommitResult × Store E)
      → IsValid E p.1
      → IsValid E (after {B = Unit {0}} p (λ _ t. (ok tt, rescheduled E t))).1
  after-rescheduled (ok r, t) v = rescheduled-IsValid t v
  after-rescheduled (err e, t) v = v

  handler_failed-IsValid :
      (now : ℕ) (is_closed : Bool) (i : QueueItem V) (s : Store E)
      → IsValid E s
      → IsValid E (handler_failed E now is_closed i s).1
  unfolding handler_failed
  handler_failed-IsValid now is_closed i s v =
      let given_up =
        after-rescheduled (commit E now [] (set_all i.value i.keys_if_undelivered) [] (some i.id) s)
          (commit-IsValid E now [] (set_all i.value i.keys_if_undelivered) [] (some i.id) s v) in
      elim (Bool-cases (leb s.max_queue_attempts (i.failures + 1))) [
        | inl last ↦ rw last (elim (Bool-cases (any is_empty i.keys_if_undelivered)) [
          | inl empty ↦ rw empty v
          | inr full ↦
              rw full (elim (Bool-cases is_closed) [ inl c ↦ rw c v | inr o ↦ rw o given_up ])
        ])
        | inr more ↦ rw more (record {
          rows_valid = v.rows_valid;
          ids = HasIds-retry i.id _ _ 0 s.next_queue_item_id s.queue v.ids;
        })
      ]

  listen_queue_-IsValid : (s : Store E) → IsValid E s → IsValid E (listen_queue_ E s).1
  unfolding listen_queue_
  listen_queue_-IsValid s v = elim (Result-cases (listen s.queue_worker)) [
    | inl (w, e) ↦
        subst (λ r. IsValid E (with_worker E r s).1) (sym e)
          (record { rows_valid = v.rows_valid; ids = v.ids })
    | inr (x, e) ↦ subst (λ r. IsValid E (with_worker E r s).1) (sym e) v
  ]

  Step-IsValid : (s t : Store E) → Step s t → IsValid E s → IsValid E t
  unfolding watch_ cancel_watch close_
  Step-IsValid _ _ (commits now checks ms es s t e) v =
      subst (IsValid E) e (commit-IsValid E now checks ms es none s v)
  Step-IsValid _ _ (expires now s t e) v = subst (IsValid E) e (run_expirer-IsValid now s v)
  Step-IsValid _ _ (dispatches now s t e) v = subst (IsValid E) e (dispatch-IsValid now s v)
  Step-IsValid _ _ (succeeds i s t e) v = subst (IsValid E) e (handler_succeeded-IsValid i s v)
  Step-IsValid _ _ (fails now c i s t e) v =
      subst (IsValid E) e (handler_failed-IsValid now c i s v)
  Step-IsValid _ _ (listens s t e) v = subst (IsValid E) e (listen_queue_-IsValid s v)
  Step-IsValid _ _ (watches keys s t e) v =
      subst (IsValid E) e (record { rows_valid = v.rows_valid; ids = v.ids })
  Step-IsValid _ _ (cancels raw id s t e) v =
      subst (IsValid E) e (record { rows_valid = v.rows_valid; ids = v.ids })
  Step-IsValid _ _ (closes s t e) v =
      subst (IsValid E) e (record { rows_valid = v.rows_valid; ids = v.ids })

  -- In every state that a new store comes to, by commits, expiries, runs of the queue worker with a
  -- handler that returns or throws, new and cancelled watches and closing, in any order, throwing or
  -- not: the rows are sorted by their key bytes with no key twice, each row bears the versionstamp of
  -- a commit that was made, and the ids of the queue are distinct and below the next id.
  pub Reach-IsValid : (n : ℕ) (s : Store E) → Reach n s → IsValid E s
  Reach-IsValid n _ (starts s e) = subst (IsValid E) e (new_store-IsValid E n)
  Reach-IsValid n _ (goes_on r s before step) = Step-IsValid r s step (Reach-IsValid n r before)
