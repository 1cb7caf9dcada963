-- ===== src/InMemory/Reach/Keeps.antt =====
-- What every step of the store of npm/src/in_memory.ts keeps of the version and the rows.
use denokv.Prelude.{
  ℕ, ◌+◌, subst, sym, Bool, true, false, Option, none, some, List, [], ◌∷◌, any, leb, Result, ok,
  err, if◌then◌else◌, Bool-cases, inl, inr,
}
use denokv.KvUtil.Value.{Value}
use denokv.KvUtil.Timers.{listen}
use denokv.KvUtil.Versionstamp.{pack_versionstamp}
use denokv.InMemory.Rows.{KvRow}
use denokv.InMemory.State.{next_version, Env, QueueItem, Store}
use denokv.InMemory.Transaction.{CommitResult, after}
use denokv.InMemory.Mutate.{put_row}
use denokv.InMemory.Mutate.Refines.{Result-cases}
use denokv.InMemory.Commit.{commit}
use denokv.InMemory.Commit.Keeps.{commit-keeps}
use denokv.InMemory.Expiry.{expired_rows, remove_rows, expire, run_expirer}
use denokv.InMemory.Queue.{
  candidate_ids, next_available, is_empty, set_all, wait, take_first, dispatch, rescheduled,
  handler_succeeded, handler_failed,
}
use denokv.InMemory.Watches.{watch_, cancel_watch, close_}
use denokv.InMemory.Service.{with_worker, listen_queue_}
use denokv.InMemory.Reach.{
  Step, commits, expires, dispatches, succeeds, fails, listens, watches, cancels, closes,
}

module _ {V : Type 0} (E : Env V) (P : ℕ → E.tree.Tree → Type 0)
    (keep_next : (n : ℕ) (t : E.tree.Tree) → P n t → P (next_version n) t)
    (keep_remove : (n : ℕ) (t : E.tree.Tree) (k : List ℕ) → P n t → P n (E.tree.remove t k))
    (keep_put : (n : ℕ) (t : E.tree.Tree) (k : List ℕ) (v : Value V) (e : Option ℕ)
      → P n t
      → P n (put_row E t k v (pack_versionstamp n) e)) where
  abbrev Holds : Store E → Type 0
  Holds s = P s.version s.rows

  remove_rows-keeps :
      (n : ℕ) (xs : List (KvRow V)) (t : E.tree.Tree) → P n t → P n (remove_rows E xs t)
  unfolding remove_rows
  remove_rows-keeps n [] t h = h
  remove_rows-keeps n (x ∷ xs) t h =
      remove_rows-keeps n xs (E.tree.remove t x.key_bytes) (keep_remove n t x.key_bytes h)

  wait-keeps : (now : ℕ) (n : Option ℕ) (s : Store E) → Holds s → Holds (wait E now n s).1
  unfolding wait
  wait-keeps now none s h = h
  wait-keeps now (some n) s h = h

  take_first-keeps :
      (now : ℕ) (ids : List ℕ) (s : Store E) → Holds s → Holds (take_first E now ids s).1
  unfolding take_first
  take_first-keeps now [] s h = wait-keeps now (next_available s.queue) s h
  take_first-keeps now (id ∷ ids) s h = h

  dispatch-keeps : (now : ℕ) (s : Store E) → Holds s → Holds (dispatch E now s).1
  unfolding dispatch
  dispatch-keeps now s h = either s.queue_worker.has_handler
    where
      either :
          (b : Bool)
          → Holds (if b then take_first E now (candidate_ids now s.queue) s else (none, s)).1
      either true = take_first-keeps now (candidate_ids now s.queue) s h
      either false = h

  after-rescheduled :
      (p : Result CommitResult × Store E)
      → Holds p.1
      → Holds (after {B = Unit {0}} p (λ _ t. (ok tt, rescheduled E t))).1
  after-rescheduled (ok r, t) h = h
  after-rescheduled (err e, t) h = h

  handler_failed-keeps :
      (now : ℕ) (is_closed : Bool) (i : QueueItem V) (s : Store E)
      → Holds s
      → Holds (handler_failed E now is_closed i s).1
  unfolding handler_failed
  handler_failed-keeps now is_closed i s h =
      let given_up =
        after-rescheduled (commit E now [] (set_all i.value i.keys_if_undelivered) [] (some i.id) s)
          (commit-keeps E P keep_remove keep_put keep_next now []
            (set_all i.value i.keys_if_undelivered) [] (some i.id) s h) in
      elim (Bool-cases (leb s.max_queue_attempts (i.failures + 1))) [
        | inl last ↦ rw last (elim (Bool-cases (any is_empty i.keys_if_undelivered)) [
          | inl empty ↦ rw empty h
          | inr full ↦
              rw full (elim (Bool-cases is_closed) [ inl c ↦ rw c h | inr o ↦ rw o given_up ])
        ])
        | inr more ↦ rw more h
      ]

  listen_queue_-keeps : (s : Store E) → Holds s → Holds (listen_queue_ E s).1
  unfolding listen_queue_
  listen_queue_-keeps s h = elim (Result-cases (listen s.queue_worker)) [
    | inl (w, e) ↦ subst (λ r. Holds (with_worker E r s).1) (sym e) h
    | inr (x, e) ↦ subst (λ r. Holds (with_worker E r s).1) (sym e) h
  ]

  pub Step-keeps : (s t : Store E) → Step E s t → Holds s → Holds t
  unfolding run_expirer expire handler_succeeded watch_ cancel_watch close_
  Step-keeps _ _ (commits now checks ms es s t e) h =
      subst Holds e (commit-keeps E P keep_remove keep_put keep_next now checks ms es none s h)
  Step-keeps _ _ (expires now s t e) h =
      subst Holds e (remove_rows-keeps s.version (expired_rows now (E.tree.values s.rows)) s.rows h)
  Step-keeps _ _ (dispatches now s t e) h = subst Holds e (dispatch-keeps now s h)
  Step-keeps _ _ (succeeds i s t e) h = subst Holds e h
  Step-keeps _ _ (fails now c i s t e) h = subst Holds e (handler_failed-keeps now c i s h)
  Step-keeps _ _ (listens s t e) h = subst Holds e (listen_queue_-keeps s h)
  Step-keeps _ _ (watches keys s t e) h = subst Holds e h
  Step-keeps _ _ (cancels raw id s t e) h = subst Holds e h
  Step-keeps _ _ (closes s t e) h = subst Holds e h
