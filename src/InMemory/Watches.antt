-- ===== src/InMemory/Watches.antt =====
-- `get_`, `getMany_`, `watch_` and `close_` of npm/src/in_memory.ts.
use denokv.Prelude.{
  ℕ, ◌+◌, Bool, true, false, List, [], ◌∷◌, ◌++◌, map, max, ◌==◌, if◌then◌else◌, Result, ok, ◌>>=◌,
}
use denokv.KvKey.{KvKey, pack_key}
use denokv.KvUtil.Timers.{finalize_expirer, finalize_worker}
use denokv.InMemory.State.{Env, KvEntryMaybe, Watch, Store}
use denokv.InMemory.Transaction.{get_one}

module _ {V : Type 0} where
  -- `[...watches.keys()].reduce((a, b) => Math.max(a, b), 0)`
  abbrev pub largest_id : ℕ → List (Watch V) → ℕ
  largest_id n [] = n
  largest_id n (w ∷ ws) = largest_id (max n w.id) ws

  -- `controller.close()`, which throws on a closed controller; `tryClose` catches it.
  abbrev pub try_close : Watch V → Watch V
  try_close w = record w { is_open = false }

  unfoldable pub delete_watch : ℕ → List (Watch V) → List (Watch V)
  delete_watch id [] = []
  delete_watch id (w ∷ ws) = let rest = delete_watch id ws in if w.id == id then rest else w ∷ rest

  unfoldable pub close_watch : ℕ → List (Watch V) → List (Watch V)
  close_watch id [] = []
  close_watch id (w ∷ ws) =
      let rest = close_watch id ws in if w.id == id then try_close w ∷ ws else w ∷ rest

module _ {V : Type 0} (E : Env V) where
  abbrev pub get_ : Store E → KvKey → Result (KvEntryMaybe V)
  get_ s k = get_one E s.rows k

  unfoldable pub get_many_ : Store E → List KvKey → Result (List (KvEntryMaybe V))
  get_many_ s [] = ok []
  get_many_ s (k ∷ ks) = do e ← get_one E s.rows k; es ← get_many_ s ks; ok (e ∷ es)

  -- The `start` of the raw stream runs at once. The result is the id of the watch.
  unfoldable pub watch_ : List KvKey → Store E → ℕ × Store E
  watch_ keys s =
      let id = largest_id 0 s.watches + 1 in
      (
        id,
        record s {
          watches =
              s.watches
              ++ (record {
                id = id;
                keys_as_bytes = map (pack_key E.text) keys;
                is_open = true;
                sent = [];
              }
                  ∷ []);
        },
      )

  -- The reader cancels: the raw stream deletes its watch, the other one calls `onCancel`.
  unfoldable pub cancel_watch : Bool → ℕ → Store E → Store E
  cancel_watch raw id s = record s {
    watches = if raw then delete_watch id s.watches else close_watch id s.watches;
  }

  unfoldable pub close_ : Store E → Store E
  close_ s = record s {
    expirer = finalize_expirer s.expirer;
    queue_worker = finalize_worker s.queue_worker;
    watches = map try_close s.watches;
  }
