-- ===== src/InMemory/Service.antt =====
-- `makeInMemoryService` of npm/src/in_memory.ts, and the class InMemoryKv as an implementation of
-- BaseKv. An instance is known by its URL: two results of `openKv` for one URL are one object.
use denokv.Prelude.{
  ℕ, Bool, false, Option, none, some, List, [], ◌∷◌, ◌++◌, if◌then◌else◌, Result, ok, err,
}
use denokv.Bytes.{equal_bytes}
use denokv.KvUtil.Timers.{QueueWorker, listen}
use denokv.InMemory.State.{Env, Store, new_store}
use denokv.InMemory.Commit.{commit}
use denokv.InMemory.Watches.{get_, get_many_, watch_, close_}
use denokv.BaseKv.{Backend, Kv}

pub record InMemoryServiceOptions : Type 0 where
  pub debug : Option Bool
  pub max_queue_attempts : Option ℕ

abbrev pub max_attempts : InMemoryServiceOptions → ℕ
max_attempts o = elim o.max_queue_attempts [ none ↦ 10 | some n ↦ n ]

module _ {V : Type 0} (E : Env V) where
  abbrev pub with_worker : Result QueueWorker → Store E → Result (Unit {0}) × Store E
  with_worker (ok w) s = (ok tt, record s { queue_worker = w })
  with_worker (err e) s = (err e, s)

  -- The promise that the call returns is resolved by `close`.
  unfoldable pub listen_queue_ : Store E → Result (Unit {0}) × Store E
  listen_queue_ s = with_worker (listen s.queue_worker) s

  abbrev pub backend : Backend V (Store E)
  backend = record {
    get_ = get_ E;
    get_many_ = get_many_ E;
    commit_ = commit E;
    watch_ = watch_ E;
    listen_queue_ = listen_queue_;
    close_ = close_ E;
  }

  -- The entries of the map `instances`, by URL.
  abbrev pub Instances : Type 0
  Instances = List (List ℕ × Kv (Store E))

  unfoldable pub instance_at : List ℕ → Instances → Option (Kv (Store E))
  instance_at url [] = none
  instance_at url ((u, kv) ∷ is) =
      let rest = instance_at url is in if equal_bytes u url then some kv else rest

  -- A new instance, where there is none for the URL.
  abbrev pub new_instance : InMemoryServiceOptions → List ℕ → Instances → Kv (Store E) × Instances
  new_instance o url is =
      let kv : Kv (Store E) = record { is_closed = false; state = new_store E (max_attempts o) } in
      (kv, is ++ ((url, kv) ∷ []))

  unfoldable pub open_kv : InMemoryServiceOptions → List ℕ → Instances → Kv (Store E) × Instances
  open_kv o url is = elim (instance_at url is) [ none ↦ new_instance o url is | some kv ↦ (kv, is) ]
