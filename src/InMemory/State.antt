-- ===== src/InMemory/State.antt =====
-- The state of an `InMemoryKv` of npm/src/in_memory.ts.
use denokv.Prelude.{
  ℕ, ◌+◌, ◌^◌, ◌≤◌, ◌<◌, ltb, if◌then◌else◌, arith, Bool, false, Option, none, List, [], Result,
}
use denokv.KvKey.{TextCodec, KvKey}
use denokv.KvUtil.Value.{Value}
use denokv.KvUtil.Timers.{Expirer, QueueWorker}
use denokv.InMemory.Rows.{RowTree}

-- What the platform and the libraries bring: the text codec, the tree of rows, and
-- `structuredClone`, which throws on some values and else gives an equal value.
pub record Env (V : Type 0) : Type 1 where
  pub text : TextCodec
  pub tree : RowTree V
  pub structured_clone : Value V → Result (Value V)

-- `none` is `value: null, versionstamp: null`.
pub record KvEntryMaybe (V : Type 0) : Type 0 where
  pub key : KvKey
  pub found : Option (Value V × List ℕ)

pub record QueueItem (V : Type 0) : Type 0 where
  pub id : ℕ
  pub value : Value V
  pub enqueued : ℕ
  pub available : ℕ
  pub failures : ℕ
  pub keys_if_undelivered : List KvKey
  pub locked : Bool

-- The callbacks of a watch act on its stream's controller: `is_open` says that the controller has
-- not been closed, and `sent` is what was enqueued to it, the oldest first.
pub record Watch (V : Type 0) : Type 0 where
  pub id : ℕ
  pub keys_as_bytes : List (List ℕ)
  pub is_open : Bool
  pub sent : List (List (KvEntryMaybe V))

-- The maps of the source hold their entries in the order of insertion. The id of an item is exact as
-- long as fewer than 2 ^ 53 items were enqueued.
pub record Store {V : Type 0} (E : Env V) : Type 0 where
  pub rows : E.tree.Tree
  pub queue : List (QueueItem V)
  pub watches : List (Watch V)
  pub expirer : Expirer
  pub queue_worker : QueueWorker
  pub max_queue_attempts : ℕ
  pub version : ℕ
  pub next_queue_item_id : ℕ

-- `++this.version`: a number does not grow from 2 ^ 53 on, since 2 ^ 53 + 1 is rounded to 2 ^ 53.
unfoldable pub next_version : ℕ → ℕ
next_version v = if ltb v (2 ^ 53) then v + 1 else v

pub next_version-ge : (v : ℕ) → v ≤ next_version v
unfolding next_version
next_version-ge v = ground arith

pub next_version-gt : (v : ℕ) → v < 2 ^ 53 → (v < next_version v) × (next_version v ≤ 2 ^ 53)
unfolding next_version
next_version-gt v h = ground arith

-- The constructor.
abbrev pub new_store : {V : Type 0} (E : Env V) → ℕ → Store E
new_store E max_queue_attempts = record {
  rows = E.tree.empty;
  queue = [];
  watches = [];
  expirer = record { min_expires = none; expirer_timeout = none };
  queue_worker = record {
    has_handler = false;
    worker_timeout = none;
    handler_promise_resolved = false;
  };
  max_queue_attempts = max_queue_attempts;
  version = 0;
  next_queue_item_id = 1;
}
