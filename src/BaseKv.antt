-- ===== src/BaseKv.antt =====
-- npm/src/check.ts and the classes GenericAtomicOperation, CursorHolder and BaseKv of
-- npm/src/kv_util.ts: the checks of the arguments before an implementation is called.
pub mod Atomic
use denokv.Prelude.{
  ℕ, ◌^◌, Bool, true, false, ◌&&◌, Option, none, some, List, [], ◌∷◌, ltb, leb, if◌then◌else◌,
  Error, Result, ok, err, ◌>>=◌, ◌>>◌, guard, closed, empty_key, bad_expire_in, bad_limit,
  bad_batch_size, bad_selector, no_keys, set_failed, cursor_before_iteration,
}
use denokv.KvKey.{KvKey}
use denokv.KvUtil.Value.{Value}
use denokv.InMemory.State.{KvEntryMaybe}
use denokv.InMemory.Transaction.{
  AtomicCheck, KvMutation, Enqueue, CommitResult, failed, committed, after,
}
use denokv.InMemory.Listing.{KvListOptions}
use denokv.BaseKv.Atomic.{Number, AtomicOperation, new_operation, check_key_not_empty}
use denokv.BaseKv.Atomic

-- `limit` and `batchSize` as far as they are natural numbers.
abbrev pub is_valid_limit : Option ℕ → Bool
is_valid_limit none = true
is_valid_limit (some n) = ltb 0 n && ltb n (2 ^ 53)

abbrev pub is_valid_batch_size : Option ℕ → Bool
is_valid_batch_size none = true
is_valid_batch_size (some n) = ltb 0 n && leb n 1000

unfoldable pub check_list_options : KvListOptions → Result KvListOptions
check_list_options o = do
  guard (is_valid_limit o.limit) bad_limit
  guard (is_valid_batch_size o.batch_size) bad_batch_size
  ok o

-- `CursorHolder`, which is empty before the first iteration.
abbrev pub get_cursor : Option (List ℕ) → Result (List ℕ)
get_cursor none = err cursor_before_iteration
get_cursor (some c) = ok c

abbrev pub check_keys : List KvKey → Result (Unit {0})
check_keys [] = ok tt
check_keys (k ∷ ks) = check_key_not_empty k >> check_keys ks

-- The abstract methods that an implementation gives, on its state.
pub record Backend (V S : Type 0) : Type 0 where
  pub get_ : S → KvKey → Result (KvEntryMaybe V)
  pub get_many_ : S → List KvKey → Result (List (KvEntryMaybe V))
  pub commit_ :
      ℕ
      → List AtomicCheck
      → List (KvMutation V)
      → List (Enqueue V)
      → Option ℕ
      → S
      → Result CommitResult × S
  pub watch_ : List KvKey → S → ℕ × S
  pub listen_queue_ : S → Result (Unit {0}) × S
  pub close_ : S → S

pub record Kv (S : Type 0) : Type 0 where
  pub is_closed : Bool
  pub state : S

abbrev pub check_open : {S : Type 0} → Kv S → Result (Unit {0})
check_open kv = if kv.is_closed then err closed else ok tt

-- A method that throws before it reaches the implementation.
abbrev pub checked : {A S : Type 0} → Result (Unit {0}) → Kv S → Result A × Kv S → Result A × Kv S
checked (ok t) kv p = p
checked (err e) kv p = (err e, kv)

abbrev pub with_state : {A S : Type 0} → Kv S → Result A × S → Result A × Kv S
with_state kv (r, s) = (r, record kv { state = s })

module _ {V S : Type 0} (B : Backend V S) where
  unfoldable pub get : Kv S → KvKey → Result (KvEntryMaybe V)
  get kv key = do check_open kv; check_key_not_empty key; B.get_ kv.state key

  abbrev pub get_some : Kv S → List KvKey → Result (List (KvEntryMaybe V))
  get_some kv [] = ok []
  get_some kv (k ∷ ks) = B.get_many_ kv.state (k ∷ ks)

  unfoldable pub get_many : Kv S → List KvKey → Result (List (KvEntryMaybe V))
  get_many kv keys = do check_open kv; check_keys keys; get_some kv keys

  -- `commit` of an operation that `atomic` made; `additional` is its `additionalWork`.
  unfoldable pub commit_operation :
      ℕ → Option ℕ → AtomicOperation V → Kv S → Result CommitResult × Kv S
  commit_operation now additional op kv =
      checked (check_open kv) kv
        (with_state kv (B.commit_ now op.checks op.mutations op.enqueues additional kv.state))

  -- `if (!result.ok) throw new Error(...)`
  abbrev pub must_commit : CommitResult → Kv S → Result (List ℕ) × Kv S
  must_commit failed kv = (err set_failed, kv)
  must_commit (committed stamp) kv = (ok stamp, kv)

  -- An operation of one call, committed.
  abbrev pub commit_single : ℕ → Result (AtomicOperation V) → Kv S → Result (List ℕ) × Kv S
  commit_single now (err e) kv = (err e, kv)
  commit_single now (ok op) kv = after (commit_operation now none op kv) must_commit

  unfoldable pub set : ℕ → KvKey → Value V → Option Number → Kv S → Result (List ℕ) × Kv S
  set now key value expire_in kv =
      checked (check_open kv) kv
        (commit_single now (Atomic.set key value expire_in new_operation) kv)

  unfoldable pub delete : ℕ → KvKey → Kv S → Result (List ℕ) × Kv S
  delete now key kv =
      checked (check_open kv) kv (commit_single now (Atomic.delete key new_operation) kv)

  unfoldable pub enqueue : ℕ → Enqueue V → Kv S → Result (List ℕ) × Kv S
  enqueue now e kv =
      checked (check_open kv) kv (commit_single now (ok (Atomic.enqueue e new_operation)) kv)

  abbrev pub check_some : List KvKey → Result (Unit {0})
  check_some [] = err no_keys
  check_some (k ∷ ks) = check_keys (k ∷ ks)

  unfoldable pub watch : List KvKey → Kv S → Result ℕ × Kv S
  watch keys kv = checked (check_open kv) kv (
      checked (check_some keys) kv
        (let made = B.watch_ keys kv.state in (ok made.0, record kv { state = made.1 })))

  unfoldable pub listen_queue : Kv S → Result (Unit {0}) × Kv S
  listen_queue kv = checked (check_open kv) kv (with_state kv (B.listen_queue_ kv.state))

  unfoldable pub close : Kv S → Result (Unit {0}) × Kv S
  close kv =
      checked (check_open kv) kv (ok tt, record { is_closed = true; state = B.close_ kv.state })
