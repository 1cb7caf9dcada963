-- ===== src/Examples/Stores.antt =====
-- The theorems on commits at concrete stores.
use denokv.Prelude.{
  ℕ, ◌==◌, ◌≡◌, refl, true, false, none, some, List, [], ◌∷◌, Result, ok, err, data_clone,
  not_kv_u64, arith,
}
use denokv.Prelude.Int.{pos}
use denokv.Bytes.{equal_bytes, compare_bytes}
use denokv.Bytes.Order.{equal_bytes_refl}
use denokv.KvKey.{KvKey, string, boolean, pack_key, pack_key_part, encode_zero_with_zero_ff, escape}
use denokv.KvUtil.Value.{Value, plain}
use denokv.KvUtil.Versionstamp.{pack_versionstamp}
use denokv.InMemory.Rows.{KvRow, find_row, insert_row, remove_row}
use denokv.InMemory.State.{Store, next_version, new_store}
use denokv.InMemory.Transaction.{
  op_sum, object, KvMutation, set, delete, combine, CommitResult, failed, committed, copy_value,
  find_key, run_checks, enqueue_all,
}
use denokv.InMemory.Mutate.{Work, mutate_row, add_watch_ids, mutate_all}
use denokv.InMemory.Mutate.Refines.{Shows, Refines, spec_mutate_all, mutate_all-Refines}
use denokv.InMemory.Commit.{commit, commit_checked, finish_commit, notify_all, without_item}
use denokv.InMemory.Commit.Invariant.{IsValid, new_store-IsValid, commit-IsValid}
use denokv.InMemory.Commit.Stale.{touches}
use denokv.InMemory.Expiry.{run_expirer}
use denokv.InMemory.Reach.Stale.{Leads, stays, then_step, stale_check_fails}
use denokv.InMemory.Commit.Partial.{set_uncloneable_loses_row, failed_sum_keeps_set}
use denokv.InMemory.Queue.{dispatch}
use denokv.InMemory.Watches.{close_}
use denokv.InMemory.Reach.{
  Reach, starts, goes_on, commits, expires, dispatches, closes, Reach-IsValid,
}
use denokv.Examples.Platform.{env}

abbrev users : KvKey
users = string (117 ∷ []) ∷ []

abbrev flag : KvKey
flag = boolean true ∷ []

-- Two mutations: `users` is set to 5, and the number at `flag` is summed with 3.
abbrev two_mutations : List (KvMutation ℕ)
two_mutations = set users (plain 5) none ∷ combine op_sum flag (object (pos 3)) ∷ []

abbrev no_work : Work env
no_work = record { rows = []; min_expires = none; watch_ids = [] }

nothing-Shows : Shows env [] (λ j. none)
unfolding find_row
nothing-Shows = record { at_key = λ j. refl }

mutate_all-Refines_example :
    Refines env
      (spec_mutate_all env (pack_versionstamp 1) 0 two_mutations (λ j. none))
      (mutate_all env (pack_versionstamp 1) 0 [] two_mutations no_work)
mutate_all-Refines_example =
    mutate_all-Refines env (pack_versionstamp 1) 0 [] two_mutations no_work (λ j. none)
      nothing-Shows

-- The store after a first commit.
abbrev first_commit : Result CommitResult × Store env
first_commit =
    commit env 0 [] (set users (plain 4) none ∷ set flag (plain 1) none ∷ []) [] none
      (new_store env 3)

first_commit-IsValid : IsValid env first_commit.1
first_commit-IsValid =
    commit-IsValid env 0 [] (set users (plain 4) none ∷ set flag (plain 1) none ∷ []) [] none
      (new_store env 3) (new_store-IsValid env 3)

commit-IsValid_example : IsValid env (commit env 9 [] two_mutations [] none first_commit.1).1
commit-IsValid_example =
    commit-IsValid env 9 [] two_mutations [] none first_commit.1 first_commit-IsValid

abbrev row_of : KvKey → ℕ → KvRow ℕ
row_of k n = record {
  key_bytes = pack_key env.text k;
  value = plain n;
  versionstamp = pack_versionstamp 1;
  expires = none;
}

first_row : find_key env first_commit.1.rows users ≡ some (row_of users 4)
unfolding next_version commit run_checks commit_checked enqueue_all mutate_all mutate_row copy_value
    finish_commit notify_all add_watch_ids without_item find_row insert_row remove_row compare_bytes
    equal_bytes pack_key pack_key_part encode_zero_with_zero_ff escape
first_row = refl

first_flag : find_key env first_commit.1.rows flag ≡ some (row_of flag 1)
unfolding next_version commit run_checks commit_checked enqueue_all mutate_all mutate_row copy_value
    finish_commit notify_all add_watch_ids without_item find_row insert_row remove_row compare_bytes
    equal_bytes pack_key pack_key_part encode_zero_with_zero_ff escape
first_flag = refl

first_version : first_commit.1.version ≡ 1
unfolding next_version commit run_checks commit_checked enqueue_all mutate_all mutate_row copy_value
    finish_commit notify_all add_watch_ids without_item find_row insert_row remove_row compare_bytes
    equal_bytes pack_key pack_key_part encode_zero_with_zero_ff escape
first_version = refl

second_commit :
    (commit env 10 [] (set users (plain 6) none ∷ []) [] none first_commit.1).0
    ≡ ok (committed (pack_versionstamp 2))
unfolding next_version commit run_checks commit_checked enqueue_all mutate_all mutate_row copy_value
    finish_commit notify_all add_watch_ids without_item find_row insert_row remove_row compare_bytes
    equal_bytes pack_key pack_key_part encode_zero_with_zero_ff escape
second_commit = refl

touches-head :
    (k : KvKey) (v : Value ℕ) → touches env (set k v none ∷ []) (pack_key env.text k) ≡ true
touches-head k v = rw (equal_bytes_refl (pack_key env.text k)) refl

different_keys : equal_bytes (pack_key env.text users) (pack_key env.text flag) ≡ false
unfolding equal_bytes pack_key pack_key_part encode_zero_with_zero_ff escape
different_keys = refl

is_copied : (n : ℕ) → (n == 13) ≡ false → copy_value env (plain n) ≡ ok (plain n)
unfolding copy_value
is_copied n h = rw h refl

is_refused : copy_value env (plain 13) ≡ err data_clone
unfolding copy_value
is_refused = refl

-- The store after the second commit, a third one and the expirer.
abbrev second_store : Store env
second_store = (commit env 10 [] (set users (plain 6) none ∷ []) [] none first_commit.1).1

abbrev overwritten_store : Store env
overwritten_store =
    run_expirer env 19 (commit env 15 [] (set users (plain 8) none ∷ []) [] none second_store).1

overwritten-Leads : Leads env second_store overwritten_store
overwritten-Leads =
    then_step _ _
      (then_step _ _ (stays _ refl) (commits 15 [] (set users (plain 8) none ∷ []) [] _ _ refl))
      (expires 19 _ _ refl)

stale_check_fails_example :
    commit env 20
      (record { key = users; versionstamp = some (pack_versionstamp 1) } ∷ [])
      (delete users ∷ [])
      []
      none
      overwritten_store
    ≡ (ok failed, overwritten_store)
stale_check_fails_example =
    stale_check_fails env 10 20 [] [] (set users (plain 6) none ∷ []) (delete users ∷ []) [] [] none
      none first_commit.1 overwritten_store users (row_of users 4) (pack_versionstamp 2)
      first_commit-IsValid (omega (arith, first_version)) first_row (touches-head users (plain 6))
      second_commit overwritten-Leads

set_uncloneable_loses_row_example :
    ((commit env 0 [] (set users (plain 13) none ∷ []) [] none first_commit.1).0 ≡ err data_clone)
    × (find_key env
          (commit env 0 [] (set users (plain 13) none ∷ []) [] none first_commit.1).1.rows
          users
        ≡ none)
set_uncloneable_loses_row_example =
    set_uncloneable_loses_row env 0 users (plain 13) none [] first_commit.1 data_clone is_refused

failed_sum_keeps_set_example :
    ((commit env 0 []
        (set users (plain 9) none ∷ combine op_sum flag (object (pos 3)) ∷ [])
        []
        none
        first_commit.1).0
      ≡ err not_kv_u64)
    × (find_key env
          (commit env 0 []
            (set users (plain 9) none ∷ combine op_sum flag (object (pos 3)) ∷ [])
            []
            none
            first_commit.1).1.rows
          users
        ≡ some (record {
          key_bytes = pack_key env.text users;
          value = plain 9;
          versionstamp = pack_versionstamp (next_version first_commit.1.version);
          expires = none;
        }))
failed_sum_keeps_set_example =
    failed_sum_keeps_set env 0 users flag (plain 9) (plain 9) op_sum (object (pos 3)) first_commit.1
      (row_of flag 1) (is_copied 9 refl) different_keys first_flag tt

abbrev later_store : Store env
later_store = close_ env (dispatch env 9 first_commit.1).1

later_store-Reach : Reach env 3 later_store
later_store-Reach =
    goes_on (dispatch env 9 first_commit.1).1 later_store
      (goes_on first_commit.1 (dispatch env 9 first_commit.1).1
        (goes_on (new_store env 3) first_commit.1 (starts (new_store env 3) refl) (
          commits 0 [] (set users (plain 4) none ∷ set flag (plain 1) none ∷ []) []
            (new_store env 3) first_commit.1 refl))
        (dispatches 9 first_commit.1 (dispatch env 9 first_commit.1).1 refl))
      (closes (dispatch env 9 first_commit.1).1 later_store refl)

Reach-IsValid_example : IsValid env later_store
Reach-IsValid_example = Reach-IsValid env 3 later_store later_store-Reach
