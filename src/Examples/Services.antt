-- ===== src/Examples/Services.antt =====
-- The theorems on listing, expiry, queues, atomic operations, the serializer and retries.
use denokv.Prelude.{
  Result, ℕ, zero, suc, ◌+◌, ◌-◌, ◌*◌, ◌%◌, ◌<◌, ◌≡◌, ◌≢◌, refl, ap, true, false, Option, none,
  some, List, [], ◌∷◌, length, take, All, ok, err, ◌>>=◌, data_clone, trailing_bytes, inl, arith,
}
use denokv.Prelude.Int.{pos}
use denokv.Bytes.Order.{lex}
use denokv.Examples.Platform.{units_small}
use denokv.KvKey.{KvKey, string}
use denokv.KvUtil.Value.{Value, plain, byte_array, ve_bytes, read_value}
use denokv.KvUtil.Versionstamp.{pack_versionstamp}
use denokv.InMemory.Rows.{KvRow}
use denokv.InMemory.Rows.Laws.{IsSorted}
use denokv.InMemory.State.{KvEntryMaybe, Store, next_version, new_store}
use denokv.InMemory.Transaction.{set, failed, op_sum, copy_value, get_one}
use denokv.InMemory.Commit.{commit}
use denokv.InMemory.Commit.Invariant.{IsValid}
use denokv.InMemory.Commit.Plain.{commit-without_checks, get_one-set}
use denokv.InMemory.Listing.{list_rows}
use denokv.InMemory.Listing.Rows.{rows_within}
use denokv.InMemory.Listing.Backward.{directed, list_rows-rows_within}
use denokv.InMemory.Expiry.{expire}
use denokv.InMemory.Expiry.Laws.{living, expire-living}
use denokv.InMemory.Queue.{dispatch}
use denokv.InMemory.Queue.Fifo.{first_candidate, lock_first, dispatch-first_candidate}
use denokv.BaseKv.Atomic.{integer}
use denokv.BaseKv.Atomic.Calls.{Call, call_set, call_combine}
use denokv.V8.{str, TextDecoders, two_bytes, encode_v8, decode_v8}
use denokv.V8.RoundTrip.{decode-encode_v8, decode_v8-long_string}
use denokv.Sleep.{Outcome, returns, throws_retryable, execute_with_retries}
use denokv.Sleep.Retries.{IsRetryable, last_answer, total_wait, execute_with_retries_lem}
use denokv.UnrawWatch.{pull, spinning}
use denokv.UnrawWatch.Pulls.{ended, pull-ended}
use denokv.ProtoBased.Watch.{WatchKeyOutput, process_all}
use denokv.ProtoBased.Watch.Merge.{merge, process_all_lem}
use denokv.Examples.Platform.{env}

abbrev row : ℕ → ℕ → Option ℕ → KvRow ℕ
row k n e = record {
  key_bytes = k ∷ [];
  value = plain n;
  versionstamp = pack_versionstamp 1;
  expires = e;
}

-- Three rows in order; the second expires at 50.
abbrev three_rows : List (KvRow ℕ)
three_rows = row 2 10 none ∷ row 3 20 (some 50) ∷ row 5 30 (some 90) ∷ []

three_rows-IsSorted : IsSorted three_rows
unfolding lex
three_rows-IsSorted = ((refl, (refl, tt)), ((refl, tt), (tt, tt)))

list_rows-rows_within_example :
    list_rows (2 ∷ []) (5 ∷ []) true 1 three_rows
    ≡ take 1 (rows_within (2 ∷ []) (5 ∷ []) (directed true three_rows))
list_rows-rows_within_example =
    list_rows-rows_within (2 ∷ []) (5 ∷ []) true 1 three_rows three_rows-IsSorted

expire-living_example :
    env.tree.values (expire env 60 three_rows).1 ≡ living 60 (env.tree.values three_rows)
expire-living_example = expire-living env 60 three_rows three_rows-IsSorted

-- A store with a handler and two items: the first is locked.
abbrev queue_store : Store env
queue_store = record (new_store env 3) {
  queue =
      record {
        id = 1;
        value = plain 7;
        enqueued = 0;
        available = 0;
        failures = 0;
        keys_if_undelivered = [];
        locked = true;
      }
      ∷ record {
        id = 2;
        value = plain 8;
        enqueued = 0;
        available = 5;
        failures = 0;
        keys_if_undelivered = [];
        locked = false;
      }
      ∷ [];
  next_queue_item_id = 3;
  queue_worker = record {
    has_handler = true;
    worker_timeout = some 0;
    handler_promise_resolved = false;
  };
}

queue_store-IsValid : IsValid env queue_store
queue_store-IsValid = record {
  rows_valid = record { sorted = tt; stamped = tt };
  ids = (omega arith, (omega arith, omega arith));
}

dispatch-first_candidate_example :
    ((dispatch env 9 queue_store).0 ≡ first_candidate 9 queue_store.queue)
    × ((dispatch env 9 queue_store).1.queue ≡ lock_first 9 queue_store.queue)
dispatch-first_candidate_example =
    dispatch-first_candidate env 9 queue_store queue_store-IsValid refl

abbrev name : KvKey
name = string (110 ∷ []) ∷ []

commit-without_checks_example :
    (commit env 0 [] (set name (plain 1) none ∷ []) [] none (new_store env 3)).0 ≢ ok failed
commit-without_checks_example =
    commit-without_checks env 0 (set name (plain 1) none ∷ []) [] none (new_store env 3)

abbrev two_calls : List (Call ℕ)
two_calls = call_set name (plain 1) (some (integer (pos 5))) ∷ call_combine op_sum name (pos 3) ∷ []

is_copied : copy_value env (plain 4) ≡ ok (plain 4)
unfolding copy_value
is_copied = refl

get_one-set_example :
    get_one env
      (commit env 0 [] (set name (plain 4) none ∷ []) [] none (new_store env 3)).1.rows
      name
    ≡ ok (record {
      key = name;
      found = some (plain 4, pack_versionstamp (next_version (new_store env 3).version));
    })
get_one-set_example =
    get_one-set env 0 name (plain 4) (plain 4) (plain 4) none (new_store env 3) is_copied is_copied

-- Decoders that take every byte for a character, and two bytes for a unit.
abbrev decode_pairs : List ℕ → List ℕ
decode_pairs [] = []
decode_pairs (a ∷ []) = []
decode_pairs (a ∷ b ∷ bs) = (a + b * 256) ∷ decode_pairs bs

decode_pairs-two_bytes : (s : List ℕ) → All (λ u. u < 0x10000) s → decode_pairs (two_bytes s) ≡ s
decode_pairs-two_bytes [] h = refl
decode_pairs-two_bytes (u ∷ us) (h, hs) =
    rw (decode_pairs-two_bytes us hs) (ap (λ t. t ∷ us) (omega arith))

abbrev decoders : TextDecoders
decoders = record {
  utf8 = λ bs. bs;
  utf16 = decode_pairs;
  utf8_ascii = λ s h. refl;
  utf16_units = λ s h _. decode_pairs-two_bytes s (units_small s h);
}

decode-encode_v8_example :
    (encode_v8 (str (104 ∷ 105 ∷ [])) >>= decode_v8 decoders false) ≡ ok (str (104 ∷ 105 ∷ []))
decode-encode_v8_example =
    decode-encode_v8 decoders false (str (104 ∷ 105 ∷ []))
      (inl ((omega arith, (omega arith, tt)), omega arith))

abbrev letters : ℕ → List ℕ
letters zero = []
letters (suc n) = 97 ∷ letters n

decode_v8-long_string_example :
    (encode_v8 (str (letters 300)) >>= decode_v8 decoders false)
    ≡ err (trailing_bytes (length (letters 300) - length (letters 300) % 256))
decode_v8-long_string_example =
    decode_v8-long_string decoders false (letters 300) refl (omega arith)

-- A function whose calls 0 and 1 throw a retryable error.
abbrev flaky : ℕ → Outcome ℕ
flaky zero = throws_retryable data_clone
flaky (suc zero) = throws_retryable data_clone
flaky (suc (suc n)) = returns n

flaky-IsRetryable : (i : ℕ) → i < 2 → IsRetryable (flaky i)
flaky-IsRetryable zero h = tt
flaky-IsRetryable (suc zero) h = tt
flaky-IsRetryable (suc (suc n)) h = absurd (omega arith)

execute_with_retries_lem_example :
    execute_with_retries flaky 10 ≡ (last_answer (flaky 2), total_wait 2 0)
execute_with_retries_lem_example =
    execute_with_retries_lem flaky 10 2 (omega arith) flaky-IsRetryable (inl (λ h. h))

-- The first key is deleted, the second one does not change, and the third one is set to two bytes.
abbrev three_outputs : List WatchKeyOutput
three_outputs =
    record { changed = true; entry_if_changed = none }
    ∷ record { changed = false; entry_if_changed = none }
    ∷ record { changed = true; entry_if_changed = some (1 ∷ 2 ∷ [], ve_bytes, 9 ∷ []) }
    ∷ []

abbrev no_decoder : List ℕ → Result (Value ℕ)
no_decoder bs = err data_clone

three_merged :
    merge no_decoder
      (λ bs. bs)
      data_clone
      (some (plain 1, 4 ∷ []) ∷ some (plain 2, 4 ∷ []) ∷ none ∷ [])
      three_outputs
    ≡ ok (none ∷ some (plain 2, 4 ∷ []) ∷ some (byte_array (1 ∷ 2 ∷ []), 9 ∷ []) ∷ [])
unfolding read_value
three_merged = refl

process_all_lem_example :
    process_all no_decoder
      (λ bs. bs)
      data_clone
      false
      0
      three_outputs
      (some (plain 1, 4 ∷ []) ∷ some (plain 2, 4 ∷ []) ∷ none ∷ [])
    ≡ (ok tt, none ∷ some (plain 2, 4 ∷ []) ∷ some (byte_array (1 ∷ 2 ∷ []), 9 ∷ []) ∷ [])
process_all_lem_example =
    process_all_lem no_decoder (λ bs. bs) data_clone
      (some (plain 1, 4 ∷ []) ∷ some (plain 2, 4 ∷ []) ∷ none ∷ [])
      (none ∷ some (plain 2, 4 ∷ []) ∷ some (byte_array (1 ∷ 2 ∷ []), 9 ∷ []) ∷ []) three_outputs
      refl three_merged

abbrev one_entry : List (KvEntryMaybe ℕ)
one_entry = record { key = name; found = some (plain 1, pack_versionstamp 1) } ∷ []

pull-ended_example : (pull 100 (ended one_entry [])).0 ≡ spinning
pull-ended_example = pull-ended 100 one_entry []
