-- ===== src/UnrawWatch/Pulls.antt =====
-- The pulls of npm/src/unraw_watch_stream.ts.
use denokv.Prelude.{ℕ, zero, suc, ◌≡◌, refl, true, false, Option, none, some, List, [], ◌∷◌}
use denokv.Bytes.Order.{equal_bytes_refl}
use denokv.KvUtil.Value.{Value}
use denokv.InMemory.State.{KvEntryMaybe}
use denokv.UnrawWatch.{UnrawWatch, spinning, same_found, some_changed, pull_loop, pull, on_end}

module _ {V : Type 0} where
  same_found_refl : (f : Option (Value V × List ℕ)) → same_found f f ≡ true
  same_found_refl none = refl
  same_found_refl (some p) = equal_bytes_refl p.1

  some_changed_refl : (ls : List (KvEntryMaybe V)) → some_changed ls ls ≡ false
  unfolding some_changed
  some_changed_refl [] = refl
  some_changed_refl (l ∷ ls) = rw (same_found_refl l.found, some_changed_refl ls) refl

  -- The watch after its last entries were pulled and the raw stream has ended.
  abbrev pub ended : List (KvEntryMaybe V) → List (List (KvEntryMaybe V)) → UnrawWatch V
  ended ls sent =
      on_end (record { pulled = some ls; latest = some ls; has_ended = false; sent = sent })

  pull_loop-ended :
      (fuel : ℕ) (ls : List (KvEntryMaybe V)) (sent : List (List (KvEntryMaybe V)))
      → (pull_loop fuel ls (ended ls sent)).0 ≡ spinning
  unfolding pull_loop
  pull_loop-ended zero ls sent = refl
  pull_loop-ended (suc fuel) ls sent = rw (some_changed_refl ls) (pull_loop-ended fuel ls sent)

  -- A pull that meets the end of the raw stream with nothing new never comes to an end: where the
  -- latest entries are those that were pulled last and the raw stream has ended, no number of rounds
  -- of the loop in `pull` is enough to return or to wait.
  pub pull-ended :
      (fuel : ℕ) (ls : List (KvEntryMaybe V)) (sent : List (List (KvEntryMaybe V)))
      → (pull fuel (ended ls sent)).0 ≡ spinning
  unfolding pull
  pull-ended fuel ls sent = pull_loop-ended fuel ls sent
