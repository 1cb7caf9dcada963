-- ===== src/UnrawWatch.antt =====
-- npm/src/unraw_watch_stream.ts: a stream that gives the latest entries of a raw watch stream when it
-- is pulled, and only if a versionstamp changed.
pub mod Pulls
use denokv.Prelude.{
  ℕ, zero, suc, Bool, true, false, not, ◌||◌, Option, none, some, List, [], ◌∷◌, ◌++◌, any,
  if◌then◌else◌,
}
use denokv.Bytes.{equal_bytes}
use denokv.InMemory.State.{KvEntryMaybe}
use denokv.KvUtil.Value.{Value}

-- The variables of the function, and what was enqueued to the controller. `has_ended` says that the
-- reader of the raw stream has left its loop: then `signal` is resolved for good.
pub record UnrawWatch (V : Type 0) : Type 0 where
  pub pulled : Option (List (KvEntryMaybe V))
  pub latest : Option (List (KvEntryMaybe V))
  pub has_ended : Bool
  pub sent : List (List (KvEntryMaybe V))

-- What a pull comes to: it returns, waits for the next signal, or has used up its rounds.
pub data Pull : Type 0 where
  done waits spinning : Pull

module _ {V : Type 0} where
  abbrev pub has_versionstamp : KvEntryMaybe V → Bool
  has_versionstamp e = elim e.found [ none ↦ false | some f ↦ true ]

  -- `latest[i].versionstamp === pulled[i].versionstamp`
  abbrev pub same_found : Option (Value V × List ℕ) → Option (Value V × List ℕ) → Bool
  same_found none none = true
  same_found none (some q) = false
  same_found (some p) none = false
  same_found (some p) (some q) = equal_bytes p.1 q.1

  -- The loop over the entries of `latest`; `pulled` has as many.
  unfoldable pub some_changed : List (KvEntryMaybe V) → List (KvEntryMaybe V) → Bool
  some_changed [] ps = false
  some_changed (l ∷ ls) [] = false
  some_changed (l ∷ ls) (p ∷ ps) = not (same_found l.found p.found) || some_changed ls ps

  abbrev pub is_changed : Option (List (KvEntryMaybe V)) → List (KvEntryMaybe V) → Bool
  is_changed none ls = any has_versionstamp ls
  is_changed (some ps) ls = some_changed ls ps

  -- What `pulled` is after a round that found no change.
  abbrev pub first_pulled :
      Option (List (KvEntryMaybe V)) → List (KvEntryMaybe V) → Option (List (KvEntryMaybe V))
  first_pulled none ls = some ls
  first_pulled (some ps) ls = some ps

  -- The `while (true)` of `pull`, up to the first `await` of a signal that is not resolved, with so
  -- many rounds at most.
  unfoldable pub pull_loop : ℕ → List (KvEntryMaybe V) → UnrawWatch V → Pull × UnrawWatch V
  pull_loop zero ls w = (spinning, w)
  pull_loop (suc fuel) ls w =
      let unchanged : UnrawWatch V = record w { pulled = first_pulled w.pulled ls } in
      let again = pull_loop fuel ls unchanged in
      if is_changed w.pulled ls
      then (done, record w { pulled = some ls; sent = w.sent ++ (ls ∷ []) })
      else (if w.has_ended then again else (waits, unchanged))

  -- `pull`; without a latest value it waits, or returns when the stream has ended.
  unfoldable pub pull : ℕ → UnrawWatch V → Pull × UnrawWatch V
  pull fuel w = elim w.latest [
    | none ↦ (if w.has_ended then done else waits, w)
    | some ls ↦ pull_loop fuel ls w
  ]

  -- The reader of the raw stream: an item, and the end.
  abbrev pub on_entries : List (KvEntryMaybe V) → UnrawWatch V → UnrawWatch V
  on_entries es w = record w { latest = some es }

  abbrev pub on_end : UnrawWatch V → UnrawWatch V
  on_end w = record w { has_ended = true }
