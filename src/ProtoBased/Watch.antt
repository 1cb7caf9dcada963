-- ===== src/ProtoBased/Watch.antt =====
-- `WatchCache` of npm/src/proto_based.ts: what the changes of watched keys add up to.
pub mod Merge
use denokv.Prelude.{
  ℕ, zero, suc, ◌+◌, Bool, true, false, not, ◌&&◌, Option, none, some, List, [], ◌∷◌, if◌then◌else◌,
  Error, Result, ok, err,
}
use denokv.KvKey.{KvKey}
use denokv.KvUtil.Value.{Value, KvValueEncoding, read_value}
use denokv.InMemory.State.{KvEntryMaybe}
use denokv.InMemory.Transaction.{after}

-- `entryIfChanged`, with its bytes, their encoding and the versionstamp.
pub record WatchKeyOutput : Type 0 where
  pub changed : Bool
  pub entry_if_changed : Option (List ℕ × KvValueEncoding × List ℕ)

abbrev pub LastValues : Type 0 → Type 0
LastValues V = List (Option (Value V × List ℕ))

-- `lastValues[i] = v`: an array that is too short grows.
unfoldable pub set_at : {V : Type 0} → ℕ → Option (Value V × List ℕ) → LastValues V → LastValues V
set_at zero v [] = v ∷ []
set_at zero v (u ∷ us) = v ∷ us
set_at (suc i) v [] = none ∷ set_at i v []
set_at (suc i) v (u ∷ us) = u ∷ set_at i v us

module _ {V : Type 0} (decode_v8 : List ℕ → Result (Value V)) (encode_hex : List ℕ → List ℕ)
    (bad_first : Error) where
  -- The new `lastValues[i]` of an output that changed.
  abbrev pub new_value :
      Option (List ℕ × KvValueEncoding × List ℕ) → Result (Option (Value V × List ℕ))
  new_value none = ok none
  new_value (some (bytes, encoding, stamp)) = elim (read_value bytes encoding decode_v8) [
    | ok v ↦ ok (some (v, encode_hex stamp))
    | err e ↦ err e
  ]

  abbrev pub with_value :
      Result (Option (Value V × List ℕ)) → ℕ → LastValues V → Result (Unit {0}) × LastValues V
  with_value (ok v) i vs = (ok tt, set_at i v vs)
  with_value (err e) i vs = (err e, vs)

  -- The callback of `forEach`.
  unfoldable pub process_one :
      Bool → ℕ → WatchKeyOutput → LastValues V → Result (Unit {0}) × LastValues V
  process_one initial i o vs =
      if initial && not o.changed
      then (err bad_first, vs)
      else if not o.changed
      then (ok tt, vs)
      else with_value (new_value o.entry_if_changed) i vs

  unfoldable pub process_all :
      Bool → ℕ → List WatchKeyOutput → LastValues V → Result (Unit {0}) × LastValues V
  process_all initial i [] vs = (ok tt, vs)
  process_all initial i (o ∷ os) vs =
      after (process_one initial i o vs) λ _ vs'. process_all initial (suc i) os vs'

  unfoldable pub entries_of : List KvKey → LastValues V → List (KvEntryMaybe V)
  entries_of [] vs = []
  entries_of (k ∷ ks) [] = record { key = k; found = none } ∷ entries_of ks []
  entries_of (k ∷ ks) (v ∷ vs) = record { key = k; found = v } ∷ entries_of ks vs

  abbrev pub is_initial : LastValues V → Bool
  is_initial [] = true
  is_initial (v ∷ vs) = false

  unfoldable pub process_output_keys :
      List KvKey
      → List WatchKeyOutput
      → LastValues V
      → Result (List (KvEntryMaybe V)) × LastValues V
  process_output_keys keys os vs =
      after (process_all (is_initial vs) 0 os vs) λ _ vs'. (ok (entries_of keys vs'), vs')
