-- ===== src/ProtoBased/Listing.antt =====
-- `listStream` of npm/src/proto_based.ts: the passes of in_memory.ts, over `snapshotRead`.
use denokv.Prelude.{
  ℕ, zero, suc, ◌+◌, ◌&&◌, ◌||◌, Option, none, some, List, [], ◌∷◌, ◌++◌, ◌==◌, ltb, if◌then◌else◌,
  Result, ok, err, ◌>>=◌, out_of_fuel,
}
use denokv.KvKey.{unpack_key}
use denokv.KvUtil.Value.{read_value}
use denokv.InMemory.Transaction.{after}
use denokv.InMemory.Listing.{
  KvListSelector, KvListOptions, KvEntry, Listing, or_else, is_same, is_reached, batch_limit,
  new_listing, prefix_bytes, selector_start, selector_end,
}
use denokv.ProtoBased.{ReadRange, KvEntryMessage, Client, all_values}

module _ {V : Type 0} (C : Client V) where
  -- The range that a pass asks for.
  abbrev pub pass_range : KvListOptions → KvListSelector → Option (List ℕ) → ReadRange
  pass_range o sel last = record {
    start =
        if o.reverse then selector_start C.text sel else or_else last (selector_start C.text sel);
    end = if o.reverse then or_else last (selector_end C.text sel) else selector_end C.text sel;
    limit = batch_limit o last;
    reverse = o.reverse;
  }

  abbrev pub entry_of : KvEntryMessage → Result (KvEntry V)
  entry_of e = do
    key ← unpack_key C.text e.key
    v ← read_value e.value e.encoding C.decode_v8
    ok (record { key = key; value = v; versionstamp = C.encode_hex e.versionstamp })

  -- An entry is yielded, after its value was read.
  unfoldable pub yield_entry : KvEntryMessage → Listing V → Result (Unit {0}) × Listing V
  yield_entry e s =
      after {B = Unit {0}} (entry_of e, s)
        λ entry t. (
          ok tt,
          record {
            last_yielded_key_bytes = some e.key;
            out_cursor = some e.key;
            yielded = t.yielded + 1;
            entries = t.entries ++ (entry ∷ []);
          },
        )

  unfoldable pub batch_loop :
      KvListOptions
      → Option (List ℕ)
      → ℕ
      → List KvEntryMessage
      → Listing V
      → Result (Option ℕ) × Listing V
  batch_loop o prefix n [] s = (ok (some n), s)
  batch_loop o prefix n (e ∷ es) s =
      let skip = batch_loop o prefix (n + 1) es s in
      if n == 0 && (is_same s.last_yielded_key_bytes e.key || is_same prefix e.key)
      then skip
      else after (yield_entry e s) λ _ t.
        let rest = batch_loop o prefix (n + 1) es t in
        if is_reached o.limit t.yielded then (ok none, t) else rest

  unfoldable pub passes :
      ℕ → KvListOptions → KvListSelector → Listing V → Result (Unit {0}) × Listing V
  passes zero o sel s = (err out_of_fuel, s)
  passes (suc fuel) o sel s =
      after (C.snapshot_read (pass_range o sel s.last_yielded_key_bytes ∷ []), s)
        λ ranges r. after (batch_loop o (prefix_bytes C.text sel) 0 (all_values ranges) r) λ seen t.
          let rest = passes fuel o sel t in
          elim seen [
            | none ↦ (ok tt, t)
            | some n ↦ if ltb n (batch_limit o s.last_yielded_key_bytes) then (ok tt, t) else rest
          ]

  -- The generator, run to its end, with so many passes at most.
  unfoldable pub list_stream : ℕ → KvListOptions → KvListSelector → Result (Unit {0}) × Listing V
  list_stream fuel o sel =
      if is_reached o.limit 0 then (ok tt, new_listing o) else passes fuel o sel (new_listing o)
