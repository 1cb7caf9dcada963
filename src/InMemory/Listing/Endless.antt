-- ===== src/InMemory/Listing/Endless.antt =====
-- `listStream` of npm/src/in_memory.ts at a row whose key is the prefix itself.
use denokv.Prelude.{
  ℕ, zero, suc, ◌≡◌, refl, ap, ◌∙◌, Bool, true, false, Option, none, some, List, [], ◌∷◌, take, min,
  if◌then◌else◌, Result, ok, err, out_of_fuel, arith,
}
use denokv.Bytes.Order.{equal_bytes_refl}
use denokv.KvKey.{pack_key, KvKey}
use denokv.InMemory.Rows.{KvRow}
use denokv.InMemory.Rows.Laws.{IsSorted}
use denokv.InMemory.State.{Env}
use denokv.InMemory.Transaction.{after}
use denokv.InMemory.Listing.{
  KvListOptions, by_prefix, Listing, is_reached, or_else, at_most, batch_limit, prefix_bytes,
  new_listing, pass_rows, batch_loop, is_last, passes, list_stream,
}
use denokv.InMemory.Listing.Walk.{is_skipped, walk, batch_loop-again}
use denokv.InMemory.Listing.Position.{listed_rows, source-none, pass_rows-source}

module _ {V : Type 0} (E : Env V) (o : KvListOptions) (prefix : KvKey) (rows rest : List (KvRow V))
    (r : KvRow V) where
  same_state :
      (fuel : ℕ) (s : Listing V)
      → s.last_yielded_key_bytes ≡ none
      → at_most (min (or_else o.batch_size 100) 500) o.limit ≡ 1
      → IsSorted rows
      → listed_rows E o (by_prefix prefix) rows ≡ r ∷ rest
      → r.key_bytes ≡ pack_key E.text prefix
      → passes E fuel o (by_prefix prefix) rows s ≡ (err out_of_fuel, s)
  unfolding passes walk
  same_state zero s f b h l k = refl
  same_state (suc fuel) s f b h l k =
      let sel = by_prefix prefix in
      let selected : pass_rows E o sel s.last_yielded_key_bytes rows ≡ r ∷ [] =
        ap (λ (k : Option (List ℕ)). pass_rows E o sel k rows) f
        ∙ pass_rows-source E o sel rows none h
        ∙ ap (λ w. take (batch_limit o none) w) (source-none E o sel rows o.reverse ∙ l)
        ∙ ap (λ (n : ℕ). take n (r ∷ rest)) (limit_one b) in
      let skipped : is_skipped E (prefix_bytes E.text sel) 0 s r ≡ true =
        rw (f, k, equal_bytes_refl (pack_key E.text prefix)) refl in
      let run = λ (q : Result (Option ℕ) × Listing V) (m : ℕ).
        after {B = Unit {0}} q
          (λ seen t. if is_last E m seen then (ok tt, t) else passes E fuel o sel rows t) in
      ap
        (λ w.
          run (batch_loop E o (prefix_bytes E.text sel) 0 w s)
            (batch_limit o s.last_yielded_key_bytes))
        selected
      ∙ ap (λ q. run q (batch_limit o s.last_yielded_key_bytes))
          (batch_loop-again E o (prefix_bytes E.text sel) r [] s skipped)
      ∙ ap (λ (m : ℕ). run (ok (some 1), s) m)
          (ap (λ (k : Option (List ℕ)). batch_limit o k) f ∙ limit_one b)
      ∙ same_state fuel s f b h l k
    where
      limit_one : at_most (min (or_else o.batch_size 100) 500) o.limit ≡ 1 → batch_limit o none ≡ 1
      limit_one b = omega arith

  -- A listing of a prefix without a cursor, with a limit or a batch size of 1, whose first row stands at
  -- the prefix itself, never ends and yields nothing: after any number of passes it has done nothing
  -- but read and skip this row.
  pub list_stream-endless :
      (fuel : ℕ)
      → o.cursor ≡ none
      → at_most (min (or_else o.batch_size 100) 500) o.limit ≡ 1
      → is_reached o.limit 0 ≡ false
      → IsSorted rows
      → listed_rows E o (by_prefix prefix) rows ≡ r ∷ rest
      → r.key_bytes ≡ pack_key E.text prefix
      → list_stream E fuel o (by_prefix prefix) rows ≡ (err out_of_fuel, new_listing o)
  unfolding list_stream
  list_stream-endless fuel c b room h l k =
      ap
        (λ (d : Bool).
          if d
          then (ok tt, new_listing o)
          else passes E fuel o (by_prefix prefix) rows (new_listing o))
        room
      ∙ same_state fuel (new_listing o) c b h l k
