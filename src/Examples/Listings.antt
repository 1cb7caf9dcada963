-- ===== src/Examples/Listings.antt =====
-- The theorems on the passes of a listing.
use denokv.Prelude.{
  ℕ, ◌≡◌, refl, true, false, none, some, List, [], ◌∷◌, err, out_of_fuel, inl, inr, arith,
}
use denokv.Bytes.Order.{lex}
use denokv.KvKey.{KvKey, string, pack_key, pack_key_part, encode_zero_with_zero_ff, escape}
use denokv.KvUtil.Value.{plain}
use denokv.KvUtil.Versionstamp.{pack_versionstamp}
use denokv.InMemory.Rows.{KvRow}
use denokv.InMemory.Rows.Laws.{IsSorted}
use denokv.InMemory.Listing.{
  KvListOptions, KvListSelector, by_prefix, by_range, new_listing, list_stream, reversed,
}
use denokv.InMemory.Listing.Walk.{yield_up_to}
use denokv.InMemory.Listing.Position.{listed_rows, IsAt}
use denokv.InMemory.Listing.Pages.{HasNoPrefixRow, list_stream-yield_up_to}
use denokv.InMemory.Listing.Endless.{list_stream-endless}
use denokv.Examples.Platform.{codec, env}

abbrev letter : ℕ → KvKey
letter c = string (c ∷ []) ∷ []

abbrev nested : KvKey
nested = string (b'a' ∷ []) ∷ string (b'b' ∷ []) ∷ []

abbrev row_at : KvKey → ℕ → KvRow ℕ
row_at k n = record {
  key_bytes = pack_key codec k;
  value = plain n;
  versionstamp = pack_versionstamp 1;
  expires = none;
}

abbrev letter_rows : List (KvRow ℕ)
letter_rows =
    row_at (letter b'a') 1 ∷ row_at nested 2 ∷ row_at (letter b'c') 3 ∷ row_at (letter b'd') 4 ∷ []

letter_rows-IsSorted : IsSorted letter_rows
unfolding lex pack_key pack_key_part encode_zero_with_zero_ff escape
letter_rows-IsSorted = ((refl, (refl, (refl, tt))), ((refl, (refl, tt)), ((refl, tt), (tt, tt))))

-- A listing that goes on after the row of `c`.
abbrev one_by_one : KvListOptions
one_by_one = record {
  batch_size = some 1;
  limit = some 2;
  cursor = some (pack_key codec (letter b'c'));
  reverse = true;
}

abbrev letter_range : KvListSelector
letter_range = by_range (letter b'a') (letter b'd')

abbrev rows_left : List (KvRow ℕ)
rows_left = row_at nested 2 ∷ row_at (letter b'a') 1 ∷ []

rows_left-IsAt : IsAt env one_by_one letter_range letter_rows one_by_one.cursor rows_left
unfolding lex pack_key pack_key_part encode_zero_with_zero_ff escape reversed
rows_left-IsAt = inr (row_at (letter b'c') 3, refl, inl (refl, refl))

letters-HasNoPrefixRow : HasNoPrefixRow env one_by_one letter_range letter_rows
unfolding lex pack_key pack_key_part encode_zero_with_zero_ff escape reversed
letters-HasNoPrefixRow = (refl, (refl, (refl, tt)))

list_stream-yield_up_to_example :
    list_stream env 3 one_by_one letter_range letter_rows
    ≡ yield_up_to env (some 2) rows_left (new_listing one_by_one)
list_stream-yield_up_to_example =
    list_stream-yield_up_to env one_by_one letter_range letter_rows 3 rows_left rows_left-IsAt
      (omega arith) letter_rows-IsSorted letters-HasNoPrefixRow (omega arith)

abbrev first_only : KvListOptions
first_only = record { batch_size = none; limit = some 1; cursor = none; reverse = false }

under_letter :
    listed_rows env first_only (by_prefix (letter b'a')) letter_rows
    ≡ row_at (letter b'a') 1 ∷ row_at nested 2 ∷ []
unfolding lex pack_key pack_key_part encode_zero_with_zero_ff escape
under_letter = refl

list_stream-endless_example :
    list_stream env 1000 first_only (by_prefix (letter b'a')) letter_rows
    ≡ (err out_of_fuel, new_listing first_only)
list_stream-endless_example =
    list_stream-endless env first_only (letter b'a') letter_rows (row_at nested 2 ∷ [])
      (row_at (letter b'a') 1) 1000 refl refl refl letter_rows-IsSorted under_letter refl
