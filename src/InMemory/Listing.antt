-- ===== src/InMemory/Listing.antt =====
-- `listStream` and `listRows` of npm/src/in_memory.ts. A cursor stands for the key bytes in it.
pub mod Rows
pub mod Backward
pub mod Suffix
pub mod Walk
pub mod Position
pub mod Pages
pub mod Endless
pub mod Prefix
use denokv.Prelude.{
  ℕ, zero, suc, ◌+◌, ◌≡◌, Bool, true, false, ◌&&◌, ◌||◌, Option, none, some, List, [], ◌∷◌, ◌++◌,
  length, min, ltb, leb, ◌==◌, if◌then◌else◌, Result, ok, err, out_of_fuel, Ordering,
}
use denokv.Bytes.{compare_bytes, equal_bytes}
use denokv.KvKey.{TextCodec, KvKey, pack_key, unpack_key}
use denokv.KvUtil.Value.{Value}
use denokv.InMemory.Rows.{KvRow, RowTree, by_order}
use denokv.InMemory.State.{Env}
use denokv.InMemory.Transaction.{after, copy_value}

-- A prefix with neither, with a start or with an end, or a start and an end.
pub data KvListSelector : Type 0 where
  by_prefix : KvKey → KvListSelector
  by_prefix_start by_prefix_end by_range : KvKey → KvKey → KvListSelector

pub record KvListOptions : Type 0 where
  pub batch_size : Option ℕ
  pub limit : Option ℕ
  pub cursor : Option (List ℕ)
  pub reverse : Bool

pub record KvEntry (V : Type 0) : Type 0 where
  pub key : KvKey
  pub value : Value V
  pub versionstamp : List ℕ

-- The local variables of the generator, its cursor, and the entries that it has yielded.
pub record Listing (V : Type 0) : Type 0 where
  pub last_yielded_key_bytes : Option (List ℕ)
  pub out_cursor : Option (List ℕ)
  pub yielded : ℕ
  pub entries : List (KvEntry V)

abbrev pub or_else : {A : Type 0} → Option A → A → A
or_else none a = a
or_else (some b) a = b

abbrev pub is_same : Option (List ℕ) → List ℕ → Bool
is_same none k = false
is_same (some b) k = equal_bytes b k

-- `typeof limit === "number" && yielded >= limit`
abbrev pub is_reached : Option ℕ → ℕ → Bool
is_reached none y = false
is_reached (some m) y = leb m y

abbrev pub at_most : ℕ → Option ℕ → ℕ
at_most n none = n
at_most n (some m) = min n m

abbrev pub one_more : Option (List ℕ) → ℕ
one_more none = 0
one_more (some k) = 1

abbrev pub batch_limit : KvListOptions → Option (List ℕ) → ℕ
batch_limit o last = at_most (min (or_else o.batch_size 100) 500) o.limit + one_more last

abbrev pub nonempty_start : List ℕ → List ℕ
nonempty_start [] = 0 ∷ []
nonempty_start (b ∷ bs) = b ∷ bs

module _ {V : Type 0} where
  -- The loop of `listRows` over the rows in their order, and in the reverse order.
  unfoldable pub forward_rows :
      List ℕ → List ℕ → ℕ → List (KvRow V) → List (KvRow V) → List (KvRow V)
  forward_rows start end limit rt [] = rt
  forward_rows start end limit rt (r ∷ rs) =
      let pushed = forward_rows start end limit (rt ++ (r ∷ [])) rs in
      let passed = forward_rows start end limit rt rs in
      if leb limit (length rt)
      then rt
      else by_order (compare_bytes r.key_bytes end)
          (by_order (compare_bytes r.key_bytes start) passed pushed pushed) rt rt

  unfoldable pub backward_rows :
      List ℕ → List ℕ → ℕ → List (KvRow V) → List (KvRow V) → List (KvRow V)
  backward_rows start end limit rt [] = rt
  backward_rows start end limit rt (r ∷ rs) =
      let pushed = backward_rows start end limit (rt ++ (r ∷ [])) rs in
      let passed = backward_rows start end limit rt rs in
      let within = by_order (compare_bytes r.key_bytes end) pushed passed passed in
      if leb limit (length rt)
      then rt
      else by_order (compare_bytes r.key_bytes start) rt within within

  -- `rnlValues`, the rows from the last to the first.
  unfoldable pub reversed : List (KvRow V) → List (KvRow V)
  reversed [] = []
  reversed (r ∷ rs) = reversed rs ++ (r ∷ [])

  unfoldable pub list_rows : List ℕ → List ℕ → Bool → ℕ → List (KvRow V) → List (KvRow V)
  list_rows start end true limit rows = backward_rows start end limit [] (reversed rows)
  list_rows start end false limit rows = forward_rows start end limit [] rows

abbrev pub new_listing : {V : Type 0} → KvListOptions → Listing V
new_listing o = record {
  last_yielded_key_bytes = o.cursor;
  out_cursor = none;
  yielded = 0;
  entries = [];
}

module _ (text : TextCodec) where
  abbrev pub prefix_bytes : KvListSelector → Option (List ℕ)
  prefix_bytes (by_prefix p) = some (pack_key text p)
  prefix_bytes (by_prefix_start p s) = some (pack_key text p)
  prefix_bytes (by_prefix_end p e) = some (pack_key text p)
  prefix_bytes (by_range s e) = none

  abbrev pub selector_start : KvListSelector → List ℕ
  selector_start (by_prefix p) = pack_key text p
  selector_start (by_prefix_start p s) = pack_key text s
  selector_start (by_prefix_end p e) = pack_key text p
  selector_start (by_range s e) = pack_key text s

  abbrev pub selector_end : KvListSelector → List ℕ
  selector_end (by_prefix p) = pack_key text p ++ (0xff ∷ [])
  selector_end (by_prefix_start p s) = pack_key text p ++ (0xff ∷ [])
  selector_end (by_prefix_end p e) = pack_key text e
  selector_end (by_range s e) = pack_key text e

module _ {V : Type 0} (E : Env V) where
  -- The rows that one pass of `while (true)` reads.
  abbrev pub pass_rows :
      KvListOptions → KvListSelector → Option (List ℕ) → List (KvRow V) → List (KvRow V)
  pass_rows o sel last rows =
      let start = selector_start E.text sel in
      let end = selector_end E.text sel in
      list_rows (nonempty_start (if o.reverse then start else or_else last start))
        (if o.reverse then or_else last end else end) o.reverse (batch_limit o last) rows

  -- An entry is yielded. The cursor is set before the value is copied.
  unfoldable pub yield_row : KvRow V → Listing V → Result (Unit {0}) × Listing V
  yield_row r s =
      after {B = Unit {0}} (unpack_key E.text r.key_bytes, s)
        λ key t.
          let t' : Listing V = record t {
            last_yielded_key_bytes = some r.key_bytes;
            out_cursor = some r.key_bytes;
          } in
          after {B = Unit {0}} (copy_value E r.value, t')
            λ v u. (
              ok tt,
              record u {
                yielded = u.yielded + 1;
                entries =
                    u.entries
                    ++ (record { key = key; value = v; versionstamp = r.versionstamp } ∷ []);
              },
            )

  -- The loop over the rows of a pass, with `n` rows seen. `none` is the `return` at the limit.
  unfoldable pub batch_loop :
      KvListOptions
      → Option (List ℕ)
      → ℕ
      → List (KvRow V)
      → Listing V
      → Result (Option ℕ) × Listing V
  batch_loop o prefix n [] s = (ok (some n), s)
  batch_loop o prefix n (r ∷ rs) s =
      let skip = batch_loop o prefix (n + 1) rs s in
      if n == 0 && (is_same s.last_yielded_key_bytes r.key_bytes || is_same prefix r.key_bytes)
      then skip
      else after (yield_row r s) λ _ t.
        let rest = batch_loop o prefix (n + 1) rs t in
        if is_reached o.limit t.yielded then (ok none, t) else rest

  -- Whether the generator returns after a pass.
  abbrev pub is_last : ℕ → Option ℕ → Bool
  is_last limit none = true
  is_last limit (some n) = ltb n limit

  -- `while (true)`, with so many passes at most.
  unfoldable pub passes :
      ℕ
      → KvListOptions
      → KvListSelector
      → List (KvRow V)
      → Listing V
      → Result (Unit {0}) × Listing V
  passes zero o sel rows s = (err out_of_fuel, s)
  passes (suc fuel) o sel rows s =
      after
        (batch_loop o (prefix_bytes E.text sel) 0 (pass_rows o sel s.last_yielded_key_bytes rows) s)
        λ seen t.
          let rest = passes fuel o sel rows t in
          if is_last (batch_limit o s.last_yielded_key_bytes) seen then (ok tt, t) else rest

  -- The generator, run to its end on rows that do not change meanwhile.
  unfoldable pub list_stream :
      ℕ → KvListOptions → KvListSelector → List (KvRow V) → Result (Unit {0}) × Listing V
  list_stream fuel o sel rows =
      if is_reached o.limit 0
      then (ok tt, new_listing o)
      else passes fuel o sel rows (new_listing o)
