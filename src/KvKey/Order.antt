-- ===== src/KvKey/Order.antt =====
-- The order of keys that npm/src/kv_types.ts describes, but with the bigints before the numbers, -0 and 0
-- as one number, and every NaN above Infinity, as npm/src/kv_key.ts has it.
pub mod Bytewise
pub mod Numbers
pub mod Bigints
pub mod Keys
use denokv.Prelude.{ℕ, ◌%◌, ◌^◌, Bool, true, false, [], ◌∷◌, Ordering, compare, if◌then◌else◌}
use denokv.Prelude.Int.{ℤ, pos, negsuc}
use denokv.Bytes.Order.{lex, flip_ordering}
use denokv.KvKey.{
  TextCodec, KvKeyPart, KvKey, bytes, string, number, bigint, boolean, is_below_zero,
}

-- The first difference decides.
abbrev pub first_of : Ordering → Ordering → Ordering
first_of Ordering.lt rest = Ordering.lt
first_of Ordering.eq rest = rest
first_of Ordering.gt rest = Ordering.gt

-- The mathematical order.
unfoldable pub compare_bigints : ℤ → ℤ → Ordering
compare_bigints (pos m) (pos n) = compare m n
compare_bigints (pos m) (negsuc n) = Ordering.gt
compare_bigints (negsuc m) (pos n) = Ordering.lt
compare_bigints (negsuc m) (negsuc n) = flip_ordering (compare m n)

-- The order of doubles: -0 and 0 are one number, NaN of one payload are one, and NaN stand above
-- Infinity.
unfoldable pub compare_numbers : ℕ → ℕ → Ordering
compare_numbers x y =
    let magnitudes = compare (x % 2 ^ 63) (y % 2 ^ 63) in
    if is_below_zero x
    then (if is_below_zero y then flip_ordering magnitudes else Ordering.lt)
    else (if is_below_zero y then Ordering.gt else magnitudes)

unfoldable pub compare_booleans : Bool → Bool → Ordering
compare_booleans false false = Ordering.eq
compare_booleans false true = Ordering.lt
compare_booleans true false = Ordering.gt
compare_booleans true true = Ordering.eq

-- The order of the types: bigints stand before numbers.
abbrev pub rank : KvKeyPart → ℕ
rank (bytes bs) = 0
rank (string s) = 1
rank (bigint v) = 2
rank (number x) = 3
rank (boolean b) = 4

module _ (text : TextCodec) where
  unfoldable pub compare_parts : KvKeyPart → KvKeyPart → Ordering
  compare_parts (bytes as') (bytes bs) = lex as' bs
  compare_parts (string s) (string t) = lex (text.encode s) (text.encode t)
  compare_parts (bigint u) (bigint v) = compare_bigints u v
  compare_parts (number x) (number y) = compare_numbers x y
  compare_parts (boolean a) (boolean b) = compare_booleans a b
  compare_parts p q = compare (rank p) (rank q)

  -- Part by part, the first one first; a proper prefix stands before the longer key.
  unfoldable pub compare_keys : KvKey → KvKey → Ordering
  compare_keys [] [] = Ordering.eq
  compare_keys [] (q ∷ qs) = Ordering.lt
  compare_keys (p ∷ ps) [] = Ordering.gt
  compare_keys (p ∷ ps) (q ∷ qs) = first_of (compare_parts p q) (compare_keys ps qs)
