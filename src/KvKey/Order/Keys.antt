-- ===== src/KvKey/Order/Keys.antt =====
-- `packKey` of npm/src/kv_key.ts keeps the order of keys.
use denokv.Prelude.{
  ℕ, ◌≤◌, ◌<◌, ◌≡◌, inl, refl, ap, ◌∙◌, true, false, List, [], ◌∷◌, ◌++◌, append_assoc, All,
  Ordering, arith,
}
use denokv.Prelude.Int.{pos, negsuc, abs}
use denokv.Bytes.{compare_bytes, compute_bigint_minimum_number_of_bytes}
use denokv.Bytes.Order.{lex, compare_bytes-lex}
use denokv.KvKey.{
  TextCodec, KvKeyPart, KvKey, bytes, string, number, bigint, boolean, escape,
  encode_zero_with_zero_ff, pack_bigint, pack_number, pack_key_part, pack_key,
}
use denokv.KvKey.Escape.{encode-escape}
use denokv.KvKey.Order.{first_of, compare_parts, compare_booleans, compare_keys}
use denokv.KvKey.Order.Bytewise.{StartsBelow, IsBound, lex-escaped_bound}
use denokv.KvKey.Order.Numbers.{lex-pack_number, lex-heads_lt, lex-heads_gt}
use denokv.KvKey.Order.Bigints.{lex-pack_bigint}

-- A bigint of more than 255 bytes has no encoding: its size does not fit the byte for it.
abbrev pub HasSize : KvKeyPart → Type 0
HasSize (bigint v) = compute_bigint_minimum_number_of_bytes (abs v) ≤ 255
HasSize p = Unit {0}

lex-delimited :
    (as' bs rs ss : List ℕ)
    → StartsBelow rs
    → IsBound ss
    → lex
        ((encode_zero_with_zero_ff as' ++ (0 ∷ [])) ++ rs)
        ((encode_zero_with_zero_ff bs ++ (0 ∷ [])) ++ ss)
      ≡ first_of (lex as' bs) (lex rs ss)
lex-delimited as' bs rs ss h k =
    rw
      (
        encode-escape as',
        encode-escape bs,
        append_assoc (escape as') (0 ∷ []) rs,
        append_assoc (escape bs) (0 ∷ []) ss,
      )
      (lex-escaped_bound as' bs rs ss h k)

-- The range of the typecodes of a type.
abbrev lowest : KvKeyPart → ℕ
lowest (bytes bs) = 1
lowest (string s) = 2
lowest (bigint v) = 0x0b
lowest (number x) = 0x21
lowest (boolean b) = 0x26

abbrev highest : KvKeyPart → ℕ
highest (bytes bs) = 1
highest (string s) = 2
highest (bigint v) = 0x1d
highest (number x) = 0x21
highest (boolean b) = 0x27

highest_below : (p : KvKeyPart) → highest p < 255
highest_below (bytes bs) = omega arith
highest_below (string s) = omega arith
highest_below (bigint v) = omega arith
highest_below (number x) = omega arith
highest_below (boolean b) = omega arith

module _ (text : TextCodec) where
  head_of :
      (p : KvKeyPart)
      → (t : ℕ) × (body : List ℕ) × (pack_key_part text p ≡ t ∷ body)
        × (lowest p ≤ t)
        × (t ≤ highest p)
  unfolding pack_key_part pack_bigint pack_number
  head_of (bytes bs) = (_, _, refl, omega arith, omega arith)
  head_of (string s) = (_, _, refl, omega arith, omega arith)
  head_of (number x) = (_, _, refl, omega arith, omega arith)
  head_of (bigint (pos v)) = (_, _, refl, ground arith, ground arith)
  head_of (bigint (negsuc v)) = (_, _, refl, ground arith, ground arith)
  head_of (boolean true) = (_, _, refl, omega arith, omega arith)
  head_of (boolean false) = (_, _, refl, omega arith, omega arith)

  pub pack_key-StartsBelow : (ps : KvKey) → StartsBelow (pack_key text ps)
  unfolding pack_key
  pack_key-StartsBelow [] = tt
  pack_key-StartsBelow (p ∷ ps) =
      let (t, body, e, low, high) = head_of p in rw e (omega (arith, highest_below p))

  types_lt :
      (p q : KvKeyPart) (rs ss : List ℕ)
      → highest p < lowest q
      → lex (pack_key_part text p ++ rs) (pack_key_part text q ++ ss) ≡ Ordering.lt
  types_lt p q rs ss h =
      let (t, b, e, l, u) = head_of p in
      let (t', b', e', l', u') = head_of q in rw (e, e') (lex-heads_lt _ _ _ _ (omega arith))

  types_gt :
      (p q : KvKeyPart) (rs ss : List ℕ)
      → highest q < lowest p
      → lex (pack_key_part text p ++ rs) (pack_key_part text q ++ ss) ≡ Ordering.gt
  types_gt p q rs ss h =
      let (t, b, e, l, u) = head_of p in
      let (t', b', e', l', u') = head_of q in rw (e, e') (lex-heads_gt _ _ _ _ (omega arith))

  pub lex-pack_part :
      (p q : KvKeyPart) (rs ss : List ℕ)
      → HasSize p
      → HasSize q
      → StartsBelow rs
      → IsBound ss
      → lex (pack_key_part text p ++ rs) (pack_key_part text q ++ ss)
        ≡ first_of (compare_parts text p q) (lex rs ss)
  unfolding compare_parts compare_booleans pack_key_part lex
  lex-pack_part (bytes as') (bytes bs) rs ss h k b c = lex-delimited as' bs rs ss b c
  lex-pack_part (string s) (string t) rs ss h k b c =
      lex-delimited (text.encode s) (text.encode t) rs ss b c
  lex-pack_part (bigint u) (bigint v) rs ss h k b c = lex-pack_bigint u v rs ss h k
  lex-pack_part (number x) (number y) rs ss h k b c = lex-pack_number x y rs ss
  lex-pack_part (boolean true) (boolean true) rs ss h k b c = refl
  lex-pack_part (boolean true) (boolean false) rs ss h k b c = refl
  lex-pack_part (boolean false) (boolean true) rs ss h k b c = refl
  lex-pack_part (boolean false) (boolean false) rs ss h k b c = refl
  lex-pack_part (bytes as') (string t) rs ss h k _ _ =
      types_lt (bytes as') (string t) rs ss (omega arith)
  lex-pack_part (bytes as') (bigint v) rs ss h k _ _ =
      types_lt (bytes as') (bigint v) rs ss (omega arith)
  lex-pack_part (bytes as') (number y) rs ss h k _ _ =
      types_lt (bytes as') (number y) rs ss (omega arith)
  lex-pack_part (bytes as') (boolean c) rs ss h k _ _ =
      types_lt (bytes as') (boolean c) rs ss (omega arith)
  lex-pack_part (string s) (bytes bs) rs ss h k _ _ =
      types_gt (string s) (bytes bs) rs ss (omega arith)
  lex-pack_part (string s) (bigint v) rs ss h k _ _ =
      types_lt (string s) (bigint v) rs ss (omega arith)
  lex-pack_part (string s) (number y) rs ss h k _ _ =
      types_lt (string s) (number y) rs ss (omega arith)
  lex-pack_part (string s) (boolean c) rs ss h k _ _ =
      types_lt (string s) (boolean c) rs ss (omega arith)
  lex-pack_part (bigint u) (bytes bs) rs ss h k _ _ =
      types_gt (bigint u) (bytes bs) rs ss (omega arith)
  lex-pack_part (bigint u) (string t) rs ss h k _ _ =
      types_gt (bigint u) (string t) rs ss (omega arith)
  lex-pack_part (bigint u) (number y) rs ss h k _ _ =
      types_lt (bigint u) (number y) rs ss (omega arith)
  lex-pack_part (bigint u) (boolean c) rs ss h k _ _ =
      types_lt (bigint u) (boolean c) rs ss (omega arith)
  lex-pack_part (number x) (bytes bs) rs ss h k _ _ =
      types_gt (number x) (bytes bs) rs ss (omega arith)
  lex-pack_part (number x) (string t) rs ss h k _ _ =
      types_gt (number x) (string t) rs ss (omega arith)
  lex-pack_part (number x) (bigint v) rs ss h k _ _ =
      types_gt (number x) (bigint v) rs ss (omega arith)
  lex-pack_part (number x) (boolean c) rs ss h k _ _ =
      types_lt (number x) (boolean c) rs ss (omega arith)
  lex-pack_part (boolean b) (bytes bs) rs ss h k _ _ =
      types_gt (boolean b) (bytes bs) rs ss (omega arith)
  lex-pack_part (boolean b) (string t) rs ss h k _ _ =
      types_gt (boolean b) (string t) rs ss (omega arith)
  lex-pack_part (boolean b) (bigint v) rs ss h k _ _ =
      types_gt (boolean b) (bigint v) rs ss (omega arith)
  lex-pack_part (boolean b) (number y) rs ss h k _ _ =
      types_gt (boolean b) (number y) rs ss (omega arith)

  pub lex-pack_key :
      (ps qs : KvKey)
      → All HasSize ps
      → All HasSize qs
      → lex (pack_key text ps) (pack_key text qs) ≡ compare_keys text ps qs
  unfolding pack_key compare_keys lex
  lex-pack_key [] [] h k = refl
  lex-pack_key [] (q ∷ qs) h k = let (t, b, e, l, u) = head_of q in rw e refl
  lex-pack_key (p ∷ ps) [] h k = let (t, b, e, l, u) = head_of p in rw e refl
  lex-pack_key (p ∷ ps) (q ∷ qs) h k =
      lex-pack_part p q (pack_key text ps) (pack_key text qs) h.0 k.0 (pack_key-StartsBelow ps)
        (inl (pack_key-StartsBelow qs))
      ∙ ap (first_of (compare_parts text p q)) (lex-pack_key ps qs h.1 k.1)

  -- `compareBytes` on the bytes that `packKey` writes is the order of the keys, on any two keys
  -- whose bigints take at most 255 bytes: the first parts that differ decide, and a proper prefix
  -- stands before the longer key. Byte arrays stand before strings, bigints, numbers and booleans,
  -- in this order; strings are in the order of their UTF-8 bytes, bigints in the mathematical one,
  -- numbers by sign and magnitude with -0 and 0 as one number, and false stands before true.
  pub compare_bytes-pack_key :
      (ps qs : KvKey)
      → All HasSize ps
      → All HasSize qs
      → compare_bytes (pack_key text ps) (pack_key text qs) ≡ compare_keys text ps qs
  compare_bytes-pack_key ps qs h k =
      compare_bytes-lex (pack_key text ps) (pack_key text qs) ∙ lex-pack_key ps qs h k
