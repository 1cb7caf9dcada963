-- ===== src/KvKey.antt =====
-- npm/src/kv_key.ts: the order-preserving encoding of keys as byte arrays.
pub mod Escape
pub mod BigEndian
pub mod Integer
pub mod Double
pub mod Unpack
pub mod RoundTrip
pub mod Oversize
pub mod Order
use denokv.Prelude.{
  ℕ, zero, suc, ◌+◌, ◌-◌, ◌*◌, ◌/◌, ◌%◌, ◌^◌, ◌≡◌, Bool, true, false, ◌&&◌, ◌||◌, List, [], ◌∷◌,
  ◌++◌, length, any, All, take, drop, ltb, leb, ◌==◌, if◌then◌else◌, Result, ok, err, ◌>>=◌, ◌>>◌,
  out_of_range, unsupported_typecode, out_of_fuel,
}
use denokv.Prelude.Int.{ℤ, pos, negsuc, is_neg, abs}
use denokv.Bytes.{IsByte, check_end, flip_bytes, compute_bigint_minimum_number_of_bytes}

-- A string is the list of its UTF-16 code units, and a number the 64-bit pattern of the double.
pub data KvKeyPart : Type 0 where
  bytes : List ℕ → KvKeyPart
  string : List ℕ → KvKeyPart
  number : ℕ → KvKeyPart
  bigint : ℤ → KvKeyPart
  boolean : Bool → KvKeyPart

abbrev pub KvKey : Type 0
KvKey = List KvKeyPart

-- Unpaired surrogates have no UTF-8 form: `TextEncoder` replaces them.
abbrev pub is_well_formed : List ℕ → Bool
is_well_formed [] = true
is_well_formed (u ∷ []) = ltb u 0xd800 || (leb 0xe000 u && ltb u 0x10000)
is_well_formed (u ∷ v ∷ us) =
    let rest = is_well_formed (v ∷ us) in
    let after_pair = is_well_formed us in
    if ltb u 0xd800 || (leb 0xe000 u && ltb u 0x10000)
    then rest
    else leb 0xd800 u && ltb u 0xdc00 && leb 0xdc00 v && ltb v 0xe000 && after_pair

-- `TextDecoder` drops a leading byte order mark.
abbrev pub has_bom : List ℕ → Bool
has_bom [] = false
has_bom (u ∷ us) = u == 0xfeff

-- `TextEncoder` and `TextDecoder` of the platform.
pub record TextCodec : Type 0 where
  pub encode : List ℕ → List ℕ
  pub decode : List ℕ → List ℕ
  pub encode-IsByte : (s : List ℕ) → All IsByte (encode s)
  pub decode-encode :
      (s : List ℕ) → is_well_formed s ≡ true → has_bom s ≡ false → decode (encode s) ≡ s

-- `-Math.abs(x)`, `-x` and `x < 0` on the bit patterns. -0 and NaN are not below 0. Of a NaN the sign
-- changes and the payload stays, as on common processors; the language leaves its bits open.
abbrev pub negative_abs : ℕ → ℕ
negative_abs x = 2 ^ 63 + x % 2 ^ 63

abbrev pub negate : ℕ → ℕ
negate x = (x + 2 ^ 63) % 2 ^ 64

abbrev pub is_below_zero : ℕ → Bool
is_below_zero x = leb (2 ^ 63) x && ltb 0 (x % 2 ^ 63) && leb (x % 2 ^ 63) 0x7ff0_0000_0000_0000

unfoldable pub escape : List ℕ → List ℕ
escape [] = []
escape (b ∷ bs) = let rest = escape bs in if b == 0 then 0 ∷ 255 ∷ rest else b ∷ rest

unfoldable pub encode_zero_with_zero_ff : List ℕ → List ℕ
unfolding escape
encode_zero_with_zero_ff bs = if any (λ b. b == 0) bs then escape bs else bs

-- The bytes that the loop pushes while `n` are left: `(abs & (0xff << 8 * (n - 1))) >> 8 * (n - 1)`
-- first. `setFloat64` writes the same bytes, eight of a pattern.
pub big_endian : ℕ → ℕ → List ℕ
big_endian zero v = []
big_endian (suc n) v = (v / 256 ^ n % 256) ∷ big_endian n v

-- The typecode of a bigint of `n` bytes.
abbrev pub typecode_of : Bool → ℕ → ℕ
typecode_of true n = if leb n 8 then 0x13 + 1 - n else 0x0b
typecode_of false n = if leb n 8 then 0x15 + n - 1 else 0x1d

-- `new Uint8Array` wraps the pushed number of bytes to its lowest eight bits.
abbrev pub size_byte : ℕ → List ℕ
size_byte n = if leb n 8 then [] else (n % 256) ∷ []

pub pack_bigint : ℤ → List ℕ
pack_bigint v =
    let n = compute_bigint_minimum_number_of_bytes (abs v) in
    let body = size_byte n ++ big_endian n (abs v) in
    typecode_of (is_neg v) n ∷ (if is_neg v then flip_bytes body 0 else body)

pub pack_number : ℕ → List ℕ
pack_number x =
    let sub = big_endian 8 (negative_abs x) in
    0x21 ∷ (if is_below_zero x then flip_bytes sub 0 else sub)

-- The loop that reads `newBytes`, and what follows them.
pub push : ℕ → List ℕ × List ℕ → List ℕ × List ℕ
push b (new_bytes, rest) = (b ∷ new_bytes, rest)

pub read_escaped : List ℕ → List ℕ × List ℕ
unfolding push
read_escaped [] = ([], [])
read_escaped (b ∷ []) = if b == 0 then ([], []) else (b ∷ [], [])
read_escaped (b ∷ c ∷ rest) =
    let skip = push b (read_escaped rest) in
    let next = push b (read_escaped (c ∷ rest)) in
    if b == 0 then (if c == 255 then skip else ([], c ∷ rest)) else next

-- `val += BigInt(byte) << ((numBytes - i - 1n) * 8n)`, with `n` rounds left. Past the end of the
-- array `bytes[pos]` is undefined, and `BigInt` throws.
pub read_big_endian : Bool → ℕ → ℕ → List ℕ → Result (ℕ × List ℕ)
read_big_endian neg zero val rest = ok (val, rest)
read_big_endian neg (suc n) val [] = err out_of_range
read_big_endian neg (suc n) val (b ∷ rest) =
    read_big_endian neg n (val + (if neg then 255 - b else b) * 256 ^ n) rest

-- `neg ? -val : val`
abbrev pub signed : Bool → ℕ → ℤ
signed true zero = pos 0
signed true (suc n) = negsuc n
signed false n = pos n

pub read_bigint : Bool → ℕ → List ℕ → Result (KvKeyPart × List ℕ)
unfolding read_big_endian
read_bigint neg n rest = do
  (val, rest') ← read_big_endian neg n 0 rest
  ok (bigint (signed neg val), rest')

-- The byte that holds the number of bytes.
pub read_sized : Bool → List ℕ → Result (KvKeyPart × List ℕ)
read_sized neg [] = err out_of_range
read_sized neg (b ∷ rest) = read_bigint neg (if neg then 255 - b else b) rest

-- `getFloat64` of eight bytes.
pub get_float64 : List ℕ → ℕ → ℕ
get_float64 [] acc = acc
get_float64 (b ∷ bs) acc = get_float64 bs (acc * 256 + b)

abbrev pub is_neg_head : List ℕ → Bool
is_neg_head [] = false
is_neg_head (b ∷ bs) = ltb b 128

-- A shorter rest makes `getFloat64` throw.
pub read_number : List ℕ → Result (KvKeyPart × List ℕ)
unfolding get_float64
read_number rest =
    let sub = take 8 rest in
    if ltb (length sub) 8
    then err out_of_range
    else (if is_neg_head sub
        then ok (number (negate (negate (get_float64 (flip_bytes sub 0) 0))), drop 8 rest)
        else ok (number (negate (get_float64 sub 0)), drop 8 rest))

-- `Math.abs(typecode - Typecode.IntegerZero)`
abbrev pub distance_to_zero : ℕ → ℕ
distance_to_zero t = if ltb t 0x14 then 0x14 - t else t - 0x14

module _ (text : TextCodec) where
  unfoldable pub pack_key_part : KvKeyPart → List ℕ
  pack_key_part (bytes bs) = 0x01 ∷ (encode_zero_with_zero_ff bs ++ (0 ∷ []))
  pack_key_part (string s) = 0x02 ∷ (encode_zero_with_zero_ff (text.encode s) ++ (0 ∷ []))
  pack_key_part (boolean false) = 0x26 ∷ []
  pack_key_part (boolean true) = 0x27 ∷ []
  pack_key_part (bigint v) = pack_bigint v
  pack_key_part (number x) = pack_number x

  -- `flatMap` over the parts.
  unfoldable pub pack_key : KvKey → List ℕ
  pack_key [] = []
  pack_key (p ∷ ps) = pack_key_part p ++ pack_key ps

  -- One round of the loop: the part that starts with this typecode, and the bytes behind it.
  pub unpack_part : ℕ → List ℕ → Result (KvKeyPart × List ℕ)
  unpack_part t rest =
      if t == 0x01
      then (let (new_bytes, rest') = read_escaped rest in ok (bytes new_bytes, rest'))
      else if t == 0x02
      then (let (new_bytes, rest') = read_escaped rest in
          ok (string (text.decode new_bytes), rest'))
      else if leb 0x0b t && leb t 0x1d
      then (if t == 0x1d || t == 0x0b
          then read_sized (ltb t 0x14) rest
          else read_bigint (ltb t 0x14) (distance_to_zero t) rest)
      else if t == 0x21
      then read_number rest
      else if t == 0x26
      then ok (boolean false, rest)
      else if t == 0x27
      then ok (boolean true, rest)
      else err (unsupported_typecode t)

  -- The position is the list of bytes still to be read. A round takes at least the typecode, so
  -- as many rounds as there are bytes are enough.
  pub unpack_loop : ℕ → List ℕ → KvKey → Result (KvKey × List ℕ)
  unpack_loop fuel [] rt = ok (rt, [])
  unpack_loop zero (t ∷ rest) rt = err out_of_fuel
  unpack_loop (suc fuel) (t ∷ rest) rt = do
    (part, rest') ← unpack_part t rest
    unpack_loop fuel rest' (rt ++ (part ∷ []))

  pub unpack_key : List ℕ → Result KvKey
  unpack_key bs = do
    (rt, rest) ← unpack_loop (length bs) bs []
    check_end bs (length bs - length rest)
    ok rt
