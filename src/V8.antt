-- ===== src/V8.antt =====
-- npm/src/v8.ts: a serializer of strings, null, undefined, booleans and 0n in the format of V8.
pub mod RoundTrip
use denokv.Prelude.{
  ℕ, ◌+◌, ◌*◌, ◌/◌, ◌%◌, ◌<◌, ◌≡◌, Bool, true, false, List, [], ◌∷◌, length, take, all, All, leb,
  ◌==◌, if◌then◌else◌, Result, ok, err, ◌>>=◌, ◌>>◌, decode_empty, unsupported_version,
  unsupported_v8,
}
use denokv.Bytes.{check_end}
use denokv.KvKey.{is_well_formed, has_bom}

-- A string is the list of its UTF-16 code units; `other` is any value that throws.
pub data V8Value : Type 0 where
  str : List ℕ → V8Value
  null_value undefined_value zero_bigint other : V8Value
  bool_value : Bool → V8Value
  unknown_v8 : List ℕ → V8Value

-- The code units as bytes, the lower one first.
abbrev pub two_bytes : List ℕ → List ℕ
two_bytes [] = []
two_bytes (u ∷ us) = (u % 256) ∷ (u / 256 % 256) ∷ two_bytes us

-- `TextDecoder` of the platform, for UTF-8 and for UTF-16.
pub record TextDecoders : Type 0 where
  pub utf8 : List ℕ → List ℕ
  pub utf16 : List ℕ → List ℕ
  pub utf8_ascii : (s : List ℕ) → All (λ u. u < 128) s → utf8 s ≡ s
  pub utf16_units :
      (s : List ℕ) → is_well_formed s ≡ true → has_bom s ≡ false → utf16 (two_bytes s) ≡ s

abbrev pub is_one_byte_char : ℕ → Bool
is_one_byte_char u = leb u 0xff

-- The length is written into one byte, which keeps its lowest eight bits.
unfoldable pub encode_string : List ℕ → List ℕ
encode_string s =
    if all is_one_byte_char s
    then 0xff ∷ 15 ∷ 34 ∷ (length s % 256) ∷ s
    else 0xff ∷ 15 ∷ 99 ∷ (length s * 2 % 256) ∷ two_bytes s

unfoldable pub encode_v8 : V8Value → Result (List ℕ)
unfolding encode_string
encode_v8 (unknown_v8 bs) = ok bs
encode_v8 (str s) = ok (encode_string s)
encode_v8 null_value = ok (0xff ∷ 15 ∷ 48 ∷ [])
encode_v8 undefined_value = ok (0xff ∷ 15 ∷ 95 ∷ [])
encode_v8 (bool_value true) = ok (0xff ∷ 15 ∷ 84 ∷ [])
encode_v8 (bool_value false) = ok (0xff ∷ 15 ∷ 70 ∷ [])
encode_v8 zero_bigint = ok (0xff ∷ 15 ∷ 90 ∷ 0 ∷ [])
encode_v8 other = err unsupported_v8

module _ (decoders : TextDecoders) where
  -- The length, and as many bytes as there are up to it. Without a length the string is empty.
  abbrev pub decode_string : (List ℕ → List ℕ) → List ℕ → Result V8Value
  decode_string decode [] = ok (str (decode []))
  decode_string decode (len ∷ rest) = check_end rest len >> ok (str (decode (take len rest)))

  abbrev pub decode_end : V8Value → List ℕ → Result V8Value
  decode_end v rest = check_end rest 0 >> ok v

  abbrev pub is_zero_body : List ℕ → Bool
  is_zero_body (b ∷ []) = b == 0
  is_zero_body _ = false

  abbrev pub unknown : Bool → List ℕ → Result V8Value
  unknown true bytes = ok (unknown_v8 bytes)
  unknown false bytes = err unsupported_v8

  -- What follows the version. `bytes` is the whole input.
  unfoldable pub decode_tag : Bool → List ℕ → List ℕ → Result V8Value
  decode_tag wrap bytes [] = unknown wrap bytes
  decode_tag wrap bytes (tag ∷ rest) =
      if tag == 34
      then decode_string decoders.utf8 rest
      else if tag == 99
      then decode_string decoders.utf16 rest
      else if tag == 48
      then decode_end null_value rest
      else if tag == 95
      then decode_end undefined_value rest
      else if tag == 84
      then decode_end (bool_value true) rest
      else if tag == 70
      then decode_end (bool_value false) rest
      else if tag == 90
      then (if is_zero_body rest then ok zero_bigint else unknown wrap bytes)
      else unknown wrap bytes

  unfoldable pub decode_version : Bool → List ℕ → List ℕ → Result V8Value
  unfolding decode_tag
  decode_version wrap bytes [] = err unsupported_v8
  decode_version wrap bytes (version ∷ rest) =
      if version == 15 then decode_tag wrap bytes rest else err (unsupported_version version)

  -- `wrap` is `wrapUnknownValues`.
  unfoldable pub decode_v8 : Bool → List ℕ → Result V8Value
  unfolding decode_version
  decode_v8 wrap [] = err decode_empty
  decode_v8 wrap (k ∷ rest) =
      if k == 0xff
      then decode_version wrap (k ∷ rest) rest
      else (if wrap then ok (unknown_v8 (k ∷ rest)) else err (unsupported_version k))
