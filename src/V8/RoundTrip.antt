-- ===== src/V8/RoundTrip.antt =====
-- `decodeV8` after `encodeV8` of npm/src/v8.ts.
use denokv.Prelude.{
  ℕ, ◌-◌, ◌*◌, ◌%◌, ◌≤◌, ◌<◌, ◌≡◌, refl, ap, sym, ◌∙◌, ◌⊎◌, inl, inr, Bool, true, false, List, [],
  ◌∷◌, length, take, all, All, ltb, ok, err, ◌>>=◌, trailing_bytes, arith,
}
use denokv.Bytes.{check_end}
use denokv.KvKey.{is_well_formed, has_bom}
use denokv.V8.{
  V8Value, str, null_value, undefined_value, zero_bigint, other, bool_value, unknown_v8, two_bytes,
  TextDecoders, is_one_byte_char, encode_string, encode_v8, decode_string, decode_v8,
}

-- A string of ASCII characters, at most 255, or one with a character above U+00FF, well formed,
-- without a byte order mark in front, of at most 127 units.
abbrev pub IsShortText : List ℕ → Type 0
IsShortText s =
    ((All (λ u. u < 128) s) × (length s ≤ 255))
    ⊎ ((all is_one_byte_char s ≡ false)
        × (is_well_formed s ≡ true)
        × (has_bom s ≡ false)
        × (length s ≤ 127))

abbrev pub IsEncodable : V8Value → Type 0
IsEncodable (str s) = IsShortText s
IsEncodable other = ⊥
IsEncodable (unknown_v8 bs) = ⊥
IsEncodable _ = Unit {0}

all_one_byte : (s : List ℕ) → All (λ u. u < 128) s → all is_one_byte_char s ≡ true
all_one_byte [] h = refl
all_one_byte (u ∷ s) (h, hs) = rw (all_one_byte s hs) (ground arith)

length-two_bytes : (s : List ℕ) → length (two_bytes s) ≡ length s * 2
length-two_bytes [] = refl
length-two_bytes (u ∷ s) = omega (arith, length-two_bytes s)

take-all : (bs : List ℕ) → take (length bs) bs ≡ bs
take-all [] = refl
take-all (b ∷ bs) = ap (λ t. b ∷ t) (take-all bs)

check_end-all : (bs : List ℕ) → check_end bs (length bs) ≡ ok tt
unfolding check_end
check_end-all bs = ground arith

small_mod : (n : ℕ) → n ≤ 255 → n % 256 ≡ n
small_mod n h = omega arith

module _ (decoders : TextDecoders) where
  -- The bytes of a string, with their number in front.
  decode-counted :
      (decode : List ℕ → List ℕ) (n : ℕ) (bs : List ℕ)
      → n ≡ length bs
      → n ≤ 255
      → decode_string decoders decode ((n % 256) ∷ bs) ≡ ok (str (decode bs))
  decode-counted decode n bs e h = rw (small_mod n h, e, check_end-all bs, take-all bs) refl

  decode-encode_string :
      (wrap : Bool) (s : List ℕ)
      → IsShortText s
      → decode_v8 decoders wrap (encode_string s) ≡ ok (str s)
  unfolding decode_v8 encode_string
  decode-encode_string wrap s (inl (ascii, short)) = rw (all_one_byte s ascii) (
      decode-counted decoders.utf8 (length s) s refl short
      ∙ ap (λ t. ok (str t)) (decoders.utf8_ascii s ascii))
  decode-encode_string wrap s (inr (wide, wf, bom, short)) = rw wide (
      decode-counted decoders.utf16 (length s * 2) (two_bytes s) (sym (length-two_bytes s))
        (omega arith)
      ∙ ap (λ t. ok (str t)) (decoders.utf16_units s wf bom))

  -- `decodeV8` reads back what `encodeV8` wrote, with or without `wrapUnknownValues`, for null,
  -- undefined, the booleans, 0n, strings of at most 255 ASCII characters, and strings of at most
  -- 127 units with a character above U+00FF that are well formed and have no byte order mark in
  -- front.
  pub decode-encode_v8 :
      (wrap : Bool) (v : V8Value) → IsEncodable v → (encode_v8 v >>= decode_v8 decoders wrap) ≡ ok v
  unfolding encode_v8
  decode-encode_v8 wrap (str s) h = decode-encode_string wrap s h
  decode-encode_v8 wrap null_value h = unfold decode_v8 check_end in refl
  decode-encode_v8 wrap undefined_value h = unfold decode_v8 check_end in refl
  decode-encode_v8 wrap zero_bigint h = unfold decode_v8 check_end in refl
  decode-encode_v8 wrap other h = absurd h
  decode-encode_v8 wrap (bool_value true) h = unfold decode_v8 check_end in refl
  decode-encode_v8 wrap (bool_value false) h = unfold decode_v8 check_end in refl
  decode-encode_v8 wrap (unknown_v8 bs) h = absurd h

  -- A string of 256 characters or more, all below U+0100, is encoded without an exception, and
  -- decoding it always throws: the length is written modulo 256.
  pub decode_v8-long_string :
      (wrap : Bool) (s : List ℕ)
      → all is_one_byte_char s ≡ true
      → 256 ≤ length s
      → (encode_v8 (str s) >>= decode_v8 decoders wrap)
        ≡ err (trailing_bytes (length s - length s % 256))
  unfolding encode_v8 encode_string decode_v8 check_end
  decode_v8-long_string wrap s one_byte long = rw (one_byte, wrapped (length s) long) refl
    where
      wrapped : (n : ℕ) → 256 ≤ n → ltb (n % 256) n ≡ true
      wrapped n h = ground arith
