-- ===== src/KvKey/Double.antt =====
-- The eight bytes of a `number` part of npm/src/kv_key.ts.
use denokv.Prelude.{
  ℕ, ◌%◌, ◌^◌, ◌<◌, ◌≡◌, refl, sym, ap, ◌∙◌, true, false, inl, inr, Bool-cases, List, ◌∷◌, ◌++◌,
  length, take, drop, take-append_length, drop-append_length, if◌then◌else◌, ok, arith,
}
use denokv.Bytes.{flip_bytes}
use denokv.Bytes.Flip.{length-flip_bytes, flip_bytes-flip_bytes}
use denokv.KvKey.{
  number, big_endian, get_float64, negative_abs, negate, is_below_zero, is_neg_head, pack_number,
  read_number,
}
use denokv.KvKey.BigEndian.{length-big_endian, big_endian-IsByte, get_float64-big_endian}

-- What reading back gives: -0 becomes 0, and a NaN loses its sign.
abbrev pub normal_number : ℕ → ℕ
normal_number x = if is_below_zero x then x else x % 2 ^ 63

-- `read_number` on eight bytes and what follows them.
read_number_eight :
    (sub rest : List ℕ)
    → length sub ≡ 8
    → read_number (sub ++ rest) ≡ (
        if is_neg_head sub
        then ok (number (negate (negate (get_float64 (flip_bytes sub 0) 0))), rest)
        else ok (number (negate (get_float64 sub 0)), rest))
unfolding read_number
read_number_eight sub rest h =
    let t : take 8 (sub ++ rest) ≡ sub =
      ap (λ k. take k (sub ++ rest)) (sym h) ∙ take-append_length sub rest in
    let d : drop 8 (sub ++ rest) ≡ rest =
      ap (λ k. drop k (sub ++ rest)) (sym h) ∙ drop-append_length sub rest in
    rw (t, d, h) refl

float_bits : (x : ℕ) → x < 2 ^ 64 → get_float64 (big_endian 8 x) 0 ≡ x
float_bits x h = omega (arith, get_float64-big_endian 8 x 0)

-- The sign bit is the top bit of the first byte.
head_of_negative : (x : ℕ) → is_neg_head (big_endian 8 (negative_abs x)) ≡ false
unfolding big_endian
head_of_negative x = ground arith

head_of_flipped : (x : ℕ) → is_neg_head (flip_bytes (big_endian 8 (negative_abs x)) 0) ≡ true
unfolding big_endian flip_bytes
head_of_flipped x = ground arith

read_flipped :
    (x : ℕ) (rest : List ℕ)
    → x < 2 ^ 64
    → is_below_zero x ≡ true
    → read_number (flip_bytes (big_endian 8 (negative_abs x)) 0 ++ rest)
      ≡ ok (number (normal_number x), rest)
read_flipped x rest h below =
    let be = big_endian 8 (negative_abs x) in
    read_number_eight (flip_bytes be 0) rest
      (length-flip_bytes be 0 ∙ length-big_endian 8 (negative_abs x))
    ∙ rw
        (
          head_of_flipped x,
          flip_bytes-flip_bytes be 0 (big_endian-IsByte 8 (negative_abs x)),
          float_bits (negative_abs x) (omega arith),
          below,
        )
        (ap (λ t. ok (number t, rest)) (ground arith))

read_plain :
    (x : ℕ) (rest : List ℕ)
    → x < 2 ^ 64
    → is_below_zero x ≡ false
    → read_number (big_endian 8 (negative_abs x) ++ rest) ≡ ok (number (normal_number x), rest)
read_plain x rest h other =
    read_number_eight (big_endian 8 (negative_abs x)) rest (length-big_endian 8 (negative_abs x))
    ∙ rw (head_of_negative x, float_bits (negative_abs x) (omega arith), other)
        (ap (λ t. ok (number t, rest)) (omega arith))

-- A number is read back up to the sign of zero and of NaN, whatever follows it.
pub read_number-pack :
    (x : ℕ) (rest : List ℕ)
    → x < 2 ^ 64
    → (body : List ℕ) × (pack_number x ≡ 0x21 ∷ body)
      × (read_number (body ++ rest) ≡ ok (number (normal_number x), rest))
unfolding pack_number
read_number-pack x rest h = elim (Bool-cases (is_below_zero x)) [
  | inl below ↦
      (flip_bytes (big_endian 8 (negative_abs x)) 0, rw below refl, read_flipped x rest h below)
  | inr other ↦ (big_endian 8 (negative_abs x), rw other refl, read_plain x rest h other)
]
