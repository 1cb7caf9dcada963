-- ===== src/KvKey/Order/Numbers.antt =====
-- The bytes of the numbers and the bigints of npm/src/kv_key.ts in their order.
use denokv.Prelude.{
  ℕ, ◌+◌, ◌-◌, ◌/◌, ◌%◌, ◌^◌, ◌≤◌, ◌<◌, ◌≡◌, inl, inr, ap, sym, ◌∙◌, Bool-cases, List, ◌∷◌, ◌++◌,
  Ordering, compare, arith,
}
use denokv.Bytes.{flip_bytes}
use denokv.Bytes.Flip.{length-flip_bytes, lex-flip_bytes}
use denokv.Bytes.Order.{lex, flip_ordering}
use denokv.KvKey.{is_below_zero, negative_abs, big_endian, pack_number}
use denokv.KvKey.BigEndian.{length-big_endian, big_endian-IsByte, lex-big_endian}
use denokv.KvKey.Order.{first_of, compare_numbers}
use denokv.KvKey.Order.Bytewise.{lex-same_length}

lex-flipped :
    (n u v : ℕ)
    → u < 256 ^ n
    → v < 256 ^ n
    → lex (flip_bytes (big_endian n u) 0) (flip_bytes (big_endian n v) 0)
      ≡ flip_ordering (compare u v)
lex-flipped n u v h k =
    lex-flip_bytes (big_endian n u) (big_endian n v) (big_endian-IsByte n u) (big_endian-IsByte n v)
      (length-big_endian n u ∙ sym (length-big_endian n v))
    ∙ ap flip_ordering (lex-big_endian n u v h k)

pub lex-plain_tail :
    (n u v : ℕ) (rs ss : List ℕ)
    → u < 256 ^ n
    → v < 256 ^ n
    → lex (big_endian n u ++ rs) (big_endian n v ++ ss) ≡ first_of (compare u v) (lex rs ss)
lex-plain_tail n u v rs ss h k =
    lex-same_length (big_endian n u) (big_endian n v) rs ss
      (length-big_endian n u ∙ sym (length-big_endian n v))
    ∙ ap (λ o. first_of o (lex rs ss)) (lex-big_endian n u v h k)

pub lex-flipped_tail :
    (n u v : ℕ) (rs ss : List ℕ)
    → u < 256 ^ n
    → v < 256 ^ n
    → lex (flip_bytes (big_endian n u) 0 ++ rs) (flip_bytes (big_endian n v) 0 ++ ss)
      ≡ first_of (flip_ordering (compare u v)) (lex rs ss)
lex-flipped_tail n u v rs ss h k =
    lex-same_length (flip_bytes (big_endian n u) 0) (flip_bytes (big_endian n v) 0) rs ss (
      length-flip_bytes (big_endian n u) 0
      ∙ length-big_endian n u
      ∙ sym (length-flip_bytes (big_endian n v) 0 ∙ length-big_endian n v))
    ∙ ap (λ o. first_of o (lex rs ss)) (lex-flipped n u v h k)

compare_shift : (k u v : ℕ) → compare (k + u) (k + v) ≡ compare u v
compare_shift k u v = ground arith

high_head : (x : ℕ) → 128 ≤ negative_abs x / 256 ^ 7 % 256
high_head x = omega arith

low_head : (x : ℕ) → 255 - negative_abs x / 256 ^ 7 % 256 < 128
low_head x = omega (arith, high_head x)

pub lex-heads_lt : (a b : ℕ) (rs ss : List ℕ) → a < b → lex (a ∷ rs) (b ∷ ss) ≡ Ordering.lt
unfolding lex
lex-heads_lt a b rs ss h = ground arith

pub lex-heads_gt : (a b : ℕ) (rs ss : List ℕ) → b < a → lex (a ∷ rs) (b ∷ ss) ≡ Ordering.gt
unfolding lex
lex-heads_gt a b rs ss h = ground arith

lex-flipped_plain :
    (x y : ℕ) (rs ss : List ℕ)
    → lex (flip_bytes (big_endian 8 (negative_abs x)) 0 ++ rs) (big_endian 8 (negative_abs y) ++ ss)
      ≡ Ordering.lt
unfolding big_endian flip_bytes
lex-flipped_plain x y rs ss = lex-heads_lt _ _ _ _ (omega (arith, low_head x, high_head y))

lex-plain_flipped :
    (x y : ℕ) (rs ss : List ℕ)
    → lex (big_endian 8 (negative_abs x) ++ rs) (flip_bytes (big_endian 8 (negative_abs y)) 0 ++ ss)
      ≡ Ordering.gt
unfolding big_endian flip_bytes
lex-plain_flipped x y rs ss = lex-heads_gt _ _ _ _ (omega (arith, low_head y, high_head x))

-- Numbers: those below zero are flipped, so that their first bit is not set.
pub lex-pack_number :
    (x y : ℕ) (rs ss : List ℕ)
    → lex (pack_number x ++ rs) (pack_number y ++ ss) ≡ first_of (compare_numbers x y) (lex rs ss)
unfolding pack_number compare_numbers lex
lex-pack_number x y rs ss =
    let a = 2 ^ 63 + x % 2 ^ 63 in
    let b = 2 ^ 63 + y % 2 ^ 63 in
    elim (Bool-cases (is_below_zero x)) [
      | inl p ↦ elim (Bool-cases (is_below_zero y)) [
        | inl q ↦
            rw (p, q)
              (lex-flipped_tail 8 a b rs ss (omega arith) (omega arith)
                ∙ ap (λ o. first_of (flip_ordering o) (lex rs ss))
                    (compare_shift (2 ^ 63) (x % 2 ^ 63) (y % 2 ^ 63)))
        | inr q ↦ rw (p, q) (lex-flipped_plain x y rs ss)
      ]
      | inr p ↦ elim (Bool-cases (is_below_zero y)) [
        | inl q ↦ rw (p, q) (lex-plain_flipped x y rs ss)
        | inr q ↦
            rw (p, q)
              (lex-plain_tail 8 a b rs ss (omega arith) (omega arith)
                ∙ ap (λ o. first_of o (lex rs ss))
                    (compare_shift (2 ^ 63) (x % 2 ^ 63) (y % 2 ^ 63)))
      ]
    ]
