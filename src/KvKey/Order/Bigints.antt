-- ===== src/KvKey/Order/Bigints.antt =====
-- The bytes of the bigints of npm/src/kv_key.ts in their order.
use denokv.Prelude.{
  ℕ, suc, ◌^◌, ◌≤◌, ◌<◌, ◌≡◌, inl, inr, ap, sym, ◌∙◌, subst, true, false, Bool-cases, List, ◌∷◌,
  ◌++◌, append_assoc, Ordering, compare, ltb, arith,
}
use denokv.Prelude.Int.{ℤ, pos, negsuc, abs}
use denokv.Bytes.{flip_bytes, compute_bigint_minimum_number_of_bytes}
use denokv.Bytes.Flip.{flip_bytes-append}
use denokv.Bytes.Order.{lex, lex-append_left, flip_ordering}
use denokv.Bytes.Width.{minimum_number_of_bytes-le_iff}
use denokv.KvKey.{big_endian, typecode_of, size_byte, pack_bigint}
use denokv.KvKey.Integer.{width_fits, positive}
use denokv.KvKey.Order.{first_of, compare_bigints}
use denokv.KvKey.Order.Numbers.{lex-plain_tail, lex-flipped_tail, lex-heads_lt, lex-heads_gt}

abbrev width : ℕ → ℕ
width = compute_bigint_minimum_number_of_bytes

wider : (u v : ℕ) → width u < width v → u < v
wider u v h =
    ground (
      arith,
      minimum_number_of_bytes-le_iff u (width u),
      minimum_number_of_bytes-le_iff v (width u),
    )

-- A magnitude in `n` bytes, after the typecode and the size.
abbrev plain : ℕ → ℕ → List ℕ
plain n v = typecode_of false n ∷ (size_byte n ++ big_endian n v)

abbrev flipped : ℕ → ℕ → List ℕ
flipped n v = typecode_of true n ∷ flip_bytes (size_byte n ++ big_endian n v) 0

plain_same :
    (n u v : ℕ) (rs ss : List ℕ)
    → u < 256 ^ n
    → v < 256 ^ n
    → lex (plain n u ++ rs) (plain n v ++ ss) ≡ first_of (compare u v) (lex rs ss)
plain_same n u v rs ss h k =
    rw
      (
        append_assoc (size_byte n) (big_endian n u) rs,
        append_assoc (size_byte n) (big_endian n v) ss,
      )
      (lex-append_left (typecode_of false n ∷ size_byte n) _ _ ∙ lex-plain_tail n u v rs ss h k)

flipped_same :
    (n u v : ℕ) (rs ss : List ℕ)
    → u < 256 ^ n
    → v < 256 ^ n
    → lex (flipped n u ++ rs) (flipped n v ++ ss)
      ≡ first_of (flip_ordering (compare u v)) (lex rs ss)
flipped_same n u v rs ss h k =
    let size = flip_bytes (size_byte n) 0 in
    rw
      (
        flip_bytes-append (size_byte n) (big_endian n u),
        flip_bytes-append (size_byte n) (big_endian n v),
        append_assoc size (flip_bytes (big_endian n u) 0) rs,
        append_assoc size (flip_bytes (big_endian n v) 0) ss,
      )
      (lex-append_left (typecode_of true n ∷ size) _ _ ∙ lex-flipped_tail n u v rs ss h k)

plain_wider :
    (n m u v : ℕ) (rs ss : List ℕ)
    → n < m
    → m ≤ 255
    → (lex (plain n u ++ rs) (plain m v ++ ss) ≡ Ordering.lt)
      × (lex (plain m v ++ ss) (plain n u ++ rs) ≡ Ordering.gt)
unfolding lex
plain_wider n m u v rs ss h k = ground arith

flipped_wider :
    (n m u v : ℕ) (rs ss : List ℕ)
    → 1 ≤ n
    → n < m
    → m ≤ 255
    → (lex (flipped n u ++ rs) (flipped m v ++ ss) ≡ Ordering.gt)
      × (lex (flipped m v ++ ss) (flipped n u ++ rs) ≡ Ordering.lt)
unfolding lex flip_bytes
flipped_wider n m u v rs ss p h k = ground arith

lt_of_ltb : (n m : ℕ) → ltb n m ≡ true → n < m
lt_of_ltb n m h = ground arith

same_width : (n m : ℕ) → ltb n m ≡ false → ltb m n ≡ false → n ≡ m
same_width n m h k = ground arith

compare-suc : (u v : ℕ) → compare (suc u) (suc v) ≡ compare u v
compare-suc u v = ground arith

compare_lt : (u v : ℕ) → u < v → compare u v ≡ Ordering.lt
compare_lt u v h = ground arith

compare_gt : (u v : ℕ) → v < u → compare u v ≡ Ordering.gt
compare_gt u v h = ground arith

-- A comparison of two magnitudes that goes by their widths first goes by the magnitudes.
by_width :
    (u v : ℕ) (at_widths : ℕ → ℕ → Ordering) (answer : Ordering → Ordering)
    → (width u < width v → at_widths (width u) (width v) ≡ answer Ordering.lt)
    → (width v < width u → at_widths (width u) (width v) ≡ answer Ordering.gt)
    → ((n : ℕ) → u < 256 ^ n → v < 256 ^ n → at_widths n n ≡ answer (compare u v))
    → at_widths (width u) (width v) ≡ answer (compare u v)
by_width u v at_widths answer less more same = elim (Bool-cases (ltb (width u) (width v))) [
  | inl p ↦ let h = lt_of_ltb _ _ p in less h ∙ sym (ap answer (compare_lt u v (wider u v h)))
  | inr p ↦ elim (Bool-cases (ltb (width v) (width u))) [
    | inl q ↦ let h = lt_of_ltb _ _ q in more h ∙ sym (ap answer (compare_gt u v (wider v u h)))
    | inr q ↦
        subst (λ m. v < 256 ^ m → at_widths (width u) m ≡ answer (compare u v))
          (same_width (width u) (width v) p q) (same (width u) (width_fits u)) (width_fits v)
  ]
]

-- Bigints stand in their mathematical order, whatever follows them, if they take at most 255 bytes.
pub lex-pack_bigint :
    (u v : ℤ) (rs ss : List ℕ)
    → width (abs u) ≤ 255
    → width (abs v) ≤ 255
    → lex (pack_bigint u ++ rs) (pack_bigint v ++ ss) ≡ first_of (compare_bigints u v) (lex rs ss)
unfolding pack_bigint compare_bigints
lex-pack_bigint (pos u) (pos v) rs ss h k =
    by_width u v (λ n m. lex (plain n u ++ rs) (plain m v ++ ss)) (λ o. first_of o (lex rs ss))
      (λ l. (plain_wider (width u) (width v) u v rs ss l k).0)
      (λ l. (plain_wider (width v) (width u) v u ss rs l h).1) (λ n. plain_same n u v rs ss)
lex-pack_bigint (pos u) (negsuc v) rs ss h k = lex-heads_gt _ _ _ _ (ground (arith, positive v))
lex-pack_bigint (negsuc u) (pos v) rs ss h k = lex-heads_lt _ _ _ _ (ground (arith, positive u))
lex-pack_bigint (negsuc u) (negsuc v) rs ss h k =
    by_width (suc u) (suc v) (λ n m. lex (flipped n (suc u) ++ rs) (flipped m (suc v) ++ ss))
      (λ o. first_of (flip_ordering o) (lex rs ss))
      (λ l.
        (flipped_wider (width (suc u)) (width (suc v)) (suc u) (suc v) rs ss (positive u) l k).0)
      (λ l.
        (flipped_wider (width (suc v)) (width (suc u)) (suc v) (suc u) ss rs (positive v) l h).1)
      (λ n. flipped_same n (suc u) (suc v) rs ss)
    ∙ ap (λ o. first_of (flip_ordering o) (lex rs ss)) (compare-suc u v)
