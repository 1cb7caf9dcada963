-- ===== src/KvUtil/Versionstamp/Laws.antt =====
-- Versionstamps of npm/src/kv_util.ts are valid, of one length, and read back.
use native.Mathlib.Nat.{pow-suc}
use denokv.Prelude.{
  ℕ, zero, suc, ◌+◌, ◌-◌, ◌/◌, ◌%◌, ◌^◌, ◌≤◌, ◌<◌, ◌≡◌, refl, ap, sym, ◌∙◌, true, inl, inr,
  Bool-cases, List, [], ◌∷◌, ◌++◌, length, length-append, take, drop, take-append_length,
  drop-append_length, all, ltb→lt, ltb, ok, arith,
}
use denokv.KvUtil.Versionstamp.{
  decimal_loop, decimal, replicate, pad_start, pack_versionstamp, is_digit, is_valid_versionstamp,
  parse_int, unpack_versionstamp, zeros,
}

-- `k` decimal digits of `v` in front of `acc`.
fixed : ℕ → ℕ → List ℕ → List ℕ
fixed zero v acc = acc
fixed (suc k) v acc = fixed k (v / 10) ((48 + v % 10) ∷ acc)

replicate_snoc : (k c : ℕ) (acc : List ℕ) → replicate k c ++ (c ∷ acc) ≡ c ∷ (replicate k c ++ acc)
unfolding replicate
replicate_snoc zero c acc = refl
replicate_snoc (suc k) c acc = ap (λ t. c ∷ t) (replicate_snoc k c acc)

fixed_zero : (k : ℕ) (acc : List ℕ) → fixed k 0 acc ≡ replicate k 48 ++ acc
unfolding fixed replicate
fixed_zero zero acc = refl
fixed_zero (suc k) acc = fixed_zero k (48 ∷ acc) ∙ replicate_snoc k 48 acc

loop-ge : (f n : ℕ) (acc : List ℕ) → length acc < length (decimal_loop f n acc)
unfolding decimal_loop
loop-ge zero n acc = omega arith
loop-ge (suc f) n acc = ground (arith, loop-ge f (n / 10) ((48 + n % 10) ∷ acc))

small_fixed :
    (k n : ℕ) (acc : List ℕ)
    → n < 10
    → replicate k 48 ++ ((48 + n % 10) ∷ acc) ≡ fixed (suc k) n acc
unfolding fixed
small_fixed k n acc h =
    let e : n / 10 ≡ 0 = omega arith in rw e (sym (fixed_zero k ((48 + n % 10) ∷ acc)))

loop_small : (f n : ℕ) (acc : List ℕ) → n < 10 → decimal_loop f n acc ≡ (48 + n % 10) ∷ acc
unfolding decimal_loop
loop_small zero n acc h = refl
loop_small (suc f) n acc h = ground arith

loop_large :
    (f n : ℕ) (acc : List ℕ)
    → 10 ≤ n
    → decimal_loop (suc f) n acc ≡ decimal_loop f (n / 10) ((48 + n % 10) ∷ acc)
unfolding decimal_loop
loop_large f n acc h = ground arith

padded_small :
    (f k n : ℕ) (acc : List ℕ)
    → n < 10
    → replicate (suc k + length acc - length (decimal_loop f n acc)) 48 ++ decimal_loop f n acc
      ≡ fixed (suc k) n acc
padded_small f k n acc h =
    rw (loop_small f n acc h)
      (ap (λ j. replicate j 48 ++ ((48 + n % 10) ∷ acc)) (omega arith) ∙ small_fixed k n acc h)

padded_loop :
    (f k n : ℕ) (acc : List ℕ)
    → n ≤ f
    → n < 10 ^ suc k
    → replicate (suc k + length acc - length (decimal_loop f n acc)) 48 ++ decimal_loop f n acc
      ≡ fixed (suc k) n acc
padded_loop zero k n acc h small = padded_small zero k n acc (omega arith)
padded_loop (suc f) zero n acc h small = padded_small (suc f) zero n acc (omega arith)
padded_loop (suc f) (suc k) n acc h small = elim (Bool-cases (ltb n 10)) [
  | inl few ↦ padded_small (suc f) (suc k) n acc (ltb→lt _ _ few)
  | inr more ↦
      let l = decimal_loop f (n / 10) ((48 + n % 10) ∷ acc) in
      rw (loop_large f n acc (ground arith)) (
        ap (λ j. replicate j 48 ++ l) (omega arith)
        ∙ padded_loop f k (n / 10) ((48 + n % 10) ∷ acc) (ground arith)
            (omega (arith, pow-suc 10 (suc k)))
        ∙ unfold fixed in refl)
]

pad-decimal : (v : ℕ) → v < 10 ^ 16 → pad_start 16 (decimal v) ≡ fixed 16 v []
unfolding pad_start decimal
pad-decimal v h = padded_loop v 15 v [] (omega arith) h

length-fixed : (k v : ℕ) (acc : List ℕ) → length (fixed k v acc) ≡ k + length acc
unfolding fixed
length-fixed zero v acc = omega arith
length-fixed (suc k) v acc = omega (arith, length-fixed k (v / 10) ((48 + v % 10) ∷ acc))

fixed_digits :
    (k v : ℕ) (acc : List ℕ) → all is_digit acc ≡ true → all is_digit (fixed k v acc) ≡ true
unfolding fixed
fixed_digits zero v acc h = h
fixed_digits (suc k) v acc h = fixed_digits k (v / 10) ((48 + v % 10) ∷ acc) (ground arith)

parse-fixed : (k v : ℕ) (acc : List ℕ) → v < 10 ^ k → parse_int 0 (fixed k v acc) ≡ parse_int v acc
unfolding fixed parse_int
parse-fixed zero v acc h = ap (λ n. parse_int n acc) (omega arith)
parse-fixed (suc k) v acc h =
    parse-fixed k (v / 10) ((48 + v % 10) ∷ acc) (omega (arith, pow-suc 10 k))
    ∙ ap (λ n. parse_int n acc) (omega arith)

-- The digits of the version, in front of four zeros.
pack-fixed : (v : ℕ) → v < 10 ^ 16 → pack_versionstamp v ≡ fixed 16 v [] ++ zeros
unfolding pack_versionstamp
pack-fixed v h = rw (pad-decimal v h)

take-fixed : (v : ℕ) → take 16 (fixed 16 v [] ++ zeros) ≡ fixed 16 v []
take-fixed v =
    ap (λ n. take n (fixed 16 v [] ++ zeros)) (sym (length-fixed 16 v []))
    ∙ take-append_length (fixed 16 v []) zeros

drop-fixed : (v : ℕ) → drop 16 (fixed 16 v [] ++ zeros) ≡ zeros
drop-fixed v =
    ap (λ n. drop n (fixed 16 v [] ++ zeros)) (sym (length-fixed 16 v []))
    ∙ drop-append_length (fixed 16 v []) zeros

fixed_valid : (v : ℕ) → is_valid_versionstamp (fixed 16 v [] ++ zeros) ≡ true
unfolding is_valid_versionstamp
fixed_valid v = rw (
  length-append (fixed 16 v []) zeros,
  length-fixed 16 v [],
  take-fixed v,
  drop-fixed v,
  fixed_digits 16 v [] refl,
)

-- For every version below 10 ^ 16 the versionstamp is valid, and the version is read back from it.
pub unpack-pack_versionstamp :
    (v : ℕ)
    → v < 10 ^ 16
    → (is_valid_versionstamp (pack_versionstamp v) ≡ true)
      × (unpack_versionstamp (pack_versionstamp v) ≡ ok v)
unpack-pack_versionstamp v h = rw (pack-fixed v h) (
  fixed_valid v,
  unfold unpack_versionstamp parse_int in
      rw (fixed_valid v, take-fixed v, parse-fixed 16 v [] h) refl,
)
