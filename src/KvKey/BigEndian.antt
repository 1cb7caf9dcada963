-- ===== src/KvKey/BigEndian.antt =====
-- The big-endian bytes of npm/src/kv_key.ts: width, round trip and order.
use native.Mathlib.Nat.{pow-suc, div-add-mod, div-div-eq-div-mul, mod-eq_of_lt, mod-lt}
use denokv.Prelude.{
  ℕ, zero, suc, ◌+◌, ◌*◌, ◌/◌, ◌%◌, ◌^◌, ◌<◌, ◌≡◌, refl, ap, ◌∙◌, true, false, List, [], ◌∷◌, ◌++◌,
  compare, length, All, ok, arith,
}
use denokv.Bytes.{IsByte, flip_bytes}
use denokv.Bytes.Order.{lex}
use denokv.Bytes.Width.{pow_256_pos}
use denokv.KvKey.{big_endian, read_big_endian, get_float64}

pub length-big_endian : (n v : ℕ) → length (big_endian n v) ≡ n
unfolding big_endian
length-big_endian zero v = refl
length-big_endian (suc n) v = ap suc (length-big_endian n v)

pub big_endian-IsByte : (n v : ℕ) → All IsByte (big_endian n v)
unfolding big_endian
big_endian-IsByte zero v = tt
big_endian-IsByte (suc n) v = (omega arith, big_endian-IsByte n v)

-- One more byte in front: `p` is 256 ^ n.
mod_step : (v p : ℕ) → 0 < p → v / p % 256 * p + v % p ≡ v % (p * 256)
mod_step v p h = omega (
  arith,
  div-add-mod v (p * 256),
  div-add-mod v p,
  ap (λ (t : ℕ). t * (p * 256)) (div-div-eq-div-mul v p 256),
  ap (λ (t : ℕ). t * p) (div-add-mod (v / p) 256),
)

-- The leading digit decides.
lt_of_digit_lt : (a b p x y : ℕ) → a < b → x < p → a * p + x < b * p + y
lt_of_digit_lt a b p x y h k = grind arith

pub read_big_endian-big_endian :
    (n v val : ℕ) (rest : List ℕ)
    → read_big_endian false n val (big_endian n v ++ rest) ≡ ok (val + v % 256 ^ n, rest)
unfolding read_big_endian big_endian
read_big_endian-big_endian zero v val rest = ground arith
read_big_endian-big_endian (suc n) v val rest = ground (
  arith,
  read_big_endian-big_endian n v (val + v / 256 ^ n % 256 * 256 ^ n) rest,
  mod_step v (256 ^ n) (pow_256_pos n),
  pow-suc 256 n,
)

-- Flipped bytes are read back as the bytes themselves by the negative reader.
pub read_big_endian-flip_bytes :
    (bs : List ℕ) (val : ℕ) (rest : List ℕ)
    → All IsByte bs
    → read_big_endian true (length bs) val (flip_bytes bs 0 ++ rest)
      ≡ read_big_endian false (length bs) val (bs ++ rest)
unfolding read_big_endian flip_bytes
read_big_endian-flip_bytes [] val rest h = refl
read_big_endian-flip_bytes (b ∷ bs) val rest h =
    ground (arith, read_big_endian-flip_bytes bs (val + b * 256 ^ length bs) rest h.1)

horner :
    (acc v p q : ℕ) → 0 < p → q ≡ p * 256 → (acc * 256 + v / p % 256) * p + v % p ≡ acc * q + v % q
horner acc v p q h e = rw e (omega (arith, mod_step v p h))

pub get_float64-big_endian :
    (n v acc : ℕ) → get_float64 (big_endian n v) acc ≡ acc * 256 ^ n + v % 256 ^ n
unfolding get_float64 big_endian
get_float64-big_endian zero v acc = omega arith
get_float64-big_endian (suc n) v acc =
    get_float64-big_endian n v (acc * 256 + v / 256 ^ n % 256)
    ∙ horner acc v (256 ^ n) (256 ^ suc n) (pow_256_pos n) (pow-suc 256 n)

lex-big_endian_mod :
    (n u v : ℕ) → lex (big_endian n u) (big_endian n v) ≡ compare (u % 256 ^ n) (v % 256 ^ n)
unfolding lex big_endian
lex-big_endian_mod zero u v = ground arith
lex-big_endian_mod (suc n) u v =
    let p = 256 ^ n in
    let pp = pow_256_pos n in
    ground (
      arith,
      lex-big_endian_mod n u v,
      mod_step u p pp,
      mod_step v p pp,
      pow-suc 256 n,
      lt_of_digit_lt (u / p % 256) (v / p % 256) p (u % p) (v % p),
      lt_of_digit_lt (v / p % 256) (u / p % 256) p (v % p) (u % p),
      mod-lt u pp,
      mod-lt v pp,
    )

-- Numbers of one width stand in the order of their big-endian bytes.
pub lex-big_endian :
    (n u v : ℕ) → u < 256 ^ n → v < 256 ^ n → lex (big_endian n u) (big_endian n v) ≡ compare u v
lex-big_endian n u v h k = rw (mod-eq_of_lt h, mod-eq_of_lt k) at (lex-big_endian_mod n u v)
