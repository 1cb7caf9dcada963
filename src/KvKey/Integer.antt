-- ===== src/KvKey/Integer.antt =====
-- The bigint parts of npm/src/kv_key.ts.
use denokv.Prelude.{
  ℕ, suc, ◌+◌, ◌-◌, ◌%◌, ◌^◌, ◌≤◌, ◌<◌, ◌≡◌, refl, ap, ◌∙◌, true, false, inl, inr, Bool-cases, List,
  [], ◌∷◌, ◌++◌, leb, leb→le, Result, ok, err, out_of_range, arith,
}
use denokv.Prelude.Int.{ℤ, pos, negsuc, abs}
use denokv.Bytes.{flip_bytes, compute_bigint_minimum_number_of_bytes}
use denokv.Bytes.Width.{minimum_number_of_bytes-le_iff}
use denokv.KvKey.{
  TextCodec, KvKeyPart, bigint, big_endian, read_bigint, read_sized, pack_bigint, unpack_part,
}
use denokv.KvKey.BigEndian.{
  length-big_endian, big_endian-IsByte, read_big_endian-big_endian, read_big_endian-flip_bytes,
}
use native.Mathlib.Nat.{mod-eq_of_lt}

-- One round of the loop of `unpackKey`.
abbrev pub first_part : TextCodec → List ℕ → Result (KvKeyPart × List ℕ)
first_part text [] = err out_of_range
first_part text (t ∷ rest) = unpack_part text t rest

read_bigint_pos :
    (n v : ℕ) (rest : List ℕ)
    → v < 256 ^ n
    → read_bigint false n (big_endian n v ++ rest) ≡ ok (bigint (pos v), rest)
unfolding read_bigint
read_bigint_pos n v rest h =
    rw (read_big_endian-big_endian n v 0 rest, mod-eq_of_lt h) (ground arith)

read_bigint_neg :
    (n v : ℕ) (rest : List ℕ)
    → suc v < 256 ^ n
    → read_bigint true n (flip_bytes (big_endian n (suc v)) 0 ++ rest)
      ≡ ok (bigint (negsuc v), rest)
unfolding read_bigint
read_bigint_neg n v rest h =
    let same =
      read_big_endian-flip_bytes (big_endian n (suc v)) 0 rest (big_endian-IsByte n (suc v)) in
    rw
      (
        rw (length-big_endian n (suc v)) at same,
        read_big_endian-big_endian n (suc v) 0 rest,
        mod-eq_of_lt h,
      )
      (ground arith)

pub width_fits : (v : ℕ) → v < 256 ^ compute_bigint_minimum_number_of_bytes v
width_fits v = (minimum_number_of_bytes-le_iff v _).0 (omega arith)

-- A positive number takes a byte.
pub positive : (v : ℕ) → 1 ≤ compute_bigint_minimum_number_of_bytes (suc v)
positive v = ground (arith, (minimum_number_of_bytes-le_iff (suc v) 0).0)

part_pos :
    (text : TextCodec) (n : ℕ) (rest : List ℕ)
    → n ≤ 8
    → unpack_part text (0x15 + n - 1) rest ≡ read_bigint false n rest
unfolding unpack_part
part_pos text n rest h = ground arith

part_neg :
    (text : TextCodec) (n : ℕ) (rest : List ℕ)
    → 1 ≤ n
    → n ≤ 8
    → unpack_part text (0x13 + 1 - n) rest ≡ read_bigint true n rest
unfolding unpack_part
part_neg text n rest h k = ground arith

sized_pos :
    (text : TextCodec) (n : ℕ) (rest : List ℕ)
    → n ≤ 255
    → unpack_part text 0x1d ((n % 256) ∷ rest) ≡ read_bigint false n rest
unfolding unpack_part read_sized
sized_pos text n rest h = rw (mod-eq_of_lt {n = n} {m = 256} (omega arith)) refl

sized_neg :
    (text : TextCodec) (n : ℕ) (rest : List ℕ)
    → n ≤ 255
    → unpack_part text 0x0b ((255 - n % 256) ∷ rest) ≡ read_bigint true n rest
unfolding unpack_part read_sized
sized_neg text n rest h = ap (λ k. read_bigint true k rest) (omega arith)

-- A bigint whose magnitude takes at most 255 bytes is read back, whatever follows it.
pub unpack_bigint :
    (text : TextCodec) (v : ℤ) (rest : List ℕ)
    → compute_bigint_minimum_number_of_bytes (abs v) ≤ 255
    → first_part text (pack_bigint v ++ rest) ≡ ok (bigint v, rest)
unfolding pack_bigint flip_bytes
unpack_bigint text (pos v) rest h =
    let n = compute_bigint_minimum_number_of_bytes v in
    elim (Bool-cases (leb n 8)) [
      | inl small ↦
          rw small (part_pos text n _ (leb→le _ _ small) ∙ read_bigint_pos n v rest (width_fits v))
      | inr large ↦ rw large (sized_pos text n _ h ∙ read_bigint_pos n v rest (width_fits v))
    ]
unpack_bigint text (negsuc v) rest h =
    let n = compute_bigint_minimum_number_of_bytes (suc v) in
    elim (Bool-cases (leb n 8)) [
      | inl small ↦ rw small (
          part_neg text n _ (positive v) (leb→le _ _ small)
          ∙ read_bigint_neg n v rest (width_fits (suc v)))
      | inr large ↦ rw large (sized_neg text n _ h ∙ read_bigint_neg n v rest (width_fits (suc v)))
    ]
