-- ===== src/KvKey/Oversize.antt =====
-- A bigint of 256 bytes or more: npm/src/kv_key.ts writes the number of its bytes into one byte.
use denokv.Prelude.{
  ℕ, zero, suc, ◌%◌, ◌≤◌, ◌<◌, ◌≡◌, ◌≢◌, false, List, [], ◌∷◌, length, append-nil, Result, ok, err,
  ◌>>=◌, arith,
}
use denokv.Prelude.Int.{pos}
use denokv.Bytes.{compute_bigint_minimum_number_of_bytes}
use denokv.KvKey.{
  TextCodec, KvKeyPart, KvKey, bigint, signed, big_endian, pack_bigint, pack_key_part, pack_key,
  read_bigint, read_sized, unpack_part, unpack_loop, unpack_key,
}
use denokv.KvKey.BigEndian.{length-big_endian}
use denokv.KvKey.Unpack.{
  Ends, thrown, Ends-le, ReadsVal, read_big_endian-ReadsVal, go_on, unpack_loop-Ends, Answers, key,
  exception, finish,
}

-- `pack_bigint` of such a number, with its size byte.
pack_oversize :
    (v : ℕ)
    → 256 ≤ compute_bigint_minimum_number_of_bytes v
    → pack_bigint (pos v)
      ≡ 0x1d
        ∷ (compute_bigint_minimum_number_of_bytes v % 256)
        ∷ big_endian (compute_bigint_minimum_number_of_bytes v) v
unfolding pack_bigint
pack_oversize v h = ground arith

-- After the first part bytes are left, so a second part follows, or an exception.
after_first :
    (text : TextCodec) (fuel n : ℕ) (body : List ℕ) (r : Result (ℕ × List ℕ))
    → n < length body
    → length body ≤ fuel
    → ReadsVal n body r
    → Ends 2 (go_on text fuel [] (r >>= λ p. ok (bigint (signed false p.0), p.1)))
after_first text fuel n body (ok (w, rest)) h k reads =
    Ends-le (omega arith)
      (unpack_loop-Ends text fuel rest (bigint (signed false w) ∷ []) (omega arith))
after_first text fuel n body (err e) h k reads = thrown reads

oversize_loop :
    (text : TextCodec) (fuel n : ℕ) (body : List ℕ)
    → n < length body
    → length body < fuel
    → Ends 2 (unpack_loop text fuel (0x1d ∷ n ∷ body) [])
oversize_loop text zero n body h k = absurd (omega arith)
oversize_loop text (suc fuel) n body h k =
    unfold unpack_loop unpack_part read_sized read_bigint in
    (after_first text fuel n body _ h (omega arith) (read_big_endian-ReadsVal false n 0 body))

one_is_not_two : (p : KvKeyPart) {r : Result KvKey} → Answers 2 r → r ≢ ok (p ∷ [])
one_is_not_two p (key {rt} h) e = ground arith
one_is_not_two p (exception h) e = cc

-- `unpackKey` of the bytes that `packKey` writes for a positive bigint of 256 bytes or more does
-- not return the key of that bigint.
pub unpack_key_oversize :
    (text : TextCodec) (v : ℕ)
    → 256 ≤ compute_bigint_minimum_number_of_bytes v
    → unpack_key text (pack_key text (bigint (pos v) ∷ [])) ≢ ok (bigint (pos v) ∷ [])
unpack_key_oversize text v h = one_is_not_two (bigint (pos v)) (
    unfold pack_key pack_key_part unpack_key in
    rw (append-nil, pack_oversize v h)
      (finish _ (
        oversize_loop text _ _ _
          (omega (arith, length-big_endian (compute_bigint_minimum_number_of_bytes v) v))
          (omega arith))))
