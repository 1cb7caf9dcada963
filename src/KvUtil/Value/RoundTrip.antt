-- ===== src/KvUtil/Value/RoundTrip.antt =====
-- Values survive `packKvValue` and `readValue` of npm/src/kv_util.ts.
use denokv.Prelude.{
  ℕ, zero, suc, ◌+◌, ◌*◌, ◌/◌, ◌%◌, ◌^◌, ◌<◌, ◌≡◌, refl, ap, ◌∙◌, List, length, Result, ok, err,
  ◌>>=◌, arith,
}
use native.Mathlib.Nat.{pow-suc}
use denokv.KvU64.{KvU64, make_kv_u64}
use denokv.KvU64.Laws.{IsU64}
use denokv.KvUtil.Value.{
  Value, u64, byte_array, holder, plain, KvValue, ve_v8, little_endian, get_little_endian, pack_kvu,
  unpack_kvu, pack_kv_value, read_value,
}

length-little_endian : (n v : ℕ) → length (little_endian n v) ≡ n
unfolding little_endian
length-little_endian zero v = refl
length-little_endian (suc n) v = ap suc (length-little_endian n (v / 256))

-- `pack_kvu` writes eight bytes.
pub length-pack_kvu : (u : KvU64) → length (pack_kvu u) ≡ 8
unfolding pack_kvu
length-pack_kvu u = length-little_endian 8 u.value

get-little_endian : (n v : ℕ) → v < 256 ^ n → get_little_endian (little_endian n v) ≡ v
unfolding little_endian get_little_endian
get-little_endian zero v h = omega arith
get-little_endian (suc n) v h =
    ap (λ t. v % 256 + 256 * t) (get-little_endian n (v / 256) (omega (arith, pow-suc 256 n)))
    ∙ omega arith

-- The eight bytes of a 64-bit value are read back.
pub unpack_kvu-pack_kvu : (u : KvU64) → IsU64 u → unpack_kvu (pack_kvu u) ≡ ok u
unfolding unpack_kvu
unpack_kvu-pack_kvu u h =
    rw (length-pack_kvu u)
      (unfold pack_kvu make_kv_u64 in rw (get-little_endian 8 u.value (omega arith)) (ground arith))

module _ {V : Type 0} (encode_v8 : Value V → Result (List ℕ))
    (decode_v8 : List ℕ → Result (Value V)) where
  -- What a value needs to come back: a 64-bit value, or a serializer that reads back what it wrote.
  abbrev pub IsReadable : Value V → Type 0
  IsReadable (u64 u) = IsU64 u
  IsReadable (byte_array bs) = Unit {0}
  IsReadable (holder n) = (encode_v8 (holder n) >>= decode_v8) ≡ ok (holder n)
  IsReadable (plain v) = (encode_v8 (plain v) >>= decode_v8) ≡ ok (plain v)

  -- What `readValue` makes of a packed value.
  abbrev pub read_packed : KvValue → Result (Value V)
  read_packed kv = read_value kv.bytes kv.encoding decode_v8

  through_v8 :
      (r : Result (List ℕ)) (v : Value V)
      → (r >>= decode_v8) ≡ ok v
      → ((r >>= λ bs. ok (record { bytes = bs; encoding = ve_v8 })) >>= read_packed) ≡ ok v
  unfolding read_value
  through_v8 (ok bs) v h = h
  through_v8 (err e) v h = cc

  -- `readValue` reads back what `packKvValue` packed: 64-bit values and byte arrays with no help
  -- of the serializer, any other value if the serializer reads back what it wrote for it.
  pub read-pack_kv_value :
      (v : Value V) → IsReadable v → (pack_kv_value v encode_v8 >>= read_packed) ≡ ok v
  unfolding pack_kv_value
  read-pack_kv_value (u64 u) h = unfold read_value in rw (unpack_kvu-pack_kvu u h)
  read-pack_kv_value (byte_array bs) h = unfold read_value in refl
  read-pack_kv_value (holder n) h = through_v8 (encode_v8 (holder n)) (holder n) h
  read-pack_kv_value (plain v) h = through_v8 (encode_v8 (plain v)) (plain v) h
