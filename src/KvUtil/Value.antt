-- ===== src/KvUtil/Value.antt =====
-- `packKvu`, `unpackKvu`, `packKvValue` and `readValue` of npm/src/kv_util.ts.
pub mod RoundTrip
use denokv.Prelude.{
  ℕ, zero, suc, ◌+◌, ◌*◌, ◌/◌, ◌%◌, ◌^◌, List, [], ◌∷◌, length, ◌==◌, if◌then◌else◌, Result, ok,
  err, ◌>>=◌, out_of_range, unsupported_encoding,
}
use denokv.Prelude.Int.{ℤ, pos}
use denokv.KvU64.{KvU64, make_kv_u64}

-- A value of the store: a `_KvU64`, a byte array, a plain object `{ value: n }` with a bigint, or
-- any other value.
pub data Value (V : Type 0) : Type 0 where
  u64 : KvU64 → Value V
  byte_array : List ℕ → Value V
  holder : ℤ → Value V
  plain : V → Value V

pub data KvValueEncoding : Type 0 where
  ve_unspecified ve_v8 ve_le64 ve_bytes : KvValueEncoding

pub record KvValue : Type 0 where
  pub bytes : List ℕ
  pub encoding : KvValueEncoding

-- `setBigUint64(0, value, true)`: `n` bytes, the lowest first.
unfoldable pub little_endian : ℕ → ℕ → List ℕ
little_endian zero v = []
little_endian (suc n) v = (v % 256) ∷ little_endian n (v / 256)

-- `getBigUint64(0, true)`
unfoldable pub get_little_endian : List ℕ → ℕ
get_little_endian [] = 0
get_little_endian (b ∷ bs) = b + 256 * get_little_endian bs

unfoldable pub pack_kvu : KvU64 → List ℕ
pack_kvu u = little_endian 8 u.value

-- The copy into a buffer of its own keeps the bytes.
unfoldable pub unpack_kvu : List ℕ → Result KvU64
unpack_kvu bs =
    if length bs == 8 then make_kv_u64 (pos (get_little_endian bs)) else err out_of_range

module _ {V : Type 0} where
  -- `encodeV8` and `decodeV8` are the serializer that the caller chose, on every value that is
  -- neither a `_KvU64` nor a byte array.
  unfoldable pub pack_kv_value : Value V → (Value V → Result (List ℕ)) → Result KvValue
  pack_kv_value (u64 u) encode_v8 = ok (record { bytes = pack_kvu u; encoding = ve_le64 })
  pack_kv_value (byte_array bs) encode_v8 = ok (record { bytes = bs; encoding = ve_bytes })
  pack_kv_value (holder n) encode_v8 = do
    bs ← encode_v8 (holder n)
    ok (record { bytes = bs; encoding = ve_v8 })
  pack_kv_value (plain v) encode_v8 = do
    bs ← encode_v8 (plain v)
    ok (record { bytes = bs; encoding = ve_v8 })

  unfoldable pub read_value :
      List ℕ → KvValueEncoding → (List ℕ → Result (Value V)) → Result (Value V)
  read_value bs ve_v8 decode_v8 = decode_v8 bs
  read_value bs ve_le64 decode_v8 = do u ← unpack_kvu bs; ok (u64 u)
  read_value bs ve_bytes decode_v8 = ok (byte_array bs)
  read_value bs ve_unspecified decode_v8 = err unsupported_encoding
