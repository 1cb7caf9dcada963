-- ===== src/Examples/Values.antt =====
-- The theorems on values and versionstamps at concrete inputs.
use denokv.Prelude.{
  ℕ, ◌+◌, ◌%◌, ◌^◌, ◌≡◌, refl, true, List, [], ◌∷◌, min, max, Result, ok, err, ◌>>=◌,
  unsupported_v8, arith,
}
use denokv.Prelude.Int.{pos}
use denokv.KvU64.{KvU64, sum, minimum, maximum}
use denokv.KvU64.Laws.{u64_operations}
use denokv.KvUtil.Value.{Value, plain, pack_kv_value}
use denokv.KvUtil.Value.RoundTrip.{read_packed, read-pack_kv_value}
use denokv.KvUtil.Versionstamp.{pack_versionstamp, is_valid_versionstamp, unpack_versionstamp}
use denokv.KvUtil.Versionstamp.Laws.{unpack-pack_versionstamp}

abbrev seven : KvU64
seven = record { value = 7 }

-- The largest value.
abbrev largest : KvU64
largest = record { value = 0xffff_ffff_ffff_ffff }

u64_operations_example :
    (sum largest (pos seven.value) ≡ ok (record { value = (largest.value + seven.value) % 2 ^ 64 }))
    × (minimum largest (pos seven.value) ≡ ok (record { value = min largest.value seven.value }))
    × (maximum largest (pos seven.value) ≡ ok (record { value = max largest.value seven.value }))
u64_operations_example = u64_operations largest seven (omega arith) (omega arith)

-- A serializer of small numbers.
abbrev encode_small : Value ℕ → Result (List ℕ)
encode_small (plain n) = ok (n ∷ [])
encode_small v = err unsupported_v8

abbrev decode_small : List ℕ → Result (Value ℕ)
decode_small (n ∷ []) = ok (plain n)
decode_small bs = err unsupported_v8

read-pack_kv_value_example :
    (pack_kv_value (plain 5) encode_small >>= read_packed encode_small decode_small) ≡ ok (plain 5)
read-pack_kv_value_example = read-pack_kv_value encode_small decode_small (plain 5) refl

unpack-pack_versionstamp_example :
    (is_valid_versionstamp (pack_versionstamp 42) ≡ true)
    × (unpack_versionstamp (pack_versionstamp 42) ≡ ok 42)
unpack-pack_versionstamp_example = unpack-pack_versionstamp 42 (omega arith)
