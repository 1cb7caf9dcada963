-- ===== src/KvU64.antt =====
-- npm/src/kv_u64.ts: unsigned 64-bit values, with wrapping sum.
pub mod Laws
use denokv.Prelude.{
  ℕ, zero, suc, ◌+◌, ◌-◌, ◌%◌, ◌^◌, ltb, leb, ◌==◌, if◌then◌else◌, Result, ok, err, value_negative,
  value_too_large,
}
use denokv.Prelude.Int.{ℤ, pos, negsuc}

pub record KvU64 : Type 0 where
  pub value : ℕ

-- The constructor's checks.
unfoldable pub make_kv_u64 : ℤ → Result KvU64
make_kv_u64 (negsuc n) = err value_negative
make_kv_u64 (pos n) = if ltb (2 ^ 64 - 1) n then err value_too_large else ok (record { value = n })

-- `(this.value + other.value) % (1n << 64n)`: the remainder has the sign of the sum.
abbrev pub sum_mod : ℕ → ℤ → ℤ
sum_mod v (pos m) = pos ((v + m) % 2 ^ 64)
sum_mod v (negsuc m) =
    if leb (suc m) v
    then pos ((v - suc m) % 2 ^ 64)
    else (if (suc m - v) % 2 ^ 64 == 0 then pos 0 else negsuc ((suc m - v) % 2 ^ 64 - 1))

-- A holder of a bigint as the argument: `checkValueHolder` lets every such object pass.
unfoldable pub sum : KvU64 → ℤ → Result KvU64
unfolding make_kv_u64
sum u other = make_kv_u64 (sum_mod u.value other)

unfoldable pub minimum : KvU64 → ℤ → Result KvU64
unfolding make_kv_u64
minimum u (pos m) = if ltb m u.value then make_kv_u64 (pos m) else ok u
minimum u (negsuc m) = make_kv_u64 (negsuc m)

unfoldable pub maximum : KvU64 → ℤ → Result KvU64
unfolding make_kv_u64
maximum u (pos m) = if ltb u.value m then make_kv_u64 (pos m) else ok u
maximum u (negsuc m) = ok u
