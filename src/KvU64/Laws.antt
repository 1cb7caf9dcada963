-- ===== src/KvU64/Laws.antt =====
-- `sum`, `min` and `max` of npm/src/kv_u64.ts as operations on 64-bit words.
use denokv.Prelude.{
  ◌+◌, ◌%◌, ◌^◌, ◌<◌, ◌≡◌, min, max, Bool-cases, inl, inr, ltb, ◌-◌, Result, ok, err, arith,
}
use denokv.Prelude.Int.{ℤ, pos, negsuc}
use denokv.KvU64.{KvU64, make_kv_u64, sum, minimum, maximum}

abbrev pub IsU64 : KvU64 → Type 0
IsU64 u = u.value < 2 ^ 64

abbrev pub Fits : Result KvU64 → Type 0
Fits (ok u) = IsU64 u
Fits (err e) = Unit {0}

-- Whatever bigint the constructor is given, the object it makes holds a 64-bit value.
pub make_kv_u64-Fits : (n : ℤ) → Fits (make_kv_u64 n)
unfolding make_kv_u64
make_kv_u64-Fits (negsuc n) = tt
make_kv_u64-Fits (pos n) = elim (Bool-cases (ltb (2 ^ 64 - 1) n)) [
  | inl large ↦ rw large tt
  | inr small ↦ rw small (ground arith)
]

-- On 64-bit values `sum` is addition modulo 2 ^ 64, `min` and `max` are the smaller and the larger
-- value, and none of them throws.
pub u64_operations :
    (u v : KvU64)
    → IsU64 u
    → IsU64 v
    → (sum u (pos v.value) ≡ ok (record { value = (u.value + v.value) % 2 ^ 64 }))
      × (minimum u (pos v.value) ≡ ok (record { value = min u.value v.value }))
      × (maximum u (pos v.value) ≡ ok (record { value = max u.value v.value }))
unfolding sum minimum maximum
u64_operations u v h k = (ground arith, ground arith, ground arith)
