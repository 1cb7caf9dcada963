-- ===== src/Bytes/Width.antt =====
-- `computeBigintMinimumNumberOfBytes` of npm/src/bytes.ts: the width of a number in bytes.
use native.Mathlib.Nat.{pow-suc}
use denokv.Prelude.{ℕ, zero, suc, ◌+◌, ◌/◌, ◌^◌, ◌≤◌, ◌<◌, ◌↔◌, arith}
use denokv.Bytes.{minimum_bytes_loop, compute_bigint_minimum_number_of_bytes}

pub pow_256_pos : (k : ℕ) → 0 < 256 ^ k
pow_256_pos zero = omega arith
pow_256_pos (suc k) = omega (arith, pow-suc 256 k, pow_256_pos k)

loop-ge : (fuel v n : ℕ) → n ≤ minimum_bytes_loop fuel v n
unfolding minimum_bytes_loop
loop-ge zero v n = omega arith
loop-ge (suc fuel) v n = ground (arith, loop-ge fuel (v / 256) (n + 1))

loop-le_iff : (fuel v n k : ℕ) → v ≤ fuel → (minimum_bytes_loop fuel v n ≤ n + k) ↔ (v < 256 ^ k)
unfolding minimum_bytes_loop
loop-le_iff zero v n k h = (λ _. omega (arith, pow_256_pos k), λ _. omega arith)
loop-le_iff (suc fuel) v n zero h = ground (arith, loop-ge fuel (v / 256) (n + 1))
loop-le_iff (suc fuel) v n (suc k) h =
    ground (arith, pow-suc 256 k, pow_256_pos k, loop-le_iff fuel (v / 256) (n + 1) k)

-- The computed number of bytes is the least one that holds the value: it is at most `k` exactly
-- when the value is below 256 ^ k.
pub minimum_number_of_bytes-le_iff :
    (v k : ℕ) → (compute_bigint_minimum_number_of_bytes v ≤ k) ↔ (v < 256 ^ k)
unfolding compute_bigint_minimum_number_of_bytes
minimum_number_of_bytes-le_iff v k = ground (arith, loop-le_iff v v 0 k (omega arith))
