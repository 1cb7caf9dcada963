-- ===== src/Bytes.antt =====
-- npm/src/bytes.ts: functions on byte arrays. A `Uint8Array` is a list of numbers below 256.
pub mod Order
pub mod Width
pub mod Flip
pub mod Reader
use denokv.Prelude.{
  ℕ, zero, suc, ◌+◌, ◌-◌, ◌/◌, ◌<◌, Bool, true, false, List, [], ◌∷◌, Ordering, length, ltb, ◌==◌,
  if◌then◌else◌, Result, ok, err, trailing_bytes,
}

abbrev pub IsByte : ℕ → Type 0
IsByte b = b < 256

-- `extra > 0` says that `pos` is below the length.
unfoldable pub check_end : List ℕ → ℕ → Result (Unit {0})
check_end bytes pos =
    if ltb pos (length bytes) then err (trailing_bytes (length bytes - pos)) else ok tt

-- The loop of `equalBytes`, on arrays of one length.
equal_loop : List ℕ → List ℕ → Bool
equal_loop (x ∷ xs) (y ∷ ys) = if x == y then equal_loop xs ys else false
equal_loop _ _ = true

unfoldable pub equal_bytes : List ℕ → List ℕ → Bool
unfolding equal_loop
equal_bytes lhs rhs = if length lhs == length rhs then equal_loop lhs rhs else false

-- `arr[i] = 0xff - arr[i]` from `start` on.
unfoldable pub flip_bytes : List ℕ → ℕ → List ℕ
flip_bytes [] start = []
flip_bytes (b ∷ bs) zero = (255 - b) ∷ flip_bytes bs zero
flip_bytes (b ∷ bs) (suc start) = b ∷ flip_bytes bs start

-- `while (val !== 0n) { val >>= 8n; n++; }`. Each round makes a positive `val` smaller, so `val`
-- rounds are enough.
minimum_bytes_loop : ℕ → ℕ → ℕ → ℕ
minimum_bytes_loop zero val n = n
minimum_bytes_loop (suc fuel) val n =
    let rest = minimum_bytes_loop fuel (val / 256) (n + 1) in if val == 0 then n else rest

unfoldable pub compute_bigint_minimum_number_of_bytes : ℕ → ℕ
unfolding minimum_bytes_loop
compute_bigint_minimum_number_of_bytes val = minimum_bytes_loop val val 0

-- The loop of `compareBytes`: `x` and `y` become the first two bytes that differ.
first_difference : List ℕ → List ℕ → ℕ → ℕ → ℕ × ℕ
first_difference (a ∷ as') (b ∷ bs) x y = if a == b then first_difference as' bs x y else (a, b)
first_difference _ _ x y = (x, y)

-- -1, 0 and 1 are `lt`, `eq` and `gt`. The shortcut for one and the same array gives `eq`, as the
-- loop does.
unfoldable pub compare_bytes : List ℕ → List ℕ → Ordering
unfolding first_difference
compare_bytes lhs rhs =
    let (x, y) = first_difference lhs rhs (length lhs) (length rhs) in
    if ltb x y then Ordering.lt else if ltb y x then Ordering.gt else Ordering.eq
