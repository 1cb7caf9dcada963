-- ===== src/KvUtil/Versionstamp.antt =====
-- `packVersionstamp`, `isValidVersionstamp` and `unpackVersionstamp` of npm/src/kv_util.ts. A text
-- is the list of its character codes.
pub mod Laws
use denokv.Prelude.{
  ℕ, zero, suc, ◌+◌, ◌-◌, ◌*◌, ◌/◌, ◌%◌, Bool, ◌&&◌, List, [], ◌∷◌, ◌++◌, length, take, drop, all,
  ltb, leb, ◌==◌, if◌then◌else◌, Result, ok, err, bad_versionstamp,
}

-- `Number.prototype.toString` of an integer: the last digit is found first. A round divides by
-- ten, so `n` rounds after the first are enough.
decimal_loop : ℕ → ℕ → List ℕ → List ℕ
decimal_loop zero n acc = (48 + n % 10) ∷ acc
decimal_loop (suc fuel) n acc =
    let rest = decimal_loop fuel (n / 10) ((48 + n % 10) ∷ acc) in
    if ltb n 10 then (48 + n % 10) ∷ acc else rest

unfoldable pub decimal : ℕ → List ℕ
unfolding decimal_loop
decimal n = decimal_loop n n []

unfoldable pub replicate : ℕ → ℕ → List ℕ
replicate zero c = []
replicate (suc n) c = c ∷ replicate n c

-- `padStart(n, "0")`
unfoldable pub pad_start : ℕ → List ℕ → List ℕ
unfolding replicate
pad_start n s = replicate (n - length s) 48 ++ s

abbrev pub zeros : List ℕ
zeros = 48 ∷ 48 ∷ 48 ∷ 48 ∷ []

unfoldable pub pack_versionstamp : ℕ → List ℕ
unfolding pad_start decimal
pack_versionstamp version = pad_start 16 (decimal version) ++ zeros

abbrev pub is_digit : ℕ → Bool
is_digit c = leb 48 c && leb c 57

-- The pattern /^(\d{16})0000$/.
unfoldable pub is_valid_versionstamp : List ℕ → Bool
is_valid_versionstamp s =
    length s == 20 && (all is_digit (take 16 s) && all (λ c. c == 48) (drop 16 s))

-- `parseInt` of digits.
unfoldable pub parse_int : ℕ → List ℕ → ℕ
parse_int acc [] = acc
parse_int acc (c ∷ s) = parse_int (acc * 10 + (c - 48)) s

unfoldable pub unpack_versionstamp : List ℕ → Result ℕ
unfolding is_valid_versionstamp
unpack_versionstamp s =
    if is_valid_versionstamp s then ok (parse_int 0 (take 16 s)) else err bad_versionstamp
