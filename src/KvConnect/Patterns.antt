-- ===== src/KvConnect/Patterns.antt =====
-- The regular expressions and tests on texts of npm/src/kv_connect_api.ts and npm/src/check.ts.
use denokv.Prelude.{
  ℕ, zero, suc, Bool, true, false, ◌&&◌, ◌||◌, Option, none, some, List, [], ◌∷◌, leb, ◌==◌,
  if◌then◌else◌,
}
use denokv.Bytes.{equal_bytes}

abbrev pub http_text : List ℕ
http_text = b'h' ∷ b't' ∷ b't' ∷ b'p' ∷ b':' ∷ []

abbrev pub https_text : List ℕ
https_text = b'h' ∷ b't' ∷ b't' ∷ b'p' ∷ b's' ∷ b':' ∷ []

abbrev pub slash : List ℕ
slash = b'/' ∷ []

-- A regular expression of so many character classes, matched at the start: what is left.
abbrev pub after_match : List (ℕ → Bool) → List ℕ → Option (List ℕ)
after_match [] cs = some cs
after_match (p ∷ ps) [] = none
after_match (p ∷ ps) (c ∷ cs) = let rest = after_match ps cs in if p c then rest else none

abbrev pub times : ℕ → (ℕ → Bool) → List (ℕ → Bool) → List (ℕ → Bool)
times zero p ps = ps
times (suc n) p ps = p ∷ times n p ps

abbrev pub is_digit : ℕ → Bool
is_digit c = leb b'0' c && leb c b'9'

abbrev pub is_hex : ℕ → Bool
is_hex c = is_digit c || leb b'a' c && leb c b'f'

abbrev pub is_dash : ℕ → Bool
is_dash c = c == b'-'

abbrev pub is_colon : ℕ → Bool
is_colon c = c == b':'

abbrev pub is_t : ℕ → Bool
is_t c = c == b'T'

-- `/^[0-9a-f]{8}-[0-9a-f]{4}-[0-9a-f]{4}-[0-9a-f]{4}-[0-9a-f]{12}$/`
abbrev pub uuid_classes : List (ℕ → Bool)
uuid_classes = times 8 is_hex (
    is_dash
    ∷ times 4 is_hex
        (is_dash ∷ times 4 is_hex (is_dash ∷ times 4 is_hex (is_dash ∷ times 12 is_hex []))))

abbrev pub is_end : Option (List ℕ) → Bool
is_end (some []) = true
is_end (some (c ∷ cs)) = false
is_end none = false

unfoldable pub is_uuid : List ℕ → Bool
is_uuid s = is_end (after_match uuid_classes s)

-- `\d{4}-\d{2}-\d{2}T\d{2}:\d{2}:\d{2}`
abbrev pub date_classes : List (ℕ → Bool)
date_classes = times 4 is_digit (
    is_dash
    ∷ times 2 is_digit (
        is_dash
        ∷ times 2 is_digit (
            is_t
            ∷ times 2 is_digit (is_colon ∷ times 2 is_digit (is_colon ∷ times 2 is_digit [])))))

-- `\d*Z$`, then `\d+Z$`, and `(\.\d+)?Z$`.
abbrev pub is_digits_z : List ℕ → Bool
is_digits_z [] = false
is_digits_z (c ∷ []) = c == b'Z'
is_digits_z (c ∷ d ∷ cs) = is_digit c && is_digits_z (d ∷ cs)

abbrev pub is_fraction : List ℕ → Bool
is_fraction [] = false
is_fraction (c ∷ cs) = is_digit c && is_digits_z cs

abbrev pub is_date_end : Option (List ℕ) → Bool
is_date_end none = false
is_date_end (some []) = false
is_date_end (some (c ∷ [])) = c == b'Z'
is_date_end (some (c ∷ d ∷ cs)) = c == b'.' && is_fraction (d ∷ cs)

unfoldable pub is_date_time : List ℕ → Bool
is_date_time s = is_date_end (after_match date_classes s)

abbrev pub ends_with_slash : List ℕ → Bool
ends_with_slash [] = false
ends_with_slash (c ∷ []) = c == b'/'
ends_with_slash (c ∷ d ∷ cs) = ends_with_slash (d ∷ cs)

abbrev pub is_empty : List ℕ → Bool
is_empty [] = true
is_empty (c ∷ cs) = false

-- `/^https?:$/`, and `protocol === "http:" || protocol === "https:"`.
abbrev pub is_http : List ℕ → Bool
is_http s = equal_bytes s http_text || equal_bytes s https_text
