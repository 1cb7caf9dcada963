-- ===== src/Examples/Keys.antt =====
-- The theorems on bytes and keys at concrete inputs.
use denokv.Prelude.{
  ℕ, ◌^◌, ◌<◌, ◌≤◌, ◌≡◌, ◌≢◌, refl, ◌↔◌, true, false, Option, List, [], ◌∷◌, ◌++◌, map, Ordering,
  All, ok, arith,
}
use denokv.Prelude.Int.{pos, negsuc}
use denokv.Bytes.{compare_bytes, compute_bigint_minimum_number_of_bytes}
use denokv.Bytes.Order.{lex, Before, compare_bytes-Before}
use denokv.Bytes.Width.{minimum_number_of_bytes-le_iff}
use denokv.Bytes.Reader.{ByteReader, IsValid, read, read_content, content, read-content}
use denokv.KvKey.{KvKey, bytes, string, number, bigint, boolean, pack_key, unpack_key}
use denokv.KvKey.Order.{compare_bigints, compare_parts, compare_keys}
use denokv.KvKey.Order.Keys.{HasSize, compare_bytes-pack_key}
use denokv.KvKey.Unpack.{Answers, unpack_key-Answers}
use denokv.KvKey.RoundTrip.{IsPackable, normal_part, unpack_key-pack_key, pack_key-append}
use denokv.KvKey.Oversize.{unpack_key_oversize}
use denokv.Examples.Platform.{codec}

compare_bytes-Before_example :
    ((compare_bytes (1 ∷ []) (1 ∷ 0 ∷ []) ≡ Ordering.lt) ↔ Before (1 ∷ []) (1 ∷ 0 ∷ []))
    × ((compare_bytes (1 ∷ []) (1 ∷ 0 ∷ []) ≡ Ordering.gt) ↔ Before (1 ∷ 0 ∷ []) (1 ∷ []))
    × ((compare_bytes (1 ∷ []) (1 ∷ 0 ∷ []) ≡ Ordering.eq)
        ↔ (◌≡◌ {A = List ℕ} (1 ∷ []) (1 ∷ 0 ∷ [])))
compare_bytes-Before_example = compare_bytes-Before (1 ∷ []) (1 ∷ 0 ∷ [])

minimum_number_of_bytes-le_iff_example :
    (compute_bigint_minimum_number_of_bytes 65536 ≤ 2) ↔ (65536 < 256 ^ 2)
minimum_number_of_bytes-le_iff_example = minimum_number_of_bytes-le_iff 65536 2

-- A reader that has one byte of its stream, and two chunks to come.
abbrev half_read : ByteReader
half_read = record { chunks = (2 ∷ []) ∷ (3 ∷ 4 ∷ []) ∷ []; remaining = 1 ∷ []; done = false }

half_read-IsValid : IsValid half_read
half_read-IsValid = record { ended = λ e. absurd (ground arith) }

read-content_example :
    (p : Option (List ℕ) × ByteReader) × (read (pos 3) half_read ≡ ok p)
    × (p.0 ≡ (read_content 3 (content half_read)).0)
    × (content p.1 ≡ (read_content 3 (content half_read)).1)
    × IsValid p.1
read-content_example = read-content 3 half_read half_read-IsValid

-- "a" and -300n.
abbrev lower_key : KvKey
lower_key = string (97 ∷ []) ∷ bigint (negsuc 299) ∷ []

-- "a", 65536n, 1.5 and true.
abbrev upper_key : KvKey
upper_key = string (97 ∷ []) ∷ bigint (pos 65536) ∷ number 0x3ff8_0000_0000_0000 ∷ boolean true ∷ []

lower_key_first : compare_keys codec lower_key upper_key ≡ Ordering.lt
unfolding compare_keys compare_parts compare_bigints lex
lower_key_first = refl

lower_key-HasSize : All HasSize lower_key
unfolding compute_bigint_minimum_number_of_bytes
lower_key-HasSize = (tt, (omega arith, tt))

upper_key-HasSize : All HasSize upper_key
unfolding compute_bigint_minimum_number_of_bytes
upper_key-HasSize = (tt, (omega arith, (tt, (tt, tt))))

compare_bytes-pack_key_example :
    compare_bytes (pack_key codec lower_key) (pack_key codec upper_key)
    ≡ compare_keys codec lower_key upper_key
compare_bytes-pack_key_example =
    compare_bytes-pack_key codec lower_key upper_key lower_key-HasSize upper_key-HasSize

unpack_key-Answers_example : Answers 1 (unpack_key codec (0x15 ∷ 7 ∷ 0x99 ∷ []))
unpack_key-Answers_example = unpack_key-Answers codec (0x15 ∷ 7 ∷ 0x99 ∷ [])

-- The parts "a", -300n, -0.5, the bytes 1, 0 and 255, and false.
abbrev some_key : KvKey
some_key =
    string (97 ∷ [])
    ∷ bigint (negsuc 299)
    ∷ number 0xbfe0_0000_0000_0000
    ∷ bytes (1 ∷ 0 ∷ 255 ∷ [])
    ∷ boolean false
    ∷ []

some_key-IsPackable : All IsPackable some_key
some_key-IsPackable = (
  (refl, refl),
  (
    (minimum_number_of_bytes-le_iff 300 255).1 (omega arith),
    (omega arith, ((omega arith, (omega arith, (omega arith, tt))), (tt, tt))),
  ),
)

unpack_key-pack_key_example :
    unpack_key codec (pack_key codec some_key) ≡ ok (map normal_part some_key)
unpack_key-pack_key_example = unpack_key-pack_key codec some_key some_key-IsPackable

pack_key-append_example :
    pack_key codec (some_key ++ (boolean true ∷ []))
    ≡ pack_key codec some_key ++ pack_key codec (boolean true ∷ [])
pack_key-append_example = pack_key-append codec some_key (boolean true ∷ [])

-- The prefix "a" and the key "a", -300n.
abbrev name_prefix : KvKey
name_prefix = string (97 ∷ []) ∷ []

irreflexive : (n : ℕ) → n < n → ⊥
irreflexive n h = omega arith

wider : (n : ℕ) → (n ≤ 255 → ⊥) → 256 ≤ n
wider n h = ground arith

large_width : 256 ≤ compute_bigint_minimum_number_of_bytes (2 ^ 2040)
large_width =
    wider (compute_bigint_minimum_number_of_bytes (2 ^ 2040))
      λ h. absurd (irreflexive (2 ^ 2040) ((minimum_number_of_bytes-le_iff (2 ^ 2040) 255).0 h))

unpack_key_oversize_example :
    unpack_key codec (pack_key codec (bigint (pos (2 ^ 2040)) ∷ []))
    ≢ ok (bigint (pos (2 ^ 2040)) ∷ [])
unpack_key_oversize_example = unpack_key_oversize codec (2 ^ 2040) large_width
