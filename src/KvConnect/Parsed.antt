-- ===== src/KvConnect/Parsed.antt =====
-- A parsed JSON text, and the tests on it: `isRecord` of npm/src/check.ts, and those of
-- npm/src/kv_connect_api.ts. A test of the source that makes an `unknown` value a typed one gives
-- this value.
use denokv.Prelude.{
  ℕ, Bool, true, false, ◌&&◌, ◌||◌, Option, none, some, List, [], ◌∷◌, if◌then◌else◌, Result, ok,
  err, bad_database_metadata,
}
use denokv.Bytes.{equal_bytes}

-- What `JSON.parse` gives. The names of an object are distinct.
mutual
  pub data Json : Type 0 where
    json_null : Json
    json_bool : Bool → Json
    json_nat : ℕ → Json
    json_other_number : Json
    json_string : List ℕ → Json
    json_array : Items → Json
    json_object : Fields → Json

  pub data Items : Type 0 where
    no_items : Items
    item : Json → Items → Items

  pub data Fields : Type 0 where
    no_fields : Fields
    field : List ℕ → Json → Fields → Fields

abbrev pub Name : Type 0
Name = List ℕ

-- `obj.name`; `none` is `undefined`.
abbrev pub field_at : Name → Fields → Option Json
field_at n no_fields = none
field_at n (field m j fs) = let rest = field_at n fs in if equal_bytes m n then some j else rest

abbrev pub is_one_of : Name → List Name → Bool
is_one_of n [] = false
is_one_of n (m ∷ ms) = equal_bytes n m || is_one_of n ms

-- `Object.keys(rest).length === 0`, where `rest` is without these names.
abbrev pub no_others : List Name → Fields → Bool
no_others ns no_fields = true
no_others ns (field m j fs) = is_one_of m ns && no_others ns fs

abbrev pub constructor_name : Name
constructor_name = b'c' ∷ b'o' ∷ b'n' ∷ b's' ∷ b't' ∷ b'r' ∷ b'u' ∷ b'c' ∷ b't' ∷ b'o' ∷ b'r' ∷ []

abbrev pub url_name : Name
url_name = b'u' ∷ b'r' ∷ b'l' ∷ []

abbrev pub consistency_name : Name
consistency_name = b'c' ∷ b'o' ∷ b'n' ∷ b's' ∷ b'i' ∷ b's' ∷ b't' ∷ b'e' ∷ b'n' ∷ b'c' ∷ b'y' ∷ []

abbrev pub version_name : Name
version_name = b'v' ∷ b'e' ∷ b'r' ∷ b's' ∷ b'i' ∷ b'o' ∷ b'n' ∷ []

abbrev pub database_id_name : Name
database_id_name = b'd' ∷ b'a' ∷ b't' ∷ b'a' ∷ b'b' ∷ b'a' ∷ b's' ∷ b'e' ∷ b'I' ∷ b'd' ∷ []

abbrev pub endpoints_name : Name
endpoints_name = b'e' ∷ b'n' ∷ b'd' ∷ b'p' ∷ b'o' ∷ b'i' ∷ b'n' ∷ b't' ∷ b's' ∷ []

abbrev pub token_name : Name
token_name = b't' ∷ b'o' ∷ b'k' ∷ b'e' ∷ b'n' ∷ []

abbrev pub expires_at_name : Name
expires_at_name = b'e' ∷ b'x' ∷ b'p' ∷ b'i' ∷ b'r' ∷ b'e' ∷ b's' ∷ b'A' ∷ b't' ∷ []

-- The fields of an `isRecord`: a field `constructor` would hide that of the class.
abbrev pub is_record : Json → Result Fields
is_record (json_object fs) = elim (field_at constructor_name fs) [
  | none ↦ ok fs
  | some j ↦ err bad_database_metadata
]
is_record json_null = err bad_database_metadata
is_record (json_bool b) = err bad_database_metadata
is_record (json_nat n) = err bad_database_metadata
is_record json_other_number = err bad_database_metadata
is_record (json_string s) = err bad_database_metadata
is_record (json_array js) = err bad_database_metadata

-- `typeof value === "string"`, and `Array.isArray(value)`.
abbrev pub is_string : Option Json → Result (List ℕ)
is_string (some (json_string s)) = ok s
is_string _ = err bad_database_metadata

abbrev pub is_array : Option Json → Result Items
is_array (some (json_array js)) = ok js
is_array _ = err bad_database_metadata
