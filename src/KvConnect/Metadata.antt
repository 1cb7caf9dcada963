-- ===== src/KvConnect/Metadata.antt =====
-- `isDatabaseMetadata` and its parts in npm/src/kv_connect_api.ts.
use denokv.Prelude.{
  ℕ, Bool, false, not, ◌&&◌, ◌||◌, Option, none, some, List, [], ◌∷◌, ◌++◌, ◌==◌, if◌then◌else◌,
  Result, ok, err, ◌>>=◌, ◌>>◌, guard, bad_database_metadata,
}
use denokv.Bytes.{equal_bytes}
use denokv.KvConnect.Parsed.{
  Json, Items, no_items, item, field_at, no_others, url_name, consistency_name, version_name,
  database_id_name, endpoints_name, token_name, expires_at_name, is_record, is_string, is_array,
  json_nat,
}
use denokv.KvConnect.Patterns.{
  is_uuid, is_date_time, ends_with_slash, is_empty, is_http, https_text, slash,
}

pub data Consistency : Type 0 where
  strong eventual : Consistency

pub record EndpointInfo : Type 0 where
  pub url : List ℕ
  pub consistency : Consistency

pub record DatabaseMetadata : Type 0 where
  pub version : ℕ
  pub database_id : List ℕ
  pub endpoints : List EndpointInfo
  pub token : List ℕ
  pub expires_at : List ℕ

-- The properties of a `URL` that the sources read.
pub record Url : Type 0 where
  pub href : List ℕ
  pub protocol : List ℕ
  pub pathname : List ℕ
  pub search : List ℕ
  pub hash : List ℕ

abbrev pub strong_text : List ℕ
strong_text = b's' ∷ b't' ∷ b'r' ∷ b'o' ∷ b'n' ∷ b'g' ∷ []

abbrev pub eventual_text : List ℕ
eventual_text = b'e' ∷ b'v' ∷ b'e' ∷ b'n' ∷ b't' ∷ b'u' ∷ b'a' ∷ b'l' ∷ []

-- `https://example.com`
abbrev pub example_base : List ℕ
example_base =
    https_text
    ++ (b'/' ∷ b'/' ∷ b'e' ∷ b'x' ∷ b'a' ∷ b'm' ∷ b'p' ∷ b'l' ∷ b'e' ∷ b'.' ∷ b'c' ∷ b'o' ∷ b'm'
        ∷ [])

abbrev pub is_version : Option Json → Result ℕ
is_version (some (json_nat n)) =
    if n == 1 || n == 2 || n == 3 then ok n else err bad_database_metadata
is_version _ = err bad_database_metadata

abbrev pub is_consistency : List ℕ → Result Consistency
is_consistency s =
    if equal_bytes s strong_text
    then ok strong
    else if equal_bytes s eventual_text
    then ok eventual
    else err bad_database_metadata

-- What `isValidEndpointUrl` tests of the parsed URL; `none` is an exception of `new URL`.
unfoldable pub is_endpoint : Option Url → Bool
is_endpoint none = false
is_endpoint (some u) =
    is_http u.protocol
    && (equal_bytes u.pathname slash
        || not (ends_with_slash u.pathname) && is_empty u.search && is_empty u.hash)

-- `parse_url url base` is `new URL(url, base)`, and `none` its exception.
module _ (parse_url : List ℕ → Option (List ℕ) → Option Url) where
  unfoldable pub is_valid_endpoint_url : List ℕ → Bool
  is_valid_endpoint_url url = is_endpoint (parse_url url (some example_base))

  unfoldable pub is_endpoint_info : Json → Result EndpointInfo
  is_endpoint_info j = do
    fs ← is_record j
    url ← is_string (field_at url_name fs)
    guard (is_valid_endpoint_url url) bad_database_metadata
    text ← is_string (field_at consistency_name fs)
    consistency ← is_consistency text
    guard (no_others (url_name ∷ consistency_name ∷ []) fs) bad_database_metadata
    ok (record { url = url; consistency = consistency })

  unfoldable pub are_endpoints : Items → Result (List EndpointInfo)
  are_endpoints no_items = ok []
  are_endpoints (item j js) = do e ← is_endpoint_info j; es ← are_endpoints js; ok (e ∷ es)

  unfoldable pub is_database_metadata : Json → Result DatabaseMetadata
  is_database_metadata j = do
    fs ← is_record j
    version ← is_version (field_at version_name fs)
    database_id ← is_string (field_at database_id_name fs)
    guard (is_uuid database_id) bad_database_metadata
    js ← is_array (field_at endpoints_name fs)
    endpoints ← are_endpoints js
    token ← is_string (field_at token_name fs)
    expires_at ← is_string (field_at expires_at_name fs)
    guard (is_date_time expires_at) bad_database_metadata
    guard
        (no_others
          (version_name ∷ database_id_name ∷ endpoints_name ∷ token_name ∷ expires_at_name ∷ []) fs)
        bad_database_metadata
    ok (record {
      version = version;
      database_id = database_id;
      endpoints = endpoints;
      token = token;
      expires_at = expires_at;
    })
