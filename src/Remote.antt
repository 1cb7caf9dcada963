-- ===== src/Remote.antt =====
-- npm/src/remote.ts: a KV behind the KV Connect protocol.
pub mod Choice
pub mod Checked
pub mod Requests
pub mod Metadata
pub mod Endpoint
pub mod Watching
use denokv.Prelude.{
  ℕ, suc, ◌+◌, Bool, true, false, not, ◌&&◌, ◌||◌, Option, none, some, List, [], ◌∷◌, ◌++◌, length,
  all, any, leb, ltb, ◌==◌, if◌then◌else◌, Result, ok, err, ◌>>=◌, ◌>>◌, guard, bad_path,
  bad_supported_versions, no_supported_version, bad_token, no_endpoints, no_endpoint, invalid_url,
  response_checks_failed, listen_queue_unsupported,
}
use denokv.Prelude.Int.{ℤ, pos, negsuc}
use denokv.Bytes.{equal_bytes}
use denokv.InMemory.Transaction.{after}
use denokv.ProtoBased.{ReadRange, AtomicWrite, WriteStatus, traverse}
use denokv.KvConnect.Patterns.{is_http, is_empty, slash}
use denokv.KvConnect.Metadata.{Consistency, strong, eventual, EndpointInfo, DatabaseMetadata, Url}
use denokv.Remote.Choice.{
  resolved, includes, has_endpoints, is_expiring, choose_endpoint, response_check,
}
use denokv.KvConnect.{
  HttpRequest, ReadStatus, sr_success, sr_read_disabled, sr_other, SnapshotReadOutput, Platform,
  metadata_request, protobuf_request, fetch_database_metadata, fetch_snapshot_read,
  fetch_atomic_write,
}

-- The options that the checks and the requests read.
pub record RemoteServiceOptions : Type 0 where
  pub access_token : List ℕ
  pub max_retries : Option ℕ
  pub supported_versions : Option (List ℕ)

-- The fields of the class that do not change.
pub record Config : Type 0 where
  pub url : List ℕ
  pub access_token : List ℕ
  pub max_retries : ℕ
  pub supported_versions : List ℕ

-- The field that changes, and the requests so far, the newest first. Retries of one request count
-- once.
pub record RemoteKv : Type 0 where
  pub metadata : DatabaseMetadata
  pub sent : List HttpRequest

-- `/snapshot_read`, `/atomic_write` and `/watch`.
abbrev pub snapshot_read_path : List ℕ
snapshot_read_path =
    b'/' ∷ b's' ∷ b'n' ∷ b'a' ∷ b'p' ∷ b's' ∷ b'h' ∷ b'o' ∷ b't' ∷ b'_' ∷ b'r' ∷ b'e' ∷ b'a' ∷ b'd'
    ∷ []

abbrev pub atomic_write_path : List ℕ
atomic_write_path =
    b'/' ∷ b'a' ∷ b't' ∷ b'o' ∷ b'm' ∷ b'i' ∷ b'c' ∷ b'_' ∷ b'w' ∷ b'r' ∷ b'i' ∷ b't' ∷ b'e' ∷ []

abbrev pub or_default : {A : Type 0} → Option A → A → A
or_default none a = a
or_default (some b) a = b

-- `Number.isSafeInteger(v) && v > 0`
abbrev pub are_versions : Option (List ℕ) → Bool
are_versions none = true
are_versions (some vs) = all (λ v. ltb 0 v && leb v 9007199254740991) vs

abbrev pub config_of : List ℕ → RemoteServiceOptions → Config
config_of url o = record {
  url = url;
  access_token = o.access_token;
  max_retries = or_default o.max_retries 10;
  supported_versions = or_default o.supported_versions (1 ∷ 2 ∷ 3 ∷ []);
}

-- `url === undefined`
abbrev pub path_url : Option (List ℕ) → Result (List ℕ)
path_url none = err bad_path
path_url (some u) = ok u

abbrev pub is_http_url : Option Url → Bool
is_http_url none = false
is_http_url (some u) = is_http u.protocol

-- The request that `protobuf_request` makes with the metadata of a closure.
abbrev pub request_with : DatabaseMetadata → List ℕ → List ℕ → HttpRequest
request_with m url bytes = protobuf_request url m.token m.database_id bytes m.version

-- `listenQueue_`
abbrev pub listen_queue_ : Result (Unit {0})
listen_queue_ = err listen_queue_unsupported

abbrev pub config_request : Config → HttpRequest
config_request c = metadata_request c.url c.access_token c.supported_versions

abbrev pub with_metadata : Result DatabaseMetadata → RemoteKv → Result (Unit {0}) × RemoteKv
with_metadata (err e) s = (err e, s)
with_metadata (ok m) s = (ok tt, record s { metadata = m })

abbrev pub checked_response :
    Consistency → SnapshotReadOutput → RemoteKv → Result SnapshotReadOutput × RemoteKv
checked_response consistency res s =
    if response_check consistency s.metadata.version res
    then (ok res, s)
    else (err response_checks_failed, s)

module _ (P : Platform) where
  -- The endpoints of metadata, resolved against the URL of the response.
  unfoldable pub response_endpoints : List ℕ → List EndpointInfo → Result (List EndpointInfo)
  response_endpoints response_url [] = ok []
  response_endpoints response_url (e ∷ es) = do
    url ← resolved (P.parse_url e.url (some response_url))
    rest ← response_endpoints response_url es
    ok (record { url = url; consistency = e.consistency } ∷ rest)

  -- What `fetchNewDatabaseMetadata` does with the metadata that it fetched.
  unfoldable pub accept_metadata : List ℕ → DatabaseMetadata × List ℕ → Result DatabaseMetadata
  accept_metadata supported (m, response_url) = do
    guard ((m.version == 1 || m.version == 2 || m.version == 3) && includes supported m.version)
        no_supported_version
    guard (not (is_empty m.token)) bad_token
    guard (has_endpoints m.endpoints) no_endpoints
    es ← response_endpoints response_url m.endpoints
    ok (record m { endpoints = es })

  unfoldable pub fetch_new_database_metadata : Config → ℕ → Result DatabaseMetadata
  fetch_new_database_metadata c k = do
    answer ← fetch_database_metadata P k c.max_retries (config_request c)
    accept_metadata c.supported_versions answer

  -- `RemoteKv.of`
  unfoldable pub open_remote : Option (List ℕ) → RemoteServiceOptions → Result (Config × RemoteKv)
  open_remote path o = do
    guard (are_versions o.supported_versions) bad_supported_versions
    url ← path_url path
    guard (is_http_url (P.parse_url url none)) bad_path
    m ← fetch_new_database_metadata (config_of url o) 0
    ok (config_of url o, record { metadata = m; sent = config_request (config_of url o) ∷ [] })

  -- `this.metadata = await fetchNewDatabaseMetadata(…)`
  unfoldable pub refresh : Config → RemoteKv → Result (Unit {0}) × RemoteKv
  refresh c s =
      with_metadata (fetch_new_database_metadata c (length s.sent))
        (record s { sent = config_request c ∷ s.sent })

  abbrev pub must_refresh : Bool → RemoteKv → Bool
  must_refresh force s =
      force || is_expiring (P.date_millis s.metadata.expires_at) (P.now (length s.sent))

  unfoldable pub locate_endpoint_url :
      Config → Consistency → Bool → RemoteKv → Result (List ℕ) × RemoteKv
  locate_endpoint_url c consistency force s =
      after {B = List ℕ} (if must_refresh force s then refresh c s else (ok tt, s))
        λ _ t. (choose_endpoint consistency t.metadata.endpoints, t)

  -- The closure `read` of `snapshotRead`; `m` is the metadata that the method began with.
  unfoldable pub read_once :
      Config
      → DatabaseMetadata
      → List ReadRange
      → Consistency
      → RemoteKv
      → Result SnapshotReadOutput × RemoteKv
  read_once c m req consistency s =
      after {B = SnapshotReadOutput} (locate_endpoint_url c consistency false s) λ url t.
        let q = request_with m (url ++ snapshot_read_path) (P.encode_snapshot_read req) in
        (fetch_snapshot_read P (length t.sent) c.max_retries q, record t { sent = q ∷ t.sent })

  -- The second read, with the metadata fetched anew.
  abbrev pub read_again :
      Config
      → DatabaseMetadata
      → List ReadRange
      → Consistency
      → RemoteKv
      → Result SnapshotReadOutput × RemoteKv
  read_again c m req consistency s = after {B = SnapshotReadOutput} (refresh c s) λ _ t.
      after {B = SnapshotReadOutput} (read_once c m req consistency t)
        λ res u. checked_response consistency res u

  unfoldable pub snapshot_read :
      Config → List ReadRange → Consistency → RemoteKv → Result SnapshotReadOutput × RemoteKv
  snapshot_read c req consistency s =
      after {B = SnapshotReadOutput} (read_once c s.metadata req consistency s) λ res t.
        if response_check consistency t.metadata.version res
        then (ok res, t)
        else read_again c s.metadata req consistency t

  unfoldable pub atomic_write :
      Config → AtomicWrite → RemoteKv → Result (WriteStatus × List ℕ) × RemoteKv
  atomic_write c req s =
      after {B = WriteStatus × List ℕ} (locate_endpoint_url c strong false s) λ url t.
        let q = request_with s.metadata (url ++ atomic_write_path) (P.encode_atomic_write req) in
        (fetch_atomic_write P (length t.sent) c.max_retries q, record t { sent = q ∷ t.sent })
