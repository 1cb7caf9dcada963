-- ===== src/Remote/Choice.antt =====
-- The tests of npm/src/remote.ts on metadata, endpoints and answers.
use denokv.Prelude.{
  ℕ, ◌+◌, Bool, true, false, not, ◌&&◌, ◌||◌, Option, none, some, List, [], ◌∷◌, any, leb, ltb,
  ◌==◌, if◌then◌else◌, Result, ok, err, no_endpoint, invalid_url,
}
use denokv.Prelude.Int.{ℤ, pos, negsuc}
use denokv.Bytes.{equal_bytes}
use denokv.KvConnect.Patterns.{slash}
use denokv.KvConnect.Metadata.{Consistency, strong, eventual, EndpointInfo, Url}
use denokv.KvConnect.{ReadStatus, sr_success, sr_read_disabled, sr_other, SnapshotReadOutput}

-- `str.substring(0, str.length - 1)`
abbrev pub drop_last : List ℕ → List ℕ
drop_last [] = []
drop_last (c ∷ []) = []
drop_last (c ∷ d ∷ cs) = c ∷ drop_last (d ∷ cs)

abbrev pub resolved : Option Url → Result (List ℕ)
resolved none = err invalid_url
resolved (some u) = ok (if equal_bytes u.pathname slash then drop_last u.href else u.href)

-- `supportedVersions.includes(version)`
abbrev pub includes : List ℕ → ℕ → Bool
includes vs n = any (λ v. v == n) vs

abbrev pub has_endpoints : List EndpointInfo → Bool
has_endpoints [] = false
has_endpoints (e ∷ es) = true

-- `expiresTime - Date.now() < 1000 * 60 * 5`; a comparison with NaN is false.
abbrev pub is_expiring : Option ℤ → ℕ → Bool
is_expiring none now = false
is_expiring (some (pos t)) now = ltb t (now + 300000)
is_expiring (some (negsuc t)) now = true

abbrev pub first_strong : List EndpointInfo → Option EndpointInfo
first_strong [] = none
first_strong (e ∷ es) =
    let rest = first_strong es in elim e.consistency [ strong ↦ some e | eventual ↦ rest ]

abbrev pub first_non_strong : List EndpointInfo → Option EndpointInfo
first_non_strong [] = none
first_non_strong (e ∷ es) =
    let rest = first_non_strong es in elim e.consistency [ strong ↦ rest | eventual ↦ some e ]

abbrev pub preferred : Option EndpointInfo → Option EndpointInfo → Option EndpointInfo
preferred none other = other
preferred (some e) other = some e

abbrev pub endpoint_url : Option EndpointInfo → Result (List ℕ)
endpoint_url none = err no_endpoint
endpoint_url (some e) = ok e.url

unfoldable pub choose_endpoint : Consistency → List EndpointInfo → Result (List ℕ)
choose_endpoint strong es = endpoint_url (first_strong es)
choose_endpoint eventual es = endpoint_url (preferred (first_non_strong es) (first_strong es))

abbrev pub is_read_disabled : ReadStatus → Bool
is_read_disabled sr_success = false
is_read_disabled sr_read_disabled = true
is_read_disabled sr_other = false

abbrev pub is_strong : Consistency → Bool
is_strong strong = true
is_strong eventual = false

-- `responseCheck`, with the version of `this.metadata`.
unfoldable pub response_check : Consistency → ℕ → SnapshotReadOutput → Bool
response_check consistency version res = not (
    leb 3 version && is_read_disabled res.status
    || res.read_disabled
    || is_strong consistency && not res.read_is_strongly_consistent)
