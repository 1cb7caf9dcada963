-- ===== src/Remote/Metadata.antt =====
-- The metadata that a KV of npm/src/remote.ts works with.
use denokv.Prelude.{
  ℕ, ◌≡◌, refl, ◌∙◌, subst, Bool, true, false, not, ◌&&◌, ◌||◌, Option, none, some, List, [], ◌∷◌,
  length, Bool-cases, inl, inr, ◌==◌, Result, ok, err, Ensures, guard-Ensures, bind-Ensures, ltb,
  no_supported_version, bad_token, no_endpoints, bad_path, bad_supported_versions, arith,
}
use denokv.InMemory.Mutate.Refines.{Result-cases}
use denokv.InMemory.Transaction.{after}
use denokv.ProtoBased.{ReadRange, AtomicWrite}
use denokv.KvConnect.Patterns.{is_empty}
use denokv.KvConnect.Metadata.{Consistency, strong, eventual, EndpointInfo, DatabaseMetadata}
use denokv.KvConnect.{Platform, SnapshotReadOutput, fetch_database_metadata}
use denokv.Remote.Choice.{includes, has_endpoints, resolved, response_check}
use denokv.KvKey.{TextCodec, KvKey}
use denokv.Remote.Watching.{open_stream}
use denokv.Remote.{
  RemoteServiceOptions, Config, RemoteKv, response_endpoints, accept_metadata,
  fetch_new_database_metadata, open_remote, are_versions, is_http_url, path_url, config_of,
  config_request, refresh, must_refresh, locate_endpoint_url, checked_response, read_once,
  snapshot_read, atomic_write,
}

-- A version that the client supports, a token, and an endpoint at least.
pub record IsUsable (c : Config) (m : DatabaseMetadata) : Type 0 where
  pub known : (m.version == 1 || m.version == 2 || m.version == 3) ≡ true
  pub supported : includes c.supported_versions m.version ≡ true
  pub token : is_empty m.token ≡ false
  pub endpoints : has_endpoints m.endpoints ≡ true

-- A state with usable metadata, whatever the result.
abbrev KeepsUsable : {A : Type 0} → Config → Result A × RemoteKv → Type 0
KeepsUsable c p = IsUsable c p.1.metadata

after-KeepsUsable :
    {A B : Type 0} (c : Config) (p : Result A × RemoteKv) (f : A → RemoteKv → Result B × RemoteKv)
    → KeepsUsable c p
    → ((a : A) (t : RemoteKv) → IsUsable c t.metadata → KeepsUsable c (f a t))
    → KeepsUsable c (after p f)
after-KeepsUsable c (err e, t) f h k = h
after-KeepsUsable c (ok a, t) f h k = k a t h

checked_response-KeepsUsable :
    (c : Config) (consistency : Consistency) (res : SnapshotReadOutput) (s : RemoteKv)
    → IsUsable c s.metadata
    → KeepsUsable c (checked_response consistency res s)
checked_response-KeepsUsable c consistency res s h =
    elim (Bool-cases (response_check consistency s.metadata.version res)) [
      | inl k ↦ rw k h
      | inr k ↦ rw k h
    ]

-- What replaces the metadata: a read, a write, and a stream that a watch opens, the first one or a
-- later one, with its `readDisabled`.
pub data Call : Type 0 where
  call_read : List ReadRange → Consistency → Call
  call_write : AtomicWrite → Call
  call_watch : List KvKey → Bool → Call

module _ (P : Platform) (text : TextCodec) where
  response_endpoints-has :
      (url : List ℕ) (es : List EndpointInfo)
      → Ensures (λ rs. has_endpoints rs ≡ has_endpoints es) (response_endpoints P url es)
  unfolding response_endpoints
  response_endpoints-has url [] = refl
  response_endpoints-has url (e ∷ es) =
      bind-Ensures (λ rs. has_endpoints rs ≡ true) (resolved (P.parse_url e.url (some url))) _
        λ u _.
          bind-Ensures (λ rs. has_endpoints rs ≡ true) (response_endpoints P url es) _
            λ rest _. refl

  accept_metadata-IsUsable :
      (c : Config) (m : DatabaseMetadata) (url : List ℕ)
      → Ensures (IsUsable c) (accept_metadata P c.supported_versions (m, url))
  unfolding accept_metadata
  accept_metadata-IsUsable c m url =
      guard-Ensures (IsUsable c)
        ((m.version == 1 || m.version == 2 || m.version == 3)
          && includes c.supported_versions m.version)
        no_supported_version _
        λ v. guard-Ensures (IsUsable c) (not (is_empty m.token)) bad_token _ λ t.
          guard-Ensures (IsUsable c) (has_endpoints m.endpoints) no_endpoints _ λ e.
            bind-Ensures (IsUsable c) (response_endpoints P url m.endpoints) _ λ es r. record {
              known = ground arith;
              supported = ground arith;
              token = ground arith;
              endpoints =
                  subst (Ensures (λ rs. has_endpoints rs ≡ has_endpoints m.endpoints)) r
                    (response_endpoints-has url m.endpoints)
                  ∙ e;
            }

  fetch-Ensures : (c : Config) (k : ℕ) → Ensures (IsUsable c) (fetch_new_database_metadata P c k)
  unfolding fetch_new_database_metadata
  fetch-Ensures c k =
      bind-Ensures (IsUsable c) (fetch_database_metadata P k c.max_retries (config_request c)) _
        λ answer _. accept_metadata-IsUsable c answer.0 answer.1

  fetch-IsUsable :
      (c : Config) (k : ℕ) (m : DatabaseMetadata)
      → fetch_new_database_metadata P c k ≡ ok m
      → IsUsable c m
  fetch-IsUsable c k m h = subst (Ensures (IsUsable c)) h (fetch-Ensures c k)

  refresh-KeepsUsable :
      (c : Config) (s : RemoteKv) → IsUsable c s.metadata → KeepsUsable c (refresh P c s)
  unfolding refresh
  refresh-KeepsUsable c s h =
      elim (Result-cases (fetch_new_database_metadata P c (length s.sent))) [
        | inl (m, e) ↦ rw e (fetch-IsUsable c (length s.sent) m e)
        | inr (x, e) ↦ rw e h
      ]

  locate-KeepsUsable :
      (c : Config) (consistency : Consistency) (force : Bool) (s : RemoteKv)
      → IsUsable c s.metadata
      → KeepsUsable c (locate_endpoint_url P c consistency force s)
  unfolding locate_endpoint_url
  locate-KeepsUsable c consistency force s h = elim (Bool-cases (must_refresh P force s)) [
    | inl k ↦ rw k (after-KeepsUsable c (refresh P c s) _ (refresh-KeepsUsable c s h) λ _ t u. u)
    | inr k ↦ rw k h
  ]

  read_once-KeepsUsable :
      (c : Config) (m : DatabaseMetadata) (req : List ReadRange) (consistency : Consistency)
      (s : RemoteKv)
      → IsUsable c s.metadata
      → KeepsUsable c (read_once P c m req consistency s)
  unfolding read_once
  read_once-KeepsUsable c m req consistency s h =
      after-KeepsUsable c (locate_endpoint_url P c consistency false s) _
        (locate-KeepsUsable c consistency false s h) λ url t u. u

  snapshot_read-KeepsUsable :
      (c : Config) (req : List ReadRange) (consistency : Consistency) (s : RemoteKv)
      → IsUsable c s.metadata
      → KeepsUsable c (snapshot_read P c req consistency s)
  unfolding snapshot_read
  snapshot_read-KeepsUsable c req consistency s h =
      after-KeepsUsable c (read_once P c s.metadata req consistency s) _
        (read_once-KeepsUsable c s.metadata req consistency s h)
        λ res t u. elim (Bool-cases (response_check consistency t.metadata.version res)) [
          | inl k ↦ rw k u
          | inr k ↦ rw k (
              after-KeepsUsable c (refresh P c t) _ (refresh-KeepsUsable c t u) λ _ v w.
                after-KeepsUsable c (read_once P c s.metadata req consistency v) _
                  (read_once-KeepsUsable c s.metadata req consistency v w)
                  λ res' x y. checked_response-KeepsUsable c consistency res' x y)
        ]

  atomic_write-KeepsUsable :
      (c : Config) (write : AtomicWrite) (s : RemoteKv)
      → IsUsable c s.metadata
      → KeepsUsable c (atomic_write P c write s)
  unfolding atomic_write
  atomic_write-KeepsUsable c write s h =
      after-KeepsUsable c (locate_endpoint_url P c strong false s) _
        (locate-KeepsUsable c strong false s h) λ url t u. u

  open_stream-KeepsUsable :
      (c : Config) (keys : List KvKey) (read_disabled : Bool) (s : RemoteKv)
      → IsUsable c s.metadata
      → KeepsUsable c (open_stream P text c keys read_disabled s)
  unfolding open_stream
  open_stream-KeepsUsable c keys read_disabled s h = elim (Bool-cases (ltb s.metadata.version 3)) [
    | inl k ↦ rw k h
    | inr k ↦ rw k (
        after-KeepsUsable c (locate_endpoint_url P c eventual read_disabled s) _
          (locate-KeepsUsable c eventual read_disabled s h) λ url t u. u)
  ]

  abbrev pub call : Config → Call → RemoteKv → RemoteKv
  call c (call_read req consistency) s = (snapshot_read P c req consistency s).1
  call c (call_write write) s = (atomic_write P c write s).1
  call c (call_watch keys read_disabled) s = (open_stream P text c keys read_disabled s).1

  -- The state after calls that may have failed.
  abbrev pub run_calls : Config → List Call → RemoteKv → RemoteKv
  run_calls c [] s = s
  run_calls c (d ∷ ds) s = run_calls c ds (call c d s)

  call-IsUsable :
      (c : Config) (d : Call) (s : RemoteKv)
      → IsUsable c s.metadata
      → IsUsable c (call c d s).metadata
  call-IsUsable c (call_read req consistency) s h = snapshot_read-KeepsUsable c req consistency s h
  call-IsUsable c (call_write write) s h = atomic_write-KeepsUsable c write s h
  call-IsUsable c (call_watch keys d) s h = open_stream-KeepsUsable c keys d s h

  run_calls-keep :
      (c : Config) (ds : List Call) (s : RemoteKv)
      → IsUsable c s.metadata
      → IsUsable c (run_calls c ds s).metadata
  run_calls-keep c [] s h = h
  run_calls-keep c (d ∷ ds) s h = run_calls-keep c ds (call c d s) (call-IsUsable c d s h)

  abbrev OpensUsable : Config × RemoteKv → Type 0
  OpensUsable (c, s) = IsUsable c s.metadata

  open_remote-IsUsable :
      (path : Option (List ℕ)) (o : RemoteServiceOptions)
      → Ensures OpensUsable (open_remote P path o)
  unfolding open_remote
  open_remote-IsUsable path o =
      guard-Ensures OpensUsable (are_versions o.supported_versions) bad_supported_versions _ λ _.
        bind-Ensures OpensUsable (path_url path) _ λ url _.
          guard-Ensures OpensUsable (is_http_url (P.parse_url url none)) bad_path _ λ _.
            bind-Ensures OpensUsable (fetch_new_database_metadata P (config_of url o) 0) _
              λ m f. fetch-IsUsable (config_of url o) 0 m f

  -- From a KV that was opened, any calls of `snapshotRead` and `atomicWrite` and any streams that its
  -- watches open, one after the other, in any order and whether they fail or not, lead to metadata with a known protocol version among the supported ones, a token that is not
  -- empty, and an endpoint.
  pub run_calls-IsUsable :
      (path : Option (List ℕ)) (o : RemoteServiceOptions) (c : Config) (s : RemoteKv)
      (ds : List Call)
      → open_remote P path o ≡ ok (c, s)
      → IsUsable c (run_calls c ds s).metadata
  run_calls-IsUsable path o c s ds h =
      run_calls-keep c ds s (subst (Ensures OpensUsable) h (open_remote-IsUsable path o))
