-- ===== src/KvConnect/Exchange.antt =====
-- What `fetchDatabaseMetadata` of npm/src/kv_connect_api.ts comes to.
use denokv.Prelude.{
  ℕ, ◌≡◌, refl, ap, ◌∙◌, ◌≤◌, ◌<◌, true, false, none, List, ◌==◌, inl, Result, ok, arith,
}
use denokv.Sleep.{returns}
use denokv.Sleep.Retries.{IsRetryable, last_answer, execute_with_retries_lem}
use denokv.KvConnect.Metadata.{DatabaseMetadata}
use denokv.KvConnect

-- The server answered with a status from 500 to 599, in a body that can be read.
abbrev pub IsServerError : Result KvConnect.HttpResponse → Type 0
IsServerError a =
    (r : KvConnect.HttpResponse) × (a ≡ ok r)
    × (KvConnect.is_server_error r.status ≡ true)
    × (r.broken ≡ none)

-- The server answered with metadata.
abbrev pub IsMetadata :
    KvConnect.Platform → Result KvConnect.HttpResponse → DatabaseMetadata → List ℕ → Type 0
IsMetadata P a m url =
    (r : KvConnect.HttpResponse) × (a ≡ ok r)
    × ((r.status == 200) ≡ true)
    × (KvConnect.is_json_type r.content_type ≡ true)
    × (r.broken ≡ none)
    × (KvConnect.read_metadata P r ≡ ok (m, url))

not_ok : (s : ℕ) → KvConnect.is_server_error s ≡ true → (s == 200) ≡ false
not_ok s h = ground arith

module _ (P : KvConnect.Platform) where
  attempt-server_error :
      (a : Result KvConnect.HttpResponse)
      → IsServerError a
      → IsRetryable (KvConnect.fetched a (KvConnect.metadata_attempt P))
  unfolding KvConnect.metadata_attempt
  attempt-server_error a (r, e, s, b) = rw (e, not_ok r.status s, b, s) tt

  attempt-metadata :
      (a : Result KvConnect.HttpResponse) (m : DatabaseMetadata) (url : List ℕ)
      → IsMetadata P a m url
      → KvConnect.fetched a (KvConnect.metadata_attempt P) ≡ returns (m, url)
  unfolding KvConnect.metadata_attempt
  attempt-metadata a m url (r, e, s, t, b, j) = rw (e, s, t, b, j) refl

  -- `fetchDatabaseMetadata` returns the metadata that the server sends in one of the first
  -- maxRetries + 1 attempts, and the URL of that response, if the server answered all attempts
  -- before with a status from 500 to 599.
  pub fetch_database_metadata-retried :
      (k max n : ℕ) (q : KvConnect.HttpRequest) (m : DatabaseMetadata) (url : List ℕ)
      → n ≤ max
      → ((i : ℕ) → i < n → IsServerError (P.fetch k i q))
      → IsMetadata P (P.fetch k n q) m url
      → KvConnect.fetch_database_metadata P k max q ≡ ok (m, url)
  unfolding KvConnect.fetch_database_metadata
  fetch_database_metadata-retried k max n q m url le before last =
      let done = attempt-metadata (P.fetch k n q) m url last in
      ap (λ a. KvConnect.answer_result a.0)
        (execute_with_retries_lem
          (λ i. KvConnect.fetched (P.fetch k i q) (KvConnect.metadata_attempt P)) max n le
          (λ i lt. attempt-server_error (P.fetch k i q) (before i lt)) (inl (rw done (λ h. h))))
      ∙ ap (λ o. KvConnect.answer_result (last_answer o)) done
