-- ===== src/Remote/Endpoint.antt =====
-- The endpoint that npm/src/remote.ts sends a request to.
use denokv.Prelude.{
  ℕ, ◌≡◌, ◌⊎◌, refl, ap, sym, ◌∙◌, subst, Bool, true, false, Option, none, some, List, [], ◌∷◌, All,
  length, Bool-cases, Option-cases, inl, inr, if◌then◌else◌, Result, ok, err, arith,
}
use denokv.InMemory.Transaction.{after}
use denokv.KvConnect.Metadata.{Consistency, strong, eventual, EndpointInfo, DatabaseMetadata}
use denokv.KvConnect.{Platform}
use denokv.Remote.Choice.{first_strong, first_non_strong, preferred, endpoint_url, choose_endpoint}
use denokv.Remote.{
  Config, RemoteKv, with_metadata, config_request, must_refresh, refresh,
  fetch_new_database_metadata, locate_endpoint_url,
}

abbrev pub IsIn : EndpointInfo → List EndpointInfo → Type 0
IsIn e [] = ⊥
IsIn e (f ∷ es) = (f ≡ e) ⊎ IsIn e es

abbrev pub AreStrong : List EndpointInfo → Type 0
AreStrong es = All (λ e. e.consistency ≡ strong) es

-- Where a request may go: a strong endpoint, or for an eventual read any if all of them are strong.
abbrev pub IsChoice : Consistency → EndpointInfo → List EndpointInfo → Type 0
IsChoice strong e es = e.consistency ≡ strong
IsChoice eventual e es = (e.consistency ≡ eventual) ⊎ AreStrong es

first_strong_lem :
    (es : List EndpointInfo) (e : EndpointInfo)
    → first_strong es ≡ some e
    → IsIn e es × (e.consistency ≡ strong)
first_strong_lem [] e h = absurd (ground arith)
first_strong_lem (f ∷ es) e h = ground (arith, first_strong_lem es e)

first_non_strong_lem :
    (es : List EndpointInfo) (e : EndpointInfo)
    → first_non_strong es ≡ some e
    → IsIn e es × (e.consistency ≡ eventual)
first_non_strong_lem [] e h = absurd (ground arith)
first_non_strong_lem (f ∷ es) e h = ground (arith, first_non_strong_lem es e)

no_eventual : (es : List EndpointInfo) → first_non_strong es ≡ none → AreStrong es
no_eventual [] h = tt
no_eventual (f ∷ es) h = ground (arith, no_eventual es)

-- The endpoint that is chosen.
abbrev pub Chosen : Consistency → List EndpointInfo → List ℕ → Type 0
Chosen consistency es url =
    (e : EndpointInfo) × IsIn e es × (e.url ≡ url) × IsChoice consistency e es

endpoint_url-some :
    (o : Option EndpointInfo) (url : List ℕ)
    → endpoint_url o ≡ ok url
    → (e : EndpointInfo) × (o ≡ some e) × (e.url ≡ url)
endpoint_url-some none url h = absurd (ground arith)
endpoint_url-some (some e) url h = (e, refl, ground arith)

choose_endpoint-Chosen :
    (consistency : Consistency) (es : List EndpointInfo) (url : List ℕ)
    → choose_endpoint consistency es ≡ ok url
    → Chosen consistency es url
unfolding choose_endpoint
choose_endpoint-Chosen strong es url h =
    let (e, f, u) = endpoint_url-some (first_strong es) url h in
    let (i, s) = first_strong_lem es e f in (e, i, u, s)
choose_endpoint-Chosen eventual es url h = elim (Option-cases (first_non_strong es)) [
  | inl n ↦
      let (e, f, u) =
        endpoint_url-some (first_strong es) url
          (subst (λ o. endpoint_url (preferred o (first_strong es)) ≡ ok url) n h) in
      let (i, s) = first_strong_lem es e f in (e, i, u, inr (no_eventual es n))
  | inr (e, n) ↦
      let (i, v) = first_non_strong_lem es e n in
      (
        e,
        i,
        ground (arith, subst (λ o. endpoint_url (preferred o (first_strong es)) ≡ ok url) n h),
        inl v,
      )
]

after-ok :
    {A B S : Type 0} (p : Result A × S) (f : A → S → Result B × S) (b : B) (t : S)
    → after p f ≡ (ok b, t)
    → (a : A) × (s : S) × (p ≡ (ok a, s)) × (f a s ≡ (ok b, t))
after-ok (ok a, s) f b t h = (a, s, refl, h)
after-ok (err e, s) f b t h = absurd (ground arith)

module _ (P : Platform) (c : Config) where
  refresh-ok :
      (s t : RemoteKv)
      → refresh P c s ≡ (ok tt, t)
      → fetch_new_database_metadata P c (length s.sent) ≡ ok t.metadata
  unfolding refresh
  refresh-ok s t h = fetched (fetch_new_database_metadata P c (length s.sent)) h
    where
      fetched :
          (r : Result DatabaseMetadata)
          → with_metadata r (record s { sent = config_request c ∷ s.sent }) ≡ (ok tt, t)
          → r ≡ ok t.metadata
      fetched (ok m) e = ground arith
      fetched (err m) e = absurd (ground arith)

  -- The metadata is as it was and need not be refreshed, or it was fetched.
  abbrev pub IsCurrent : Bool → RemoteKv → RemoteKv → Type 0
  IsCurrent force s t =
      ((must_refresh P force s ≡ false) × (t ≡ s))
      ⊎ ((must_refresh P force s ≡ true)
          × (fetch_new_database_metadata P c (length s.sent) ≡ ok t.metadata))

  -- A URL that `locateEndpointUrl` returns is that of an endpoint of the metadata that the KV then
  -- has. The endpoint is strong for strong requests; for eventual requests it is strong only if all
  -- endpoints are. The metadata is the one from before only if no refetch is forced and it does not
  -- expire within five minutes; else it was fetched by this call.
  pub locate_endpoint_url-Chosen :
      (consistency : Consistency) (force : Bool) (s t : RemoteKv) (url : List ℕ)
      → locate_endpoint_url P c consistency force s ≡ (ok url, t)
      → Chosen consistency t.metadata.endpoints url × IsCurrent force s t
  unfolding locate_endpoint_url
  locate_endpoint_url-Chosen consistency force s t url h =
      let (_, u, p, q) =
        after-ok (if must_refresh P force s then refresh P c s else (ok tt, s)) _ url t h in
      let same : u ≡ t = ap (λ r. r.1) q in
      let found : choose_endpoint consistency u.metadata.endpoints ≡ ok url = ap (λ r. r.0) q in
      (
        choose_endpoint-Chosen consistency t.metadata.endpoints url
            (subst (λ v. choose_endpoint consistency v.metadata.endpoints ≡ ok url) same found),
        elim (Bool-cases (must_refresh P force s)) [
          | inl k ↦ inr (
            k,
            refresh-ok s t (
                subst (λ v. refresh P c s ≡ (ok tt, v)) same
                  (subst (λ b. (if b then refresh P c s else (ok tt, s)) ≡ (ok tt, u)) k p)),
          )
          | inr k ↦ inl (
            k,
            sym (
                ap (λ r. r.1)
                  (subst (λ b. (if b then refresh P c s else (ok tt, s)) ≡ (ok tt, u)) k p)
                ∙ same),
          )
        ],
      )
