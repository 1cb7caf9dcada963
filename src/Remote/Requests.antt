-- ===== src/Remote/Requests.antt =====
-- The requests that the methods of npm/src/remote.ts send.
use denokv.Prelude.{
  ℕ, ◌≡◌, ◌⊎◌, ◌≤◌, ◌+◌, refl, ap, sym, ◌∙◌, Bool, false, List, [], ◌∷◌, ◌++◌, All, All-append,
  length, length-append, append_assoc, Bool-cases, inl, inr, Result, ok, err, arith,
}
use denokv.InMemory.Transaction.{after}
use denokv.ProtoBased.{ReadRange, AtomicWrite}
use denokv.KvConnect.Metadata.{Consistency, strong, DatabaseMetadata}
use denokv.KvConnect.{HttpRequest, Platform}
use denokv.Remote.Choice.{response_check}
use denokv.Remote.{
  Config, RemoteKv, must_refresh, refresh, request_with, config_request, with_metadata,
  fetch_new_database_metadata, locate_endpoint_url, read_once, snapshot_read, atomic_write,
}

module _ (P : Platform) (c : Config) (m : DatabaseMetadata) where
  -- A request for metadata, or one with the token, the database and the version of `m`.
  abbrev pub IsRequestOf : HttpRequest → Type 0
  IsRequestOf q =
      (q ≡ config_request c) ⊎ ((url : List ℕ) × (bytes : List ℕ) × (q ≡ request_with m url bytes))

  -- From `s` to `t` at most `n` requests are sent, all of them such.
  abbrev pub Sends : ℕ → RemoteKv → RemoteKv → Type 0
  Sends n s t =
      (new : List HttpRequest) × (t.sent ≡ new ++ s.sent) × (length new ≤ n) × All IsRequestOf new

  Sends-refl : (n : ℕ) (s : RemoteKv) → Sends n s s
  Sends-refl n s = ([], refl, omega arith, tt)

  Sends-trans : (i j : ℕ) (s t u : RemoteKv) → Sends i s t → Sends j t u → Sends (i + j) s u
  Sends-trans i j s t u (new, e, l, a) (later, f, k, b) = (
    later ++ new,
    f ∙ ap (λ q. later ++ q) e ∙ sym (append_assoc later new s.sent),
    omega (arith, length-append later new),
    All-append IsRequestOf later new b a,
  )

  after-Sends :
      {A B : Type 0} (i j : ℕ) (s : RemoteKv) (p : Result A × RemoteKv)
      (f : A → RemoteKv → Result B × RemoteKv)
      → Sends i s p.1
      → ((a : A) (t : RemoteKv) → Sends j t (f a t).1)
      → Sends (i + j) s (after p f).1
  after-Sends i j s (err e, t) f h k = Sends-trans i j s t t h (Sends-refl j t)
  after-Sends i j s (ok a, t) f h k = Sends-trans i j s t (f a t).1 h (k a t)

  refresh-Sends : (s : RemoteKv) → Sends 1 s (refresh P c s).1
  unfolding refresh
  refresh-Sends s = sends (fetch_new_database_metadata P c (length s.sent))
    where
      sends :
          (r : Result DatabaseMetadata)
          → Sends 1 s (with_metadata r (record s { sent = config_request c ∷ s.sent })).1
      sends (err e) = (config_request c ∷ [], refl, omega arith, (inl refl, tt))
      sends (ok n) = (config_request c ∷ [], refl, omega arith, (inl refl, tt))

  locate-Sends :
      (consistency : Consistency) (force : Bool) (s : RemoteKv)
      → Sends 1 s (locate_endpoint_url P c consistency force s).1
  unfolding locate_endpoint_url
  locate-Sends consistency force s = elim (Bool-cases (must_refresh P force s)) [
    | inl h ↦ rw h (after-Sends 1 0 s (refresh P c s) _ (refresh-Sends s) λ _ t. Sends-refl 0 t)
    | inr h ↦ rw h (Sends-refl 1 s)
  ]

  read_once-Sends :
      (req : List ReadRange) (consistency : Consistency) (s : RemoteKv)
      → Sends 2 s (read_once P c m req consistency s).1
  unfolding read_once
  read_once-Sends req consistency s =
      after-Sends 1 1 s (locate_endpoint_url P c consistency false s) _
        (locate-Sends consistency false s)
        λ url t. (_ ∷ [], refl, omega arith, (inr (_, _, refl), tt))

module _ (P : Platform) where
  -- `snapshotRead` makes five requests at most, however often the answer is refused, and
  -- `atomicWrite` two, where a request that `executeWithRetries` sends again counts as one. Each of them asks for metadata, or carries the token, the database id and the
  -- protocol version of the metadata that the KV had before the call, also when the metadata was
  -- fetched anew in between because it was about to expire or because reads were disabled.
  pub requests_of_first_metadata :
      (c : Config) (req : List ReadRange) (write : AtomicWrite) (consistency : Consistency)
      (s : RemoteKv)
      → Sends P c s.metadata 5 s (snapshot_read P c req consistency s).1
        × Sends P c s.metadata 2 s (atomic_write P c write s).1
  unfolding snapshot_read atomic_write
  requests_of_first_metadata c req write consistency s = (
    after-Sends P c s.metadata 2 3 s (read_once P c s.metadata req consistency s) _
        (read_once-Sends P c s.metadata req consistency s)
        (λ res t. elim (Bool-cases (response_check consistency t.metadata.version res)) [
          | inl h ↦ rw h (Sends-refl P c s.metadata 3 t)
          | inr h ↦ rw h (
              after-Sends P c s.metadata 1 2 t (refresh P c t) _ (refresh-Sends P c s.metadata t)
                λ _ u.
                  after-Sends P c s.metadata 2 0 u (read_once P c s.metadata req consistency u) _
                    (read_once-Sends P c s.metadata req consistency u)
                    λ res' v.
                      elim (Bool-cases (response_check consistency v.metadata.version res')) [
                        | inl k ↦ rw k (Sends-refl P c s.metadata 0 v)
                        | inr k ↦ rw k (Sends-refl P c s.metadata 0 v)
                      ])
        ]),
    after-Sends P c s.metadata 1 1 s (locate_endpoint_url P c strong false s) _
        (locate-Sends P c s.metadata strong false s)
        (λ url t. (_ ∷ [], refl, omega arith, (inr (_, _, refl), tt))),
  )
