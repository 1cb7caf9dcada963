-- ===== src/InMemory/Commit/Stale.antt =====
-- A check of `commit` of npm/src/in_memory.ts with the versionstamp of an earlier commit, and the rows
-- that a commit writes.
use denokv.Prelude.{
  ℕ, ◌^◌, ◌<◌, ◌≡◌, ◌≢◌, refl, ap, subst, sym, ◌∙◌, Bool, true, false, Option, none, some, List, [],
  ◌∷◌, any, All, Result, ok, err, ◌>>=◌, inl, inr, Bool-cases, arith,
}
use denokv.Bytes.{equal_bytes}
use denokv.Bytes.Order.{equal_bytes_iff}
use denokv.KvKey.{KvKey, pack_key}
use denokv.KvUtil.Versionstamp.{pack_versionstamp, is_valid_versionstamp, unpack_versionstamp}
use denokv.KvUtil.Versionstamp.Laws.{unpack-pack_versionstamp}
use denokv.InMemory.Rows.{KvRow, find_row}
use denokv.InMemory.State.{next_version, Env, Store}
use denokv.InMemory.Transaction.{
  AtomicCheck, KvMutation, set, delete, combine, Enqueue, failed, committed, after, check_passes,
  copy_value, find_key, mutation_key, run_checks, enqueue_all,
}
use denokv.InMemory.Mutate.{Work, mutate_all}
use denokv.InMemory.Mutate.Refines.{
  Result-cases, RowMap, put, drop_key, Refines, returns, throws, spec_value, spec_mutate,
  spec_mutate_all, mutate_all-Refines,
}
use denokv.InMemory.Commit.{finish_commit, is_nonempty, commit_checked, commit}
use denokv.InMemory.Commit.Invariant.{IsStamped}

ok_value : {n m : ℕ} → ◌≡◌ {A = Result ℕ} (ok n) (ok m) → n ≡ m
ok_value e = ground arith

-- No row, or a row with this versionstamp.
abbrev pub IsFresh : {V : Type 0} → List ℕ → Option (KvRow V) → Type 0
IsFresh stamp none = Unit {0}
IsFresh stamp (some r) = r.versionstamp ≡ stamp

module _ {V : Type 0} (E : Env V) where
  -- Does a mutation touch the key?
  abbrev pub touches : List (KvMutation V) → List ℕ → Bool
  touches ms k = any (λ m. equal_bytes (pack_key E.text (mutation_key m)) k) ms

  IsFresh-put :
      (stamp k : List ℕ) (r : KvRow V) (f : RowMap V)
      → r.versionstamp ≡ stamp
      → (equal_bytes r.key_bytes k ≡ false → IsFresh stamp (f k))
      → IsFresh stamp (put r f k)
  IsFresh-put stamp k r f e h = elim (Bool-cases (equal_bytes r.key_bytes k)) [
    | inl same ↦ rw same e
    | inr other ↦ rw other (h other)
  ]

  IsFresh-drop :
      (stamp j k : List ℕ) (f : RowMap V)
      → (equal_bytes j k ≡ false → IsFresh stamp (f k))
      → IsFresh stamp (drop_key j f k)
  IsFresh-drop stamp j k f h = elim (Bool-cases (equal_bytes j k)) [
    | inl same ↦ rw same tt
    | inr other ↦ rw other (h other)
  ]

  -- The key is fresh in the map that a run of mutations gives.
  abbrev FreshIn : List ℕ → List ℕ → Result (RowMap V) → Type 0
  FreshIn stamp k (ok g) = IsFresh stamp (g k)
  FreshIn stamp k (err e) = Unit {0}

  -- A mutation makes its key fresh, and keeps any key fresh.
  spec_mutate-FreshIn :
      (stamp : List ℕ) (now : ℕ) (m : KvMutation V) (f : RowMap V) (k : List ℕ)
      → (equal_bytes (pack_key E.text (mutation_key m)) k ≡ false → IsFresh stamp (f k))
      → FreshIn stamp k (spec_mutate E stamp now m f)
  unfolding spec_mutate
  spec_mutate-FreshIn stamp now (set key v e) f k h = elim (Result-cases (copy_value E v)) [
    | inl (c, p) ↦ rw p (IsFresh-put stamp k _ f refl h)
    | inr (x, p) ↦ rw p tt
  ]
  spec_mutate-FreshIn stamp now (delete key) f k h = IsFresh-drop stamp _ k f h
  spec_mutate-FreshIn stamp now (combine op key o) f k h =
      elim (Result-cases (spec_value E op o (f (pack_key E.text key)))) [
        | inl (c, p) ↦ rw p (IsFresh-put stamp k _ f refl h)
        | inr (x, p) ↦ rw p tt
      ]

  bind-FreshIn :
      (stamp k : List ℕ) (r : Result (RowMap V)) (next : RowMap V → Result (RowMap V))
      → FreshIn stamp k r
      → ((g : RowMap V) → IsFresh stamp (g k) → FreshIn stamp k (next g))
      → FreshIn stamp k (r >>= next)
  bind-FreshIn stamp k (ok g) next h ih = ih g h
  bind-FreshIn stamp k (err e) next h ih = tt

  bind-FreshIn_any :
      (stamp k : List ℕ) (r : Result (RowMap V)) (next : RowMap V → Result (RowMap V))
      → ((g : RowMap V) → FreshIn stamp k (next g))
      → FreshIn stamp k (r >>= next)
  bind-FreshIn_any stamp k (ok g) next ih = ih g
  bind-FreshIn_any stamp k (err e) next ih = tt

  spec_mutate_all-FreshIn :
      (stamp : List ℕ) (now : ℕ) (ms : List (KvMutation V)) (f : RowMap V) (k : List ℕ)
      → (touches ms k ≡ false → IsFresh stamp (f k))
      → FreshIn stamp k (spec_mutate_all E stamp now ms f)
  unfolding spec_mutate_all
  spec_mutate_all-FreshIn stamp now [] f k h = h refl
  spec_mutate_all-FreshIn stamp now (m ∷ ms) f k h = elim (Bool-cases (touches ms k)) [
    | inl later ↦
        bind-FreshIn_any stamp k (spec_mutate E stamp now m f) (spec_mutate_all E stamp now ms)
          (λ g. spec_mutate_all-FreshIn stamp now ms g k (λ e. cc))
    | inr never ↦
        bind-FreshIn stamp k (spec_mutate E stamp now m f) (spec_mutate_all E stamp now ms)
          (spec_mutate-FreshIn stamp now m f k (λ e. h (rw (e, never) refl)))
          (λ g fresh. spec_mutate_all-FreshIn stamp now ms g k (λ _. fresh))
  ]

  from_Refines :
      (stamp k : List ℕ) {r : Result (RowMap V)} {p : Result (Unit {0}) × Work E}
      → Refines E r p
      → FreshIn stamp k r
      → p.0 ≡ ok tt
      → IsFresh stamp (E.tree.find p.1.rows k)
  from_Refines stamp k (returns sh) h e = rw (sh.at_key k) h
  from_Refines stamp k throws h e = cc

  same_rows :
      (r : Result (Unit {0})) (s : Store E) (stamp : List ℕ)
      → (after {A = Unit {0}} (r, s) (λ _ t. (ok (committed stamp), t))).1 ≡ s
  same_rows (ok a) s stamp = refl
  same_rows (err e) s stamp = refl

  rows-finish_commit :
      (now : ℕ) (stamp : List ℕ) (b : Bool) (additional min_expires : Option ℕ) (ids : List ℕ)
      (s : Store E)
      → (finish_commit E now stamp b additional min_expires ids s).1.rows ≡ s.rows
  unfolding finish_commit
  rows-finish_commit now stamp b additional min_expires ids s =
      ap (λ (t : Store E). t.rows) (same_rows _ _ stamp)

  -- After the mutations a key that they touch is fresh, if the commit did not throw.
  commit_checked-IsFresh :
      (now : ℕ) (ms : List (KvMutation V)) (es : List (Enqueue V)) (additional : Option ℕ)
      (s : Store E) (k st : List ℕ)
      → touches ms k ≡ true
      → (commit_checked E now ms es additional s).0 ≡ ok (committed st)
      → IsFresh
          (pack_versionstamp (next_version s.version))
          (E.tree.find (commit_checked E now ms es additional s).1.rows k)
  unfolding commit_checked
  commit_checked-IsFresh now ms es additional s k st touched =
      go (enqueue_all E now es (record s { version = next_version s.version }))
    where
      stamp : List ℕ
      stamp = pack_versionstamp (next_version s.version)

      done : Store E → Result (Unit {0}) × Work E
      done t =
          mutate_all E stamp now t.watches ms
            (record { rows = t.rows; min_expires = none; watch_ids = [] })

      fresh : (t : Store E) → (done t).0 ≡ ok tt → IsFresh stamp (E.tree.find (done t).1.rows k)
      fresh t =
          from_Refines stamp k
            (mutate_all-Refines E stamp now t.watches ms
              (record { rows = t.rows; min_expires = none; watch_ids = [] }) (E.tree.find t.rows)
              (record { at_key = λ j. refl }))
            (spec_mutate_all-FreshIn stamp now ms (E.tree.find t.rows) k (λ e. cc))

      finish :
          (t : Store E) (r : Result (Unit {0})) (w : Work E)
          → (r ≡ ok tt → IsFresh stamp (E.tree.find w.rows k))
          → (after {A = Unit {0}}
              (r, record t { rows = w.rows })
              λ _ u.
                finish_commit E now stamp
                  (is_nonempty E es)
                  additional
                  w.min_expires
                  w.watch_ids
                  u).0
            ≡ ok (committed st)
          → IsFresh stamp (
              E.tree.find
                (after {A = Unit {0}}
                  (r, record t { rows = w.rows })
                  λ _ u.
                    finish_commit E now stamp
                      (is_nonempty E es)
                      additional
                      w.min_expires
                      w.watch_ids
                      u).1.rows
                k)
      finish t (ok a) w h e =
          rw
            (rows-finish_commit now stamp (is_nonempty E es) additional w.min_expires w.watch_ids
              (record t { rows = w.rows }))
            (h refl)
      finish t (err x) w h e = cc

      go :
          (p : Result (Unit {0}) × Store E)
          → (after p λ _ t.
              after {A = Unit {0}}
                ((done t).0, record t { rows = (done t).1.rows })
                λ _ u.
                  finish_commit E now stamp
                    (is_nonempty E es)
                    additional
                    (done t).1.min_expires
                    (done t).1.watch_ids
                    u).0
            ≡ ok (committed st)
          → IsFresh stamp (
              E.tree.find
                (after p λ _ t.
                  after {A = Unit {0}}
                    ((done t).0, record t { rows = (done t).1.rows })
                    λ _ u.
                      finish_commit E now stamp
                        (is_nonempty E es)
                        additional
                        (done t).1.min_expires
                        (done t).1.watch_ids
                        u).1.rows
                k)
      go (ok a, t) e = finish t (done t).0 (done t).1 (fresh t) e
      go (err x, t) e = cc

  pub find_row-IsStamped :
      (n : ℕ) (k : List ℕ) (rs : List (KvRow V)) (r : KvRow V)
      → All (IsStamped n) rs
      → find_row k rs ≡ some r
      → IsStamped n r
  unfolding find_row
  find_row-IsStamped n k [] r a e = absurd (ground arith)
  find_row-IsStamped n k (x ∷ rs) r a e = elim (Bool-cases (equal_bytes x.key_bytes k)) [
    | inl same ↦
        let e' : some x ≡ some r = rw same at e in let p : x ≡ r = cc in subst (IsStamped n) p a.0
    | inr other ↦ find_row-IsStamped n k rs r a.1 (rw other at e)
  ]

  pub stamps_differ : (n m : ℕ) → n < m → m < 10 ^ 16 → pack_versionstamp m ≢ pack_versionstamp n
  stamps_differ n m h small e = omega (
    arith,
    ok_value (
        sym (unpack-pack_versionstamp m small).1
        ∙ ap unpack_versionstamp e
        ∙ (unpack-pack_versionstamp n (omega arith)).1),
  )

  -- No row, or one with another versionstamp.
  abbrev pub DiffersFrom : List ℕ → Option (KvRow V) → Type 0
  DiffersFrom old none = Unit {0}
  DiffersFrom old (some r) = r.versionstamp ≢ old

  stale_check :
      (old : List ℕ) (found : Option (KvRow V))
      → DiffersFrom old found
      → check_passes (some old) found ≡ false
  stale_check old none h = refl
  stale_check old (some r) h = ground (arith, equal_bytes_iff r.versionstamp old)

  pub stale_rejected :
      (now : ℕ) (checks : List AtomicCheck) (ms : List (KvMutation V)) (es : List (Enqueue V))
      (additional : Option ℕ) (s : Store E) (key : KvKey) (old : List ℕ)
      → is_valid_versionstamp old ≡ true
      → DiffersFrom old (find_key E s.rows key)
      → commit E now (record { key = key; versionstamp = some old } ∷ checks) ms es additional s
        ≡ (ok failed, s)
  unfolding commit run_checks
  stale_rejected now checks ms es additional s key old valid differs =
      rw (valid, stale_check old (find_key E s.rows key) differs) refl

  pub commit-IsFresh :
      (now : ℕ) (checks : List AtomicCheck) (ms : List (KvMutation V)) (es : List (Enqueue V))
      (additional : Option ℕ) (s : Store E) (k st : List ℕ)
      → touches ms k ≡ true
      → (commit E now checks ms es additional s).0 ≡ ok (committed st)
      → IsFresh
          (pack_versionstamp (next_version s.version))
          (E.tree.find (commit E now checks ms es additional s).1.rows k)
  unfolding commit
  commit-IsFresh now checks ms es additional s k st touched =
      elim (Result-cases (run_checks E s.rows checks)) [
        | inl (true, p) ↦ rw p (commit_checked-IsFresh now ms es additional s k st touched)
        | inl (false, p) ↦ rw p (λ e. cc)
        | inr (x, p) ↦ rw p (λ e. cc)
      ]
