-- ===== src/InMemory/Commit/Plain.antt =====
-- Commits of npm/src/in_memory.ts without checks, and reading back what was set.
use denokv.Prelude.{
  ℕ, ◌≡◌, ◌≢◌, refl, ap, ◌∙◌, Bool, Option, none, some, List, [], ◌∷◌, Error, Result, ok, err,
  arith,
}
use denokv.Bytes.Order.{equal_bytes_refl}
use denokv.KvKey.{KvKey, pack_key}
use denokv.KvUtil.Value.{Value}
use denokv.KvUtil.Versionstamp.{pack_versionstamp}
use denokv.InMemory.Rows.{find_row, insert_row}
use denokv.InMemory.Rows.Laws.{find-replace}
use denokv.InMemory.State.{next_version, Env, Store}
use denokv.InMemory.Transaction.{
  KvMutation, set, Enqueue, CommitResult, failed, committed, after, copy_value, entry_of, get_one,
  run_checks, enqueue_all, expiry,
}
use denokv.InMemory.Mutate.{put_row, mutate_row, mutate_all}
use denokv.InMemory.Commit.{notify_all, finish_commit, is_nonempty, commit_checked, commit}

module _ {V : Type 0} (E : Env V) where
  -- Not `{ ok: false }`.
  data Succeeds : Result CommitResult × Store E → Type 0 where
    succeeds : {st : List ℕ} {s : Store E} → Succeeds (ok (committed st), s)
    throws : {e : Error} {s : Store E} → Succeeds (err e, s)

  after-Succeeds :
      {A : Type 0} (r : Result A × Store E) (f : A → Store E → Result CommitResult × Store E)
      → ((a : A) (s : Store E) → Succeeds (f a s))
      → Succeeds (after r f)
  after-Succeeds (ok a, s) f h = h a s
  after-Succeeds (err e, s) f h = throws

  finish_commit-Succeeds :
      (now : ℕ) (stamp : List ℕ) (b : Bool) (a m : Option ℕ) (ids : List ℕ) (s : Store E)
      → Succeeds (finish_commit E now stamp b a m ids s)
  unfolding finish_commit
  finish_commit-Succeeds now stamp b a m ids s = after-Succeeds _ _ (λ _ t. succeeds)

  commit_checked-Succeeds :
      (now : ℕ) (ms : List (KvMutation V)) (es : List (Enqueue V)) (a : Option ℕ) (s : Store E)
      → Succeeds (commit_checked E now ms es a s)
  unfolding commit_checked
  commit_checked-Succeeds now ms es a s =
      let stamp = pack_versionstamp (next_version s.version) in
      after-Succeeds {A = Unit {0}}
        (enqueue_all E now es (record s { version = next_version s.version })) _
        λ _ t.
          let done =
            mutate_all E stamp now t.watches ms
              (record { rows = t.rows; min_expires = none; watch_ids = [] }) in
          after-Succeeds {A = Unit {0}} (done.0, record t { rows = done.1.rows }) _
            λ _ u.
              finish_commit-Succeeds now stamp (is_nonempty E es) a done.1.min_expires
                done.1.watch_ids u

  not_failed : {r : Result CommitResult × Store E} → Succeeds r → r.0 ≢ ok failed
  not_failed succeeds e = ground arith
  not_failed throws e = ground arith

  -- A commit without checks never answers `{ ok: false }`: it succeeds or throws.
  pub commit-without_checks :
      (now : ℕ) (ms : List (KvMutation V)) (es : List (Enqueue V)) (a : Option ℕ) (s : Store E)
      → (commit E now [] ms es a s).0 ≢ ok failed
  unfolding commit run_checks
  commit-without_checks now ms es a s = not_failed (commit_checked-Succeeds now ms es a s)

  -- The rows after `finish_commit` are those before.
  finish_commit-rows :
      (now : ℕ) (stamp : List ℕ) (b : Bool) (a m : Option ℕ) (ids : List ℕ) (s : Store E)
      → (finish_commit E now stamp b a m ids s).1.rows ≡ s.rows
  unfolding finish_commit
  finish_commit-rows now stamp b a m ids s =
      after-rows (notify_all E s.rows ids s.watches).0 _ (λ _ t. (ok (committed stamp), t))
        (λ _ t. refl)
    where
      after-rows :
          {A : Type 0} (r : Result A) (t : Store E)
          (f : A → Store E → Result CommitResult × Store E)
          → ((x : A) (u : Store E) → (f x u).1.rows ≡ u.rows)
          → (after (r, t) f).1.rows ≡ t.rows
      after-rows (ok x) t f h = h x t
      after-rows (err e) t f h = refl

  put_row-find :
      (rows : E.tree.Tree) (k stamp : List ℕ) (v : Value V) (e : Option ℕ)
      → E.tree.find (put_row E (E.tree.remove rows k) k v stamp e) k
        ≡ some (record { key_bytes = k; value = v; versionstamp = stamp; expires = e })
  put_row-find rows k stamp v e =
      E.tree.find-values _ k
      ∙ ap (find_row k) (E.tree.values-insert _ _ ∙ ap (insert_row _) (E.tree.values-remove rows k))
      ∙ find-replace k (record { key_bytes = k; value = v; versionstamp = stamp; expires = e })
          (E.tree.values rows)
      ∙ rw equal_bytes_refl refl

  -- Reading back what was set. Let the value be copied to `copy`, and `copy` to `read`. After a
  -- commit that sets the key to the value, `getOne` of the key answers `read` with the versionstamp
  -- of this commit, also if the commit throws when it tells a closed watch.
  pub get_one-set :
      (now : ℕ) (key : KvKey) (v copy read : Value V) (expire_in : Option ℕ) (s : Store E)
      → copy_value E v ≡ ok copy
      → copy_value E copy ≡ ok read
      → get_one E (commit E now [] (set key v expire_in ∷ []) [] none s).1.rows key
        ≡ ok (record { key = key; found = some (read, pack_versionstamp (next_version s.version)) })
  unfolding commit run_checks commit_checked enqueue_all mutate_all mutate_row get_one entry_of
  get_one-set now key v copy read expire_in s copied copied' =
      rw
        (
          copied,
          finish_commit-rows,
          put_row-find s.rows (pack_key E.text key) (pack_versionstamp (next_version s.version))
              copy (expiry now expire_in),
          copied',
        )
        refl
