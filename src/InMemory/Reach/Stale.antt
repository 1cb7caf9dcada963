-- ===== src/InMemory/Reach/Stale.antt =====
-- Optimistic concurrency over the store of npm/src/in_memory.ts: a check with a versionstamp from
-- before the key was written.
use denokv.Prelude.{
  ℕ, ◌^◌, ◌≤◌, ◌<◌, ◌≡◌, refl, ap, subst, sym, ◌∙◌, Option, none, some, List, [], ◌∷◌, true, false,
  ok, inl, inr, Bool-cases, arith,
}
use denokv.Bytes.{compare_bytes, equal_bytes}
use denokv.KvKey.{KvKey, pack_key}
use denokv.KvUtil.Value.{Value}
use denokv.KvUtil.Versionstamp.{pack_versionstamp, is_valid_versionstamp}
use denokv.KvUtil.Versionstamp.Laws.{unpack-pack_versionstamp}
use denokv.InMemory.Rows.{KvRow, find_row, remove_row, insert_row}
use denokv.InMemory.Rows.Laws.{find-remove, Ordering-cases}
use denokv.InMemory.State.{next_version, next_version-ge, next_version-gt, Env, Store}
use denokv.InMemory.Transaction.{
  AtomicCheck, KvMutation, Enqueue, failed, committed, find_key, run_checks,
}
use denokv.InMemory.Mutate.{put_row}
use denokv.InMemory.Commit.{commit}
use denokv.InMemory.Mutate.Refines.{Result-cases}
use denokv.InMemory.Commit.Keeps.{commit_checked-keeps}
use denokv.InMemory.Commit.Invariant.{IsValid}
use denokv.InMemory.Commit.Stale.{
  IsFresh, touches, find_row-IsStamped, stamps_differ, DiffersFrom, stale_rejected, commit-IsFresh,
}
use denokv.InMemory.Reach.{Step}
use denokv.InMemory.Reach.Keeps.{Step-keeps}

module _ {V : Type 0} where
  -- A property of the row of a key after a row is put in: it holds of the row that is put in, and
  -- of the one before.
  find-insert-keeps :
      (Q : Option (KvRow V) → Type 0) (k : List ℕ) (r : KvRow V) (rs : List (KvRow V))
      → Q (some r)
      → Q (find_row k rs)
      → Q (find_row k (insert_row r rs))
  unfolding find_row insert_row
  find-insert-keeps Q k r [] h q = elim (Bool-cases (equal_bytes r.key_bytes k)) [
    | inl e ↦ rw e h
    | inr e ↦ rw e q
  ]
  find-insert-keeps Q k r (s ∷ rs) h q =
      elim (Ordering-cases (compare_bytes r.key_bytes s.key_bytes)) [
        | inl less ↦
            rw less
              (elim (Bool-cases (equal_bytes r.key_bytes k)) [ inl e ↦ rw e h | inr e ↦ rw e q ])
        | inr (inl same) ↦ rw same q
        | inr (inr more) ↦ rw more (elim (Bool-cases (equal_bytes s.key_bytes k)) [
          | inl e ↦ rw e (rw e at q)
          | inr e ↦ rw e (find-insert-keeps Q k r rs h (rw e at q))
        ])
      ]

  find-remove-keeps :
      (Q : Option (KvRow V) → Type 0) (k j : List ℕ) (rs : List (KvRow V))
      → Q none
      → Q (find_row k rs)
      → Q (find_row k (remove_row j rs))
  find-remove-keeps Q k j rs h q =
      rw find-remove (elim (Bool-cases (equal_bytes j k)) [ inl e ↦ rw e h | inr e ↦ rw e q ])

  -- No row, or one that was written after the first `b` commits.
  abbrev IsNewer : ℕ → Option (KvRow V) → Type 0
  IsNewer b none = Unit {0}
  IsNewer b (some r) = (m : ℕ) × (r.versionstamp ≡ pack_versionstamp m) × (b < m) × (m ≤ 2 ^ 53)

  IsFresh-IsNewer :
      (b m : ℕ) (found : Option (KvRow V))
      → b < m
      → m ≤ 2 ^ 53
      → IsFresh (pack_versionstamp m) found
      → IsNewer b found
  IsFresh-IsNewer b m none h k f = tt
  IsFresh-IsNewer b m (some r) h k f = (m, f, h, k)

module _ {V : Type 0} (E : Env V) where
  -- Any steps, one after the other.
  pub data Leads (s : Store E) : Store E → Type 0 where
    stays : (t : Store E) → s ≡ t → Leads s t
    then_step : (t u : Store E) → Leads s t → Step E t u → Leads s u

  IsNewer-DiffersFrom :
      (b n : ℕ) (found : Option (KvRow V))
      → n ≤ b
      → IsNewer b found
      → DiffersFrom E (pack_versionstamp n) found
  IsNewer-DiffersFrom b n none h k = tt
  IsNewer-DiffersFrom b n (some r) h (m, e, lt, le) =
      λ q. stamps_differ E n m (omega arith) (omega arith) (sym e ∙ q)

  -- After `b` commits, and then some, every row of the key is newer.
  abbrev Newer : List ℕ → ℕ → ℕ → E.tree.Tree → Type 0
  Newer k b n t = (b < n) × (n ≤ 2 ^ 53) × IsNewer b (E.tree.find t k)

  Newer-next :
      (k : List ℕ) (b n : ℕ) (t : E.tree.Tree) → Newer k b n t → Newer k b (next_version n) t
  Newer-next k b n t (lt, le, h) = (omega (arith, next_version-ge n), within n le, h)
    where
      within : (n : ℕ) → n ≤ 2 ^ 53 → next_version n ≤ 2 ^ 53
      within n h = unfold next_version in ground arith

  Newer-remove :
      (k : List ℕ) (b n : ℕ) (t : E.tree.Tree) (j : List ℕ)
      → Newer k b n t
      → Newer k b n (E.tree.remove t j)
  Newer-remove k b n t j (lt, le, h) = (
    lt,
    le,
    rw (E.tree.find-values (E.tree.remove t j) k, E.tree.values-remove t j)
        (find-remove-keeps (IsNewer b) k j (E.tree.values t) tt
          (subst (IsNewer b) (E.tree.find-values t k) h)),
  )

  Newer-put :
      (k : List ℕ) (b n : ℕ) (t : E.tree.Tree) (j : List ℕ) (v : Value V) (e : Option ℕ)
      → Newer k b n t
      → Newer k b n (put_row E t j v (pack_versionstamp n) e)
  Newer-put k b n t j v e (lt, le, h) =
      let r : KvRow V = record {
        key_bytes = j;
        value = v;
        versionstamp = pack_versionstamp n;
        expires = e;
      } in
      (
        lt,
        le,
        rw (E.tree.find-values (E.tree.insert t r) k, E.tree.values-insert t r)
            (find-insert-keeps (IsNewer b) k r (E.tree.values t) (n, refl, lt, le)
              (subst (IsNewer b) (E.tree.find-values t k) h)),
      )

  Leads-Newer :
      (k : List ℕ) (b : ℕ) (s t : Store E)
      → Leads s t
      → Newer k b s.version s.rows
      → Newer k b t.version t.rows
  Leads-Newer k b s t (stays _ e) h = subst (λ (u : Store E). Newer k b u.version u.rows) e h
  Leads-Newer k b s _ (then_step t u l step) h =
      Step-keeps E (Newer k b) (Newer-next k b) (Newer-remove k b) (Newer-put k b) t u step
        (Leads-Newer k b s t l h)

  commit-version :
      (now : ℕ) (checks : List AtomicCheck) (ms : List (KvMutation V)) (es : List (Enqueue V))
      (a : Option ℕ) (s : Store E) (st : List ℕ)
      → (commit E now checks ms es a s).0 ≡ ok (committed st)
      → (commit E now checks ms es a s).1.version ≡ next_version s.version
  unfolding commit
  commit-version now checks ms es a s st = elim (Result-cases (run_checks E s.rows checks)) [
    | inl (true, p) ↦ rw p (λ _.
        commit_checked-keeps E (λ n _. n ≡ next_version s.version) (λ n t k h. h) (λ n t k v e h. h)
          now ms es a s refl)
    | inl (false, p) ↦ rw p (λ e. cc)
    | inr (x, p) ↦ rw p (λ e. cc)
  ]

  commit-Newer :
      (now : ℕ) (checks : List AtomicCheck) (ms : List (KvMutation V)) (es : List (Enqueue V))
      (a : Option ℕ) (s : Store E) (k st : List ℕ)
      → s.version < 2 ^ 53
      → touches E ms k ≡ true
      → (commit E now checks ms es a s).0 ≡ ok (committed st)
      → Newer k s.version
          (commit E now checks ms es a s).1.version
          (commit E now checks ms es a s).1.rows
  commit-Newer now checks ms es a s k st small touched done =
      let (grown, fits) = next_version-gt s.version small in
      let e = commit-version now checks ms es a s st done in
      (
        subst (λ n. s.version < n) (sym e) grown,
        subst (λ n. n ≤ 2 ^ 53) (sym e) fits,
        IsFresh-IsNewer s.version (next_version s.version) _ grown fits
            (commit-IsFresh E now checks ms es a s k st touched done),
      )

  -- A commit cannot overwrite what it has not seen. Let `r` be the row of a key in a valid store, and
  -- let a commit that touches the key succeed. From then on the versionstamp of `r` is stale: after
  -- any further steps of the store, a commit whose first check is for the key at that versionstamp
  -- answers `{ ok: false }` and changes nothing. (The commit that succeeds is among the first
  -- 2 ^ 53: all later ones share a versionstamp.)
  pub stale_check_fails :
      (now now' : ℕ) (checks checks' : List AtomicCheck) (ms ms' : List (KvMutation V))
      (es es' : List (Enqueue V)) (additional additional' : Option ℕ) (s t : Store E) (key : KvKey)
      (r : KvRow V) (st : List ℕ)
      → IsValid E s
      → s.version < 2 ^ 53
      → find_key E s.rows key ≡ some r
      → touches E ms (pack_key E.text key) ≡ true
      → (commit E now checks ms es additional s).0 ≡ ok (committed st)
      → Leads (commit E now checks ms es additional s).1 t
      → commit E now'
          (record { key = key; versionstamp = some r.versionstamp } ∷ checks')
          ms'
          es'
          additional'
          t
        ≡ (ok failed, t)
  stale_check_fails now now' checks checks' ms ms' es es' additional additional' s t key r st v
        small there touched done later =
      let k = pack_key E.text key in
      let stamped =
        find_row-IsStamped E s.version k (E.tree.values s.rows) r v.rows_valid.stamped
          (sym (E.tree.find-values s.rows k) ∙ there) in
      let n = stamped.version in
      let (grown, fits, newer) =
        Leads-Newer k s.version (commit E now checks ms es additional s).1 t later
          (commit-Newer now checks ms es additional s k st small touched done) in
      stale_rejected E now' checks' ms' es' additional' t key r.versionstamp
        (ap is_valid_versionstamp stamped.stamp
          ∙ (unpack-pack_versionstamp n (omega (arith, stamped.written))).0)
        (subst (λ old. DiffersFrom E old (E.tree.find t.rows k)) (sym stamped.stamp)
          (IsNewer-DiffersFrom s.version n (E.tree.find t.rows k) stamped.written newer))
