-- ===== src/InMemory/Commit/Keeps.antt =====
-- What every commit of npm/src/in_memory.ts keeps of the version and the rows, whether it returns or
-- throws.
use denokv.Prelude.{
  ℕ, ◌≡◌, refl, subst, sym, Bool, true, false, Option, none, List, [], ◌∷◌, Result, ok, err, inl,
  inr,
}
use denokv.KvUtil.Value.{Value}
use denokv.KvUtil.Versionstamp.{pack_versionstamp}
use denokv.InMemory.State.{next_version, Env, Store}
use denokv.InMemory.Transaction.{
  AtomicCheck, KvMutation, Enqueue, committed, after, copy_value, run_checks, enqueue_all,
}
use denokv.InMemory.Mutate.{put_row, mutate_all}
use denokv.InMemory.Mutate.Refines.{Result-cases}
use denokv.InMemory.Mutate.Keeps.{mutate_all-keeps}
use denokv.InMemory.Commit.{notify_all, finish_commit, commit_checked, commit}

module _ {V : Type 0} (E : Env V) (P : ℕ → E.tree.Tree → Type 0)
    (keep_remove : (n : ℕ) (t : E.tree.Tree) (k : List ℕ) → P n t → P n (E.tree.remove t k))
    (keep_put : (n : ℕ) (t : E.tree.Tree) (k : List ℕ) (v : Value V) (e : Option ℕ)
      → P n t
      → P n (put_row E t k v (pack_versionstamp n) e)) where
  abbrev Holds : Store E → Type 0
  Holds s = P s.version s.rows

  enqueue_all-keeps :
      (now : ℕ) (es : List (Enqueue V)) (s : Store E)
      → ((enqueue_all E now es s).1.version ≡ s.version)
        × ((enqueue_all E now es s).1.rows ≡ s.rows)
  unfolding enqueue_all
  enqueue_all-keeps now [] s = (refl, refl)
  enqueue_all-keeps now (e ∷ es) s = elim (Result-cases (copy_value E e.value)) [
    | inl (c, p) ↦ rw p (enqueue_all-keeps now es _)
    | inr (x, p) ↦ rw p (refl, refl)
  ]

  after-Holds :
      {A B : Type 0} (r : Result A) (t : Store E) (f : A → Store E → Result B × Store E)
      → Holds t
      → ((a : A) → Holds (f a t).1)
      → Holds (after (r, t) f).1
  after-Holds (ok a) t f h k = k a
  after-Holds (err e) t f h k = h

  finish_commit-keeps :
      (now : ℕ) (stamp : List ℕ) (b : Bool) (a m : Option ℕ) (ids : List ℕ) (s : Store E)
      → Holds s
      → Holds (finish_commit E now stamp b a m ids s).1
  unfolding finish_commit
  finish_commit-keeps now stamp b a m ids s h =
      after-Holds (notify_all E s.rows ids s.watches).0 _ (λ _ t. (ok (committed stamp), t)) h
        λ _. h

  pub commit_checked-keeps :
      (now : ℕ) (ms : List (KvMutation V)) (es : List (Enqueue V)) (a : Option ℕ) (s : Store E)
      → P (next_version s.version) s.rows
      → Holds (commit_checked E now ms es a s).1
  unfolding commit_checked
  commit_checked-keeps now ms es a s h =
      let n = next_version s.version in
      let p = enqueue_all E now es (record s { version = n }) in
      let (version, rows) = enqueue_all-keeps now es (record s { version = n }) in
      let done =
        mutate_all E (pack_versionstamp n) now p.1.watches ms
          (record { rows = p.1.rows; min_expires = none; watch_ids = [] }) in
      let enqueued : P n p.1.rows = subst (P n) (sym rows) h in
      let mutated : P p.1.version done.1.rows =
        subst (λ m. P m done.1.rows) (sym version)
          (mutate_all-keeps E (P n) (pack_versionstamp n) (keep_remove n) (keep_put n) now
            p.1.watches ms (record { rows = p.1.rows; min_expires = none; watch_ids = [] })
            enqueued) in
      after-Holds p.0 p.1 _ (subst (λ m. P m p.1.rows) (sym version) enqueued) λ _.
        after-Holds done.0 (record p.1 { rows = done.1.rows }) _ mutated
          λ _.
            finish_commit-keeps now _ _ a done.1.min_expires done.1.watch_ids
              (record p.1 { rows = done.1.rows }) mutated

  pub commit-keeps :
      (keep_next : (n : ℕ) (t : E.tree.Tree) → P n t → P (next_version n) t) (now : ℕ)
      (checks : List AtomicCheck) (ms : List (KvMutation V)) (es : List (Enqueue V)) (a : Option ℕ)
      (s : Store E)
      → Holds s
      → Holds (commit E now checks ms es a s).1
  unfolding commit
  commit-keeps keep_next now checks ms es a s h = elim (Result-cases (run_checks E s.rows checks)) [
    | inl (true, p) ↦ rw p (commit_checked-keeps now ms es a s (keep_next s.version s.rows h))
    | inl (false, p) ↦ rw p h
    | inr (e, p) ↦ rw p h
  ]
