-- ===== src/InMemory/Commit/Invariant.antt =====
-- The invariant of the store of npm/src/in_memory.ts, which every commit keeps, also one that
-- throws.
use denokv.Prelude.{
  ℕ, ◌+◌, ◌≤◌, ◌≡◌, refl, subst, sym, Bool, true, false, Option, none, some, List, [], ◌∷◌, ◌++◌,
  All, Result, ok, err, inl, inr, Bool-cases, ◌==◌, arith,
}
use denokv.Bytes.{compare_bytes, equal_bytes}
use denokv.KvUtil.Value.{Value}
use denokv.KvUtil.Versionstamp.{pack_versionstamp}
use denokv.InMemory.Rows.{KvRow, remove_row, insert_row}
use denokv.InMemory.Rows.Laws.{IsSorted, remove_row-IsSorted, insert_row-IsSorted, Ordering-cases}
use denokv.InMemory.State.{next_version, next_version-ge, Env, QueueItem, Store, new_store}
use denokv.InMemory.Transaction.{
  AtomicCheck, KvMutation, Enqueue, committed, after, copy_value, run_checks, enqueue_all,
}
use denokv.InMemory.Mutate.{Work, put_row, mutate_all}
use denokv.InMemory.Mutate.Refines.{Result-cases}
use denokv.InMemory.Mutate.Keeps.{mutate_all-keeps}
use denokv.InMemory.Commit.{
  notify_all, without_item, finish_commit, is_nonempty, commit_checked, commit,
}

-- The row was written by one of the first `n` commits.
pub record IsStamped {V : Type 0} (n : ℕ) (r : KvRow V) : Type 0 where
  pub version : ℕ
  pub stamp : r.versionstamp ≡ pack_versionstamp version
  pub written : version ≤ n

-- The ids of a queue grow, from `lo` on and below `hi`.
abbrev pub HasIds : {V : Type 0} → ℕ → ℕ → List (QueueItem V) → Type 0
HasIds lo hi [] = lo ≤ hi
HasIds lo hi (i ∷ q) = (lo ≤ i.id) × HasIds (i.id + 1) hi q

module _ {V : Type 0} (E : Env V) where
  pub record IsValidRows (n : ℕ) (t : E.tree.Tree) : Type 0 where
    pub sorted : IsSorted (E.tree.values t)
    pub stamped : All (IsStamped n) (E.tree.values t)

  pub record IsValid (s : Store E) : Type 0 where
    pub rows_valid : IsValidRows s.version s.rows
    pub ids : HasIds 0 s.next_queue_item_id s.queue

  IsStamped-le : (n m : ℕ) (r : KvRow V) → n ≤ m → IsStamped n r → IsStamped m r
  IsStamped-le n m r h s = record {
    version = s.version;
    stamp = s.stamp;
    written = omega (arith, s.written);
  }

  All-le : (n m : ℕ) (rs : List (KvRow V)) → n ≤ m → All (IsStamped n) rs → All (IsStamped m) rs
  All-le n m [] h a = tt
  All-le n m (r ∷ rs) h a = (IsStamped-le n m r h a.0, All-le n m rs h a.1)

  All-remove :
      (n : ℕ) (k : List ℕ) (rs : List (KvRow V))
      → All (IsStamped n) rs
      → All (IsStamped n) (remove_row k rs)
  unfolding remove_row
  All-remove n k [] a = tt
  All-remove n k (r ∷ rs) a = elim (Bool-cases (equal_bytes r.key_bytes k)) [
    | inl same ↦ rw same (All-remove n k rs a.1)
    | inr other ↦ rw other (a.0, All-remove n k rs a.1)
  ]

  All-insert :
      (n : ℕ) (r : KvRow V) (rs : List (KvRow V))
      → IsStamped n r
      → All (IsStamped n) rs
      → All (IsStamped n) (insert_row r rs)
  unfolding insert_row
  All-insert n r [] h a = (h, tt)
  All-insert n r (s ∷ rs) h a = elim (Ordering-cases (compare_bytes r.key_bytes s.key_bytes)) [
    | inl e ↦ rw e (h, a)
    | inr (inl e) ↦ rw e a
    | inr (inr e) ↦ rw e (a.0, All-insert n r rs h a.1)
  ]

  pub IsValidRows-remove :
      (n : ℕ) (t : E.tree.Tree) (k : List ℕ) → IsValidRows n t → IsValidRows n (E.tree.remove t k)
  IsValidRows-remove n t k v = record {
    sorted = rw E.tree.values-remove (remove_row-IsSorted k (E.tree.values t) v.sorted);
    stamped = rw E.tree.values-remove (All-remove n k (E.tree.values t) v.stamped);
  }

  IsValidRows-put :
      (n : ℕ) (t : E.tree.Tree) (k : List ℕ) (x : Value V) (e : Option ℕ)
      → IsValidRows n t
      → IsValidRows n (put_row E t k x (pack_versionstamp n) e)
  IsValidRows-put n t k x e v =
      let r : KvRow V = record {
        key_bytes = k;
        value = x;
        versionstamp = pack_versionstamp n;
        expires = e;
      } in
      record {
        sorted = rw E.tree.values-insert (insert_row-IsSorted r (E.tree.values t) v.sorted);
        stamped = rw E.tree.values-insert (
            All-insert n r (E.tree.values t)
              (record { version = n; stamp = refl; written = omega arith }) v.stamped);
      }

  HasIds-le : (lo hi hi' : ℕ) (q : List (QueueItem V)) → hi ≤ hi' → HasIds lo hi q → HasIds lo hi' q
  HasIds-le lo hi hi' [] h k = omega arith
  HasIds-le lo hi hi' (i ∷ q) h k = (k.0, HasIds-le (i.id + 1) hi hi' q h k.1)

  HasIds-snoc :
      (lo hi : ℕ) (q : List (QueueItem V)) (i : QueueItem V)
      → i.id ≡ hi
      → HasIds lo hi q
      → HasIds lo (hi + 1) (q ++ (i ∷ []))
  HasIds-snoc lo hi [] i e k = (omega arith, omega arith)
  HasIds-snoc lo hi (x ∷ q) i e k = (k.0, HasIds-snoc (x.id + 1) hi q i e k.1)

  HasIds-lower :
      (lo lo' hi : ℕ) (q : List (QueueItem V)) → lo ≤ lo' → HasIds lo' hi q → HasIds lo hi q
  HasIds-lower lo lo' hi [] h k = omega arith
  HasIds-lower lo lo' hi (i ∷ q) h k = (omega (arith, k.0), k.1)

  pub HasIds-without :
      (additional : Option ℕ) (lo hi : ℕ) (q : List (QueueItem V))
      → HasIds lo hi q
      → HasIds lo hi (without_item E additional q)
  unfolding without_item
  HasIds-without none lo hi q h = h
  HasIds-without (some id) lo hi [] h = h
  HasIds-without (some id) lo hi (i ∷ q) h = elim (Bool-cases (i.id == id)) [
    | inl same ↦ rw same (
        HasIds-without (some id) lo hi q (HasIds-lower lo (i.id + 1) hi q (omega (arith, h.0)) h.1))
    | inr other ↦ rw other (h.0, HasIds-without (some id) (i.id + 1) hi q h.1)
  ]

  enqueue_all-IsValid :
      (now : ℕ) (es : List (Enqueue V)) (s : Store E)
      → IsValid s
      → IsValid (enqueue_all E now es s).1
  unfolding enqueue_all
  enqueue_all-IsValid now [] s v = v
  enqueue_all-IsValid now (e ∷ es) s v = elim (Result-cases (copy_value E e.value)) [
    | inl (c, p) ↦ rw p (
        enqueue_all-IsValid now es _ (record {
          rows_valid = v.rows_valid;
          ids = HasIds-snoc 0 s.next_queue_item_id s.queue _ refl v.ids;
        }))
    | inr (x, p) ↦ rw p (record {
      rows_valid = v.rows_valid;
      ids = HasIds-le 0 s.next_queue_item_id (s.next_queue_item_id + 1) s.queue (omega arith) v.ids;
    })
  ]

  enqueue_all-version :
      (now : ℕ) (es : List (Enqueue V)) (s : Store E)
      → (enqueue_all E now es s).1.version ≡ s.version
  unfolding enqueue_all
  enqueue_all-version now [] s = refl
  enqueue_all-version now (e ∷ es) s = elim (Result-cases (copy_value E e.value)) [
    | inl (c, p) ↦ rw p (enqueue_all-version now es _)
    | inr (x, p) ↦ rw p refl
  ]

  -- A property of the state that a statement that may throw does not change.
  after_state :
      (P : Store E → Type 0) (r : Result (Unit {0})) (s : Store E) (stamp : List ℕ)
      → P s
      → P (after (r, s) (λ _ t. (ok (committed stamp), t))).1
  after_state P (ok a) s stamp h = h
  after_state P (err e) s stamp h = h

  finish_commit-IsValid :
      (now : ℕ) (stamp : List ℕ) (b : Bool) (additional min_expires : Option ℕ) (ids : List ℕ)
      (s : Store E)
      → IsValid s
      → IsValid (finish_commit E now stamp b additional min_expires ids s).1
  unfolding finish_commit
  finish_commit-IsValid now stamp b additional min_expires ids s v =
      after_state IsValid (notify_all E s.rows ids s.watches).0 _ stamp (record {
        rows_valid = v.rows_valid;
        ids = HasIds-without additional 0 s.next_queue_item_id s.queue v.ids;
      })

  commit_checked-IsValid :
      (now : ℕ) (ms : List (KvMutation V)) (es : List (Enqueue V)) (additional : Option ℕ)
      (s : Store E)
      → IsValid s
      → IsValid (commit_checked E now ms es additional s).1
  unfolding commit_checked
  commit_checked-IsValid now ms es additional s v =
      after_enqueues (enqueue_all E now es (record s { version = next_version s.version }))
        (enqueue_all-IsValid now es _ (record {
          rows_valid = record {
            sorted = v.rows_valid.sorted;
            stamped =
                All-le s.version (next_version s.version) (E.tree.values s.rows)
                  (next_version-ge s.version) v.rows_valid.stamped;
          };
          ids = v.ids;
        }))
        (enqueue_all-version now es (record s { version = next_version s.version }))
    where
      work : Store E → Work E
      work t = record { rows = t.rows; min_expires = none; watch_ids = [] }

      done : Store E → Result (Unit {0}) × Work E
      done t = mutate_all E (pack_versionstamp (next_version s.version)) now t.watches ms (work t)

      after_mutations :
          (t : Store E) (r : Result (Unit {0})) (w : Work E)
          → IsValidRows t.version w.rows
          → HasIds 0 t.next_queue_item_id t.queue
          → IsValid
              (after {A = Unit {0}}
                (r, record t { rows = w.rows })
                λ _ u.
                  finish_commit E now
                    (pack_versionstamp (next_version s.version))
                    (is_nonempty E es)
                    additional
                    w.min_expires
                    w.watch_ids
                    u).1
      after_mutations t (ok a) w rv ids =
          finish_commit-IsValid now _ _ additional w.min_expires w.watch_ids
            (record t { rows = w.rows }) (record { rows_valid = rv; ids = ids })
      after_mutations t (err e) w rv ids = record { rows_valid = rv; ids = ids }

      after_enqueues :
          (p : Result (Unit {0}) × Store E)
          → IsValid p.1
          → p.1.version ≡ next_version s.version
          → IsValid
              (after p λ _ t.
                after {A = Unit {0}}
                  ((done t).0, record t { rows = (done t).1.rows })
                  λ _ u.
                    finish_commit E now
                      (pack_versionstamp (next_version s.version))
                      (is_nonempty E es)
                      additional
                      (done t).1.min_expires
                      (done t).1.watch_ids
                      u).1
      after_enqueues (ok a, t) v' e =
          after_mutations t (done t).0 (done t).1
            (subst (λ n. IsValidRows n (done t).1.rows) (sym e)
              (mutate_all-keeps E (IsValidRows (next_version s.version))
                (pack_versionstamp (next_version s.version))
                (IsValidRows-remove (next_version s.version))
                (IsValidRows-put (next_version s.version)) now t.watches ms (work t)
                (subst (λ n. IsValidRows n t.rows) e v'.rows_valid)))
            v'.ids
      after_enqueues (err x, t) v' e = v'

  -- Every commit keeps the invariant, whether it succeeds, fails a check or throws halfway: the
  -- rows stay sorted by their key bytes with no key twice, each row bears the versionstamp of a
  -- commit that was made, and the ids of the queue stay distinct and below the next id.
  pub commit-IsValid :
      (now : ℕ) (checks : List AtomicCheck) (ms : List (KvMutation V)) (es : List (Enqueue V))
      (additional : Option ℕ) (s : Store E)
      → IsValid s
      → IsValid (commit E now checks ms es additional s).1
  unfolding commit
  commit-IsValid now checks ms es additional s v =
      elim (Result-cases (run_checks E s.rows checks)) [
        | inl (true, p) ↦ rw p (commit_checked-IsValid now ms es additional s v)
        | inl (false, p) ↦ rw p v
        | inr (e, p) ↦ rw p v
      ]

pub new_store-IsValid : {V : Type 0} (E : Env V) (n : ℕ) → IsValid E (new_store E n)
new_store-IsValid E n = record {
  rows_valid = record { sorted = rw E.tree.values-empty tt; stamped = rw E.tree.values-empty tt };
  ids = omega arith;
}
