-- ===== src/InMemory/Queue/Fifo.antt =====
-- Which item `runWorker` of npm/src/in_memory.ts takes.
use denokv.Prelude.{
  ℕ, ◌+◌, ◌≤◌, ◌≡◌, refl, true, false, Option, none, some, List, [], ◌∷◌, min, ◌==◌, ==_refl,
  if◌then◌else◌, Bool-cases, inl, inr, All, arith, ap, ◌∙◌,
}
use denokv.InMemory.State.{Env, QueueItem, Store}
use denokv.InMemory.Commit.Invariant.{HasIds, IsValid}
use denokv.InMemory.Queue.{
  is_candidate, least, candidate_ids, get_item, lock_item, next_available, wait, take_first,
  dispatch,
}

min_le : (n m : ℕ) → n ≤ m → min n m ≡ n
min_le n m h = omega arith

least_sorted : (n : ℕ) (ns : List ℕ) → All (λ m. n ≤ m) ns → least n ns ≡ n
least_sorted n [] h = refl
least_sorted n (m ∷ ms) (h, hs) = rw (min_le n m h) (least_sorted n ms hs)

least-bound : (lo n : ℕ) (ns : List ℕ) → lo ≤ n → All (λ m. lo ≤ m) ns → lo ≤ least n ns
least-bound lo n [] h a = h
least-bound lo n (m ∷ ms) h a = least-bound lo (min n m) ms (omega (arith, a.0)) a.1

not_least : (i n : ℕ) → i + 1 ≤ n → (i == n) ≡ false
not_least i n h = ground arith

AtLeast-le : (n m : ℕ) (ns : List ℕ) → n ≤ m → All (λ k. m ≤ k) ns → All (λ k. n ≤ k) ns
AtLeast-le n m [] h a = tt
AtLeast-le n m (k ∷ ks) h a = (omega (arith, a.0), AtLeast-le n m ks h a.1)

module _ {V : Type 0} where
  -- The first item in the order of the queue that is ready.
  abbrev pub first_candidate : ℕ → List (QueueItem V) → Option (QueueItem V)
  first_candidate now [] = none
  first_candidate now (i ∷ q) =
      let rest = first_candidate now q in if is_candidate now i then some i else rest

  -- The queue with that item locked.
  abbrev pub lock_first : ℕ → List (QueueItem V) → List (QueueItem V)
  lock_first now [] = []
  lock_first now (i ∷ q) =
      let rest = lock_first now q in
      if is_candidate now i then record i { locked = true } ∷ q else i ∷ rest

  candidate_ids-bound :
      (now lo hi : ℕ) (q : List (QueueItem V))
      → HasIds lo hi q
      → All (λ m. lo ≤ m) (candidate_ids now q)
  unfolding candidate_ids
  candidate_ids-bound now lo hi [] h = tt
  candidate_ids-bound now lo hi (i ∷ q) h =
      let rest = candidate_ids-bound now (i.id + 1) hi q h.1 in
      elim (Bool-cases (is_candidate now i)) [
        | inl e ↦
            rw e (h.0, AtLeast-le lo (i.id + 1) (candidate_ids now q) (omega (arith, h.0)) rest)
        | inr e ↦ rw e (AtLeast-le lo (i.id + 1) (candidate_ids now q) (omega (arith, h.0)) rest)
      ]

  -- What `take_first` answers and does to the queue.
  abbrev taken : List ℕ → List (QueueItem V) → Option (QueueItem V) × List (QueueItem V)
  taken [] q = (none, q)
  taken (id ∷ ids) q = (get_item (least id ids) q, lock_item (least id ids) q)

  taken-skip :
      (ids : List ℕ) (i : QueueItem V) (q : List (QueueItem V))
      → All (λ m. i.id + 1 ≤ m) ids
      → taken ids (i ∷ q) ≡ ((taken ids q).0, i ∷ (taken ids q).1)
  unfolding get_item lock_item
  taken-skip [] i q h = refl
  taken-skip (id ∷ ids) i q h =
      rw (not_least i.id (least id ids) (least-bound (i.id + 1) id ids h.0 h.1)) refl

  taken-candidates :
      (now lo hi : ℕ) (q : List (QueueItem V))
      → HasIds lo hi q
      → taken (candidate_ids now q) q ≡ (first_candidate now q, lock_first now q)
  unfolding candidate_ids get_item lock_item
  taken-candidates now lo hi [] h = refl
  taken-candidates now lo hi (i ∷ q) h =
      let above = candidate_ids-bound now (i.id + 1) hi q h.1 in
      let ids = candidate_ids now q in
      elim (Bool-cases (is_candidate now i)) [
        | inl e ↦
            rw
              (
                e,
                least_sorted i.id ids (AtLeast-le i.id (i.id + 1) ids (omega arith) above),
                ==_refl i.id,
              )
              refl
        | inr e ↦ rw (e, taken-skip ids i q above, taken-candidates now (i.id + 1) hi q h.1) refl
      ]

module _ {V : Type 0} (E : Env V) where
  -- The answer, with the queue of the state.
  abbrev answer : Option (QueueItem V) × Store E → Option (QueueItem V) × List (QueueItem V)
  answer p = (p.0, p.1.queue)

  wait-queue : (now : ℕ) (n : Option ℕ) (s : Store E) → answer (wait E now n s) ≡ (none, s.queue)
  unfolding wait
  wait-queue now none s = refl
  wait-queue now (some n) s = refl

  take_first-taken :
      (now : ℕ) (ids : List ℕ) (s : Store E) → answer (take_first E now ids s) ≡ taken ids s.queue
  unfolding take_first
  take_first-taken now [] s = wait-queue now (next_available s.queue) s
  take_first-taken now (id ∷ ids) s = refl

  dispatch-take_first :
      (now : ℕ) (s : Store E)
      → s.queue_worker.has_handler ≡ true
      → dispatch E now s ≡ take_first E now (candidate_ids now s.queue) s
  unfolding dispatch
  dispatch-take_first now s h =
      ap (λ b. if b then take_first E now (candidate_ids now s.queue) s else (none, s)) h

  -- In a valid store with a handler, `runWorker` calls the handler with the item that was enqueued
  -- first among those that are due and not locked, and locks this item and no other one; if there
  -- is none it leaves the queue as it is.
  pub dispatch-first_candidate :
      (now : ℕ) (s : Store E)
      → IsValid E s
      → s.queue_worker.has_handler ≡ true
      → ((dispatch E now s).0 ≡ first_candidate now s.queue)
        × ((dispatch E now s).1.queue ≡ lock_first now s.queue)
  dispatch-first_candidate now s v h =
      let both =
        ap answer (dispatch-take_first now s h)
        ∙ take_first-taken now (candidate_ids now s.queue) s
        ∙ taken-candidates now 0 s.next_queue_item_id s.queue v.ids in
      (ap (λ p. p.0) both, ap (λ p. p.1) both)
