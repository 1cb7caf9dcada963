-- ===== src/InMemory/Listing/Walk.antt =====
-- A pass of `listStream` of npm/src/in_memory.ts: its rows, yielded one after the other.
use denokv.Prelude.{
  ℕ, ◌+◌, ◌≡◌, refl, ap, sym, ◌∙◌, Bool, true, false, ◌&&◌, ◌||◌, Option, none, some, List, [], ◌∷◌,
  ◌++◌, length, ◌==◌, Bool-cases, inl, inr, if◌then◌else◌, Result, ok, err, arith,
}
use mathlib.Core.Path.{fun_ext}
use denokv.KvKey.{unpack_key}
use denokv.InMemory.Rows.{KvRow}
use denokv.InMemory.State.{Env}
use denokv.InMemory.Transaction.{after, copy_value}
use denokv.InMemory.Mutate.Refines.{Result-cases}
use denokv.InMemory.Listing.{KvListOptions, Listing, is_same, is_reached, yield_row, batch_loop}

module _ {V : Type 0} (E : Env V) where
  -- The rows yielded in turn, until the limit is reached.
  unfoldable pub yield_up_to : Option ℕ → List (KvRow V) → Listing V → Result (Unit {0}) × Listing V
  yield_up_to limit [] s = (ok tt, s)
  yield_up_to limit (r ∷ rs) s =
      let next = after {B = Unit {0}} (yield_row E r s) (λ _ t. yield_up_to limit rs t) in
      if is_reached limit s.yielded then (ok tt, s) else next

  -- A row is yielded, and `next` goes on below the limit.
  abbrev pub go_on :
      Option ℕ
      → KvRow V
      → Listing V
      → (Listing V → Result (Option ℕ) × Listing V)
      → Result (Option ℕ) × Listing V
  go_on limit r s next =
      after {B = Option ℕ} (yield_row E r s)
        λ _ t. if is_reached limit t.yielded then (ok none, t) else next t

  -- The rows of a pass yielded in turn, with `n` rows seen before.
  unfoldable pub walk : Option ℕ → ℕ → List (KvRow V) → Listing V → Result (Option ℕ) × Listing V
  walk limit n [] s = (ok (some n), s)
  walk limit n (r ∷ rs) s = go_on limit r s λ t. walk limit (n + 1) rs t

  -- The row that the loop over a pass skips.
  abbrev pub is_skipped : Option (List ℕ) → ℕ → Listing V → KvRow V → Bool
  is_skipped prefix n s r =
      n == 0 && (is_same s.last_yielded_key_bytes r.key_bytes || is_same prefix r.key_bytes)

  batch_loop-step :
      (o : KvListOptions) (prefix : Option (List ℕ)) (n : ℕ) (r : KvRow V) (rs : List (KvRow V))
      (s : Listing V) (b : Bool)
      → is_skipped prefix n s r ≡ b
      → batch_loop E o prefix n (r ∷ rs) s ≡ (
          if b
          then batch_loop E o prefix (n + 1) rs s
          else go_on o.limit r s λ t. batch_loop E o prefix (n + 1) rs t)
  unfolding batch_loop
  batch_loop-step o prefix n r rs s b h =
      ap
        (λ (c : Bool).
          if c
          then batch_loop E o prefix (n + 1) rs s
          else go_on o.limit r s λ t. batch_loop E o prefix (n + 1) rs t)
        h

  not_first : (n : ℕ) → (n + 1 == 0) ≡ false
  not_first n = ground arith

  not_skipped :
      (prefix : Option (List ℕ)) (n : ℕ) (s : Listing V) (r : KvRow V)
      → (n == 0) ≡ false
      → is_skipped prefix n s r ≡ false
  not_skipped prefix n s r h = rw h refl

  batch_loop-later :
      (o : KvListOptions) (prefix : Option (List ℕ)) (n : ℕ) (rs : List (KvRow V)) (s : Listing V)
      → (n == 0) ≡ false
      → batch_loop E o prefix n rs s ≡ walk o.limit n rs s
  unfolding walk
  batch_loop-later o prefix n [] s h = unfold batch_loop in refl
  batch_loop-later o prefix n (r ∷ rs) s h =
      batch_loop-step o prefix n r rs s false (not_skipped prefix n s r h)
      ∙ ap (go_on o.limit r s) (fun_ext λ t. batch_loop-later o prefix (n + 1) rs t (not_first n))

  -- A pass whose first row is not skipped.
  pub batch_loop-first :
      (o : KvListOptions) (prefix : Option (List ℕ)) (r : KvRow V) (rs : List (KvRow V))
      (s : Listing V)
      → is_skipped prefix 0 s r ≡ false
      → batch_loop E o prefix 0 (r ∷ rs) s ≡ walk o.limit 0 (r ∷ rs) s
  unfolding walk
  batch_loop-first o prefix r rs s h =
      batch_loop-step o prefix 0 r rs s false h
      ∙ ap (go_on o.limit r s) (fun_ext λ t. batch_loop-later o prefix 1 rs t refl)

  -- A pass whose first row is the one that was yielded last.
  pub batch_loop-again :
      (o : KvListOptions) (prefix : Option (List ℕ)) (r : KvRow V) (rs : List (KvRow V))
      (s : Listing V)
      → is_skipped prefix 0 s r ≡ true
      → batch_loop E o prefix 0 (r ∷ rs) s ≡ walk o.limit 1 rs s
  batch_loop-again o prefix r rs s h =
      batch_loop-step o prefix 0 r rs s true h ∙ batch_loop-later o prefix 1 rs s refl

  -- The key that was yielded last, after these rows.
  abbrev pub last_key : Option (List ℕ) → List (KvRow V) → Option (List ℕ)
  last_key k [] = k
  last_key k (r ∷ rs) = last_key (some r.key_bytes) rs

  yield_row-last :
      (r : KvRow V) (s t : Listing V) (u : Unit {0})
      → yield_row E r s ≡ (ok u, t)
      → t.last_yielded_key_bytes ≡ some r.key_bytes
  unfolding yield_row
  yield_row-last r s t u h = elim (Result-cases (unpack_key E.text r.key_bytes)) [
    | inl (key, e) ↦ elim (Result-cases (copy_value E r.value)) [
      | inl (v, f) ↦ ground (arith, e, f)
      | inr (x, f) ↦ ground (arith, e, f)
    ]
    | inr (x, e) ↦ ground (arith, e)
  ]

  yield_up_to-next :
      (limit : Option ℕ) (r : KvRow V) (rs : List (KvRow V)) (s : Listing V)
      → is_reached limit s.yielded ≡ false
      → yield_up_to limit (r ∷ rs) s
        ≡ after {B = Unit {0}} (yield_row E r s) (λ _ t. yield_up_to limit rs t)
  unfolding yield_up_to
  yield_up_to-next limit r rs s h =
      ap
        (λ (b : Bool).
          if b
          then (ok tt, s)
          else after {B = Unit {0}} (yield_row E r s) λ _ t. yield_up_to limit rs t)
        h

  pub yield_up_to-reached :
      (limit : Option ℕ) (rs : List (KvRow V)) (s : Listing V)
      → is_reached limit s.yielded ≡ true
      → yield_up_to limit rs s ≡ (ok tt, s)
  unfolding yield_up_to
  yield_up_to-reached limit [] s h = refl
  yield_up_to-reached limit (r ∷ rs) s h =
      ap
        (λ (b : Bool).
          if b
          then (ok tt, s)
          else after {B = Unit {0}} (yield_row E r s) λ _ t. yield_up_to limit rs t)
        h

  after-after :
      {A B C S : Type 0} (p : Result A × S) (f : A → S → Result B × S) (k : B → S → Result C × S)
      (g : A → S → Result C × S)
      → ((a : A) (t : S) → p ≡ (ok a, t) → after (f a t) k ≡ g a t)
      → after (after p f) k ≡ after p g
  after-after (ok a, t) f k g h = h a t refl
  after-after (err e, t) f k g h = refl

  -- A pass over the rows `xs`, and what follows, if that yields the rows `zs`.
  pub walk-yield_up_to :
      (limit : Option ℕ) (n : ℕ) (xs zs : List (KvRow V)) (s : Listing V)
      (k : Option ℕ → Listing V → Result (Unit {0}) × Listing V)
      → is_reached limit s.yielded ≡ false
      → ((t : Listing V) → k none t ≡ (ok tt, t))
      → ((t : Listing V)
          → t.last_yielded_key_bytes ≡ last_key s.last_yielded_key_bytes xs
          → is_reached limit t.yielded ≡ false
          → k (some (n + length xs)) t ≡ yield_up_to limit zs t)
      → after (walk limit n xs s) k ≡ yield_up_to limit (xs ++ zs) s
  unfolding walk
  walk-yield_up_to limit n [] zs s k room done more =
      ap (λ (m : ℕ). k (some m) s) (plus_zero n) ∙ more s refl room
    where
      plus_zero : (m : ℕ) → m ≡ m + 0
      plus_zero m = omega arith
  walk-yield_up_to limit n (r ∷ xs) zs s k room done more =
      after-after (yield_row E r s) _ k (λ _ t. yield_up_to limit (xs ++ zs) t)
        (λ u t e. elim (Bool-cases (is_reached limit t.yielded)) [
          | inl full ↦
              ap (λ (b : Bool). after (if b then (ok none, t) else walk limit (n + 1) xs t) k) full
              ∙ done t
              ∙ sym (yield_up_to-reached limit (xs ++ zs) t full)
          | inr open' ↦
              ap (λ (b : Bool). after (if b then (ok none, t) else walk limit (n + 1) xs t) k) open'
              ∙ walk-yield_up_to limit (n + 1) xs zs t k open' done (λ v last room'.
                ap (λ (m : ℕ). k (some m) v) (omega arith)
                ∙ more v (last ∙ ap (λ b. last_key b xs) (yield_row-last r s t u e)) room')
        ])
      ∙ sym (yield_up_to-next limit r (xs ++ zs) s room)
