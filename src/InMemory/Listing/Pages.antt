-- ===== src/InMemory/Listing/Pages.antt =====
-- The passes of `listStream` of npm/src/in_memory.ts, put together.
use denokv.Prelude.{
  ℕ, zero, suc, ◌+◌, ◌<◌, ◌≡◌, refl, ap, sym, ◌∙◌, subst, Bool, true, false, Option, none, some,
  List, [], ◌∷◌, All, length, length-take, length-drop, take, drop, take-append-drop, min, ltb,
  Bool-cases, inl, inr, if◌then◌else◌, Result, ok, arith,
}
use denokv.Bytes.Order.{equal_bytes_refl}
use denokv.InMemory.Rows.{KvRow}
use denokv.InMemory.Rows.Laws.{IsSorted}
use denokv.InMemory.State.{Env}
use denokv.InMemory.Transaction.{after}
use denokv.InMemory.Listing.{
  KvListOptions, KvListSelector, Listing, is_same, is_reached, is_last, or_else, at_most, one_more,
  batch_limit, prefix_bytes, new_listing, pass_rows, batch_loop, passes, list_stream,
}
use denokv.InMemory.Listing.Walk.{
  yield_up_to, yield_up_to-reached, walk, batch_loop-first, batch_loop-again, walk-yield_up_to,
}
use denokv.InMemory.Listing.Position.{
  All-IsTail, listed_rows, source, IsAt, IsAt-first, IsAt-advance, StartsAfter, IsAt-Selects,
  pass_rows-source,
}

drop-short : {A : Type 0} (m : ℕ) (ys : List A) → length ys < m → drop m ys ≡ []
drop-short zero ys h = absurd (omega arith)
drop-short (suc m) [] h = refl
drop-short (suc m) (y ∷ ys) h = drop-short m ys (omega arith)

module _ {V : Type 0} (E : Env V) (o : KvListOptions) (sel : KvListSelector)
    (rows : List (KvRow V)) where
  passes-step :
      (fuel : ℕ) (s : Listing V)
      → passes E (suc fuel) o sel rows s
        ≡ after {B = Unit {0}}
            (batch_loop E o
              (prefix_bytes E.text sel)
              0
              (pass_rows E o sel s.last_yielded_key_bytes rows)
              s)
            (λ seen t.
              if is_last E (batch_limit o s.last_yielded_key_bytes) seen
              then (ok tt, t)
              else passes E fuel o sel rows t)
  unfolding passes
  passes-step fuel s = refl

  -- What follows a pass with this limit.
  abbrev follows : ℕ → ℕ → Option ℕ → Listing V → Result (Unit {0}) × Listing V
  follows fuel limit seen t =
      if is_last E limit seen then (ok tt, t) else passes E fuel o sel rows t

  -- The pass over the next `m` rows, with `n` rows skipped, if later passes list what is left.
  finish :
      (fuel n m : ℕ) (ys : List (KvRow V)) (s : Listing V)
      → 0 < m
      → length ys < suc fuel
      → is_reached o.limit s.yielded ≡ false
      → IsAt E o sel rows s.last_yielded_key_bytes ys
      → ((zs : List (KvRow V)) (t : Listing V)
          → length zs < fuel
          → is_reached o.limit t.yielded ≡ false
          → IsAt E o sel rows t.last_yielded_key_bytes zs
          → passes E fuel o sel rows t ≡ yield_up_to E o.limit zs t)
      → after (walk E o.limit n (take m ys) s) (follows fuel (n + m)) ≡ yield_up_to E o.limit ys s
  finish fuel n m ys s pos lt room a later =
      walk-yield_up_to E o.limit n (take m ys) (drop m ys) s (follows fuel (n + m)) room (λ t. refl)
        (λ t last room'. elim (Bool-cases (ltb (n + length (take m ys)) (n + m))) [
          | inl less ↦
              ap (λ (b : Bool). if b then (ok tt, t) else passes E fuel o sel rows t) less
              ∙ sym (
                  ap (λ zs. yield_up_to E o.limit zs t) (drop-short m ys (short less))
                  ∙ unfold yield_up_to in refl)
          | inr more ↦
              ap (λ (b : Bool). if b then (ok tt, t) else passes E fuel o sel rows t) more
              ∙ later (drop m ys) t (rest more) room' (
                  subst (λ k. IsAt E o sel rows k (drop m ys)) (sym last)
                    (IsAt-advance E o sel rows s.last_yielded_key_bytes (take m ys) (drop m ys)
                      (some_row more)
                      (subst (IsAt E o sel rows s.last_yielded_key_bytes)
                        (sym (take-append-drop m ys)) a)))
        ])
      ∙ ap (λ l. yield_up_to E o.limit l s) (take-append-drop m ys)
    where
      short : ltb (n + length (take m ys)) (n + m) ≡ true → length ys < m
      short h = ground (arith, length-take m ys)

      rest : ltb (n + length (take m ys)) (n + m) ≡ false → length (drop m ys) < fuel
      rest h = ground (arith, length-take m ys, length-drop m ys)

      some_row : ltb (n + length (take m ys)) (n + m) ≡ false → 0 < length (take m ys)
      some_row h = ground (arith, length-take m ys)

  -- The limit of a pass without the row that it may skip.
  abbrev base_limit : ℕ
  base_limit = at_most (min (or_else o.batch_size 100) 500) o.limit

  -- No row of the range stands at the prefix itself.
  abbrev pub HasNoPrefixRow : Type 0
  HasNoPrefixRow =
      All (λ r. is_same (prefix_bytes E.text sel) r.key_bytes ≡ false) (listed_rows E o sel rows)

  first_row-not_prefix :
      (last : Option (List ℕ)) (y : KvRow V) (ys : List (KvRow V))
      → HasNoPrefixRow
      → IsAt E o sel rows last (y ∷ ys)
      → is_same (prefix_bytes E.text sel) y.key_bytes ≡ false
  first_row-not_prefix last y ys h a =
      All-IsTail (λ r. is_same (prefix_bytes E.text sel) r.key_bytes ≡ false)
        (listed_rows E o sel rows) y ys h (IsAt-first E o sel rows last y ys a)

  -- No row of the pass is skipped.
  batch_loop-selected :
      (m : ℕ) (ys : List (KvRow V)) (s : Listing V)
      → HasNoPrefixRow
      → IsAt E o sel rows s.last_yielded_key_bytes ys
      → StartsAfter E o sel rows s.last_yielded_key_bytes ys
      → batch_loop E o (prefix_bytes E.text sel) 0 (take m ys) s ≡ walk E o.limit 0 (take m ys) s
  unfolding batch_loop walk
  batch_loop-selected zero ys s h a b = refl
  batch_loop-selected (suc m) [] s h a b = refl
  batch_loop-selected (suc m) (y ∷ ys) s h a b =
      let p = first_row-not_prefix s.last_yielded_key_bytes y ys h a in
      batch_loop-first E o (prefix_bytes E.text sel) y (take m ys) s (rw (b, p) refl)

  batch_limit-again :
      (k : List ℕ) (l : Option (List ℕ)) → l ≡ some k → batch_limit o l ≡ suc base_limit
  batch_limit-again k l e = ap (λ j. base_limit + one_more j) e ∙ omega arith

  batch_limit-positive : (l : Option (List ℕ)) → 0 < base_limit → 0 < batch_limit o l
  batch_limit-positive l h = omega arith

  again_at :
      (fuel n m limit : ℕ) (ys : List (KvRow V)) (s : Listing V)
      → n + m ≡ limit
      → after (walk E o.limit n (take m ys) s) (follows fuel (n + m)) ≡ yield_up_to E o.limit ys s
      → after (walk E o.limit n (take m ys) s) (follows fuel limit) ≡ yield_up_to E o.limit ys s
  again_at fuel n m limit ys s e h =
      subst
        (λ l. after (walk E o.limit n (take m ys) s) (follows fuel l) ≡ yield_up_to E o.limit ys s)
        e h

  one_pass :
      (fuel : ℕ) (ys : List (KvRow V)) (s : Listing V)
      → IsSorted rows
      → HasNoPrefixRow
      → 0 < base_limit
      → length ys < suc fuel
      → is_reached o.limit s.yielded ≡ false
      → IsAt E o sel rows s.last_yielded_key_bytes ys
      → ((zs : List (KvRow V)) (t : Listing V)
          → length zs < fuel
          → is_reached o.limit t.yielded ≡ false
          → IsAt E o sel rows t.last_yielded_key_bytes zs
          → passes E fuel o sel rows t ≡ yield_up_to E o.limit zs t)
      → passes E (suc fuel) o sel rows s ≡ yield_up_to E o.limit ys s
  one_pass fuel ys s h p pos lt room a later =
      let last = s.last_yielded_key_bytes in
      let prefix = prefix_bytes E.text sel in
      let run = λ (l : List (KvRow V)) (m : ℕ).
        after {B = Unit {0}} (batch_loop E o prefix 0 l s) (follows fuel m) in
      passes-step fuel s
      ∙ ap (λ l. run l (batch_limit o last)) (pass_rows-source E o sel rows last h)
      ∙ elim (IsAt-Selects E o sel rows last ys h a) [
        | inl (e, b) ↦
            ap (λ l. run (take (batch_limit o last) l) (batch_limit o last)) e
            ∙ ap (λ q. after {B = Unit {0}} q (follows fuel (batch_limit o last)))
                (batch_loop-selected (batch_limit o last) ys s p a b)
            ∙ again_at fuel 0 (batch_limit o last) (batch_limit o last) ys s (omega arith) (
                finish fuel 0 (batch_limit o last) ys s (batch_limit-positive last pos) lt room a
                  later)
        | inr (r, e, f) ↦
            ap (λ (m : ℕ). run (take m (source E o sel rows o.reverse last)) m)
              (batch_limit-again r.key_bytes last e)
            ∙ ap (λ l. run (take (suc base_limit) l) (suc base_limit)) f
            ∙ ap (λ q. after {B = Unit {0}} q (follows fuel (suc base_limit)))
                (batch_loop-again E o prefix r (take base_limit ys) s
                  (rw (e, equal_bytes_refl r.key_bytes) refl))
            ∙ again_at fuel 1 base_limit (suc base_limit) ys s (omega arith)
                (finish fuel 1 base_limit ys s pos lt room a later)
      ]

  passes-yield_up_to :
      (fuel : ℕ) (ys : List (KvRow V)) (s : Listing V)
      → IsSorted rows
      → HasNoPrefixRow
      → 0 < base_limit
      → length ys < fuel
      → is_reached o.limit s.yielded ≡ false
      → IsAt E o sel rows s.last_yielded_key_bytes ys
      → passes E fuel o sel rows s ≡ yield_up_to E o.limit ys s
  passes-yield_up_to zero ys s h p pos lt room a = absurd (omega arith)
  passes-yield_up_to (suc fuel) ys s h p pos lt room a =
      one_pass fuel ys s h p pos lt room a
        λ zs t lt' room' a'. passes-yield_up_to fuel zs t h p pos lt' room' a'

  -- `listStream`, on sorted rows such that no row of the range stands at the prefix itself, started
  -- without a cursor or with the key of a row of the range as its cursor, ends after no more passes
  -- than there are rows left and one, and comes to this, whatever the batch size of at least 1: the
  -- rows of the range, or those after the row of the cursor, are yielded one after the other, in
  -- ascending order, or in descending order for `reverse`, up to the limit; an exception at a row ends
  -- it. No row is lost or yielded twice where one pass or one listing ends and the next begins.
  pub list_stream-yield_up_to :
      (fuel : ℕ) (ys : List (KvRow V))
      → IsAt E o sel rows o.cursor ys
      → 0 < or_else o.batch_size 100
      → IsSorted rows
      → HasNoPrefixRow
      → length ys < fuel
      → list_stream E fuel o sel rows ≡ yield_up_to E o.limit ys (new_listing o)
  unfolding list_stream
  list_stream-yield_up_to fuel ys c b h p lt = elim (Bool-cases (is_reached o.limit 0)) [
    | inl none_wanted ↦
        ap
          (λ (d : Bool).
            if d then (ok tt, new_listing o) else passes E fuel o sel rows (new_listing o))
          none_wanted
        ∙ sym (yield_up_to-reached E o.limit ys (new_listing o) none_wanted)
    | inr room ↦
        ap
          (λ (d : Bool).
            if d then (ok tt, new_listing o) else passes E fuel o sel rows (new_listing o))
          room
        ∙ passes-yield_up_to fuel ys (new_listing o) h p (positive o.limit o.batch_size b room) lt
            room c
  ]
    where
      positive :
          (l b : Option ℕ)
          → 0 < or_else b 100
          → is_reached l 0 ≡ false
          → 0 < at_most (min (or_else b 100) 500) l
      positive none b h r = omega arith
      positive (some m) b h r = ground arith
