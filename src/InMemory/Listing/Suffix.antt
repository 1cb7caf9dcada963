-- ===== src/InMemory/Listing/Suffix.antt =====
-- The rows of a range after one of them: how a pass of `listStream` in npm/src/in_memory.ts goes on
-- where the last one stopped.
use denokv.Prelude.{
  ℕ, ◌≡◌, refl, ap, sym, ◌∙◌, subst, ◌⊎◌, Bool, true, false, List, [], ◌∷◌, All, inl, inr,
  if◌then◌else◌, Ordering, arith,
}
use denokv.Bytes.Order.{lex, eq_of_lex, lex_refl, lex_trans, lex-swap}
use denokv.InMemory.Rows.{KvRow}
use denokv.InMemory.Rows.Laws.{Above, IsSorted}
use denokv.InMemory.Listing.{nonempty_start}
use denokv.InMemory.Listing.Rows.{is_within, rows_within}
use denokv.InMemory.Listing.Backward.{Below, IsDescending}

within_self : (s e k : List ℕ) → is_within s e k ≡ true → is_within k e k ≡ true
within_self s e k h = ground (arith, lex_refl k)

-- Above a key of the range, its start may be raised to this key; below one, its end lowered.
within_raised :
    (s e k l : List ℕ)
    → is_within s e k ≡ true
    → lex k l ≡ Ordering.lt
    → is_within k e l ≡ is_within s e l
within_raised s e k l h a = ground (
  arith,
  lex_trans s k l,
  lex-swap k l,
  lex-swap s k,
  lex-swap s l,
  lex-swap l s,
  lex-swap k s,
  eq_of_lex s k,
  eq_of_lex k s,
)

within_lowered :
    (s e k l : List ℕ)
    → is_within s e k ≡ true
    → lex l k ≡ Ordering.lt
    → is_within s k l ≡ is_within s e l
within_lowered s e k l h a = ground (arith, lex_trans l k e)

under_start : (s e l : List ℕ) → lex l s ≡ Ordering.lt → is_within s e l ≡ false
under_start s e l h = ground arith

pub not_under_itself : (s k : List ℕ) → is_within s k k ≡ false
not_under_itself s k = ground (arith, lex_refl k)

over_end : (s e l : List ℕ) → lex e l ≡ Ordering.lt → is_within s e l ≡ false
over_end s e l h = ground (arith, lex-swap e l)

no_empty_key : (s e : List ℕ) → is_within (nonempty_start s) e [] ≡ false
unfolding lex
no_empty_key [] e = ground arith
no_empty_key (b ∷ bs) e = ground arith

-- The key of a row of a range is not empty: `nonempty_start` keeps it.
pub nonempty_start-within :
    (s e k : List ℕ) → is_within (nonempty_start s) e k ≡ true → nonempty_start k ≡ k
nonempty_start-within s e [] w = absurd (ground (arith, no_empty_key s e))
nonempty_start-within s e (b ∷ bs) w = refl

module _ {V : Type 0} where
  -- Of the first list, `r` is an element and the rest is what follows it.
  abbrev pub IsTail : List (KvRow V) → KvRow V → List (KvRow V) → Type 0
  IsTail [] r rest = ⊥
  IsTail (x ∷ xs) r rest = ((x ≡ r) × (xs ≡ rest)) ⊎ IsTail xs r rest

  pub IsTail-next :
      (xs : List (KvRow V)) (r x : KvRow V) (rest : List (KvRow V))
      → IsTail xs r (x ∷ rest)
      → IsTail xs x rest
  IsTail-next [] r x rest t = absurd t
  IsTail-next (y ∷ ys) r x rest (inl (e, f)) =
      inr (subst (λ l. IsTail l x rest) (sym f) (inl (refl, refl)))
  IsTail-next (y ∷ ys) r x rest (inr h) = inr (IsTail-next ys r x rest h)

  IsTail-if :
      (b : Bool) (x : KvRow V) (xs : List (KvRow V)) (r : KvRow V) (rest : List (KvRow V))
      → IsTail (if b then x ∷ xs else xs) r rest
      → ((b ≡ true) × (x ≡ r) × (xs ≡ rest)) ⊎ IsTail xs r rest
  IsTail-if true x xs r rest (inl (e, f)) = inl (refl, e, f)
  IsTail-if true x xs r rest (inr t) = inr t
  IsTail-if false x xs r rest t = inr t

  -- A property of all rows of a list holds at an element.
  IsTail-All :
      (P : KvRow V → Type 0) (s e : List ℕ) (rs : List (KvRow V)) (r : KvRow V)
      (rest : List (KvRow V))
      → All P rs
      → IsTail (rows_within s e rs) r rest
      → P r
  IsTail-All P s e [] r rest a t = absurd t
  IsTail-All P s e (x ∷ rs) r rest a t =
      elim (IsTail-if (is_within s e x.key_bytes) x (rows_within s e rs) r rest t) [
        | inl (w, g, f) ↦ subst P g a.0
        | inr u ↦ IsTail-All P s e rs r rest a.1 u
      ]

  pub IsTail-within :
      (s e : List ℕ) (rs : List (KvRow V)) (r : KvRow V) (rest : List (KvRow V))
      → IsTail (rows_within s e rs) r rest
      → is_within s e r.key_bytes ≡ true
  IsTail-within s e [] r rest t = absurd t
  IsTail-within s e (x ∷ rs) r rest t =
      elim (IsTail-if (is_within s e x.key_bytes) x (rows_within s e rs) r rest t) [
        | inl (w, g, f) ↦ subst (λ (y : KvRow V). is_within s e y.key_bytes ≡ true) g w
        | inr u ↦ IsTail-within s e rs r rest u
      ]

  -- The range of a later pass selects the same rows above its new start, or below its new end.
  within-raised :
      (s e k : List ℕ) (rs : List (KvRow V))
      → is_within s e k ≡ true
      → Above k rs
      → rows_within k e rs ≡ rows_within s e rs
  within-raised s e k [] w a = refl
  within-raised s e k (x ∷ rs) w a =
      rw (within_raised s e k x.key_bytes w a.0, within-raised s e k rs w a.1) refl

  within-lowered :
      (s e k : List ℕ) (rs : List (KvRow V))
      → is_within s e k ≡ true
      → Below k rs
      → rows_within s k rs ≡ rows_within s e rs
  within-lowered s e k [] w a = refl
  within-lowered s e k (x ∷ rs) w a =
      rw (within_lowered s e k x.key_bytes w a.0, within-lowered s e k rs w a.1) refl

  rows_within-skip :
      (s e : List ℕ) (x : KvRow V) (rs : List (KvRow V))
      → is_within s e x.key_bytes ≡ false
      → rows_within s e (x ∷ rs) ≡ rows_within s e rs
  rows_within-skip s e x rs h = rw h refl

  rows_within-take :
      (s e : List ℕ) (x : KvRow V) (rs : List (KvRow V))
      → is_within s e x.key_bytes ≡ true
      → rows_within s e (x ∷ rs) ≡ x ∷ rows_within s e rs
  rows_within-take s e x rs h = rw h refl

  -- A forward pass from the key of a row of the range reads this row and all after it.
  pub rows_within-raised :
      (s e : List ℕ) (rs : List (KvRow V)) (r : KvRow V) (rest : List (KvRow V))
      → IsSorted rs
      → IsTail (rows_within s e rs) r rest
      → rows_within r.key_bytes e rs ≡ r ∷ rest
  rows_within-raised s e [] r rest h t = absurd t
  rows_within-raised s e (x ∷ rs) r rest (a, h) t =
      elim (IsTail-if (is_within s e x.key_bytes) x (rows_within s e rs) r rest t) [
        | inl (w, g, f) ↦
            subst (λ (y : KvRow V). rows_within y.key_bytes e (x ∷ rs) ≡ y ∷ rest) g
              (rows_within-take x.key_bytes e x rs (within_self s e x.key_bytes w)
                ∙ ap (λ l. x ∷ l) (within-raised s e x.key_bytes rs w a ∙ f))
        | inr u ↦
            rows_within-skip r.key_bytes e x rs (
              under_start r.key_bytes e x.key_bytes
                (IsTail-All (λ y. lex x.key_bytes y.key_bytes ≡ Ordering.lt) s e rs r rest a u))
            ∙ rows_within-raised s e rs r rest h u
      ]

  -- A backward pass up to the key of a row of the range reads all after it.
  pub rows_within-lowered :
      (s e : List ℕ) (rs : List (KvRow V)) (r : KvRow V) (rest : List (KvRow V))
      → IsDescending rs
      → IsTail (rows_within s e rs) r rest
      → rows_within s r.key_bytes rs ≡ rest
  rows_within-lowered s e [] r rest h t = absurd t
  rows_within-lowered s e (x ∷ rs) r rest (a, h) t =
      elim (IsTail-if (is_within s e x.key_bytes) x (rows_within s e rs) r rest t) [
        | inl (w, g, f) ↦
            subst (λ (y : KvRow V). rows_within s y.key_bytes (x ∷ rs) ≡ rest) g
              (rows_within-skip s x.key_bytes x rs (not_under_itself s x.key_bytes)
                ∙ within-lowered s e x.key_bytes rs w a
                ∙ f)
        | inr u ↦
            rows_within-skip s r.key_bytes x rs (
              over_end s r.key_bytes x.key_bytes
                (IsTail-All (λ y. lex y.key_bytes x.key_bytes ≡ Ordering.lt) s e rs r rest a u))
            ∙ rows_within-lowered s e rs r rest h u
      ]
