-- ===== src/InMemory/Listing/Position.antt =====
-- Where `listStream` of npm/src/in_memory.ts stands between two passes, and what the next one selects
-- from.
use denokv.Prelude.{
  ℕ, ◌<◌, ◌≡◌, ◌⊎◌, refl, ap, sym, ◌∙◌, subst, Bool, true, false, Option, none, some, List, [], ◌∷◌,
  ◌++◌, All, length, take, Bool-cases, inl, inr, if◌then◌else◌, arith,
}
use denokv.Bytes.{equal_bytes}
use denokv.Bytes.Order.{equal_bytes_iff}
use denokv.InMemory.Rows.{KvRow}
use denokv.InMemory.Rows.Laws.{IsSorted}
use denokv.InMemory.State.{Env}
use denokv.InMemory.Listing.{
  KvListOptions, KvListSelector, is_same, or_else, batch_limit, nonempty_start, selector_start,
  selector_end, list_rows, reversed, pass_rows,
}
use denokv.InMemory.Listing.Rows.{is_within, rows_within}
use denokv.InMemory.Listing.Backward.{reversed-IsDescending, directed, list_rows-rows_within}
use denokv.InMemory.Listing.Suffix.{
  IsTail, IsTail-next, IsTail-within, rows_within-raised, rows_within-lowered,
  nonempty_start-within, not_under_itself,
}
use denokv.InMemory.Listing.Walk.{last_key}

module _ {V : Type 0} where
  pub All-IsTail :
      (P : KvRow V → Type 0) (xs : List (KvRow V)) (r : KvRow V) (rest : List (KvRow V))
      → All P xs
      → IsTail xs r rest
      → P r
  All-IsTail P [] r rest a t = absurd t
  All-IsTail P (x ∷ xs) r rest a (inl (e, f)) = subst P e a.0
  All-IsTail P (x ∷ xs) r rest a (inr t) = All-IsTail P xs r rest a.1 t

  -- The list that begins with an element.
  IsTail-first :
      (xs : List (KvRow V)) (y : KvRow V) (ys : List (KvRow V)) → xs ≡ y ∷ ys → IsTail xs y ys
  IsTail-first xs y ys e = subst (λ l. IsTail l y ys) (sym e) (inl (refl, refl))

module _ {V : Type 0} (E : Env V) (o : KvListOptions) (sel : KvListSelector)
    (rows : List (KvRow V)) where
  abbrev pub list_start : List ℕ
  list_start = nonempty_start (selector_start E.text sel)

  abbrev pub list_end : List ℕ
  list_end = selector_end E.text sel

  abbrev pub ranged : Bool → List (KvRow V)
  ranged reverse = rows_within list_start list_end (directed reverse rows)

  -- The rows of the range, in the order of the listing.
  abbrev pub listed_rows : List (KvRow V)
  listed_rows = rows_within list_start list_end (directed o.reverse rows)

  -- The rows that a pass selects from, without its limit.
  abbrev pub source : Bool → Option (List ℕ) → List (KvRow V)
  source true last = rows_within list_start (or_else last list_end) (directed true rows)
  source false last =
      rows_within (nonempty_start (or_else last (selector_start E.text sel))) list_end
        (directed false rows)

  -- What is still to be listed when this key was listed last.
  abbrev pub IsAt : Option (List ℕ) → List (KvRow V) → Type 0
  IsAt last ys =
      ((last ≡ none) × (listed_rows ≡ ys))
      ⊎ ((r : KvRow V) × (last ≡ some r.key_bytes) × IsTail listed_rows r ys)

  pub IsAt-first :
      (last : Option (List ℕ)) (y : KvRow V) (ys : List (KvRow V))
      → IsAt last (y ∷ ys)
      → IsTail listed_rows y ys
  IsAt-first last y ys (inl (e, f)) = IsTail-first listed_rows y ys f
  IsAt-first last y ys (inr (r, e, t)) = IsTail-next listed_rows r y ys t

  IsAt-last :
      (y : KvRow V) (xs zs : List (KvRow V))
      → IsTail listed_rows y (xs ++ zs)
      → IsAt (last_key E (some y.key_bytes) xs) zs
  IsAt-last y [] zs t = inr (y, refl, t)
  IsAt-last y (x ∷ xs) zs t = IsAt-last x xs zs (IsTail-next listed_rows y x (xs ++ zs) t)

  pub IsAt-advance :
      (last : Option (List ℕ)) (xs zs : List (KvRow V))
      → 0 < length xs
      → IsAt last (xs ++ zs)
      → IsAt (last_key E last xs) zs
  IsAt-advance last [] zs h a = absurd (omega arith)
  IsAt-advance last (x ∷ xs) zs h a = IsAt-last x xs zs (IsAt-first last x (xs ++ zs) a)

  abbrev pub StartsAfter : Option (List ℕ) → List (KvRow V) → Type 0
  StartsAfter last [] = Unit {0}
  StartsAfter last (y ∷ ys) = is_same last y.key_bytes ≡ false

  StartsAfter-below :
      (s k : List ℕ) (rs ys : List (KvRow V)) → rows_within s k rs ≡ ys → StartsAfter (some k) ys
  StartsAfter-below s k rs [] h = tt
  StartsAfter-below s k rs (y ∷ ys) h = elim (Bool-cases (equal_bytes k y.key_bytes)) [
    | inl same ↦
        let under = IsTail-within s k rs y ys (IsTail-first (rows_within s k rs) y ys h) in
        let itself =
          subst (λ (l : List ℕ). is_within s k l ≡ true)
            (sym ((equal_bytes_iff k y.key_bytes).0 same)) under in
        absurd (true_not_false (sym itself ∙ not_under_itself s k))
    | inr other ↦ other
  ]
    where
      true_not_false : true ≡ false → ⊥
      true_not_false e = ground arith

  source-after :
      (reverse : Bool) (r : KvRow V) (ys : List (KvRow V))
      → IsSorted rows
      → IsTail (ranged reverse) r ys
      → ((source reverse (some r.key_bytes) ≡ ys) × StartsAfter (some r.key_bytes) ys)
        ⊎ (source reverse (some r.key_bytes) ≡ r ∷ ys)
  source-after true r ys h t =
      let e =
        rows_within-lowered list_start list_end (reversed rows) r ys (reversed-IsDescending rows h)
          t in
      inl (e, StartsAfter-below list_start r.key_bytes (reversed rows) ys e)
  source-after false r ys h t =
      let k =
        nonempty_start-within (selector_start E.text sel) list_end r.key_bytes
          (IsTail-within list_start list_end rows r ys t) in
      inr (
        ap (λ (l : List ℕ). rows_within l list_end rows) k
        ∙ rows_within-raised list_start list_end rows r ys h t)

  pub source-none : (reverse : Bool) → source reverse none ≡ ranged reverse
  source-none true = refl
  source-none false = refl

  StartsAfter-none : (ys : List (KvRow V)) → StartsAfter none ys
  StartsAfter-none [] = tt
  StartsAfter-none (y ∷ ys) = refl

  -- What a pass selects from: what is still to be listed, or also the row before that.
  abbrev pub Selects : Option (List ℕ) → List (KvRow V) → Type 0
  Selects last ys =
      ((source o.reverse last ≡ ys) × StartsAfter last ys)
      ⊎ ((r : KvRow V) × (last ≡ some r.key_bytes) × (source o.reverse last ≡ r ∷ ys))

  pub IsAt-Selects :
      (last : Option (List ℕ)) (ys : List (KvRow V))
      → IsSorted rows
      → IsAt last ys
      → Selects last ys
  IsAt-Selects last ys h (inl (e, f)) =
      subst (λ l. Selects l ys) (sym e) (inl (source-none o.reverse ∙ f, StartsAfter-none ys))
  IsAt-Selects last ys h (inr (r, e, t)) =
      subst (λ l. Selects l ys) (sym e)
        (elim (source-after o.reverse r ys h t) [ inl p ↦ inl p | inr f ↦ inr (r, refl, f) ])

  pub pass_rows-source :
      (last : Option (List ℕ))
      → IsSorted rows
      → pass_rows E o sel last rows ≡ take (batch_limit o last) (source o.reverse last)
  pass_rows-source last h = at o.reverse
    where
      at :
          (reverse : Bool)
          → list_rows
              (nonempty_start (
                if reverse
                then selector_start E.text sel
                else or_else last (selector_start E.text sel)))
              (if reverse then or_else last list_end else list_end)
              reverse
              (batch_limit o last)
              rows
            ≡ take (batch_limit o last) (source reverse last)
      at true =
          list_rows-rows_within list_start (or_else last list_end) true (batch_limit o last) rows h
      at false =
          list_rows-rows_within (nonempty_start (or_else last (selector_start E.text sel))) list_end
            false (batch_limit o last) rows h
