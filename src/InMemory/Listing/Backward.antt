-- ===== src/InMemory/Listing/Backward.antt =====
-- `listRows` of npm/src/in_memory.ts in both directions.
use denokv.Prelude.{
  ℕ, ◌-◌, ◌≡◌, refl, ap, sym, ◌∙◌, Bool, true, false, List, [], ◌∷◌, ◌++◌, append-nil, length, take,
  All, leb, Bool-cases, inl, inr, if◌then◌else◌, Ordering, arith,
}
use denokv.Bytes.Order.{lex, compare_bytes-lex, lex_trans}
use denokv.InMemory.Rows.{KvRow, by_order}
use denokv.InMemory.Rows.Laws.{Above, IsSorted, Ordering-cases}
use denokv.InMemory.Listing.{backward_rows, reversed, list_rows}
use denokv.InMemory.Listing.Rows.{
  is_within, rows_within, full, take_nil, take_more, forward_rows_lem,
}

-- A key below one that is below `start` is below `start`.
before :
    (start end k l : List ℕ)
    → lex k start ≡ Ordering.lt
    → lex l k ≡ Ordering.lt
    → is_within start end l ≡ false
before start end k l h a = ground (arith, lex_trans l k start)

minus_zero : (n : ℕ) → n - 0 ≡ n
minus_zero n = omega arith

module _ {V : Type 0} where
  -- Every row stands below `k`.
  abbrev pub Below : List ℕ → List (KvRow V) → Type 0
  Below k rs = All (λ r. lex r.key_bytes k ≡ Ordering.lt) rs

  abbrev pub IsDescending : List (KvRow V) → Type 0
  IsDescending [] = Unit {0}
  IsDescending (r ∷ rs) = Below r.key_bytes rs × IsDescending rs

  Below-append :
      (k : List ℕ) (rs : List (KvRow V)) (s : KvRow V)
      → Below k rs
      → lex s.key_bytes k ≡ Ordering.lt
      → Below k (rs ++ (s ∷ []))
  Below-append k [] s b h = (h, tt)
  Below-append k (r ∷ rs) s b h = (b.0, Below-append k rs s b.1 h)

  -- A row of a list that stands below all of it.
  IsDescending-append :
      (rs : List (KvRow V)) (s : KvRow V)
      → IsDescending rs
      → Above s.key_bytes rs
      → IsDescending (rs ++ (s ∷ []))
  IsDescending-append [] s d a = (tt, tt)
  IsDescending-append (r ∷ rs) s d a =
      (Below-append r.key_bytes rs s d.0 a.0, IsDescending-append rs s d.1 a.1)

  Above-append :
      (k : List ℕ) (rs : List (KvRow V)) (s : KvRow V)
      → Above k rs
      → lex k s.key_bytes ≡ Ordering.lt
      → Above k (rs ++ (s ∷ []))
  Above-append k [] s a h = (h, tt)
  Above-append k (r ∷ rs) s a h = (a.0, Above-append k rs s a.1 h)

  Above-reversed : (k : List ℕ) (rs : List (KvRow V)) → Above k rs → Above k (reversed rs)
  unfolding reversed
  Above-reversed k [] a = tt
  Above-reversed k (r ∷ rs) a = Above-append k (reversed rs) r (Above-reversed k rs a.1) a.0

  pub reversed-IsDescending : (rs : List (KvRow V)) → IsSorted rs → IsDescending (reversed rs)
  unfolding reversed
  reversed-IsDescending [] h = tt
  reversed-IsDescending (r ∷ rs) h =
      IsDescending-append (reversed rs) r (reversed-IsDescending rs h.1)
        (Above-reversed r.key_bytes rs h.0)

  within-before :
      (start end k : List ℕ) (rs : List (KvRow V))
      → lex k start ≡ Ordering.lt
      → Below k rs
      → rows_within start end rs ≡ []
  within-before start end k [] h a = refl
  within-before start end k (r ∷ rs) h a =
      rw (before start end k r.key_bytes h a.0, within-before start end k rs h a.1) refl

  backward_rows-step :
      (start end : List ℕ) (limit : ℕ) (rt : List (KvRow V)) (r : KvRow V) (rs : List (KvRow V))
      → backward_rows start end limit rt (r ∷ rs) ≡ (
          if leb limit (length rt)
          then rt
          else by_order
              (lex r.key_bytes start)
              rt
              (by_order
                (lex r.key_bytes end)
                (backward_rows start end limit (rt ++ (r ∷ [])) rs)
                (backward_rows start end limit rt rs)
                (backward_rows start end limit rt rs))
              (by_order
                (lex r.key_bytes end)
                (backward_rows start end limit (rt ++ (r ∷ [])) rs)
                (backward_rows start end limit rt rs)
                (backward_rows start end limit rt rs)))
  unfolding backward_rows
  backward_rows-step start end limit rt r rs =
      rw (compare_bytes-lex r.key_bytes end, compare_bytes-lex r.key_bytes start) refl

  pub backward_rows_lem :
      (start end : List ℕ) (limit : ℕ) (rt rs : List (KvRow V))
      → IsDescending rs
      → backward_rows start end limit rt rs
        ≡ rt ++ take (limit - length rt) (rows_within start end rs)
  backward_rows_lem start end limit rt [] h =
      unfold backward_rows in rw (take_nil {A = KvRow V} (limit - length rt)) (sym (append-nil rt))
  backward_rows_lem start end limit rt (r ∷ rs) (a, h) =
      let ys = rows_within start end rs in
      let step = backward_rows-step start end limit rt r rs in
      let take_it : leb limit (length rt) ≡ false
          → backward_rows start end limit (rt ++ (r ∷ [])) rs
            ≡ rt ++ take (limit - length rt) (r ∷ ys) =
        (λ room.
          backward_rows_lem start end limit (rt ++ (r ∷ [])) rs h ∙ take_more limit rt r ys room) in
      let pass = backward_rows_lem start end limit rt rs h in
      let nothing : lex r.key_bytes start ≡ Ordering.lt → rt ≡ rt ++ take (limit - length rt) ys =
        (λ e.
          rw
            (within-before start end r.key_bytes rs e a, take_nil {A = KvRow V} (limit - length rt))
            (sym (append-nil rt))) in
      elim (Bool-cases (leb limit (length rt))) [
        | inl enough ↦ rw (step, enough, full limit (length rt) enough) (sym (append-nil rt))
        | inr room ↦
            rw (step, room)
              (elim (Ordering-cases (lex r.key_bytes start)) [
                | inl under ↦ elim (Ordering-cases (lex r.key_bytes end)) [
                  | inl e ↦ rw (under, e) (nothing under)
                  | inr (inl e) ↦ rw (under, e) (nothing under)
                  | inr (inr e) ↦ rw (under, e) (nothing under)
                ]
                | inr (inl same) ↦ elim (Ordering-cases (lex r.key_bytes end)) [
                  | inl e ↦ rw (same, e) (take_it room)
                  | inr (inl e) ↦ rw (same, e) pass
                  | inr (inr e) ↦ rw (same, e) pass
                ]
                | inr (inr above) ↦ elim (Ordering-cases (lex r.key_bytes end)) [
                  | inl e ↦ rw (above, e) (take_it room)
                  | inr (inl e) ↦ rw (above, e) pass
                  | inr (inr e) ↦ rw (above, e) pass
                ]
              ])
      ]

  abbrev pub directed : Bool → List (KvRow V) → List (KvRow V)
  directed true rs = reversed rs
  directed false rs = rs

  -- `listRows` on sorted rows: the rows whose keys are `start` or above and below `end`, in
  -- ascending order, or in descending order for `reverse`, cut off after `batchLimit` rows. The
  -- early end of its loop loses none of them.
  pub list_rows-rows_within :
      (start end : List ℕ) (reverse : Bool) (limit : ℕ) (rows : List (KvRow V))
      → IsSorted rows
      → list_rows start end reverse limit rows
        ≡ take limit (rows_within start end (directed reverse rows))
  unfolding list_rows
  list_rows-rows_within start end true limit rows h =
      backward_rows_lem start end limit [] (reversed rows) (reversed-IsDescending rows h)
      ∙ ap (λ n. take n (rows_within start end (reversed rows))) (minus_zero limit)
  list_rows-rows_within start end false limit rows h =
      forward_rows_lem start end limit [] rows h
      ∙ ap (λ n. take n (rows_within start end rows)) (minus_zero limit)
