-- ===== src/InMemory/Listing/Rows.antt =====
-- `listRows` of npm/src/in_memory.ts on sorted rows.
use denokv.Prelude.{
  ℕ, zero, suc, ◌+◌, ◌-◌, ◌≡◌, ◌≢◌, refl, sym, ◌∙◌, Bool, true, false, List, [], ◌∷◌, ◌++◌,
  append-nil, append_assoc, length, length-append, take, leb, Bool-cases, inl, inr, if◌then◌else◌,
  Ordering, arith,
}
use denokv.Bytes.Order.{lex, compare_bytes-lex, lex_trans, lex-swap}
use denokv.InMemory.Rows.{KvRow, by_order}
use denokv.InMemory.Rows.Laws.{Above, IsSorted, Ordering-cases}
use denokv.InMemory.Listing.{forward_rows}

-- `start` is at most the key, and the key below `end`.
abbrev pub is_within : List ℕ → List ℕ → List ℕ → Bool
is_within start end k = by_order (lex k end) (by_order (lex k start) false true true) false false

pub full : (n m : ℕ) → leb n m ≡ true → n - m ≡ 0
full n m h = ground arith

pub not_full : (n m : ℕ) → leb n m ≡ false → n - m ≡ suc (n - (m + 1))
not_full n m h = ground arith

pub take_nil : {A : Type 0} (n : ℕ) → take {A = A} n [] ≡ []
take_nil zero = refl
take_nil (suc n) = refl

-- A key above one that is not below `end` is not below `end`.
beyond :
    (start end k l : List ℕ)
    → lex end k ≢ Ordering.gt
    → lex k l ≡ Ordering.lt
    → is_within start end l ≡ false
beyond start end k l h a = ground (arith, lex_trans k l end, lex-swap k end)

module _ {V : Type 0} where
  abbrev pub rows_within : List ℕ → List ℕ → List (KvRow V) → List (KvRow V)
  rows_within start end [] = []
  rows_within start end (r ∷ rs) =
      let rest = rows_within start end rs in
      if is_within start end r.key_bytes then r ∷ rest else rest

  pub take_none : (n m : ℕ) (xs : List (KvRow V)) → leb n m ≡ true → take (n - m) xs ≡ []
  take_none n m xs h = rw (full n m h) refl

  -- One more row was taken.
  pub take_more :
      (limit : ℕ) (rt : List (KvRow V)) (r : KvRow V) (ys : List (KvRow V))
      → leb limit (length rt) ≡ false
      → (rt ++ (r ∷ [])) ++ take (limit - length (rt ++ (r ∷ []))) ys
        ≡ rt ++ take (limit - length rt) (r ∷ ys)
  take_more limit rt r ys h =
      rw (length-append rt (r ∷ []), append_assoc, not_full limit (length rt) h) refl

  within-beyond :
      (start end k : List ℕ) (rs : List (KvRow V))
      → lex end k ≢ Ordering.gt
      → Above k rs
      → rows_within start end rs ≡ []
  within-beyond start end k [] h a = refl
  within-beyond start end k (r ∷ rs) h (a, as') =
      rw (beyond start end k r.key_bytes h a, within-beyond start end k rs h as') refl

  forward_rows-step :
      (start end : List ℕ) (limit : ℕ) (rt : List (KvRow V)) (r : KvRow V) (rs : List (KvRow V))
      → forward_rows start end limit rt (r ∷ rs) ≡ (
          if leb limit (length rt)
          then rt
          else by_order
              (lex r.key_bytes end)
              (by_order
                (lex r.key_bytes start)
                (forward_rows start end limit rt rs)
                (forward_rows start end limit (rt ++ (r ∷ [])) rs)
                (forward_rows start end limit (rt ++ (r ∷ [])) rs))
              rt
              rt)
  unfolding forward_rows
  forward_rows-step start end limit rt r rs =
      rw (compare_bytes-lex r.key_bytes end, compare_bytes-lex r.key_bytes start) refl

  pub forward_rows_lem :
      (start end : List ℕ) (limit : ℕ) (rt rs : List (KvRow V))
      → IsSorted rs
      → forward_rows start end limit rt rs
        ≡ rt ++ take (limit - length rt) (rows_within start end rs)
  forward_rows_lem start end limit rt [] h =
      unfold forward_rows in rw (take_nil {A = KvRow V} (limit - length rt)) (sym (append-nil rt))
  forward_rows_lem start end limit rt (r ∷ rs) (a, h) =
      let ys = rows_within start end rs in
      let step = forward_rows-step start end limit rt r rs in
      let take_it : leb limit (length rt) ≡ false
          → forward_rows start end limit (rt ++ (r ∷ [])) rs
            ≡ rt ++ take (limit - length rt) (r ∷ ys) =
        (λ room.
          forward_rows_lem start end limit (rt ++ (r ∷ [])) rs h ∙ take_more limit rt r ys room) in
      let nothing : lex end r.key_bytes ≢ Ordering.gt → rt ≡ rt ++ take (limit - length rt) ys =
        (λ e.
          rw
            (within-beyond start end r.key_bytes rs e a, take_nil {A = KvRow V} (limit - length rt))
            (sym (append-nil rt))) in
      elim (Bool-cases (leb limit (length rt))) [
        | inl enough ↦ rw (step, enough, full limit (length rt) enough) (sym (append-nil rt))
        | inr room ↦
            rw (step, room)
              (elim (Ordering-cases (lex r.key_bytes end)) [
                | inl before ↦ elim (Ordering-cases (lex r.key_bytes start)) [
                  | inl under ↦ rw (before, under) (forward_rows_lem start end limit rt rs h)
                  | inr (inl same) ↦ rw (before, same) (take_it room)
                  | inr (inr above) ↦ rw (before, above) (take_it room)
                ]
                | inr (inl same) ↦ rw same (nothing (ground (arith, lex-swap r.key_bytes end)))
                | inr (inr above) ↦ rw above (nothing (ground (arith, lex-swap r.key_bytes end)))
              ])
      ]
