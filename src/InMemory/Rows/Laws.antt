-- ===== src/InMemory/Rows/Laws.antt =====
-- Sorted lists of rows as maps from key bytes to rows.
use denokv.Prelude.{
  ℕ, ◌≡◌, refl, sym, ◌∙◌, none, some, ◌⊎◌, List, [], ◌∷◌, Ordering, All, if◌then◌else◌, arith, inl,
  inr, Bool-cases,
}
use denokv.Bytes.{compare_bytes, equal_bytes}
use denokv.Bytes.Order.{
  lex, lex_trans, eq_of_lex, lex-swap, compare_bytes-lex, equal_bytes_iff, equal_bytes_refl,
}
use denokv.InMemory.Rows.{KvRow, find_row, remove_row, insert_row, RowTree}

pub Ordering-cases : (o : Ordering) → (o ≡ Ordering.lt) ⊎ ((o ≡ Ordering.eq) ⊎ (o ≡ Ordering.gt))
Ordering-cases Ordering.lt = inl refl
Ordering-cases Ordering.eq = inr (inl refl)
Ordering-cases Ordering.gt = inr (inr refl)

module _ {V : Type 0} where
  pub find-remove :
      (j k : List ℕ) (rs : List (KvRow V))
      → find_row j (remove_row k rs) ≡ (if equal_bytes k j then none else find_row j rs)
  unfolding find_row remove_row
  find-remove j k [] = ground arith
  find-remove j k (r ∷ rs) = ground (
    arith,
    find-remove j k rs,
    equal_bytes_iff r.key_bytes k,
    equal_bytes_iff r.key_bytes j,
    equal_bytes_iff k j,
  )

  pub find-insert :
      (j : List ℕ) (r : KvRow V) (rs : List (KvRow V))
      → find_row r.key_bytes rs ≡ none
      → find_row j (insert_row r rs) ≡ (if equal_bytes r.key_bytes j then some r else find_row j rs)
  unfolding find_row insert_row
  find-insert j r [] h = refl
  find-insert j r (s ∷ rs) h = ground (
    arith,
    find-insert j r rs,
    equal_bytes_iff s.key_bytes r.key_bytes,
    equal_bytes_iff s.key_bytes j,
    equal_bytes_iff r.key_bytes j,
    compare_bytes-lex r.key_bytes s.key_bytes,
    eq_of_lex r.key_bytes s.key_bytes,
  )

  -- `rows.remove(keyRow(k)); rows.insert([k, …])` as an update of the map.
  pub find-replace :
      (j : List ℕ) (r : KvRow V) (rs : List (KvRow V))
      → find_row j (insert_row r (remove_row r.key_bytes rs))
        ≡ (if equal_bytes r.key_bytes j then some r else find_row j rs)
  find-replace j r rs = ground (
    arith,
    find-insert j r (remove_row r.key_bytes rs),
    find-remove r.key_bytes r.key_bytes rs,
    find-remove j r.key_bytes rs,
    equal_bytes_refl r.key_bytes,
  )

  -- Every row stands above `k`.
  abbrev pub Above : List ℕ → List (KvRow V) → Type 0
  Above k rs = All (λ r. lex k r.key_bytes ≡ Ordering.lt) rs

  abbrev pub IsSorted : List (KvRow V) → Type 0
  IsSorted [] = Unit {0}
  IsSorted (r ∷ rs) = Above r.key_bytes rs × IsSorted rs

  pub Above-trans :
      (j k : List ℕ) (rs : List (KvRow V)) → lex j k ≡ Ordering.lt → Above k rs → Above j rs
  Above-trans j k [] h a = tt
  Above-trans j k (r ∷ rs) h a = (lex_trans j k r.key_bytes h a.0, Above-trans j k rs h a.1)

  Above-remove : (j k : List ℕ) (rs : List (KvRow V)) → Above j rs → Above j (remove_row k rs)
  unfolding remove_row
  Above-remove j k [] a = tt
  Above-remove j k (r ∷ rs) a = elim (Bool-cases (equal_bytes r.key_bytes k)) [
    | inl same ↦ rw same (Above-remove j k rs a.1)
    | inr other ↦ rw other (a.0, Above-remove j k rs a.1)
  ]

  pub remove_row-IsSorted :
      (k : List ℕ) (rs : List (KvRow V)) → IsSorted rs → IsSorted (remove_row k rs)
  unfolding remove_row
  remove_row-IsSorted k [] h = tt
  remove_row-IsSorted k (r ∷ rs) h = elim (Bool-cases (equal_bytes r.key_bytes k)) [
    | inl same ↦ rw same (remove_row-IsSorted k rs h.1)
    | inr other ↦ rw other (Above-remove r.key_bytes k rs h.0, remove_row-IsSorted k rs h.1)
  ]

  Above-insert :
      (j : List ℕ) (r : KvRow V) (rs : List (KvRow V))
      → lex j r.key_bytes ≡ Ordering.lt
      → Above j rs
      → Above j (insert_row r rs)
  unfolding insert_row
  Above-insert j r [] h a = (h, tt)
  Above-insert j r (s ∷ rs) h a = elim (Ordering-cases (compare_bytes r.key_bytes s.key_bytes)) [
    | inl e ↦ rw e (h, a)
    | inr (inl e) ↦ rw e a
    | inr (inr e) ↦ rw e (a.0, Above-insert j r rs h a.1)
  ]

  pub insert_row-IsSorted :
      (r : KvRow V) (rs : List (KvRow V)) → IsSorted rs → IsSorted (insert_row r rs)
  unfolding insert_row
  insert_row-IsSorted r [] h = (tt, tt)
  insert_row-IsSorted r (s ∷ rs) h = elim (Ordering-cases (compare_bytes r.key_bytes s.key_bytes)) [
    | inl e ↦
        let below = sym (compare_bytes-lex r.key_bytes s.key_bytes) ∙ e in
        rw e ((below, Above-trans r.key_bytes s.key_bytes rs below h.0), h)
    | inr (inl e) ↦ rw e h
    | inr (inr e) ↦
        let above : lex s.key_bytes r.key_bytes ≡ Ordering.lt =
          ground
            (arith, lex-swap r.key_bytes s.key_bytes, compare_bytes-lex r.key_bytes s.key_bytes) in
        rw e (Above-insert s.key_bytes r rs above h.0, insert_row-IsSorted r rs h.1)
  ]

-- The sorted list itself, as a tree.
abbrev pub list_tree : (V : Type 0) → RowTree V
list_tree V = record {
  Tree = List (KvRow V);
  empty = [];
  find = λ t k. find_row k t;
  insert = λ t r. insert_row r t;
  remove = λ t k. remove_row k t;
  values = λ t. t;
  values-empty = refl;
  find-values = λ t k. refl;
  values-insert = λ t r. refl;
  values-remove = λ t k. refl;
}
