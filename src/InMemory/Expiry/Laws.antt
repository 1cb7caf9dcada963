-- ===== src/InMemory/Expiry/Laws.antt =====
-- What `expire` of npm/src/in_memory.ts removes.
use denokv.Prelude.{
  ℕ, ◌≡◌, ◌≢◌, refl, ap, sym, ◌∙◌, false, List, [], ◌∷◌, if◌then◌else◌, Bool-cases, inl, inr,
  Ordering, arith,
}
use denokv.Bytes.{equal_bytes}
use denokv.Bytes.Order.{lex, lex_refl, equal_bytes_iff, equal_bytes_refl}
use denokv.InMemory.Rows.{KvRow, remove_row}
use denokv.InMemory.Rows.Laws.{Above, IsSorted}
use denokv.InMemory.State.{Env}
use denokv.InMemory.Expiry.{is_expired, expired_rows, remove_rows, expire}

lt_not_eq : Ordering.lt ≢ Ordering.eq
lt_not_eq e = ground arith

lt_differ : (j k : List ℕ) → lex j k ≡ Ordering.lt → j ≢ k
lt_differ j k h e = lt_not_eq (sym h ∙ ap (λ t. lex t k) e ∙ lex_refl k)

below_differ : (j k : List ℕ) → lex j k ≡ Ordering.lt → equal_bytes k j ≡ false
below_differ j k h = elim (Bool-cases (equal_bytes k j)) [
  | inl same ↦ absurd (lt_differ j k h (sym ((equal_bytes_iff k j).0 same)))
  | inr other ↦ other
]

above_differ : (j k : List ℕ) → lex j k ≡ Ordering.lt → equal_bytes j k ≡ false
above_differ j k h = elim (Bool-cases (equal_bytes j k)) [
  | inl same ↦ absurd (lt_differ j k h ((equal_bytes_iff j k).0 same))
  | inr other ↦ other
]

module _ {V : Type 0} where
  abbrev pub living : ℕ → List (KvRow V) → List (KvRow V)
  living now [] = []
  living now (r ∷ rs) = let rest = living now rs in if is_expired now r then rest else r ∷ rest

  abbrev pub remove_list : List (KvRow V) → List (KvRow V) → List (KvRow V)
  remove_list [] rs = rs
  remove_list (x ∷ xs) rs = remove_list xs (remove_row x.key_bytes rs)

  remove_row-Above : (k : List ℕ) (rs : List (KvRow V)) → Above k rs → remove_row k rs ≡ rs
  unfolding remove_row
  remove_row-Above k [] a = refl
  remove_row-Above k (r ∷ rs) a =
      rw (below_differ k r.key_bytes a.0, remove_row-Above k rs a.1) refl

  remove_row-head :
      (r : KvRow V) (rs : List (KvRow V))
      → Above r.key_bytes rs
      → remove_row r.key_bytes (r ∷ rs) ≡ rs
  remove_row-head r rs a =
      unfold remove_row in rw equal_bytes_refl (remove_row-Above r.key_bytes rs a)

  -- Rows above the first one leave it in its place.
  remove_list-Above :
      (xs : List (KvRow V)) (r : KvRow V) (rs : List (KvRow V))
      → Above r.key_bytes xs
      → remove_list xs (r ∷ rs) ≡ r ∷ remove_list xs rs
  unfolding remove_row
  remove_list-Above [] r rs a = refl
  remove_list-Above (x ∷ xs) r rs a =
      rw (above_differ r.key_bytes x.key_bytes a.0)
        (remove_list-Above xs r (remove_row x.key_bytes rs) a.1)

  expired_rows-Above :
      (now : ℕ) (k : List ℕ) (rs : List (KvRow V)) → Above k rs → Above k (expired_rows now rs)
  unfolding expired_rows
  expired_rows-Above now k [] a = tt
  expired_rows-Above now k (r ∷ rs) a = elim (Bool-cases (is_expired now r)) [
    | inl e ↦ rw e (a.0, expired_rows-Above now k rs a.1)
    | inr e ↦ rw e (expired_rows-Above now k rs a.1)
  ]

  remove_list-expired :
      (now : ℕ) (rs : List (KvRow V))
      → IsSorted rs
      → remove_list (expired_rows now rs) rs ≡ living now rs
  unfolding expired_rows
  remove_list-expired now [] h = refl
  remove_list-expired now (r ∷ rs) h = elim (Bool-cases (is_expired now r)) [
    | inl e ↦ rw e (
        ap (remove_list (expired_rows now rs)) (remove_row-head r rs h.0)
        ∙ remove_list-expired now rs h.1)
    | inr e ↦ rw e (
        remove_list-Above (expired_rows now rs) r rs (expired_rows-Above now r.key_bytes rs h.0)
        ∙ ap (λ t. r ∷ t) (remove_list-expired now rs h.1))
  ]

module _ {V : Type 0} (E : Env V) where
  values-remove_rows :
      (xs : List (KvRow V)) (t : E.tree.Tree)
      → E.tree.values (remove_rows E xs t) ≡ remove_list xs (E.tree.values t)
  unfolding remove_rows
  values-remove_rows [] t = refl
  values-remove_rows (x ∷ xs) t =
      values-remove_rows xs (E.tree.remove t x.key_bytes)
      ∙ ap (remove_list xs) (E.tree.values-remove t x.key_bytes)

  -- `expire` on sorted rows removes exactly the rows whose time has come, and keeps the others in
  -- their order.
  pub expire-living :
      (now : ℕ) (t : E.tree.Tree)
      → IsSorted (E.tree.values t)
      → E.tree.values (expire E now t).1 ≡ living now (E.tree.values t)
  unfolding expire
  expire-living now t h =
      values-remove_rows (expired_rows now (E.tree.values t)) t
      ∙ remove_list-expired now (E.tree.values t) h
