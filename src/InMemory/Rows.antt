-- ===== src/InMemory/Rows.antt =====
-- The rows of npm/src/in_memory.ts and the tree that keeps them sorted by their key bytes.
pub mod Laws
use denokv.Prelude.{ℕ, ◌≡◌, Bool, Option, none, some, List, [], ◌∷◌, Ordering, if◌then◌else◌}
use denokv.Bytes.{compare_bytes, equal_bytes}
use denokv.KvUtil.Value.{Value}

pub record KvRow (V : Type 0) : Type 0 where
  pub key_bytes : List ℕ
  pub value : Value V
  pub versionstamp : List ℕ
  pub expires : Option ℕ

abbrev pub by_order {ℓ} : {A : Type ℓ} → Ordering → A → A → A → A
by_order Ordering.lt a b c = a
by_order Ordering.eq a b c = b
by_order Ordering.gt a b c = c

module _ {V : Type 0} where
  -- The row with these key bytes.
  unfoldable pub find_row : List ℕ → List (KvRow V) → Option (KvRow V)
  find_row k [] = none
  find_row k (r ∷ rs) = if equal_bytes r.key_bytes k then some r else find_row k rs

  unfoldable pub remove_row : List ℕ → List (KvRow V) → List (KvRow V)
  remove_row k [] = []
  remove_row k (r ∷ rs) =
      let rest = remove_row k rs in if equal_bytes r.key_bytes k then rest else r ∷ rest

  -- A row whose key is there already is not inserted.
  unfoldable pub insert_row : KvRow V → List (KvRow V) → List (KvRow V)
  insert_row r [] = r ∷ []
  insert_row r (s ∷ rs) =
      by_order (compare_bytes r.key_bytes s.key_bytes) (r ∷ s ∷ rs) (s ∷ rs) (s ∷ insert_row r rs)

-- `RedBlackTree` of the standard library of Deno, with the comparator of `rows`. What the code
-- relies on: the tree holds a sorted list of rows, and `find`, `insert` and `remove` are those of
-- such a list.
pub record RowTree (V : Type 0) : Type 1 where
  pub Tree : Type 0
  pub empty : Tree
  pub find : Tree → List ℕ → Option (KvRow V)
  pub insert : Tree → KvRow V → Tree
  pub remove : Tree → List ℕ → Tree
  pub values : Tree → List (KvRow V)
  pub values-empty : values empty ≡ []
  pub find-values : (t : Tree) (k : List ℕ) → find t k ≡ find_row k (values t)
  pub values-insert : (t : Tree) (r : KvRow V) → values (insert t r) ≡ insert_row r (values t)
  pub values-remove : (t : Tree) (k : List ℕ) → values (remove t k) ≡ remove_row k (values t)
