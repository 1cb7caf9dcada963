-- ===== src/InMemory/Mutate/Refines.antt =====
-- The mutations of a commit as updates of a map from key bytes to rows.
use denokv.Prelude.{
  ℕ, ◌≡◌, refl, sym, ◌∙◌, Option, none, some, List, [], ◌∷◌, if◌then◌else◌, Error, Result, ok, err,
  ◌>>=◌, not_kv_u64, ◌⊎◌, inl, inr,
}
use denokv.Bytes.{equal_bytes}
use denokv.KvKey.{pack_key}
use denokv.KvUtil.Value.{Value, u64, byte_array, holder, plain}
use denokv.InMemory.Rows.{KvRow}
use denokv.InMemory.Rows.Laws.{find-remove, find-insert, find-replace}
use denokv.InMemory.State.{Env, Watch}
use denokv.InMemory.Transaction.{
  Operand, Operation, KvMutation, set, delete, combine, after, copy_value, expiry, combined,
  operand_object, mutation_key,
}
use denokv.InMemory.Mutate.{
  Work, put_row, combine_value, combine_row, mutate_row, mutate_all, add_watch_ids,
}

pub Result-cases {ℓ} :
    {A : Type ℓ} (r : Result A) → ((a : A) × (r ≡ ok a)) ⊎ ((e : Error) × (r ≡ err e))
Result-cases (ok a) = inl (a, refl)
Result-cases (err e) = inr (e, refl)

-- A store as a client sees it: the row of each key.
abbrev pub RowMap : Type 0 → Type 0
RowMap V = List ℕ → Option (KvRow V)

abbrev pub put : {V : Type 0} → KvRow V → RowMap V → RowMap V
put r f = λ j. if equal_bytes r.key_bytes j then some r else f j

abbrev pub drop_key : {V : Type 0} → List ℕ → RowMap V → RowMap V
drop_key k f = λ j. if equal_bytes k j then none else f j

module _ {V : Type 0} (E : Env V) where
  -- The specification of one mutation: what it stores, or the exception that it throws.
  spec_combined : Operation → Operand → Value V → Result (Value V)
  spec_combined op o (u64 u) = combined op u o >>= λ result. ok (u64 result)
  spec_combined op o (byte_array bs) = err not_kv_u64
  spec_combined op o (holder n) = err not_kv_u64
  spec_combined op o (plain v) = err not_kv_u64

  unfoldable pub spec_value : Operation → Operand → Option (KvRow V) → Result (Value V)
  unfolding spec_combined
  spec_value op o none = ok (operand_object o)
  spec_value op o (some r) = spec_combined op o r.value

  unfoldable pub spec_mutate : List ℕ → ℕ → KvMutation V → RowMap V → Result (RowMap V)
  spec_mutate stamp now (set k v e) f = do
    copy ← copy_value E v
    ok (
        put
          (record {
            key_bytes = pack_key E.text k;
            value = copy;
            versionstamp = stamp;
            expires = expiry now e;
          })
          f)
  spec_mutate stamp now (delete k) f = ok (drop_key (pack_key E.text k) f)
  spec_mutate stamp now (combine op k o) f = do
    v ← spec_value op o (f (pack_key E.text k))
    ok (
        put
          (record {
            key_bytes = pack_key E.text k;
            value = v;
            versionstamp = stamp;
            expires = none;
          })
          f)

  unfoldable pub spec_mutate_all : List ℕ → ℕ → List (KvMutation V) → RowMap V → Result (RowMap V)
  spec_mutate_all stamp now [] f = ok f
  spec_mutate_all stamp now (m ∷ ms) f = do
    g ← spec_mutate stamp now m f
    spec_mutate_all stamp now ms g

  -- The tree shows the map.
  pub record Shows (rows : E.tree.Tree) (f : RowMap V) : Type 0 where
    pub at_key : (j : List ℕ) → E.tree.find rows j ≡ f j

  -- A run answers as the specification does, and where it returns the tree shows the new map.
  pub data Refines : Result (RowMap V) → Result (Unit {0}) × Work E → Type 0 where
    returns : {g : RowMap V} {w : Work E} → Shows w.rows g → Refines (ok g) (ok tt, w)
    throws : {e : Error} {w : Work E} → Refines (err e) (err e, w)

  Shows-put :
      (rows : E.tree.Tree) (f : RowMap V) (k : List ℕ) (v : Value V) (stamp : List ℕ) (e : Option ℕ)
      → Shows rows f
      → Shows
          (put_row E (E.tree.remove rows k) k v stamp e)
          (put (record { key_bytes = k; value = v; versionstamp = stamp; expires = e }) f)
  Shows-put rows f k v stamp e h = record {
    at_key = λ j.
        E.tree.find-values _ j
        ∙ rw
            (
              E.tree.values-insert,
              E.tree.values-remove,
              find-replace,
              ← E.tree.find-values,
              h.at_key,
            )
            refl;
  }

  Shows-insert :
      (rows : E.tree.Tree) (f : RowMap V) (k : List ℕ) (v : Value V) (stamp : List ℕ) (e : Option ℕ)
      → Shows rows f
      → f k ≡ none
      → Shows
          (put_row E rows k v stamp e)
          (put (record { key_bytes = k; value = v; versionstamp = stamp; expires = e }) f)
  Shows-insert rows f k v stamp e h absent = record {
    at_key = λ j.
        let r : KvRow V = record { key_bytes = k; value = v; versionstamp = stamp; expires = e } in
        E.tree.find-values _ j
        ∙ rw E.tree.values-insert (
            find-insert j r (E.tree.values rows)
              (sym (E.tree.find-values rows k) ∙ h.at_key k ∙ absent)
            ∙ rw (← E.tree.find-values, h.at_key) refl);
  }

  Shows-remove :
      (rows : E.tree.Tree) (f : RowMap V) (k : List ℕ)
      → Shows rows f
      → Shows (E.tree.remove rows k) (drop_key k f)
  Shows-remove rows f k h = record {
    at_key = λ j.
        E.tree.find-values _ j
        ∙ rw (E.tree.values-remove, find-remove, ← E.tree.find-values, h.at_key) refl;
  }

  -- The map that a stored value makes.
  abbrev stored : RowMap V → List ℕ → List ℕ → Value V → Result (RowMap V)
  stored f k stamp v =
      ok (put (record { key_bytes = k; value = v; versionstamp = stamp; expires = none }) f)

  combine_value-Refines :
      (stamp : List ℕ) (op : Operation) (k : List ℕ) (o : Operand) (v : Value V) (w : Work E)
      (f : RowMap V)
      → Shows w.rows f
      → Refines (spec_combined op o v >>= stored f k stamp) (combine_value E stamp op k o v w)
  unfolding combine_value spec_combined
  combine_value-Refines stamp op k o (u64 u) w f h = elim (Result-cases (combined op u o)) [
    | inl (u', e) ↦ rw e (returns (Shows-put w.rows f k (u64 u') stamp none h))
    | inr (x, e) ↦ rw e throws
  ]
  combine_value-Refines stamp op k o (byte_array bs) w f h = throws
  combine_value-Refines stamp op k o (holder n) w f h = throws
  combine_value-Refines stamp op k o (plain v) w f h = throws

  combine_row-Refines :
      (stamp : List ℕ) (op : Operation) (k : List ℕ) (o : Operand) (found : Option (KvRow V))
      (w : Work E) (f : RowMap V)
      → Shows w.rows f
      → f k ≡ found
      → Refines (spec_value op o found >>= stored f k stamp) (combine_row E stamp op k o found w)
  unfolding combine_row spec_value
  combine_row-Refines stamp op k o none w f h absent =
      returns (Shows-insert w.rows f k (operand_object o) stamp none h absent)
  combine_row-Refines stamp op k o (some r) w f h there =
      combine_value-Refines stamp op k o r.value w f h

  mutate_row-Refines :
      (stamp : List ℕ) (now : ℕ) (m : KvMutation V) (w : Work E) (f : RowMap V)
      → Shows w.rows f
      → Refines (spec_mutate stamp now m f) (mutate_row E stamp now m w)
  unfolding mutate_row spec_mutate
  mutate_row-Refines stamp now (set k v e) w f h = elim (Result-cases (copy_value E v)) [
    | inl (c, p) ↦ rw p (returns (Shows-put w.rows f (pack_key E.text k) c stamp (expiry now e) h))
    | inr (x, p) ↦ rw p throws
  ]
  mutate_row-Refines stamp now (delete k) w f h =
      returns (Shows-remove w.rows f (pack_key E.text k) h)
  mutate_row-Refines stamp now (combine op k o) w f h =
      rw (h.at_key (pack_key E.text k))
        (combine_row-Refines stamp op (pack_key E.text k) o (f (pack_key E.text k)) w f h refl)

  go_on :
      (stamp : List ℕ) (now : ℕ) (watches : List (Watch V)) (m : KvMutation V)
      (ms : List (KvMutation V)) {r : Result (RowMap V)} {p : Result (Unit {0}) × Work E}
      → ((g : RowMap V) (w : Work E)
          → Shows w.rows g
          → Refines (spec_mutate_all stamp now ms g) (mutate_all E stamp now watches ms w))
      → Refines r p
      → Refines (r >>= spec_mutate_all stamp now ms) (
          after p λ _ w. mutate_all E stamp now watches ms (record w {
            watch_ids = add_watch_ids E (pack_key E.text (mutation_key m)) watches w.watch_ids;
          }))
  go_on stamp now watches m ms ih (returns {g} {w} h) =
      ih g
        (record w {
          watch_ids = add_watch_ids E (pack_key E.text (mutation_key m)) watches w.watch_ids;
        })
        (record { at_key = h.at_key })
  go_on stamp now watches m ms ih throws = throws

  -- The mutations of a commit, in order, do to the rows what the specification does to the map of
  -- rows: the loop throws exactly the exception that the specification throws, and where it
  -- returns, every key has the row that the specification gives it.
  pub mutate_all-Refines :
      (stamp : List ℕ) (now : ℕ) (watches : List (Watch V)) (ms : List (KvMutation V)) (w : Work E)
      (f : RowMap V)
      → Shows w.rows f
      → Refines (spec_mutate_all stamp now ms f) (mutate_all E stamp now watches ms w)
  unfolding mutate_all spec_mutate_all
  mutate_all-Refines stamp now watches [] w f h = returns h
  mutate_all-Refines stamp now watches (m ∷ ms) w f h =
      go_on stamp now watches m ms (λ g w' s. mutate_all-Refines stamp now watches ms w' g s)
        (mutate_row-Refines stamp now m w f h)
