-- ===== src/InMemory/Mutate/Keeps.antt =====
-- What the mutations of a commit keep of the rows, whether they return or throw.
use denokv.Prelude.{ℕ, Option, none, some, List, [], ◌∷◌, Result, ok, err, inl, inr}
use denokv.KvKey.{pack_key}
use denokv.KvUtil.Value.{Value, u64, byte_array, holder, plain}
use denokv.InMemory.Rows.{KvRow}
use denokv.InMemory.State.{Env, Watch}
use denokv.InMemory.Transaction.{
  Operand, Operation, KvMutation, set, delete, combine, after, copy_value, expiry, combined,
  operand_object, find_key, mutation_key,
}
use denokv.InMemory.Mutate.{
  Work, put_row, combine_value, combine_row, mutate_row, mutate_all, add_watch_ids,
}
use denokv.InMemory.Mutate.Refines.{Result-cases}

module _ {V : Type 0} (E : Env V) (P : E.tree.Tree → Type 0) (stamp : List ℕ)
    (keep_remove : (t : E.tree.Tree) (k : List ℕ) → P t → P (E.tree.remove t k))
    (keep_put : (t : E.tree.Tree) (k : List ℕ) (v : Value V) (e : Option ℕ)
      → P t
      → P (put_row E t k v stamp e)) where
  combine_value-keeps :
      (op : Operation) (k : List ℕ) (o : Operand) (v : Value V) (w : Work E)
      → P w.rows
      → P (combine_value E stamp op k o v w).1.rows
  unfolding combine_value
  combine_value-keeps op k o (u64 u) w h = elim (Result-cases (combined op u o)) [
    | inl (u', e) ↦ rw e (keep_put _ k (u64 u') none (keep_remove w.rows k h))
    | inr (x, e) ↦ rw e h
  ]
  combine_value-keeps op k o (byte_array bs) w h = h
  combine_value-keeps op k o (holder n) w h = h
  combine_value-keeps op k o (plain v) w h = h

  combine_row-keeps :
      (op : Operation) (k : List ℕ) (o : Operand) (found : Option (KvRow V)) (w : Work E)
      → P w.rows
      → P (combine_row E stamp op k o found w).1.rows
  unfolding combine_row
  combine_row-keeps op k o none w h = keep_put w.rows k (operand_object o) none h
  combine_row-keeps op k o (some r) w h = combine_value-keeps op k o r.value w h

  mutate_row-keeps :
      (now : ℕ) (m : KvMutation V) (w : Work E) → P w.rows → P (mutate_row E stamp now m w).1.rows
  unfolding mutate_row
  mutate_row-keeps now (set k v e) w h = elim (Result-cases (copy_value E v)) [
    | inl (c, p) ↦
        rw p (
          keep_put _ (pack_key E.text k) c (expiry now e)
            (keep_remove w.rows (pack_key E.text k) h))
    | inr (x, p) ↦ rw p (keep_remove w.rows (pack_key E.text k) h)
  ]
  mutate_row-keeps now (delete k) w h = keep_remove w.rows (pack_key E.text k) h
  mutate_row-keeps now (combine op k o) w h =
      combine_row-keeps op (pack_key E.text k) o (find_key E w.rows k) w h

  pub mutate_all-keeps :
      (now : ℕ) (watches : List (Watch V)) (ms : List (KvMutation V)) (w : Work E)
      → P w.rows
      → P (mutate_all E stamp now watches ms w).1.rows
  unfolding mutate_all
  mutate_all-keeps now watches [] w h = h
  mutate_all-keeps now watches (m ∷ ms) w h =
      next (mutate_row E stamp now m w) (mutate_row-keeps now m w h) (λ w' k.
        mutate_all-keeps now watches ms
          (record w' {
            watch_ids = add_watch_ids E (pack_key E.text (mutation_key m)) watches w'.watch_ids;
          })
          k)
    where
      next :
          (p : Result (Unit {0}) × Work E)
          → P p.1.rows
          → ((w' : Work E)
              → P w'.rows
              → P
                  (mutate_all E stamp now watches ms (record w' {
                    watch_ids =
                        add_watch_ids E (pack_key E.text (mutation_key m)) watches w'.watch_ids;
                  })).1.rows)
          → P
              (after p λ _ w'. mutate_all E stamp now watches ms (record w' {
                watch_ids = add_watch_ids E (pack_key E.text (mutation_key m)) watches w'.watch_ids;
              })).1.rows
      next (ok a, w') q ih = ih w' q
      next (err e, w') q ih = q
