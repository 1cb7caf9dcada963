-- ===== src/InMemory/Expiry.antt =====
-- `expire` of npm/src/in_memory.ts: what the expirer's timer runs.
pub mod Laws
use denokv.Prelude.{ℕ, Bool, true, false, Option, none, some, List, [], ◌∷◌, leb, if◌then◌else◌}
use denokv.KvUtil.Timers.{after_expire}
use denokv.InMemory.Rows.{KvRow}
use denokv.InMemory.State.{Env, Store}
use denokv.InMemory.Transaction.{earliest}

-- `expires !== undefined && expires <= now`
abbrev pub is_expired : {V : Type 0} → ℕ → KvRow V → Bool
is_expired now r = elim r.expires [ none ↦ false | some e ↦ leb e now ]

module _ {V : Type 0} where
  -- The rows to remove, in order.
  unfoldable pub expired_rows : ℕ → List (KvRow V) → List (KvRow V)
  expired_rows now [] = []
  expired_rows now (r ∷ rs) =
      let rest = expired_rows now rs in if is_expired now r then r ∷ rest else rest

  -- `minExpires` at the end of the loop: the removed rows count too.
  unfoldable pub min_expires : Option ℕ → List (KvRow V) → Option ℕ
  min_expires m [] = m
  min_expires m (r ∷ rs) = min_expires (earliest r.expires m) rs

module _ {V : Type 0} (E : Env V) where
  unfoldable pub remove_rows : List (KvRow V) → E.tree.Tree → E.tree.Tree
  remove_rows [] t = t
  remove_rows (r ∷ rs) t = remove_rows rs (E.tree.remove t r.key_bytes)

  unfoldable pub expire : ℕ → E.tree.Tree → Option ℕ × E.tree.Tree
  expire now t =
      (min_expires none (E.tree.values t), remove_rows (expired_rows now (E.tree.values t)) t)

  -- `runExpirer` with the `expireFn` of the constructor.
  unfoldable pub run_expirer : ℕ → Store E → Store E
  run_expirer now s =
      let (m, rows) = expire now s.rows in
      record s { rows = rows; expirer = after_expire now m s.expirer }
