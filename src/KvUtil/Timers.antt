-- ===== src/KvUtil/Timers.antt =====
-- `Expirer` and `QueueWorker` of npm/src/kv_util.ts. A pending timer is the delay that it was set
-- with; `setTimeout` takes a delay below zero for zero.
use denokv.Prelude.{
  ℕ, ◌-◌, Bool, true, false, Option, none, some, ltb, if◌then◌else◌, Result, ok, err,
  already_listening,
}

pub record Expirer : Type 0 where
  pub min_expires : Option ℕ
  pub expirer_timeout : Option ℕ

-- `minExpires !== undefined && minExpires < expires`
abbrev pub is_earlier : Option ℕ → ℕ → Bool
is_earlier none expires = false
is_earlier (some m) expires = ltb m expires

-- `now` is `Date.now()`.
unfoldable pub reschedule_expirer : ℕ → ℕ → Expirer → Expirer
reschedule_expirer now expires e =
    if is_earlier e.min_expires expires
    then e
    else record { min_expires = some expires; expirer_timeout = some (expires - now) }

unfoldable pub init_expirer : ℕ → Option ℕ → Expirer → Expirer
unfolding reschedule_expirer
init_expirer now none e = record e { min_expires = none }
init_expirer now (some m) e = reschedule_expirer now m (record e { min_expires = some m })

unfoldable pub finalize_expirer : Expirer → Expirer
finalize_expirer e = record e { expirer_timeout = none }

-- What `runExpirer` does with the result of `expireFn`. The timer has fired.
unfoldable pub after_expire : ℕ → Option ℕ → Expirer → Expirer
unfolding reschedule_expirer
after_expire now none e = record { min_expires = none; expirer_timeout = none }
after_expire now (some m) e =
    reschedule_expirer now m (record { min_expires = some m; expirer_timeout = none })

pub record QueueWorker : Type 0 where
  pub has_handler : Bool
  pub worker_timeout : Option ℕ
  pub handler_promise_resolved : Bool

unfoldable pub reschedule_worker : ℕ → QueueWorker → QueueWorker
reschedule_worker delay w =
    if w.has_handler
    then record w { worker_timeout = some delay }
    else record w { worker_timeout = none }

unfoldable pub listen : QueueWorker → Result QueueWorker
unfolding reschedule_worker
listen w =
    if w.has_handler
    then err already_listening
    else ok
        (reschedule_worker 0 (record w { has_handler = true; handler_promise_resolved = false }))

unfoldable pub finalize_worker : QueueWorker → QueueWorker
finalize_worker w = record w { worker_timeout = none; handler_promise_resolved = true }
