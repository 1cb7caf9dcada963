-- ===== src/Prelude/Outcome.antt =====
-- The errors that the sources throw, and results that may be one.
use Prim.Native.Nat.{ℕ}
use mathlib.Core.Path.{◌≡◌, refl}
use mathlib.Core.Bool.{Bool, true, false}

-- One constructor for each `throw` of the modelled sources, and for each exception of the platform
-- that they let through.
pub data Error : Type 0 where
  trailing_bytes : ℕ → Error
  unsupported_typecode : ℕ → Error
  out_of_range : Error
  bad_value_holder : Error
  value_too_large : Error
  value_negative : Error
  empty_key : Error
  bad_expire_in : Error
  bad_versionstamp : Error
  bad_limit bad_batch_size bad_selector bad_consistency : Error
  unsupported_encoding : Error
  data_clone : Error
  not_kv_u64 : Error
  closed : Error
  stream_closed : Error
  -- No exception of the program: a loop of the model stopped early.
  out_of_fuel : Error
  no_keys : Error
  cursor_before_iteration : Error
  already_listening : Error
  decode_empty : Error
  unsupported_version : ℕ → Error
  unsupported_v8 : Error
  set_failed : Error
  http_status : ℕ → Error
  bad_content_type bad_database_metadata no_response_body : Error
  retries_exhausted : Error → Error
  bad_supported_versions bad_path no_supported_version bad_token no_endpoints no_endpoint
        invalid_url :
      Error
  response_checks_failed : Error
  watch_unsupported read_disabled_after_retry unexpected_status : Error
  listen_queue_unsupported no_reader : Error
  no_default_napi watch_unimplemented unexpected_napi : Error
  no_native_open_kv no_access_token unpaired_v8 not_a_function incompatible_v8 no_v8_module : Error

-- An exception, or the value that was returned.
pub data Result {ℓ} (T : Type ℓ) : Type ℓ where
  err : Error → Result T
  ok : T → Result T

-- The statements after a call: an exception skips them.
infixl 5 ◌>>=◌
abbrev pub ◌>>=◌ {ℓ κ} : {S : Type ℓ} {T : Type κ} → Result S → (S → Result T) → Result T
err e >>= next = err e
ok x >>= next = next x

infixl 5 ◌>>◌
abbrev pub ◌>>◌ {ℓ} : {T : Type ℓ} → Result (Unit {0}) → Result T → Result T
err e >> next = err e
ok x >> next = next

-- `if (!valid) throw e;`
abbrev pub guard : Bool → Error → Result (Unit {0})
guard valid e = elim valid [ true ↦ ok tt | false ↦ err e ]

-- What holds of the value of a result, if it has one.
abbrev pub Ensures : {T : Type 0} → (T → Type 0) → Result T → Type 0
Ensures Q (ok t) = Q t
Ensures Q (err e) = Unit {0}

pub guard-Ensures :
    {T : Type 0} (Q : T → Type 0) (b : Bool) (e : Error) (r : Result T)
    → (b ≡ true → Ensures Q r)
    → Ensures Q (guard b e >> r)
guard-Ensures Q true e r h = h refl
guard-Ensures Q false e r h = tt

pub bind-Ensures :
    {A B : Type 0} (Q : B → Type 0) (r : Result A) (f : A → Result B)
    → ((a : A) → r ≡ ok a → Ensures Q (f a))
    → Ensures Q (r >>= f)
bind-Ensures Q (ok a) f h = h a refl
bind-Ensures Q (err e) f h = tt

-- The condition of a first call, kept for what follows.
pub seq-Ensures :
    {A B : Type 0} (P : A → Type 0) (Q : B → Type 0) (r : Result A) (f : A → Result B)
    → Ensures P r
    → ((a : A) → P a → Ensures Q (f a))
    → Ensures Q (r >>= f)
seq-Ensures P Q (ok a) f h k = k a h
seq-Ensures P Q (err e) f h k = tt

pub then-Ensures :
    {B : Type 0} (P : Type 0) (Q : B → Type 0) (r : Result (Unit {0})) (s : Result B)
    → Ensures (λ _. P) r
    → (P → Ensures Q s)
    → Ensures Q (r >> s)
then-Ensures P Q (ok a) s h k = k h
then-Ensures P Q (err e) s h k = tt

pub weaken-Ensures :
    {T : Type 0} (P Q : T → Type 0) (r : Result T)
    → Ensures P r
    → ((t : T) → P t → Ensures Q (ok t))
    → Ensures Q r
weaken-Ensures P Q (ok t) h k = k t h
weaken-Ensures P Q (err e) h k = tt

-- No exception.
abbrev pub IsOk : {T : Type 0} → Result T → Type 0
IsOk (ok t) = Unit {0}
IsOk (err e) = ⊥

pub bind-IsOk :
    {A B : Type 0} (r : Result A) (f : A → Result B)
    → IsOk r
    → ((a : A) → IsOk (f a))
    → IsOk (r >>= f)
bind-IsOk (ok a) f h k = k a
bind-IsOk (err e) f h k = absurd h

pub then-IsOk :
    {B : Type 0} (r : Result (Unit {0})) (s : Result B) → IsOk r → IsOk s → IsOk (r >> s)
then-IsOk (ok a) s h k = k
then-IsOk (err e) s h k = absurd h

pub of_IsOk : {T : Type 0} (P : Type 0) (r : Result T) → IsOk r → Ensures (λ _. P) r → P
of_IsOk P (ok t) h k = k
of_IsOk P (err e) h k = absurd h
