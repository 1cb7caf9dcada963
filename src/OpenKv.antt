-- ===== src/OpenKv.antt =====
-- `openKv` of npm/src/npm.ts and `makeNativeService` of npm/src/native.ts: which implementation a KV is
-- opened with.
use denokv.Prelude.{
  ℕ, Bool, true, false, ◌&&◌, ◌||◌, Option, none, some, List, [], ◌∷◌, if◌then◌else◌, Result, ok,
  err, ◌>>=◌, ◌>>◌, guard, no_native_open_kv, no_access_token, unpaired_v8, not_a_function,
  incompatible_v8, no_v8_module, unexpected_napi,
}
use denokv.InMemory.Service.{InMemoryServiceOptions}
use denokv.Remote.{RemoteServiceOptions}
use denokv.NapiBased.{NapiFunction, is_napi_interface, looks_like_url}

pub data KvImplementation : Type 0 where
  impl_in_memory impl_sqlite impl_remote : KvImplementation

-- What an option or a global that is to be a function is, if it is there: `true` for a function.
abbrev pub MaybeFunction : Type 0
MaybeFunction = Option Bool

-- The options that are read; those of another type than expected are `none`.
pub record OpenOptions : Type 0 where
  pub debug : Option Bool
  pub implementation : Option KvImplementation
  pub max_queue_attempts : Option ℕ
  pub encode_v8 : MaybeFunction
  pub decode_v8 : MaybeFunction
  pub access_token : Option (List ℕ)
  pub max_retries : Option ℕ
  pub supported_versions : Option (List ℕ)
  pub napi : Option (Bool × (NapiFunction → Bool))
  pub in_memory : Option Bool

-- The global object: `Deno` with its `openKv`, `Bun`, the module `v8` with its two functions, and the
-- environment variable DENO_KV_ACCESS_TOKEN.
pub record Globals : Type 0 where
  pub deno : Option MaybeFunction
  pub has_bun : Bool
  pub v8_module : Option (MaybeFunction × MaybeFunction)
  pub env_access_token : Option (List ℕ)

-- Where the serializer comes from.
pub data Serializer : Type 0 where
  from_options from_v8_module : Serializer

-- The call of `openKv` of the service that is chosen.
pub data Opened : Type 0 where
  opened_native : Option (List ℕ) → Opened
  opened_in_memory : InMemoryServiceOptions → Option (List ℕ) → Opened
  opened_remote : RemoteServiceOptions → Serializer → List ℕ → Opened
  opened_sqlite : Option (Bool × (NapiFunction → Bool)) → Option Bool → Serializer → List ℕ → Opened

abbrev pub is_function : MaybeFunction → Bool
is_function none = false
is_function (some f) = f

-- `"Deno" in globalThis` and `typeof openKv === "function"`
abbrev pub has_native : Option MaybeFunction → Bool
has_native none = false
has_native (some f) = is_function f

-- `makeNativeService`
unfoldable pub make_native_service : Globals → Result (Option (List ℕ) → Opened)
make_native_service g = if has_native g.deno then ok opened_native else err no_native_open_kv

abbrev pub is_none : {A : Type 0} → Option A → Bool
is_none none = true
is_none (some a) = false

-- `path === undefined || path === ""`
abbrev pub has_no_path : Option (List ℕ) → Bool
has_no_path none = true
has_no_path (some []) = true
has_no_path (some (c ∷ cs)) = false

abbrev pub is_in_memory : Option KvImplementation → Bool
is_in_memory (some impl_in_memory) = true
is_in_memory (some impl_sqlite) = false
is_in_memory (some impl_remote) = false
is_in_memory none = false

abbrev pub is_remote : Option KvImplementation → Bool
is_remote (some impl_in_memory) = false
is_remote (some impl_sqlite) = false
is_remote (some impl_remote) = true
is_remote none = false

-- The serializer of the module `v8`.
abbrev pub platform_serializer : Globals → Result Serializer
platform_serializer g = if g.has_bun then err incompatible_v8 else elim g.v8_module [
  | none ↦ err no_v8_module
  | some (s, d) ↦ if is_function s && is_function d then ok from_v8_module else err not_a_function
]

abbrev pub choose_serializer : Globals → MaybeFunction → MaybeFunction → Result Serializer
choose_serializer g none none = platform_serializer g
choose_serializer g none (some d) = err unpaired_v8
choose_serializer g (some e) none = err unpaired_v8
choose_serializer g (some e) (some d) = if e && d then ok from_options else err not_a_function

-- `typeof opts.accessToken === "string" && opts.accessToken !== ""`, or the environment variable.
abbrev pub token_of : Option (List ℕ) → Option (List ℕ) → Result (List ℕ)
token_of (some (c ∷ cs)) env = ok (c ∷ cs)
token_of (some []) (some t) = ok t
token_of (some []) none = err no_access_token
token_of none (some t) = ok t
token_of none none = err no_access_token

abbrev pub valid_napi : Option (Bool × (NapiFunction → Bool)) → Bool
valid_napi none = true
valid_napi (some (r, f)) = is_napi_interface r f

abbrev pub remote_service : Globals → OpenOptions → List ℕ → Serializer → Result Opened
remote_service g o path s = do
  token ← token_of o.access_token g.env_access_token
  ok (
      opened_remote
        (record {
          access_token = token;
          max_retries = o.max_retries;
          supported_versions = o.supported_versions;
        })
        s path)

abbrev pub sqlite_service : OpenOptions → List ℕ → Serializer → Result Opened
sqlite_service o path s = do
  guard (valid_napi o.napi) unexpected_napi
  ok (opened_sqlite o.napi o.in_memory s path)

unfoldable pub open_service : Globals → OpenOptions → List ℕ → Result Opened
open_service g o path = choose_serializer g o.encode_v8 o.decode_v8 >>= λ s.
    if looks_like_url path || is_remote o.implementation
    then remote_service g o path s
    else sqlite_service o path s

abbrev pub path_text : Option (List ℕ) → List ℕ
path_text none = []
path_text (some p) = p

-- `openKv`
unfoldable pub open_kv : Globals → OpenOptions → Option (List ℕ) → Result Opened
open_kv g o path =
    if has_native g.deno && is_none o.implementation
    then ok (opened_native path)
    else if has_no_path path || is_in_memory o.implementation
    then ok (
        opened_in_memory (record { debug = o.debug; max_queue_attempts = o.max_queue_attempts })
          path)
    else open_service g o (path_text path)
