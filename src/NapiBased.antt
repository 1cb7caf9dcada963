-- ===== src/NapiBased.antt =====
-- npm/src/napi_based.ts: a KV over the calls of a native library.
pub mod Watching
pub mod Steps
pub mod Once
use denokv.Prelude.{
  ℕ, ◌+◌, Bool, true, false, not, ◌&&◌, ◌||◌, Option, none, some, List, [], ◌∷◌, all, leb, ◌==◌,
  if◌then◌else◌, Error, Result, ok, err, ◌>>=◌, ◌>>◌, guard, bad_path, no_default_napi,
}
use denokv.KvUtil.Value.{Value}
use denokv.ProtoBased.{ReadRange, AtomicWrite, WriteStatus}
use denokv.KvConnect.{SnapshotReadOutput, Platform}

-- The functions of the native library. `k` is the number of the call: it may answer each as it
-- likes.
pub record NapiInterface : Type 0 where
  pub open_path : List ℕ → Option Bool → Result ℕ
  pub snapshot_read : (k db_id : ℕ) → List ℕ → Result (List ℕ)
  pub atomic_write : (k db_id : ℕ) → List ℕ → Result (List ℕ)
  pub close_database : (k db_id : ℕ) → Result (Unit {0})

-- The names in `NAPI_FUNCTIONS`.
pub data NapiFunction : Type 0 where
  fn_open fn_close fn_snapshot_read fn_atomic_write : NapiFunction
  fn_dequeue_next_message fn_finish_message fn_start_watch : NapiFunction
  fn_dequeue_next_watch_message fn_end_watch : NapiFunction

abbrev pub napi_functions : List NapiFunction
napi_functions =
    fn_open ∷ fn_close ∷ fn_snapshot_read ∷ fn_atomic_write ∷ fn_dequeue_next_message
    ∷ fn_finish_message ∷ fn_start_watch ∷ fn_dequeue_next_watch_message ∷ fn_end_watch ∷ []

-- An object: whether it is a record, and which of the names are functions in it.
unfoldable pub is_napi_interface : Bool → (NapiFunction → Bool) → Bool
is_napi_interface is_record is_function = is_record && all is_function napi_functions

-- The characters of `/^https?:\/\//i`, in lower and upper case.
abbrev pub is_letter : ℕ → ℕ → Bool
is_letter lower c = c == lower || c + 32 == lower

abbrev pub starts_with : List (ℕ → Bool) → List ℕ → Bool
starts_with [] cs = true
starts_with (p ∷ ps) [] = false
starts_with (p ∷ ps) (c ∷ cs) = p c && starts_with ps cs

abbrev pub separator : List (ℕ → Bool)
separator = (λ c. c == b':') ∷ (λ c. c == b'/') ∷ (λ c. c == b'/') ∷ []

abbrev pub http_letters : List (ℕ → Bool) → List (ℕ → Bool)
http_letters rest = is_letter b'h' ∷ is_letter b't' ∷ is_letter b't' ∷ is_letter b'p' ∷ rest

unfoldable pub looks_like_url : List ℕ → Bool
looks_like_url path =
    starts_with (http_letters separator) path
    || starts_with (http_letters (is_letter b's' ∷ separator)) path

abbrev pub path_of : Option (List ℕ) → Result (List ℕ)
path_of none = err bad_path
path_of (some path) = ok path

abbrev pub napi_of : Option NapiInterface → Result NapiInterface
napi_of none = err no_default_napi
napi_of (some napi) = ok napi

-- `NapiBasedKv.of`: the library, and the id of the database.
unfoldable pub open_napi :
    Option (List ℕ) → Option NapiInterface → Option Bool → Result (NapiInterface × ℕ)
open_napi url napi in_memory = do
  path ← path_of url
  guard (not (looks_like_url path)) bad_path
  n ← napi_of napi
  db_id ← n.open_path path in_memory
  ok (n, db_id)

module _ (P : Platform) (N : NapiInterface) (db_id : ℕ) where
  unfoldable pub napi_snapshot_read : ℕ → List ReadRange → Result SnapshotReadOutput
  napi_snapshot_read k req = do
    res ← N.snapshot_read k db_id (P.encode_snapshot_read req)
    P.decode_snapshot_read_output res

  unfoldable pub napi_atomic_write : ℕ → AtomicWrite → Result (WriteStatus × List ℕ)
  napi_atomic_write k req = do
    res ← N.atomic_write k db_id (P.encode_atomic_write req)
    P.decode_atomic_write_output res

-- `close_`
abbrev pub napi_close : NapiInterface → ℕ → ℕ → Result (Unit {0})
napi_close N db_id k = N.close_database k db_id

-- A message that the library delivers: what the handler does with its value, and what the calls of
-- `finishMessage` with true and with false do.
pub record Delivery (V : Type 0) : Type 0 where
  pub bytes : List ℕ
  pub message_id : ℕ
  pub handled : Value V → Result (Unit {0})
  pub finished_true : Result (Unit {0})
  pub finished_false : Result (Unit {0})

-- The calls of `finishMessage`, in order.
abbrev pub Finishes : Type 0
Finishes = List (ℕ × Bool)

module _ {V : Type 0} (decode_v8 : List ℕ → Result (Value V)) where
  abbrev pub with_finish : ℕ × Bool → Result (Unit {0}) × Finishes → Result (Unit {0}) × Finishes
  with_finish call rest = (rest.0, call ∷ rest.1)

  -- The `catch` block.
  abbrev pub give_back : Delivery V → Result (Unit {0}) × Finishes → Result (Unit {0}) × Finishes
  give_back d rest =
      with_finish (d.message_id, false)
        (elim d.finished_false [ ok u ↦ rest | err e ↦ (err e, []) ])

  -- The `try` block, and what follows.
  abbrev pub with_handled :
      Delivery V → Result (Unit {0}) → Result (Unit {0}) × Finishes → Result (Unit {0}) × Finishes
  with_handled d (err e) rest = give_back d rest
  with_handled d (ok u) rest =
      with_finish (d.message_id, true)
        (elim d.finished_true [ ok v ↦ rest | err e ↦ give_back d rest ])

  -- A value that cannot be decoded ends the loop.
  abbrev pub with_value :
      Delivery V → Result (Value V) → Result (Unit {0}) × Finishes → Result (Unit {0}) × Finishes
  with_value d (err e) rest = (err e, [])
  with_value d (ok v) rest = with_handled d (d.handled v) rest

  -- `listenQueue_`, to which the library delivers these messages, and then an end or an exception.
  unfoldable pub listen_queue_ :
      Result (Unit {0}) → List (Delivery V) → Result (Unit {0}) × Finishes
  listen_queue_ last [] = (last, [])
  listen_queue_ last (d ∷ ds) = with_value d (decode_v8 d.bytes) (listen_queue_ last ds)
