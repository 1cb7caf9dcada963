-- ===== src/NapiBased/Watching.antt =====
-- `watch_` of npm/src/napi_based.ts. A pull is two steps, since it awaits the start of the watch.
use denokv.Prelude.{
  ℕ, Bool, true, false, ◌&&◌, Option, none, some, List, [], ◌∷◌, ◌++◌, if◌then◌else◌, Error, Result,
  ok, err, map, watch_unimplemented,
}
use denokv.KvKey.{TextCodec, KvKey, pack_key}
use denokv.KvUtil.Value.{Value}
use denokv.InMemory.State.{KvEntryMaybe}
use denokv.ProtoBased.Watch.{LastValues, process_output_keys}
use denokv.KvConnect.{sr_success, sr_read_disabled, sr_other, WatchOutput, Platform}

-- The variables of `watch_`, the controller of its raw stream, and the calls of `endWatch`, the newest
-- first.
pub record NapiWatch (V : Type 0) : Type 0 where
  pub watch_id : Option ℕ
  pub ended : Bool
  pub is_open : Bool
  pub last_values : LastValues V
  pub sent : List (List (KvEntryMaybe V))
  pub end_calls : List ℕ

abbrev pub new_napi_watch : {V : Type 0} → NapiWatch V
new_napi_watch = record {
  watch_id = none;
  ended = false;
  is_open = true;
  last_values = [];
  sent = [];
  end_calls = [];
}

abbrev pub end_calls_of : Option ℕ → Bool → List ℕ → List ℕ
end_calls_of (some id) false calls = id ∷ calls
end_calls_of (some id) true calls = calls
end_calls_of none ended calls = calls

-- `watch_`, with whether the library has its three functions.
unfoldable pub napi_watch_ : {V : Type 0} → Bool → Bool → Bool → Result (NapiWatch V)
napi_watch_ has_start has_dequeue has_end =
    if has_start && has_dequeue && has_end then ok new_napi_watch else err watch_unimplemented

-- What `startWatch` is called with.
abbrev pub watch_bytes : Platform → TextCodec → List KvKey → List ℕ
watch_bytes P text keys = P.encode_watch (map (pack_key text) keys)

module _ {V : Type 0} where
  unfoldable pub end_watch_if_necessary : NapiWatch V → NapiWatch V
  end_watch_if_necessary w = record w {
    ended = true;
    end_calls = end_calls_of w.watch_id w.ended w.end_calls;
  }

  abbrev pub with_started : Option ℕ → Result ℕ → NapiWatch V → NapiWatch V
  with_started (some id) answer w = w
  with_started none (ok id) w = record w { watch_id = some id }
  with_started none (err e) w = record w { is_open = false }

  -- `if (watchId === undefined) watchId = await startWatch(…)`
  unfoldable pub start_watch : Result ℕ → NapiWatch V → NapiWatch V
  start_watch answer w = with_started w.watch_id answer w

  -- `cancel` of either stream.
  abbrev pub cancel : NapiWatch V → NapiWatch V
  cancel w = end_watch_if_necessary w

  abbrev pub enqueued : Result (List (KvEntryMaybe V)) × LastValues V → NapiWatch V → NapiWatch V
  enqueued (ok es, values) w = record w { last_values = values; sent = w.sent ++ (es ∷ []) }
  enqueued (err e, values) w = record w { last_values = values; is_open = false }

module _ {V : Type 0} (P : Platform) (decode_v8 : List ℕ → Result (Value V))
    (encode_hex : List ℕ → List ℕ) (bad_first : Error) (keys : List KvKey) where
  abbrev pub with_output : Result WatchOutput → NapiWatch V → NapiWatch V
  with_output (err e) w = record w { is_open = false }
  with_output (ok out) w = elim out.status [
    | sr_success ↦
        enqueued (process_output_keys decode_v8 encode_hex bad_first keys out.keys w.last_values) w
    | sr_read_disabled ↦ record w { is_open = false }
    | sr_other ↦ record w { is_open = false }
  ]

  -- The rest of `pull`; an exception of it closes the stream with an error.
  unfoldable pub dequeue : Result (Option (List ℕ)) → NapiWatch V → NapiWatch V
  dequeue (err e) w = record w { is_open = false }
  dequeue (ok none) w = record (end_watch_if_necessary w) { is_open = false }
  dequeue (ok (some bytes)) w = with_output (P.decode_watch_output bytes) w
