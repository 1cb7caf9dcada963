-- ===== src/Remote/Watching.antt =====
-- `watch_` and `close_` of npm/src/remote.ts. A stream that was cancelled delivers the chunks up to
-- then.
pub mod Loop
pub mod Frames
pub mod Disabled
use denokv.Prelude.{
  ℕ, zero, suc, ◌+◌, ◌-◌, ◌*◌, Bool, true, false, not, ◌&&◌, Option, none, some, List, [], ◌∷◌,
  ◌++◌, length, map, ltb, if◌then◌else◌, Error, Result, ok, err, watch_unsupported,
  read_disabled_after_retry, unexpected_status, no_reader,
}
use denokv.Prelude.Int.{ℤ, pos, negsuc}
use denokv.Bytes.Reader.{ByteReader, read}
use denokv.KvKey.{TextCodec, KvKey, pack_key}
use denokv.KvUtil.Value.{Value}
use denokv.InMemory.State.{KvEntryMaybe}
use denokv.InMemory.Transaction.{after}
use denokv.ProtoBased.Watch.{LastValues, process_output_keys}
use denokv.KvConnect.Metadata.{eventual}
use denokv.KvConnect.{
  sr_success, sr_read_disabled, sr_other, WatchOutput, Platform, fetch_watch_stream,
}
use denokv.Remote.Watching.Loop.{
  StreamEnd, stream_ended, read_refused, unfinished, stream_failed, Messages, read_loop,
}
use denokv.Remote.{Config, RemoteKv, request_with, locate_endpoint_url}

-- The variables of `watch_`. `read_started` is `none` for -1.
pub record WatchState : Type 0 where
  pub read_disabled : Bool
  pub end_of_stream_reached : Bool
  pub reader_cancelled : Bool
  pub attempt : ℕ
  pub read_started : Option ℕ
  pub has_reader : Bool

abbrev pub new_watch : WatchState
new_watch = record {
  read_disabled = false;
  end_of_stream_reached = false;
  reader_cancelled = false;
  attempt = 1;
  read_started = none;
  has_reader = false;
}

abbrev pub cancel_reader_if_necessary : WatchState → WatchState
cancel_reader_if_necessary w = record w { reader_cancelled = true; has_reader = false }

-- The map `watches` keeps every watch.
abbrev pub watch_ : List WatchState → List WatchState
watch_ ws = ws ++ (new_watch ∷ [])

unfoldable pub close_ : List WatchState → List WatchState
close_ ws = map cancel_reader_if_necessary ws

-- `/watch`
abbrev pub watch_path : List ℕ
watch_path = b'/' ∷ b'w' ∷ b'a' ∷ b't' ∷ b'c' ∷ b'h' ∷ []

-- What a round of the generator sleeps before the next one, and its variables then; or its end.
pub data Next : Type 0 where
  again : WatchState → Next
  sleeps : ℕ → WatchState → Next
  finishes : Next

-- What the generator does in turn, with the backoff pauses of `yieldResultsLoop`, and how it ends. The
-- pauses of `executeWithRetries` between the attempts of one request are in Sleep.
pub data WatchEvent (V : Type 0) : Type 0 where
  yielded : List (KvEntryMaybe V) → WatchEvent V
  backed_off : ℕ → WatchEvent V

pub data WatchEnd : Type 0 where
  finished out_of_rounds : WatchEnd
  threw : Error → WatchEnd

abbrev pub read_duration : Option ℕ → ℕ → ℕ
read_duration none now = 0
read_duration (some started) now = now - started

-- The attempt counter that the backoff is computed from.
abbrev pub attempt_of : WatchState → ℕ → ℕ
attempt_of w now = if ltb 60000 (read_duration w.read_started now) then 1 else w.attempt

-- The end of a stream in the variables, with the `finally` block.
abbrev pub note_end : StreamEnd → WatchState → WatchState
note_end stream_ended w = record w { end_of_stream_reached = true; has_reader = false }
note_end read_refused w = record w { read_disabled = true; has_reader = false }
note_end unfinished w = record w { has_reader = false }
note_end (stream_failed e) w = record w { has_reader = false }

abbrev pub yielded_all : {V : Type 0} → List (List (KvEntryMaybe V)) → List (WatchEvent V)
yielded_all es = map yielded es

-- The variables when request number k has opened a stream.
abbrev pub opened : Platform → ℕ → WatchState → WatchState
opened P k w = record w {
  end_of_stream_reached = false;
  reader_cancelled = false;
  read_started = some (P.opened k);
  has_reader = true;
}

-- What `yieldResultsLoop` does after the stream of request number k.
unfoldable pub next_round : Platform → ℕ → WatchState → Next
next_round P k w =
    if w.read_disabled
    then again w
    else if w.end_of_stream_reached && not w.reader_cancelled
    then sleeps (P.backoff k (attempt_of w (P.ended k)))
        (record w { attempt = attempt_of w (P.ended k) + 1 })
    else finishes

-- Whether a stream is cancelled while it is read: not; or so that `reader` is undefined only after
-- the `finally` block of `yieldResults`; or before it, which then throws a TypeError.
pub data Cancellation : Type 0 where
  not_cancelled cancelled cancelled_early : Cancellation

abbrev pub after_stream : Cancellation → StreamEnd → WatchState → WatchState
after_stream not_cancelled end w = note_end end w
after_stream cancelled end w = cancel_reader_if_necessary (note_end end w)
after_stream cancelled_early end w = cancel_reader_if_necessary (note_end end w)

-- `reader.cancel()` in the `finally` block.
abbrev pub with_finally : {V : Type 0} → Cancellation → Messages V → Messages V
with_finally not_cancelled m = m
with_finally cancelled m = m
with_finally cancelled_early m = (m.0, stream_failed no_reader)

module _ {V : Type 0} where
  abbrev pub with_next :
      Next → (WatchState → List (WatchEvent V) × WatchEnd) → List (WatchEvent V) × WatchEnd
  with_next (again w) loop = loop w
  with_next (sleeps ms w) loop = let rest = loop w in (backed_off ms ∷ rest.0, rest.1)
  with_next finishes loop = ([], finished)

  -- What follows the messages of a stream.
  abbrev pub with_end : StreamEnd → List (WatchEvent V) × WatchEnd → List (WatchEvent V) × WatchEnd
  with_end stream_ended rest = rest
  with_end read_refused rest = rest
  with_end unfinished rest = ([], out_of_rounds)
  with_end (stream_failed e) rest = ([], threw e)

  abbrev pub with_messages :
      Messages V → List (WatchEvent V) × WatchEnd → List (WatchEvent V) × WatchEnd
  with_messages m rest =
      let after_end = with_end m.1 rest in (yielded_all m.0 ++ after_end.0, after_end.1)

module _ (P : Platform) (text : TextCodec) where
  -- `yieldResults` up to its loop: the chunks of the stream that it opens.
  unfoldable pub open_stream :
      Config → List KvKey → Bool → RemoteKv → Result (List (List ℕ)) × RemoteKv
  open_stream c keys read_disabled s =
      if ltb s.metadata.version 3
      then (err watch_unsupported, s)
      else after {B = List (List ℕ)} (locate_endpoint_url P c eventual read_disabled s) λ url t.
        let body = P.encode_watch (map (pack_key text) keys) in
        let q = request_with s.metadata (url ++ watch_path) body in
        (fetch_watch_stream P (length t.sent) c.max_retries q, record t { sent = q ∷ t.sent })

module _ {V : Type 0} (P : Platform) (text : TextCodec) (decode_v8 : List ℕ → Result (Value V))
    (encode_hex : List ℕ → List ℕ) (bad_first : Error) where
  abbrev pub with_stream :
      ℕ
      → (ℕ → Cancellation)
      → List KvKey
      → WatchState
      → Result (List (List ℕ)) × RemoteKv
      → (WatchState → RemoteKv → List (WatchEvent V) × WatchEnd)
      → List (WatchEvent V) × WatchEnd
  with_stream fuel cancels keys w (err e, s) loop = ([], threw e)
  with_stream fuel cancels keys w (ok chunks, s) loop =
      let messages =
        read_loop P decode_v8 encode_hex bad_first fuel keys w.read_disabled []
          (record { chunks = chunks; remaining = []; done = false }) in
      let k = length s.sent - 1 in
      with_messages (with_finally (cancels k) messages) (
        with_next (next_round P k (after_stream (cancels k) messages.1 (opened P k w)))
          λ v. loop v s)

  -- `yieldResultsLoop`, where `cancels k` is what happens to the stream of request number k, with so many streams at most, and so many messages in each.
  unfoldable pub watch_loop :
      ℕ
      → ℕ
      → (ℕ → Cancellation)
      → Config
      → List KvKey
      → WatchState
      → RemoteKv
      → List (WatchEvent V) × WatchEnd
  watch_loop zero fuel cancels c keys w s = ([], out_of_rounds)
  watch_loop (suc n) fuel cancels c keys w s =
      with_stream fuel cancels keys w (open_stream P text c keys w.read_disabled s)
        λ v t. watch_loop n fuel cancels c keys v t
