-- ===== src/Remote/Watching/Disabled.antt =====
-- The retries of a watch of npm/src/remote.ts after SR_READ_DISABLED.
use denokv.Prelude.{
  ℕ, zero, suc, ◌≡◌, refl, sym, ◌-◌, true, false, List, [], ◌∷◌, ◌++◌, All, length, Error, Result,
  ok, err, subst, arith,
}
use denokv.KvKey.{TextCodec, KvKey}
use denokv.KvUtil.Value.{Value}
use denokv.InMemory.State.{KvEntryMaybe}
use denokv.KvConnect.{Platform}
use denokv.Remote.{Config, RemoteKv}
use denokv.Remote.Watching.Loop.{
  StreamEnd, stream_ended, read_refused, unfinished, stream_failed, Messages, read_loop,
}
use denokv.Remote.Watching.{
  Cancellation, not_cancelled, cancelled, cancelled_early, with_finally, WatchState, again,
  WatchEvent, yielded, backed_off, WatchEnd, finished, out_of_rounds, threw, note_end, yielded_all,
  next_round, after_stream, opened, with_messages, with_next, with_stream, open_stream, watch_loop,
}

abbrev pub IsGoingOn : WatchEnd → Type 0
IsGoingOn finished = ⊥
IsGoingOn out_of_rounds = Unit {0}
IsGoingOn (threw e) = Unit {0}

module _ {V : Type 0} where
  abbrev pub IsYield : WatchEvent V → Type 0
  IsYield (yielded es) = Unit {0}
  IsYield (backed_off ms) = ⊥

  -- No backoff pause and no regular end.
  abbrev pub NeverBacksOff : List (WatchEvent V) × WatchEnd → Type 0
  NeverBacksOff p = All IsYield p.0 × IsGoingOn p.1

  All-yielded_all :
      (es : List (List (KvEntryMaybe V))) (rest : List (WatchEvent V))
      → All IsYield rest
      → All IsYield (yielded_all es ++ rest)
  All-yielded_all [] rest h = h
  All-yielded_all (e ∷ es) rest h = (tt, All-yielded_all es rest h)

note_end-disabled :
    (end : StreamEnd) (w : WatchState)
    → w.read_disabled ≡ true
    → (note_end end w).read_disabled ≡ true
note_end-disabled stream_ended w h = h
note_end-disabled read_refused w h = refl
note_end-disabled unfinished w h = h
note_end-disabled (stream_failed e) w h = h

after_stream-disabled :
    (c : Cancellation) (end : StreamEnd) (w : WatchState)
    → w.read_disabled ≡ true
    → (after_stream c end w).read_disabled ≡ true
after_stream-disabled not_cancelled end w h = note_end-disabled end w h
after_stream-disabled cancelled end w h = note_end-disabled end w h
after_stream-disabled cancelled_early end w h = note_end-disabled end w h

next_round-disabled :
    (P : Platform) (k : ℕ) (w : WatchState) → w.read_disabled ≡ true → next_round P k w ≡ again w
unfolding next_round
next_round-disabled P k w h = ground arith

module _ {V : Type 0} (P : Platform) (text : TextCodec) (decode_v8 : List ℕ → Result (Value V))
    (encode_hex : List ℕ → List ℕ) (bad_first : Error) where
  with_messages-NeverBacksOff :
      (m : Messages V) (rest : List (WatchEvent V) × WatchEnd)
      → NeverBacksOff rest
      → NeverBacksOff (with_messages m rest)
  with_messages-NeverBacksOff (es, stream_ended) rest (a, g) = (All-yielded_all es rest.0 a, g)
  with_messages-NeverBacksOff (es, read_refused) rest (a, g) = (All-yielded_all es rest.0 a, g)
  with_messages-NeverBacksOff (es, unfinished) rest h = (All-yielded_all es [] tt, tt)
  with_messages-NeverBacksOff (es, stream_failed e) rest h = (All-yielded_all es [] tt, tt)

  with_stream-NeverBacksOff :
      (fuel : ℕ) (cancels : ℕ → Cancellation) (keys : List KvKey) (w : WatchState)
      (o : Result (List (List ℕ)) × RemoteKv)
      (loop : WatchState → RemoteKv → List (WatchEvent V) × WatchEnd)
      → w.read_disabled ≡ true
      → ((v : WatchState) (s : RemoteKv) → v.read_disabled ≡ true → NeverBacksOff (loop v s))
      → NeverBacksOff (with_stream P text decode_v8 encode_hex bad_first fuel cancels keys w o loop)
  with_stream-NeverBacksOff fuel cancels keys w (err e, s) loop d h = (tt, tt)
  with_stream-NeverBacksOff fuel cancels keys w (ok chunks, s) loop d h =
      let k = length s.sent - 1 in
      let m =
        read_loop P decode_v8 encode_hex bad_first fuel keys w.read_disabled []
          (record { chunks = chunks; remaining = []; done = false }) in
      let v = after_stream (cancels k) m.1 (opened P k w) in
      let e = after_stream-disabled (cancels k) m.1 (opened P k w) d in
      with_messages-NeverBacksOff (with_finally (cancels k) m) _ (
        subst (λ n. NeverBacksOff (with_next n λ u. loop u s)) (sym (next_round-disabled P k v e))
          (h v s e))

  -- Once a watch has received SR_READ_DISABLED, `yieldResultsLoop` never takes its backoff pause again, however the streams that
  -- it opens end, and also when they are cancelled while it reads them: after any number of
  -- streams the loop has not backed off and has not finished. Only an exception ends it.
  pub watch_loop-NeverBacksOff :
      (n fuel : ℕ) (cancels : ℕ → Cancellation) (c : Config) (keys : List KvKey) (w : WatchState)
      (s : RemoteKv)
      → w.read_disabled ≡ true
      → NeverBacksOff (watch_loop P text decode_v8 encode_hex bad_first n fuel cancels c keys w s)
  unfolding watch_loop
  watch_loop-NeverBacksOff zero fuel cancels c keys w s d = (tt, tt)
  watch_loop-NeverBacksOff (suc n) fuel cancels c keys w s d =
      with_stream-NeverBacksOff fuel cancels keys w (open_stream P text c keys w.read_disabled s)
        (λ v t. watch_loop P text decode_v8 encode_hex bad_first n fuel cancels c keys v t) d
        (λ v t e. watch_loop-NeverBacksOff n fuel cancels c keys v t e)
