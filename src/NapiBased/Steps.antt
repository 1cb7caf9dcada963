-- ===== src/NapiBased/Steps.antt =====
-- The steps of a watch of npm/src/napi_based.ts, and what they keep.
use denokv.Prelude.{
  ℕ, ◌≡◌, refl, subst, Bool, true, Option, none, some, List, [], ◌∷◌, Error, Result, ok, err,
}
use denokv.KvKey.{KvKey}
use denokv.KvUtil.Value.{Value}
use denokv.InMemory.State.{KvEntryMaybe}
use denokv.ProtoBased.Watch.{LastValues, process_output_keys}
use denokv.KvConnect.{ReadStatus, sr_success, sr_read_disabled, sr_other, WatchOutput, Platform}
use denokv.NapiBased.Watching.{
  NapiWatch, end_watch_if_necessary, start_watch, with_started, end_calls_of, cancel, enqueued,
  with_output, dequeue,
}

-- What happens to a watch: the answer of `startWatch` or of `dequeueNextWatchMessage`, or a cancel.
pub data WatchStep : Type 0 where
  started : Result ℕ → WatchStep
  dequeued : Result (Option (List ℕ)) → WatchStep
  cancelled : WatchStep

-- A property of the id of the watch, of whether it has ended, and of the calls of `endWatch`.
abbrev pub EndProperty : Type 1
EndProperty = Option ℕ → Bool → List ℕ → Type 0

abbrev pub Holds : EndProperty → {V : Type 0} → NapiWatch V → Type 0
Holds Q w = Q w.watch_id w.ended w.end_calls

module _ {V : Type 0} (P : Platform) (decode_v8 : List ℕ → Result (Value V))
    (encode_hex : List ℕ → List ℕ) (bad_first : Error) (keys : List KvKey) where
  abbrev pub run_step : WatchStep → NapiWatch V → NapiWatch V
  run_step (started a) w = start_watch a w
  run_step (dequeued r) w = dequeue P decode_v8 encode_hex bad_first keys r w
  run_step cancelled w = cancel w

  abbrev pub run_steps : List WatchStep → NapiWatch V → NapiWatch V
  run_steps [] w = w
  run_steps (d ∷ ds) w = run_steps ds (run_step d w)

module _ {V : Type 0} (P : Platform) (decode_v8 : List ℕ → Result (Value V))
    (encode_hex : List ℕ → List ℕ) (bad_first : Error) (keys : List KvKey) (Q : EndProperty)
    (keep_end : (o : Option ℕ) (b : Bool) (calls : List ℕ)
      → Q o b calls
      → Q o true (end_calls_of o b calls))
    (keep_start : (id : ℕ) (b : Bool) (calls : List ℕ) → Q none b calls → Q (some id) b calls) where
  end_watch-keeps : (w : NapiWatch V) → Holds Q w → Holds Q (end_watch_if_necessary w)
  unfolding end_watch_if_necessary
  end_watch-keeps w h = keep_end w.watch_id w.ended w.end_calls h

  with_started-keeps :
      (o : Option ℕ) (a : Result ℕ) (w : NapiWatch V)
      → w.watch_id ≡ o
      → Holds Q w
      → Holds Q (with_started o a w)
  with_started-keeps (some id) a w e h = h
  with_started-keeps none (err x) w e h = h
  with_started-keeps none (ok id) w e h =
      keep_start id w.ended w.end_calls (subst (λ o. Q o w.ended w.end_calls) e h)

  enqueued-keeps :
      (r : Result (List (KvEntryMaybe V)) × LastValues V) (w : NapiWatch V)
      → Holds Q w
      → Holds Q (enqueued r w)
  enqueued-keeps (ok es, values) w h = h
  enqueued-keeps (err e, values) w h = h

  with_output-keeps :
      (r : Result WatchOutput) (w : NapiWatch V)
      → Holds Q w
      → Holds Q (with_output P decode_v8 encode_hex bad_first keys r w)
  with_output-keeps (err e) w h = h
  with_output-keeps (ok out) w h = by_status out.status
    where
      by_status :
          (status : ReadStatus)
          → Holds Q (
              with_output P decode_v8 encode_hex bad_first keys
                (ok (record { status = status; keys = out.keys }))
                w)
      by_status sr_success =
          enqueued-keeps
            (process_output_keys decode_v8 encode_hex bad_first keys out.keys w.last_values) w h
      by_status sr_read_disabled = h
      by_status sr_other = h

  run_step-keeps :
      (d : WatchStep) (w : NapiWatch V)
      → Holds Q w
      → Holds Q (run_step P decode_v8 encode_hex bad_first keys d w)
  unfolding start_watch dequeue
  run_step-keeps (started a) w h = with_started-keeps w.watch_id a w refl h
  run_step-keeps (dequeued (err e)) w h = h
  run_step-keeps (dequeued (ok none)) w h = end_watch-keeps w h
  run_step-keeps (dequeued (ok (some bytes))) w h =
      with_output-keeps (P.decode_watch_output bytes) w h
  run_step-keeps cancelled w h = end_watch-keeps w h

  pub run_steps-keeps :
      (ds : List WatchStep) (w : NapiWatch V)
      → Holds Q w
      → Holds Q (run_steps P decode_v8 encode_hex bad_first keys ds w)
  run_steps-keeps [] w h = h
  run_steps-keeps (d ∷ ds) w h =
      run_steps-keeps ds (run_step P decode_v8 encode_hex bad_first keys d w) (run_step-keeps d w h)
