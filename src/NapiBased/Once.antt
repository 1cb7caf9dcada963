-- ===== src/NapiBased/Once.antt =====
-- The calls of `endWatch` of npm/src/napi_based.ts.
use denokv.Prelude.{
  ℕ, ◌≡◌, ◌⊎◌, refl, ap, Bool, true, false, Option, none, some, List, [], ◌∷◌, inl, inr, Error,
  Result, arith,
}
use denokv.KvKey.{KvKey}
use denokv.KvUtil.Value.{Value}
use denokv.KvConnect.{Platform}
use denokv.NapiBased.Watching.{
  NapiWatch, new_napi_watch, end_watch_if_necessary, end_calls_of, cancel,
}
use denokv.NapiBased.Steps.{WatchStep, EndProperty, run_steps, run_steps-keeps}

abbrev pub IsEndedOnce : Option ℕ → Bool → List ℕ → Type 0
IsEndedOnce watch_id ended calls =
    (calls ≡ []) ⊎ ((id : ℕ) × (calls ≡ id ∷ []) × (watch_id ≡ some id) × (ended ≡ true))

-- No call of `endWatch`, or one, of the watch that was started, after which it counts as ended.
abbrev pub EndsOnce : {V : Type 0} → NapiWatch V → Type 0
EndsOnce w = IsEndedOnce w.watch_id w.ended w.end_calls

end_calls_of-once :
    (o : Option ℕ) (b : Bool) (calls : List ℕ)
    → IsEndedOnce o b calls
    → IsEndedOnce o true (end_calls_of o b calls)
end_calls_of-once (some id) false calls (inl e) = inr (id, ap (λ l. id ∷ l) e, refl, refl)
end_calls_of-once (some id) false calls (inr (i, e, f, g)) = absurd (ground (arith, g))
end_calls_of-once (some id) true calls h = h
end_calls_of-once none b calls (inl e) = inl e
end_calls_of-once none b calls (inr (i, e, f, g)) = inr (i, e, f, refl)

IsEndedOnce-started :
    (id : ℕ) (b : Bool) (calls : List ℕ) → IsEndedOnce none b calls → IsEndedOnce (some id) b calls
IsEndedOnce-started id b calls (inl e) = inl e
IsEndedOnce-started id b calls (inr (i, e, f, g)) = absurd (none_not_some i f)
  where
    none_not_some : (i : ℕ) → ◌≡◌ {A = Option ℕ} none (some i) → ⊥
    none_not_some i e = ground arith

-- The watch counts as ended without a call of `endWatch`.
abbrev IsSilent : EndProperty
IsSilent o b calls = (b ≡ true) × (calls ≡ [])

IsSilent-end :
    (o : Option ℕ) (b : Bool) (calls : List ℕ)
    → IsSilent o b calls
    → IsSilent o true (end_calls_of o b calls)
IsSilent-end none b calls (e, f) = (refl, f)
IsSilent-end (some id) true calls (e, f) = (refl, f)
IsSilent-end (some id) false calls (e, f) = absurd (ground (arith, e))

module _ {V : Type 0} (P : Platform) (decode_v8 : List ℕ → Result (Value V))
    (encode_hex : List ℕ → List ℕ) (bad_first : Error) (keys : List KvKey) where
  -- Whatever the library answers, and however pulls and cancels of the streams follow one another, a
  -- watch calls `endWatch` once at most, with the id that `startWatch` gave, and counts as ended then.
  pub run_steps-EndsOnce :
      (ds : List WatchStep)
      → EndsOnce (run_steps P decode_v8 encode_hex bad_first keys ds new_napi_watch)
  run_steps-EndsOnce ds =
      run_steps-keeps P decode_v8 encode_hex bad_first keys IsEndedOnce end_calls_of-once
        IsEndedOnce-started ds new_napi_watch (inl refl)

  -- A watch that is cancelled before `startWatch` has answered is never ended: whatever follows, also
  -- the answer with its id, `endWatch` is not called.
  pub cancel-never_ended :
      (ds : List WatchStep)
      → (run_steps P decode_v8 encode_hex bad_first keys ds (cancel new_napi_watch)).end_calls ≡ []
  unfolding end_watch_if_necessary
  cancel-never_ended ds =
      (run_steps-keeps P decode_v8 encode_hex bad_first keys IsSilent IsSilent-end
        (λ id b calls h. h) ds (cancel new_napi_watch) (refl, refl)).1
