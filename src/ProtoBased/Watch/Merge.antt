-- ===== src/ProtoBased/Watch/Merge.antt =====
-- The values that a `WatchCache` of npm/src/proto_based.ts holds after an output.
use denokv.Prelude.{
  ℕ, suc, ◌≡◌, ◌≢◌, refl, ap, sym, ◌∙◌, Bool, true, false, not, Option, List, [], ◌∷◌, ◌++◌,
  append_assoc, length, length-append, if◌then◌else◌, Error, Result, ok, err, ◌>>=◌, arith,
}
use denokv.KvUtil.Value.{Value}
use denokv.InMemory.Transaction.{after}
use denokv.ProtoBased.Watch.{
  WatchKeyOutput, LastValues, set_at, new_value, with_value, process_one, process_all,
}

set_at-append :
    {V : Type 0} (done vs : LastValues V) (u v : Option (Value V × List ℕ))
    → set_at (length done) v (done ++ (u ∷ vs)) ≡ done ++ (v ∷ vs)
unfolding set_at
set_at-append [] vs u v = refl
set_at-append (d ∷ ds) vs u v = ap (λ t. d ∷ t) (set_at-append ds vs u v)

err_not_ok : {A : Type 0} {x : Error} {a : A} → ◌≢◌ {A = Result A} (err x) (ok a)
err_not_ok e = ground arith

ok_value_or : {A : Type 0} → A → Result A → A
ok_value_or d (ok a) = a
ok_value_or d (err e) = d

ok_injective : {A : Type 0} (a b : A) → ◌≡◌ {A = Result A} (ok a) (ok b) → a ≡ b
unfolding ok_value_or
ok_injective a b e = ap (ok_value_or a) e

both_ok :
    {A : Type 0} (us : List A) (r : Result A) (m : Result (List A))
    → (r >>= λ u. m >>= λ ws. ok (u ∷ ws)) ≡ ok us
    → (u : A) × (ws : List A) × (r ≡ ok u) × (m ≡ ok ws) × (us ≡ u ∷ ws)
both_ok us (ok u) (ok ws) e = (u, ws, refl, refl, sym (ok_injective (u ∷ ws) us e))
both_ok us (ok u) (err x) e = absurd (err_not_ok e)
both_ok us (err x) m e = absurd (err_not_ok e)

one_longer :
    {V : Type 0} (done : LastValues V) (u : Option (Value V × List ℕ))
    → length (done ++ (u ∷ [])) ≡ suc (length done)
one_longer done u = omega (arith, length-append done (u ∷ []))

module _ {V : Type 0} (decode_v8 : List ℕ → Result (Value V)) (encode_hex : List ℕ → List ℕ)
    (bad_first : Error) where
  -- The old values with every change put in its place, or the first exception of a decoder.
  abbrev pub merge : LastValues V → List WatchKeyOutput → Result (LastValues V)
  merge [] os = ok []
  merge (v ∷ vs) [] = ok (v ∷ vs)
  merge (v ∷ vs) (o ∷ os) = do
    u ← if o.changed then new_value decode_v8 encode_hex bad_first o.entry_if_changed else ok v
    us ← merge vs os
    ok (u ∷ us)

  settled :
      (done vs : LastValues V) (v u : Option (Value V × List ℕ)) (b : Bool)
      (r : Result (Option (Value V × List ℕ)))
      → (if b then r else ok v) ≡ ok u
      → (if not b
          then (ok tt, done ++ (v ∷ vs))
          else with_value decode_v8 encode_hex bad_first r (length done) (done ++ (v ∷ vs)))
        ≡ (ok tt, done ++ (u ∷ vs))
  settled done vs v u true (ok w) e =
      ap (λ t. (ok tt, t)) (set_at-append done vs v w)
      ∙ ap (λ x. (ok tt, done ++ (x ∷ vs))) (ok_injective w u e)
  settled done vs v u true (err x) e = absurd (err_not_ok e)
  settled done vs v u false r e = ap (λ x. (ok tt, done ++ (x ∷ vs))) (ok_injective v u e)

  process_one-value :
      (done vs : LastValues V) (v u : Option (Value V × List ℕ)) (o : WatchKeyOutput)
      → (if o.changed then new_value decode_v8 encode_hex bad_first o.entry_if_changed else ok v)
        ≡ ok u
      → process_one decode_v8 encode_hex bad_first false (length done) o (done ++ (v ∷ vs))
        ≡ (ok tt, done ++ (u ∷ vs))
  unfolding process_one
  process_one-value done vs v u o e =
      settled done vs v u o.changed (new_value decode_v8 encode_hex bad_first o.entry_if_changed) e

  -- One output that puts `u` in its place, and the others after it.
  process_all-step :
      (done vs us : LastValues V) (v u : Option (Value V × List ℕ)) (o : WatchKeyOutput)
      (os : List WatchKeyOutput)
      → process_one decode_v8 encode_hex bad_first false (length done) o (done ++ (v ∷ vs))
        ≡ (ok tt, done ++ (u ∷ vs))
      → process_all decode_v8 encode_hex bad_first false
          (length (done ++ (u ∷ [])))
          os
          ((done ++ (u ∷ [])) ++ vs)
        ≡ (ok tt, (done ++ (u ∷ [])) ++ us)
      → process_all decode_v8 encode_hex bad_first false (length done) (o ∷ os) (done ++ (v ∷ vs))
        ≡ (ok tt, done ++ (u ∷ us))
  unfolding process_all
  process_all-step done vs us v u o os h k =
      ap
        (λ p.
          after p
            (λ _ ws. process_all decode_v8 encode_hex bad_first false (suc (length done)) os ws))
        h
      ∙ rw⁻¹ (one_longer done u) (
          rw⁻¹ (append_assoc done (u ∷ []) vs)
            (k ∙ ap (λ t. (ok tt, t)) (append_assoc done (u ∷ []) us)))

  process_all-merge :
      (done vs us : LastValues V) (os : List WatchKeyOutput)
      → length vs ≡ length os
      → merge vs os ≡ ok us
      → process_all decode_v8 encode_hex bad_first false (length done) os (done ++ vs)
        ≡ (ok tt, done ++ us)
  process_all-merge done [] us [] h e =
      unfold process_all in ap (λ t. (ok tt, done ++ t)) (ok_injective [] us e)
  process_all-merge done [] us (o ∷ os) h e = absurd (omega arith)
  process_all-merge done (v ∷ vs) us [] h e = absurd (omega arith)
  process_all-merge done (v ∷ vs) us (o ∷ os) h e =
      let (u, ws, r, m, same) =
        both_ok us
          (if o.changed then new_value decode_v8 encode_hex bad_first o.entry_if_changed else ok v)
          (merge vs os) e in
      process_all-step done vs ws v u o os (process_one-value done vs v u o r)
        (process_all-merge (done ++ (u ∷ [])) vs ws os (omega arith) m)
      ∙ ap (λ t. (ok tt, done ++ t)) (sym same)

  -- Every later output of a watch. Let the cache hold a value for every key, let the output have one
  -- item for every key, and let every value that changed be decoded. Then `processOutputKeys` stores
  -- exactly the merged values: the new value, or none where the key was deleted, at each item that
  -- changed, and the old value at each other one.
  pub process_all_lem :
      (vs us : LastValues V) (os : List WatchKeyOutput)
      → length vs ≡ length os
      → merge vs os ≡ ok us
      → process_all decode_v8 encode_hex bad_first false 0 os vs ≡ (ok tt, us)
  process_all_lem vs us os h e = process_all-merge [] vs us os h e
