-- ===== src/KvKey/Unpack.antt =====
-- `unpackKey` of npm/src/kv_key.ts on any input: the loop ends, and parts are read off the front.
use denokv.Prelude.{
  ℕ, zero, suc, ◌+◌, ◌-◌, ◌≤◌, ◌≡◌, ◌≢◌, Bool, true, false, List, [], ◌∷◌, ◌++◌, length,
  length-append, drop, length-drop, if◌then◌else◌, ltb, leb, ◌==◌, ◌&&◌, ◌||◌, Result, ok, err,
  Error, out_of_fuel, unsupported_typecode, min, ◌>>=◌, ◌>>◌, arith,
}
use denokv.Bytes.{check_end}
use denokv.KvKey.{
  TextCodec, KvKeyPart, KvKey, bytes, string, boolean, distance_to_zero, read_escaped,
  read_big_endian, read_bigint, read_sized, read_number, unpack_part, unpack_loop, unpack_key,
}

read_escaped-le : (bs : List ℕ) → length (read_escaped bs).1 ≤ length bs
unfolding read_escaped
read_escaped-le [] = omega arith
read_escaped-le (b ∷ []) = ground arith
read_escaped-le (b ∷ c ∷ bs) = ground (arith, read_escaped-le bs, read_escaped-le (c ∷ bs))

-- What a reader of one part may answer: a part with at most the bytes given left, or an exception.
pub data Reads (bs : List ℕ) : Result (KvKeyPart × List ℕ) → Type 0 where
  gives : {p : KvKeyPart} {rest : List ℕ} → length rest ≤ length bs → Reads bs (ok (p, rest))
  throws : {e : Error} → e ≢ out_of_fuel → Reads bs (err e)

abbrev pub ReadsVal : ℕ → List ℕ → Result (ℕ × List ℕ) → Type 0
ReadsVal n bs (ok (p, rest)) = length bs ≡ length rest + n
ReadsVal n bs (err e) = e ≢ out_of_fuel

ReadsVal-suc :
    (n b : ℕ) (bs : List ℕ) (r : Result (ℕ × List ℕ))
    → ReadsVal n bs r
    → ReadsVal (suc n) (b ∷ bs) r
ReadsVal-suc n b bs (ok p) h = omega arith
ReadsVal-suc n b bs (err e) h = h

pub read_big_endian-ReadsVal :
    (neg : Bool) (n val : ℕ) (bs : List ℕ) → ReadsVal n bs (read_big_endian neg n val bs)
unfolding read_big_endian
read_big_endian-ReadsVal neg zero val bs = omega arith
read_big_endian-ReadsVal neg (suc n) val [] = λ e. cc
read_big_endian-ReadsVal neg (suc n) val (b ∷ bs) =
    ReadsVal-suc n b bs _ (read_big_endian-ReadsVal neg n _ bs)

Reads-of_ReadsVal :
    (n : ℕ) (bs : List ℕ) (r : Result (ℕ × List ℕ)) (f : ℕ → KvKeyPart)
    → ReadsVal n bs r
    → Reads bs (r >>= λ p. ok (f p.0, p.1))
Reads-of_ReadsVal n bs (ok p) f h = gives (omega arith)
Reads-of_ReadsVal n bs (err e) f h = throws h

read_bigint-Reads : (neg : Bool) (n : ℕ) (bs : List ℕ) → Reads bs (read_bigint neg n bs)
unfolding read_bigint
read_bigint-Reads neg n bs = Reads-of_ReadsVal n bs _ _ (read_big_endian-ReadsVal neg n 0 bs)

Reads-cons : (b : ℕ) (bs : List ℕ) {r : Result (KvKeyPart × List ℕ)} → Reads bs r → Reads (b ∷ bs) r
Reads-cons b bs (gives h) = gives (omega arith)
Reads-cons b bs (throws h) = throws h

read_sized-Reads : (neg : Bool) (bs : List ℕ) → Reads bs (read_sized neg bs)
unfolding read_sized
read_sized-Reads neg [] = throws (λ e. cc)
read_sized-Reads neg (b ∷ bs) = Reads-cons b bs (read_bigint-Reads neg _ bs)

Reads-if :
    (b : Bool) (bs : List ℕ) {r r' : Result (KvKeyPart × List ℕ)}
    → Reads bs r
    → Reads bs r'
    → Reads bs (if b then r else r')
Reads-if true bs h k = h
Reads-if false bs h k = k

read_number-Reads : (bs : List ℕ) → Reads bs (read_number bs)
unfolding read_number
read_number-Reads bs =
    let shorter : length (drop 8 bs) ≤ length bs = omega (arith, length-drop 8 bs) in
    Reads-if _ bs (throws (λ e. cc)) (Reads-if _ bs (gives shorter) (gives shorter))

-- One round leaves no more bytes than it was given, or throws an exception of the program.
pub unpack_part-Reads : (text : TextCodec) (t : ℕ) (bs : List ℕ) → Reads bs (unpack_part text t bs)
unfolding unpack_part
unpack_part-Reads text t bs =
    let escaped : length (read_escaped bs).1 ≤ length bs = read_escaped-le bs in
    let same : length bs ≤ length bs = omega arith in
    Reads-if (t == 0x01) bs (gives {p = bytes (read_escaped bs).0} escaped) (
      Reads-if (t == 0x02) bs (gives {p = string (text.decode (read_escaped bs).0)} escaped) (
        Reads-if (leb 0x0b t && leb t 0x1d) bs
          (Reads-if (t == 0x1d || t == 0x0b) bs (read_sized-Reads (ltb t 0x14) bs)
            (read_bigint-Reads (ltb t 0x14) (distance_to_zero t) bs))
          (Reads-if (t == 0x21) bs (read_number-Reads bs) (
            Reads-if (t == 0x26) bs (gives {p = boolean false} same) (
              Reads-if (t == 0x27) bs (gives {p = boolean true} same)
                (throws {e = unsupported_typecode t} (λ e. cc)))))))

-- The rest of the loop, after a round that answered `r`.
abbrev pub go_on : TextCodec → ℕ → KvKey → Result (KvKeyPart × List ℕ) → Result (KvKey × List ℕ)
go_on text fuel rt r = r >>= λ p. unpack_loop text fuel p.1 (rt ++ (p.0 ∷ []))

-- With as many rounds as there are bytes the loop ends, with no byte left or with an exception of
-- the program.
pub data Ends (n : ℕ) : Result (KvKey × List ℕ) → Type 0 where
  all_read : {rt : KvKey} → n ≤ length rt → Ends n (ok (rt, []))
  thrown : {e : Error} → e ≢ out_of_fuel → Ends n (err e)

pub Ends-le : {n m : ℕ} {r : Result (KvKey × List ℕ)} → m ≤ n → Ends n r → Ends m r
Ends-le h (all_read k) = all_read (omega arith)
Ends-le h (thrown k) = thrown k

go_on-Ends :
    (text : TextCodec) (fuel : ℕ) (rt : KvKey) (bs : List ℕ) {r : Result (KvKeyPart × List ℕ)}
    → ((p : KvKeyPart) (rest : List ℕ)
        → length rest ≤ length bs
        → Ends (length rt + 1) (unpack_loop text fuel rest (rt ++ (p ∷ []))))
    → Reads bs r
    → Ends (length rt + 1) (go_on text fuel rt r)
go_on-Ends text fuel rt bs ih (gives {p} {rest} h) = ih p rest h
go_on-Ends text fuel rt bs ih (throws h) = thrown h

pub unpack_loop-Ends :
    (text : TextCodec) (fuel : ℕ) (bs : List ℕ) (rt : KvKey)
    → length bs ≤ fuel
    → Ends (length rt + min 1 (length bs)) (unpack_loop text fuel bs rt)
unfolding unpack_loop
unpack_loop-Ends text fuel [] rt h = all_read (omega arith)
unpack_loop-Ends text zero (t ∷ bs) rt h = absurd (omega arith)
unpack_loop-Ends text (suc fuel) (t ∷ bs) rt h = Ends-le (omega arith) (
    go_on-Ends text fuel rt bs
      (λ p rest k.
        Ends-le (omega (arith, length-append rt (p ∷ [])))
          (unpack_loop-Ends text fuel rest (rt ++ (p ∷ [])) (omega arith)))
      (unpack_part-Reads text t bs))

-- What `unpackKey` may answer: a key, or an exception of the program.
pub data Answers (n : ℕ) : Result KvKey → Type 0 where
  key : {rt : KvKey} → n ≤ length rt → Answers n (ok rt)
  exception : {e : Error} → e ≢ out_of_fuel → Answers n (err e)

checked : (bs : List ℕ) → check_end bs (length bs - 0) ≡ ok tt
unfolding check_end
checked bs = ground arith

pub finish :
    (bs : List ℕ) {n : ℕ} {r : Result (KvKey × List ℕ)}
    → Ends n r
    → Answers n (r >>= λ p. check_end bs (length bs - length p.1) >> ok p.0)
finish bs (all_read {rt} h) = rw (checked bs) (key h)
finish bs (thrown h) = exception h

-- On every input `unpackKey` ends, with a key or with an exception of the program, and the key of
-- an input that is not empty has a part.
pub unpack_key-Answers :
    (text : TextCodec) (bs : List ℕ) → Answers (min 1 (length bs)) (unpack_key text bs)
unfolding unpack_key
unpack_key-Answers text bs =
    finish bs (Ends-le (omega arith) (unpack_loop-Ends text (length bs) bs [] (omega arith)))
