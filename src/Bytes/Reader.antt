-- ===== src/Bytes/Reader.antt =====
-- `ByteReader` of npm/src/bytes.ts: a buffered reader over a stream of chunks.
use denokv.Prelude.{
  ℕ, zero, suc, ◌<◌, ◌≡◌, refl, ap, ◌∙◌, Bool, true, false, not, ◌&&◌, Option, none, some, List, [],
  ◌∷◌, ◌++◌, append-nil, append_assoc, length, length-append, take, drop, take-append_le,
  drop-append_le, ltb, ltb→lt, ◌==◌, if◌then◌else◌, Bool-cases, inl, inr, Result, ok, err,
  out_of_range, arith,
}
use denokv.Prelude.Int.{ℤ, pos, negsuc}

-- `chunks` is what the underlying stream will still deliver before it reports its end.
pub record ByteReader : Type 0 where
  pub chunks : List (List ℕ)
  pub remaining : List ℕ
  pub done : Bool

-- `while (this.remaining.length < bytes && !this.done)`: each round takes a chunk, or the end of
-- the stream.
fill : ℕ → List (List ℕ) → List ℕ → Bool → ByteReader
fill n [] remaining done = record {
  chunks = [];
  remaining = remaining;
  done = if ltb (length remaining) n && not done then true else done;
}
fill n (c ∷ cs) remaining done =
    let next = fill n cs (remaining ++ c) done in
    if ltb (length remaining) n && not done
    then next
    else record { chunks = c ∷ cs; remaining = remaining; done = done }

-- What follows the loop. `none` is `{ done: true }`.
deliver : ℕ → ByteReader → Option (List ℕ) × ByteReader
deliver n r =
    if ltb (length r.remaining) n && r.done
    then (none, r)
    else (some (take n r.remaining), record r { remaining = drop n r.remaining })

-- `read(bytes)`; the awaited reads of the stream are the chunks that `fill` takes.
unfoldable pub read : ℤ → ByteReader → Result (Option (List ℕ) × ByteReader)
unfolding fill deliver
read (negsuc n) r = err out_of_range
read (pos n) r =
    if n == 0 then ok (some [], r) else ok (deliver n (fill n r.chunks r.remaining r.done))

abbrev pub joined : List (List ℕ) → List ℕ
joined [] = []
joined (c ∷ cs) = c ++ joined cs

-- The bytes that a reader has not given out yet, however they are cut into chunks.
abbrev pub content : ByteReader → List ℕ
content r = r.remaining ++ joined r.chunks

-- Once the end of the stream was seen no chunk is left.
pub record IsValid (r : ByteReader) : Type 0 where
  pub ended : r.done ≡ true → r.chunks ≡ []

-- The reader that has its whole stream at hand.
unfoldable pub read_content : ℕ → List ℕ → Option (List ℕ) × List ℕ
read_content n bytes =
    if ltb (length bytes) n then (none, bytes) else (some (take n bytes), drop n bytes)

fill-content :
    (n : ℕ) (cs : List (List ℕ)) (rem : List ℕ) (done : Bool)
    → content (fill n cs rem done) ≡ rem ++ joined cs
unfolding fill
fill-content n [] rem done = refl
fill-content n (c ∷ cs) rem done =
    ground (arith, fill-content n cs (rem ++ c) done, append_assoc rem c (joined cs))

fill-IsValid :
    (n : ℕ) (cs : List (List ℕ)) (rem : List ℕ) (done : Bool)
    → (done ≡ true → cs ≡ [])
    → (fill n cs rem done).done ≡ true
    → (fill n cs rem done).chunks ≡ []
unfolding fill
fill-IsValid n [] rem done h e = refl
fill-IsValid n (c ∷ cs) rem true h e = absurd (ground (arith, h refl))
fill-IsValid n (c ∷ cs) rem false h e =
    ground (arith, fill-IsValid n cs (rem ++ c) false (λ q. absurd (ground (arith, q))))

fill_stops :
    (n : ℕ) (cs : List (List ℕ)) (rem : List ℕ) (done : Bool)
    → length (fill n cs rem done).remaining < n
    → (fill n cs rem done).done ≡ true
unfolding fill
fill_stops n [] rem done h = ground arith
fill_stops n (c ∷ cs) rem done h = ground (arith, fill_stops n cs (rem ++ c) done)

-- `deliver` on a filled buffer, against the reader that has the whole stream at hand.
deliver_lem :
    (n : ℕ) (f : ByteReader)
    → (f.done ≡ true → f.chunks ≡ [])
    → (length f.remaining < n → f.done ≡ true)
    → ((deliver n f).0 ≡ (read_content n (content f)).0)
      × (content (deliver n f).1 ≡ (read_content n (content f)).1)
unfolding deliver read_content
deliver_lem n f valid stops = elim (Bool-cases (ltb (length f.remaining) n)) [
  | inl short ↦
      let d : f.done ≡ true = stops (ltb→lt _ _ short) in
      let whole : content f ≡ f.remaining = rw (valid d) (append-nil f.remaining) in
      rw (whole, short, d) (refl, whole)
  | inr enough ↦ ground (
    arith,
    length-append f.remaining (joined f.chunks),
    take-append_le n f.remaining (joined f.chunks),
    drop-append_le n f.remaining (joined f.chunks),
  )
]

fill-done :
    (n : ℕ) (r : ByteReader)
    → IsValid r
    → IsValid (deliver n (fill n r.chunks r.remaining r.done)).1
unfolding deliver
fill-done n r v = ground (arith, fill-IsValid n r.chunks r.remaining r.done v.ended)

read-suc :
    (n : ℕ) (r : ByteReader)
    → read (pos (suc n)) r ≡ ok (deliver (suc n) (fill (suc n) r.chunks r.remaining r.done))
unfolding read
read-suc n r = ground arith

-- However the stream is cut into chunks, `read(n)` answers as a reader that has the whole stream
-- at hand: the next `n` bytes, which it takes off, or the end of the stream with nothing taken off
-- if fewer than `n` bytes are left. It never throws for n ≥ 0, and the reader stays valid.
pub read-content :
    (n : ℕ) (r : ByteReader)
    → IsValid r
    → (p : Option (List ℕ) × ByteReader) × (read (pos n) r ≡ ok p)
      × (p.0 ≡ (read_content n (content r)).0)
      × (content p.1 ≡ (read_content n (content r)).1)
      × IsValid p.1
read-content zero r v = (
  (some [], r),
  unfold read in refl,
  unfold read_content in ground arith,
  unfold read_content in ground arith,
  v,
)
read-content (suc n) r v =
    let f = fill (suc n) r.chunks r.remaining r.done in
    let same = fill-content (suc n) r.chunks r.remaining r.done in
    let spec =
      deliver_lem (suc n) f (fill-IsValid (suc n) r.chunks r.remaining r.done v.ended)
        (fill_stops (suc n) r.chunks r.remaining r.done) in
    (
      deliver (suc n) f,
      read-suc n r,
      spec.0 ∙ ap (λ c. (read_content (suc n) c).0) same,
      spec.1 ∙ ap (λ c. (read_content (suc n) c).1) same,
      fill-done (suc n) r v,
    )
