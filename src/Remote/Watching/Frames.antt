-- ===== src/Remote/Watching/Frames.antt =====
-- The messages of a watch stream of npm/src/remote.ts: each after its length in four bytes.
use denokv.Prelude.{
  ℕ, zero, suc, ◌/◌, ◌%◌, ◌<◌, ◌≡◌, ◌⊎◌, refl, ap, sym, ◌∙◌, subst, Bool, true, false, Option, none,
  some, List, [], ◌∷◌, ◌++◌, All, append_assoc, length, length-append, take-append_length,
  drop-append_length, ltb, inl, inr, Error, Result, ok, arith,
}
use mathlib.Core.Path.{fun_ext}
use denokv.Prelude.Int.{pos}
use denokv.Bytes.Reader.{ByteReader, IsValid, read, content, read_content, read-content}
use denokv.KvKey.{KvKey}
use denokv.KvUtil.Value.{Value}
use denokv.ProtoBased.Watch.{LastValues}
use denokv.KvConnect.{Platform}
use denokv.Remote.Watching.Loop.{
  stream_ended, get_int32, Messages, on_message, with_header, read_loop,
}

-- The length of a message, as the server writes it.
abbrev pub int32_bytes : ℕ → List ℕ
int32_bytes n = (n % 256) ∷ (n / 256 % 256) ∷ (n / 65536 % 256) ∷ (n / 16777216 % 256) ∷ []

abbrev pub frames : List (List ℕ) → List ℕ
frames [] = []
frames (m ∷ ms) = int32_bytes (length m) ++ (m ++ frames ms)

abbrev pub IsMessage : List ℕ → Type 0
IsMessage m = length m < 0x80000000

-- What is left of a stream that ends inside a length, or inside a message.
abbrev pub IsCut : List ℕ → Type 0
IsCut rest =
    (length rest < 4)
    ⊎ ((n : ℕ) × (part : List ℕ) × (rest ≡ int32_bytes n ++ part)
        × (length part < n)
        × (n < 0x80000000))

get_int32-bytes : (n : ℕ) → n < 0x80000000 → get_int32 (int32_bytes n) ≡ pos n
unfolding get_int32
get_int32-bytes n h = ground arith

read_content-append : (xs ys : List ℕ) → read_content (length xs) (xs ++ ys) ≡ (some xs, ys)
unfolding read_content
read_content-append xs ys = rw (enough, take-append_length xs ys, drop-append_length xs ys) refl
  where
    enough : ltb (length (xs ++ ys)) (length xs) ≡ false
    enough = ground (arith, length-append xs ys)

read_content-short :
    (n : ℕ) (bytes : List ℕ) → length bytes < n → read_content n bytes ≡ (none, bytes)
unfolding read_content
read_content-short n bytes h = rw (short (length bytes) n h) refl
  where
    short : (a b : ℕ) → a < b → ltb a b ≡ true
    short a b h = ground arith

-- A read of bytes that are there, and one at the end of the stream.
read-there :
    (r : ByteReader) (xs ys : List ℕ)
    → IsValid r
    → content r ≡ xs ++ ys
    → (s : ByteReader) × (read (pos (length xs)) r ≡ ok (some xs, s)) × (content s ≡ ys) × IsValid s
read-there r xs ys v e =
    let ((o, s), f, g, h, w) = read-content (length xs) r v in
    let whole : read_content (length xs) (content r) ≡ (some xs, ys) =
      ap (read_content (length xs)) e ∙ read_content-append xs ys in
    let got : o ≡ some xs = g ∙ ap (λ p. p.0) whole in
    (s, f ∙ ap (λ (q : Option (List ℕ)). ok (q, s)) got, h ∙ ap (λ p. p.1) whole, w)

read-cut :
    (n : ℕ) (r : ByteReader)
    → IsValid r
    → length (content r) < n
    → (s : ByteReader) × (read (pos n) r ≡ ok (none, s))
read-cut n r v e =
    let ((o, s), f, g, h, w) = read-content n r v in
    let got : o ≡ none = g ∙ ap (λ p. p.0) (read_content-short n (content r) e) in
    (s, f ∙ ap (λ (q : Option (List ℕ)). ok (q, s)) got)

module _ {V : Type 0} (P : Platform) (decode_v8 : List ℕ → Result (Value V))
    (encode_hex : List ℕ → List ℕ) (bad_first : Error) where
  -- The messages handled one after the other, and then the end of the stream. An empty one is a
  -- ping, and skipped.
  abbrev pub run_messages : List KvKey → Bool → List (List ℕ) → LastValues V → Messages V
  run_messages keys read_disabled [] cache = ([], stream_ended)
  run_messages keys read_disabled ([] ∷ ms) cache = run_messages keys read_disabled ms cache
  run_messages keys read_disabled ((b ∷ bs) ∷ ms) cache =
      on_message P decode_v8 encode_hex bad_first keys read_disabled cache (b ∷ bs)
        (run_messages keys read_disabled ms)

  read_loop-step :
      (fuel : ℕ) (keys : List KvKey) (d : Bool) (cache : LastValues V) (r : ByteReader)
      → read_loop P decode_v8 encode_hex bad_first (suc fuel) keys d cache r
        ≡ with_header P decode_v8 encode_hex bad_first keys d cache
            (read (pos 4) r)
            (λ c s. read_loop P decode_v8 encode_hex bad_first fuel keys d c s)
  unfolding read_loop
  read_loop-step fuel keys d cache r = refl

  -- At a cut stream the loop ends.
  read_loop-cut :
      (fuel : ℕ) (keys : List KvKey) (d : Bool) (cache : LastValues V) (r : ByteReader)
      → IsValid r
      → IsCut (content r)
      → read_loop P decode_v8 encode_hex bad_first (suc fuel) keys d cache r ≡ ([], stream_ended)
  read_loop-cut fuel keys d cache r v (inl short) =
      let (s, e) = read-cut 4 r v short in rw (read_loop-step fuel keys d cache r, e) refl
  read_loop-cut fuel keys d cache r v (inr (zero, part, e, l, b)) = absurd (omega arith)
  read_loop-cut fuel keys d cache r v (inr (suc n, part, e, l, b)) =
      let (s, f, g, w) = read-there r (int32_bytes (suc n)) part v e in
      let (t, k) = read-cut (suc n) s w (subst (λ (p : List ℕ). length p < suc n) (sym g) l) in
      rw (read_loop-step fuel keys d cache r, f, get_int32-bytes (suc n) b, k) refl

  -- However a stream is cut into chunks, the messages in it, each after its length in four bytes, are
  -- handled one after the other in their order, up to the first that is an error; an empty message, a
  -- ping, is skipped; a message that the stream ends in, or ends before, is dropped, and ends the
  -- loop as the end of the stream. More rounds than messages are enough. (A message has less than
  -- 2 ^ 31 bytes.)
  pub read_loop-run_messages :
      (fuel : ℕ) (keys : List KvKey) (d : Bool) (ms : List (List ℕ)) (rest : List ℕ)
      (cache : LastValues V) (r : ByteReader)
      → length ms < fuel
      → All IsMessage ms
      → IsCut rest
      → IsValid r
      → content r ≡ frames ms ++ rest
      → read_loop P decode_v8 encode_hex bad_first fuel keys d cache r
        ≡ run_messages keys d ms cache
  read_loop-run_messages zero keys d ms rest cache r lt all cut v e = absurd (omega arith)
  read_loop-run_messages (suc fuel) keys d [] rest cache r lt all cut v e =
      read_loop-cut fuel keys d cache r v (subst IsCut (sym e) cut)
  read_loop-run_messages (suc fuel) keys d ([] ∷ ms) rest cache r lt (_, all) cut v e =
      let (s, f, g, w) = read-there r (int32_bytes 0) (frames ms ++ rest) v e in
      rw (read_loop-step fuel keys d cache r, f, get_int32-bytes 0 (omega arith))
        (read_loop-run_messages fuel keys d ms rest cache s (omega arith) all cut w g)
  read_loop-run_messages (suc fuel) keys d ((b ∷ bs) ∷ ms) rest cache r lt (q, all) cut v e =
      let n = length bs in
      let (s, f, g, w) = read-there r (int32_bytes (suc n)) (((b ∷ bs) ++ frames ms) ++ rest) v e in
      let (t, k, h, x) =
        read-there s (b ∷ bs) (frames ms ++ rest) w (g ∙ append_assoc (b ∷ bs) (frames ms) rest) in
      rw (read_loop-step fuel keys d cache r, f, get_int32-bytes (suc n) q, k)
        (ap (on_message P decode_v8 encode_hex bad_first keys d cache (b ∷ bs))
          (fun_ext λ c. read_loop-run_messages fuel keys d ms rest c t (omega arith) all cut x h))
