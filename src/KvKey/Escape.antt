-- ===== src/KvKey/Escape.antt =====
-- The escaped byte strings of npm/src/kv_key.ts: zero bytes, the terminator, and the order.
use denokv.Prelude.{
  ℕ, zero, suc, ◌≡◌, ◌≢◌, refl, ap, ◌∙◌, false, List, [], ◌∷◌, ◌++◌, any, All, ◌==◌, arith,
}
use denokv.Bytes.{IsByte}
use denokv.Bytes.Order.{lex}
use denokv.KvKey.{escape, encode_zero_with_zero_ff, push, read_escaped}

escape_no_zero : (bs : List ℕ) → any (λ b. b == 0) bs ≡ false → escape bs ≡ bs
unfolding escape
escape_no_zero [] h = refl
escape_no_zero (b ∷ bs) h = ground (arith, escape_no_zero bs)

pub encode-escape : (bs : List ℕ) → encode_zero_with_zero_ff bs ≡ escape bs
unfolding encode_zero_with_zero_ff
encode-escape bs = ground (arith, escape_no_zero bs)

pub escape-IsByte : (bs : List ℕ) → All IsByte bs → All IsByte (escape bs)
unfolding escape
escape-IsByte [] h = tt
escape-IsByte (b ∷ bs) h = ground (arith, escape-IsByte bs h.1)

escape_other : (b : ℕ) (bs : List ℕ) → b ≢ 0 → escape (b ∷ bs) ≡ b ∷ escape bs
unfolding escape
escape_other b bs h = ground arith

-- What follows a terminator must not look like the second half of an escaped zero.
abbrev pub NoFf : List ℕ → Type 0
NoFf [] = Unit {0}
NoFf (b ∷ bs) = b ≢ 255

read_escaped_other :
    (b : ℕ) (bs : List ℕ) → b ≢ 0 → read_escaped (b ∷ bs) ≡ push b (read_escaped bs)
unfolding read_escaped
read_escaped_other b [] h = ground arith
read_escaped_other b (c ∷ bs) h = ground arith

read_escaped_zero : (bs : List ℕ) → read_escaped (0 ∷ 255 ∷ bs) ≡ push 0 (read_escaped bs)
unfolding read_escaped
read_escaped_zero bs = refl

pub read_escaped_end : (rest : List ℕ) → NoFf rest → read_escaped (0 ∷ rest) ≡ ([], rest)
unfolding read_escaped
read_escaped_end [] h = refl
read_escaped_end (c ∷ rest) h = ground arith

-- The reader takes an escaped byte string with its terminator off, and leaves what follows.
pub read_escaped-escape :
    (bs rest : List ℕ) → NoFf rest → read_escaped (escape bs ++ (0 ∷ rest)) ≡ (bs, rest)
unfolding escape push
read_escaped-escape [] rest h = read_escaped_end rest h
read_escaped-escape (zero ∷ bs) rest h =
    read_escaped_zero (escape bs ++ (0 ∷ rest)) ∙ ap (push 0) (read_escaped-escape bs rest h)
read_escaped-escape (suc b ∷ bs) rest h =
    ap (λ t. read_escaped (t ++ (0 ∷ rest))) (escape_other (suc b) bs (omega arith))
    ∙ read_escaped_other (suc b) (escape bs ++ (0 ∷ rest)) (omega arith)
    ∙ ap (push (suc b)) (read_escaped-escape bs rest h)

-- Escaping keeps the lexicographic order: a string and its prefixes included.
pub lex-escape :
    (as' bs : List ℕ) → lex (escape as' ++ (0 ∷ [])) (escape bs ++ (0 ∷ [])) ≡ lex as' bs
unfolding escape lex
lex-escape [] [] = refl
lex-escape [] (zero ∷ bs) = refl
lex-escape [] (suc b ∷ bs) = ground arith
lex-escape (zero ∷ as') [] = refl
lex-escape (suc a ∷ as') [] = ground arith
lex-escape (a ∷ as') (b ∷ bs) = ground (arith, lex-escape as' bs)
