-- ===== src/Bytes/Flip.antt =====
-- `flipBytes` of npm/src/bytes.ts undoes itself and turns the order of bytes round.
use denokv.Prelude.{ℕ, zero, suc, ◌-◌, ◌≡◌, refl, ap, List, [], ◌∷◌, ◌++◌, length, All, arith}
use denokv.Bytes.{IsByte, flip_bytes}
use denokv.Bytes.Order.{lex, flip_ordering}

pub length-flip_bytes : (bs : List ℕ) (start : ℕ) → length (flip_bytes bs start) ≡ length bs
unfolding flip_bytes
length-flip_bytes [] start = refl
length-flip_bytes (b ∷ bs) zero = ap suc (length-flip_bytes bs zero)
length-flip_bytes (b ∷ bs) (suc start) = ap suc (length-flip_bytes bs start)

pub flip_bytes-flip_bytes :
    (bs : List ℕ) (start : ℕ) → All IsByte bs → flip_bytes (flip_bytes bs start) start ≡ bs
unfolding flip_bytes
flip_bytes-flip_bytes [] start h = refl
flip_bytes-flip_bytes (b ∷ bs) zero h = ground (arith, flip_bytes-flip_bytes bs zero h.1)
flip_bytes-flip_bytes (b ∷ bs) (suc start) h = ground (arith, flip_bytes-flip_bytes bs start h.1)

pub flip_bytes-IsByte : (bs : List ℕ) → All IsByte bs → All IsByte (flip_bytes bs 0)
unfolding flip_bytes
flip_bytes-IsByte [] h = tt
flip_bytes-IsByte (b ∷ bs) h = (omega arith, flip_bytes-IsByte bs h.1)

pub flip_bytes-append :
    (as' bs : List ℕ) → flip_bytes (as' ++ bs) 0 ≡ flip_bytes as' 0 ++ flip_bytes bs 0
unfolding flip_bytes
flip_bytes-append [] bs = refl
flip_bytes-append (a ∷ as') bs = ap (λ t. (255 - a) ∷ t) (flip_bytes-append as' bs)

-- On arrays of one length, flipping every byte turns the order round.
pub lex-flip_bytes :
    (as' bs : List ℕ)
    → All IsByte as'
    → All IsByte bs
    → length as' ≡ length bs
    → lex (flip_bytes as' 0) (flip_bytes bs 0) ≡ flip_ordering (lex as' bs)
unfolding flip_bytes lex
lex-flip_bytes [] [] h k e = refl
lex-flip_bytes [] (b ∷ bs) h k e = absurd (omega arith)
lex-flip_bytes (a ∷ as') [] h k e = absurd (omega arith)
lex-flip_bytes (a ∷ as') (b ∷ bs) h k e =
    ground (arith, lex-flip_bytes as' bs h.1 k.1 (omega arith))
