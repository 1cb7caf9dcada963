-- ===== src/KvKey/Order/Bytewise.antt =====
-- How the bytes of two parts, and what follows them, compare.
use denokv.Prelude.{
  zero, suc, ◌<◌, ◌≡◌, ◌⊎◌, inl, inr, refl, Ordering, List, [], ◌∷◌, ◌++◌, length, arith,
}
use denokv.Prelude.{ℕ}
use denokv.Bytes.Order.{lex}
use denokv.KvKey.{escape}
use denokv.KvKey.Order.{first_of}

pub lex-same_length :
    (as' bs rs ss : List ℕ)
    → length as' ≡ length bs
    → lex (as' ++ rs) (bs ++ ss) ≡ first_of (lex as' bs) (lex rs ss)
unfolding lex
lex-same_length [] [] rs ss e = refl
lex-same_length [] (b ∷ bs) rs ss e = absurd (omega arith)
lex-same_length (a ∷ as') [] rs ss e = absurd (omega arith)
lex-same_length (a ∷ as') (b ∷ bs) rs ss e =
    ground (arith, lex-same_length as' bs rs ss (omega arith))

-- What follows a terminator must stand below the second half of an escaped zero.
abbrev pub StartsBelow : List ℕ → Type 0
StartsBelow [] = Unit {0}
StartsBelow (b ∷ bs) = b < 255

lex-escaped :
    (as' bs rs ss : List ℕ)
    → StartsBelow rs
    → StartsBelow ss
    → lex (escape as' ++ (0 ∷ rs)) (escape bs ++ (0 ∷ ss)) ≡ first_of (lex as' bs) (lex rs ss)
unfolding escape lex
lex-escaped [] [] rs ss h k = refl
lex-escaped [] (zero ∷ bs) [] ss h k = refl
lex-escaped [] (zero ∷ bs) (r ∷ rs) ss h k = ground arith
lex-escaped [] (suc b ∷ bs) rs ss h k = ground arith
lex-escaped (zero ∷ as') [] rs [] h k = refl
lex-escaped (zero ∷ as') [] rs (s ∷ ss) h k = ground arith
lex-escaped (suc a ∷ as') [] rs ss h k = ground arith
lex-escaped (a ∷ as') (b ∷ bs) rs ss h k = ground (arith, lex-escaped as' bs rs ss h k)

lex-escaped_nil : (as' rs : List ℕ) → lex (escape as' ++ (0 ∷ rs)) [] ≡ Ordering.gt
unfolding escape lex
lex-escaped_nil [] rs = refl
lex-escaped_nil (zero ∷ as') rs = refl
lex-escaped_nil (suc a ∷ as') rs = ground arith

-- The same where the second ends in 0xff, as the end of the range of a prefix.
pub lex-escaped_end :
    (as' bs rs : List ℕ)
    → StartsBelow rs
    → lex (escape as' ++ (0 ∷ rs)) (escape bs ++ (0 ∷ 255 ∷ []))
      ≡ first_of (lex as' bs) (lex rs (255 ∷ []))
unfolding escape lex
lex-escaped_end [] [] rs h = refl
lex-escaped_end [] (zero ∷ bs) [] h = refl
lex-escaped_end [] (zero ∷ bs) (r ∷ rs) h = ground arith
lex-escaped_end [] (suc b ∷ bs) rs h = ground arith
lex-escaped_end (zero ∷ as') [] rs h = lex-escaped_nil as' rs
lex-escaped_end (suc a ∷ as') [] rs h = ground arith
lex-escaped_end (a ∷ as') (b ∷ bs) rs h = ground (arith, lex-escaped_end as' bs rs h)

-- What may follow a part of the second.
abbrev pub IsBound : List ℕ → Type 0
IsBound ss = StartsBelow ss ⊎ (ss ≡ 255 ∷ [])

pub lex-escaped_bound :
    (as' bs rs ss : List ℕ)
    → StartsBelow rs
    → IsBound ss
    → lex (escape as' ++ (0 ∷ rs)) (escape bs ++ (0 ∷ ss)) ≡ first_of (lex as' bs) (lex rs ss)
lex-escaped_bound as' bs rs ss h (inl k) = lex-escaped as' bs rs ss h k
lex-escaped_bound as' bs rs ss h (inr e) = rw e (lex-escaped_end as' bs rs h)
