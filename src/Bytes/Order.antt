-- ===== src/Bytes/Order.antt =====
-- `equalBytes` and `compareBytes` of npm/src/bytes.ts against the lexicographic order of lists.
use denokv.Prelude.{
  ℕ, suc, ◌+◌, ◌<◌, ◌≡◌, ◌↔◌, refl, ap, sym, ◌∙◌, subst, true, inl, inr, Bool-cases, List, [], ◌∷◌,
  ◌++◌, append-nil, Ordering, length, ltb, if◌then◌else◌, arith,
}
use denokv.Bytes.{equal_loop, equal_bytes, first_difference, compare_bytes}

-- The lexicographic order: a proper prefix stands before the longer list.
unfoldable pub lex : List ℕ → List ℕ → Ordering
lex [] [] = Ordering.eq
lex [] (b ∷ bs) = Ordering.lt
lex (a ∷ as') [] = Ordering.gt
lex (a ∷ as') (b ∷ bs) =
    let rest = lex as' bs in if ltb a b then Ordering.lt else if ltb b a then Ordering.gt else rest

abbrev sign : ℕ × ℕ → Ordering
sign p = if ltb p.0 p.1 then Ordering.lt else if ltb p.1 p.0 then Ordering.gt else Ordering.eq

first_difference-lex :
    (as' bs : List ℕ) (x y k : ℕ)
    → x ≡ length as' + k
    → y ≡ length bs + k
    → sign (first_difference as' bs x y) ≡ lex as' bs
unfolding first_difference lex
first_difference-lex [] [] x y k p q = ground arith
first_difference-lex [] (b ∷ bs) x y k p q = ground arith
first_difference-lex (a ∷ as') [] x y k p q = ground arith
first_difference-lex (a ∷ as') (b ∷ bs) x y k p q =
    ground (arith, first_difference-lex as' bs x y (suc k) (omega arith) (omega arith))

-- `compareBytes` is the lexicographic order of the two byte arrays, on every pair of arrays.
pub compare_bytes-lex : (as' bs : List ℕ) → compare_bytes as' bs ≡ lex as' bs
unfolding compare_bytes
compare_bytes-lex as' bs =
    first_difference-lex as' bs (length as') (length bs) 0 (omega arith) (omega arith)

pub lex_refl : (as' : List ℕ) → lex as' as' ≡ Ordering.eq
unfolding lex
lex_refl [] = refl
lex_refl (a ∷ as') = ground (arith, lex_refl as')

pub eq_of_lex : (as' bs : List ℕ) → lex as' bs ≡ Ordering.eq → as' ≡ bs
unfolding lex
eq_of_lex [] [] h = refl
eq_of_lex [] (b ∷ bs) h = ground arith
eq_of_lex (a ∷ as') [] h = ground arith
eq_of_lex (a ∷ as') (b ∷ bs) h = ground (arith, eq_of_lex as' bs)

-- The order seen from the other side.
abbrev pub flip_ordering : Ordering → Ordering
flip_ordering Ordering.lt = Ordering.gt
flip_ordering Ordering.eq = Ordering.eq
flip_ordering Ordering.gt = Ordering.lt

pub lex-swap : (as' bs : List ℕ) → lex bs as' ≡ flip_ordering (lex as' bs)
unfolding lex
lex-swap [] [] = refl
lex-swap [] (b ∷ bs) = refl
lex-swap (a ∷ as') [] = refl
lex-swap (a ∷ as') (b ∷ bs) = ground (arith, lex-swap as' bs)

pub lex_trans :
    (as' bs cs : List ℕ)
    → lex as' bs ≡ Ordering.lt
    → lex bs cs ≡ Ordering.lt
    → lex as' cs ≡ Ordering.lt
unfolding lex
lex_trans [] [] cs h k = ground arith
lex_trans [] (b ∷ bs) [] h k = ground arith
lex_trans [] (b ∷ bs) (c ∷ cs) h k = refl
lex_trans (a ∷ as') [] cs h k = ground arith
lex_trans (a ∷ as') (b ∷ bs) [] h k = ground arith
lex_trans (a ∷ as') (b ∷ bs) (c ∷ cs) h k = ground (arith, lex_trans as' bs cs)

-- A common prefix does not count.
pub lex-append_left : (ps as' bs : List ℕ) → lex (ps ++ as') (ps ++ bs) ≡ lex as' bs
unfolding lex
lex-append_left [] as' bs = refl
lex-append_left (p ∷ ps) as' bs = ground (arith, lex-append_left ps as' bs)

-- A proper prefix, or the smaller number at the first difference.
pub data Before : List ℕ → List ℕ → Type 0 where
  is_prefix : (as' : List ℕ) (b : ℕ) (bs cs : List ℕ) → cs ≡ as' ++ (b ∷ bs) → Before as' cs
  differs :
      (ps : List ℕ) (a b : ℕ) (as' bs cs ds : List ℕ)
      → cs ≡ ps ++ (a ∷ as')
      → ds ≡ ps ++ (b ∷ bs)
      → a < b
      → Before cs ds

lex-Before : (cs ds : List ℕ) → lex cs ds ≡ Ordering.lt → Before cs ds
unfolding lex
lex-Before [] [] h = absurd (ground arith)
lex-Before [] (d ∷ ds) h = is_prefix [] d ds (d ∷ ds) refl
lex-Before (c ∷ cs) [] h = absurd (ground arith)
lex-Before (c ∷ cs) (d ∷ ds) h = elim (Bool-cases (ltb c d)) [
  | inl less ↦ differs [] c d cs ds (c ∷ cs) (d ∷ ds) refl refl (ground arith)
  | inr not_less ↦
      let e : c ≡ d = ground arith in
      subst (λ x. Before (c ∷ cs) (x ∷ ds)) e
        (Before-cons c cs ds (lex-Before cs ds (ground arith)))
]
  where
    Before-cons : (c : ℕ) (cs ds : List ℕ) → Before cs ds → Before (c ∷ cs) (c ∷ ds)
    Before-cons c _ _ (is_prefix as' b bs cs e) =
        is_prefix (c ∷ as') b bs (c ∷ cs) (ap (λ t. c ∷ t) e)
    Before-cons c _ _ (differs ps a b as' bs cs ds e f h) =
        differs (c ∷ ps) a b as' bs (c ∷ cs) (c ∷ ds) (ap (λ t. c ∷ t) e) (ap (λ t. c ∷ t) f) h

Before-lex : (cs ds : List ℕ) → Before cs ds → lex cs ds ≡ Ordering.lt
unfolding lex
Before-lex _ _ (is_prefix as' b bs cs e) =
    rw e
      (ap (λ t. lex t (as' ++ (b ∷ bs))) (sym (append-nil as')) ∙ lex-append_left as' [] (b ∷ bs))
Before-lex _ _ (differs ps a b as' bs cs ds e f h) =
    rw (e, f) (lex-append_left ps (a ∷ as') (b ∷ bs) ∙ ground arith)

-- `compareBytes` on any two byte arrays: it puts the first below the second exactly if the first is
-- a proper prefix of the second, or holds the smaller byte where they first differ; it puts it above
-- exactly if the second is below the first in this sense; and it answers 0 exactly if they are equal.
pub compare_bytes-Before :
    (as' bs : List ℕ)
    → ((compare_bytes as' bs ≡ Ordering.lt) ↔ Before as' bs)
      × ((compare_bytes as' bs ≡ Ordering.gt) ↔ Before bs as')
      × ((compare_bytes as' bs ≡ Ordering.eq) ↔ (as' ≡ bs))
compare_bytes-Before as' bs = simp compare_bytes-lex (
  (lex-Before as' bs, Before-lex as' bs),
  (
    (λ h. lex-Before bs as' (lex-swap as' bs ∙ ap flip_ordering h)),
    (λ h. lex-swap bs as' ∙ ap flip_ordering (Before-lex bs as' h)),
  ),
  (eq_of_lex as' bs, λ e. ap (lex as') (sym e) ∙ lex_refl as'),
)

equal_loop→eq : (as' bs : List ℕ) → length as' ≡ length bs → (equal_loop as' bs ≡ true) ↔ (as' ≡ bs)
unfolding equal_loop
equal_loop→eq [] [] h = (λ _. refl, λ _. refl)
equal_loop→eq [] (b ∷ bs) h = absurd (omega arith)
equal_loop→eq (a ∷ as') [] h = absurd (omega arith)
equal_loop→eq (a ∷ as') (b ∷ bs) h = ground (arith, equal_loop→eq as' bs (omega arith))

-- `equalBytes` answers true exactly on equal arrays.
pub equal_bytes_iff : (as' bs : List ℕ) → (equal_bytes as' bs ≡ true) ↔ (as' ≡ bs)
unfolding equal_bytes
equal_bytes_iff as' bs = (
  λ h. ground (arith, equal_loop→eq as' bs),
  λ e. ground (arith, ap length e, equal_loop→eq as' bs),
)

pub equal_bytes_refl : (as' : List ℕ) → equal_bytes as' as' ≡ true
equal_bytes_refl as' = (equal_bytes_iff as' as').1 refl
