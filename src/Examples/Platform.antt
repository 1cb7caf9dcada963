-- ===== src/Examples/Platform.antt =====
-- A platform for the examples: text in two bytes a unit, rows in a sorted list, and a clone that
-- throws on one value.
use denokv.Prelude.{
  ℕ, ◌+◌, ◌*◌, ◌/◌, ◌%◌, ◌<◌, ◌≡◌, refl, ap, true, List, [], ◌∷◌, All, Result, ok, err, data_clone,
  Bool-cases, inl, inr, ltb, leb, ◌==◌, ◌&&◌, ◌||◌, if◌then◌else◌, arith,
}
use denokv.Bytes.{IsByte}
use denokv.KvKey.{TextCodec, is_well_formed}
use denokv.KvUtil.Value.{Value, plain}
use denokv.InMemory.Rows.Laws.{list_tree}
use denokv.InMemory.State.{Env}

abbrev pub encode_units : List ℕ → List ℕ
encode_units [] = []
encode_units (u ∷ us) = (u / 256 % 256) ∷ (u % 256) ∷ encode_units us

abbrev pub decode_units : List ℕ → List ℕ
decode_units [] = []
decode_units (a ∷ []) = []
decode_units (a ∷ b ∷ bs) = (a * 256 + b) ∷ decode_units bs

pub units-IsByte : (s : List ℕ) → All IsByte (encode_units s)
units-IsByte [] = tt
units-IsByte (u ∷ us) = (omega arith, (omega arith, units-IsByte us))

pub units_small : (s : List ℕ) → is_well_formed s ≡ true → All (λ u. u < 0x10000) s
units_small [] h = tt
units_small (u ∷ []) h = (ground arith, tt)
units_small (u ∷ v ∷ us) h = elim (Bool-cases (ltb u 0xd800 || (leb 0xe000 u && ltb u 0x10000))) [
  | inl single ↦ (ground arith, units_small (v ∷ us) (ground arith))
  | inr pair ↦ (ground arith, (ground arith, units_small us (ground arith)))
]

pub decode-encode_units :
    (s : List ℕ) → All (λ u. u < 0x10000) s → decode_units (encode_units s) ≡ s
decode-encode_units [] h = refl
decode-encode_units (u ∷ us) (h, hs) =
    rw (decode-encode_units us hs) (ap (λ t. t ∷ us) (omega arith))

abbrev pub codec : TextCodec
codec = record {
  encode = encode_units;
  decode = decode_units;
  encode-IsByte = units-IsByte;
  decode-encode = λ s h _. decode-encode_units s (units_small s h);
}

-- The value `plain 13` stands for a function, which `structuredClone` refuses.
abbrev pub clone : Value ℕ → Result (Value ℕ)
clone (plain v) = if v == 13 then err data_clone else ok (plain v)
clone v = ok v

abbrev pub env : Env ℕ
env = record { text = codec; tree = list_tree ℕ; structured_clone = clone }
