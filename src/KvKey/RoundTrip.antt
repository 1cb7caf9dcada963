-- ===== src/KvKey/RoundTrip.antt =====
-- `unpackKey` reads back what `packKey` of npm/src/kv_key.ts wrote.
use denokv.Prelude.{
  ℕ, zero, suc, ◌^◌, ◌≤◌, ◌<◌, ◌≡◌, refl, ap, sym, ◌∙◌, true, false, List, [], ◌∷◌, ◌++◌, map,
  append_assoc, append-nil, length, length-append, All, ok, arith,
}
use denokv.Prelude.Int.{pos, negsuc, abs}
use denokv.Bytes.{IsByte, check_end, compute_bigint_minimum_number_of_bytes}
use denokv.KvKey.{
  TextCodec, KvKeyPart, KvKey, bytes, string, number, bigint, boolean, is_well_formed, has_bom,
  pack_bigint, pack_number, unpack_part, pack_key_part, pack_key, unpack_loop, unpack_key,
}
use denokv.KvKey.Escape.{NoFf, encode-escape, read_escaped-escape}
use denokv.KvKey.Double.{normal_number, read_number-pack}
use denokv.KvKey.Integer.{first_part, unpack_bigint}

-- The parts that have a faithful encoding: byte arrays, well-formed text without a byte order mark
-- in front, doubles, bigints of at most 255 bytes, and booleans.
abbrev pub IsPackable : KvKeyPart → Type 0
IsPackable (bytes bs) = All IsByte bs
IsPackable (string s) = (is_well_formed s ≡ true) × (has_bom s ≡ false)
IsPackable (number x) = x < 2 ^ 64
IsPackable (bigint v) = compute_bigint_minimum_number_of_bytes (abs v) ≤ 255
IsPackable (boolean b) = Unit {0}

-- A number comes back up to the sign of zero and of NaN, any other part as it is.
abbrev pub normal_part : KvKeyPart → KvKeyPart
normal_part (bytes bs) = bytes bs
normal_part (string s) = string s
normal_part (number x) = number (normal_number x)
normal_part (bigint v) = bigint v
normal_part (boolean b) = boolean b

module _ (text : TextCodec) where
  unpack_string :
      (s rest : List ℕ)
      → IsPackable (string s)
      → NoFf rest
      → first_part text (pack_key_part text (string s) ++ rest) ≡ ok (string s, rest)
  unfolding pack_key_part unpack_part
  unpack_string s rest (wf, bom) h =
      let e = text.encode s in
      rw (encode-escape e, append_assoc, read_escaped-escape e rest h, text.decode-encode s wf bom)
        refl

  unpack_bytes :
      (bs rest : List ℕ)
      → NoFf rest
      → first_part text (pack_key_part text (bytes bs) ++ rest) ≡ ok (bytes bs, rest)
  unfolding pack_key_part unpack_part
  unpack_bytes bs rest h = rw (encode-escape bs, append_assoc, read_escaped-escape bs rest h) refl

  unpack_number :
      (x : ℕ) (rest : List ℕ)
      → x < 2 ^ 64
      → first_part text (pack_key_part text (number x) ++ rest)
        ≡ ok (number (normal_number x), rest)
  unfolding pack_key_part unpack_part
  unpack_number x rest h = let (body, e, r) = read_number-pack x rest h in rw e r

  -- One round of `unpackKey` takes off what `packKeyPart` wrote.
  pub unpack-pack_part :
      (p : KvKeyPart) (rest : List ℕ)
      → IsPackable p
      → NoFf rest
      → first_part text (pack_key_part text p ++ rest) ≡ ok (normal_part p, rest)
  unpack-pack_part (bytes bs) rest h k = unpack_bytes bs rest k
  unpack-pack_part (string s) rest h k = unpack_string s rest h k
  unpack-pack_part (number x) rest h k = unpack_number x rest h
  unpack-pack_part (bigint v) rest h k = unfold pack_key_part in unpack_bigint text v rest h
  unpack-pack_part (boolean true) rest h k = unfold pack_key_part unpack_part in refl
  unpack-pack_part (boolean false) rest h k = unfold pack_key_part unpack_part in refl

  -- Every part starts with a typecode, and none of them is 0xff.
  pack_part_head :
      (p : KvKeyPart) → (t : ℕ) × (body : List ℕ) × (pack_key_part text p ≡ t ∷ body) × (t < 0x28)
  unfolding pack_key_part pack_bigint pack_number
  pack_part_head (bytes bs) = (_, _, refl, omega arith)
  pack_part_head (string s) = (_, _, refl, omega arith)
  pack_part_head (number x) = (_, _, refl, omega arith)
  pack_part_head (bigint (pos v)) = (_, _, refl, ground arith)
  pack_part_head (bigint (negsuc v)) = (_, _, refl, ground arith)
  pack_part_head (boolean true) = (_, _, refl, omega arith)
  pack_part_head (boolean false) = (_, _, refl, omega arith)

  pub pack_key-NoFf : (ps : KvKey) → NoFf (pack_key text ps)
  unfolding pack_key
  pack_key-NoFf [] = tt
  pack_key-NoFf (p ∷ ps) = let (t, body, e, small) = pack_part_head p in rw e (omega arith)

  loop_step :
      (fuel : ℕ) (bs : List ℕ) (rt : KvKey) (p : KvKeyPart) (rest : List ℕ)
      → first_part text bs ≡ ok (p, rest)
      → unpack_loop text (suc fuel) bs rt ≡ unpack_loop text fuel rest (rt ++ (p ∷ []))
  unfolding unpack_loop
  loop_step fuel [] rt p rest h = cc
  loop_step fuel (t ∷ bs) rt p rest h = rw h

  -- A part takes a byte at least.
  pack_part-length : (p : KvKeyPart) → 1 ≤ length (pack_key_part text p)
  pack_part-length p = let (t, body, e, small) = pack_part_head p in rw e (omega arith)

  loop-pack_key :
      (ps : KvKey) (fuel : ℕ) (rt : KvKey)
      → All IsPackable ps
      → length (pack_key text ps) ≤ fuel
      → unpack_loop text fuel (pack_key text ps) rt ≡ ok (rt ++ map normal_part ps, [])
  unfolding pack_key
  loop-pack_key [] fuel rt h k = rw append-nil (unfold unpack_loop in refl)
  loop-pack_key (p ∷ ps) zero rt h k =
      absurd
        (omega (arith, pack_part-length p, length-append (pack_key_part text p) (pack_key text ps)))
  loop-pack_key (p ∷ ps) (suc fuel) rt h k =
      loop_step fuel _ rt (normal_part p) (pack_key text ps)
        (unpack-pack_part p (pack_key text ps) h.0 (pack_key-NoFf ps))
      ∙ loop-pack_key ps fuel (rt ++ (normal_part p ∷ [])) h.1 (
          omega
            (arith, pack_part-length p, length-append (pack_key_part text p) (pack_key text ps)))
      ∙ ap (λ t. ok (t, [])) (append_assoc rt (normal_part p ∷ []) (map normal_part ps))

  -- `unpackKey` reads back the key that `packKey` wrote, if every part has a faithful encoding:
  -- byte arrays, well-formed text without a byte order mark in front, doubles, bigints of at most
  -- 255 bytes and booleans. Of a number only the sign of zero and of NaN is lost.
  pub unpack_key-pack_key :
      (ps : KvKey)
      → All IsPackable ps
      → unpack_key text (pack_key text ps) ≡ ok (map normal_part ps)
  unfolding unpack_key check_end
  unpack_key-pack_key ps h =
      rw (loop-pack_key ps (length (pack_key text ps)) [] h (omega arith)) (ground arith)

  -- The encoding of a key followed by more parts starts with the encoding of the key.
  pub pack_key-append :
      (ps qs : KvKey) → pack_key text (ps ++ qs) ≡ pack_key text ps ++ pack_key text qs
  unfolding pack_key
  pack_key-append [] qs = refl
  pack_key-append (p ∷ ps) qs =
      ap (λ t. pack_key_part text p ++ t) (pack_key-append ps qs)
      ∙ sym (append_assoc (pack_key_part text p) (pack_key text ps) (pack_key text qs))
