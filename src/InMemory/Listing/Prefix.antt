-- ===== src/InMemory/Listing/Prefix.antt =====
-- The range that `listStream` of npm/src/in_memory.ts reads for a `prefix` selector.
use denokv.Prelude.{◌≡◌, ◌≢◌, [], ◌∷◌, Ordering}
use denokv.KvKey.{TextCodec, KvKey}
use denokv.KvKey.Order.{compare_parts}

-- From the start of a range on, and below its end.
abbrev pub InRange : Ordering → Ordering → Type 0
InRange from_start from_end = (from_start ≢ Ordering.lt) × (from_end ≡ Ordering.lt)

module _ (text : TextCodec) where
  -- The first parts of the key are those of the prefix, one by one.
  abbrev pub StartsWith : KvKey → KvKey → Type 0
  StartsWith ps [] = Unit {0}
  StartsWith [] (q ∷ qs) = ⊥
  StartsWith (p ∷ ps) (q ∷ qs) = (compare_parts text p q ≡ Ordering.eq) × StartsWith ps qs
