-- ===== src/Remote/Watching/Loop.antt =====
-- The loop of `yieldResults` in npm/src/remote.ts over the messages of a stream.
use denokv.Prelude.{
  ℕ, zero, suc, ◌+◌, ◌-◌, ◌*◌, Bool, Option, none, some, List, [], ◌∷◌, ltb, if◌then◌else◌, Error,
  Result, ok, err, read_disabled_after_retry, unexpected_status,
}
use denokv.Prelude.Int.{ℤ, pos, negsuc}
use denokv.Bytes.Reader.{ByteReader, read}
use denokv.KvKey.{KvKey}
use denokv.KvUtil.Value.{Value}
use denokv.InMemory.State.{KvEntryMaybe}
use denokv.ProtoBased.Watch.{LastValues, process_output_keys}
use denokv.KvConnect.{sr_success, sr_read_disabled, sr_other, WatchOutput, Platform}

-- `getInt32(0, true)` of the four bytes that were read.
unfoldable pub get_int32 : List ℕ → ℤ
get_int32 (a ∷ b ∷ c ∷ d ∷ rest) =
    let n = a + 256 * (b + 256 * (c + 256 * d)) in
    if ltb n 0x80000000 then pos n else negsuc (0xffffffff - n)
get_int32 _ = pos 0

-- How the loop over the messages of a stream ends: with the stream, at the first SR_READ_DISABLED,
-- or by an exception. `unfinished` is no end of the program: the fuel ran out.
pub data StreamEnd : Type 0 where
  stream_ended read_refused unfinished : StreamEnd
  stream_failed : Error → StreamEnd

-- The entries that a stream gives, and how it ends.
abbrev pub Messages : Type 0 → Type 0
Messages V = List (List (KvEntryMaybe V)) × StreamEnd

-- The entries of a message are yielded, and `next` goes on.
abbrev pub with_entries :
    {V : Type 0}
    → Result (List (KvEntryMaybe V)) × LastValues V
    → (LastValues V → Messages V)
    → Messages V
with_entries (err e, cache) next = ([], stream_failed e)
with_entries (ok es, cache) next = let rest = next cache in (es ∷ rest.0, rest.1)

module _ {V : Type 0} (P : Platform) (decode_v8 : List ℕ → Result (Value V))
    (encode_hex : List ℕ → List ℕ) (bad_first : Error) where
  abbrev pub with_output :
      List KvKey
      → Bool
      → LastValues V
      → Result WatchOutput
      → (LastValues V → Messages V)
      → Messages V
  with_output keys read_disabled cache (err e) next = ([], stream_failed e)
  with_output keys read_disabled cache (ok out) next = elim out.status [
    | sr_read_disabled ↦
        ([], if read_disabled then stream_failed read_disabled_after_retry else read_refused)
    | sr_other ↦ ([], stream_failed unexpected_status)
    | sr_success ↦
        with_entries (process_output_keys decode_v8 encode_hex bad_first keys out.keys cache) next
  ]

  -- A message is decoded and handled.
  unfoldable pub on_message :
      List KvKey → Bool → LastValues V → List ℕ → (LastValues V → Messages V) → Messages V
  on_message keys read_disabled cache bytes next =
      with_output keys read_disabled cache (P.decode_watch_output bytes) next

  abbrev pub with_message :
      List KvKey
      → Bool
      → LastValues V
      → Result (Option (List ℕ) × ByteReader)
      → (LastValues V → ByteReader → Messages V)
      → Messages V
  with_message keys read_disabled cache (err e) next = ([], stream_failed e)
  with_message keys read_disabled cache (ok (none, r)) next = ([], stream_ended)
  with_message keys read_disabled cache (ok (some bytes, r)) next =
      on_message keys read_disabled cache bytes (λ c. next c r)

  -- `if (n > 0)`
  abbrev pub with_size :
      List KvKey
      → Bool
      → LastValues V
      → ℤ
      → ByteReader
      → (LastValues V → ByteReader → Messages V)
      → Messages V
  with_size keys read_disabled cache (negsuc n) r next = next cache r
  with_size keys read_disabled cache (pos zero) r next = next cache r
  with_size keys read_disabled cache (pos (suc n)) r next =
      with_message keys read_disabled cache (read (pos (suc n)) r) next

  abbrev pub with_header :
      List KvKey
      → Bool
      → LastValues V
      → Result (Option (List ℕ) × ByteReader)
      → (LastValues V → ByteReader → Messages V)
      → Messages V
  with_header keys read_disabled cache (err e) next = ([], stream_failed e)
  with_header keys read_disabled cache (ok (none, r)) next = ([], stream_ended)
  with_header keys read_disabled cache (ok (some bytes, r)) next =
      with_size keys read_disabled cache (get_int32 bytes) r next

  -- The `while (true)` of `yieldResults`, with so many rounds at most.
  unfoldable pub read_loop : ℕ → List KvKey → Bool → LastValues V → ByteReader → Messages V
  read_loop zero keys read_disabled cache reader = ([], unfinished)
  read_loop (suc fuel) keys read_disabled cache reader =
      with_header keys read_disabled cache (read (pos 4) reader)
        λ c r. read_loop fuel keys read_disabled c r
