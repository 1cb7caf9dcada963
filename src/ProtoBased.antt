-- ===== src/ProtoBased.antt =====
-- npm/src/proto_based.ts: a KV over the messages `snapshotRead` and `atomicWrite`. `hex` is encodeHex
-- of the standard library, and a packed key or versionstamp is the list of its bytes.
pub mod Watch
pub mod Listing
use denokv.Prelude.{
  ℕ, zero, suc, ◌+◌, Bool, true, false, Option, none, some, List, [], ◌∷◌, ◌++◌, map, if◌then◌else◌,
  Error, Result, ok, err, ◌>>=◌,
}
use denokv.Bytes.{equal_bytes}
use denokv.KvKey.{TextCodec, KvKey, pack_key, unpack_key}
use denokv.KvUtil.Value.{Value, KvValueEncoding, KvValue, pack_kv_value, read_value}
use denokv.InMemory.State.{KvEntryMaybe}
use denokv.InMemory.Transaction.{
  AtomicCheck, KvMutation, set, delete, combine, Operation, op_sum, op_min, op_max, operand_object,
  Enqueue, CommitResult, failed, committed, expiry,
}

pub record ReadRange : Type 0 where
  pub start : List ℕ
  pub end : List ℕ
  pub limit : ℕ
  pub reverse : Bool

pub record KvEntryMessage : Type 0 where
  pub key : List ℕ
  pub value : List ℕ
  pub encoding : KvValueEncoding
  pub versionstamp : List ℕ

-- `versionstamp: undefined` is `none`.
pub record KvCheckMessage : Type 0 where
  pub key : List ℕ
  pub versionstamp : Option (List ℕ)

pub data MutationType : Type 0 where
  m_set m_delete m_sum m_max m_min : MutationType

-- `expireAtMs: "0"` is `none`.
pub record KvMutationMessage : Type 0 where
  pub key : List ℕ
  pub mutation_type : MutationType
  pub value : Option KvValue
  pub expire_at_ms : Option ℕ

pub record EnqueueMessage : Type 0 where
  pub backoff_schedule : List ℕ
  pub deadline_ms : ℕ
  pub keys_if_undelivered : List (List ℕ)
  pub payload : List ℕ

pub record AtomicWrite : Type 0 where
  pub checks : List KvCheckMessage
  pub mutations : List KvMutationMessage
  pub enqueues : List EnqueueMessage

pub data WriteStatus : Type 0 where
  aw_success aw_check_failure aw_other : WriteStatus

-- What the class is given: the serializer, the two requests, and the functions on hex digits.
pub record Client (V : Type 0) : Type 0 where
  pub text : TextCodec
  pub encode_v8 : Value V → Result (List ℕ)
  pub decode_v8 : List ℕ → Result (Value V)
  pub encode_hex : List ℕ → List ℕ
  pub decode_hex : List ℕ → Result (List ℕ)
  pub snapshot_read : List ReadRange → Result (List (List KvEntryMessage))
  pub atomic_write : AtomicWrite → Result (WriteStatus × List ℕ)
  pub commit_failed : Error

abbrev pub compute_read_range_for_key : List ℕ → ReadRange
compute_read_range_for_key k = record { start = k; end = 0xff ∷ []; limit = 1; reverse = false }

-- The entries of all ranges, in order.
abbrev pub all_values : List (List KvEntryMessage) → List KvEntryMessage
all_values [] = []
all_values (r ∷ rs) = r ++ all_values rs

abbrev pub mutation_type_of : Operation → MutationType
mutation_type_of op_sum = m_sum
mutation_type_of op_min = m_min
mutation_type_of op_max = m_max

abbrev pub traverse : {A B : Type 0} → (A → Result B) → List A → Result (List B)
traverse f [] = ok []
traverse f (a ∷ as') = do b ← f a; bs ← traverse f as'; ok (b ∷ bs)

module _ {V : Type 0} (C : Client V) where
  -- The entry with this key, as `get_` returns it.
  unfoldable pub find_entry : KvKey → List ℕ → List KvEntryMessage → Result (KvEntryMaybe V)
  find_entry key packed [] = ok (record { key = key; found = none })
  find_entry key packed (e ∷ es) =
      let rest = find_entry key packed es in
      let this = (do
        v ← read_value e.value e.encoding C.decode_v8
        ok (record { key = key; found = some (v, C.encode_hex e.versionstamp) })) in
      if equal_bytes e.key packed then this else rest

  unfoldable pub get_ : KvKey → Result (KvEntryMaybe V)
  get_ key = do
    ranges ← C.snapshot_read (compute_read_range_for_key (pack_key C.text key) ∷ [])
    find_entry key (pack_key C.text key) (all_values ranges)

  -- The `rowMap` of `getMany_`, the newest row first. Its keys are hex digits in the source.
  unfoldable pub row_map :
      List KvEntryMessage
      → List (List ℕ × Value V × List ℕ)
      → Result (List (List ℕ × Value V × List ℕ))
  row_map [] rows = ok rows
  row_map (e ∷ es) rows = do
    k ← unpack_key C.text e.key
    v ← read_value e.value e.encoding C.decode_v8
    row_map es ((e.key, v, C.encode_hex e.versionstamp) ∷ rows)

  unfoldable pub look_up : List ℕ → List (List ℕ × Value V × List ℕ) → Option (Value V × List ℕ)
  look_up k [] = none
  look_up k ((j, v, stamp) ∷ rows) =
      let rest = look_up k rows in if equal_bytes j k then some (v, stamp) else rest

  unfoldable pub get_many_ : List KvKey → Result (List (KvEntryMaybe V))
  get_many_ keys = do
    ranges ← C.snapshot_read (map (λ k. compute_read_range_for_key (pack_key C.text k)) keys)
    rows ← row_map (all_values ranges) []
    ok (map (λ k. record { key = k; found = look_up (pack_key C.text k) rows }) keys)

  unfoldable pub compute_kv_check_message : AtomicCheck → Result KvCheckMessage
  compute_kv_check_message c = elim c.versionstamp [
    | none ↦ ok (record { key = pack_key C.text c.key; versionstamp = none })
    | some s ↦ do
      bs ← C.decode_hex s
      ok (record { key = pack_key C.text c.key; versionstamp = some bs })
  ]

  unfoldable pub compute_kv_mutation_message : ℕ → KvMutation V → Result KvMutationMessage
  compute_kv_mutation_message now (set k v e) = do
    packed ← pack_kv_value v C.encode_v8
    ok (record {
      key = pack_key C.text k;
      mutation_type = m_set;
      value = some packed;
      expire_at_ms = expiry now e;
    })
  compute_kv_mutation_message now (delete k) = ok (record {
    key = pack_key C.text k;
    mutation_type = m_delete;
    value = none;
    expire_at_ms = none;
  })
  compute_kv_mutation_message now (combine op k o) = do
    packed ← pack_kv_value (operand_object o) C.encode_v8
    ok (record {
      key = pack_key C.text k;
      mutation_type = mutation_type_of op;
      value = some packed;
      expire_at_ms = none;
    })

  -- The value is always encoded by the serializer.
  unfoldable pub compute_enqueue_message : ℕ → Enqueue V → Result EnqueueMessage
  compute_enqueue_message now e = do
    payload ← C.encode_v8 e.value
    ok (record {
      backoff_schedule = 100 ∷ 200 ∷ 400 ∷ 800 ∷ [];
      deadline_ms = now + e.delay;
      keys_if_undelivered = map (pack_key C.text) e.keys_if_undelivered;
      payload = payload;
    })

  unfoldable pub commit_result : WriteStatus × List ℕ → Result CommitResult
  commit_result (aw_check_failure, stamp) = ok failed
  commit_result (aw_success, stamp) = ok (committed (C.encode_hex stamp))
  commit_result (aw_other, stamp) = err C.commit_failed

  unfoldable pub commit :
      ℕ → List AtomicCheck → List (KvMutation V) → List (Enqueue V) → Result CommitResult
  commit now checks mutations enqueues = do
    cs ← traverse compute_kv_check_message checks
    ms ← traverse (compute_kv_mutation_message now) mutations
    es ← traverse (compute_enqueue_message now) enqueues
    answer ← C.atomic_write (record { checks = cs; mutations = ms; enqueues = es })
    commit_result answer
