-- ===== src/Lib.antt =====
-- The TypeScript client library of denokv (npm/src): a Deno KV store in memory, and the encodings
-- and checks that all its stores share.
--
-- Bytes models bytes.ts: comparison, flipping and width of byte arrays, and ByteReader, a buffered
-- reader over a stream of chunks. KvKey models kv_key.ts: packKey and unpackKey, the encoding of
-- keys as byte arrays that the rows are sorted by. KvU64 models kv_u64.ts. KvUtil models parts of
-- kv_util.ts: values and their encodings, versionstamps, and the timers Expirer and QueueWorker.
-- InMemory models in_memory.ts: the rows, commit with its checks, enqueues and mutations
-- (Transaction, Mutate, Commit), listing, expiry, the queue worker, and watches. BaseKv models the
-- rest of kv_util.ts and check.ts: the builder of atomic operations, and the class BaseKv over a
-- record of the abstract methods; `expireIn` is any number up to the check of the builder, and a
-- positive integer behind it. V8 models v8.ts, Sleep sleep.ts, and ProtoBased proto_based.ts, with
-- the two requests of its subclasses as parameters. UnrawWatch models unraw_watch_stream.ts.
-- KvConnect models kv_connect_api.ts, the requests of the KV Connect protocol and the checks of the
-- metadata, and Remote remote.ts: the metadata with its refreshes, the choice of an endpoint,
-- reads, writes, and the watch streams (Watching) with their loops. NapiBased models napi_based.ts,
-- over the calls of the native library, and OpenKv npm.ts and native.ts, the choice of an
-- implementation. Examples runs the theorems at concrete inputs.
--
-- A byte array is a list of numbers, a bigint a number of Prelude.Int, a string the list of its
-- UTF-16 units, a double its 64-bit pattern. A function that may throw returns a Result, and one
-- that throws after it changed state returns the state beside it. Time is an argument: one call
-- reads one time. The loop of unpackKey runs on fuel, as much as there are bytes: each round takes
-- one at least. computeBigintMinimumNumberOfBytes runs on the value as fuel, which each round makes
-- smaller. The loop of listStream runs on fuel that bounds its passes, pull on fuel that bounds its
-- rounds, and executeWithRetries on one round more than there may be retries. The watch loop of
-- remote.ts runs on two fuels, of its streams and of the messages in each.
--
-- A listing runs on rows that do not change meanwhile. The worker of the queue is three steps: up
-- to the call of the handler, after it returned, and after it threw.
--
-- TextEncoder and TextDecoder, RedBlackTree of the standard library and structuredClone are
-- parameters (KvKey.TextCodec, V8.TextDecoders, InMemory.Rows.RowTree, InMemory.State.Env,
-- ProtoBased.Client, KvConnect.Platform, NapiBased.NapiInterface), with what the code relies on as
-- their laws; a sorted list is an instance of the tree. Promises, timers and streams of the
-- platform are not modelled: a pending timer is its delay, and a stream is what was sent to it.
-- Cursor strings are the bytes in them. In KvConnect and Remote a request counts once however often
-- executeWithRetries sends it again, and the time that it sleeps between the attempts is left out
-- (both are in Sleep); the fetcher answers attempt i of request k as it likes. The version of a
-- store stays at 2 ^ 53 as in the source; the ids of its queue items are taken as exact, which they
-- are below 2 ^ 53. A NaN keeps its payload when its sign changes. The queue of napi_based.ts is
-- run on the list of the messages that the library delivers. The debug output, the protobuf
-- messages and their copied runtime (npm/src/proto), the native bindings and the Rust crates are
-- not modelled.
pub mod Prelude
pub mod Bytes
pub mod KvKey
pub mod KvU64
pub mod KvUtil
pub mod InMemory
pub mod BaseKv
pub mod V8
pub mod Sleep
pub mod ProtoBased
pub mod UnrawWatch
pub mod KvConnect
pub mod Remote
pub mod NapiBased
pub mod OpenKv
pub mod Examples
