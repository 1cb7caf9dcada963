-- ===== src/KvUtil.antt =====
-- npm/src/kv_util.ts: what the implementations of a KV share.
pub mod Value
pub mod Versionstamp
pub mod Timers
