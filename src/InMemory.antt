-- ===== src/InMemory.antt =====
-- npm/src/in_memory.ts: the KV that keeps its rows in memory.
pub mod Rows
pub mod State
pub mod Transaction
pub mod Mutate
pub mod Commit
pub mod Listing
pub mod Expiry
pub mod Queue
pub mod Watches
pub mod Service
pub mod Reach
