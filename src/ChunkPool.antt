-- ===== src/ChunkPool.antt =====
-- The chunk pool, node/chunk_pool/src/mem_pool: uploads held in memory or written to the store.
pub mod Types
pub mod WriteControl
pub mod SegmentCache
pub mod MemPool
