-- ===== src/Storage.antt =====
-- node/storage/src/log_store: how the entries of the flow are kept.
pub mod ChunkData
pub mod SealInfo
pub mod EntryBatch
