-- ===== src/Sync/AutoSync.antt =====
-- node/sync/src/auto_sync: the queues of transactions that wait for their files, and the manager of them.
pub mod TxStore
pub mod SyncStore
pub mod Manager
