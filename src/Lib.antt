-- ===== src/Lib.antt =====
-- A storage node keeps files in chunks of 256 bytes, a Merkle tree over the chunks of all files,
-- a pool of the segments that clients upload, and downloads the files that it lacks from peers.
-- This library models these parts of the node's code and proves what makes them correct.
--
-- The parts, the files that model them, and the code (paths from the root of the repository):
-- AppendMerkle: common/append_merkle/src/lib.rs and merkle_tree.rs. `AppendMerkleTree` is the
--   record of the same name, with the leaves as the first of its `layers`; `recompute` is the loop
--   over the layers (`recompute_layer` one round), AppendMerkle/Tree.antt has `append`,
--   `append_list`, `update_last`, `fill_leaf`, the subtrees and the constructors, Versions.antt has
--   `commit`, `revert_to`, `reset` and the history, Proof.antt has proof.rs and `gen_proof`.
-- SharedTypes: node/shared_types/src/lib.rs, sizes in chunks and segments, and `ChunkArray`.
-- ChunkPool: node/chunk_pool/src. WriteControl.antt is mem_pool/chunk_write_control.rs, the
--   sliding window of each upload and the count of writers; SegmentCache.antt is
--   mem_pool/chunk_cache.rs, the segments of files whose log entry is not known yet; MemPool.antt
--   is mem_pool/chunk_pool_inner.rs, which moves segments between the two and the store.
-- Sync: node/sync/src/controllers. Peers.antt is peers.rs, the states of the peers of a file;
--   Serial.antt is serial.rs, the state machine that finds peers, connects, and downloads a file
--   chunk array by chunk array. node/sync/src/auto_sync: AutoSync/TxStore.antt is tx_store.rs, a set
--   that can be enumerated, AutoSync/SyncStore.antt is sync_store.rs, the queues of pending and of
--   ready transactions, AutoSync/Manager.antt is manager.rs, the sequential synchronization, its
--   handling of reorganizations and announcements, and the work on the queues.
-- Storage: node/storage/src/log_store/load_chunk. ChunkData.antt and ChunkData/Insertion.antt are
--   chunk_data.rs, the data of one load as a whole or as separate parts, which are merged as data
--   comes in; SealInfo.antt is seal.rs with the truncation of bitmap.rs, which seals of a load are
--   sealed, and the contexts; EntryBatch.antt is mod.rs, which reads, fills and truncates a load
--   through both.
-- Miner: `CustomMineRange` of node/miner/src/mine.rs, and the sizes of common/spec/src/lib.rs.
-- Seal: common/ionian_seal/src/lib.rs, over any hash function.
-- Base: results that may panic (`Run`), errors as values (`Result`), maps as association lists
--   (`Dict`), lists and tests over the native numbers. Tests: runs at concrete inputs.
--
-- How the parts meet: the pool validates and sizes segments with SharedTypes, and the controller
-- hands the chunk arrays of a response to the store. The store, the channels, the clock, the random
-- generator and the network are arguments: a reply, a number, a list of what is sent.
--
-- Conventions. A failed assertion, an index out of range or an unwrapped `None` is `panic`. Hashes
-- and peer identities are numbers, and the hash function of the tree is a parameter (`Algorithm`).
-- Integers are unbounded where the code's 64-bit counters count chunks and writers held in memory;
-- the numbers of the manager, the end of a seal context and the shift of a seal bitmap wrap around, as
-- in a release build. The position in `is_covered` and the seal index in `context_index` are taken to
-- be below the last 1024 numbers of 64 bits and below 2^16 - 1, where their sums do not overflow. A
-- method that waits is split there (`write_chunks_begin`, `write_chunks_end`), or takes what comes in
-- during the wait as an argument (`sync_once`). A mutable slice (`get_mut`) is its bytes with the
-- function that puts others in their place.
--
-- The system around the manager (AutoSync/Manager/Coverage.antt) is a step relation: the log store
-- completes and reverts transactions, a reversion goes over a channel that is not overrun, and a
-- round of a task is one step, with the announcements that come in during it. A restart is not a step.
--
-- Fuel. `move_forward` has a round for each slot, and a round takes one away. `recompute_from` has a
-- round for each layer and node. `clear_from` has one for each version, and a round takes one away.
-- `run` of the download's loop has seven rounds, which are enough. `unseal_chunks` has a round for
-- each chunk of the read, counted as the code's chunking does.
--
-- Not modelled: the database and its stores (node/storage but the loads), the network library and
-- the router, the interface to the chain, the loops of mining and sealing, RPC, start-up, the file
-- location cache, vendored libraries, and locks and the interleaving of tasks inside the pool.
pub mod AppendMerkle
pub mod Base
pub mod ChunkPool
pub mod Miner
pub mod Seal
pub mod SharedTypes
pub mod Storage
pub mod Sync
pub mod Tests
