-- ===== src/Tests.antt =====
-- Runs of the models on small inputs, and the theorems at inputs that meet their hypotheses.
mod AutoSync
mod Merkle
mod Miner
mod Pool
mod Seal
mod Shared
mod Storage
mod EntryBatch
mod SealInfo
mod Manager
mod Sync
