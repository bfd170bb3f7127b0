-- ===== src/Sync.antt =====
-- node/sync/src/controllers: the peers of a file that is being downloaded, and the controller that
-- downloads it chunk array by chunk array.
pub mod Peers
pub mod Serial
pub mod AutoSync
