-- ===== src/ChunkPool/Types.antt =====
-- What the files of node/chunk_pool/src share: `Config`, `FileID`, and `TxID` of
-- node/shared_types/src/lib.rs. A hash is the number that its 256 bits spell.
use ionian_rust.Base.{ℕ, ◌==◌, ◌&&◌, Bool}

abbrev pub DataRoot : Type 0
DataRoot = ℕ

pub record TxId : Type 0 where
  pub seq : ℕ
  pub hash : ℕ

pub record FileId : Type 0 where
  pub root : DataRoot
  pub tx_id : TxId

pub record Config : Type 0 where
  pub write_window_size : ℕ
  pub max_cached_chunks_all : ℕ
  pub max_writings : ℕ
  pub expiration_time : ℕ

-- The derived `PartialEq` of `FileID`.
abbrev pub file_id_eq : FileId → FileId → Bool
file_id_eq a b = a.root == b.root && a.tx_id.seq == b.tx_id.seq && a.tx_id.hash == b.tx_id.hash
