-- ===== src/Storage/SealInfo/RoundTrip.antt =====
-- What seal.rs unseals, from the setting of a context and the sealing of a seal on.
use ionian_rust.Seal
use ionian_rust.Seal.Inverse
use ionian_rust.Storage.SealInfo.{SealInfo}
