-- ===== src/Sync/Serial/Storing.antt =====
-- What a response adds to a download of serial.rs.
use ionian_rust.Base.{ℕ, ◌-◌, ◌*◌, ◌≡◌, ◌<◌, ◌⊎◌, inl, inr, true, length, ok, arith, subst}
use ionian_rust.SharedTypes.{ChunkArray, chunk_size}
use ionian_rust.Sync.Peers.{PeerId, count}
use ionian_rust.Sync.Serial.{
  SerialSyncController, ban_peer, chunks_stored, Replies, accept_response, on_response,
}
use ionian_rust.Sync.Serial.Invariant.{dialling, Progress, IsValid}
use ionian_rust.Sync.Serial.Responses.{handle_on_response_mismatch-cases}

-- The download has moved on over the chunks of the response, which the store has proved and stored.
abbrev pub Advances : SerialSyncController → SerialSyncController → ChunkArray → Replies → Type 0
Advances c c' a r =
    (c.next_chunk < c'.next_chunk)
    × (a.start_index ≡ c.next_chunk)
    × (length a.bytes ≡ (c'.next_chunk - c.next_chunk) * chunk_size)
    × (r.proof ≡ ok true)
    × (r.put ≡ ok true)

advances :
    (now : ℕ) (c : SerialSyncController) (from_id from to : ℕ) (a : ChunkArray) (r : Replies)
    → from ≡ c.next_chunk
    → ((accept_response now c from_id from to a r).next_chunk ≡ c.next_chunk)
      ⊎ Advances c (accept_response now c from_id from to a r) a r
unfolding accept_response ban_peer chunks_stored
advances now c id from to a r e = ground (arith, e)

-- A response in a valid download either leaves the count of stored chunks as it is, or moves it on
-- over exactly the chunks of the response, at least one; then these start at the next chunk, their
-- proof was accepted and the store has taken them.
pub on_response-Advances :
    (now : ℕ) (c : SerialSyncController) (from_id : PeerId) (a : ChunkArray) (r : Replies)
    → IsValid c
    → ((on_response now c from_id a r).next_chunk ≡ c.next_chunk)
      ⊎ Advances c (on_response now c from_id a r) a r
unfolding on_response
on_response-Advances now c id a r v = elim (handle_on_response_mismatch-cases c id) [
  | inl e ↦ inl (ground (arith, e))
  | inr (e, from, to, t, s) ↦
      let (same, _, _, _) =
        subst (Progress c.next_chunk c.num_chunks (count c.peers dialling)) s v.progress in
      let run : on_response now c id a r ≡ accept_response now c id from to a r =
        ground (arith, e, s) in
      rw run (advances now c id from to a r same)
]
