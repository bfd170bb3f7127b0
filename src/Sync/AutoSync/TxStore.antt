-- ===== src/Sync/AutoSync/TxStore.antt =====
-- node/sync/src/auto_sync/tx_store.rs: a set of sequence numbers that can be enumerated. The
-- entries under the three kinds of database keys are the fields; a batch of writes is applied in its
-- order. Errors of the database are not modelled.
pub mod Enumeration
use ionian_rust.Base.{
  ℕ, ◌+◌, ◌-◌, ◌%◌, Bool, true, false, if◌then◌else◌, Option, none, some, [], ltb, ◌==◌, is_some,
  Run, ret, ◌>>=◌, ◌>>◌, assert, unwrap, ℕ_discrete,
}
use ionian_rust.Base.Dict
use ionian_rust.Base.Dict.{Dict}

pub record TxStore : Type 0 where
  pub index2seq : Dict ℕ ℕ
  pub seq2index : Dict ℕ ℕ
  pub num : ℕ

abbrev pub empty : TxStore
empty = record { index2seq = []; seq2index = []; num = 0 }

abbrev pub index_of : TxStore → ℕ → Option ℕ
index_of s tx_seq = Dict.get ℕ_discrete tx_seq s.seq2index

abbrev pub at : TxStore → ℕ → Option ℕ
at s index = Dict.get ℕ_discrete index s.index2seq

abbrev pub has : TxStore → ℕ → Bool
has s tx_seq = is_some (index_of s tx_seq)

pub add : TxStore → ℕ → TxStore × Bool
add s tx_seq = if has s tx_seq then (s, false) else (
  record {
    index2seq = Dict.insert ℕ_discrete s.num tx_seq s.index2seq;
    seq2index = Dict.insert ℕ_discrete tx_seq s.num s.seq2index;
    num = s.num + 1;
  },
  true,
)

-- The choice of the random generator is the number `pick`.
pub random : ℕ → TxStore → Run (Option ℕ)
random pick s =
    if s.num == 0 then ret none else unwrap (at s (pick % s.num)) >>= λ tx_seq. ret (some tx_seq)

-- The last element takes the place of the removed one.
pub remove_at : TxStore → ℕ → ℕ → Run TxStore
remove_at s tx_seq index = do
  assert (ltb 0 s.num)
  if index == s.num - 1
      then ret (record {
        index2seq = Dict.remove ℕ_discrete index s.index2seq;
        seq2index = Dict.remove ℕ_discrete tx_seq s.seq2index;
        num = s.num - 1;
      })
      else do
        last_tx ← unwrap (at s (s.num - 1))
        ret (record {
          index2seq =
              Dict.remove ℕ_discrete (s.num - 1) (Dict.insert ℕ_discrete index last_tx s.index2seq);
          seq2index =
              Dict.insert ℕ_discrete last_tx index (Dict.remove ℕ_discrete tx_seq s.seq2index);
          num = s.num - 1;
        })

pub remove : TxStore → ℕ → Run (TxStore × Bool)
unfolding remove_at
remove s tx_seq = elim (index_of s tx_seq) [
  | none ↦ ret (s, false)
  | some index ↦ remove_at s tx_seq index >>= λ s'. ret (s', true)
]
