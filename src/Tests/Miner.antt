-- ===== src/Tests/Miner.antt =====
-- Ranges of node/miner at concrete positions.
use ionian_rust.Base.{ℕ, ◌+◌, ◌%◌, ◌≤◌, ◌<◌, ◌⊎◌, ◌≡◌, true, some, arith}
use ionian_rust.Miner.{
  sectors_per_load, sectors_per_pricing, sectors_per_max_mining_range, to_valid_range, is_covered,
}
use ionian_rust.Miner.Ranges

to_valid_range-within_example :
    (from len : ℕ) × (to_valid_range
        (record { start_position = some 40000000; end_position = some 50000000 })
        35000000000
      ≡ some (from, len))
    × (len % sectors_per_load ≡ 0)
    × (len ≤ sectors_per_max_mining_range)
    × ((len ≡ sectors_per_max_mining_range) ⊎ (35000000000 < len + sectors_per_load))
    × (from % sectors_per_pricing ≡ 0)
    × (from ≤ 40000000)
    × (from + len ≤ 35000000000)
    × ((40000000 < from + sectors_per_pricing) ⊎ (35000000000 < from + sectors_per_pricing + len))
to_valid_range-within_example =
    Ranges.to_valid_range-within 40000000 50000000 35000000000 (omega arith)

is_covered-everywhere_example :
    is_covered (record { start_position = some 5; end_position = some 9 }) 1000000 ≡ some true
is_covered-everywhere_example = Ranges.is_covered-everywhere 5 9 1000000 (omega arith)
