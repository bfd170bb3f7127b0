-- ===== src/Miner.antt =====
-- node/miner/src/mine.rs: `CustomMineRange`, the part of the flow that a miner works on, with the
-- sizes of common/spec/src/lib.rs. The length of the flow is that of the mining context.
pub mod Ranges
use ionian_rust.Base.{
  ℕ, ◌+◌, ◌-◌, ◌*◌, ◌/◌, ◌^◌, Bool, true, false, ◌||◌, if◌then◌else◌, Option, none, some, ltb, leb,
  min,
}

abbrev pub kb : ℕ
kb = 1024

abbrev pub mb : ℕ
mb = 1024 * kb

abbrev pub gb : ℕ
gb = 1024 * mb

abbrev pub tb : ℕ
tb = 1024 * gb

abbrev pub bytes_per_sector : ℕ
bytes_per_sector = 256

abbrev pub sectors_per_load : ℕ
sectors_per_load = 256 * kb / bytes_per_sector

abbrev pub sectors_per_pricing : ℕ
sectors_per_pricing = 8 * gb / bytes_per_sector

abbrev pub sectors_per_max_mining_range : ℕ
sectors_per_max_mining_range = 8 * tb / bytes_per_sector

pub record CustomMineRange : Type 0 where
  pub start_position : Option ℕ
  pub end_position : Option ℕ

-- The bounds of a range that has both.
abbrev pub with_bounds : {A : Type 0} → CustomMineRange → (ℕ → ℕ → Option A) → Option A
with_bounds r f = elim (r.start_position) [
  | none ↦ none
  | some start ↦ elim (r.end_position) [ none ↦ none | some end ↦ f start end ]
]

abbrev pub minable_length : ℕ → ℕ
minable_length flow_length = (flow_length / sectors_per_load) * sectors_per_load

abbrev pub valid_range : ℕ → ℕ → ℕ → Option (ℕ × ℕ)
valid_range flow_length start end =
    let minable = minable_length flow_length in
    let mining = min minable sectors_per_max_mining_range in
    let from = min start (minable - mining) in
    if leb end start
    then none
    else some ((from / sectors_per_pricing) * sectors_per_pricing, mining)

-- The start and the length.
pub to_valid_range : CustomMineRange → ℕ → Option (ℕ × ℕ)
to_valid_range r flow_length = with_bounds r (valid_range flow_length)

abbrev pub covers : ℕ → ℕ → ℕ → Option Bool
covers recall_position start end =
    if leb end start
    then some false
    else some (leb start (recall_position + sectors_per_load) || ltb recall_position end)

pub is_covered : CustomMineRange → ℕ → Option Bool
is_covered r recall_position = with_bounds r (covers recall_position)
