-- ===== src/Miner/Ranges.antt =====
-- The ranges of mine.rs.
use ionian_rust.Base.{
  ℕ, ◌+◌, ◌-◌, ◌*◌, ◌/◌, ◌%◌, ◌<◌, ◌≤◌, ◌≡◌, true, some, arith, min, ◌⊎◌, inl, inr, Bool-cases, leb,
  leb→le,
}
use ionian_rust.Miner.{
  sectors_per_load, sectors_per_pricing, sectors_per_max_mining_range, minable_length,
  to_valid_range, is_covered,
}

-- A range that is not empty is cut to the flow. Its length is the largest number of whole loads that
-- is within the flow and the limit. It starts at the last pricing boundary that is not behind the
-- start asked for and from which that length is within the flow.
pub to_valid_range-within :
    (start end flow_length : ℕ)
    → start < end
    → (from len : ℕ) × (to_valid_range
          (record { start_position = some start; end_position = some end })
          flow_length
        ≡ some (from, len))
      × (len % sectors_per_load ≡ 0)
      × (len ≤ sectors_per_max_mining_range)
      × ((len ≡ sectors_per_max_mining_range) ⊎ (flow_length < len + sectors_per_load))
      × (from % sectors_per_pricing ≡ 0)
      × (from ≤ start)
      × (from + len ≤ flow_length)
      × ((start < from + sectors_per_pricing) ⊎ (flow_length < from + sectors_per_pricing + len))
unfolding to_valid_range
to_valid_range-within start end flow_length lt =
    let minable = minable_length flow_length in
    let mining = min minable sectors_per_max_mining_range in
    let from = min start (minable - mining) in
    (
      (from / sectors_per_pricing) * sectors_per_pricing,
      mining,
      ground arith,
      omega arith,
      omega arith,
      longest,
      omega arith,
      omega arith,
      omega arith,
      last,
    )
  where
    longest :
        let len = min (minable_length flow_length) sectors_per_max_mining_range in
        (len ≡ sectors_per_max_mining_range) ⊎ (flow_length < len + sectors_per_load)
    longest = elim (Bool-cases (leb sectors_per_max_mining_range (minable_length flow_length))) [
      | inl e ↦ inl (omega (arith, leb→le _ _ e))
      | inr e ↦
          let g : minable_length flow_length < sectors_per_max_mining_range = ground (arith, e) in
          inr (omega (arith, g))
    ]

    last :
        let minable = minable_length flow_length in
        let len = min minable sectors_per_max_mining_range in
        let from = (min start (minable - len) / sectors_per_pricing) * sectors_per_pricing in
        (start < from + sectors_per_pricing) ⊎ (flow_length < from + sectors_per_pricing + len)
    last =
        let minable = minable_length flow_length in
        let len = min minable sectors_per_max_mining_range in
        elim (Bool-cases (leb start (minable - len))) [
          | inl e ↦ inl (omega (arith, leb→le _ _ e))
          | inr e ↦ let g : minable - len < start = ground (arith, e) in inr (omega (arith, g))
        ]

-- A range that is not empty covers every position, far from it or not.
pub is_covered-everywhere :
    (start end recall_position : ℕ)
    → start < end
    → is_covered (record { start_position = some start; end_position = some end }) recall_position
      ≡ some true
unfolding is_covered
is_covered-everywhere start end p lt = ground arith
