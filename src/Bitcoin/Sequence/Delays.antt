-- ===== src/Bitcoin/Sequence/Delays.antt =====
-- Relative delays that are set and read again.
use node_dlc.Prelude.{
  ℕ, ◌+◌, ◌*◌, ◌/◌, ◌^◌, ◌≤◌, ◌<◌, ◌≡◌, refl, arith, true, false, ltb, ◌==◌, value,
}
use node_dlc.Bitcoin.Sequence.{
  block, time, max_sequence, sequence_of, is_enabled, mode, get_time_delay, time_delay,
  get_block_delay, block_delay,
}

time_delay_lem :
    (seconds : ℕ)
    → seconds ≤ 0xffff * 512
    → (s : ℕ) × (time_delay seconds ≡ value s)
      × (mode s ≡ time)
      × (is_enabled s ≡ true)
      × (seconds ≤ get_time_delay s)
      × (get_time_delay s < seconds + 512)
unfolding time_delay sequence_of mode is_enabled get_time_delay
time_delay_lem seconds h =
    let units = (seconds + 511) / 512 in
    let low : units ≤ 0xffff = omega arith in
    let fits : ltb 0xffff units ≡ false = ground arith in
    let inside : ltb max_sequence (units + 2 ^ 22) ≡ false = ground arith in
    let high : ((units + 2 ^ 22) / 2 ^ 22 == 1) ≡ true = ground arith in
    let on : ((units + 2 ^ 22) / 2 ^ 31 == 0) ≡ true = ground arith in
    (units + 2 ^ 22, rw (fits, inside) refl, rw high refl, on, omega arith, omega arith)

block_delay_lem :
    (blocks : ℕ)
    → blocks ≤ 0xffff
    → (block_delay blocks ≡ value blocks)
      × (mode blocks ≡ block)
      × (is_enabled blocks ≡ true)
      × (get_block_delay blocks ≡ blocks)
unfolding block_delay sequence_of mode is_enabled get_block_delay
block_delay_lem blocks h =
    let fits : ltb 0xffff blocks ≡ false = ground arith in
    let inside : ltb max_sequence blocks ≡ false = ground arith in
    let low : (blocks / 2 ^ 22 == 1) ≡ false = ground arith in
    (rw (fits, inside) refl, rw low refl, ground arith, omega arith)

-- A delay of up to 65535 times 512 seconds is set as an enabled sequence of the time mode, and
-- read again as a delay that is not shorter and less than 512 seconds longer; one of up to 65535
-- blocks is set as an enabled sequence of the block mode, and read again exactly.
pub time_delay-block_delay :
    (seconds blocks : ℕ)
    → seconds ≤ 0xffff * 512
    → blocks ≤ 0xffff
    → ((s : ℕ) × (time_delay seconds ≡ value s)
        × (mode s ≡ time)
        × (is_enabled s ≡ true)
        × (seconds ≤ get_time_delay s)
        × (get_time_delay s < seconds + 512))
      × ((block_delay blocks ≡ value blocks)
          × (mode blocks ≡ block)
          × (is_enabled blocks ≡ true)
          × (get_block_delay blocks ≡ blocks))
time_delay-block_delay seconds blocks h k = (time_delay_lem seconds h, block_delay_lem blocks k)
