-- ===== src/Bitcoin/Sequence.antt =====
-- packages/bitcoin/lib/Sequence.ts and LockTime.ts: the numbers that lock an input or a
-- transaction, for arguments that are natural numbers. The text forms are left out.
pub mod Delays
use node_dlc.Prelude.{
  ℕ, ◌+◌, ◌-◌, ◌*◌, ◌/◌, ◌%◌, ◌^◌, Bool, ltb, leb, ◌==◌, if◌then◌else◌, Result, value, error,
  bad_value,
}

pub data TimeLockMode : Type 0 where
  block time : TimeLockMode

abbrev pub max_sequence : ℕ
max_sequence = 0xffff_ffff

-- The setter of the value, which the constructor runs too.
unfoldable pub sequence_of : ℕ → Result ℕ
sequence_of val = if ltb max_sequence val then error bad_value else value val

unfoldable pub is_enabled : ℕ → Bool
is_enabled s = (s / 2 ^ 31) == 0

unfoldable pub is_lock_time_signaled : ℕ → Bool
is_lock_time_signaled s = ltb s max_sequence

unfoldable pub is_rbf_signaled : ℕ → Bool
is_rbf_signaled s = ltb s (max_sequence - 1)

-- From bit 31 on the shift is negative, and the quotient here more than 1, too.
unfoldable pub mode : ℕ → TimeLockMode
mode s = if (s / 2 ^ 22) == 1 then time else block

unfoldable pub get_time_delay : ℕ → ℕ
get_time_delay s = s % 2 ^ 16 * 512

-- Bit 22 is clear in a value of 16 bits, so that setting it adds it.
unfoldable pub time_delay : ℕ → Result ℕ
time_delay seconds =
    let units = (seconds + 511) / 512 in
    if ltb 0xffff units then error bad_value else sequence_of (units + 2 ^ 22)

unfoldable pub get_block_delay : ℕ → ℕ
get_block_delay s = s % 2 ^ 16

unfoldable pub block_delay : ℕ → Result ℕ
block_delay blocks = if ltb 0xffff blocks then error bad_value else sequence_of blocks

-- The locktime of a transaction.
unfoldable pub locktime_of : ℕ → Result ℕ
locktime_of val = if ltb 0xffff_ffff val then error bad_value else value val

unfoldable pub locktime_mode : ℕ → TimeLockMode
locktime_mode l = if ltb l 500_000_000 then block else time

unfoldable pub is_locktime_enabled : ℕ → Bool
is_locktime_enabled l = ltb l 0xffff_ffff
