-- ===== src/Bitcoin/Tests.antt =====
-- packages/bitcoin on small inputs.
use node_dlc.Prelude.{
  ℕ, ◌<◌, ◌+◌, true, ◌≤◌, ◌+◌, ◌*◌, ◌≡◌, refl, arith, inr, List, [], ◌∷◌, length, replicate, value,
  and_then, result,
}
use node_dlc.Bitcoin.Script.{ScriptCmd, op_code, push_data, serialize_cmds, parse_cmds, read_cmds}
use node_dlc.Bufio.Reader.{reader}
use node_dlc.Bufio.Bytes.{be_bytes, le_bytes}
use node_dlc.Bufio.Writer.Expand.{max_size}
use node_dlc.Bufio.Writer.Numbers.{var_int}
use node_dlc.Bitcoin.Script.RoundTrip.{IsScript, cmd_bytes, parse_cmds-serialize_cmds}
use node_dlc.Bitcoin.Sequence.{
  block, time, mode, is_enabled, time_delay, get_time_delay, block_delay, get_block_delay,
}
use node_dlc.Bitcoin.Sequence.Delays.{time_delay-block_delay}
use node_dlc.Bitcoin.Tx.{Tx, serialize_tx, serialize_legacy, from_buffer, is_seg_wit, has_witness}
use node_dlc.Bitcoin.Tx.Weight.{calc_size}
use node_dlc.Bitcoin.Tx.Format.{IsTx, tx_bytes}
use node_dlc.Bitcoin.Tx.RoundTrip.{from_buffer-serialize_tx}
use node_dlc.Bitcoin.Tx.Size.{sizes, calc_size-serialize_tx}

-- OP_HASH160, a hash, OP_EQUAL.
abbrev p2sh : List ScriptCmd
p2sh = op_code 0xa9 ∷ push_data (replicate 20 7) ∷ op_code 0x87 ∷ []

parse_cmds-serialize_cmds_example :
    (and_then (serialize_cmds p2sh) parse_cmds ≡ value p2sh)
    × (and_then (serialize_cmds p2sh) (λ buf. result (read_cmds 4 (reader buf))) ≡ value p2sh)
parse_cmds-serialize_cmds_example = parse_cmds-serialize_cmds p2sh (
  (omega arith, inr (omega arith)),
  ((omega arith, omega arith), ((omega arith, inr (omega arith)), tt)),
)

abbrev op_true : List ScriptCmd
op_true = op_code 0x51 ∷ []

op_true-IsScript : IsScript op_true
unfolding cmd_bytes be_bytes le_bytes
op_true-IsScript = (((omega arith, inr (omega arith)), tt), omega arith)

abbrev spend : Tx
spend = record {
  version = 2;
  inputs =
      record {
        outpoint = record { txid = replicate 32 1; output_index = 0 };
        script_sig = [];
        sequence = 0xffff_fffe;
        witness = (0x30 ∷ 0x44 ∷ []) ∷ [] ∷ [];
      }
      ∷ [];
  outputs = record { value = 1000; script_pub_key = op_true } ∷ [];
  locktime = 7;
}

spend-IsTx : IsTx spend
spend-IsTx = record {
  version = omega arith;
  inputs = (
    record {
      txid = refl;
      index = omega arith;
      script = (tt, omega arith);
      sequence = omega arith;
      items = (omega arith, (omega arith, tt));
      count = omega arith;
    },
    tt,
  );
  input_count = omega arith;
  outputs = (record { amount = omega arith; script = op_true-IsScript }, tt);
  output_count = omega arith;
  locktime = omega arith;
}

spend_small : length (tx_bytes spend) ≤ max_size
unfolding is_seg_wit has_witness var_int cmd_bytes be_bytes le_bytes
spend_small = omega arith

from_buffer-serialize_tx_example : and_then (serialize_tx spend) from_buffer ≡ value spend
from_buffer-serialize_tx_example =
    from_buffer-serialize_tx spend spend-IsTx (omega arith) spend_small

calc_size-serialize_tx_example :
    (full legacy : List ℕ) × (serialize_tx spend ≡ value full)
    × (serialize_legacy spend ≡ value legacy)
    × (calc_size spend ≡ value (sizes (length full) (3 * length legacy + length full)))
calc_size-serialize_tx_example = calc_size-serialize_tx spend spend-IsTx spend_small

time_delay-block_delay_example :
    ((s : ℕ) × (time_delay 1000 ≡ value s)
      × (mode s ≡ time)
      × (is_enabled s ≡ true)
      × (1000 ≤ get_time_delay s)
      × (get_time_delay s < 1000 + 512))
    × ((block_delay 144 ≡ value 144)
        × (mode 144 ≡ block)
        × (is_enabled 144 ≡ true)
        × (get_block_delay 144 ≡ 144))
time_delay-block_delay_example = time_delay-block_delay 1000 144 (omega arith) (omega arith)
