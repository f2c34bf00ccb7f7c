-- ===== src/Messages/Inputs.antt =====
-- packages/messaging/lib/messages/FundingInput.ts. A `Sequence` is its number. The field `length`
-- that reading sets and writing ignores is left out.
pub mod RoundTrip
pub mod Ahead
pub mod Validate
use node_dlc.Prelude.{
  ℕ, ◌+◌, ◌^◌, ◌≤◌, ◌<◌, ◌≡◌, refl, ap, arith, true, Option, none, some, List, ◌++◌, length,
  length-append, length-drop, ltb, lt→ltb, if◌then◌else◌, ok, Result, value, and_then, lift, result,
  ◌>>=◌, ◌>>◌, pure,
}
use node_dlc.Bufio.Bytes.{be_bytes, length-be_bytes}
use node_dlc.Bufio.Reader.{
  Read, reader, read_bytes, read_big_size, read_u16_be, read_u32_be, read_u64_be, read_optional,
}
use node_dlc.Bufio.Reader.Reads.{
  Reads, ReadsEnd, Reads-bind_end, Reads-seq_end, Reads-end, ReadsEnd-map, Reads-result,
  Reads-bytes,
}
use node_dlc.Bufio.Reader.Numbers.{
  Reads-big_size, Reads-u16, Reads-u32, Reads-u64, ReadsEnd-optional,
}
use node_dlc.Bufio.Writer.{
  Write, output, write_bytes, write_big_size, write_u16_be, write_u32_be, write_u64_be,
  write_optional,
}
use node_dlc.Bufio.Writer.Expand.{max_size}
use node_dlc.Bufio.Writer.Appends.{Appends, Appends-seq, Appends-write_bytes}
use node_dlc.Bufio.Writer.Numbers.{
  big_size, optional, Appends-big_size, Appends-u16, Appends-u32, Appends-u64, Appends-optional,
}
use node_dlc.Bufio.RoundTrip.{round_trip, length-big_size_le}
use node_dlc.Bitcoin.Tx.{Tx, serialize_tx, from_buffer}
use node_dlc.Messages.Codec.{
  prefixed, write_data, Appends-data, Appends-from, Reads-lift, ReadsEnd-then,
}
use node_dlc.Messages.Signatures.{DlcInput, write_dlc_input_body, read_dlc_input_body}

abbrev pub funding_type : ℕ
funding_type = 42772

pub record FundingInput : Type 0 where
  pub input_serial_id : ℕ
  pub prev_tx : Tx
  pub prev_tx_vout : ℕ
  pub sequence : ℕ
  pub max_witness_len : ℕ
  pub redeem_script : List ℕ
  pub dlc_input : Option DlcInput

-- The DLC input, behind its marker.
unfoldable pub write_input_option : Option DlcInput → Write
write_input_option none = write_optional none
write_input_option (some x) = do
  payload ← lift (output (write_dlc_input_body x))
  write_optional (some payload)

unfoldable pub input_from : Option (List ℕ) → Read (Option DlcInput)
input_from none = pure none
input_from (some payload) = do
  x ← lift (result (read_dlc_input_body (reader payload)))
  pure (some x)

-- Nothing is read where the buffer has ended.
unfoldable pub read_input_option : Read (Option DlcInput)
read_input_option r =
    if ltb r.position (length r.buffer)
    then (do payload ← read_optional; input_from payload) r
    else ok none r

-- The fields, with the length of the transaction written by `write_len`: a 16-bit number in
-- `serialize`, a BigSize in `serializeBody`.
unfoldable pub write_funding_fields : (ℕ → Write) → FundingInput → Write
write_funding_fields write_len x = do
  write_u64_be x.input_serial_id
  bytes ← lift (serialize_tx x.prev_tx)
  write_len (length bytes)
  write_bytes bytes
  write_u32_be x.prev_tx_vout
  write_u32_be x.sequence
  write_u16_be x.max_witness_len
  write_u16_be (length x.redeem_script)
  write_bytes x.redeem_script
  write_input_option x.dlc_input

unfoldable pub write_funding_input : FundingInput → Write
write_funding_input x = do
  write_big_size funding_type
  write_data (write_funding_fields write_u16_be x)

unfoldable pub write_funding_input_body : FundingInput → Write
write_funding_input_body x = write_funding_fields write_big_size x

unfoldable pub read_funding_fields : Read ℕ → Read FundingInput
read_funding_fields read_len = do
  input_serial_id ← read_u64_be
  prev_tx_len ← read_len
  tx_bytes ← read_bytes (some prev_tx_len)
  prev_tx ← lift (from_buffer tx_bytes)
  prev_tx_vout ← read_u32_be
  sequence ← read_u32_be
  max_witness_len ← read_u16_be
  redeem_script_len ← read_u16_be
  redeem_script ← read_bytes (some redeem_script_len)
  dlc_input ← read_input_option
  pure (record {
    input_serial_id = input_serial_id;
    prev_tx = prev_tx;
    prev_tx_vout = prev_tx_vout;
    sequence = sequence;
    max_witness_len = max_witness_len;
    redeem_script = redeem_script;
    dlc_input = dlc_input;
  })

unfoldable pub read_funding_input : Read FundingInput
read_funding_input = do read_big_size; read_big_size; read_funding_fields read_u16_be

unfoldable pub read_funding_input_body : Read FundingInput
read_funding_input_body = read_funding_fields read_big_size
