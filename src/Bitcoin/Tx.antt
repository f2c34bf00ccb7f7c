-- ===== src/Bitcoin/Tx.antt =====
-- packages/bitcoin/lib: Tx.ts with TxIn.ts, TxOut.ts, OutPoint.ts, Witness.ts, and of Sequence.ts,
-- LockTime.ts, HashValue.ts and Value.ts what a transaction's bytes need. JSON, hexadecimal and
-- text forms and the hashes are left out.
pub mod Format
pub mod RoundTrip
pub mod Weight
pub mod Size
use node_dlc.Prelude.{
  ℕ, zero, suc, ◌+◌, ◌*◌, ◌/◌, ◌%◌, ◌^◌, Bool, true, false, ◌&&◌, ◌||◌, List, [], ◌∷◌, ◌++◌, length,
  map, replicate, ltb, ◌==◌, if◌then◌else◌, Outcome, ok, err, out_of_range, Result, value, error,
  and_then, lift, result, ◌>>=◌, ◌>>◌, pure,
}
use node_dlc.Bufio.Bytes.{le_bytes}
use node_dlc.Bufio.Writer.{
  Writer, Write, output, over, to_buffer, write_bytes, write_u32_le, write_u64_le, write_var_int,
}
use node_dlc.Bufio.Writer.Appends.{write_each}
use node_dlc.Bitcoin.Stream.{
  Parse, stream_bytes, stream_rest, stream_u8, stream_u32_le, stream_u64_le, stream_var_int,
  stream_times,
}
use node_dlc.Bitcoin.Script.{ScriptCmd, serialize_cmds, serialize_script, parse_script}

pub record OutPoint : Type 0 where
  pub txid : List ℕ
  pub output_index : ℕ

pub record TxIn : Type 0 where
  pub outpoint : OutPoint
  pub script_sig : List ScriptCmd
  pub sequence : ℕ
  pub witness : List (List ℕ)

-- The value is in satoshis.
pub record TxOut : Type 0 where
  pub value : ℕ
  pub script_pub_key : List ScriptCmd

pub record Tx : Type 0 where
  pub version : ℕ
  pub inputs : List TxIn
  pub outputs : List TxOut
  pub locktime : ℕ

-- A use of a writer over a buffer of `n` zeros.
unfoldable pub output_over : ℕ → Write → Result (List ℕ)
output_over n m = elim (m (over (replicate n 0))) [
  | ok _ w ↦ value (to_buffer w)
  | err e _ ↦ error e
]

unfoldable pub serialize_outpoint : OutPoint → Result (List ℕ)
serialize_outpoint o = output_over 36 (do write_bytes o.txid; write_u32_le o.output_index)

-- `writeUInt32LE` on four bytes.
unfoldable pub serialize_sequence : ℕ → Result (List ℕ)
serialize_sequence n = if ltb n (2 ^ 32) then value (le_bytes 4 n) else error out_of_range

unfoldable pub serialize_locktime : ℕ → Result (List ℕ)
serialize_locktime n = output_over 4 (write_u32_le n)

-- `writer.writeBytes(part.serialize())`.
unfoldable pub write_part : Result (List ℕ) → Write
write_part part = do bytes ← lift part; write_bytes bytes

unfoldable pub serialize_input : TxIn → Result (List ℕ)
serialize_input x = output (do
  write_part (serialize_outpoint x.outpoint)
  write_part (serialize_script x.script_sig)
  write_part (serialize_sequence x.sequence))

unfoldable pub serialize_output : TxOut → Result (List ℕ)
serialize_output x =
    output (do write_u64_le x.value; write_part (serialize_script x.script_pub_key))

unfoldable pub serialize_witness : List ℕ → Result (List ℕ)
serialize_witness d = output (do write_var_int (length d); write_bytes d)

unfoldable pub write_inputs : List TxIn → Write
write_inputs xs = do write_var_int (length xs); write_each (λ x. write_part (serialize_input x)) xs

unfoldable pub write_outputs : List TxOut → Write
write_outputs xs = do
  write_var_int (length xs)
  write_each (λ x. write_part (serialize_output x)) xs

unfoldable pub write_witness : TxIn → Write
write_witness x = do
  write_var_int (length x.witness)
  write_each (λ d. write_part (serialize_witness d)) x.witness

unfoldable pub has_witness : List TxIn → Bool
has_witness [] = false
has_witness (x ∷ xs) = ltb 0 (length x.witness) || has_witness xs

unfoldable pub is_seg_wit : Tx → Bool
is_seg_wit t = has_witness t.inputs

unfoldable pub serialize_legacy : Tx → Result (List ℕ)
serialize_legacy t = output (do
  write_u32_le t.version
  write_inputs t.inputs
  write_outputs t.outputs
  write_part (serialize_locktime t.locktime))

unfoldable pub write_witnesses : Tx → Write
write_witnesses t = if is_seg_wit t then write_each write_witness t.inputs else pure tt

unfoldable pub serialize_seg_wit : Tx → Result (List ℕ)
serialize_seg_wit t = output (do
  write_u32_le t.version
  write_bytes (0x00 ∷ 0x01 ∷ [])
  write_inputs t.inputs
  write_outputs t.outputs
  write_witnesses t
  write_part (serialize_locktime t.locktime))

unfoldable pub serialize_tx : Tx → Result (List ℕ)
serialize_tx t = if is_seg_wit t then serialize_seg_wit t else serialize_legacy t

unfoldable pub parse_outpoint : Parse OutPoint
parse_outpoint = do
  txid ← stream_bytes 32
  output_index ← stream_u32_le
  pure (record { txid = txid; output_index = output_index })

unfoldable pub parse_input : Parse TxIn
parse_input = do
  outpoint ← parse_outpoint
  script_sig ← parse_script
  sequence ← stream_u32_le
  pure (record { outpoint = outpoint; script_sig = script_sig; sequence = sequence; witness = [] })

unfoldable pub parse_inputs : Parse (List TxIn)
parse_inputs = do n ← stream_var_int; stream_times n parse_input

unfoldable pub parse_output : Parse TxOut
parse_output = do
  amount ← stream_u64_le
  script_pub_key ← parse_script
  pure (record { value = amount; script_pub_key = script_pub_key })

unfoldable pub parse_outputs : Parse (List TxOut)
parse_outputs = do n ← stream_var_int; stream_times n parse_output

unfoldable pub parse_witness : Parse (List ℕ)
parse_witness = do n ← stream_var_int; stream_bytes n

unfoldable pub parse_items : Parse (List (List ℕ))
parse_items = do items ← stream_var_int; stream_times items parse_witness

-- The items are pushed behind those that an input has.
unfoldable pub parse_witnesses : List TxIn → Parse (List TxIn)
parse_witnesses [] = pure []
parse_witnesses (x ∷ xs) = do
  items ← parse_items
  rest ← parse_witnesses xs
  pure (record x { witness = x.witness ++ items } ∷ rest)

-- The flag, the inputs and the outputs, from the inputs that were parsed first. Where the flag is
-- zero, the outputs stay undefined, for which the constructor puts the empty list.
unfoldable pub parse_flagged : List TxIn → ℕ → Parse (ℕ × List TxIn × List TxOut)
parse_flagged vins flags =
    if flags == 0
    then pure (flags, vins, [])
    else (do vins ← parse_inputs; vouts ← parse_outputs; pure (flags, vins, vouts))

unfoldable pub parse_body : Bool → List TxIn → Parse (ℕ × List TxIn × List TxOut)
parse_body true [] = do flags ← stream_u8; parse_flagged [] flags
parse_body true (x ∷ xs) = do vouts ← parse_outputs; pure (0, x ∷ xs, vouts)
parse_body false vins = do vouts ← parse_outputs; pure (0, vins, vouts)

unfoldable pub finish_tx : Bool → ℕ → ℕ × List TxIn × List TxOut → Parse Tx
finish_tx allow_witness version (flags, vins, vouts) = do
  vins ← (if allow_witness && (flags % 2) == 1 then parse_witnesses vins else pure vins)
  locktime ← stream_u32_le
  pure (record { version = version; inputs = vins; outputs = vouts; locktime = locktime })

unfoldable pub parse_tx : Bool → Parse Tx
parse_tx allow_witness = do
  version ← stream_u32_le
  vins ← parse_inputs
  body ← parse_body allow_witness vins
  finish_tx allow_witness version body

-- The second attempt follows when the first throws.
unfoldable pub decode_tx : List ℕ → Result Tx
decode_tx data_bytes = elim (result (parse_tx true data_bytes)) [
  | value t ↦ value t
  | error e ↦ result (parse_tx false data_bytes)
]

unfoldable pub decode : Parse Tx
decode = do data_bytes ← stream_rest; lift (decode_tx data_bytes)

unfoldable pub from_buffer : List ℕ → Result Tx
from_buffer buf = result (decode buf)
