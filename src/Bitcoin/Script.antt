-- ===== src/Bitcoin/Script.antt =====
-- packages/bitcoin/lib/Script.ts: the commands of a script and their bytes, and encodeVarInt.ts of
-- packages/bufio. Standard has the makers of locks.
pub mod RoundTrip
pub mod Standard
use node_dlc.Prelude.{
  ℕ, zero, suc, ◌^◌, Bool, true, false, ◌&&◌, some, List, [], ◌∷◌, ◌++◌, length, ltb, leb, ◌==◌,
  if◌then◌else◌, ok, Result, value, error, too_long, and_then, lift, result, ◌>>=◌, pure,
}
use node_dlc.Bufio.Bytes.{be_bytes, le_bytes}
use node_dlc.Bufio.Reader.{Read, reader, eof, read_u8, read_u16_le, read_bytes}
use node_dlc.Bitcoin.Stream.{Parse, stream_bytes, stream_var_int}

-- A number or a buffer.
pub data ScriptCmd : Type 0 where
  op_code : ℕ → ScriptCmd
  push_data : List ℕ → ScriptCmd

unfoldable pub data_from : Read ℕ → Read ScriptCmd
data_from size = do n ← size; bytes ← read_bytes (some n); pure (push_data bytes)

unfoldable pub cmd_from : ℕ → Read ScriptCmd
cmd_from op =
    if leb 0x01 op && leb op 0x4b
    then data_from (pure op)
    else if op == 0x4c
    then data_from read_u8
    else if op == 0x4d
    then data_from read_u16_le
    else pure (op_code op)

unfoldable pub read_cmd : Read ScriptCmd
read_cmd = do op ← read_u8; cmd_from op

-- The loop of `parseCmds`, for at most `fuel` rounds.
unfoldable pub read_cmds : ℕ → Read (List ScriptCmd)
read_cmds zero r = ok [] r
read_cmds (suc fuel) r =
    let more = (do c ← read_cmd; cs ← read_cmds fuel; pure (c ∷ cs)) in
    if eof r then ok [] r else more r

-- Each round moves the position on, so there are no more rounds than bytes.
unfoldable pub parse_cmds : List ℕ → Result (List ScriptCmd)
parse_cmds buf = result (read_cmds (suc (length buf)) (reader buf))

unfoldable pub serialize_cmd : ScriptCmd → Result (List ℕ)
serialize_cmd (op_code op) = value (be_bytes 1 op)
serialize_cmd (push_data d) =
    let n = length d in
    if leb 1 n && leb n 75
    then value (be_bytes 1 n ++ d)
    else if leb 76 n && leb n 255
    then value (be_bytes 1 0x4c ++ (be_bytes 1 n ++ d))
    else if leb 256 n && leb n 520
    then value (be_bytes 1 0x4d ++ (le_bytes 2 n ++ d))
    else error too_long

unfoldable pub serialize_cmds : List ScriptCmd → Result (List ℕ)
serialize_cmds [] = value []
serialize_cmds (c ∷ cs) =
    and_then (serialize_cmd c) (λ b. and_then (serialize_cmds cs) (λ bs. value (b ++ bs)))

unfoldable pub encode_var_int : ℕ → Result (List ℕ)
encode_var_int i =
    if ltb i 0xfd
    then value (be_bytes 1 i)
    else if ltb i 0x1_0000
    then value (be_bytes 1 0xfd ++ le_bytes 2 i)
    else if ltb i 0x1_0000_0000
    then value (be_bytes 1 0xfe ++ le_bytes 4 i)
    else if ltb i (2 ^ 64)
    then value (be_bytes 1 0xff ++ le_bytes 8 i)
    else error too_long

unfoldable pub serialize_script : List ScriptCmd → Result (List ℕ)
serialize_script cmds =
    and_then (serialize_cmds cmds)
      (λ buf. and_then (encode_var_int (length buf)) (λ len. value (len ++ buf)))

unfoldable pub parse_script : Parse (List ScriptCmd)
parse_script = do len ← stream_var_int; buf ← stream_bytes len; lift (parse_cmds buf)
