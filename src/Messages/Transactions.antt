-- ===== src/Messages/Transactions.antt =====
-- packages/messaging/lib/messages/DlcTransactions.ts.
pub mod RoundTrip
use node_dlc.Prelude.{
  ℕ, zero, suc, ◌+◌, ◌^◌, ◌≤◌, ◌<◌, ◌≡◌, arith, Bool, true, false, ◌||◌, some, List, [], ◌∷◌, ◌++◌,
  length, append_assoc, All, ◌==◌, Result, value, and_then, lift, result, ◌>>=◌, ◌>>◌, pure,
}
use node_dlc.Bufio.Bytes.{be_bytes}
use node_dlc.Bufio.Reader.{
  Read, reader, read_bytes, read_big_size, read_u8, read_u16_be, read_u32_be,
}
use node_dlc.Bufio.Reader.Reads.{Reads, Reads-bind, Reads-seq, Reads-end, Reads-pure, Reads-bytes}
use node_dlc.Bufio.Reader.Numbers.{
  Reads-map, Reads-append_nil, Reads-big_size, Reads-exactly, Reads-u8, Reads-u16, Reads-u32,
}
use node_dlc.Bufio.Writer.{Write, output, write_bytes, write_u8, write_u16_be, write_u32_be}
use node_dlc.Bufio.Writer.Expand.{max_size}
use node_dlc.Bufio.Writer.Appends.{Appends, Appends-seq, Appends-write_bytes, each_bytes}
use node_dlc.Bufio.Writer.Numbers.{Appends-u8, Appends-u16, Appends-u32}
use node_dlc.Bufio.RoundTrip.{round_trip}
use node_dlc.Bitcoin.Tx.{Tx, serialize_tx, from_buffer}
use node_dlc.Messages.Codec.{write_counted, counted, Appends-counted, Reads-lift}

abbrev pub transactions_type : ℕ
transactions_type = 61230

pub record BlockEpoch : Type 0 where
  pub hash : List ℕ
  pub height : ℕ

pub record DlcTransactions : Type 0 where
  pub contract_id : List ℕ
  pub fund_tx : Tx
  pub fund_tx_vout : ℕ
  pub fund_epoch : BlockEpoch
  pub fund_broadcast_height : ℕ
  pub refund_tx : Tx
  pub cets : List Tx
  pub close_epoch : BlockEpoch
  pub close_tx_hash : List ℕ
  pub close_type : ℕ
  pub close_broadcast_height : ℕ

unfoldable pub write_epoch : BlockEpoch → Write
write_epoch x = do write_bytes x.hash; write_u32_be x.height

unfoldable pub read_epoch : Read BlockEpoch
read_epoch = do
  hash ← read_bytes (some 32)
  height ← read_u32_be
  pure (record { hash = hash; height = height })

-- A transaction behind its 16-bit length.
unfoldable pub write_tx : Tx → Write
write_tx t = do bytes ← lift (serialize_tx t); write_u16_be (length bytes); write_bytes bytes

unfoldable pub write_dlc_transactions : DlcTransactions → Write
write_dlc_transactions x = do
  write_u16_be transactions_type
  write_bytes x.contract_id
  write_tx x.fund_tx
  write_u32_be x.fund_tx_vout
  write_epoch x.fund_epoch
  write_u32_be x.fund_broadcast_height
  write_tx x.refund_tx
  write_counted write_tx x.cets
  write_epoch x.close_epoch
  write_bytes x.close_tx_hash
  write_u8 x.close_type
  write_u32_be x.close_broadcast_height

unfoldable pub read_tx : Read Tx
read_tx = do size ← read_u16_be; bytes ← read_bytes (some size); lift (from_buffer bytes)

-- One round of the loop over the contract execution transactions, whose other rounds are `rest`:
-- the bytes are decoded or dropped.
unfoldable pub read_cet : Bool → Read (List Tx) → Read (List Tx)
read_cet parsed rest = do size ← read_u16_be; bytes ← read_bytes (some size); keep parsed rest bytes
  where
    keep : Bool → Read (List Tx) → List ℕ → Read (List Tx)
    keep true others bytes = do t ← lift (from_buffer bytes); ts ← others; pure (t ∷ ts)
    keep false others bytes = others

-- Unless all are parsed, only the round `i ≡ 0` is.
unfoldable pub read_cets : Bool → ℕ → ℕ → Read (List Tx)
read_cets parse_cets zero i = pure []
read_cets parse_cets (suc n) i =
    let rest = read_cets parse_cets n (i + 1) in read_cet (parse_cets || (i == 0)) rest

unfoldable pub read_all_cets : Bool → Read (List Tx)
read_all_cets parse_cets = do num_cets ← read_big_size; read_cets parse_cets num_cets 0

unfoldable pub read_dlc_transactions : Bool → Read (DlcTransactions)
read_dlc_transactions parse_cets = do
  read_u16_be
  contract_id ← read_bytes (some 32)
  fund_tx ← read_tx
  fund_tx_vout ← read_u32_be
  fund_epoch ← read_epoch
  fund_broadcast_height ← read_u32_be
  refund_tx ← read_tx
  cets ← read_all_cets parse_cets
  close_epoch ← read_epoch
  close_tx_hash ← read_bytes (some 32)
  close_type ← read_u8
  close_broadcast_height ← read_u32_be
  pure (record {
    contract_id = contract_id;
    fund_tx = fund_tx;
    fund_tx_vout = fund_tx_vout;
    fund_epoch = fund_epoch;
    fund_broadcast_height = fund_broadcast_height;
    refund_tx = refund_tx;
    cets = cets;
    close_epoch = close_epoch;
    close_tx_hash = close_tx_hash;
    close_type = close_type;
    close_broadcast_height = close_broadcast_height;
  })
