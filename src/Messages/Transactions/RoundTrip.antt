-- ===== src/Messages/Transactions/RoundTrip.antt =====
-- What dlc_transactions writes it reads back.
use node_dlc.Prelude.{
  ℕ, ◌+◌, ◌^◌, ◌≤◌, ◌<◌, ◌≡◌, arith, Bool, true, false, List, [], ◌∷◌, ◌++◌, length, append_assoc,
  All, ◌==◌, value, and_then, result,
}
use node_dlc.Bufio.Bytes.{be_bytes}
use node_dlc.Bufio.Reader.{Read, reader}
use node_dlc.Bufio.Reader.Reads.{Reads, Reads-bind, Reads-seq, Reads-end, Reads-pure, Reads-bytes}
use node_dlc.Bufio.Reader.Numbers.{
  Reads-map, Reads-append_nil, Reads-big_size, Reads-exactly, Reads-u8, Reads-u16, Reads-u32,
}
use node_dlc.Bufio.Writer.{output}
use node_dlc.Bufio.Writer.Expand.{max_size}
use node_dlc.Bufio.Writer.Appends.{Appends, Appends-seq, Appends-write_bytes, each_bytes}
use node_dlc.Bufio.Writer.Numbers.{Appends-u8, Appends-u16, Appends-u32}
use node_dlc.Bufio.RoundTrip.{round_trip}
use node_dlc.Bitcoin.Tx.{Tx}
use node_dlc.Bitcoin.Tx.Format.{IsTx, tx_bytes, serialize_tx-bytes}
use node_dlc.Bitcoin.Tx.RoundTrip.{from_buffer-tx_bytes}
use node_dlc.Messages.Codec.{counted, Appends-counted, Reads-lift}
use node_dlc.Messages.Transactions.{
  transactions_type, BlockEpoch, DlcTransactions, write_epoch, read_epoch, write_tx,
  write_dlc_transactions, read_tx, read_cet, read_cets, read_all_cets, read_dlc_transactions,
}

-- What is kept of the contract execution transactions.
unfoldable pub kept_cets : {A : Type 0} → Bool → List A → List A
kept_cets true xs = xs
kept_cets false [] = []
kept_cets false (x ∷ xs) = x ∷ []

abbrev pub IsEpoch : BlockEpoch → Type 0
IsEpoch x = (length x.hash ≡ 32) × (x.height < 2 ^ 32)

abbrev pub epoch_bytes : BlockEpoch → List ℕ
epoch_bytes x = x.hash ++ be_bytes 4 x.height

Appends-epoch : (x : BlockEpoch) → IsEpoch x → Appends (write_epoch x) (epoch_bytes x)
unfolding write_epoch
Appends-epoch x (n, h) = Appends-seq (Appends-write_bytes x.hash) (Appends-u32 _ h)

Reads-epoch : (x : BlockEpoch) → IsEpoch x → Reads read_epoch (epoch_bytes x) x
unfolding read_epoch
Reads-epoch x (n, h) = Reads-bind _ (Reads-exactly 32 x.hash n) (Reads-map _ (Reads-u32 _ h))

abbrev pub framed_tx : Tx → List ℕ
framed_tx t = be_bytes 2 (length (tx_bytes t)) ++ tx_bytes t

-- A transaction in range with an input, whose length fits.
pub record IsFramedTx (t : Tx) : Type 0 where
  pub fields : IsTx t
  pub some_in : 0 < length t.inputs
  pub size : length (tx_bytes t) < 2 ^ 16

Appends-tx : (t : Tx) → IsFramedTx t → Appends (write_tx t) (framed_tx t)
unfolding write_tx
Appends-tx t v =
    let e = serialize_tx-bytes t v.fields (omega (arith, v.size)) in
    rw e (Appends-seq (Appends-u16 _ v.size) (Appends-write_bytes (tx_bytes t)))

Reads-tx : (t : Tx) → IsFramedTx t → Reads read_tx (framed_tx t) t
unfolding read_tx
Reads-tx t v = Reads-bind _ (Reads-u16 _ v.size) (
    Reads-append_nil (
      Reads-bind _ (Reads-bytes (tx_bytes t))
        (Reads-lift (from_buffer-tx_bytes t v.fields v.some_in))))

module _ (t : Tx) (v : IsFramedTx t) (rest : Read (List Tx)) (bs : List ℕ) (ts : List Tx) where
  Reads-cet_kept : Reads rest bs ts → Reads (read_cet true rest) (framed_tx t ++ bs) (t ∷ ts)
  unfolding read_cet
  Reads-cet_kept p =
      let e = from_buffer-tx_bytes t v.fields v.some_in in
      rw (append_assoc (be_bytes 2 (length (tx_bytes t))) (tx_bytes t) bs) (
        Reads-bind _ (Reads-u16 _ v.size) (
          Reads-bind _ (Reads-bytes (tx_bytes t))
            (Reads-bind _ (Reads-lift e) (Reads-map (λ xs. t ∷ xs) p))))

  Reads-cet_dropped : Reads rest bs ts → Reads (read_cet false rest) (framed_tx t ++ bs) ts
  unfolding read_cet
  Reads-cet_dropped p =
      let e = from_buffer-tx_bytes t v.fields v.some_in in
      rw (append_assoc (be_bytes 2 (length (tx_bytes t))) (tx_bytes t) bs)
        (Reads-bind _ (Reads-u16 _ v.size) (Reads-bind _ (Reads-bytes (tx_bytes t)) p))

Reads-parsed_cets :
    (ts : List Tx) (i : ℕ)
    → All IsFramedTx ts
    → Reads (read_cets true (length ts) i) (each_bytes framed_tx ts) ts
unfolding read_cets
Reads-parsed_cets [] i v = Reads-pure []
Reads-parsed_cets (t ∷ ts) i (v, vs) = Reads-cet_kept t v _ _ ts (Reads-parsed_cets ts (i + 1) vs)

Reads-dropped_cets :
    (ts : List Tx) (i : ℕ)
    → 0 < i
    → All IsFramedTx ts
    → Reads (read_cets false (length ts) i) (each_bytes framed_tx ts) []
unfolding read_cets
Reads-dropped_cets [] i p v = Reads-pure []
Reads-dropped_cets (t ∷ ts) i p (v, vs) =
    let later : (i == 0) ≡ false = ground arith in
    rw later (Reads-cet_dropped t v _ _ [] (Reads-dropped_cets ts (i + 1) (omega arith) vs))

Reads-cets :
    (parse_cets : Bool) (ts : List Tx)
    → All IsFramedTx ts
    → Reads (read_cets parse_cets (length ts) 0) (each_bytes framed_tx ts) (kept_cets parse_cets ts)
unfolding read_cets kept_cets
Reads-cets true ts vs = Reads-parsed_cets ts 0 vs
Reads-cets false [] vs = Reads-pure []
Reads-cets false (t ∷ ts) (v, vs) =
    Reads-cet_kept t v _ _ [] (Reads-dropped_cets ts 1 (omega arith) vs)

Reads-counted_cets :
    (parse_cets : Bool) (ts : List Tx)
    → All IsFramedTx ts
    → length ts < 2 ^ 64
    → Reads (read_all_cets parse_cets) (counted framed_tx ts) (kept_cets parse_cets ts)
unfolding read_all_cets
Reads-counted_cets parse_cets ts vs h =
    Reads-bind _ (Reads-big_size _ h) (Reads-cets parse_cets ts vs)

pub record IsTransactions (x : DlcTransactions) : Type 0 where
  pub id : length x.contract_id ≡ 32
  pub fund : IsFramedTx x.fund_tx
  pub vout : x.fund_tx_vout < 2 ^ 32
  pub fund_at : IsEpoch x.fund_epoch
  pub fund_broadcast : x.fund_broadcast_height < 2 ^ 32
  pub refund : IsFramedTx x.refund_tx
  pub each : All IsFramedTx x.cets
  pub count : length x.cets < 2 ^ 64
  pub close_at : IsEpoch x.close_epoch
  pub close_hash : length x.close_tx_hash ≡ 32
  pub close_kind : x.close_type < 256
  pub close_broadcast : x.close_broadcast_height < 2 ^ 32

abbrev pub transactions_bytes : DlcTransactions → List ℕ
transactions_bytes x =
    be_bytes 2 transactions_type
    ++ (x.contract_id
        ++ (framed_tx x.fund_tx
            ++ (be_bytes 4 x.fund_tx_vout
                ++ (epoch_bytes x.fund_epoch
                    ++ (be_bytes 4 x.fund_broadcast_height
                        ++ (framed_tx x.refund_tx
                            ++ (counted framed_tx x.cets
                                ++ (epoch_bytes x.close_epoch
                                    ++ (x.close_tx_hash
                                        ++ (be_bytes 1 x.close_type
                                            ++ be_bytes 4 x.close_broadcast_height))))))))))

module _ (x : DlcTransactions) (v : IsTransactions x) where
  Appends-dlc_transactions : Appends (write_dlc_transactions x) (transactions_bytes x)
  unfolding write_dlc_transactions
  Appends-dlc_transactions = Appends-seq (Appends-u16 transactions_type (omega arith)) (
      Appends-seq (Appends-write_bytes x.contract_id) (
        Appends-seq (Appends-tx x.fund_tx v.fund) (
          Appends-seq (Appends-u32 _ v.vout) (
            Appends-seq (Appends-epoch x.fund_epoch v.fund_at) (
              Appends-seq (Appends-u32 _ v.fund_broadcast) (
                Appends-seq (Appends-tx x.refund_tx v.refund) (
                  Appends-seq
                    (Appends-counted framed_tx x.cets (write_tx) Appends-tx v.count v.each)
                    (Appends-seq (Appends-epoch x.close_epoch v.close_at) (
                      Appends-seq (Appends-write_bytes x.close_tx_hash) (
                        Appends-seq (Appends-u8 _ v.close_kind)
                          (Appends-u32 _ v.close_broadcast)))))))))))

  Reads-dlc_transactions :
      (parse_cets : Bool)
      → Reads
          (read_dlc_transactions parse_cets)
          (transactions_bytes x)
          (record x { cets = kept_cets parse_cets x.cets })
  unfolding read_dlc_transactions
  Reads-dlc_transactions parse_cets = Reads-seq (Reads-u16 transactions_type (omega arith)) (
      Reads-bind _ (Reads-exactly 32 x.contract_id v.id) (
        Reads-bind _ (Reads-tx x.fund_tx v.fund) (
          Reads-bind _ (Reads-u32 _ v.vout) (
            Reads-bind _ (Reads-epoch x.fund_epoch v.fund_at) (
              Reads-bind _ (Reads-u32 _ v.fund_broadcast) (
                Reads-bind _ (Reads-tx x.refund_tx v.refund) (
                  Reads-bind _ (Reads-counted_cets parse_cets x.cets v.each v.count) (
                    Reads-bind _ (Reads-epoch x.close_epoch v.close_at) (
                      Reads-bind _ (Reads-exactly 32 x.close_tx_hash v.close_hash) (
                        Reads-bind _ (Reads-u8 _ v.close_kind)
                          (Reads-map _ (Reads-u32 _ v.close_broadcast))))))))))))

  -- Of every dlc_transactions with fields in range, whose transactions are in range with an input
  -- each and have less than 2^16 bytes, that fits in 2^30 bytes, deserialize returns what
  -- serialize wrote, with the first contract execution transaction only unless all are to be
  -- parsed.
  pub read-write_dlc_transactions :
      (parse_cets : Bool)
      → length (transactions_bytes x) ≤ max_size
      → and_then
          (output (write_dlc_transactions x))
          (λ out. result (read_dlc_transactions parse_cets (reader out)))
        ≡ value (record x { cets = kept_cets parse_cets x.cets })
  read-write_dlc_transactions parse_cets size =
      round_trip _ _ (transactions_bytes x) _ Appends-dlc_transactions
        (Reads-end (Reads-dlc_transactions parse_cets)) size
