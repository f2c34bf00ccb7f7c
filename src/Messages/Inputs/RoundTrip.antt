-- ===== src/Messages/Inputs/RoundTrip.antt =====
-- What a funding_input writes it reads back.
use node_dlc.Prelude.{
  ℕ, ◌+◌, ◌^◌, ◌≤◌, ◌<◌, ◌≡◌, refl, ap, arith, true, Option, none, some, List, ◌++◌, length,
  length-append, length-drop, ltb, lt→ltb, if◌then◌else◌, ok, value, and_then, result, ◌>>=◌,
}
use node_dlc.Bufio.Bytes.{be_bytes, length-be_bytes}
use node_dlc.Bufio.Reader.{Read, reader, read_big_size, read_u16_be, read_optional}
use node_dlc.Bufio.Reader.Reads.{
  Reads, ReadsEnd, Reads-bind_end, Reads-seq_end, Reads-end, ReadsEnd-map, Reads-result,
  Reads-bytes,
}
use node_dlc.Bufio.Reader.Numbers.{
  Reads-big_size, Reads-u16, Reads-u32, Reads-u64, ReadsEnd-optional,
}
use node_dlc.Bufio.Writer.{Write, output, write_big_size, write_u16_be, write_optional}
use node_dlc.Bufio.Writer.Expand.{max_size}
use node_dlc.Bufio.Writer.Appends.{Appends, Appends-seq, Appends-write_bytes}
use node_dlc.Bufio.Writer.Numbers.{
  big_size, optional, Appends-big_size, Appends-u16, Appends-u32, Appends-u64, Appends-optional,
}
use node_dlc.Bufio.RoundTrip.{round_trip, length-big_size_le}
use node_dlc.Bitcoin.Tx.Format.{IsTx, tx_bytes, serialize_tx-bytes}
use node_dlc.Bitcoin.Tx.RoundTrip.{from_buffer-tx_bytes}
use node_dlc.Messages.Codec.{
  Appends-lift, prefixed, Appends-data, Appends-from, Reads-lift, ReadsEnd-then,
}
use node_dlc.Messages.Signatures.{DlcInput}
use node_dlc.Messages.Signatures.RoundTrip.{
  IsInput, input_bytes, Appends-dlc_input_body, Reads-dlc_input_body,
}
use node_dlc.Messages.Inputs.{
  funding_type, FundingInput, write_input_option, input_from, read_input_option,
  write_funding_fields, write_funding_input, write_funding_input_body, read_funding_fields,
  read_funding_input, read_funding_input_body,
}

abbrev pub IsInputOption : Option DlcInput → Type 0
IsInputOption none = Unit {0}
IsInputOption (some x) = IsInput x

abbrev pub input_option_bytes : Option DlcInput → List ℕ
input_option_bytes none = optional none
input_option_bytes (some x) = optional (some (input_bytes x))

Appends-input_option :
    (o : Option DlcInput) → IsInputOption o → Appends (write_input_option o) (input_option_bytes o)
unfolding write_input_option
Appends-input_option none v = Appends-optional none
Appends-input_option (some x) v =
    Appends-from (λ d. write_optional (some d)) (Appends-dlc_input_body x v)
      (omega (arith, length-append (be_bytes 1 1) (input_bytes x)))
      (λ h. Appends-optional (some (input_bytes x)))

-- Bytes are left, so the test on the position holds.
ReadsEnd-unless_eof :
    {A : Type 0} {m : Read A} {bs : List ℕ} {a : A} (b : A)
    → 1 ≤ length bs
    → ReadsEnd m bs a
    → ReadsEnd (λ r. if ltb r.position (length r.buffer) then m r else ok b r) bs a
ReadsEnd-unless_eof b n p = record {
  run = λ r h e.
      let more : ltb r.position (length r.buffer) ≡ true =
        lt→ltb _ _ (omega (arith, ap length e, length-drop r.position r.buffer)) in
      rw more (p.run r h e);
}

pub length-input_option : (o : Option DlcInput) → 1 ≤ length (input_option_bytes o)
length-input_option none = omega (arith, length-be_bytes 1 0)
length-input_option (some x) =
    omega (arith, length-append (be_bytes 1 1) (input_bytes x), length-be_bytes 1 1)

ReadsEnd-input_option :
    (o : Option DlcInput) → IsInputOption o → ReadsEnd read_input_option (input_option_bytes o) o
unfolding read_input_option input_from
ReadsEnd-input_option o v = ReadsEnd-unless_eof none (length-input_option o) (reads o v)
  where
    reads :
        (p : Option DlcInput)
        → IsInputOption p
        → ReadsEnd (do payload ← read_optional; input_from payload) (input_option_bytes p) p
    reads none w = ReadsEnd-then input_from (ReadsEnd-optional none) (λ r. refl)
    reads (some x) w =
        ReadsEnd-then input_from (ReadsEnd-optional (some (input_bytes x)))
          (λ r. rw (Reads-result (Reads-end (Reads-dlc_input_body x w))) refl)

module _ (x : FundingInput) where
  -- The fields are in range, and the transaction too, with an input.
  pub record IsFunding : Type 0 where
    pub fields : IsTx x.prev_tx
    pub some_in : 0 < length x.prev_tx.inputs
    pub size : length (tx_bytes x.prev_tx) ≤ max_size
    pub serial : x.input_serial_id < 2 ^ 64
    pub vout : x.prev_tx_vout < 2 ^ 32
    pub sequence : x.sequence < 2 ^ 32
    pub witness_len : x.max_witness_len < 2 ^ 16
    pub script_len : length x.redeem_script < 2 ^ 16
    pub input : IsInputOption x.dlc_input

  abbrev pub funding_bytes : List ℕ → List ℕ
  funding_bytes tx_len =
      be_bytes 8 x.input_serial_id
      ++ (tx_len
          ++ (tx_bytes x.prev_tx
              ++ (be_bytes 4 x.prev_tx_vout
                  ++ (be_bytes 4 x.sequence
                      ++ (be_bytes 2 x.max_witness_len
                          ++ (be_bytes 2 (length x.redeem_script)
                              ++ (x.redeem_script ++ input_option_bytes x.dlc_input)))))))

  module _ (v : IsFunding) where
    pub Appends-funding_fields :
        (write_len : ℕ → Write) (tx_len : List ℕ)
        → Appends (write_len (length (tx_bytes x.prev_tx))) tx_len
        → Appends (write_funding_fields write_len x) (funding_bytes tx_len)
    unfolding write_funding_fields
    Appends-funding_fields write_len tx_len p = Appends-seq (Appends-u64 _ v.serial) (
        Appends-lift _ (serialize_tx-bytes x.prev_tx v.fields v.size) (
          Appends-seq p (
            Appends-seq (Appends-write_bytes (tx_bytes x.prev_tx)) (
              Appends-seq (Appends-u32 _ v.vout) (
                Appends-seq (Appends-u32 _ v.sequence) (
                  Appends-seq (Appends-u16 _ v.witness_len) (
                    Appends-seq (Appends-u16 _ v.script_len) (
                      Appends-seq (Appends-write_bytes x.redeem_script)
                        (Appends-input_option x.dlc_input v.input)))))))))

    ReadsEnd-funding_fields :
        (read_len : Read ℕ) (tx_len : List ℕ)
        → Reads read_len tx_len (length (tx_bytes x.prev_tx))
        → ReadsEnd (read_funding_fields read_len) (funding_bytes tx_len) x
    unfolding read_funding_fields
    ReadsEnd-funding_fields read_len tx_len p = Reads-bind_end _ (Reads-u64 _ v.serial) (
        Reads-bind_end _ p (
          Reads-bind_end _ (Reads-bytes (tx_bytes x.prev_tx)) (
            Reads-bind_end _ (Reads-lift (from_buffer-tx_bytes x.prev_tx v.fields v.some_in)) (
              Reads-bind_end _ (Reads-u32 _ v.vout) (
                Reads-bind_end _ (Reads-u32 _ v.sequence) (
                  Reads-bind_end _ (Reads-u16 _ v.witness_len) (
                    Reads-bind_end _ (Reads-u16 _ v.script_len) (
                      Reads-bind_end _ (Reads-bytes x.redeem_script)
                        (ReadsEnd-map _ (ReadsEnd-input_option x.dlc_input v.input))))))))))

    -- Of every funding_input with fields in range, whose previous transaction is in range with an
    -- input, and that fits in 2^30 bytes, deserializeBody returns it from what serializeBody
    -- wrote, with its DLC input or without.
    pub read-write_funding_input_body :
        length (tx_bytes x.prev_tx) < 2 ^ 64
        → length (funding_bytes (big_size (length (tx_bytes x.prev_tx)))) ≤ max_size
        → and_then
            (output (write_funding_input_body x))
            (λ out. result (read_funding_input_body (reader out)))
          ≡ value x
    unfolding write_funding_input_body read_funding_input_body
    read-write_funding_input_body h size =
        round_trip _ _ _ x (Appends-funding_fields write_big_size _ (Appends-big_size _ h))
          (ReadsEnd-funding_fields read_big_size _ (Reads-big_size _ h)) size

    -- Of every funding_input with fields in range, whose previous transaction is in range with an
    -- input and has less than 2^16 bytes, and that fits in 2^30 bytes, deserialize returns it
    -- from what serialize wrote, with its DLC input or without.
    pub read-write_funding_input :
        length (tx_bytes x.prev_tx) < 2 ^ 16
        → 18 + length (funding_bytes (be_bytes 2 (length (tx_bytes x.prev_tx)))) ≤ max_size
        → and_then
            (output (write_funding_input x))
            (λ out. result (read_funding_input (reader out)))
          ≡ value x
    unfolding write_funding_input read_funding_input
    read-write_funding_input h size =
        let body = funding_bytes (be_bytes 2 (length (tx_bytes x.prev_tx))) in
        let small : length body < 2 ^ 64 = omega arith in
        round_trip _ _ (big_size funding_type ++ prefixed body) x
          (Appends-seq (Appends-big_size funding_type (omega arith))
            (Appends-data (Appends-funding_fields write_u16_be _ (Appends-u16 _ h))))
          (Reads-seq_end (Reads-big_size funding_type (omega arith)) (
            Reads-seq_end (Reads-big_size (length body) small)
              (ReadsEnd-funding_fields read_u16_be _ (Reads-u16 _ h))))
          (omega (
            arith,
            length-append (big_size funding_type) (prefixed body),
            length-append (big_size (length body)) body,
            length-big_size_le funding_type,
            length-big_size_le (length body),
          ))
