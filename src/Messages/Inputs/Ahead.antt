-- ===== src/Messages/Inputs/Ahead.antt =====
-- A funding input without its type, found at the front of longer bytes, as an offer embeds it.
use node_dlc.Prelude.{
  ℕ, ◌^◌, ◌≤◌, ◌<◌, ◌≡◌, refl, ap, arith, true, Option, none, some, List, length, length-append,
  length-drop, ltb, lt→ltb, if◌then◌else◌, ok, value, ◌>>=◌,
}
use node_dlc.Bufio.Reader.{Read, read_optional}
use node_dlc.Bufio.Reader.Reads.{Reads-bytes}
use node_dlc.Bufio.Reader.Finds.{Finds, Finds-bind, Finds-map, Finds-optional, Finds-absent}
use node_dlc.Bufio.Reader.Numbers.{Reads-big_size, Reads-u16, Reads-u32, Reads-u64}
use node_dlc.Bufio.Writer.{output}
use node_dlc.Bufio.Writer.Expand.{max_size}
use node_dlc.Bufio.Writer.Appends.{Appends}
use node_dlc.Bufio.Writer.Numbers.{big_size, Appends-big_size}
use node_dlc.Bufio.RoundTrip.{Appends-output}
use node_dlc.Bitcoin.Tx.Format.{tx_bytes}
use node_dlc.Bitcoin.Tx.RoundTrip.{from_buffer-tx_bytes}
use node_dlc.Messages.Codec.{Reads-lift, Reads-result_front}
use node_dlc.Messages.Signatures.{DlcInput}
use node_dlc.Messages.Signatures.RoundTrip.{input_bytes, Reads-dlc_input_body}
use node_dlc.Messages.Inputs.{
  FundingInput, input_from, read_input_option, write_funding_input_body, read_funding_fields,
  read_funding_input_body,
}
use node_dlc.Messages.Inputs.RoundTrip.{
  IsInputOption, input_option_bytes, length-input_option, IsFunding, funding_bytes,
  Appends-funding_fields,
}

-- Bytes are left, so the test on the position holds.
Finds-unless_eof :
    {A : Type 0} {m : Read A} {bs : List ℕ} {a : A} (b : A)
    → 1 ≤ length bs
    → Finds m bs a
    → Finds (λ r. if ltb r.position (length r.buffer) then m r else ok b r) bs a
Finds-unless_eof {bs} b n p = record {
  run = λ r rest h e.
      let more : ltb r.position (length r.buffer) ≡ true =
        lt→ltb _ _
          (omega (arith, ap length e, length-append bs rest, length-drop r.position r.buffer)) in
      rw more (p.run r rest h e);
}

Finds-input_option :
    (o : Option DlcInput) → IsInputOption o → Finds read_input_option (input_option_bytes o) o
unfolding read_input_option input_from
Finds-input_option o v = Finds-unless_eof none (length-input_option o) (reads o v)
  where
    reads :
        (p : Option DlcInput)
        → IsInputOption p
        → Finds (read_optional >>= input_from) (input_option_bytes p) p
    reads none w = Finds-absent input_from (λ r. refl)
    reads (some x) w =
        Finds-optional input_from (input_bytes x)
          (λ rest r. rw (Reads-result_front (Reads-dlc_input_body x w) rest) refl)

abbrev pub funding_body_bytes : FundingInput → List ℕ
funding_body_bytes x = funding_bytes x (big_size (length (tx_bytes x.prev_tx)))

-- In range, and fitting in 2^30 bytes.
pub record IsEmbedded (x : FundingInput) : Type 0 where
  pub funding : IsFunding x
  pub tx_len : length (tx_bytes x.prev_tx) < 2 ^ 64
  pub fits : length (funding_body_bytes x) ≤ max_size

module _ (x : FundingInput) (v : IsEmbedded x) where
  pub Appends-funding_body : Appends (write_funding_input_body x) (funding_body_bytes x)
  unfolding write_funding_input_body
  Appends-funding_body = Appends-funding_fields x v.funding _ _ (Appends-big_size _ v.tx_len)

  pub serialize_funding_body_lem :
      output (write_funding_input_body x) ≡ value (funding_body_bytes x)
  serialize_funding_body_lem = Appends-output _ _ Appends-funding_body v.fits

  pub Finds-funding_body : Finds read_funding_input_body (funding_body_bytes x) x
  unfolding read_funding_input_body read_funding_fields
  Finds-funding_body =
      let w = v.funding in
      Finds-bind _ (Reads-u64 _ w.serial) (
        Finds-bind _ (Reads-big_size _ v.tx_len) (
          Finds-bind _ (Reads-bytes (tx_bytes x.prev_tx)) (
            Finds-bind _ (Reads-lift (from_buffer-tx_bytes x.prev_tx w.fields w.some_in)) (
              Finds-bind _ (Reads-u32 _ w.vout) (
                Finds-bind _ (Reads-u32 _ w.sequence) (
                  Finds-bind _ (Reads-u16 _ w.witness_len) (
                    Finds-bind _ (Reads-u16 _ w.script_len) (
                      Finds-bind _ (Reads-bytes x.redeem_script)
                        (Finds-map _ (Finds-input_option x.dlc_input w.input))))))))))
