-- ===== src/Messages/Sign.antt =====
-- packages/messaging/lib/messages/DlcSign.ts.
pub mod RoundTrip
use node_dlc.Prelude.{
  ℕ, some, List, length, ◌==◌, bad_version, bad_length, Result, result, guard, ◌also◌, ◌>>=◌, ◌>>◌,
  pure,
}
use node_dlc.Bufio.Reader.{Read, reader, read_bytes, read_u16_be, read_u32_be}
use node_dlc.Bufio.Writer.{Write, output, write_bytes, write_u16_be, write_u32_be}
use node_dlc.Messages.Codec.{write_inner, read_ahead}
use node_dlc.Messages.Text.{Utf8}
use node_dlc.Messages.Signatures.{
  AdaptorSig, ScriptWitness, write_cet_adaptor_signatures, read_cet_adaptor_signatures,
  write_funding_signatures, read_funding_signatures,
}
use node_dlc.Messages.Parties.{current_version}
use node_dlc.Messages.Tail.{Tail, write_tail, read_tail}

abbrev pub sign_type : ℕ
sign_type = 42782

pub record DlcSign : Type 0 where
  pub protocol_version : ℕ
  pub contract_id : List ℕ
  pub cet_adaptor_signatures : List AdaptorSig
  pub refund_signature : List ℕ
  pub funding_signatures : List (List ScriptWitness)
  pub tail : Tail

unfoldable pub serialize_cet_signatures : List AdaptorSig → Result (List ℕ)
serialize_cet_signatures sigs = output (write_cet_adaptor_signatures sigs)

unfoldable pub deserialize_cet_signatures : List ℕ → Result (List AdaptorSig)
deserialize_cet_signatures buf = result (read_cet_adaptor_signatures (reader buf))

unfoldable pub serialize_funding_signatures : List (List ScriptWitness) → Result (List ℕ)
serialize_funding_signatures stacks = output (write_funding_signatures stacks)

unfoldable pub deserialize_funding_signatures : List ℕ → Result (List (List ScriptWitness))
deserialize_funding_signatures buf = result (read_funding_signatures (reader buf))

unfoldable pub validate_sign : DlcSign → Result (Unit {0})
validate_sign x =
    guard (x.protocol_version == current_version) bad_version
    also guard (length x.contract_id == 32) bad_length

module _ (utf : Utf8) where
  unfoldable pub write_sign : DlcSign → Write
  write_sign x = do
    write_u16_be sign_type
    write_u32_be x.protocol_version
    write_bytes x.contract_id
    write_inner (write_cet_adaptor_signatures x.cet_adaptor_signatures)
    write_bytes x.refund_signature
    write_inner (write_funding_signatures x.funding_signatures)
    write_tail utf x.tail

  unfoldable pub read_sign : Read DlcSign
  read_sign = do
    read_u16_be
    protocol_version ← read_u32_be
    contract_id ← read_bytes (some 32)
    cet_adaptor_signatures ← read_ahead deserialize_cet_signatures serialize_cet_signatures
    refund_signature ← read_bytes (some 64)
    funding_signatures ← read_ahead deserialize_funding_signatures serialize_funding_signatures
    tail ← read_tail utf
    pure (record {
      protocol_version = protocol_version;
      contract_id = contract_id;
      cet_adaptor_signatures = cet_adaptor_signatures;
      refund_signature = refund_signature;
      funding_signatures = funding_signatures;
      tail = tail;
    })
