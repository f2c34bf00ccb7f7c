-- ===== src/Messages/Offer.antt =====
-- packages/messaging/lib/messages/DlcOffer.ts. The optional messages at the end, and those of an
-- unknown type, are the record `Extras`; a list that was not set is empty.
pub mod Stream
pub mod Taken
pub mod Rounds
pub mod Validate
pub mod Version
pub mod RoundTrip
use node_dlc.Prelude.{
  ℕ, suc, ◌≤◌, ◌+◌, Bool, true, false, ◌&&◌, Option, none, some, List, [], ◌∷◌, ◌++◌, length, take,
  leb, ◌==◌, if◌then◌else◌, Error, bad_type, Result, value, and_then, lift, result, ◌>>=◌, ◌>>◌,
  pure, throw,
}
use node_dlc.Bufio.Reader.{Read, reader, read_bytes, read_u16_be, read_u32_be, read_u64_be}
use node_dlc.Bufio.Writer.{Write, output, write_bytes, write_u16_be, write_u32_be, write_u64_be}
use node_dlc.Bufio.Writer.Appends.{write_each}
use node_dlc.Messages.Codec.{write_counted, read_counted, write_inner, read_ahead, look_ahead}
use node_dlc.Messages.Tlv.{Tlv, deserialize_tlv, get_tlv}
use node_dlc.Messages.Text.{Utf8}
use node_dlc.Messages.Rounds.{until_eof}
use node_dlc.Messages.Inputs.{FundingInput, write_funding_input_body, read_funding_input_body}
use node_dlc.Messages.Contract.{
  ContractInfo, get_total_collateral, serialize_contract_info, deserialize_contract_info,
}
use node_dlc.Messages.Order.{
  OrderMetadata, metadata_type, OrderIrcInfo, irc_info_type, OrderPositionInfo, position_type,
  BatchFundingGroup, group_type, write_metadata, read_metadata, write_irc_info, read_irc_info,
  write_position_info, read_position_info, write_group, read_group,
}

abbrev pub offer_type : ℕ
offer_type = 42778

pub record UnknownTlv : Type 0 where
  pub type_id : ℕ
  pub content : List ℕ

pub record Extras : Type 0 where
  pub metadata : Option OrderMetadata
  pub irc_info : Option OrderIrcInfo
  pub position_info : Option OrderPositionInfo
  pub batch_funding_groups : List BatchFundingGroup
  pub unknown_tlvs : List UnknownTlv

abbrev pub no_extras : Extras
no_extras = record {
  metadata = none;
  irc_info = none;
  position_info = none;
  batch_funding_groups = [];
  unknown_tlvs = [];
}

pub record DlcOffer : Type 0 where
  pub protocol_version : ℕ
  pub contract_flags : List ℕ
  pub chain_hash : List ℕ
  pub temporary_contract_id : List ℕ
  pub contract_info : ContractInfo
  pub funding_pubkey : List ℕ
  pub payout_spk : List ℕ
  pub payout_serial_id : ℕ
  pub offer_collateral : ℕ
  pub funding_inputs : List FundingInput
  pub change_spk : List ℕ
  pub change_serial_id : ℕ
  pub fund_output_serial_id : ℕ
  pub fee_rate_per_vb : ℕ
  pub cet_locktime : ℕ
  pub refund_locktime : ℕ
  pub extras : Extras
  pub single_funded : Bool

-- A field that is written only if it is set.
unfoldable pub write_given : {A : Type 0} → (A → Write) → Option A → Write
write_given f none = pure tt
write_given f (some x) = write_inner (f x)

unfoldable pub serialize_funding_body : FundingInput → Result (List ℕ)
serialize_funding_body x = output (write_funding_input_body x)

unfoldable pub deserialize_funding_body : List ℕ → Result FundingInput
deserialize_funding_body buf = result (read_funding_input_body (reader buf))

-- Bytes behind their 16-bit length.
unfoldable pub write_spk : List ℕ → Write
write_spk bs = do write_u16_be (length bs); write_bytes bs

unfoldable pub read_spk : Read (List ℕ)
read_spk = do n ← read_u16_be; read_bytes (some n)

unfoldable pub check : Bool → Error → Read (Unit {0})
check true e = pure tt
check false e = throw e

unfoldable pub version_by : ℕ → Read ℕ
version_by possible = if leb 1 possible && leb possible 10 then read_u32_be else pure 1

-- The four bytes ahead are the version if they look like one; an older message has none.
unfoldable pub peek_version : Read ℕ
peek_version = look_ahead (λ buf. result (read_u32_be (reader (take 4 buf))))

unfoldable pub read_version : Read ℕ
read_version = do possible ← peek_version; version_by possible

module _ (utf : Utf8) where
  -- The `switch` on the type of a TLV, which `Number` keeps exactly below 2^53.
  unfoldable pub add_typed : Extras → List ℕ → ℕ → Result Extras
  add_typed x buf type_id =
      if type_id == metadata_type
      then and_then (result (read_metadata utf (reader buf)))
          (λ m. value (record x { metadata = some m }))
      else if type_id == irc_info_type
      then and_then (result (read_irc_info utf (reader buf)))
          (λ i. value (record x { irc_info = some i }))
      else if type_id == position_type
      then and_then (result (read_position_info utf (reader buf)))
          (λ p. value (record x { position_info = some p }))
      else if type_id == group_type
      then and_then (result (read_group utf (reader buf)))
          (λ g. value (record x { batch_funding_groups = x.batch_funding_groups ++ g ∷ [] }))
      else value (record x {
        unknown_tlvs = x.unknown_tlvs ++ record { type_id = type_id; content = buf } ∷ [];
      })

  unfoldable pub add_tlv : Extras → List ℕ → Result Extras
  add_tlv x buf = and_then (result (deserialize_tlv (reader buf))) (λ t. add_typed x buf t.type_id)

  unfoldable pub take_tlv : Extras → Read Extras
  take_tlv x = do buf ← get_tlv; lift (add_tlv x buf)

  -- Each TLV takes a byte at least, so the rounds are never used up.
  unfoldable pub read_extras : Read Extras
  read_extras r = until_eof (suc (length r.buffer)) take_tlv no_extras r

  unfoldable pub write_extras : Extras → Write
  write_extras x = do
    write_given (write_metadata utf) x.metadata
    write_given (write_irc_info utf) x.irc_info
    write_given (write_position_info utf) x.position_info
    write_each (λ g. write_inner (write_group utf g)) x.batch_funding_groups
    write_each (λ t. write_bytes t.content) x.unknown_tlvs

  unfoldable pub write_offer : DlcOffer → Write
  write_offer x = do
    write_u16_be offer_type
    write_u32_be x.protocol_version
    write_bytes x.contract_flags
    write_bytes x.chain_hash
    write_bytes x.temporary_contract_id
    contract_info ← lift (serialize_contract_info utf x.contract_info)
    write_bytes contract_info
    write_bytes x.funding_pubkey
    write_spk x.payout_spk
    write_u64_be x.payout_serial_id
    write_u64_be x.offer_collateral
    write_counted (λ i. write_inner (write_funding_input_body i)) x.funding_inputs
    write_spk x.change_spk
    write_u64_be x.change_serial_id
    write_u64_be x.fund_output_serial_id
    write_u64_be x.fee_rate_per_vb
    write_u32_be x.cet_locktime
    write_u32_be x.refund_locktime
    write_extras x.extras

  unfoldable pub read_offer_fields : ℕ → Read DlcOffer
  read_offer_fields protocol_version = do
    contract_flags ← read_bytes (some 1)
    chain_hash ← read_bytes (some 32)
    temporary_contract_id ← read_bytes (some 32)
    contract_info ← read_ahead (deserialize_contract_info utf) (serialize_contract_info utf)
    funding_pubkey ← read_bytes (some 33)
    payout_spk ← read_spk
    payout_serial_id ← read_u64_be
    offer_collateral ← read_u64_be
    funding_inputs ← read_counted (read_ahead deserialize_funding_body serialize_funding_body)
    change_spk ← read_spk
    change_serial_id ← read_u64_be
    fund_output_serial_id ← read_u64_be
    fee_rate_per_vb ← read_u64_be
    cet_locktime ← read_u32_be
    refund_locktime ← read_u32_be
    extras ← read_extras
    pure (record {
      protocol_version = protocol_version;
      contract_flags = contract_flags;
      chain_hash = chain_hash;
      temporary_contract_id = temporary_contract_id;
      contract_info = contract_info;
      funding_pubkey = funding_pubkey;
      payout_spk = payout_spk;
      payout_serial_id = payout_serial_id;
      offer_collateral = offer_collateral;
      funding_inputs = funding_inputs;
      change_spk = change_spk;
      change_serial_id = change_serial_id;
      fund_output_serial_id = fund_output_serial_id;
      fee_rate_per_vb = fee_rate_per_vb;
      cet_locktime = cet_locktime;
      refund_locktime = refund_locktime;
      extras = extras;
      single_funded = get_total_collateral contract_info == offer_collateral;
    })

  unfoldable pub read_offer : Read DlcOffer
  read_offer = do
    type_id ← read_u16_be
    check (type_id == offer_type) bad_type
    protocol_version ← read_version
    read_offer_fields protocol_version

  unfoldable pub serialize_offer : DlcOffer → Result (List ℕ)
  serialize_offer x = output (write_offer x)

  unfoldable pub deserialize_offer : List ℕ → Result DlcOffer
  deserialize_offer buf = result (read_offer (reader buf))
