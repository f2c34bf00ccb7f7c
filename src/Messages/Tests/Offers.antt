-- ===== src/Messages/Tests/Offers.antt =====
-- An offer in the theorems about offers.
use node_dlc.Prelude.{
  ◌≡◌, inr, refl, arith, true, false, none, some, [], ◌∷◌, ◌++◌, length, take, ◌==◌, value,
  and_then,
}
use node_dlc.Bufio.Bytes.{be_bytes, le_bytes, be_value, le_value}
use node_dlc.Bufio.Reader.{reader}
use node_dlc.Bufio.Writer.{output}
use node_dlc.Bufio.Writer.Numbers.{big_size, var_int}
use node_dlc.Bitcoin.Tx.{is_seg_wit, has_witness}
use node_dlc.Messages.Oracle.{write_event}
use node_dlc.Messages.Oracle.RoundTrip.{event_bytes, Appends-event}
use node_dlc.Bufio.RoundTrip.{Appends-output}
use node_dlc.Messages.Oracle.Validate.{
  Signing, validate_announcement, validate_event, validate_descriptor, expected_nonces,
}
use node_dlc.Messages.Contract.Validate.{
  validate_contract_info, validate_pair, validate_oracle_info,
}
use node_dlc.Messages.Parties.{
  Standards, validate_party, validate_key, validate_serial_ids, set_from, elem, funding_amount,
  funding_from,
}
use node_dlc.Messages.Inputs.Validate.{output_at}
use node_dlc.Messages.Offer.Validate.{
  validate_offer, IsSoundOffer, validate_offer-IsSoundOffer, same_units, is_single_funded,
  validate_collateral, validate_funding,
}
use node_dlc.Messages.Contract.{get_total_collateral, oracle_marker}
use node_dlc.Messages.Order.{OrderMetadata, BatchFundingGroup}
use node_dlc.Messages.Offer.{
  offer_type, Extras, no_extras, DlcOffer, take_tlv, read_extras, serialize_offer,
  deserialize_offer,
}
use node_dlc.Messages.Offer.Stream.{IsExtras}
use node_dlc.Messages.Offer.Rounds.{read_extras-Loops}
use node_dlc.Messages.Rounds.{Loops}
use node_dlc.Messages.Offer.RoundTrip.{
  IsOffer, offer_fields, deserialize-serialize_offer, deserialize_offer_old,
}
use node_dlc.Messages.Tests.{id_32, key_33, coin, funding}
use node_dlc.Messages.Tests.Contracts.{
  utf, utf-Laws, announcement, announcement-IsAnnouncement, contract, contract-IsContractInfo,
  funding-IsEmbedded, unknown,
}

abbrev metadata : OrderMetadata
metadata = record { offer_id = 111 ∷ []; created_at = 1; good_till = 2 }

abbrev group : BatchFundingGroup
group = record {
  temp_contract_ids = id_32 ∷ [];
  contract_ids = [];
  allocated_collateral = 5;
  event_ids = [];
}

abbrev extras : Extras
extras = record {
  metadata = some metadata;
  irc_info = none;
  position_info = none;
  batch_funding_groups = group ∷ [];
  unknown_tlvs = unknown ∷ [];
}

extras-IsExtras : IsExtras extras
unfolding be_bytes le_bytes big_size
extras-IsExtras = record {
  metadata = record {
    id = ((omega arith, tt), omega arith);
    created = omega arith;
    till = omega arith;
  };
  irc_info = tt;
  position_info = tt;
  groups = (
    record {
      temp_count = omega arith;
      temp_ids = (omega arith, tt);
      id_count = omega arith;
      ids = tt;
      collateral = omega arith;
      event_count = omega arith;
      events = tt;
    },
    tt,
  );
  unknown = (
    record {
      body = 9 ∷ [];
      whole = refl;
      small = omega arith;
      not_metadata = λ e. omega arith;
      not_irc = λ e. omega arith;
      not_position = λ e. omega arith;
      not_group = λ e. omega arith;
    },
    tt,
  );
  fits = omega arith;
}

abbrev offer : DlcOffer
offer = record {
  protocol_version = 1;
  contract_flags = 0 ∷ [];
  chain_hash = id_32;
  temporary_contract_id = id_32;
  contract_info = contract;
  funding_pubkey = key_33;
  payout_spk = 1 ∷ 2 ∷ [];
  payout_serial_id = 4;
  offer_collateral = 100000;
  funding_inputs = funding ∷ [];
  change_spk = 3 ∷ [];
  change_serial_id = 5;
  fund_output_serial_id = 6;
  fee_rate_per_vb = 7;
  cet_locktime = 8;
  refund_locktime = 9;
  extras = extras;
  single_funded = false;
}

offer-IsOffer : IsOffer offer
unfolding be_bytes le_bytes big_size oracle_marker get_total_collateral
offer-IsOffer = record {
  flags = refl;
  chain = refl;
  id = refl;
  contract = contract-IsContractInfo;
  contract_fits = omega arith;
  key = refl;
  payout_spk = omega arith;
  payout_serial = omega arith;
  collateral = omega arith;
  input_count = omega arith;
  inputs = (funding-IsEmbedded, tt);
  change_spk = omega arith;
  change_serial = omega arith;
  output_serial = omega arith;
  fee_rate = omega arith;
  cet = omega arith;
  refund = omega arith;
  extras = extras-IsExtras;
  single = refl;
}

deserialize-serialize_offer_example :
    and_then (serialize_offer utf offer) (deserialize_offer utf) ≡ value offer
unfolding is_seg_wit has_witness var_int be_bytes le_bytes big_size oracle_marker
deserialize-serialize_offer_example =
    deserialize-serialize_offer utf utf-Laws offer offer-IsOffer (omega arith, omega arith)
      (omega arith)

-- The first four bytes are a flag and three bytes of the hash.
deserialize_offer_old_example :
    deserialize_offer utf (be_bytes 2 offer_type ++ offer_fields offer) ≡ value offer
unfolding be_value le_value
deserialize_offer_old_example =
    deserialize_offer_old utf utf-Laws offer offer-IsOffer (inr (omega arith))

read_extras-Loops_example :
    Loops
      (take_tlv utf)
      no_extras
      (reader (3 ∷ 1 ∷ 9 ∷ []))
      (read_extras utf (reader (3 ∷ 1 ∷ 9 ∷ [])))
read_extras-Loops_example = read_extras-Loops utf (reader (3 ∷ 1 ∷ 9 ∷ [])) (omega arith)

-- A signature library that accepts all, and its hash.
abbrev signing : Signing
signing = record { event_hash = λ bs. take 32 bs; verify = λ key hash sig. true }

abbrev standards : Standards
standards = record { has_address = λ spk. true; is_public_key = λ key. length key == 33 }

-- The offering party brings an output of 300000.
abbrev funded : DlcOffer
funded = record offer {
  funding_inputs =
      record funding {
        prev_tx = record (coin 9) { outputs = record { value = 300000; script_pub_key = [] } ∷ [] };
        prev_tx_vout = 0;
      }
      ∷ [];
}

event_written :
    output (write_event utf announcement.oracle_event)
    ≡ value (event_bytes announcement.oracle_event)
unfolding be_bytes le_bytes big_size
event_written =
    Appends-output _ _
      (Appends-event utf utf-Laws announcement.oracle_event announcement-IsAnnouncement.event)
      (omega arith)

funded_valid : validate_offer utf signing standards funded ≡ value tt
unfolding validate_offer validate_party validate_key validate_serial_ids set_from elem
    funding_amount funding_from output_at validate_contract_info validate_pair validate_oracle_info
    validate_announcement validate_event validate_descriptor expected_nonces same_units
    is_single_funded validate_collateral validate_funding get_total_collateral
funded_valid = rw event_written refl

validate_offer-IsSoundOffer_example : IsSoundOffer utf signing standards funded
validate_offer-IsSoundOffer_example =
    validate_offer-IsSoundOffer utf signing standards funded funded_valid
