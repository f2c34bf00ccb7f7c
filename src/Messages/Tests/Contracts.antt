-- ===== src/Messages/Tests/Contracts.antt =====
-- A contract, and what stands in an offer of it and in its acceptance, at concrete inputs.
use node_dlc.Prelude.{◌≡◌, refl, arith, [], ◌∷◌, ◌++◌, replicate, value, and_then}
use node_dlc.Bufio.Bytes.{be_bytes, le_bytes}
use node_dlc.Bufio.Writer.Numbers.{big_size, var_int}
use node_dlc.Bitcoin.Tx.{is_seg_wit, has_witness}
use node_dlc.Messages.Text.{Utf8, Utf8Laws}
use node_dlc.Messages.Inputs.Ahead.{IsEmbedded}
use node_dlc.Messages.Oracle.{OracleAnnouncement, enum_event}
use node_dlc.Messages.Oracle.RoundTrip.{IsAnnouncement}
use node_dlc.Messages.OracleInfo.{single}
use node_dlc.Messages.Contract.{
  ContractInfo, ContractOraclePair, enumerated, single_info, serialize_contract_info,
  deserialize_contract_info, oracle_marker,
}
use node_dlc.Messages.Contract.RoundTrip.{IsContractInfo, IsPair}
use node_dlc.Messages.Contract.Infos.{deserialize-serialize_contract_info}
use node_dlc.Messages.Offer.{UnknownTlv}
use node_dlc.Messages.Tests.{id_32, funding, funding-IsFunding}

-- Text whose units are its bytes.
abbrev pub utf : Utf8
utf = record { encode = λ s. s; decode = λ bs. bs }

pub utf-Laws : Utf8Laws utf
utf-Laws = record { encode_ascii = λ s h. refl; decode_ascii = λ s h. refl }

abbrev pub announcement : OracleAnnouncement
announcement = record {
  announcement_sig = replicate 64 5;
  oracle_public_key = replicate 32 6;
  oracle_event = record {
    oracle_nonces = id_32 ∷ [];
    event_maturity_epoch = 1000;
    event_descriptor = enum_event ((97 ∷ []) ∷ (98 ∷ []) ∷ []);
    event_id = 120 ∷ [];
  };
}

pub announcement-IsAnnouncement : IsAnnouncement announcement
announcement-IsAnnouncement = record {
  sig = refl;
  key = refl;
  event = record {
    nonce_count = omega arith;
    nonces = (refl, tt);
    epoch = omega arith;
    descriptor =
        (omega arith, (((omega arith, tt), omega arith), (((omega arith, tt), omega arith), tt)));
    id = ((omega arith, tt), omega arith);
  };
}

abbrev pair : ContractOraclePair
pair = record {
  contract_descriptor = enumerated (
      record { outcome = 97 ∷ []; local_payout = 200000 }
      ∷ record { outcome = 98 ∷ []; local_payout = 0 }
      ∷ []);
  oracle_info = single announcement;
}

pair-IsPair : IsPair pair
unfolding be_bytes le_bytes big_size oracle_marker
pair-IsPair = record {
  descriptor = (
    omega arith,
    (
      (((omega arith, tt), omega arith), omega arith),
      ((((omega arith, tt), omega arith), omega arith), tt),
    ),
  );
  oracle = announcement-IsAnnouncement;
  fits = omega arith;
}

abbrev pub contract : ContractInfo
contract = single_info 200000 pair

pub contract-IsContractInfo : IsContractInfo contract
contract-IsContractInfo = (omega arith, pair-IsPair)

deserialize-serialize_contract_info_example :
    and_then
      (serialize_contract_info utf contract)
      (λ out. deserialize_contract_info utf (out ++ 1 ∷ 2 ∷ []))
    ≡ value contract
unfolding be_bytes le_bytes big_size oracle_marker
deserialize-serialize_contract_info_example =
    deserialize-serialize_contract_info utf utf-Laws contract (1 ∷ 2 ∷ []) contract-IsContractInfo
      (omega arith)

pub funding-IsEmbedded : IsEmbedded funding
unfolding is_seg_wit has_witness var_int be_bytes le_bytes big_size
funding-IsEmbedded = record {
  funding = funding-IsFunding;
  tx_len = omega arith;
  fits = omega arith;
}

-- Of the type 3, with one byte.
abbrev pub unknown : UnknownTlv
unknown = record { type_id = 3; content = 3 ∷ 1 ∷ 9 ∷ [] }
