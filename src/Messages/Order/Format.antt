-- ===== src/Messages/Order/Format.antt =====
-- The formats of the messages of packages/messaging/lib/messages about an order, and their ranges.
use node_dlc.Prelude.{ℕ, ◌^◌, ◌<◌, ◌≡◌, Option, none, some, List, [], ◌++◌, length, All}
use node_dlc.Bufio.Bytes.{be_bytes}
use node_dlc.Messages.Codec.{prefixed, counted}
use node_dlc.Messages.Tagged.{tagged}
use node_dlc.Messages.Text.{IsText}
use node_dlc.Messages.Order.{
  OrderMetadata, metadata_type, OrderIrcInfo, irc_info_type, Position, OrderPositionInfo,
  position_type, BatchFundingGroup, group_type, party_code, direction_code, no_position,
}

pub record IsMetadata (x : OrderMetadata) : Type 0 where
  pub id : IsText x.offer_id
  pub created : x.created_at < 2 ^ 32
  pub till : x.good_till < 2 ^ 32

abbrev pub metadata_fields : OrderMetadata → List ℕ
metadata_fields x = prefixed x.offer_id ++ (be_bytes 4 x.created_at ++ be_bytes 4 x.good_till)

abbrev pub metadata_bytes : OrderMetadata → List ℕ
metadata_bytes x = tagged metadata_type (metadata_fields x)

pub record IsIrcInfo (x : OrderIrcInfo) : Type 0 where
  pub nick : IsText x.nick
  pub key : length x.pub_key ≡ 33

abbrev pub irc_info_fields : OrderIrcInfo → List ℕ
irc_info_fields x = prefixed x.nick ++ x.pub_key

abbrev pub irc_info_bytes : OrderIrcInfo → List ℕ
irc_info_bytes x = tagged irc_info_type (irc_info_fields x)

pub record IsPosition (x : Position) : Type 0 where
  pub size : x.contract_size < 2 ^ 64
  pub price : x.price < 2 ^ 64
  pub precision : x.extra_precision < 2 ^ 16

-- With no name the rest is as in a new object, and a name is not empty.
abbrev pub IsInstrument : Option (List ℕ) → Position → Type 0
IsInstrument none p = p ≡ no_position
IsInstrument (some name) p = IsText name × IsPosition p × (0 < length name)

pub record IsPositionInfo (x : OrderPositionInfo) : Type 0 where
  pub fees : x.fees < 2 ^ 64
  pub instrument : IsInstrument x.instrument_name x.position

abbrev pub position_fields : Position → List ℕ
position_fields x =
    be_bytes 8 x.contract_size
    ++ (be_bytes 1 (direction_code x.direction)
        ++ (be_bytes 8 x.price ++ be_bytes 2 x.extra_precision))

abbrev pub instrument_bytes : Option (List ℕ) → Position → List ℕ
instrument_bytes none p = []
instrument_bytes (some name) p = prefixed name ++ position_fields p

abbrev pub position_info_fields : OrderPositionInfo → List ℕ
position_info_fields x =
    be_bytes 1 (party_code x.shift_for_fees)
    ++ (be_bytes 8 x.fees ++ instrument_bytes x.instrument_name x.position)

abbrev pub position_info_bytes : OrderPositionInfo → List ℕ
position_info_bytes x = tagged position_type (position_info_fields x)

abbrev pub IsShort : List ℕ → Type 0
IsShort bs = length bs < 2 ^ 64

pub record IsGroup (x : BatchFundingGroup) : Type 0 where
  pub temp_count : length x.temp_contract_ids < 2 ^ 64
  pub temp_ids : All IsShort x.temp_contract_ids
  pub id_count : length x.contract_ids < 2 ^ 64
  pub ids : All IsShort x.contract_ids
  pub collateral : x.allocated_collateral < 2 ^ 64
  pub event_count : length x.event_ids < 2 ^ 64
  pub events : All IsText x.event_ids

abbrev pub group_fields : BatchFundingGroup → List ℕ
group_fields x =
    counted prefixed x.temp_contract_ids
    ++ (counted prefixed x.contract_ids
        ++ (be_bytes 8 x.allocated_collateral ++ counted prefixed x.event_ids))

abbrev pub group_bytes : BatchFundingGroup → List ℕ
group_bytes x = tagged group_type (group_fields x)
