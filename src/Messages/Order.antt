-- ===== src/Messages/Order.antt =====
-- packages/messaging/lib/messages/OrderMetadata.ts, OrderIrcInfo.ts, OrderPositionInfo.ts and
-- BatchFundingGroup.ts. The collateral of a group is its number of satoshis.
pub mod Format
pub mod RoundTrip
use node_dlc.Prelude.{
  ℕ, Option, none, some, List, [], ◌∷◌, length, ◌==◌, if◌then◌else◌, ok, bad_value, Result, result,
  ◌>>=◌, ◌>>◌, pure, throw,
}
use node_dlc.Bufio.Reader.{
  Read, reader, eof, read_bytes, read_big_size, read_u8, read_u16_be, read_u32_be, read_u64_be,
}
use node_dlc.Bufio.Writer.{Write, write_bytes, write_u8, write_u16_be, write_u32_be, write_u64_be}
use node_dlc.Messages.Codec.{write_counted, read_counted, write_prefixed, read_prefixed}
use node_dlc.Messages.Text.{Utf8, write_text, read_text}
use node_dlc.Messages.Tagged.{write_tagged}

pub record OrderMetadata : Type 0 where
  pub offer_id : List ℕ
  pub created_at : ℕ
  pub good_till : ℕ

abbrev pub metadata_type : ℕ
metadata_type = 62774

pub record OrderIrcInfo : Type 0 where
  pub nick : List ℕ
  pub pub_key : List ℕ

abbrev pub irc_info_type : ℕ
irc_info_type = 62776

pub data DlcParty : Type 0 where
  neither offeror acceptor : DlcParty

pub data Direction : Type 0 where
  buy sell no_direction : Direction

-- What is written when the position names an instrument.
pub record Position : Type 0 where
  pub contract_size : ℕ
  pub direction : Direction
  pub price : ℕ
  pub extra_precision : ℕ

pub record OrderPositionInfo : Type 0 where
  pub shift_for_fees : DlcParty
  pub fees : ℕ
  pub instrument_name : Option (List ℕ)
  pub position : Position

abbrev pub position_type : ℕ
position_type = 62778

pub record BatchFundingGroup : Type 0 where
  pub temp_contract_ids : List (List ℕ)
  pub contract_ids : List (List ℕ)
  pub allocated_collateral : ℕ
  pub event_ids : List (List ℕ)

abbrev pub group_type : ℕ
group_type = 65430

unfoldable pub party_code : DlcParty → ℕ
party_code neither = 0
party_code offeror = 1
party_code acceptor = 2

unfoldable pub party_of : ℕ → Read DlcParty
party_of n =
    if n == 0
    then pure neither
    else if n == 1
    then pure offeror
    else if n == 2
    then pure acceptor
    else throw bad_value

unfoldable pub direction_code : Direction → ℕ
direction_code no_direction = 0
direction_code buy = 1
direction_code sell = 2

unfoldable pub direction_of : ℕ → Read Direction
direction_of n =
    if n == 0
    then pure no_direction
    else if n == 1
    then pure buy
    else if n == 2
    then pure sell
    else throw bad_value

abbrev pub no_position : Position
no_position = record { contract_size = 0; direction = no_direction; price = 0; extra_precision = 0 }

unfoldable pub write_position : Position → Write
write_position x = do
  write_u64_be x.contract_size
  write_u8 (direction_code x.direction)
  write_u64_be x.price
  write_u16_be x.extra_precision

unfoldable pub read_position : Read Position
read_position = do
  contract_size ← read_u64_be
  code ← read_u8
  direction ← direction_of code
  price ← read_u64_be
  extra_precision ← read_u16_be
  pure (record {
    contract_size = contract_size;
    direction = direction;
    price = price;
    extra_precision = extra_precision;
  })

-- What stands at the end of a message if its bytes have not ended.
unfoldable pub unless_eof : {A : Type 0} → A → Read A → Read A
unless_eof a m r = if eof r then ok a r else m r

unfoldable pub read_times_of : Read (ℕ × ℕ)
read_times_of = do created ← read_u32_be; till ← read_u32_be; pure (created, till)

module _ (utf : Utf8) where
  unfoldable pub write_metadata : OrderMetadata → Write
  write_metadata x =
      write_tagged metadata_type
        (do write_text utf x.offer_id; write_u32_be x.created_at; write_u32_be x.good_till)

  unfoldable pub read_metadata : Read OrderMetadata
  read_metadata = do
    read_big_size
    read_big_size
    offer_id ← read_text utf
    times ← unless_eof (0, 0) read_times_of
    pure (record { offer_id = offer_id; created_at = times.0; good_till = times.1 })

  unfoldable pub write_irc_info : OrderIrcInfo → Write
  write_irc_info x = write_tagged irc_info_type (do write_text utf x.nick; write_bytes x.pub_key)

  unfoldable pub read_irc_info : Read OrderIrcInfo
  read_irc_info = do
    read_big_size
    read_big_size
    nick ← read_text utf
    pub_key ← read_bytes (some 33)
    pure (record { nick = nick; pub_key = pub_key })

  -- A name that is missing or empty is not written, and with it the rest.
  unfoldable pub write_instrument : Option (List ℕ) → Position → Write
  write_instrument none p = pure tt
  write_instrument (some []) p = pure tt
  write_instrument (some (c ∷ cs)) p = do write_text utf (c ∷ cs); write_position p

  unfoldable pub read_instrument : Read (Option (List ℕ) × Position)
  read_instrument = do name ← read_text utf; position ← read_position; pure (some name, position)

  unfoldable pub write_position_info : OrderPositionInfo → Write
  write_position_info x = write_tagged position_type (do
    write_u8 (party_code x.shift_for_fees)
    write_u64_be x.fees
    write_instrument x.instrument_name x.position)

  unfoldable pub read_position_info : Read OrderPositionInfo
  read_position_info = do
    read_big_size
    read_big_size
    code ← read_u8
    shift_for_fees ← party_of code
    fees ← read_u64_be
    instrument ← unless_eof (none, no_position) read_instrument
    pure (record {
      shift_for_fees = shift_for_fees;
      fees = fees;
      instrument_name = instrument.0;
      position = instrument.1;
    })

  unfoldable pub write_group : BatchFundingGroup → Write
  write_group x = write_tagged group_type (do
    write_counted write_prefixed x.temp_contract_ids
    write_counted write_prefixed x.contract_ids
    write_u64_be x.allocated_collateral
    write_counted (write_text utf) x.event_ids)

  unfoldable pub read_group : Read BatchFundingGroup
  read_group = do
    read_big_size
    read_big_size
    temp_contract_ids ← read_counted read_prefixed
    contract_ids ← read_counted read_prefixed
    allocated_collateral ← read_u64_be
    event_ids ← read_counted (read_text utf)
    pure (record {
      temp_contract_ids = temp_contract_ids;
      contract_ids = contract_ids;
      allocated_collateral = allocated_collateral;
      event_ids = event_ids;
    })
