-- ===== src/Messages/Oracle.antt =====
-- packages/messaging/lib/messages/EventDescriptor.ts, OracleEvent.ts and OracleAnnouncement.ts. The
-- field `length` that reading sets and writing ignores is left out.
pub mod Descriptors
pub mod RoundTrip
pub mod Validate
use node_dlc.Prelude.{
  ℕ, suc, Bool, some, List, [], ◌∷◌, ◌++◌, length, ◌==◌, if◌then◌else◌, bad_type, Result, error,
  and_then, lift, result, ◌>>=◌, ◌>>◌, pure,
}
use node_dlc.Bufio.Reader.{
  Read, reader, read_bytes, read_big_size, read_u8, read_u16_be, read_u32_be,
}
use node_dlc.Bufio.Writer.{Write, write_bytes, write_u8, write_u16_be, write_u32_be}
use node_dlc.Bufio.Writer.Appends.{write_each}
use node_dlc.Messages.Codec.{read_times, write_inner}
use node_dlc.Messages.Tlv.{get_tlv}
use node_dlc.Messages.Text.{Utf8, write_text, read_text}
use node_dlc.Messages.Rounds.{until_eof}
use node_dlc.Messages.Tagged.{write_tagged}

pub record DigitDecomposition : Type 0 where
  pub base : ℕ
  pub is_signed : Bool
  pub unit : List ℕ
  pub precision : ℕ
  pub nb_digits : ℕ

pub data EventDescriptor : Type 0 where
  enum_event : List (List ℕ) → EventDescriptor
  digit_decomposition : DigitDecomposition → EventDescriptor

abbrev pub enum_event_type : ℕ
enum_event_type = 55302

abbrev pub digit_decomposition_type : ℕ
digit_decomposition_type = 55306

pub record OracleEvent : Type 0 where
  pub oracle_nonces : List (List ℕ)
  pub event_maturity_epoch : ℕ
  pub event_descriptor : EventDescriptor
  pub event_id : List ℕ

abbrev pub oracle_event_type : ℕ
oracle_event_type = 55330

pub record OracleAnnouncement : Type 0 where
  pub announcement_sig : List ℕ
  pub oracle_public_key : List ℕ
  pub oracle_event : OracleEvent

abbrev pub announcement_type : ℕ
announcement_type = 55332

module _ (utf : Utf8) where
  unfoldable pub write_enum_fields : List (List ℕ) → Write
  write_enum_fields outcomes = do
    write_u16_be (length outcomes)
    write_each (write_text utf) outcomes

  unfoldable pub write_digit_fields : DigitDecomposition → Write
  write_digit_fields x = do
    write_u16_be x.base
    write_u8 (if x.is_signed then 1 else 0)
    write_text utf x.unit
    write_u32_be x.precision
    write_u16_be x.nb_digits

  unfoldable pub write_descriptor : EventDescriptor → Write
  write_descriptor (enum_event outcomes) = write_tagged enum_event_type (write_enum_fields outcomes)
  write_descriptor (digit_decomposition x) =
      write_tagged digit_decomposition_type (write_digit_fields x)

  unfoldable pub push_outcome : List (List ℕ) → Read (List (List ℕ))
  push_outcome outcomes = do outcome ← read_text utf; pure (outcomes ++ outcome ∷ [])

  -- Each outcome takes a byte at least, so the rounds are never used up.
  unfoldable pub read_outcomes : Read (List (List ℕ))
  read_outcomes r = until_eof (suc (length r.buffer)) push_outcome [] r

  unfoldable pub read_enum_event : Read EventDescriptor
  read_enum_event = do
    read_big_size
    read_big_size
    read_u16_be
    outcomes ← read_outcomes
    pure (enum_event outcomes)

  unfoldable pub read_digit_decomposition : Read EventDescriptor
  read_digit_decomposition = do
    read_big_size
    read_big_size
    base ← read_u16_be
    signed ← read_u8
    unit ← read_text utf
    precision ← read_u32_be
    nb_digits ← read_u16_be
    pure (
        digit_decomposition (record {
          base = base;
          is_signed = signed == 1;
          unit = unit;
          precision = precision;
          nb_digits = nb_digits;
        }))

  unfoldable pub deserialize_descriptor : List ℕ → Result EventDescriptor
  deserialize_descriptor buf = and_then (result (read_big_size (reader buf))) (λ type_id.
      if type_id == enum_event_type
      then result (read_enum_event (reader buf))
      else if type_id == digit_decomposition_type
      then result (read_digit_decomposition (reader buf))
      else error bad_type)

  unfoldable pub write_event_fields : OracleEvent → Write
  write_event_fields x = do
    write_u16_be (length x.oracle_nonces)
    write_each write_bytes x.oracle_nonces
    write_u32_be x.event_maturity_epoch
    write_inner (write_descriptor x.event_descriptor)
    write_text utf x.event_id

  unfoldable pub write_event : OracleEvent → Write
  write_event x = write_tagged oracle_event_type (write_event_fields x)

  unfoldable pub read_event_fields : Read OracleEvent
  read_event_fields = do
    nonce_count ← read_u16_be
    nonces ← read_times nonce_count (read_bytes (some 32))
    epoch ← read_u32_be
    buf ← get_tlv
    descriptor ← lift (deserialize_descriptor buf)
    event_id ← read_text utf
    pure (record {
      oracle_nonces = nonces;
      event_maturity_epoch = epoch;
      event_descriptor = descriptor;
      event_id = event_id;
    })

  unfoldable pub deserialize_event : List ℕ → Result OracleEvent
  deserialize_event buf = result ((do read_big_size; read_big_size; read_event_fields) (reader buf))

  unfoldable pub write_announcement_fields : OracleAnnouncement → Write
  write_announcement_fields x = do
    write_bytes x.announcement_sig
    write_bytes x.oracle_public_key
    write_inner (write_event x.oracle_event)

  unfoldable pub write_announcement : OracleAnnouncement → Write
  write_announcement x = write_tagged announcement_type (write_announcement_fields x)

  unfoldable pub read_announcement_fields : Read OracleAnnouncement
  read_announcement_fields = do
    announcement_sig ← read_bytes (some 64)
    oracle_public_key ← read_bytes (some 32)
    buf ← get_tlv
    oracle_event ← lift (deserialize_event buf)
    pure (record {
      announcement_sig = announcement_sig;
      oracle_public_key = oracle_public_key;
      oracle_event = oracle_event;
    })

  unfoldable pub deserialize_announcement : List ℕ → Result OracleAnnouncement
  deserialize_announcement buf =
      result ((do read_big_size; read_big_size; read_announcement_fields) (reader buf))
