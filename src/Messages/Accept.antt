-- ===== src/Messages/Accept.antt =====
-- packages/messaging/lib/messages/NegotiationFields.ts and DlcAccept.ts. What stands after the
-- refund signature is read inside a `try` whose `catch` ignores the error, so that what was read
-- before it is kept. The reader is not used afterwards.
pub mod Misread
pub mod Dropped
pub mod RoundTrip
use node_dlc.Prelude.{
  ℕ, zero, suc, ◌+◌, ◌-◌, Bool, true, false, ◌||◌, Option, none, some, List, [], ◌∷◌, length, ltb,
  leb, ◌==◌, if◌then◌else◌, ok, err, bad_type, bad_value, Outcome, Result, value, error, and_then,
  lift, result, guard, ◌also◌, check_each, ◌>>=◌, ◌>>◌, pure, throw,
}
use node_dlc.Bufio.Reader.{
  Reader, Read, reader, read_bytes, read_big_size, read_u8, read_u16_be, read_u32_be, read_u64_be,
}
use node_dlc.Bufio.Writer.{
  Write, output, write_bytes, write_big_size, write_u8, write_u16_be, write_u32_be, write_u64_be,
}
use node_dlc.Messages.Codec.{write_counted, read_counted, read_times, write_inner, read_ahead}
use node_dlc.Messages.Tlv.{get_tlv}
use node_dlc.Messages.Text.{Utf8}
use node_dlc.Messages.Inputs.{FundingInput, write_funding_input_body}
use node_dlc.Messages.Inputs.Validate.{validate_funding_input}
use node_dlc.Messages.Payouts.{Interval, write_rounding_intervals}
use node_dlc.Messages.Signatures.{AdaptorSig, write_cet_adaptor_signatures}
use node_dlc.Messages.Contract.{deserialize_intervals}
use node_dlc.Messages.Offer.{serialize_funding_body, deserialize_funding_body, write_spk, read_spk}
use node_dlc.Messages.Parties.{Standards, validate_party, validate_serial_ids, funding_amount}
use node_dlc.Messages.Sign.{serialize_cet_signatures, deserialize_cet_signatures}
use node_dlc.Messages.Tail.{Tail, no_tail, take_tail, write_tail}

mutual
  pub data NegotiationFields : Type 0 where
    single_fields : List Interval → NegotiationFields
    disjoint_fields : FieldList → NegotiationFields

  pub data FieldList : Type 0 where
    no_fields : FieldList
    add_field : NegotiationFields → FieldList → FieldList

unfoldable pub count_fields : FieldList → ℕ
count_fields no_fields = 0
count_fields (add_field f fs) = suc (count_fields fs)

unfoldable mutual
  pub write_negotiation : NegotiationFields → Write
  write_negotiation (single_fields xs) = do
    write_big_size 0
    write_inner (write_rounding_intervals xs)
  write_negotiation (disjoint_fields fs) = do
    write_big_size 1
    write_big_size (count_fields fs)
    write_field_list fs

  pub write_field_list : FieldList → Write
  write_field_list no_fields = pure tt
  write_field_list (add_field f fs) = do write_inner (write_negotiation f); write_field_list fs

unfoldable pub read_single_fields : Read NegotiationFields
read_single_fields = do
  read_big_size
  remaining ← read_bytes none
  xs ← lift (deserialize_intervals remaining)
  pure (single_fields xs)

abbrev pub seek : ℕ → Read (Unit {0})
seek position r = ok tt (record r { position = position })

-- A field inside others is read to find its length, and again from its own bytes. These begin with
-- the same discriminator, so it is one of a single contract.
unfoldable pub nested_from : ℕ → ℕ → Read NegotiationFields
nested_from start discriminator =
    if discriminator == 0
    then (do
      remaining ← read_bytes none
      xs ← lift (deserialize_intervals remaining)
      out ← lift (output (write_rounding_intervals xs))
      seek start
      field_data ← read_bytes (some (1 + length out))
      lift (result (read_single_fields (reader field_data))))
    else throw bad_type

unfoldable pub read_nested : Read NegotiationFields
read_nested r = (read_big_size >>= nested_from r.position) r

unfoldable pub field_list : List NegotiationFields → FieldList
field_list [] = no_fields
field_list (f ∷ fs) = add_field f (field_list fs)

unfoldable pub read_disjoint_fields : Read NegotiationFields
read_disjoint_fields = do
  read_big_size
  fs ← read_counted read_nested
  pure (disjoint_fields (field_list fs))

unfoldable pub deserialize_negotiation : List ℕ → Result NegotiationFields
deserialize_negotiation buf = and_then (result (read_big_size (reader buf))) (λ discriminator.
    if discriminator == 0
    then result (read_single_fields (reader buf))
    else if discriminator == 1
    then result (read_disjoint_fields (reader buf))
    else error bad_type)

abbrev pub accept_type : ℕ
accept_type = 42780

pub record Ending : Type 0 where
  pub negotiation_fields : Option NegotiationFields
  pub tail : Tail

abbrev pub no_ending : Ending
no_ending = record { negotiation_fields = none; tail = no_tail }

pub record DlcAccept : Type 0 where
  pub protocol_version : ℕ
  pub temporary_contract_id : List ℕ
  pub accept_collateral : ℕ
  pub funding_pubkey : List ℕ
  pub payout_spk : List ℕ
  pub payout_serial_id : ℕ
  pub funding_inputs : List FundingInput
  pub change_spk : List ℕ
  pub change_serial_id : ℕ
  pub cet_adaptor_signatures : List AdaptorSig
  pub refund_signature : List ℕ
  pub ending : Ending
  pub single_funded : Bool

unfoldable pub write_negotiation_option : Option NegotiationFields → Write
write_negotiation_option none = write_u8 0
write_negotiation_option (some f) = do write_u8 1; write_inner (write_negotiation f)

unfoldable pub negotiation_by : ℕ → Read (Option NegotiationFields)
negotiation_by has =
    if has == 1
    then (do buf ← get_tlv; f ← lift (deserialize_negotiation buf); pure (some f))
    else pure none

unfoldable pub read_negotiation : Read (Option NegotiationFields)
read_negotiation = do has ← read_u8; negotiation_by has

-- With `parseCets` not set, no signature is read.
unfoldable pub read_cet_signatures : Bool → Read (List AdaptorSig)
read_cet_signatures true = read_ahead deserialize_cet_signatures serialize_cet_signatures
read_cet_signatures false = pure []

-- `validate` with the check of each funding input.
unfoldable pub validate_accept : Standards → DlcAccept → Result (Unit {0})
validate_accept std x =
    validate_party std x.protocol_version x.temporary_contract_id x.payout_spk x.change_spk
      x.funding_pubkey
    also validate_serial_ids x.funding_inputs
    also check_each validate_funding_input x.funding_inputs
    also and_then (funding_amount x.funding_inputs) (λ amount.
      if x.single_funded
      then guard (leb x.accept_collateral 0 || leb x.accept_collateral amount) bad_value
      else guard (ltb x.accept_collateral amount) bad_value)

module _ (utf : Utf8) where
  -- The loop on the remaining bytes, which ends at the first error with what it has. Each TLV takes
  -- a byte at least, so the rounds are never used up.
  unfoldable pub keep_adding : ℕ → Tail → Reader → Tail
  keep_adding zero x r = x
  keep_adding (suc n) x r =
      if ltb r.position (length r.buffer)
      then elim (take_tail utf x r) [ ok y r' ↦ keep_adding n y r' | err e r' ↦ x ]
      else x

  unfoldable pub ending_after : Outcome Reader (Option NegotiationFields) → Ending
  ending_after (ok f r) = record {
    negotiation_fields = f;
    tail = keep_adding (suc (length r.buffer)) no_tail r;
  }
  ending_after (err e r) = no_ending

  unfoldable pub read_ending : Read Ending
  read_ending r =
      if ltb 0 (length r.buffer - r.position)
      then ok (ending_after (read_negotiation r)) r
      else ok no_ending r

  unfoldable pub write_accept : DlcAccept → Write
  write_accept x = do
    write_u16_be accept_type
    write_u32_be x.protocol_version
    write_bytes x.temporary_contract_id
    write_u64_be x.accept_collateral
    write_bytes x.funding_pubkey
    write_spk x.payout_spk
    write_u64_be x.payout_serial_id
    write_counted (λ i. write_inner (write_funding_input_body i)) x.funding_inputs
    write_spk x.change_spk
    write_u64_be x.change_serial_id
    write_inner (write_cet_adaptor_signatures x.cet_adaptor_signatures)
    write_bytes x.refund_signature
    write_negotiation_option x.ending.negotiation_fields
    write_tail utf x.ending.tail

  unfoldable pub read_accept : Bool → Read DlcAccept
  read_accept parse_cets = do
    read_u16_be
    protocol_version ← read_u32_be
    temporary_contract_id ← read_bytes (some 32)
    accept_collateral ← read_u64_be
    funding_pubkey ← read_bytes (some 33)
    payout_spk ← read_spk
    payout_serial_id ← read_u64_be
    funding_inputs ← read_counted (read_ahead deserialize_funding_body serialize_funding_body)
    change_spk ← read_spk
    change_serial_id ← read_u64_be
    cet_adaptor_signatures ← read_cet_signatures parse_cets
    refund_signature ← read_bytes (some 64)
    ending ← read_ending
    pure (record {
      protocol_version = protocol_version;
      temporary_contract_id = temporary_contract_id;
      accept_collateral = accept_collateral;
      funding_pubkey = funding_pubkey;
      payout_spk = payout_spk;
      payout_serial_id = payout_serial_id;
      funding_inputs = funding_inputs;
      change_spk = change_spk;
      change_serial_id = change_serial_id;
      cet_adaptor_signatures = cet_adaptor_signatures;
      refund_signature = refund_signature;
      ending = ending;
      single_funded = accept_collateral == 0;
    })
