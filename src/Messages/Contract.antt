-- ===== src/Messages/Contract.antt =====
-- packages/messaging/lib/messages/ContractDescriptor.ts and ContractInfo.ts. The type of a message
-- is looked at with a reader of its own, and a nested message is read from a copy of what lies
-- ahead, before the position moves by as much as it takes to write it.
pub mod EndPoints
pub mod RoundTrip
pub mod Infos
pub mod Validate
use node_dlc.Prelude.{
  ℕ, ◌+◌, some, List, length, ltb, ◌==◌, if◌then◌else◌, bad_type, bad_value, Result, value, error,
  and_then, lift, result, ◌>>=◌, ◌>>◌, pure, throw, [], ◌∷◌,
}
use node_dlc.Bufio.Reader.{Read, reader, read_big_size, read_u16_be, read_u64_be}
use node_dlc.Bufio.Writer.{Write, output, write_bytes, write_big_size, write_u16_be, write_u64_be}
use node_dlc.Messages.Codec.{write_counted, read_counted, write_inner, read_ahead, look_ahead}
use node_dlc.Messages.Text.{Utf8, write_text, read_text}
use node_dlc.Messages.Payouts.{
  Interval, write_rounding_intervals, read_rounding_intervals, PayoutFunction,
  write_payout_function, read_payout_function,
}
use node_dlc.Messages.OracleInfo.{
  OracleInfo, single, multi, serialize_oracle_body, deserialize_single_body, deserialize_multi_body,
}

pub record OutcomePayout : Type 0 where
  pub outcome : List ℕ
  pub local_payout : ℕ

pub record NumericalDescriptor : Type 0 where
  pub num_digits : ℕ
  pub payout_function : PayoutFunction
  pub rounding_intervals : List Interval

pub data ContractDescriptor : Type 0 where
  enumerated : List OutcomePayout → ContractDescriptor
  numerical : NumericalDescriptor → ContractDescriptor

pub record ContractOraclePair : Type 0 where
  pub contract_descriptor : ContractDescriptor
  pub oracle_info : OracleInfo

pub data ContractInfo : Type 0 where
  single_info : ℕ → ContractOraclePair → ContractInfo
  disjoint_info : ℕ → List ContractOraclePair → ContractInfo

unfoldable pub get_total_collateral : ContractInfo → ℕ
get_total_collateral (single_info total pair) = total
get_total_collateral (disjoint_info total pairs) = total

-- The marker of a single oracle or several.
unfoldable pub oracle_marker : OracleInfo → ℕ
oracle_marker (single x) = 0
oracle_marker (multi x) = 1

unfoldable pub write_numerical : NumericalDescriptor → Write
write_numerical x = do
  write_big_size 1
  write_u16_be x.num_digits
  write_inner (write_payout_function x.payout_function)
  write_inner (write_rounding_intervals x.rounding_intervals)

unfoldable pub serialize_function : PayoutFunction → Result (List ℕ)
serialize_function x = output (write_payout_function x)

unfoldable pub deserialize_function : List ℕ → Result PayoutFunction
deserialize_function buf = result (read_payout_function (reader buf))

unfoldable pub deserialize_intervals : List ℕ → Result (List Interval)
deserialize_intervals buf = result (read_rounding_intervals (reader buf))

unfoldable pub read_numerical : Read ContractDescriptor
read_numerical = do
  read_big_size
  num_digits ← read_u16_be
  payout_function ← read_ahead deserialize_function serialize_function
  rounding_intervals ← look_ahead deserialize_intervals
  pure (
      numerical (record {
        num_digits = num_digits;
        payout_function = payout_function;
        rounding_intervals = rounding_intervals;
      }))

module _ (utf : Utf8) where
  unfoldable pub write_outcome : OutcomePayout → Write
  write_outcome x = do write_text utf x.outcome; write_u64_be x.local_payout

  unfoldable pub read_outcome : Read OutcomePayout
  read_outcome = do
    outcome ← read_text utf
    local_payout ← read_u64_be
    pure (record { outcome = outcome; local_payout = local_payout })

  unfoldable pub write_contract_descriptor : ContractDescriptor → Write
  write_contract_descriptor (enumerated outcomes) = do
    write_big_size 0
    write_counted write_outcome outcomes
  write_contract_descriptor (numerical x) = write_numerical x

  unfoldable pub read_enumerated : Read ContractDescriptor
  read_enumerated = do
    read_big_size
    outcomes ← read_counted read_outcome
    pure (enumerated outcomes)

  unfoldable pub serialize_contract_descriptor : ContractDescriptor → Result (List ℕ)
  serialize_contract_descriptor x = output (write_contract_descriptor x)

  unfoldable pub deserialize_contract_descriptor : List ℕ → Result ContractDescriptor
  deserialize_contract_descriptor buf = and_then (result (read_big_size (reader buf))) (λ type_id.
      if type_id == 0
      then result (read_enumerated (reader buf))
      else if type_id == 1
      then result (read_numerical (reader buf))
      else error bad_type)

  unfoldable pub write_pair : ContractOraclePair → Write
  write_pair x = do
    write_inner (write_contract_descriptor x.contract_descriptor)
    write_big_size (oracle_marker x.oracle_info)
    body ← lift (serialize_oracle_body utf x.oracle_info)
    write_bytes body

  unfoldable pub oracle_by : ((List ℕ → Result OracleInfo) → Read OracleInfo) → ℕ → Read OracleInfo
  oracle_by look oracle_type =
      if oracle_type == 0
      then look (deserialize_single_body utf)
      else if oracle_type == 1
      then look (deserialize_multi_body utf)
      else throw bad_type

  -- How the oracle info is looked at differs: a single contract ends with it, and does not move on.
  unfoldable pub read_pair :
      ((List ℕ → Result OracleInfo) → Read OracleInfo) → Read ContractOraclePair
  read_pair look = do
    contract_descriptor ← read_ahead deserialize_contract_descriptor serialize_contract_descriptor
    oracle_type ← read_big_size
    oracle_info ← oracle_by look oracle_type
    pure (record { contract_descriptor = contract_descriptor; oracle_info = oracle_info })

  unfoldable pub write_contract_info : ContractInfo → Write
  write_contract_info (single_info total pair) = do
    write_big_size 0
    write_u64_be total
    write_pair pair
  write_contract_info (disjoint_info total pairs) = do
    write_big_size 1
    write_u64_be total
    write_counted write_pair pairs

  unfoldable pub read_single_info : Read ContractInfo
  read_single_info = do
    read_big_size
    total ← read_u64_be
    pair ← read_pair look_ahead
    pure (single_info total pair)

  unfoldable pub read_disjoint_info : Read ContractInfo
  read_disjoint_info = do
    read_big_size
    total ← read_u64_be
    pairs ← read_counted (read_pair (λ d. read_ahead d (serialize_oracle_body utf)))
    pure (disjoint_info total pairs)

  unfoldable pub serialize_contract_info : ContractInfo → Result (List ℕ)
  serialize_contract_info x = output (write_contract_info x)

  unfoldable pub deserialize_contract_info : List ℕ → Result ContractInfo
  deserialize_contract_info buf = and_then (result (read_big_size (reader buf))) (λ type_id.
      if type_id == 0
      then result (read_single_info (reader buf))
      else if type_id == 1
      then result (read_disjoint_info (reader buf))
      else error bad_type)
