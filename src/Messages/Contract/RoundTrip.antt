-- ===== src/Messages/Contract/RoundTrip.antt =====
-- What a contract descriptor and a contract info write they read back, whatever bytes follow.
use node_dlc.Prelude.{ℕ, ◌^◌, ◌≤◌, ◌<◌, ◌≡◌, arith, List, ◌++◌, length, length-append, All, value}
use node_dlc.Bufio.Bytes.{be_bytes}
use node_dlc.Bufio.Reader.Reads.{Reads, Reads-bind, Reads-seq}
use node_dlc.Bufio.Reader.Finds.{Finds, Finds-bind, Finds-seq, Finds-map, Finds-result}
use node_dlc.Bufio.Reader.Numbers.{Reads-map, Reads-big_size, Reads-u16, Reads-u64}
use node_dlc.Bufio.Writer.Expand.{max_size}
use node_dlc.Bufio.Writer.Appends.{Appends, Appends-seq}
use node_dlc.Bufio.Writer.Numbers.{big_size, Appends-big_size, Appends-u16, Appends-u64}
use node_dlc.Bufio.RoundTrip.{Appends-output}
use node_dlc.Messages.Codec.{
  prefixed, counted, Finds-look_ahead, Appends-counted, Reads-counted, Appends-inner, Reads-ahead,
  Reads-result_front,
}
use node_dlc.Messages.Tagged.{tagged_front}
use node_dlc.Messages.Text.{Utf8, Utf8Laws, IsText, Appends-text, Reads-text}
use node_dlc.Messages.Payouts.RoundTrip.{
  IsInterval, interval_bytes, IsPoint, IsFunctionPiece, function_bytes, Appends-payout_function,
  Reads-payout_function, Appends-rounding_intervals, Reads-rounding_intervals,
}
use node_dlc.Messages.OracleInfo.{OracleInfo, single, multi}
use node_dlc.Messages.OracleInfo.RoundTrip.{IsOracleInfo, oracle_info_bytes}
use node_dlc.Messages.Contract.{
  OutcomePayout, NumericalDescriptor, ContractDescriptor, enumerated, numerical, ContractOraclePair,
  ContractInfo, single_info, disjoint_info, oracle_marker, write_numerical, serialize_function,
  deserialize_function, deserialize_intervals, read_numerical, write_outcome, read_outcome,
  write_contract_descriptor, read_enumerated, deserialize_contract_descriptor,
}

abbrev pub IsOutcome : OutcomePayout → Type 0
IsOutcome x = IsText x.outcome × (x.local_payout < 2 ^ 64)

abbrev pub outcome_bytes : OutcomePayout → List ℕ
outcome_bytes x = prefixed x.outcome ++ be_bytes 8 x.local_payout

pub record IsNumerical (x : NumericalDescriptor) : Type 0 where
  pub digits : x.num_digits < 2 ^ 16
  pub pieces : All IsFunctionPiece x.payout_function.pieces
  pub last : IsPoint x.payout_function.last_endpoint
  pub piece_count : length x.payout_function.pieces < 2 ^ 64
  pub intervals : All IsInterval x.rounding_intervals
  pub interval_count : length x.rounding_intervals < 2 ^ 64

abbrev pub IsContractDescriptor : ContractDescriptor → Type 0
IsContractDescriptor (enumerated outcomes) = (length outcomes < 2 ^ 64) × All IsOutcome outcomes
IsContractDescriptor (numerical x) = IsNumerical x

abbrev pub numerical_fields : NumericalDescriptor → List ℕ
numerical_fields x =
    be_bytes 2 x.num_digits
    ++ (function_bytes x.payout_function ++ counted interval_bytes x.rounding_intervals)

abbrev pub contract_descriptor_bytes : ContractDescriptor → List ℕ
contract_descriptor_bytes (enumerated outcomes) = big_size 0 ++ counted outcome_bytes outcomes
contract_descriptor_bytes (numerical x) = big_size 1 ++ numerical_fields x

abbrev pub oracle_tail : OracleInfo → List ℕ
oracle_tail x = big_size (oracle_marker x) ++ oracle_info_bytes x

abbrev pub pair_bytes : ContractOraclePair → List ℕ
pair_bytes x = contract_descriptor_bytes x.contract_descriptor ++ oracle_tail x.oracle_info

-- The parts are in range and fit in 2^30 bytes.
pub record IsPair (x : ContractOraclePair) : Type 0 where
  pub descriptor : IsContractDescriptor x.contract_descriptor
  pub oracle : IsOracleInfo x.oracle_info
  pub fits : length (pair_bytes x) ≤ max_size

abbrev pub IsContractInfo : ContractInfo → Type 0
IsContractInfo (single_info total pair) = (total < 2 ^ 64) × IsPair pair
IsContractInfo (disjoint_info total pairs) =
    (total < 2 ^ 64) × (length pairs < 2 ^ 64) × All IsPair pairs

abbrev pub contract_info_bytes : ContractInfo → List ℕ
contract_info_bytes (single_info total pair) = big_size 0 ++ (be_bytes 8 total ++ pair_bytes pair)
contract_info_bytes (disjoint_info total pairs) =
    big_size 1 ++ (be_bytes 8 total ++ counted pair_bytes pairs)

pub marker_small : (x : OracleInfo) → oracle_marker x < 2 ^ 64
unfolding oracle_marker
marker_small (single x) = omega arith
marker_small (multi x) = omega arith

module _ (x : NumericalDescriptor) (v : IsNumerical x) where
  Appends-numerical : Appends (write_numerical x) (contract_descriptor_bytes (numerical x))
  unfolding write_numerical
  Appends-numerical = Appends-seq (Appends-big_size 1 (omega arith)) (
      Appends-seq (Appends-u16 _ v.digits) (
        Appends-seq
          (Appends-inner (Appends-payout_function x.payout_function v.pieces v.last v.piece_count))
          (Appends-inner
            (Appends-rounding_intervals x.rounding_intervals v.intervals v.interval_count))))

  Finds-numerical :
      length (contract_descriptor_bytes (numerical x)) ≤ max_size
      → Finds read_numerical (contract_descriptor_bytes (numerical x)) (numerical x)
  unfolding read_numerical deserialize_function serialize_function deserialize_intervals
  Finds-numerical size =
      let small : length (function_bytes x.payout_function) ≤ max_size = omega (
        arith,
        length-append (big_size 1) (numerical_fields x),
        length-append (be_bytes 2 x.num_digits)
            (function_bytes x.payout_function ++ counted interval_bytes x.rounding_intervals),
        length-append (function_bytes x.payout_function)
            (counted interval_bytes x.rounding_intervals),
      ) in
      Finds-seq (Reads-big_size 1 (omega arith)) (
        Finds-bind _ (Reads-u16 _ v.digits) (
          Finds-bind _
            (Reads-ahead deserialize_function serialize_function (function_bytes x.payout_function)
              x.payout_function
              (Reads-result_front
                (Reads-payout_function x.payout_function v.pieces v.last v.piece_count))
              (Appends-output _ _
                (Appends-payout_function x.payout_function v.pieces v.last v.piece_count) small))
            (Finds-map _ (
              Finds-look_ahead deserialize_intervals (counted interval_bytes x.rounding_intervals) (
                Reads-result_front
                  (Reads-rounding_intervals x.rounding_intervals v.intervals v.interval_count))))))

module _ (utf : Utf8) (laws : Utf8Laws utf) where
  Appends-outcome :
      (x : OutcomePayout) → IsOutcome x → Appends (write_outcome utf x) (outcome_bytes x)
  unfolding write_outcome
  Appends-outcome x (t, p) = Appends-seq (Appends-text utf laws x.outcome t) (Appends-u64 _ p)

  Reads-outcome : (x : OutcomePayout) → IsOutcome x → Reads (read_outcome utf) (outcome_bytes x) x
  unfolding read_outcome
  Reads-outcome x (t, p) =
      Reads-bind _ (Reads-text utf laws x.outcome t) (Reads-map _ (Reads-u64 _ p))

  pub Appends-contract_descriptor :
      (x : ContractDescriptor)
      → IsContractDescriptor x
      → Appends (write_contract_descriptor utf x) (contract_descriptor_bytes x)
  unfolding write_contract_descriptor
  Appends-contract_descriptor (enumerated outcomes) (h, valid) =
      Appends-seq (Appends-big_size 0 (omega arith))
        (Appends-counted outcome_bytes outcomes (write_outcome utf) Appends-outcome h valid)
  Appends-contract_descriptor (numerical x) v = Appends-numerical x v

  Reads-enumerated :
      (outcomes : List OutcomePayout)
      → IsContractDescriptor (enumerated outcomes)
      → Reads
          (read_enumerated utf)
          (contract_descriptor_bytes (enumerated outcomes))
          (enumerated outcomes)
  unfolding read_enumerated
  Reads-enumerated outcomes (h, valid) = Reads-seq (Reads-big_size 0 (omega arith)) (
      Reads-map enumerated
        (Reads-counted outcome_bytes outcomes (read_outcome utf) Reads-outcome h valid))

  pub deserialize_contract_descriptor_lem :
      (x : ContractDescriptor) (rest : List ℕ)
      → IsContractDescriptor x
      → length (contract_descriptor_bytes x) ≤ max_size
      → deserialize_contract_descriptor utf (contract_descriptor_bytes x ++ rest) ≡ value x
  unfolding deserialize_contract_descriptor
  deserialize_contract_descriptor_lem (enumerated outcomes) rest v size =
      rw (tagged_front 0 (omega arith) (counted outcome_bytes outcomes) rest)
        (Reads-result_front (Reads-enumerated outcomes v) rest)
  deserialize_contract_descriptor_lem (numerical x) rest v size =
      rw (tagged_front 1 (omega arith) (numerical_fields x) rest)
        (Finds-result (Finds-numerical x v size) rest)
