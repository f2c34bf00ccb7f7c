-- ===== src/Messages/Contract/EndPoints.antt =====
-- The end points of the hyperbolas in a contract of
-- packages/messaging/lib/messages/ContractInfo.ts, which are not written.
use node_dlc.Prelude.{◌≡◌, refl, ap, map, ◌>>=◌, ◌>>◌, lift}
use node_dlc.Bufio.Writer.{Write, write_bytes, write_big_size, write_u16_be, write_u64_be, output}
use node_dlc.Messages.Codec.{write_inner, write_counted-map}
use node_dlc.Messages.Text.{Utf8}
use node_dlc.Messages.Payouts.{write_rounding_intervals}
use node_dlc.Messages.Payouts.EndPoints.{cleared_function, write_payout_function-cleared}
use node_dlc.Messages.OracleInfo.{serialize_oracle_body}
use node_dlc.Messages.Contract.{
  ContractDescriptor, enumerated, numerical, ContractOraclePair, ContractInfo, single_info,
  disjoint_info, oracle_marker, write_numerical, write_contract_descriptor, write_pair,
  write_contract_info, serialize_contract_info,
}

abbrev pub cleared_descriptor : ContractDescriptor → ContractDescriptor
cleared_descriptor (enumerated outcomes) = enumerated outcomes
cleared_descriptor (numerical x) =
    numerical (record x { payout_function = cleared_function x.payout_function })

abbrev pub cleared_pair : ContractOraclePair → ContractOraclePair
cleared_pair x = record x { contract_descriptor = cleared_descriptor x.contract_descriptor }

abbrev pub cleared_info : ContractInfo → ContractInfo
cleared_info (single_info total pair) = single_info total (cleared_pair pair)
cleared_info (disjoint_info total pairs) = disjoint_info total (map cleared_pair pairs)

module _ (utf : Utf8) where
  write_descriptor-cleared :
      (x : ContractDescriptor)
      → write_contract_descriptor utf (cleared_descriptor x) ≡ write_contract_descriptor utf x
  unfolding write_contract_descriptor write_numerical
  write_descriptor-cleared (enumerated outcomes) = refl
  write_descriptor-cleared (numerical x) =
      ap {B = Write}
        (λ m. do
          write_big_size 1
          write_u16_be x.num_digits
          write_inner m
          write_inner (write_rounding_intervals x.rounding_intervals))
        (write_payout_function-cleared x.payout_function)

  write_pair-cleared : (x : ContractOraclePair) → write_pair utf (cleared_pair x) ≡ write_pair utf x
  unfolding write_pair
  write_pair-cleared x =
      ap {B = Write}
        (λ m. do
          write_inner m
          write_big_size (oracle_marker x.oracle_info)
          body ← lift (serialize_oracle_body utf x.oracle_info)
          write_bytes body)
        (write_descriptor-cleared x.contract_descriptor)

  write_contract_info-cleared :
      (x : ContractInfo) → write_contract_info utf (cleared_info x) ≡ write_contract_info utf x
  unfolding write_contract_info
  write_contract_info-cleared (single_info total pair) =
      ap {B = Write} (λ m. do write_big_size 0; write_u64_be total; m) (write_pair-cleared pair)
  write_contract_info-cleared (disjoint_info total pairs) =
      ap {B = Write} (λ m. do write_big_size 1; write_u64_be total; m)
        (write_counted-map (write_pair utf) cleared_pair write_pair-cleared pairs)

  pub serialize_contract_info-cleared :
      (x : ContractInfo)
      → serialize_contract_info utf (cleared_info x) ≡ serialize_contract_info utf x
  unfolding serialize_contract_info
  serialize_contract_info-cleared x = ap output (write_contract_info-cleared x)
