-- ===== src/Messages/Contract/Infos.antt =====
-- What a contract info writes it reads back, whatever bytes follow.
use node_dlc.Prelude.{ℕ, ◌≤◌, ◌≡◌, arith, List, ◌++◌, length, length-append, value, and_then}
use node_dlc.Bufio.Bytes.{be_bytes}
use node_dlc.Bufio.Reader.Reads.{Reads, Reads-bind, Reads-seq}
use node_dlc.Bufio.Reader.Finds.{Finds, Finds-bind, Finds-seq, Finds-map, Finds-result}
use node_dlc.Bufio.Reader.Numbers.{Reads-map, Reads-big_size, Reads-u64}
use node_dlc.Bufio.Writer.Expand.{max_size}
use node_dlc.Bufio.Writer.Appends.{Appends, Appends-seq, Appends-write_bytes}
use node_dlc.Bufio.Writer.Numbers.{big_size, Appends-big_size, Appends-u64}
use node_dlc.Bufio.RoundTrip.{Appends-output}
use node_dlc.Messages.Codec.{
  counted, read_ahead, look_ahead, Finds-look_ahead, Appends-counted, Reads-counted, Appends-inner,
  Appends-lift, Reads-ahead, Reads-result_front,
}
use node_dlc.Messages.Tagged.{tagged_front}
use node_dlc.Messages.Text.{Utf8, Utf8Laws}
use node_dlc.Messages.OracleInfo.{OracleInfo, single, multi, serialize_oracle_body}
use node_dlc.Messages.OracleInfo.RoundTrip.{
  IsOracleInfo, oracle_info_bytes, serialize_oracle_lem, deserialize_single_lem,
  deserialize_multi_lem,
}
use node_dlc.Messages.Contract.{
  ContractOraclePair, ContractInfo, single_info, disjoint_info, oracle_marker,
  serialize_contract_descriptor, deserialize_contract_descriptor, write_pair, oracle_by, read_pair,
  write_contract_info, read_single_info, read_disjoint_info, serialize_contract_info,
  deserialize_contract_info,
}
use node_dlc.Messages.Contract.EndPoints.{cleared_info, serialize_contract_info-cleared}
use node_dlc.Messages.Contract.RoundTrip.{
  contract_descriptor_bytes, oracle_tail, pair_bytes, IsPair, IsContractInfo, contract_info_bytes,
  marker_small, Appends-contract_descriptor, deserialize_contract_descriptor_lem,
}

module _ (utf : Utf8) (laws : Utf8Laws utf) where
  module _ (x : ContractOraclePair) (v : IsPair x) where
    oracle_fits : length (oracle_info_bytes x.oracle_info) ≤ max_size
    oracle_fits = omega (
      arith,
      v.fits,
      length-append (contract_descriptor_bytes x.contract_descriptor) (oracle_tail x.oracle_info),
      length-append (big_size (oracle_marker x.oracle_info)) (oracle_info_bytes x.oracle_info),
    )

    Appends-pair : Appends (write_pair utf x) (pair_bytes x)
    unfolding write_pair
    Appends-pair =
        Appends-seq
          (Appends-inner (Appends-contract_descriptor utf laws x.contract_descriptor v.descriptor))
          (Appends-seq (Appends-big_size _ (marker_small x.oracle_info)) (
            Appends-lift _ (serialize_oracle_lem utf laws x.oracle_info v.oracle oracle_fits)
              (Appends-write_bytes (oracle_info_bytes x.oracle_info))))

    -- The first part, which is read ahead.
    Reads-pair_descriptor :
        Reads
          (read_ahead (deserialize_contract_descriptor utf) (serialize_contract_descriptor utf))
          (contract_descriptor_bytes x.contract_descriptor)
          x.contract_descriptor
    unfolding serialize_contract_descriptor
    Reads-pair_descriptor =
        let small : length (contract_descriptor_bytes x.contract_descriptor) ≤ max_size = omega (
          arith,
          v.fits,
          length-append (contract_descriptor_bytes x.contract_descriptor)
              (oracle_tail x.oracle_info),
        ) in
        Reads-ahead _ _ _ x.contract_descriptor
          (λ rest.
            deserialize_contract_descriptor_lem utf laws x.contract_descriptor rest v.descriptor
              small)
          (Appends-output _ _
            (Appends-contract_descriptor utf laws x.contract_descriptor v.descriptor) small)

  Finds-oracle :
      (x : OracleInfo)
      → IsOracleInfo x
      → length (oracle_info_bytes x) ≤ max_size
      → Finds (oracle_by utf look_ahead (oracle_marker x)) (oracle_info_bytes x) x
  unfolding oracle_by oracle_marker
  Finds-oracle (single x) v size =
      Finds-look_ahead _ _ (λ rest. deserialize_single_lem utf laws rest x v size)
  Finds-oracle (multi x) v size =
      Finds-look_ahead _ _ (λ rest. deserialize_multi_lem utf laws rest x v)

  Reads-oracle :
      (x : OracleInfo)
      → IsOracleInfo x
      → length (oracle_info_bytes x) ≤ max_size
      → Reads
          (oracle_by utf (λ d. read_ahead d (serialize_oracle_body utf)) (oracle_marker x))
          (oracle_info_bytes x)
          x
  unfolding oracle_by oracle_marker
  Reads-oracle (single x) v size =
      Reads-ahead _ _ _ (single x) (λ rest. deserialize_single_lem utf laws rest x v size)
        (serialize_oracle_lem utf laws (single x) v size)
  Reads-oracle (multi x) v size =
      Reads-ahead _ _ _ (multi x) (λ rest. deserialize_multi_lem utf laws rest x v)
        (serialize_oracle_lem utf laws (multi x) v size)

  module _ (x : ContractOraclePair) (v : IsPair x) where
    Finds-pair : Finds (read_pair utf look_ahead) (pair_bytes x) x
    unfolding read_pair
    Finds-pair = Finds-bind _ (Reads-pair_descriptor x v) (
        Finds-bind _ (Reads-big_size _ (marker_small x.oracle_info))
          (Finds-map _ (Finds-oracle x.oracle_info v.oracle (oracle_fits x v))))

    Reads-pair :
        Reads (read_pair utf (λ d. read_ahead d (serialize_oracle_body utf))) (pair_bytes x) x
    unfolding read_pair
    Reads-pair = Reads-bind _ (Reads-pair_descriptor x v) (
        Reads-bind _ (Reads-big_size _ (marker_small x.oracle_info))
          (Reads-map _ (Reads-oracle x.oracle_info v.oracle (oracle_fits x v))))

  Appends-contract_info :
      (x : ContractInfo)
      → IsContractInfo x
      → Appends (write_contract_info utf x) (contract_info_bytes x)
  unfolding write_contract_info
  Appends-contract_info (single_info total pair) (h, v) =
      Appends-seq (Appends-big_size 0 (omega arith))
        (Appends-seq (Appends-u64 _ h) (Appends-pair pair v))
  Appends-contract_info (disjoint_info total pairs) (h, n, v) =
      Appends-seq (Appends-big_size 1 (omega arith)) (
        Appends-seq (Appends-u64 _ h)
          (Appends-counted pair_bytes pairs (write_pair utf) Appends-pair n v))

  Finds-single_info :
      (total : ℕ) (pair : ContractOraclePair)
      → IsContractInfo (single_info total pair)
      → Finds
          (read_single_info utf)
          (contract_info_bytes (single_info total pair))
          (single_info total pair)
  unfolding read_single_info
  Finds-single_info total pair (h, v) =
      Finds-seq (Reads-big_size 0 (omega arith))
        (Finds-bind _ (Reads-u64 _ h) (Finds-map _ (Finds-pair pair v)))

  Reads-disjoint_info :
      (total : ℕ) (pairs : List ContractOraclePair)
      → IsContractInfo (disjoint_info total pairs)
      → Reads
          (read_disjoint_info utf)
          (contract_info_bytes (disjoint_info total pairs))
          (disjoint_info total pairs)
  unfolding read_disjoint_info
  Reads-disjoint_info total pairs (h, n, v) =
      Reads-seq (Reads-big_size 1 (omega arith)) (
        Reads-bind _ (Reads-u64 _ h)
          (Reads-map _ (Reads-counted pair_bytes pairs _ Reads-pair n v)))

  module _ (x : ContractInfo) where
    pub serialize_contract_info_lem :
        IsContractInfo x
        → length (contract_info_bytes x) ≤ max_size
        → serialize_contract_info utf x ≡ value (contract_info_bytes x)
    unfolding serialize_contract_info
    serialize_contract_info_lem v size = Appends-output _ _ (Appends-contract_info x v) size

  pub deserialize_contract_info_lem :
      (x : ContractInfo) (rest : List ℕ)
      → IsContractInfo x
      → deserialize_contract_info utf (contract_info_bytes x ++ rest) ≡ value x
  unfolding deserialize_contract_info
  deserialize_contract_info_lem (single_info total pair) rest v =
      rw (tagged_front 0 (omega arith) (be_bytes 8 total ++ pair_bytes pair) rest)
        (Finds-result (Finds-single_info total pair v) rest)
  deserialize_contract_info_lem (disjoint_info total pairs) rest v =
      rw (tagged_front 1 (omega arith) (be_bytes 8 total ++ counted pair_bytes pairs) rest)
        (Reads-result_front (Reads-disjoint_info total pairs v) rest)

  -- Of every contract info of a single contract or of several, enumerated or numerical, with one
  -- oracle or several, with fields in range and ASCII texts, that fits in 2^30 bytes, deserialize
  -- returns it from what serialize wrote, whatever bytes follow, with nothing changed but the end
  -- points of hyperbolas, which are zeros.
  pub deserialize-serialize_contract_info :
      (x : ContractInfo) (rest : List ℕ)
      → IsContractInfo (cleared_info x)
      → length (contract_info_bytes (cleared_info x)) ≤ max_size
      → and_then
          (serialize_contract_info utf x)
          (λ out. deserialize_contract_info utf (out ++ rest))
        ≡ value (cleared_info x)
  deserialize-serialize_contract_info x rest v size =
      let y = cleared_info x in
      rw (← serialize_contract_info-cleared utf x, serialize_contract_info_lem y v size)
        (deserialize_contract_info_lem y rest v)
