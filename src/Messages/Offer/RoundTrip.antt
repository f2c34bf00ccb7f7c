-- ===== src/Messages/Offer/RoundTrip.antt =====
-- What an offer writes it reads back, in the present format and from the one with no version.
use node_dlc.Prelude.{
  ℕ, refl, ◌^◌, ◌≤◌, ◌<◌, ◌≡◌, ◌⊎◌, sym, ap, subst, ◌∙◌, arith, List, ◌++◌, length, length-append,
  length-take, take, take-append-drop, drop, append_assoc, All, ◌==◌, value, and_then, ◌>>=◌, ◌>>◌,
}
use node_dlc.Bufio.Bytes.{be_bytes, be_value}
use node_dlc.Bufio.Reader.Reads.{
  Reads, ReadsEnd, Reads-bind, Reads-bind_end, Reads-seq_end, Reads-pure, ReadsEnd-map,
  Reads-result, Reads-bytes,
}
use node_dlc.Bufio.Reader.Finds.{Finds-result}
use node_dlc.Bufio.Reader.Numbers.{Reads-exactly, Reads-u16, Reads-u32, Reads-u64}
use node_dlc.Bufio.Writer.{write_u32_be, write_u64_be}
use node_dlc.Bufio.Writer.Expand.{max_size}
use node_dlc.Bufio.Writer.Appends.{Appends, Appends-seq, Appends-write_bytes}
use node_dlc.Bufio.Writer.Numbers.{Appends-u16, Appends-u32, Appends-u64}
use node_dlc.Bufio.RoundTrip.{round_trip}
use node_dlc.Messages.Codec.{
  counted, write_counted, write_inner, read_ahead, Appends-counted, Reads-counted, Appends-inner,
  Appends-lift, Reads-ahead,
}
use node_dlc.Messages.Text.{Utf8, Utf8Laws}
use node_dlc.Messages.Inputs.{FundingInput, write_funding_input_body}
use node_dlc.Messages.Inputs.Ahead.{
  funding_body_bytes, IsEmbedded, Appends-funding_body, serialize_funding_body_lem,
  Finds-funding_body,
}
use node_dlc.Messages.Contract.{get_total_collateral}
use node_dlc.Messages.Contract.RoundTrip.{IsContractInfo, contract_info_bytes}
use node_dlc.Messages.Contract.EndPoints.{cleared_info, serialize_contract_info-cleared}
use node_dlc.Messages.Contract.Infos.{serialize_contract_info_lem, deserialize_contract_info_lem}
use node_dlc.Messages.Offer.{
  offer_type, DlcOffer, serialize_funding_body, deserialize_funding_body, write_spk, read_spk,
  check, read_version, write_extras, write_offer, read_offer_fields, read_offer, serialize_offer,
  deserialize_offer,
}
use node_dlc.Messages.Offer.Stream.{IsExtras, extras_bytes, Appends-extras}
use node_dlc.Messages.Offer.Taken.{ReadsEnd-extras}
use node_dlc.Messages.Offer.Version.{IsVersion, Reads-version, ReadsEnd-no_version}

-- Fields of the sizes that are read, numbers in range, and all that is nested valid.
pub record IsOffer (x : DlcOffer) : Type 0 where
  pub flags : length x.contract_flags ≡ 1
  pub chain : length x.chain_hash ≡ 32
  pub id : length x.temporary_contract_id ≡ 32
  pub contract : IsContractInfo x.contract_info
  pub contract_fits : length (contract_info_bytes x.contract_info) ≤ max_size
  pub key : length x.funding_pubkey ≡ 33
  pub payout_spk : length x.payout_spk < 2 ^ 16
  pub payout_serial : x.payout_serial_id < 2 ^ 64
  pub collateral : x.offer_collateral < 2 ^ 64
  pub input_count : length x.funding_inputs < 2 ^ 64
  pub inputs : All IsEmbedded x.funding_inputs
  pub change_spk : length x.change_spk < 2 ^ 16
  pub change_serial : x.change_serial_id < 2 ^ 64
  pub output_serial : x.fund_output_serial_id < 2 ^ 64
  pub fee_rate : x.fee_rate_per_vb < 2 ^ 64
  pub cet : x.cet_locktime < 2 ^ 32
  pub refund : x.refund_locktime < 2 ^ 32
  pub extras : IsExtras x.extras
  pub single : x.single_funded ≡ (get_total_collateral x.contract_info == x.offer_collateral)

abbrev pub spk_bytes : List ℕ → List ℕ
spk_bytes bs = be_bytes 2 (length bs) ++ bs

-- From the inputs to the end.
abbrev pub offer_tail : DlcOffer → List ℕ
offer_tail x =
    counted funding_body_bytes x.funding_inputs
    ++ (spk_bytes x.change_spk
        ++ (be_bytes 8 x.change_serial_id
            ++ (be_bytes 8 x.fund_output_serial_id
                ++ (be_bytes 8 x.fee_rate_per_vb
                    ++ (be_bytes 4 x.cet_locktime
                        ++ (be_bytes 4 x.refund_locktime ++ extras_bytes x.extras))))))

-- All that comes after the flags and the chain.
abbrev pub offer_rest : DlcOffer → List ℕ
offer_rest x =
    x.temporary_contract_id
    ++ (contract_info_bytes x.contract_info
        ++ (x.funding_pubkey
            ++ (spk_bytes x.payout_spk
                ++ (be_bytes 8 x.payout_serial_id
                    ++ (be_bytes 8 x.offer_collateral ++ offer_tail x)))))

abbrev pub offer_fields : DlcOffer → List ℕ
offer_fields x = x.contract_flags ++ (x.chain_hash ++ offer_rest x)

abbrev pub offer_bytes : DlcOffer → List ℕ
offer_bytes x = be_bytes 2 offer_type ++ (be_bytes 4 x.protocol_version ++ offer_fields x)

pub Appends-spk : (bs : List ℕ) → length bs < 2 ^ 16 → Appends (write_spk bs) (spk_bytes bs)
unfolding write_spk
Appends-spk bs h = Appends-seq (Appends-u16 _ h) (Appends-write_bytes bs)

pub Reads-spk : (bs : List ℕ) → length bs < 2 ^ 16 → Reads read_spk (spk_bytes bs) bs
unfolding read_spk
Reads-spk bs h = Reads-bind _ (Reads-u16 _ h) (Reads-bytes bs)

pub Reads-input :
    (x : FundingInput)
    → IsEmbedded x
    → Reads (read_ahead deserialize_funding_body serialize_funding_body) (funding_body_bytes x) x
unfolding deserialize_funding_body serialize_funding_body
Reads-input x v =
    Reads-ahead _ _ _ x (Finds-result (Finds-funding_body x v)) (serialize_funding_body_lem x v)

module _ (utf : Utf8) (laws : Utf8Laws utf) (x : DlcOffer) (v : IsOffer x) where
  Appends-offer : x.protocol_version < 2 ^ 32 → Appends (write_offer utf x) (offer_bytes x)
  unfolding write_offer
  Appends-offer h = Appends-seq (Appends-u16 offer_type (omega arith)) (
      Appends-seq (Appends-u32 _ h) (
        Appends-seq (Appends-write_bytes x.contract_flags) (
          Appends-seq (Appends-write_bytes x.chain_hash) (
            Appends-seq (Appends-write_bytes x.temporary_contract_id) (
              Appends-lift _
                (serialize_contract_info_lem utf laws x.contract_info v.contract v.contract_fits)
                (Appends-seq (Appends-write_bytes (contract_info_bytes x.contract_info)) (
                  Appends-seq (Appends-write_bytes x.funding_pubkey) (
                    Appends-seq (Appends-spk x.payout_spk v.payout_spk) (
                      Appends-seq (Appends-u64 _ v.payout_serial)
                        (Appends-seq (Appends-u64 _ v.collateral) Appends-later))))))))))
    where
      Appends-later :
          Appends
            (do
              write_counted (λ i. write_inner (write_funding_input_body i)) x.funding_inputs
              write_spk x.change_spk
              write_u64_be x.change_serial_id
              write_u64_be x.fund_output_serial_id
              write_u64_be x.fee_rate_per_vb
              write_u32_be x.cet_locktime
              write_u32_be x.refund_locktime
              write_extras utf x.extras)
            (offer_tail x)
      Appends-later =
          Appends-seq
            (Appends-counted funding_body_bytes x.funding_inputs _
              (λ i p. Appends-inner (Appends-funding_body i p)) v.input_count v.inputs)
            (Appends-seq (Appends-spk x.change_spk v.change_spk) (
              Appends-seq (Appends-u64 _ v.change_serial) (
                Appends-seq (Appends-u64 _ v.output_serial) (
                  Appends-seq (Appends-u64 _ v.fee_rate) (
                    Appends-seq (Appends-u32 _ v.cet) (
                      Appends-seq (Appends-u32 _ v.refund)
                        (Appends-extras utf laws x.extras v.extras)))))))

  ReadsEnd-offer_fields :
      (version : ℕ)
      → ReadsEnd
          (read_offer_fields utf version)
          (offer_fields x)
          (record x { protocol_version = version })
  unfolding read_offer_fields
  ReadsEnd-offer_fields version =
      subst
        (λ b.
          ReadsEnd (read_offer_fields utf version) (offer_fields x)
            (record x { protocol_version = version; single_funded = b }))
        (sym v.single)
        (Reads-bind_end _ (Reads-exactly 1 x.contract_flags v.flags) (
          Reads-bind_end _ (Reads-exactly 32 x.chain_hash v.chain) (
            Reads-bind_end _ (Reads-exactly 32 x.temporary_contract_id v.id) (
              Reads-bind_end _
                (Reads-ahead _ _ _ x.contract_info
                  (λ rest. deserialize_contract_info_lem utf laws x.contract_info rest v.contract)
                  (serialize_contract_info_lem utf laws x.contract_info v.contract v.contract_fits))
                (Reads-bind_end _ (Reads-exactly 33 x.funding_pubkey v.key) (
                  Reads-bind_end _ (Reads-spk x.payout_spk v.payout_spk) (
                    Reads-bind_end _ (Reads-u64 _ v.payout_serial) (
                      Reads-bind_end _ (Reads-u64 _ v.collateral) (
                        Reads-bind_end _
                          (Reads-counted funding_body_bytes x.funding_inputs _ Reads-input
                            v.input_count v.inputs)
                          (Reads-bind_end _ (Reads-spk x.change_spk v.change_spk) (
                            Reads-bind_end _ (Reads-u64 _ v.change_serial) (
                              Reads-bind_end _ (Reads-u64 _ v.output_serial) (
                                Reads-bind_end _ (Reads-u64 _ v.fee_rate) (
                                  Reads-bind_end _ (Reads-u32 _ v.cet) (
                                    Reads-bind_end _ (Reads-u32 _ v.refund) (
                                      ReadsEnd-map _
                                        (ReadsEnd-extras utf laws x.extras v.extras)))))))))))))))))

  deserialize-serialize_cleared :
      IsVersion x.protocol_version
      → length (offer_bytes x) ≤ max_size
      → and_then (serialize_offer utf x) (deserialize_offer utf) ≡ value x
  unfolding serialize_offer deserialize_offer read_offer check
  deserialize-serialize_cleared version size =
      round_trip _ _ (offer_bytes x) x (Appends-offer (omega (arith, version.1)))
        (Reads-bind_end _ (Reads-u16 offer_type (omega arith)) (
          Reads-seq_end (Reads-pure tt) (
            Reads-bind_end _ (Reads-version x.protocol_version version)
              (ReadsEnd-offer_fields x.protocol_version))))
        size

  -- Of every offer whose fields are in range and whose texts are ASCII, with its mark of a single
  -- funded contract set exactly when its collateral is the total and its unknown TLVs not of a
  -- known type, whose hyperbolas have zeros for their end points, written in the old format
  -- without a version, deserialize returns it with the version 1 when the first four bytes of its
  -- flags and chain hash are no number from 1 to 10.
  pub deserialize_offer_old :
      (be_value (take 4 (x.contract_flags ++ x.chain_hash)) < 1)
        ⊎ (10 < be_value (take 4 (x.contract_flags ++ x.chain_hash)))
      → deserialize_offer utf (be_bytes 2 offer_type ++ offer_fields x)
        ≡ value (record x { protocol_version = 1 })
  unfolding deserialize_offer read_offer check
  deserialize_offer_old outside =
      let front = x.contract_flags ++ x.chain_hash in
      let rest = offer_rest x in
      let n : length (take 4 front) ≡ 4 = omega (
        arith,
        length-take 4 front,
        length-append x.contract_flags x.chain_hash,
        v.flags,
        v.chain,
      ) in
      let same : take 4 front ++ (drop 4 front ++ rest) ≡ offer_fields x =
        sym (append_assoc (take 4 front) (drop 4 front) rest)
        ∙ ap (λ f. f ++ rest) (take-append-drop 4 front)
        ∙ append_assoc x.contract_flags x.chain_hash rest in
      Reads-result (
        Reads-bind_end _ (Reads-u16 offer_type (omega arith)) (
          Reads-seq_end (Reads-pure tt) (
            subst
              (λ bs.
                ReadsEnd (read_version >>= read_offer_fields utf) bs
                  (record x { protocol_version = 1 }))
              same
              (ReadsEnd-no_version (read_offer_fields utf) (take 4 front) (drop 4 front ++ rest) n
                outside
                (subst
                  (λ bs. ReadsEnd (read_offer_fields utf 1) bs (record x { protocol_version = 1 }))
                  (sym same) (ReadsEnd-offer_fields 1))))))

-- With zeros for the end points of the hyperbolas in the contract, which are not written.
abbrev pub cleared_offer : DlcOffer → DlcOffer
cleared_offer x = record x { contract_info = cleared_info x.contract_info }

module _ (utf : Utf8) (laws : Utf8Laws utf) (x : DlcOffer) where
  serialize_offer-cleared : serialize_offer utf (cleared_offer x) ≡ serialize_offer utf x
  unfolding serialize_offer write_offer
  serialize_offer-cleared = rw (serialize_contract_info-cleared utf x.contract_info) refl

  -- Of every offer of a version from 1 to 10 whose fields are in range and whose texts are ASCII,
  -- that is marked as single funded exactly when its collateral is the total, and that fits in
  -- 2^30 bytes with its unknown TLVs not of a known type, deserialize returns it from what
  -- serialize wrote, the contract, the inputs and all optional parts included, with nothing
  -- changed but the end points of hyperbolas in the contract, which are zeros.
  pub deserialize-serialize_offer :
      IsOffer (cleared_offer x)
      → IsVersion x.protocol_version
      → length (offer_bytes (cleared_offer x)) ≤ max_size
      → and_then (serialize_offer utf x) (deserialize_offer utf) ≡ value (cleared_offer x)
  deserialize-serialize_offer v version size =
      let y = cleared_offer x in
      rw (← serialize_offer-cleared) (deserialize-serialize_cleared utf laws y v version size)
