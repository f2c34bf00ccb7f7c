-- ===== src/Messages/Sign/RoundTrip.antt =====
-- What a dlc_sign writes it reads back.
use node_dlc.Prelude.{
  ℕ, ◌^◌, ◌≤◌, ◌<◌, ◌≡◌, arith, List, ◌++◌, length, All, value, and_then, result,
}
use node_dlc.Bufio.Bytes.{be_bytes}
use node_dlc.Bufio.Reader.{reader}
use node_dlc.Bufio.Reader.Reads.{Reads, Reads-bind_end, Reads-seq_end, ReadsEnd-map}
use node_dlc.Bufio.Reader.Numbers.{Reads-exactly, Reads-u16, Reads-u32}
use node_dlc.Bufio.Writer.{output}
use node_dlc.Bufio.Writer.Expand.{max_size}
use node_dlc.Bufio.Writer.Appends.{Appends-seq, Appends-write_bytes}
use node_dlc.Bufio.Writer.Numbers.{Appends-u16, Appends-u32}
use node_dlc.Bufio.RoundTrip.{round_trip, Appends-output}
use node_dlc.Messages.Codec.{counted, Appends-inner, read_ahead, Reads-ahead, Reads-result_front}
use node_dlc.Messages.Text.{Utf8, Utf8Laws}
use node_dlc.Messages.Signatures.{AdaptorSig, ScriptWitness}
use node_dlc.Messages.Signatures.RoundTrip.{
  IsAdaptorSig, adaptor_sig_bytes, Appends-cet_adaptor_signatures, Reads-cet_adaptor_signatures,
  stack_bytes, IsStack, Appends-funding_signatures, Reads-funding_signatures,
}
use node_dlc.Messages.Tail.{IsTail, tail_bytes, Appends-tail, ReadsEnd-tail}
use node_dlc.Messages.Sign.{
  sign_type, DlcSign, serialize_cet_signatures, deserialize_cet_signatures,
  serialize_funding_signatures, deserialize_funding_signatures, write_sign, read_sign,
}

-- Signatures in range, which fit in 2^30 bytes.
pub record AreSignatures (sigs : List AdaptorSig) : Type 0 where
  pub valid : All IsAdaptorSig sigs
  pub count : length sigs < 2 ^ 64
  pub fits : length (counted adaptor_sig_bytes sigs) ≤ max_size

pub Reads-cet_ahead :
    (sigs : List AdaptorSig)
    → AreSignatures sigs
    → Reads
        (read_ahead deserialize_cet_signatures serialize_cet_signatures)
        (counted adaptor_sig_bytes sigs)
        sigs
unfolding deserialize_cet_signatures serialize_cet_signatures
Reads-cet_ahead sigs v =
    Reads-ahead _ _ _ sigs (Reads-result_front (Reads-cet_adaptor_signatures sigs v.valid v.count))
      (Appends-output _ _ (Appends-cet_adaptor_signatures sigs v.valid v.count) v.fits)

pub record AreStacks (stacks : List (List ScriptWitness)) : Type 0 where
  pub valid : All IsStack stacks
  pub count : length stacks < 2 ^ 64
  pub fits : length (counted stack_bytes stacks) ≤ max_size

Reads-funding_ahead :
    (stacks : List (List ScriptWitness))
    → AreStacks stacks
    → Reads
        (read_ahead deserialize_funding_signatures serialize_funding_signatures)
        (counted stack_bytes stacks)
        stacks
unfolding deserialize_funding_signatures serialize_funding_signatures
Reads-funding_ahead stacks v =
    Reads-ahead _ _ _ stacks (Reads-result_front (Reads-funding_signatures stacks v.valid v.count))
      (Appends-output _ _ (Appends-funding_signatures stacks v.valid v.count) v.fits)

pub record IsSign (x : DlcSign) : Type 0 where
  pub version : x.protocol_version < 2 ^ 32
  pub id : length x.contract_id ≡ 32
  pub cets : AreSignatures x.cet_adaptor_signatures
  pub refund : length x.refund_signature ≡ 64
  pub funding : AreStacks x.funding_signatures
  pub tail : IsTail x.tail

abbrev pub sign_bytes : DlcSign → List ℕ
sign_bytes x =
    be_bytes 2 sign_type
    ++ (be_bytes 4 x.protocol_version
        ++ (x.contract_id
            ++ (counted adaptor_sig_bytes x.cet_adaptor_signatures
                ++ (x.refund_signature
                    ++ (counted stack_bytes x.funding_signatures ++ tail_bytes x.tail)))))

module _ (utf : Utf8) (laws : Utf8Laws utf) where
  -- Of every signing message with fields in range that fits in 2^30 bytes, deserialize returns it
  -- from what serialize wrote, with the funding groups and the TLVs of another type.
  pub read-write_sign :
      (x : DlcSign)
      → IsSign x
      → length (sign_bytes x) ≤ max_size
      → and_then (output (write_sign utf x)) (λ out. result (read_sign utf (reader out))) ≡ value x
  unfolding write_sign read_sign
  read-write_sign x v size =
      round_trip _ _ (sign_bytes x) x
        (Appends-seq (Appends-u16 sign_type (omega arith)) (
          Appends-seq (Appends-u32 _ v.version) (
            Appends-seq (Appends-write_bytes x.contract_id) (
              Appends-seq
                (Appends-inner (
                  Appends-cet_adaptor_signatures x.cet_adaptor_signatures v.cets.valid
                    v.cets.count))
                (Appends-seq (Appends-write_bytes x.refund_signature) (
                  Appends-seq
                    (Appends-inner (
                      Appends-funding_signatures x.funding_signatures v.funding.valid
                        v.funding.count))
                    (Appends-tail utf laws x.tail v.tail)))))))
        (Reads-seq_end (Reads-u16 sign_type (omega arith)) (
          Reads-bind_end _ (Reads-u32 _ v.version) (
            Reads-bind_end _ (Reads-exactly 32 x.contract_id v.id) (
              Reads-bind_end _ (Reads-cet_ahead x.cet_adaptor_signatures v.cets) (
                Reads-bind_end _ (Reads-exactly 64 x.refund_signature v.refund) (
                  Reads-bind_end _ (Reads-funding_ahead x.funding_signatures v.funding)
                    (ReadsEnd-map _ (ReadsEnd-tail utf laws x.tail v.tail))))))))
        size
