-- ===== src/Messages/Oracle/Descriptors.antt =====
-- What an event descriptor of packages/messaging/lib/messages/EventDescriptor.ts writes it reads back.
use node_dlc.Prelude.{
  ℕ, suc, ◌^◌, ◌≤◌, ◌<◌, ◌≡◌, sym, ap, subst, arith, List, [], ◌∷◌, ◌++◌, length, length-append,
  length-drop, append-nil, append_assoc, All, ◌==◌, if◌then◌else◌, value,
}
use node_dlc.Bufio.Bytes.{be_bytes}
use node_dlc.Bufio.Reader.Reads.{
  Reads, ReadsEnd, Reads-bind, Reads-seq_end, Reads-end, ReadsEnd-map, Reads-result,
}
use node_dlc.Bufio.Reader.Numbers.{Reads-map, Reads-u8, Reads-u16, Reads-u32}
use node_dlc.Bufio.Writer.Expand.{max_size}
use node_dlc.Bufio.Writer.Appends.{Appends, Appends-seq, Appends-each, each_bytes}
use node_dlc.Bufio.Writer.Numbers.{big_size, Appends-u8, Appends-u16, Appends-u32}
use node_dlc.Bufio.RoundTrip.{length-big_size_pos}
use node_dlc.Messages.Codec.{flag_bytes, flag_small, flag_back, prefixed}
use node_dlc.Messages.Tlv.{get_tlv}
use node_dlc.Messages.Text.{Utf8, Utf8Laws, IsText, Appends-text, Reads-text}
use node_dlc.Messages.Rounds.{Folds, Folds-length, ReadsEnd-until}
use node_dlc.Messages.Tagged.{
  tagged, Appends-tagged, tagged_type, Reads-tagged, ReadsEnd-tagged, Reads-get_tlv,
}
use node_dlc.Messages.Oracle.{
  DigitDecomposition, EventDescriptor, enum_event, digit_decomposition, enum_event_type,
  digit_decomposition_type, write_enum_fields, write_digit_fields, write_descriptor, push_outcome,
  read_outcomes, read_enum_event, read_digit_decomposition, deserialize_descriptor,
}

pub record IsDigitDecomposition (x : DigitDecomposition) : Type 0 where
  pub base : x.base < 2 ^ 16
  pub unit : IsText x.unit
  pub precision : x.precision < 2 ^ 32
  pub digits : x.nb_digits < 2 ^ 16

abbrev pub IsDescriptor : EventDescriptor → Type 0
IsDescriptor (enum_event outcomes) = (length outcomes < 2 ^ 16) × All IsText outcomes
IsDescriptor (digit_decomposition x) = IsDigitDecomposition x

abbrev pub enum_fields : List (List ℕ) → List ℕ
enum_fields outcomes = be_bytes 2 (length outcomes) ++ each_bytes prefixed outcomes

abbrev pub digit_fields : DigitDecomposition → List ℕ
digit_fields x =
    be_bytes 2 x.base
    ++ (flag_bytes x.is_signed
        ++ (prefixed x.unit ++ (be_bytes 4 x.precision ++ be_bytes 2 x.nb_digits)))

abbrev pub descriptor_bytes : EventDescriptor → List ℕ
descriptor_bytes (enum_event outcomes) = tagged enum_event_type (enum_fields outcomes)
descriptor_bytes (digit_decomposition x) = tagged digit_decomposition_type (digit_fields x)

pub Reads-descriptor_tlv :
    (x : EventDescriptor)
    → length (descriptor_bytes x) ≤ max_size
    → Reads get_tlv (descriptor_bytes x) (descriptor_bytes x)
Reads-descriptor_tlv (enum_event outcomes) size =
    Reads-get_tlv enum_event_type (enum_fields outcomes) (omega arith) size
Reads-descriptor_tlv (digit_decomposition x) size =
    Reads-get_tlv digit_decomposition_type (digit_fields x) (omega arith) size

module _ (utf : Utf8) (laws : Utf8Laws utf) where
  pub Appends-descriptor :
      (x : EventDescriptor) → IsDescriptor x → Appends (write_descriptor utf x) (descriptor_bytes x)
  unfolding write_descriptor write_enum_fields write_digit_fields
  Appends-descriptor (enum_event outcomes) (h, texts) =
      Appends-tagged enum_event_type (enum_fields outcomes) (omega arith) (
        Appends-seq (Appends-u16 _ h)
          (Appends-each _ prefixed outcomes (Appends-text utf laws) texts))
  Appends-descriptor (digit_decomposition x) v =
      Appends-tagged digit_decomposition_type (digit_fields x) (omega arith) (
        Appends-seq (Appends-u16 _ v.base) (
          Appends-seq (Appends-u8 _ (flag_small x.is_signed)) (
            Appends-seq (Appends-text utf laws x.unit v.unit)
              (Appends-seq (Appends-u32 _ v.precision) (Appends-u16 _ v.digits)))))

  -- Each round takes an outcome off the bytes.
  Folds-outcomes :
      (done outcomes : List (List ℕ))
      → All IsText outcomes
      → Folds (push_outcome utf) prefixed done outcomes (done ++ outcomes)
  unfolding push_outcome
  Folds-outcomes done [] p = sym (append-nil done)
  Folds-outcomes done (s ∷ rest) (p, ps) = (
    done ++ s ∷ [],
    omega (arith, length-append (big_size (length s)) s, length-big_size_pos (length s)),
    Reads-map (λ t. done ++ t ∷ []) (Reads-text utf laws s p),
    subst (Folds (push_outcome utf) prefixed (done ++ s ∷ []) rest)
        (append_assoc done (s ∷ []) rest) (Folds-outcomes (done ++ s ∷ []) rest ps),
  )

  ReadsEnd-outcomes :
      (outcomes : List (List ℕ))
      → All IsText outcomes
      → ReadsEnd (read_outcomes utf) (each_bytes prefixed outcomes) outcomes
  unfolding read_outcomes
  ReadsEnd-outcomes outcomes p = record {
    run = λ r inside e.
        let folds = Folds-outcomes [] outcomes p in
        let rounds : length outcomes < suc (length r.buffer) = omega (
          arith,
          Folds-length (push_outcome utf) prefixed [] outcomes outcomes folds,
          ap length e,
          length-drop r.position r.buffer,
        ) in
        (ReadsEnd-until (push_outcome utf) prefixed (suc (length r.buffer)) [] outcomes outcomes
            rounds folds).run
          r inside e;
  }

  ReadsEnd-enum_event :
      (outcomes : List (List ℕ))
      → length outcomes < 2 ^ 16
      → All IsText outcomes
      → length (descriptor_bytes (enum_event outcomes)) ≤ max_size
      → ReadsEnd
          (read_enum_event utf)
          (descriptor_bytes (enum_event outcomes))
          (enum_event outcomes)
  unfolding read_enum_event
  ReadsEnd-enum_event outcomes h texts size =
      ReadsEnd-tagged enum_event_type (enum_fields outcomes) (omega arith) size
        (Reads-seq_end (Reads-u16 _ h) (ReadsEnd-map enum_event (ReadsEnd-outcomes outcomes texts)))

  Reads-digit_decomposition :
      (x : DigitDecomposition)
      → IsDigitDecomposition x
      → length (descriptor_bytes (digit_decomposition x)) ≤ max_size
      → Reads
          (read_digit_decomposition utf)
          (descriptor_bytes (digit_decomposition x))
          (digit_decomposition x)
  unfolding read_digit_decomposition
  Reads-digit_decomposition x v size = rw same at read
    where
      kept : EventDescriptor
      kept = digit_decomposition (record x { is_signed = (if x.is_signed then 1 else 0) == 1 })

      same : kept ≡ digit_decomposition x
      same = ap (λ b. digit_decomposition (record x { is_signed = b })) (flag_back x.is_signed)

      read : Reads (read_digit_decomposition utf) (descriptor_bytes (digit_decomposition x)) kept
      read = Reads-tagged digit_decomposition_type (digit_fields x) (omega arith) size (
          Reads-bind _ (Reads-u16 _ v.base) (
            Reads-bind _ (Reads-u8 _ (flag_small x.is_signed)) (
              Reads-bind _ (Reads-text utf laws x.unit v.unit)
                (Reads-bind _ (Reads-u32 _ v.precision) (Reads-map _ (Reads-u16 _ v.digits))))))

  pub deserialize_descriptor_lem :
      (x : EventDescriptor)
      → IsDescriptor x
      → length (descriptor_bytes x) ≤ max_size
      → deserialize_descriptor utf (descriptor_bytes x) ≡ value x
  unfolding deserialize_descriptor
  deserialize_descriptor_lem (enum_event outcomes) (h, texts) size =
      rw (tagged_type enum_event_type (enum_fields outcomes) (omega arith))
        (Reads-result (ReadsEnd-enum_event outcomes h texts size))
  deserialize_descriptor_lem (digit_decomposition x) v size =
      rw (tagged_type digit_decomposition_type (digit_fields x) (omega arith))
        (Reads-result (Reads-end (Reads-digit_decomposition x v size)))
