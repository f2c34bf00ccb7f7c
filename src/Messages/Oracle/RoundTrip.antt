-- ===== src/Messages/Oracle/RoundTrip.antt =====
-- What an oracle event and an announcement write they read back.
use node_dlc.Prelude.{
  ℕ, ◌^◌, ◌≤◌, ◌<◌, ◌≡◌, arith, some, List, ◌++◌, length, length-append, All, value, lift, ◌>>=◌,
  ◌>>◌,
}
use node_dlc.Bufio.Bytes.{be_bytes}
use node_dlc.Bufio.Reader.{read_bytes, read_big_size}
use node_dlc.Bufio.Reader.Reads.{Reads, Reads-bind, Reads-end, Reads-result}
use node_dlc.Bufio.Reader.Numbers.{Reads-map, Reads-append_nil, Reads-exactly, Reads-u16, Reads-u32}
use node_dlc.Bufio.Writer.{output}
use node_dlc.Bufio.Writer.Expand.{max_size}
use node_dlc.Bufio.Writer.Appends.{
  Appends, Appends-seq, Appends-write_bytes, Appends-each, each_bytes,
}
use node_dlc.Bufio.Writer.Numbers.{Appends-u16, Appends-u32}
use node_dlc.Bufio.RoundTrip.{Appends-output}
use node_dlc.Messages.Codec.{prefixed, Reads-lift, Reads-result_front, Reads-times, Appends-inner}
use node_dlc.Messages.Tlv.{get_tlv}
use node_dlc.Messages.Text.{Utf8, Utf8Laws, IsText, Appends-text, Reads-text}
use node_dlc.Messages.Tagged.{
  tagged, length-tagged, Appends-tagged, Reads-tagged, Reads-get_tlv, Reads-tlv_then,
}
use node_dlc.Messages.Oracle.{
  OracleEvent, oracle_event_type, OracleAnnouncement, announcement_type, write_event_fields,
  write_event, read_event_fields, deserialize_event, write_announcement_fields, write_announcement,
  read_announcement_fields, deserialize_announcement,
}
use node_dlc.Messages.Oracle.Descriptors.{
  IsDescriptor, descriptor_bytes, Appends-descriptor, Reads-descriptor_tlv,
  deserialize_descriptor_lem,
}

pub record IsEvent (x : OracleEvent) : Type 0 where
  pub nonce_count : length x.oracle_nonces < 2 ^ 16
  pub nonces : All (λ n. length n ≡ 32) x.oracle_nonces
  pub epoch : x.event_maturity_epoch < 2 ^ 32
  pub descriptor : IsDescriptor x.event_descriptor
  pub id : IsText x.event_id

abbrev pub event_tail : OracleEvent → List ℕ
event_tail x = descriptor_bytes x.event_descriptor ++ prefixed x.event_id

abbrev pub event_fields : OracleEvent → List ℕ
event_fields x =
    be_bytes 2 (length x.oracle_nonces)
    ++ (each_bytes (λ n. n) x.oracle_nonces ++ (be_bytes 4 x.event_maturity_epoch ++ event_tail x))

abbrev pub event_bytes : OracleEvent → List ℕ
event_bytes x = tagged oracle_event_type (event_fields x)

pub record IsAnnouncement (x : OracleAnnouncement) : Type 0 where
  pub sig : length x.announcement_sig ≡ 64
  pub key : length x.oracle_public_key ≡ 32
  pub event : IsEvent x.oracle_event

abbrev pub announcement_fields : OracleAnnouncement → List ℕ
announcement_fields x = x.announcement_sig ++ (x.oracle_public_key ++ event_bytes x.oracle_event)

abbrev pub announcement_bytes : OracleAnnouncement → List ℕ
announcement_bytes x = tagged announcement_type (announcement_fields x)

module _ (utf : Utf8) (laws : Utf8Laws utf) where
  module _ (x : OracleEvent) (v : IsEvent x) where
    pub Appends-event : Appends (write_event utf x) (event_bytes x)
    unfolding write_event write_event_fields
    Appends-event = Appends-tagged oracle_event_type (event_fields x) (omega arith) (
        Appends-seq (Appends-u16 _ v.nonce_count) (
          Appends-seq
            (Appends-each _ (λ n. n) x.oracle_nonces (λ n h. Appends-write_bytes n) v.nonces)
            (Appends-seq (Appends-u32 _ v.epoch) (
              Appends-seq
                (Appends-inner (Appends-descriptor utf laws x.event_descriptor v.descriptor))
                (Appends-text utf laws x.event_id v.id)))))

    Reads-event_fields :
        length (event_fields x) ≤ max_size → Reads (read_event_fields utf) (event_fields x) x
    unfolding read_event_fields
    Reads-event_fields size =
        let small : length (descriptor_bytes x.event_descriptor) ≤ max_size = omega (
          arith,
          length-append (be_bytes 2 (length x.oracle_nonces)) (
              each_bytes (λ n. n) x.oracle_nonces
              ++ (be_bytes 4 x.event_maturity_epoch ++ event_tail x)),
          length-append (each_bytes (λ n. n) x.oracle_nonces)
              (be_bytes 4 x.event_maturity_epoch ++ event_tail x),
          length-append (be_bytes 4 x.event_maturity_epoch) (event_tail x),
          length-append (descriptor_bytes x.event_descriptor) (prefixed x.event_id),
        ) in
        Reads-bind _ (Reads-u16 _ v.nonce_count) (
          Reads-bind _
            (Reads-times (read_bytes (some 32)) (λ n. n) x.oracle_nonces
              (λ n h. Reads-exactly 32 n h) v.nonces)
            (Reads-bind _ (Reads-u32 _ v.epoch) (
              Reads-bind _ (Reads-descriptor_tlv x.event_descriptor small) (
                Reads-bind _
                  (Reads-lift
                    (deserialize_descriptor_lem utf laws x.event_descriptor v.descriptor small))
                  (Reads-map _ (Reads-text utf laws x.event_id v.id))))))

    deserialize_event_lem :
        length (event_bytes x) ≤ max_size → deserialize_event utf (event_bytes x) ≡ value x
    unfolding deserialize_event
    deserialize_event_lem size = Reads-result (
        Reads-end (
          Reads-tagged oracle_event_type (event_fields x) (omega arith) size
            (Reads-event_fields (omega (arith, length-tagged oracle_event_type (event_fields x))))))

  module _ (x : OracleAnnouncement) (v : IsAnnouncement x) where
    pub Appends-announcement : Appends (write_announcement utf x) (announcement_bytes x)
    unfolding write_announcement write_announcement_fields
    Appends-announcement = Appends-tagged announcement_type (announcement_fields x) (omega arith) (
        Appends-seq (Appends-write_bytes x.announcement_sig) (
          Appends-seq (Appends-write_bytes x.oracle_public_key)
            (Appends-inner (Appends-event x.oracle_event v.event))))

    module _ (size : length (announcement_bytes x) ≤ max_size) where
      pub serialize_announcement_lem :
          output (write_announcement utf x) ≡ value (announcement_bytes x)
      serialize_announcement_lem = Appends-output _ _ Appends-announcement size

      Reads-announcement_fields : Reads (read_announcement_fields utf) (announcement_fields x) x
      unfolding read_announcement_fields
      Reads-announcement_fields =
          let small : length (event_bytes x.oracle_event) ≤ max_size = omega (
            arith,
            length-tagged announcement_type (announcement_fields x),
            length-append x.announcement_sig (x.oracle_public_key ++ event_bytes x.oracle_event),
            length-append x.oracle_public_key (event_bytes x.oracle_event),
          ) in
          Reads-bind _ (Reads-exactly 64 x.announcement_sig v.sig) (
            Reads-bind _ (Reads-exactly 32 x.oracle_public_key v.key) (
              Reads-append_nil (
                Reads-bind _
                  (Reads-get_tlv oracle_event_type (event_fields x.oracle_event) (omega arith)
                    small)
                  (Reads-map _ (Reads-lift (deserialize_event_lem x.oracle_event v.event small))))))

      Reads-announcement :
          Reads
            (do read_big_size; read_big_size; read_announcement_fields utf)
            (announcement_bytes x)
            x
      Reads-announcement =
          Reads-tagged announcement_type (announcement_fields x) (omega arith) size
            Reads-announcement_fields

      -- Whatever bytes follow.
      pub deserialize_announcement_lem :
          (rest : List ℕ) → deserialize_announcement utf (announcement_bytes x ++ rest) ≡ value x
      unfolding deserialize_announcement
      deserialize_announcement_lem rest = Reads-result_front Reads-announcement rest

      pub Reads-announcement_tlv :
          Reads (do buf ← get_tlv; lift (deserialize_announcement utf buf)) (announcement_bytes x) x
      unfolding deserialize_announcement
      Reads-announcement_tlv =
          Reads-tlv_then announcement_type (announcement_fields x) (omega arith) size
            (deserialize_announcement utf) (Reads-result (Reads-end Reads-announcement))
