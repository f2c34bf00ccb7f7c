-- ===== src/Messages/Order/RoundTrip.antt =====
-- What the messages about an order write they read back.
use node_dlc.Prelude.{
  ℕ, ◌-◌, ◌≤◌, ◌<◌, ◌≡◌, refl, sym, ap, arith, subst, true, false, Option, none, some, List, [],
  ◌∷◌, length, length-append, length-drop, ◌==◌,
}
use node_dlc.Bufio.Bytes.{be_bytes, length-be_bytes}
use node_dlc.Bufio.Reader.{Read, eof}
use node_dlc.Bufio.Reader.Reads.{
  Reads, ReadsEnd, Reads-bind, Reads-bind_end, Reads-end, Reads-pure, ReadsEnd-map, ahead_fits,
}
use node_dlc.Bufio.Reader.Numbers.{
  Reads-map, Reads-exactly, Reads-u8, Reads-u16, Reads-u32, Reads-u64,
}
use node_dlc.Bufio.Writer.Expand.{max_size}
use node_dlc.Bufio.Writer.Appends.{Appends, Appends-seq, Appends-pure, Appends-write_bytes}
use node_dlc.Bufio.Writer.Numbers.{big_size, Appends-u8, Appends-u16, Appends-u32, Appends-u64}
use node_dlc.Messages.Codec.{
  prefixed, write_prefixed, read_prefixed, Appends-prefixed, Reads-prefixed, Appends-counted,
  Reads-counted,
}
use node_dlc.Messages.Tagged.{Appends-tagged, Reads-tagged, ReadsEnd-tagged}
use node_dlc.Messages.Text.{Utf8, Utf8Laws, Appends-text, Reads-text, write_text, read_text}
use node_dlc.Messages.Order.{
  OrderMetadata, metadata_type, OrderIrcInfo, irc_info_type, DlcParty, neither, offeror, acceptor,
  Direction, buy, sell, no_direction, Position, OrderPositionInfo, position_type, BatchFundingGroup,
  group_type, party_code, party_of, direction_code, direction_of, no_position, write_position,
  read_position, unless_eof, read_times_of, write_metadata, read_metadata, write_irc_info,
  read_irc_info, write_instrument, read_instrument, write_position_info, read_position_info,
  write_group, read_group,
}
use node_dlc.Messages.Order.Format.{
  IsMetadata, metadata_fields, metadata_bytes, IsIrcInfo, irc_info_fields, irc_info_bytes,
  IsPosition, IsInstrument, IsPositionInfo, position_fields, instrument_bytes, position_info_fields,
  position_info_bytes, IsGroup, group_fields, group_bytes,
}

module _ {A : Type 0} {m : Read A} {bs : List ℕ} {a : A} (b : A) where
  -- Bytes are left, so they are read.
  ReadsEnd-unless_eof : 0 < length bs → ReadsEnd m bs a → ReadsEnd (unless_eof b m) bs a
  unfolding unless_eof eof
  ReadsEnd-unless_eof n p = record {
    run = λ r h e.
        let size : length bs ≡ length r.buffer - r.position =
          omega (arith, ap length e, length-drop r.position r.buffer) in
        let more : (r.position == length r.buffer) ≡ false = ground arith in rw more (p.run r h e);
  }

-- Nothing is left.
ReadsEnd-at_eof : {A : Type 0} (m : Read A) (b : A) → ReadsEnd (unless_eof b m) [] b
unfolding unless_eof eof
ReadsEnd-at_eof m b = record {
  run = λ r h e.
      let size = ahead_fits r [] [] h e in
      let done : (r.position == length r.buffer) ≡ true = ground arith in
      (r, rw done refl, record { same = refl; moved = omega arith; inside = h });
}

Reads-party : (p : DlcParty) → Reads (party_of (party_code p)) [] p
unfolding party_of party_code
Reads-party neither = Reads-pure neither
Reads-party offeror = Reads-pure offeror
Reads-party acceptor = Reads-pure acceptor

party_small : (p : DlcParty) → party_code p < 256
unfolding party_code
party_small neither = omega arith
party_small offeror = omega arith
party_small acceptor = omega arith

Reads-direction : (d : Direction) → Reads (direction_of (direction_code d)) [] d
unfolding direction_of direction_code
Reads-direction no_direction = Reads-pure no_direction
Reads-direction buy = Reads-pure buy
Reads-direction sell = Reads-pure sell

direction_small : (d : Direction) → direction_code d < 256
unfolding direction_code
direction_small no_direction = omega arith
direction_small buy = omega arith
direction_small sell = omega arith

module _ (x : Position) (v : IsPosition x) where
  Appends-position : Appends (write_position x) (position_fields x)
  unfolding write_position
  Appends-position = Appends-seq (Appends-u64 _ v.size) (
      Appends-seq (Appends-u8 _ (direction_small x.direction))
        (Appends-seq (Appends-u64 _ v.price) (Appends-u16 _ v.precision)))

  Reads-position : Reads read_position (position_fields x) x
  unfolding read_position
  Reads-position = Reads-bind _ (Reads-u64 _ v.size) (
      Reads-bind _ (Reads-u8 _ (direction_small x.direction)) (
        Reads-bind _ (Reads-direction x.direction)
          (Reads-bind _ (Reads-u64 _ v.price) (Reads-map _ (Reads-u16 _ v.precision)))))

module _ (utf : Utf8) (laws : Utf8Laws utf) where
  module _ (x : OrderMetadata) (v : IsMetadata x) where
    pub Appends-metadata : Appends (write_metadata utf x) (metadata_bytes x)
    unfolding write_metadata
    Appends-metadata = Appends-tagged metadata_type (metadata_fields x) (omega arith) (
        Appends-seq (Appends-text utf laws x.offer_id v.id)
          (Appends-seq (Appends-u32 _ v.created) (Appends-u32 _ v.till)))

    pub ReadsEnd-metadata :
        length (metadata_bytes x) ≤ max_size → ReadsEnd (read_metadata utf) (metadata_bytes x) x
    unfolding read_metadata read_times_of
    ReadsEnd-metadata size = ReadsEnd-tagged metadata_type (metadata_fields x) (omega arith) size (
        Reads-bind_end _ (Reads-text utf laws x.offer_id v.id) (
          ReadsEnd-map _ (
            ReadsEnd-unless_eof (0, 0)
              (omega (
                arith,
                length-append (be_bytes 4 x.created_at) (be_bytes 4 x.good_till),
                length-be_bytes 4 x.created_at,
              ))
              (Reads-end
                (Reads-bind _ (Reads-u32 _ v.created) (Reads-map _ (Reads-u32 _ v.till)))))))

  module _ (x : OrderIrcInfo) (v : IsIrcInfo x) where
    pub Appends-irc_info : Appends (write_irc_info utf x) (irc_info_bytes x)
    unfolding write_irc_info
    Appends-irc_info =
        Appends-tagged irc_info_type (irc_info_fields x) (omega arith)
          (Appends-seq (Appends-text utf laws x.nick v.nick) (Appends-write_bytes x.pub_key))

    pub Reads-irc_info :
        length (irc_info_bytes x) ≤ max_size → Reads (read_irc_info utf) (irc_info_bytes x) x
    unfolding read_irc_info
    Reads-irc_info size = Reads-tagged irc_info_type (irc_info_fields x) (omega arith) size (
        Reads-bind _ (Reads-text utf laws x.nick v.nick)
          (Reads-map _ (Reads-exactly 33 x.pub_key v.key)))

  Appends-instrument :
      (o : Option (List ℕ)) (p : Position)
      → IsInstrument o p
      → Appends (write_instrument utf o p) (instrument_bytes o p)
  unfolding write_instrument
  Appends-instrument none p v = Appends-pure
  Appends-instrument (some []) p (t, q, n) = absurd (omega arith)
  Appends-instrument (some (c ∷ cs)) p (t, q, n) =
      Appends-seq (Appends-text utf laws (c ∷ cs) t) (Appends-position p q)

  ReadsEnd-instrument :
      (o : Option (List ℕ)) (p : Position)
      → IsInstrument o p
      → ReadsEnd
          (unless_eof (none, no_position) (read_instrument utf))
          (instrument_bytes o p)
          (o, p)
  unfolding read_instrument
  ReadsEnd-instrument none p e =
      subst (λ q. ReadsEnd (unless_eof (none, no_position) (read_instrument utf)) [] (none, q))
        (sym e) (ReadsEnd-at_eof _ (none, no_position))
  ReadsEnd-instrument (some name) p (t, q, n) =
      ReadsEnd-unless_eof (none, no_position)
        (omega (
          arith,
          length-append (prefixed name) (position_fields p),
          length-append (big_size (length name)) name,
        ))
        (Reads-end (Reads-bind _ (Reads-text utf laws name t) (Reads-map _ (Reads-position p q))))

  module _ (x : OrderPositionInfo) (v : IsPositionInfo x) where
    pub Appends-position_info : Appends (write_position_info utf x) (position_info_bytes x)
    unfolding write_position_info
    Appends-position_info = Appends-tagged position_type (position_info_fields x) (omega arith) (
        Appends-seq (Appends-u8 _ (party_small x.shift_for_fees)) (
          Appends-seq (Appends-u64 _ v.fees)
            (Appends-instrument x.instrument_name x.position v.instrument)))

    pub ReadsEnd-position_info :
        length (position_info_bytes x) ≤ max_size
        → ReadsEnd (read_position_info utf) (position_info_bytes x) x
    unfolding read_position_info
    ReadsEnd-position_info size =
        ReadsEnd-tagged position_type (position_info_fields x) (omega arith) size (
          Reads-bind_end _ (Reads-u8 _ (party_small x.shift_for_fees)) (
            Reads-bind_end _ (Reads-party x.shift_for_fees) (
              Reads-bind_end _ (Reads-u64 _ v.fees)
                (ReadsEnd-map _ (ReadsEnd-instrument x.instrument_name x.position v.instrument)))))

  module _ (x : BatchFundingGroup) (v : IsGroup x) where
    pub Appends-group : Appends (write_group utf x) (group_bytes x)
    unfolding write_group
    Appends-group = Appends-tagged group_type (group_fields x) (omega arith) (
        Appends-seq
          (Appends-counted prefixed x.temp_contract_ids write_prefixed Appends-prefixed v.temp_count
            v.temp_ids)
          (Appends-seq
            (Appends-counted prefixed x.contract_ids write_prefixed Appends-prefixed v.id_count
              v.ids)
            (Appends-seq (Appends-u64 _ v.collateral) (
              Appends-counted prefixed x.event_ids (write_text utf) (Appends-text utf laws)
                v.event_count v.events))))

    pub Reads-group : length (group_bytes x) ≤ max_size → Reads (read_group utf) (group_bytes x) x
    unfolding read_group
    Reads-group size = Reads-tagged group_type (group_fields x) (omega arith) size (
        Reads-bind _
          (Reads-counted prefixed x.temp_contract_ids read_prefixed Reads-prefixed v.temp_count
            v.temp_ids)
          (Reads-bind _
            (Reads-counted prefixed x.contract_ids read_prefixed Reads-prefixed v.id_count v.ids)
            (Reads-bind _ (Reads-u64 _ v.collateral) (
              Reads-map _ (
                Reads-counted prefixed x.event_ids (read_text utf) (Reads-text utf laws)
                  v.event_count v.events)))))
