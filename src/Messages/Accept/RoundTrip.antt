-- ===== src/Messages/Accept/RoundTrip.antt =====
-- What a dlc_accept without negotiation fields writes it reads back.
use node_dlc.Prelude.{
  ℕ, zero, suc, ◌+◌, ◌-◌, ◌^◌, ◌≤◌, ◌<◌, ◌≡◌, refl, sym, ap, subst, ◌∙◌, arith, true, false, none,
  List, [], ◌∷◌, ◌++◌, length, length-append, length-drop, All, ltb, ◌==◌, ok, value, and_then,
  result, >>=-ok,
}
use node_dlc.Bufio.Bytes.{be_bytes, length-be_bytes}
use node_dlc.Bufio.Reader.{Reader, reader, read_u8}
use node_dlc.Bufio.Reader.Reads.{ahead, ahead_after}
use node_dlc.Bufio.Reader.Ends.{Ends, Ends-bind, Ends-seq, Ends-map, Ends-result}
use node_dlc.Bufio.Reader.Numbers.{Reads-exactly, Reads-u8, Reads-u16, Reads-u32, Reads-u64}
use node_dlc.Bufio.Writer.{output}
use node_dlc.Bufio.Writer.Expand.{max_size}
use node_dlc.Bufio.Writer.Appends.{Appends, Appends-seq, Appends-write_bytes}
use node_dlc.Bufio.Writer.Numbers.{Appends-u8, Appends-u16, Appends-u32, Appends-u64}
use node_dlc.Bufio.RoundTrip.{Appends-output}
use node_dlc.Messages.Codec.{counted, Appends-counted, Reads-counted, Appends-inner}
use node_dlc.Messages.Text.{Utf8, Utf8Laws}
use node_dlc.Messages.Inputs.Ahead.{funding_body_bytes, IsEmbedded, Appends-funding_body}
use node_dlc.Messages.Signatures.RoundTrip.{adaptor_sig_bytes, Appends-cet_adaptor_signatures}
use node_dlc.Messages.Offer.RoundTrip.{spk_bytes, Appends-spk, Reads-spk, Reads-input}
use node_dlc.Messages.Sign.RoundTrip.{AreSignatures, Reads-cet_ahead}
use node_dlc.Messages.Rounds.{Folds-length}
use node_dlc.Messages.Offer.Stream.{joined}
use node_dlc.Messages.Tail.{
  Tail, no_tail, take_tail, tail_pieces, tail_bytes, IsTail, Appends-tail, Adds, Adds-tail,
}
use node_dlc.Messages.Accept.{
  accept_type, Ending, DlcAccept, write_negotiation_option, negotiation_by, read_negotiation,
  keep_adding, ending_after, read_ending, write_accept, read_cet_signatures, read_accept,
}

pub record IsAccept (x : DlcAccept) : Type 0 where
  pub version : x.protocol_version < 2 ^ 32
  pub id : length x.temporary_contract_id ≡ 32
  pub collateral : x.accept_collateral < 2 ^ 64
  pub key : length x.funding_pubkey ≡ 33
  pub payout_spk : length x.payout_spk < 2 ^ 16
  pub payout_serial : x.payout_serial_id < 2 ^ 64
  pub input_count : length x.funding_inputs < 2 ^ 64
  pub inputs : All IsEmbedded x.funding_inputs
  pub change_spk : length x.change_spk < 2 ^ 16
  pub change_serial : x.change_serial_id < 2 ^ 64
  pub cets : AreSignatures x.cet_adaptor_signatures
  pub refund : length x.refund_signature ≡ 64
  pub tail : IsTail x.ending.tail
  pub single : x.single_funded ≡ (x.accept_collateral == 0)

-- The message, with the given bytes for the negotiation fields and their marker.
abbrev pub accept_bytes : DlcAccept → List ℕ → List ℕ
accept_bytes x negotiation =
    be_bytes 2 accept_type
    ++ (be_bytes 4 x.protocol_version
        ++ (x.temporary_contract_id
            ++ (be_bytes 8 x.accept_collateral
                ++ (x.funding_pubkey
                    ++ (spk_bytes x.payout_spk
                        ++ (be_bytes 8 x.payout_serial_id
                            ++ (counted funding_body_bytes x.funding_inputs
                                ++ (spk_bytes x.change_spk
                                    ++ (be_bytes 8 x.change_serial_id
                                        ++ (counted adaptor_sig_bytes x.cet_adaptor_signatures
                                            ++ (x.refund_signature
                                                ++ (negotiation
                                                    ++ tail_bytes x.ending.tail))))))))))))

abbrev pub without_negotiation : Tail → Ending
without_negotiation t = record { negotiation_fields = none; tail = t }

module _ (utf : Utf8) (laws : Utf8Laws utf) where
  module _ (x : DlcAccept) (v : IsAccept x) (negotiation : List ℕ) where
    pub Appends-accept :
        Appends (write_negotiation_option x.ending.negotiation_fields) negotiation
        → Appends (write_accept utf x) (accept_bytes x negotiation)
    unfolding write_accept
    Appends-accept written = Appends-seq (Appends-u16 accept_type (omega arith)) (
        Appends-seq (Appends-u32 _ v.version) (
          Appends-seq (Appends-write_bytes x.temporary_contract_id) (
            Appends-seq (Appends-u64 _ v.collateral) (
              Appends-seq (Appends-write_bytes x.funding_pubkey) (
                Appends-seq (Appends-spk x.payout_spk v.payout_spk) (
                  Appends-seq (Appends-u64 _ v.payout_serial) (
                    Appends-seq
                      (Appends-counted funding_body_bytes x.funding_inputs _
                        (λ i p. Appends-inner (Appends-funding_body i p)) v.input_count v.inputs)
                      (Appends-seq (Appends-spk x.change_spk v.change_spk) (
                        Appends-seq (Appends-u64 _ v.change_serial) (
                          Appends-seq
                            (Appends-inner (
                              Appends-cet_adaptor_signatures x.cet_adaptor_signatures v.cets.valid
                                v.cets.count))
                            (Appends-seq (Appends-write_bytes x.refund_signature) (
                              Appends-seq written
                                (Appends-tail utf laws x.ending.tail v.tail)))))))))))))

    -- Whatever is made of the end.
    pub Ends-accept :
        (e : Ending)
        → Ends (read_ending utf) (negotiation ++ tail_bytes x.ending.tail) e
        → Ends (read_accept utf true) (accept_bytes x negotiation) (record x { ending = e })
    unfolding read_accept read_cet_signatures
    Ends-accept e p =
        subst
          (λ b.
            Ends (read_accept utf true) (accept_bytes x negotiation)
              (record x { ending = e; single_funded = b }))
          (sym v.single)
          (Ends-seq (Reads-u16 accept_type (omega arith)) (
            Ends-bind _ (Reads-u32 _ v.version) (
              Ends-bind _ (Reads-exactly 32 x.temporary_contract_id v.id) (
                Ends-bind _ (Reads-u64 _ v.collateral) (
                  Ends-bind _ (Reads-exactly 33 x.funding_pubkey v.key) (
                    Ends-bind _ (Reads-spk x.payout_spk v.payout_spk) (
                      Ends-bind _ (Reads-u64 _ v.payout_serial) (
                        Ends-bind _
                          (Reads-counted funding_body_bytes x.funding_inputs _ Reads-input
                            v.input_count v.inputs)
                          (Ends-bind _ (Reads-spk x.change_spk v.change_spk) (
                            Ends-bind _ (Reads-u64 _ v.change_serial) (
                              Ends-bind _ (Reads-cet_ahead x.cet_adaptor_signatures v.cets) (
                                Ends-bind _ (Reads-exactly 64 x.refund_signature v.refund)
                                  (Ends-map _ p)))))))))))))

  -- The loop takes all pieces off.
  keep_adding_all :
      (n : ℕ) (s t : Tail) (ps : List (List ℕ)) (r : Reader)
      → length ps < n
      → Adds utf laws s ps t
      → r.position ≤ length r.buffer
      → ahead r ≡ joined ps
      → keep_adding utf n s r ≡ t
  unfolding keep_adding
  keep_adding_all zero s t ps r h p inside e = elim h [ ]
  keep_adding_all (suc n) s t [] r h p inside e =
      let none_left : ltb r.position (length r.buffer) ≡ false =
        ground (arith, ap length e, length-drop r.position r.buffer) in
      rw none_left p
  keep_adding_all (suc n) s t (q ∷ ps) r h (u, some_byte, reads, p) inside e =
      let size : length q + length (joined ps) ≡ length r.buffer - r.position =
        omega (arith, ap length e, length-drop r.position r.buffer, length-append q (joined ps)) in
      let more : ltb r.position (length r.buffer) ≡ true = ground arith in
      let (r', taken, x) = reads.run r (joined ps) inside e in
      rw (more, taken)
        (keep_adding_all n u t ps r' (omega arith) p x.inside (ahead_after r r' q (joined ps) e x))

  -- Bytes are left, so the rest is read, and the reader put back where it was.
  pub read_ending_some :
      (r : Reader) (bs : List ℕ)
      → ahead r ≡ bs
      → 0 < length bs
      → read_ending utf r ≡ ok (ending_after utf (read_negotiation r)) r
  unfolding read_ending
  read_ending_some r bs e n =
      let size : length bs ≡ length r.buffer - r.position =
        omega (arith, ap length e, length-drop r.position r.buffer) in
      let more : ltb 0 (length r.buffer - r.position) ≡ true = ground arith in rw more refl

  read_ending_none :
      (t : Tail) (r : Reader)
      → IsTail t
      → r.position ≤ length r.buffer
      → ahead r ≡ be_bytes 1 0 ++ tail_bytes t
      → read_ending utf r ≡ ok (without_negotiation t) r
  unfolding ending_after read_negotiation negotiation_by
  read_ending_none t r v inside e =
      let (r', got, x) = (Reads-u8 0 (omega arith)).run r (tail_bytes t) inside e in
      let after = ahead_after r r' (be_bytes 1 0) (tail_bytes t) e x in
      let adds = Adds-tail utf laws t v in
      let rounds : length (tail_pieces t) < suc (length r'.buffer) = omega (
        arith,
        Folds-length (take_tail utf) (λ p. p) no_tail t (tail_pieces t) adds,
        ap length after,
        length-drop r'.position r'.buffer,
      ) in
      let kept : keep_adding utf (suc (length r'.buffer)) no_tail r' ≡ t =
        keep_adding_all (suc (length r'.buffer)) no_tail t (tail_pieces t) r' rounds adds x.inside
          after in
      read_ending_some r (be_bytes 1 0 ++ tail_bytes t) e
        (omega (arith, length-append (be_bytes 1 0) (tail_bytes t), length-be_bytes 1 0))
      ∙ ap (λ o. ok (ending_after utf o) r) (>>=-ok read_u8 negotiation_by got)
      ∙ ap (λ u. ok (without_negotiation u) r) kept

  -- Of every acceptance without negotiation fields, with the other fields in range and its mark
  -- of a single funded contract set exactly when its collateral is 0, that fits in 2^30 bytes,
  -- deserialize returns it with all signatures from what serialize wrote.
  pub read-write_accept :
      (x : DlcAccept)
      → IsAccept x
      → x.ending.negotiation_fields ≡ none
      → length (accept_bytes x (be_bytes 1 0)) ≤ max_size
      → and_then (output (write_accept utf x)) (λ out. result (read_accept utf true (reader out)))
        ≡ value x
  unfolding write_negotiation_option
  read-write_accept x v absent size =
      let written : Appends (write_negotiation_option x.ending.negotiation_fields) (be_bytes 1 0) =
        subst (λ o. Appends (write_negotiation_option o) (be_bytes 1 0)) (sym absent)
          (Appends-u8 0 (omega arith)) in
      let same : without_negotiation x.ending.tail ≡ x.ending =
        ap {B = Ending} (λ o. record { negotiation_fields = o; tail = x.ending.tail })
          (sym absent) in
      let ends : Ends (read_ending utf) (be_bytes 1 0 ++ tail_bytes x.ending.tail)
          (without_negotiation x.ending.tail) =
        record { run = λ r h e. (r, read_ending_none x.ending.tail r v.tail h e) } in
      rw (Appends-output _ _ (Appends-accept x v (be_bytes 1 0) written) size) (
        Ends-result (Ends-accept x v (be_bytes 1 0) _ ends)
        ∙ ap (λ e. value (record x { ending = e })) same)
