-- ===== src/Messages/Offer/Taken.antt =====
-- The pieces at the end of an offer are taken off one after the other, each into its field.
use node_dlc.Prelude.{
  ℕ, suc, ◌+◌, ◌≤◌, ◌<◌, ◌≡◌, refl, sym, ap, subst, arith, false, Option, none, some, List, [], ◌∷◌,
  ◌++◌, map, length, length-append, length-drop, append-nil, append_assoc, All, ◌==◌, value,
}
use node_dlc.Bufio.Reader.Reads.{ReadsEnd, Reads-end, Reads-result}
use node_dlc.Bufio.Writer.Expand.{max_size}
use node_dlc.Messages.Text.{Utf8, Utf8Laws}
use node_dlc.Messages.Rounds.{Folds, Folds-append, Folds-length, ReadsEnd-until}
use node_dlc.Messages.Order.{
  OrderMetadata, metadata_type, OrderIrcInfo, irc_info_type, OrderPositionInfo, position_type,
  BatchFundingGroup, group_type,
}
use node_dlc.Messages.Order.Format.{
  IsMetadata, metadata_fields, metadata_bytes, IsIrcInfo, irc_info_fields, irc_info_bytes,
  IsPositionInfo, position_info_fields, position_info_bytes, IsGroup, group_fields, group_bytes,
}
use node_dlc.Messages.Order.RoundTrip.{
  ReadsEnd-metadata, Reads-irc_info, ReadsEnd-position_info, Reads-group,
}
use node_dlc.Messages.Offer.{UnknownTlv, Extras, no_extras, add_typed, take_tlv, read_extras}
use node_dlc.Messages.Offer.Stream.{
  given, pieces, joined, joined-append, extras_bytes, IsGiven, IsUnknown, IsExtras, step,
}

length-joined :
    (ps qs : List (List ℕ)) → length (joined (ps ++ qs)) ≡ length (joined ps) + length (joined qs)
length-joined ps qs = rw (joined-append ps qs) (length-append (joined ps) (joined qs))

module _ (utf : Utf8) (laws : Utf8Laws utf) (x : Extras) where
  -- One after the other, from one object to the next.
  abbrev Takes : List (List ℕ) → Extras → Type 0
  Takes ps y = Folds (take_tlv utf) (λ p. p) x ps y

  Takes-metadata :
      (o : Option OrderMetadata)
      → IsGiven IsMetadata o
      → length (joined (given metadata_bytes o)) ≤ max_size
      → x.metadata ≡ none
      → Takes (given metadata_bytes o) (record x { metadata = o })
  unfolding add_typed
  Takes-metadata none v fits e = ap (λ o. record x { metadata = o }) e
  Takes-metadata (some m) v fits e =
      let size : length (metadata_bytes m) ≤ max_size =
        omega (arith, length-append (metadata_bytes m) []) in
      step utf laws x (record x { metadata = some m }) metadata_type (metadata_fields m)
        (omega arith) size (rw (Reads-result (ReadsEnd-metadata utf laws m v size)) refl)

  Takes-irc_info :
      (o : Option OrderIrcInfo)
      → IsGiven IsIrcInfo o
      → length (joined (given irc_info_bytes o)) ≤ max_size
      → x.irc_info ≡ none
      → Takes (given irc_info_bytes o) (record x { irc_info = o })
  unfolding add_typed
  Takes-irc_info none v fits e = ap (λ o. record x { irc_info = o }) e
  Takes-irc_info (some i) v fits e =
      let size : length (irc_info_bytes i) ≤ max_size =
        omega (arith, length-append (irc_info_bytes i) []) in
      step utf laws x (record x { irc_info = some i }) irc_info_type (irc_info_fields i)
        (omega arith) size (rw (Reads-result (Reads-end (Reads-irc_info utf laws i v size))) refl)

  Takes-position_info :
      (o : Option OrderPositionInfo)
      → IsGiven IsPositionInfo o
      → length (joined (given position_info_bytes o)) ≤ max_size
      → x.position_info ≡ none
      → Takes (given position_info_bytes o) (record x { position_info = o })
  unfolding add_typed
  Takes-position_info none v fits e = ap (λ o. record x { position_info = o }) e
  Takes-position_info (some p) v fits e =
      let size : length (position_info_bytes p) ≤ max_size =
        omega (arith, length-append (position_info_bytes p) []) in
      step utf laws x (record x { position_info = some p }) position_type (position_info_fields p)
        (omega arith) size (rw (Reads-result (ReadsEnd-position_info utf laws p v size)) refl)

module _ (utf : Utf8) (laws : Utf8Laws utf) where
  Takes-groups :
      (x : Extras) (done gs : List BatchFundingGroup)
      → All IsGroup gs
      → length (joined (map group_bytes gs)) ≤ max_size
      → Takes utf laws
          (record x { batch_funding_groups = done })
          (map group_bytes gs)
          (record x { batch_funding_groups = done ++ gs })
  unfolding add_typed
  Takes-groups x done [] v fits =
      ap (λ gs. record x { batch_funding_groups = gs }) (sym (append-nil done))
  Takes-groups x done (g ∷ gs) (v, vs) fits =
      let sizes = length-append (group_bytes g) (joined (map group_bytes gs)) in
      let size : length (group_bytes g) ≤ max_size = omega arith in
      let now = record x { batch_funding_groups = done } in
      let then_ = record x { batch_funding_groups = done ++ g ∷ [] } in
      Folds-append (take_tlv utf) (λ p. p) now then_ _ (group_bytes g ∷ []) (map group_bytes gs)
        (step utf laws now then_ group_type (group_fields g) (omega arith) size
          (rw (Reads-result (Reads-end (Reads-group utf laws g v size))) refl))
        (subst
          (λ hs. Takes utf laws then_ (map group_bytes gs) (record x { batch_funding_groups = hs }))
          (append_assoc done (g ∷ []) gs) (Takes-groups x (done ++ g ∷ []) gs vs (omega arith)))

  -- None of the four types.
  add_typed_unknown :
      (x : Extras) (t : UnknownTlv)
      → IsUnknown t
      → add_typed utf x t.content t.type_id
        ≡ value (record x { unknown_tlvs = x.unknown_tlvs ++ t ∷ [] })
  unfolding add_typed
  add_typed_unknown x t v =
      let a : (t.type_id == metadata_type) ≡ false = ground (arith, v.not_metadata) in
      let b : (t.type_id == irc_info_type) ≡ false = ground (arith, v.not_irc) in
      let c : (t.type_id == position_type) ≡ false = ground (arith, v.not_position) in
      let d : (t.type_id == group_type) ≡ false = ground (arith, v.not_group) in
      rw (a, b, c, d) refl

  Takes-unknown :
      (x : Extras) (done ts : List UnknownTlv)
      → All IsUnknown ts
      → length (joined (map (λ t. t.content) ts)) ≤ max_size
      → Takes utf laws
          (record x { unknown_tlvs = done })
          (map (λ t. t.content) ts)
          (record x { unknown_tlvs = done ++ ts })
  Takes-unknown x done [] v fits = ap (λ ts. record x { unknown_tlvs = ts }) (sym (append-nil done))
  Takes-unknown x done (t ∷ ts) (v, vs) fits =
      let sizes = length-append t.content (joined (map (λ (u : UnknownTlv). u.content) ts)) in
      let size : length t.content ≤ max_size = omega arith in
      let now = record x { unknown_tlvs = done } in
      let then_ = record x { unknown_tlvs = done ++ t ∷ [] } in
      let one : Takes utf laws now (t.content ∷ []) then_ =
        subst (λ c. Takes utf laws now (c ∷ []) then_) (sym v.whole)
          (step utf laws now then_ t.type_id v.body (omega (arith, v.small))
            (subst (λ c. length c ≤ max_size) v.whole size)
            (subst (λ c. add_typed utf now c t.type_id ≡ value then_) v.whole
              (add_typed_unknown now t v))) in
      Folds-append (take_tlv utf) (λ p. p) now then_ _ (t.content ∷ []) (map (λ u. u.content) ts)
        one
        (subst
          (λ us. Takes utf laws then_ (map (λ u. u.content) ts) (record x { unknown_tlvs = us }))
          (append_assoc done (t ∷ []) ts) (Takes-unknown x (done ++ t ∷ []) ts vs (omega arith)))

  Takes-extras : (x : Extras) → IsExtras x → Takes utf laws no_extras (pieces x) x
  Takes-extras x v =
      let ms : List (List ℕ) = given metadata_bytes x.metadata in
      let is : List (List ℕ) = given irc_info_bytes x.irc_info in
      let ps : List (List ℕ) = given position_info_bytes x.position_info in
      let gs : List (List ℕ) = map group_bytes x.batch_funding_groups in
      let us : List (List ℕ) = map (λ t. t.content) x.unknown_tlvs in
      let s₁ = length-joined ms (is ++ (ps ++ (gs ++ us))) in
      let s₂ = length-joined is (ps ++ (gs ++ us)) in
      let s₃ = length-joined ps (gs ++ us) in
      let s₄ = length-joined gs us in
      let all = v.fits in
      let x₁ = record no_extras { metadata = x.metadata } in
      let x₂ = record x₁ { irc_info = x.irc_info } in
      let x₃ = record x₂ { position_info = x.position_info } in
      let x₄ = record x₃ { batch_funding_groups = x.batch_funding_groups } in
      let fold = Folds-append (take_tlv utf) (λ (p : List ℕ). p) in
      fold no_extras x₁ x ms (is ++ (ps ++ (gs ++ us)))
        (Takes-metadata utf laws no_extras x.metadata v.metadata (omega arith) refl)
        (fold x₁ x₂ x is (ps ++ (gs ++ us))
          (Takes-irc_info utf laws x₁ x.irc_info v.irc_info (omega arith) refl)
          (fold x₂ x₃ x ps (gs ++ us)
            (Takes-position_info utf laws x₂ x.position_info v.position_info (omega arith) refl)
            (fold x₃ x₄ x gs us (Takes-groups x₃ [] x.batch_funding_groups v.groups (omega arith))
              (Takes-unknown x₄ [] x.unknown_tlvs v.unknown (omega arith)))))

  pub ReadsEnd-extras : (x : Extras) → IsExtras x → ReadsEnd (read_extras utf) (extras_bytes x) x
  unfolding read_extras
  ReadsEnd-extras x v = record {
    run = λ r inside e.
        let folds = Takes-extras x v in
        let rounds : length (pieces x) < suc (length r.buffer) = omega (
          arith,
          Folds-length (take_tlv utf) (λ p. p) no_extras x (pieces x) folds,
          ap length e,
          length-drop r.position r.buffer,
        ) in
        (ReadsEnd-until (take_tlv utf) (λ p. p) (suc (length r.buffer)) no_extras x (pieces x)
            rounds folds).run
          r inside e;
  }
