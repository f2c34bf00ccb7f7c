-- ===== src/Messages/Tail.antt =====
-- The messages at the end of packages/messaging/lib/messages/DlcAccept.ts and DlcSign.ts: funding
-- groups, and those of another type, which are kept as they are. A list that was not set is empty.
use node_dlc.Prelude.{
  ℕ, suc, ◌+◌, ◌^◌, ◌≤◌, ◌<◌, ◌≡◌, ◌≢◌, refl, sym, ap, subst, arith, false, List, [], ◌∷◌, ◌++◌,
  map, length, length-append, length-drop, append-nil, append_assoc, All, ◌==◌, if◌then◌else◌,
  Result, value, and_then, lift, result, ◌>>=◌, ◌>>◌,
}
use node_dlc.Bufio.Reader.{Read, reader}
use node_dlc.Bufio.Reader.Reads.{ReadsEnd, Reads-end, Reads-result}
use node_dlc.Bufio.Writer.{Write, write_bytes}
use node_dlc.Bufio.Writer.Expand.{max_size}
use node_dlc.Bufio.Writer.Appends.{Appends, Appends-write_bytes, write_each}
use node_dlc.Bufio.Writer.Numbers.{big_size}
use node_dlc.Bufio.RoundTrip.{length-big_size_pos}
use node_dlc.Messages.Codec.{write_inner, Appends-inner, prefixed}
use node_dlc.Messages.Tlv.{deserialize_tlv, get_tlv}
use node_dlc.Messages.Tlv.Exact.{Reads-tlv}
use node_dlc.Messages.Text.{Utf8, Utf8Laws}
use node_dlc.Messages.Rounds.{until_eof, Folds, Folds-append, Folds-length, ReadsEnd-until}
use node_dlc.Messages.Tagged.{tagged, Reads-tlv_then, length-body_lt}
use node_dlc.Messages.Order.{BatchFundingGroup, group_type, write_group, read_group}
use node_dlc.Messages.Order.Format.{IsGroup, group_fields, group_bytes}
use node_dlc.Messages.Order.RoundTrip.{Appends-group, Reads-group}
use node_dlc.Messages.Offer.{UnknownTlv}
use node_dlc.Messages.Offer.Stream.{joined, joined-append, Appends-pieces, Appends-mapped}

pub record Tail : Type 0 where
  pub batch_funding_groups : List BatchFundingGroup
  pub unknown_tlvs : List UnknownTlv

abbrev pub no_tail : Tail
no_tail = record { batch_funding_groups = []; unknown_tlvs = [] }

module _ (utf : Utf8) where
  unfoldable pub add_by_type : Tail → List ℕ → ℕ → Result Tail
  add_by_type x buf type_id =
      if type_id == group_type
      then and_then (result (read_group utf (reader buf)))
          (λ g. value (record x { batch_funding_groups = x.batch_funding_groups ++ g ∷ [] }))
      else value (record x {
        unknown_tlvs = x.unknown_tlvs ++ record { type_id = type_id; content = buf } ∷ [];
      })

  unfoldable pub add_to_tail : Tail → List ℕ → Result Tail
  add_to_tail x buf =
      and_then (result (deserialize_tlv (reader buf))) (λ t. add_by_type x buf t.type_id)

  unfoldable pub take_tail : Tail → Read Tail
  take_tail x = do buf ← get_tlv; lift (add_to_tail x buf)

  -- Each TLV takes a byte at least, so the rounds are never used up.
  unfoldable pub read_tail : Read Tail
  read_tail r = until_eof (suc (length r.buffer)) take_tail no_tail r

  unfoldable pub write_tail : Tail → Write
  write_tail x = do
    write_each (λ g. write_inner (write_group utf g)) x.batch_funding_groups
    write_each (λ t. write_bytes t.content) x.unknown_tlvs

abbrev pub tail_pieces : Tail → List (List ℕ)
tail_pieces x = map group_bytes x.batch_funding_groups ++ map (λ t. t.content) x.unknown_tlvs

abbrev pub tail_bytes : Tail → List ℕ
tail_bytes x = joined (tail_pieces x)

-- A whole TLV that is no funding group, of a type that a double holds exactly.
pub record IsForeign (t : UnknownTlv) : Type 0 where
  pub body : List ℕ
  pub whole : t.content ≡ tagged t.type_id body
  pub small : t.type_id < 2 ^ 53
  pub not_group : t.type_id ≢ group_type

pub record IsTail (x : Tail) : Type 0 where
  pub groups : All IsGroup x.batch_funding_groups
  pub unknown : All IsForeign x.unknown_tlvs
  pub fits : length (tail_bytes x) ≤ max_size

module _ (utf : Utf8) (laws : Utf8Laws utf) where
  pub Appends-tail : (x : Tail) → IsTail x → Appends (write_tail utf x) (tail_bytes x)
  unfolding write_tail
  Appends-tail x v =
      Appends-pieces (map group_bytes x.batch_funding_groups) _
        (Appends-mapped _ group_bytes x.batch_funding_groups
          (λ g p. Appends-inner (Appends-group utf laws g p)) v.groups)
        (Appends-mapped {P = IsForeign} _ (λ t. t.content) x.unknown_tlvs
          (λ t p. Appends-write_bytes t.content) v.unknown)

  abbrev pub Adds : Tail → List (List ℕ) → Tail → Type 0
  Adds x ps y = Folds (take_tail utf) (λ p. p) x ps y

  one_more :
      (x y : Tail) (type_id : ℕ) (body : List ℕ)
      → type_id < 2 ^ 64
      → length (tagged type_id body) ≤ max_size
      → add_by_type utf x (tagged type_id body) type_id ≡ value y
      → Adds x (tagged type_id body ∷ []) y
  unfolding take_tail add_to_tail
  one_more x y type_id body small fits e =
      let found : result (deserialize_tlv (reader (tagged type_id body)))
          ≡ value (record { type_id = type_id; size = length body; body = body }) =
        Reads-result
          (Reads-end (Reads-tlv _ small (length-body_lt type_id body small fits) refl)) in
      (
        y,
        omega
            (arith, length-append (big_size type_id) (prefixed body), length-big_size_pos type_id),
        Reads-tlv_then type_id body small fits (add_to_tail utf x) (rw found e),
        refl,
      )

  Adds-groups :
      (us : List UnknownTlv) (done gs : List BatchFundingGroup)
      → All IsGroup gs
      → length (joined (map group_bytes gs)) ≤ max_size
      → Adds
          (record { batch_funding_groups = done; unknown_tlvs = us })
          (map group_bytes gs)
          (record { batch_funding_groups = done ++ gs; unknown_tlvs = us })
  unfolding add_by_type
  Adds-groups us done [] v fits =
      ap (λ hs. record { batch_funding_groups = hs; unknown_tlvs = us }) (sym (append-nil done))
  Adds-groups us done (g ∷ gs) (v, vs) fits =
      let sizes = length-append (group_bytes g) (joined (map group_bytes gs)) in
      let size : length (group_bytes g) ≤ max_size = omega arith in
      let now : Tail = record { batch_funding_groups = done; unknown_tlvs = us } in
      let then_ : Tail = record { batch_funding_groups = done ++ g ∷ []; unknown_tlvs = us } in
      Folds-append (take_tail utf) (λ p. p) now then_ _ (group_bytes g ∷ []) (map group_bytes gs)
        (one_more now then_ group_type (group_fields g) (omega arith) size
          (rw (Reads-result (Reads-end (Reads-group utf laws g v size))) refl))
        (subst
          (λ hs.
            Adds then_ (map group_bytes gs)
              (record { batch_funding_groups = hs; unknown_tlvs = us }))
          (append_assoc done (g ∷ []) gs) (Adds-groups us (done ++ g ∷ []) gs vs (omega arith)))

  Adds-unknown :
      (gs : List BatchFundingGroup) (done ts : List UnknownTlv)
      → All IsForeign ts
      → length (joined (map (λ t. t.content) ts)) ≤ max_size
      → Adds
          (record { batch_funding_groups = gs; unknown_tlvs = done })
          (map (λ t. t.content) ts)
          (record { batch_funding_groups = gs; unknown_tlvs = done ++ ts })
  unfolding add_by_type
  Adds-unknown gs done [] v fits =
      ap (λ us. record { batch_funding_groups = gs; unknown_tlvs = us }) (sym (append-nil done))
  Adds-unknown gs done (t ∷ ts) (v, vs) fits =
      let sizes = length-append t.content (joined (map (λ (u : UnknownTlv). u.content) ts)) in
      let size : length t.content ≤ max_size = omega arith in
      let other : (t.type_id == group_type) ≡ false = ground (arith, v.not_group) in
      let now : Tail = record { batch_funding_groups = gs; unknown_tlvs = done } in
      let then_ : Tail = record { batch_funding_groups = gs; unknown_tlvs = done ++ t ∷ [] } in
      let added : add_by_type utf now t.content t.type_id ≡ value then_ = rw other refl in
      let one : Adds now (t.content ∷ []) then_ =
        subst (λ c. Adds now (c ∷ []) then_) (sym v.whole)
          (one_more now then_ t.type_id v.body (omega (arith, v.small))
            (subst (λ c. length c ≤ max_size) v.whole size)
            (subst (λ c. add_by_type utf now c t.type_id ≡ value then_) v.whole added)) in
      Folds-append (take_tail utf) (λ p. p) now then_ _ (t.content ∷ []) (map (λ u. u.content) ts)
        one
        (subst
          (λ us.
            Adds then_ (map (λ u. u.content) ts)
              (record { batch_funding_groups = gs; unknown_tlvs = us }))
          (append_assoc done (t ∷ []) ts) (Adds-unknown gs (done ++ t ∷ []) ts vs (omega arith)))

  pub Adds-tail : (x : Tail) → IsTail x → Adds no_tail (tail_pieces x) x
  Adds-tail x v =
      let gs : List (List ℕ) = map group_bytes x.batch_funding_groups in
      let us : List (List ℕ) = map (λ t. t.content) x.unknown_tlvs in
      let sizes : length (joined (gs ++ us)) ≡ length (joined gs) + length (joined us) =
        rw (joined-append gs us) (length-append (joined gs) (joined us)) in
      let all = v.fits in
      let half : Tail = record {
        batch_funding_groups = x.batch_funding_groups;
        unknown_tlvs = [];
      } in
      Folds-append (take_tail utf) (λ p. p) no_tail half x gs us
        (Adds-groups [] [] x.batch_funding_groups v.groups (omega arith))
        (Adds-unknown x.batch_funding_groups [] x.unknown_tlvs v.unknown (omega arith))

  pub ReadsEnd-tail : (x : Tail) → IsTail x → ReadsEnd (read_tail utf) (tail_bytes x) x
  unfolding read_tail
  ReadsEnd-tail x v = record {
    run = λ r inside e.
        let folds = Adds-tail x v in
        let rounds : length (tail_pieces x) < suc (length r.buffer) = omega (
          arith,
          Folds-length (take_tail utf) (λ p. p) no_tail x (tail_pieces x) folds,
          ap length e,
          length-drop r.position r.buffer,
        ) in
        (ReadsEnd-until (take_tail utf) (λ p. p) (suc (length r.buffer)) no_tail x (tail_pieces x)
            rounds folds).run
          r inside e;
  }
