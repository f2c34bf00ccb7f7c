-- ===== src/Messages/Offer/Stream.antt =====
-- The messages at the end of an offer: what is written is taken off again, in whatever number.
use node_dlc.Prelude.{
  ℕ, ◌^◌, ◌≤◌, ◌<◌, ◌≡◌, ◌≢◌, refl, sym, subst, arith, Option, none, some, List, [], ◌∷◌, ◌++◌, map,
  length, length-append, append-nil, append_assoc, All, value, result, ◌>>◌,
}
use node_dlc.Bufio.Reader.{reader}
use node_dlc.Bufio.Reader.Reads.{Reads, Reads-end, Reads-result}
use node_dlc.Bufio.Writer.{Write}
use node_dlc.Bufio.Writer.Expand.{max_size}
use node_dlc.Bufio.Writer.Appends.{
  Appends, Appends-seq, Appends-pure, Appends-write_bytes, each_bytes, write_each,
}
use node_dlc.Bufio.Writer.Numbers.{big_size}
use node_dlc.Bufio.RoundTrip.{length-big_size_pos}
use node_dlc.Messages.Codec.{write_inner, Appends-inner, prefixed}
use node_dlc.Messages.Tlv.{deserialize_tlv}
use node_dlc.Messages.Tlv.Exact.{Reads-tlv}
use node_dlc.Messages.Text.{Utf8, Utf8Laws}
use node_dlc.Messages.Rounds.{Folds}
use node_dlc.Messages.Tagged.{tagged, Reads-tlv_then, length-body_lt}
use node_dlc.Messages.Order.{metadata_type, irc_info_type, position_type, group_type}
use node_dlc.Messages.Order.Format.{
  IsMetadata, metadata_bytes, IsIrcInfo, irc_info_bytes, IsPositionInfo, position_info_bytes,
  IsGroup, group_bytes,
}
use node_dlc.Messages.Order.RoundTrip.{
  Appends-metadata, Appends-irc_info, Appends-position_info, Appends-group,
}
use node_dlc.Messages.Offer.{
  UnknownTlv, Extras, write_given, add_typed, add_tlv, take_tlv, write_extras,
}

abbrev pub given : {A : Type 0} → (A → List ℕ) → Option A → List (List ℕ)
given g none = []
given g (some x) = g x ∷ []

-- The pieces that the stream is written in.
abbrev pub pieces : Extras → List (List ℕ)
pieces x =
    given metadata_bytes x.metadata
    ++ (given irc_info_bytes x.irc_info
        ++ (given position_info_bytes x.position_info
            ++ (map group_bytes x.batch_funding_groups ++ map (λ t. t.content) x.unknown_tlvs)))

abbrev pub joined : List (List ℕ) → List ℕ
joined ps = each_bytes (λ p. p) ps

abbrev pub extras_bytes : Extras → List ℕ
extras_bytes x = joined (pieces x)

abbrev pub IsGiven : {A : Type 0} → (A → Type 0) → Option A → Type 0
IsGiven P none = Unit {0}
IsGiven P (some x) = P x

-- A TLV of none of the four types, whole.
pub record IsUnknown (t : UnknownTlv) : Type 0 where
  pub body : List ℕ
  pub whole : t.content ≡ tagged t.type_id body
  pub small : t.type_id < 2 ^ 53
  pub not_metadata : t.type_id ≢ metadata_type
  pub not_irc : t.type_id ≢ irc_info_type
  pub not_position : t.type_id ≢ position_type
  pub not_group : t.type_id ≢ group_type

pub record IsExtras (x : Extras) : Type 0 where
  pub metadata : IsGiven IsMetadata x.metadata
  pub irc_info : IsGiven IsIrcInfo x.irc_info
  pub position_info : IsGiven IsPositionInfo x.position_info
  pub groups : All IsGroup x.batch_funding_groups
  pub unknown : All IsUnknown x.unknown_tlvs
  pub fits : length (extras_bytes x) ≤ max_size

pub joined-append : (ps qs : List (List ℕ)) → joined (ps ++ qs) ≡ joined ps ++ joined qs
joined-append [] qs = refl
joined-append (p ∷ ps) qs = rw (joined-append ps qs) (sym (append_assoc p (joined ps) (joined qs)))

pub Appends-pieces :
    {m k : Write} (ps qs : List (List ℕ))
    → Appends m (joined ps)
    → Appends k (joined qs)
    → Appends (m >> k) (joined (ps ++ qs))
Appends-pieces ps qs p q = rw (joined-append ps qs) (Appends-seq p q)

Appends-given :
    {A : Type 0} {P : A → Type 0} (f : A → Write) (g : A → List ℕ) (o : Option A)
    → ((x : A) → P x → Appends (f x) (g x))
    → IsGiven P o
    → Appends (write_given f o) (joined (given g o))
unfolding write_given
Appends-given f g none rule v = Appends-pure
Appends-given f g (some x) rule v =
    subst (Appends (write_inner (f x))) (sym (append-nil (g x))) (Appends-inner (rule x v))

pub Appends-mapped :
    {A : Type 0} {P : A → Type 0} (f : A → Write) (g : A → List ℕ) (xs : List A)
    → ((x : A) → P x → Appends (f x) (g x))
    → All P xs
    → Appends (write_each f xs) (joined (map g xs))
unfolding write_each
Appends-mapped f g [] rule v = Appends-pure
Appends-mapped f g (x ∷ xs) rule (v, vs) = Appends-seq (rule x v) (Appends-mapped f g xs rule vs)

module _ (utf : Utf8) (laws : Utf8Laws utf) where
  pub Appends-extras : (x : Extras) → IsExtras x → Appends (write_extras utf x) (extras_bytes x)
  unfolding write_extras
  Appends-extras x v =
      Appends-pieces (given metadata_bytes x.metadata) _
        (Appends-given _ metadata_bytes x.metadata (Appends-metadata utf laws) v.metadata)
        (Appends-pieces (given irc_info_bytes x.irc_info) _
          (Appends-given _ irc_info_bytes x.irc_info (Appends-irc_info utf laws) v.irc_info)
          (Appends-pieces (given position_info_bytes x.position_info) _
            (Appends-given _ position_info_bytes x.position_info (Appends-position_info utf laws)
              v.position_info)
            (Appends-pieces (map group_bytes x.batch_funding_groups) _
              (Appends-mapped _ group_bytes x.batch_funding_groups
                (λ g p. Appends-inner (Appends-group utf laws g p)) v.groups)
              (Appends-mapped {P = IsUnknown} _ (λ t. t.content) x.unknown_tlvs
                (λ t p. Appends-write_bytes t.content) v.unknown))))

  module _ (x y : Extras) (type_id : ℕ) (body : List ℕ) where
    -- A piece is cut out, and dealt with by its type.
    Reads-take_tlv :
        type_id < 2 ^ 64
        → length (tagged type_id body) ≤ max_size
        → add_typed utf x (tagged type_id body) type_id ≡ value y
        → Reads (take_tlv utf x) (tagged type_id body) y
    unfolding take_tlv add_tlv
    Reads-take_tlv small fits e =
        let found : result (deserialize_tlv (reader (tagged type_id body)))
            ≡ value (record { type_id = type_id; size = length body; body = body }) =
          Reads-result
            (Reads-end (Reads-tlv _ small (length-body_lt type_id body small fits) refl)) in
        Reads-tlv_then type_id body small fits (add_tlv utf x) (rw found e)

    pub step :
        type_id < 2 ^ 64
        → length (tagged type_id body) ≤ max_size
        → add_typed utf x (tagged type_id body) type_id ≡ value y
        → Folds (take_tlv utf) (λ p. p) x (tagged type_id body ∷ []) y
    step small fits e = (
      y,
      omega (arith, length-append (big_size type_id) (prefixed body), length-big_size_pos type_id),
      Reads-take_tlv small fits e,
      refl,
    )
