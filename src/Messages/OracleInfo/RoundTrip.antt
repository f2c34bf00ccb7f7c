-- ===== src/Messages/OracleInfo/RoundTrip.antt =====
-- What an oracle info writes it finds again, whatever bytes follow.
use node_dlc.Prelude.{
  ℕ, ◌^◌, ◌≤◌, ◌<◌, ◌≡◌, refl, ap, subst, arith, Bool, Option, none, some, List, ◌++◌, length,
  length-append, All, value,
}
use node_dlc.Bufio.Bytes.{be_bytes}
use node_dlc.Bufio.Reader.Reads.{Reads, Reads-bind}
use node_dlc.Bufio.Reader.Finds.{
  Finds, Finds-bind, Finds-map, Finds-result, Finds-optional, Finds-absent,
}
use node_dlc.Bufio.Reader.Numbers.{Reads-map, Reads-u8, Reads-u16}
use node_dlc.Bufio.Writer.{write_optional}
use node_dlc.Bufio.Writer.Expand.{max_size}
use node_dlc.Bufio.Writer.Appends.{Appends, Appends-seq}
use node_dlc.Bufio.Writer.Numbers.{optional, Appends-u8, Appends-u16, Appends-optional}
use node_dlc.Bufio.RoundTrip.{Appends-output}
use node_dlc.Messages.Codec.{
  flag_bytes, flag_small, flag_back, counted, Appends-counted, Reads-counted, Appends-inner,
  Appends-from, Reads-result_front,
}
use node_dlc.Messages.Text.{Utf8, Utf8Laws}
use node_dlc.Messages.Oracle.{OracleAnnouncement}
use node_dlc.Messages.Oracle.RoundTrip.{
  IsAnnouncement, announcement_bytes, Appends-announcement, Reads-announcement_tlv,
  serialize_announcement_lem, deserialize_announcement_lem,
}
use node_dlc.Messages.OracleInfo.{
  OracleParams, MultiOracleInfo, OracleInfo, single, multi, write_params_body, read_params_body,
  write_params_option, params_from, read_params_option, write_multi_body, read_cut_announcement,
  read_multi_body, serialize_oracle_body, deserialize_single_body, deserialize_multi_body,
}

pub record IsParams (x : OracleParams) : Type 0 where
  pub error : x.max_error_exp < 2 ^ 16
  pub fail : x.min_fail_exp < 2 ^ 16

abbrev pub params_bytes : OracleParams → List ℕ
params_bytes x =
    be_bytes 2 x.max_error_exp ++ (be_bytes 2 x.min_fail_exp ++ flag_bytes x.maximize_coverage)

abbrev pub IsParamsOption : Option OracleParams → Type 0
IsParamsOption none = Unit {0}
IsParamsOption (some x) = IsParams x

abbrev pub params_option_bytes : Option OracleParams → List ℕ
params_option_bytes none = optional none
params_option_bytes (some x) = optional (some (params_bytes x))

pub record IsMulti (x : MultiOracleInfo) : Type 0 where
  pub threshold : x.threshold < 2 ^ 16
  pub count : length x.announcements < 2 ^ 64
  pub announcements :
      All (λ a. IsAnnouncement a × (length (announcement_bytes a) ≤ max_size)) x.announcements
  pub params : IsParamsOption x.oracle_params

abbrev pub multi_bytes : MultiOracleInfo → List ℕ
multi_bytes x =
    be_bytes 2 x.threshold
    ++ (counted announcement_bytes x.announcements ++ params_option_bytes x.oracle_params)

abbrev pub IsOracleInfo : OracleInfo → Type 0
IsOracleInfo (single x) = IsAnnouncement x
IsOracleInfo (multi x) = IsMulti x

abbrev pub oracle_info_bytes : OracleInfo → List ℕ
oracle_info_bytes (single x) = announcement_bytes x
oracle_info_bytes (multi x) = multi_bytes x

module _ (x : OracleParams) (v : IsParams x) where
  Appends-params : Appends (write_params_body x) (params_bytes x)
  unfolding write_params_body
  Appends-params =
      Appends-seq (Appends-u16 _ v.error)
        (Appends-seq (Appends-u16 _ v.fail) (Appends-u8 _ (flag_small x.maximize_coverage)))

  Reads-params : Reads read_params_body (params_bytes x) x
  unfolding read_params_body
  Reads-params =
      subst (Reads read_params_body (params_bytes x))
        (ap (λ (b : Bool). record x { maximize_coverage = b }) (flag_back x.maximize_coverage))
        (Reads-bind _ (Reads-u16 _ v.error) (
          Reads-bind _ (Reads-u16 _ v.fail)
            (Reads-map _ (Reads-u8 _ (flag_small x.maximize_coverage)))))

Appends-params_option :
    (o : Option OracleParams)
    → IsParamsOption o
    → Appends (write_params_option o) (params_option_bytes o)
unfolding write_params_option
Appends-params_option none v = Appends-optional none
Appends-params_option (some x) v =
    Appends-from (λ d. write_optional (some d)) (Appends-params x v)
      (omega (arith, length-append (be_bytes 1 1) (params_bytes x)))
      (λ h. Appends-optional (some (params_bytes x)))

Finds-params_option :
    (o : Option OracleParams)
    → IsParamsOption o
    → Finds read_params_option (params_option_bytes o) o
unfolding read_params_option params_from
Finds-params_option none v = Finds-absent params_from (λ r. refl)
Finds-params_option (some x) v =
    Finds-optional params_from (params_bytes x)
      (λ rest r. rw (Reads-result_front (Reads-params x v) rest) refl)

module _ (utf : Utf8) (laws : Utf8Laws utf) where
  module _ (x : MultiOracleInfo) (v : IsMulti x) where
    Appends-multi : Appends (write_multi_body utf x) (multi_bytes x)
    unfolding write_multi_body
    Appends-multi = Appends-seq (Appends-u16 _ v.threshold) (
        Appends-seq
          (Appends-counted announcement_bytes x.announcements _
            (λ a p. Appends-inner (Appends-announcement utf laws a p.0)) v.count v.announcements)
          (Appends-params_option x.oracle_params v.params))

    Finds-multi : Finds (read_multi_body utf) (multi_bytes x) x
    unfolding read_multi_body read_cut_announcement
    Finds-multi = Finds-bind _ (Reads-u16 _ v.threshold) (
        Finds-bind _
          (Reads-counted announcement_bytes x.announcements (read_cut_announcement utf)
            (λ a p. Reads-announcement_tlv utf laws a p.0 p.1) v.count v.announcements)
          (Finds-map _ (Finds-params_option x.oracle_params v.params)))

  -- Of every oracle info that is in range and fits in 2^30 bytes, the body that is written is read,
  -- whatever bytes follow.
  pub serialize_oracle_lem :
      (x : OracleInfo)
      → IsOracleInfo x
      → length (oracle_info_bytes x) ≤ max_size
      → serialize_oracle_body utf x ≡ value (oracle_info_bytes x)
  unfolding serialize_oracle_body
  serialize_oracle_lem (single x) v size = serialize_announcement_lem utf laws x v size
  serialize_oracle_lem (multi x) v size = Appends-output _ _ (Appends-multi x v) size

  module _ (rest : List ℕ) where
    pub deserialize_single_lem :
        (x : OracleAnnouncement)
        → IsAnnouncement x
        → length (announcement_bytes x) ≤ max_size
        → deserialize_single_body utf (announcement_bytes x ++ rest) ≡ value (single x)
    unfolding deserialize_single_body
    deserialize_single_lem x v size = rw (deserialize_announcement_lem utf laws x v size rest) refl

    pub deserialize_multi_lem :
        (x : MultiOracleInfo)
        → IsMulti x
        → deserialize_multi_body utf (multi_bytes x ++ rest) ≡ value (multi x)
    unfolding deserialize_multi_body
    deserialize_multi_lem x v = rw (Finds-result (Finds-multi x v) rest) refl
