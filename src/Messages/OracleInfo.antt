-- ===== src/Messages/OracleInfo.antt =====
-- packages/messaging/lib/messages/OracleInfo.ts: one oracle or several, written without their type
-- as ContractInfo embeds them.
pub mod RoundTrip
use node_dlc.Prelude.{
  ℕ, Bool, Option, none, some, List, length, ◌==◌, if◌then◌else◌, Result, value, and_then, lift,
  result, ◌>>=◌, ◌>>◌, pure,
}
use node_dlc.Bufio.Reader.{Read, reader, read_big_size, read_u8, read_u16_be, read_optional}
use node_dlc.Bufio.Writer.{Write, output, write_big_size, write_u8, write_u16_be, write_optional}
use node_dlc.Messages.Codec.{write_counted, read_counted, write_inner}
use node_dlc.Messages.Tlv.{get_tlv}
use node_dlc.Messages.Text.{Utf8}
use node_dlc.Messages.Oracle.{OracleAnnouncement, write_announcement, deserialize_announcement}

pub record OracleParams : Type 0 where
  pub max_error_exp : ℕ
  pub min_fail_exp : ℕ
  pub maximize_coverage : Bool

pub record MultiOracleInfo : Type 0 where
  pub threshold : ℕ
  pub announcements : List OracleAnnouncement
  pub oracle_params : Option OracleParams

pub data OracleInfo : Type 0 where
  single : OracleAnnouncement → OracleInfo
  multi : MultiOracleInfo → OracleInfo

unfoldable pub write_params_body : OracleParams → Write
write_params_body x = do
  write_u16_be x.max_error_exp
  write_u16_be x.min_fail_exp
  write_u8 (if x.maximize_coverage then 1 else 0)

unfoldable pub read_params_body : Read OracleParams
read_params_body = do
  max_error_exp ← read_u16_be
  min_fail_exp ← read_u16_be
  coverage ← read_u8
  pure (record {
    max_error_exp = max_error_exp;
    min_fail_exp = min_fail_exp;
    maximize_coverage = coverage == 1;
  })

unfoldable pub write_params_option : Option OracleParams → Write
write_params_option none = write_optional none
write_params_option (some x) = do
  params ← lift (output (write_params_body x))
  write_optional (some params)

unfoldable pub params_from : Option (List ℕ) → Read (Option OracleParams)
params_from none = pure none
params_from (some payload) = do x ← lift (result (read_params_body (reader payload))); pure (some x)

unfoldable pub read_params_option : Read (Option OracleParams)
read_params_option = do params_data ← read_optional; params_from params_data

module _ (utf : Utf8) where
  unfoldable pub write_multi_body : MultiOracleInfo → Write
  write_multi_body x = do
    write_u16_be x.threshold
    write_counted (λ a. write_inner (write_announcement utf a)) x.announcements
    write_params_option x.oracle_params

  unfoldable pub read_cut_announcement : Read OracleAnnouncement
  read_cut_announcement = do buf ← get_tlv; lift (deserialize_announcement utf buf)

  unfoldable pub read_multi_body : Read MultiOracleInfo
  read_multi_body = do
    threshold ← read_u16_be
    announcements ← read_counted read_cut_announcement
    oracle_params ← read_params_option
    pure (record {
      threshold = threshold;
      announcements = announcements;
      oracle_params = oracle_params;
    })

  unfoldable pub serialize_oracle_body : OracleInfo → Result (List ℕ)
  serialize_oracle_body (single x) = output (write_announcement utf x)
  serialize_oracle_body (multi x) = output (write_multi_body x)

  unfoldable pub deserialize_single_body : List ℕ → Result OracleInfo
  deserialize_single_body buf = and_then (deserialize_announcement utf buf) (λ x. value (single x))

  unfoldable pub deserialize_multi_body : List ℕ → Result OracleInfo
  deserialize_multi_body buf =
      and_then (result (read_multi_body (reader buf))) (λ x. value (multi x))
