-- ===== src/Messages/Contract/Validate.antt =====
-- `validate` of packages/messaging/lib/messages/OracleInfo.ts and ContractInfo.ts. An error inside a
-- pair of a disjoint contract is thrown again under another message.
use node_dlc.Prelude.{
  ◌≤◌, ◌<◌, ◌≡◌, arith, Option, none, some, List, [], ◌∷◌, length, All, ltb, leb, bad_value, Result,
  value, guard, ◌also◌, guard-also, also-eq-value, check_each, check_each-eq-value,
}
use node_dlc.Messages.Text.{Utf8}
use node_dlc.Messages.Oracle.{OracleAnnouncement}
use node_dlc.Messages.Oracle.Validate.{
  Signing, validate_event, validate_announcement, IsAttestable, validate_event-IsAttestable,
}
use node_dlc.Messages.OracleInfo.{OracleParams, MultiOracleInfo, OracleInfo, single, multi}
use node_dlc.Messages.Contract.{ContractOraclePair, ContractInfo, single_info, disjoint_info}

-- Numbers that were read are not negative.
unfoldable pub validate_params : OracleParams → Result (Unit {0})
validate_params x = guard (ltb x.max_error_exp x.min_fail_exp) bad_value

unfoldable pub validate_params_option : Option OracleParams → Result (Unit {0})
validate_params_option none = value tt
validate_params_option (some x) = validate_params x

module _ (utf : Utf8) (signing : Signing) where
  unfoldable pub validate_multi : MultiOracleInfo → Result (Unit {0})
  validate_multi x =
      guard (ltb 0 x.threshold) bad_value
      also guard (leb x.threshold (length x.announcements)) bad_value
      also guard (ltb 0 (length x.announcements)) bad_value
      also check_each (validate_announcement utf signing) x.announcements
      also validate_params_option x.oracle_params

  unfoldable pub validate_oracle_info : OracleInfo → Result (Unit {0})
  validate_oracle_info (single x) = validate_announcement utf signing x
  validate_oracle_info (multi x) = validate_multi x

  unfoldable pub validate_pair : ContractOraclePair → Result (Unit {0})
  validate_pair x = validate_oracle_info x.oracle_info

  unfoldable pub validate_contract_info : ContractInfo → Result (Unit {0})
  validate_contract_info (single_info total pair) =
      guard (ltb 0 total) bad_value also validate_pair pair
  validate_contract_info (disjoint_info total pairs) =
      guard (ltb 0 total) bad_value
      also guard (ltb 0 (length pairs)) bad_value
      also check_each validate_pair pairs

  -- A single oracle, or some of several, each of whose events it can attest to.
  abbrev pub SoundOracle : OracleInfo → Type 0
  SoundOracle (single x) = IsAttestable x.oracle_event
  SoundOracle (multi x) =
      (0 < x.threshold)
      × (x.threshold ≤ length x.announcements)
      × All (λ a. IsAttestable a.oracle_event) x.announcements

  abbrev pub SoundContract : ContractInfo → Type 0
  SoundContract (single_info total pair) = (0 < total) × SoundOracle pair.oracle_info
  SoundContract (disjoint_info total pairs) =
      (0 < total) × (0 < length pairs) × All (λ p. SoundOracle p.oracle_info) pairs

  announcement-IsAttestable :
      (x : OracleAnnouncement)
      → validate_announcement utf signing x ≡ value tt
      → IsAttestable x.oracle_event
  unfolding validate_announcement
  announcement-IsAttestable x h =
      validate_event-IsAttestable x.oracle_event
        ((also-eq-value (validate_event x.oracle_event) h).0)

  all-IsAttestable :
      (xs : List OracleAnnouncement)
      → All (λ x. validate_announcement utf signing x ≡ value tt) xs
      → All (λ x. IsAttestable x.oracle_event) xs
  all-IsAttestable [] h = tt
  all-IsAttestable (x ∷ xs) (h, hs) = (announcement-IsAttestable x h, all-IsAttestable xs hs)

  oracle-Sound : (x : OracleInfo) → validate_oracle_info x ≡ value tt → SoundOracle x
  unfolding validate_oracle_info validate_multi
  oracle-Sound (single x) h = announcement-IsAttestable x h
  oracle-Sound (multi x) h =
      let (positive, h₁) = guard-also (ltb 0 x.threshold) bad_value h in
      let (enough, h₂) = guard-also (leb x.threshold (length x.announcements)) bad_value h₁ in
      let (some_one, h₃) = guard-also (ltb 0 (length x.announcements)) bad_value h₂ in
      let (each, params) =
        also-eq-value (check_each (validate_announcement utf signing) x.announcements) h₃ in
      (
        ground arith,
        ground arith,
        all-IsAttestable x.announcements (check_each-eq-value _ x.announcements each),
      )

  all_sound :
      (ps : List ContractOraclePair)
      → All (λ p. validate_pair p ≡ value tt) ps
      → All (λ p. SoundOracle p.oracle_info) ps
  unfolding validate_pair
  all_sound [] h = tt
  all_sound (p ∷ ps) (h, hs) = (oracle-Sound p.oracle_info h, all_sound ps hs)

  pub validate_contract_info-Sound :
      (x : ContractInfo) → validate_contract_info x ≡ value tt → SoundContract x
  unfolding validate_contract_info validate_pair
  validate_contract_info-Sound (single_info total pair) h =
      let (positive, oracle) = guard-also (ltb 0 total) bad_value h in
      (ground arith, oracle-Sound pair.oracle_info oracle)
  validate_contract_info-Sound (disjoint_info total pairs) h =
      let (positive, h₁) = guard-also (ltb 0 total) bad_value h in
      let (some_pair, each) = guard-also (ltb 0 (length pairs)) bad_value h₁ in
      (ground arith, ground arith, all_sound pairs (check_each-eq-value _ pairs each))
