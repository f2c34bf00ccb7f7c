-- ===== src/Messages/Offer/Validate.antt =====
-- packages/messaging/lib/messages/DlcOffer.ts: `validate`, and the marks of a single funded offer.
use node_dlc.Prelude.{
  ℕ, ◌≤◌, ◌<◌, ◌≡◌, ◌≢◌, ◌⊎◌, ◌↔◌, inl, inr, refl, arith, Bool, true, not, ◌&&◌, ◌||◌, Bool-cases,
  map, ltb, leb, ◌==◌, if◌then◌else◌, bad_value, Result, value, error, and_then, guard, ◌also◌,
  guard-also, guard-eq-value, also-eq-value,
}
use node_dlc.Messages.Text.{Utf8}
use node_dlc.Messages.Oracle.Validate.{Signing}
use node_dlc.Messages.Contract.{get_total_collateral}
use node_dlc.Messages.Contract.Validate.{
  validate_contract_info, SoundContract, validate_contract_info-Sound,
}
use node_dlc.Messages.Parties.{
  Standards, validate_party, validate_serial_ids, funding_amount, Distinct, IsParty,
  validate_party-IsParty, validate_serial_ids-Distinct,
}
use node_dlc.Messages.Offer.{DlcOffer}

abbrev pub locktime_threshold : ℕ
locktime_threshold = 500000000

unfoldable pub mark_as_single_funded : DlcOffer → Result DlcOffer
mark_as_single_funded x =
    if get_total_collateral x.contract_info == x.offer_collateral
    then value (record x { single_funded = true })
    else error bad_value

unfoldable pub is_single_funded : DlcOffer → Bool
is_single_funded x = x.single_funded || (get_total_collateral x.contract_info == x.offer_collateral)

unfoldable pub same_units : ℕ → ℕ → Bool
same_units a b =
    (ltb a locktime_threshold && ltb b locktime_threshold)
    || (leb locktime_threshold a && leb locktime_threshold b)

unfoldable pub validate_collateral : DlcOffer → Result (Unit {0})
validate_collateral x =
    let total = get_total_collateral x.contract_info in
    if is_single_funded x
    then guard (total == x.offer_collateral) bad_value
    else guard (ltb x.offer_collateral total) bad_value

unfoldable pub validate_funding : DlcOffer → ℕ → Result (Unit {0})
validate_funding x amount =
    if is_single_funded x
    then guard (leb (get_total_collateral x.contract_info) amount) bad_value
    else guard (ltb x.offer_collateral amount) bad_value

module _ (utf : Utf8) (signing : Signing) (std : Standards) where
  -- Locktimes that were read are not negative.
  unfoldable pub validate_offer : DlcOffer → Result (Unit {0})
  validate_offer x =
      validate_party std x.protocol_version x.temporary_contract_id x.payout_spk x.change_spk
        x.funding_pubkey
      also guard (leb 1000 x.offer_collateral) bad_value
      also guard (same_units x.cet_locktime x.refund_locktime) bad_value
      also guard (ltb x.cet_locktime x.refund_locktime) bad_value
      also validate_serial_ids x.funding_inputs
      also guard (not (x.change_serial_id == x.fund_output_serial_id)) bad_value
      also validate_contract_info utf signing x.contract_info
      also validate_collateral x
      also and_then (funding_amount x.funding_inputs) (validate_funding x)

  -- The offering party can pay: its inputs hold more than its collateral, which is less than the
  -- total, or hold the whole total where that is its collateral.
  abbrev pub Funded : DlcOffer → ℕ → Type 0
  Funded x amount =
      ((get_total_collateral x.contract_info ≡ x.offer_collateral) × (x.offer_collateral ≤ amount))
      ⊎ ((x.offer_collateral < get_total_collateral x.contract_info)
          × (x.offer_collateral < amount))

  pub record IsSoundOffer (x : DlcOffer) : Type 0 where
    pub party :
        IsParty std x.protocol_version x.temporary_contract_id x.payout_spk x.change_spk
          x.funding_pubkey
    pub collateral : 1000 ≤ x.offer_collateral
    pub units : (x.cet_locktime < locktime_threshold) ↔ (x.refund_locktime < locktime_threshold)
    pub order : x.cet_locktime < x.refund_locktime
    pub serial_ids : Distinct (map (λ i. i.input_serial_id) x.funding_inputs)
    pub change : x.change_serial_id ≢ x.fund_output_serial_id
    pub contract : SoundContract utf signing x.contract_info
    pub amount : ℕ
    pub held : funding_amount x.funding_inputs ≡ value amount
    pub funded : Funded x amount

  same_units_iff :
      (a b : ℕ) → same_units a b ≡ true → (a < locktime_threshold) ↔ (b < locktime_threshold)
  unfolding same_units
  same_units_iff a b h = (λ p. ground arith, λ p. ground arith)

  collateral_funded :
      (x : DlcOffer) (amount : ℕ)
      → validate_collateral x ≡ value tt
      → validate_funding x amount ≡ value tt
      → Funded x amount
  unfolding validate_collateral validate_funding
  collateral_funded x amount c f = elim (Bool-cases (is_single_funded x)) [
    | inl one ↦
        let same = guard-eq-value _ bad_value (rw one at c) in
        let held = guard-eq-value _ bad_value (rw one at f) in inl (ground arith, ground arith)
    | inr both ↦
        let less = guard-eq-value _ bad_value (rw both at c) in
        let held = guard-eq-value _ bad_value (rw both at f) in inr (ground arith, ground arith)
  ]

  amount_of :
      (x : DlcOffer) (r : Result ℕ)
      → and_then r (validate_funding x) ≡ value tt
      → (amount : ℕ) × (r ≡ value amount) × (validate_funding x amount ≡ value tt)
  amount_of x (value n) h = (n, refl, h)
  amount_of x (error e) h = cc

  -- Whatever offer validate accepts has the current version, addresses, a compressed key, a
  -- collateral of 1000 at least, locktimes of one unit in their order, no input serial id twice,
  -- and different serial ids of change and fund output; each of its oracles can attest to its
  -- event; and its inputs hold more than its collateral, which is less than the total, or hold
  -- the total where that is its collateral.
  pub validate_offer-IsSoundOffer : (x : DlcOffer) → validate_offer x ≡ value tt → IsSoundOffer x
  unfolding validate_offer
  validate_offer-IsSoundOffer x h =
      let (party, h₁) = also-eq-value (validate_party std _ _ _ _ _) h in
      let (enough, h₂) = guard-also (leb 1000 x.offer_collateral) bad_value h₁ in
      let (units, h₃) = guard-also (same_units x.cet_locktime x.refund_locktime) bad_value h₂ in
      let (order, h₄) = guard-also (ltb x.cet_locktime x.refund_locktime) bad_value h₃ in
      let (ids, h₅) = also-eq-value (validate_serial_ids x.funding_inputs) h₄ in
      let (change, h₆) =
        guard-also (not (x.change_serial_id == x.fund_output_serial_id)) bad_value h₅ in
      let (contract, h₇) = also-eq-value (validate_contract_info utf signing x.contract_info) h₆ in
      let (collateral, h₈) = also-eq-value (validate_collateral x) h₇ in
      let (amount, held, funding) = amount_of x (funding_amount x.funding_inputs) h₈ in
      record {
        party = validate_party-IsParty std _ _ _ _ _ party;
        collateral = ground arith;
        units = same_units_iff x.cet_locktime x.refund_locktime units;
        order = ground arith;
        serial_ids = validate_serial_ids-Distinct x.funding_inputs ids;
        change = λ e. ground arith;
        contract = validate_contract_info-Sound utf signing x.contract_info contract;
        amount = amount;
        held = held;
        funded = collateral_funded x amount collateral funding;
      }
