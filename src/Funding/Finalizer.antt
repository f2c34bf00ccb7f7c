-- ===== src/Funding/Finalizer.antt =====
-- packages/core/lib/dlc/TxFinalizer.ts. A funding input is seen by its witness and redeem script;
-- a script public key by its length. Sizes are exact: `Decimal` divides without loss there.
pub mod Bounds
use node_dlc.Prelude.{
  ℕ, zero, suc, ◌+◌, ◌*◌, ◌/◌, ◌<◌, ◌≡◌, refl, arith, Option, none, some, List, [], ◌∷◌, map,
  length, replicate, ltb, ◌==◌, if◌then◌else◌, and_then, Result, value, error, bad_length,
}

pub data ScriptType : Type 0 where
  p2wpkh p2wsh p2tr : ScriptType

unfoldable pub get_max_witness_len : ScriptType → ℕ
get_max_witness_len p2wpkh = 108
get_max_witness_len p2wsh = 108
get_max_witness_len p2tr = 66

abbrev pub default_max_witness_len : ℕ
default_max_witness_len = 108

-- `new Decimal(weight).div(4).ceil()`.
unfoldable pub vbytes_of : ℕ → ℕ
vbytes_of weight = (weight + 3) / 4

unfoldable pub funding_input_vbytes : ℕ → ℕ → ℕ
funding_input_vbytes max_witness_len script_sig_length =
    vbytes_of (164 + max_witness_len + script_sig_length)

pub record Input : Type 0 where
  pub max_witness_len : ℕ
  pub redeem_script : List ℕ

unfoldable pub funding_input_with_witness_len : ℕ → Input
funding_input_with_witness_len n = record { max_witness_len = n; redeem_script = [] }

unfoldable pub script_sig_length : Input → ℕ
script_sig_length x = script_size x.redeem_script
  where
    script_size : List ℕ → ℕ
    script_size [] = 0
    script_size (b ∷ bs) = 1 + length (b ∷ bs)

-- The argument is one length for all the inputs, or one for each.
pub data WitnessLens : Type 0 where
  same : ℕ → WitnessLens
  each : List ℕ → WitnessLens

unfoldable pub funding_inputs_with_witness_lens : ℕ → WitnessLens → Result (List Input)
funding_inputs_with_witness_lens count (same n) =
    value (map funding_input_with_witness_len (replicate count n))
funding_inputs_with_witness_lens count (each lens) =
    if length lens == count
    then value (map funding_input_with_witness_len lens)
    else error bad_length

-- The `reduce` over the inputs, from `total` on.
unfoldable pub add_weights : ℕ → List Input → ℕ
add_weights total [] = total
add_weights total (x ∷ xs) = add_weights (total + 164 + x.max_witness_len + script_sig_length x) xs

pub record Fees : Type 0 where
  pub future_fee : ℕ
  pub funding_fee : ℕ

-- `DualFundingTxFinalizer`: the scripts are their lengths.
pub record DualFunding : Type 0 where
  pub offer_inputs : List Input
  pub offer_payout_spk : ℕ
  pub offer_change_spk : ℕ
  pub accept_inputs : List Input
  pub accept_payout_spk : ℕ
  pub accept_change_spk : ℕ
  pub fee_rate : ℕ
  pub num_contracts : ℕ

-- `futureFeeVBytes` and `vbytes` of `computeFees`. The halved contract weight is whole, since 42
-- and 172 are even.
unfoldable pub future_vbytes : ℕ → ℕ → ℕ
future_vbytes payout_spk num_contracts = vbytes_of ((249 + 4 * payout_spk) * num_contracts)

unfoldable pub funding_vbytes : List Input → ℕ → ℕ → ℕ
funding_vbytes inputs change_spk num_contracts =
    let contract_weight = (42 + 43 * num_contracts * 4) / 2 in
    let output_weight = 36 + 4 * change_spk + contract_weight in
    vbytes_of (output_weight + add_weights 0 inputs)

unfoldable pub compute_fees : ℕ → List Input → ℕ → ℕ → ℕ → Fees
compute_fees fee_rate [] payout_spk change_spk num_contracts = record {
  future_fee = 0;
  funding_fee = 0;
}
compute_fees fee_rate (x ∷ xs) payout_spk change_spk num_contracts = record {
  future_fee = fee_rate * future_vbytes payout_spk num_contracts;
  funding_fee = fee_rate * funding_vbytes (x ∷ xs) change_spk num_contracts;
}

unfoldable pub get_offer_fees : DualFunding → Fees
get_offer_fees d =
    compute_fees d.fee_rate d.offer_inputs d.offer_payout_spk d.offer_change_spk d.num_contracts

unfoldable pub get_accept_fees : DualFunding → Fees
get_accept_fees d =
    compute_fees d.fee_rate d.accept_inputs d.accept_payout_spk d.accept_change_spk d.num_contracts

unfoldable pub offer_fees : DualFunding → ℕ
offer_fees d = (get_offer_fees d).future_fee + (get_offer_fees d).funding_fee

unfoldable pub accept_fees : DualFunding → ℕ
accept_fees d = (get_accept_fees d).future_fee + (get_accept_fees d).funding_fee

-- `DualClosingTxFinalizer`.
pub record DualClosing : Type 0 where
  pub initiator_inputs : List Input
  pub offer_payout_spk : ℕ
  pub accept_payout_spk : ℕ
  pub fee_rate : ℕ

unfoldable pub closing_fees : ℕ → ℕ → List Input → ℕ
closing_fees fee_rate payout_spk inputs =
    fee_rate * vbytes_of (213 + (36 + 4 * payout_spk) + add_weights 0 inputs)

unfoldable pub offer_initiator_fees : DualClosing → ℕ
offer_initiator_fees d = closing_fees d.fee_rate d.offer_payout_spk d.initiator_inputs

unfoldable pub offer_reciprocator_fees : DualClosing → ℕ
offer_reciprocator_fees d = closing_fees d.fee_rate d.offer_payout_spk []

unfoldable pub accept_initiator_fees : DualClosing → ℕ
accept_initiator_fees d = closing_fees d.fee_rate d.accept_payout_spk d.initiator_inputs

unfoldable pub accept_reciprocator_fees : DualClosing → ℕ
accept_reciprocator_fees d = closing_fees d.fee_rate d.accept_payout_spk []

-- The inputs that were given, or one of the given witness length.
unfoldable pub inputs_or_one : Option (List Input) → WitnessLens → Result (List Input)
inputs_or_one (some inputs) lens = value inputs
inputs_or_one none lens = funding_inputs_with_witness_lens 1 lens

unfoldable pub contracts_or_one : Option ℕ → ℕ
contracts_or_one (some n) = n
contracts_or_one none = 1

-- The script that stands for all four has 22 bytes.
unfoldable pub get_finalizer :
    ℕ
    → Option (List Input)
    → Option (List Input)
    → Option ℕ
    → WitnessLens
    → WitnessLens
    → Result DualFunding
get_finalizer fee_rate offer_inputs accept_inputs num_contracts offer_lens accept_lens =
    and_then (inputs_or_one offer_inputs offer_lens) (λ offers.
      and_then (inputs_or_one accept_inputs accept_lens) (λ accepts. value (record {
        offer_inputs = offers;
        offer_payout_spk = 22;
        offer_change_spk = 22;
        accept_inputs = accepts;
        accept_payout_spk = 22;
        accept_change_spk = 22;
        fee_rate = fee_rate;
        num_contracts = contracts_or_one num_contracts;
      })))

unfoldable pub get_finalizer_by_count :
    ℕ → ℕ → ℕ → ℕ → WitnessLens → WitnessLens → Result DualFunding
get_finalizer_by_count fee_rate num_offers num_accepts num_contracts offer_lens accept_lens =
    and_then (funding_inputs_with_witness_lens num_offers offer_lens) (λ offers.
      and_then (funding_inputs_with_witness_lens num_accepts accept_lens) (λ accepts.
        get_finalizer fee_rate (some offers) (some accepts) (some num_contracts)
          (same default_max_witness_len) (same default_max_witness_len)))
