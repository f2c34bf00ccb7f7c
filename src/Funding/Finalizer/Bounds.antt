-- ===== src/Funding/Finalizer/Bounds.antt =====
-- Bounds on the fees that the finalizers compute.
use node_dlc.Prelude.{ℕ, ◌+◌, ◌*◌, ◌≤◌, ◌<◌, length, ◌≡◌, refl, arith, List, [], ◌∷◌}
use native.Mathlib.Nat.{mul-le-mul_left}
use node_dlc.Funding.Finalizer.{
  Input, vbytes_of, script_sig_length, add_weights, future_vbytes, funding_vbytes, compute_fees,
  closing_fees, DualClosing, offer_initiator_fees, offer_reciprocator_fees, accept_initiator_fees,
  accept_reciprocator_fees,
}

-- A redeem script with the byte of its length; an empty one has none.
abbrev framed : List ℕ → List ℕ
framed [] = []
framed (b ∷ bs) = length (b ∷ bs) ∷ b ∷ bs

-- The weight of the inputs, each with its outpoint and sequence, its witness and its script.
abbrev pub inputs_weight : List Input → ℕ
inputs_weight [] = 0
inputs_weight (x ∷ xs) =
    164 + x.max_witness_len + length (framed x.redeem_script) + inputs_weight xs

-- Half of the 42 of a funding transaction and of the 43 bytes of each funding output, the party's
-- own output, and its inputs.
abbrev pub funding_weight : List Input → ℕ → ℕ → ℕ
funding_weight xs change_spk num_contracts =
    21 + 86 * num_contracts + (36 + 4 * change_spk) + inputs_weight xs

-- A whole number of virtual bytes that holds a weight, and no larger one than is needed.
abbrev pub IsRounded : ℕ → ℕ → Type 0
IsRounded weight vbytes = (weight ≤ 4 * vbytes) × (4 * vbytes < weight + 4)

script_sig_length-framed : (x : Input) → script_sig_length x ≡ length (framed x.redeem_script)
unfolding script_sig_length
script_sig_length-framed x = by_script x.redeem_script
  where
    by_script :
        (bs : List ℕ) → script_sig_length (record x { redeem_script = bs }) ≡ length (framed bs)
    by_script [] = unfold script_sig_length in refl
    by_script (b ∷ bs) = unfold script_sig_length in omega arith

add_weights-inputs_weight :
    (total : ℕ) (xs : List Input) → add_weights total xs ≡ total + inputs_weight xs
unfolding add_weights
add_weights-inputs_weight total [] = omega arith
add_weights-inputs_weight total (x ∷ xs) = omega (
  arith,
  add_weights-inputs_weight (total + 164 + x.max_witness_len + script_sig_length x) xs,
  script_sig_length-framed x,
)

funding_vbytes-IsRounded :
    (xs : List Input) (spk n : ℕ) → IsRounded (funding_weight xs spk n) (funding_vbytes xs spk n)
unfolding funding_vbytes vbytes_of
funding_vbytes-IsRounded xs spk n =
    let e = add_weights-inputs_weight 0 xs in (omega (arith, e), omega (arith, e))

future_vbytes-IsRounded : (spk n : ℕ) → IsRounded ((249 + 4 * spk) * n) (future_vbytes spk n)
unfolding future_vbytes vbytes_of
future_vbytes-IsRounded spk n = (omega arith, omega arith)

-- With no inputs computeFees charges nothing. With at least one, the fees are the fee rate times
-- the least whole numbers of virtual bytes that hold the weights: for the future fee, 249 and
-- four times the payout script for each contract; for the funding fee, 21, 86 for each contract,
-- 36 and four times the change script, and of each input 164, its witness length and its redeem
-- script with a length byte, where it is not empty.
pub compute_fees-IsRounded :
    (fee_rate : ℕ) (x : Input) (xs : List Input) (payout_spk change_spk n : ℕ)
    → let fees = compute_fees fee_rate (x ∷ xs) payout_spk change_spk n in
      (compute_fees fee_rate [] payout_spk change_spk n
        ≡ record { future_fee = 0; funding_fee = 0 })
      × ((future : ℕ) × IsRounded ((249 + 4 * payout_spk) * n) future
          × (fees.future_fee ≡ fee_rate * future))
      × ((funding : ℕ) × IsRounded (funding_weight (x ∷ xs) change_spk n) funding
          × (fees.funding_fee ≡ fee_rate * funding))
unfolding compute_fees
compute_fees-IsRounded fee_rate x xs payout_spk change_spk n = (
  refl,
  (future_vbytes payout_spk n, future_vbytes-IsRounded payout_spk n, refl),
  (funding_vbytes (x ∷ xs) change_spk n, funding_vbytes-IsRounded (x ∷ xs) change_spk n, refl),
)

-- Of whatever closing transaction, neither party pays less as the initiator of the closing than
-- as the other side.
pub initiator-reciprocator_fees :
    (d : DualClosing)
    → (offer_reciprocator_fees d ≤ offer_initiator_fees d)
      × (accept_reciprocator_fees d ≤ accept_initiator_fees d)
unfolding offer_reciprocator_fees offer_initiator_fees accept_reciprocator_fees
    accept_initiator_fees closing_fees vbytes_of add_weights
initiator-reciprocator_fees d =
    (mul-le-mul_left d.fee_rate (omega arith), mul-le-mul_left d.fee_rate (omega arith))
