-- ===== src/Funding/Tests.antt =====
-- Concrete fees and selections, and the theorems at concrete inputs.
use node_dlc.Prelude.{ℕ, ◌+◌, ◌*◌, ◌<◌, ◌≡◌, refl, none, List, [], ◌∷◌, ◌++◌, ◌⊎◌}
use node_dlc.Funding.Finalizer.{
  Input, compute_fees, funding_input_vbytes, script_sig_length, vbytes_of, add_weights,
  future_vbytes, funding_vbytes, get_max_witness_len, offer_fees, get_offer_fees,
  funding_input_with_witness_len,
}
use node_dlc.Funding.Finalizer.Bounds.{IsRounded, funding_weight, compute_fees-IsRounded}
use node_dlc.Funding.CoinSelect.{
  Utxo, Selection, nothing_selected, dual_funding_coin_select, sort_by_score, fee_of, dual_fees,
  input_bytes, script_type_from_utxo, scores_at_least, insert_by_score, select_from, is_empty,
  dust_threshold, sum_from, witness_len_of, has_taproot_prefix, starts_with,
  witness_lens_from_input_count,
}
use mathlib.Core.List.{Perm}
use node_dlc.Funding.CoinSelect.Spends.{dual_funding_coin_select-Perm}
use node_dlc.Funding.CoinSelect.Enough.{
  Pays, target, worthwhile, total_value, dual_funding_coin_select-Pays,
  dual_funding_coin_select_short,
}

abbrev coin : ℕ → Utxo
coin n = record {
  txid = 97 ∷ n ∷ [];
  vout = 0;
  value = n;
  address = 98 ∷ 99 ∷ 49 ∷ 113 ∷ [];
  script_pub_key = none;
  script_type = none;
}

abbrev coins : List Utxo
coins = coin 50 ∷ coin 1000 ∷ coin 9000 ∷ []

abbrev plain_input : ℕ → Input
plain_input n = record { max_witness_len = n; redeem_script = [] }

-- The fees of one input at one satoshi per byte.
fees_one :
    compute_fees 1 (plain_input 108 ∷ []) 22 22 1 ≡ record { future_fee = 85; funding_fee = 126 }
unfolding compute_fees future_vbytes funding_vbytes vbytes_of add_weights script_sig_length
fees_one = refl

-- The largest comes first, and is enough.
selects_9000 :
    dual_funding_coin_select coins (5000 ∷ []) 1 ≡ record { inputs = coin 9000 ∷ []; fee = 211 }
unfolding dual_funding_coin_select sort_by_score insert_by_score scores_at_least select_from
    is_empty sum_from dust_threshold input_bytes funding_input_vbytes get_max_witness_len
    script_type_from_utxo has_taproot_prefix starts_with vbytes_of witness_len_of dual_fees
    offer_fees get_offer_fees compute_fees future_vbytes funding_vbytes add_weights
    script_sig_length witness_lens_from_input_count funding_input_with_witness_len
selects_9000 = refl

abbrev too_little : Selection
too_little = nothing_selected 1 1

selects_none : (dual_funding_coin_select coins (50000 ∷ []) 1).inputs ≡ []
unfolding dual_funding_coin_select sort_by_score insert_by_score scores_at_least select_from
    is_empty sum_from dust_threshold input_bytes funding_input_vbytes get_max_witness_len
    script_type_from_utxo has_taproot_prefix starts_with vbytes_of witness_len_of dual_fees
    offer_fees get_offer_fees compute_fees future_vbytes funding_vbytes add_weights
    script_sig_length witness_lens_from_input_count funding_input_with_witness_len
selects_none = refl

dual_funding_coin_select-Pays_example :
    (dual_funding_coin_select coins (5000 ∷ []) 1 ≡ nothing_selected 1 1)
    ⊎ Pays 1 1 (target (5000 ∷ []) 1) (dual_funding_coin_select coins (5000 ∷ []) 1)
dual_funding_coin_select-Pays_example = dual_funding_coin_select-Pays coins (5000 ∷ []) 1

dual_funding_coin_select_short_example :
    (worthwhile 1 (sort_by_score 1 coins) ≡ [])
    ⊎ (total_value (worthwhile 1 (sort_by_score 1 coins))
        < target (50000 ∷ []) 1 + fee_of 1 1 (worthwhile 1 (sort_by_score 1 coins)))
dual_funding_coin_select_short_example =
    dual_funding_coin_select_short coins (50000 ∷ []) 1 selects_none

compute_fees-IsRounded_example :
    let fees = compute_fees 3 (plain_input 66 ∷ plain_input 108 ∷ []) 22 22 1 in
    (compute_fees 3 [] 22 22 1 ≡ record { future_fee = 0; funding_fee = 0 })
    × ((future : ℕ) × IsRounded ((249 + 4 * 22) * 1) future × (fees.future_fee ≡ 3 * future))
    × ((funding : ℕ) × IsRounded
          (funding_weight (plain_input 66 ∷ plain_input 108 ∷ []) 22 1)
          funding
        × (fees.funding_fee ≡ 3 * funding))
compute_fees-IsRounded_example =
    compute_fees-IsRounded 3 (plain_input 66) (plain_input 108 ∷ []) 22 22 1

dual_funding_coin_select-Perm_example :
    (others : List Utxo) × Perm
      ((dual_funding_coin_select coins (5000 ∷ []) 1).inputs ++ others)
      coins
dual_funding_coin_select-Perm_example = dual_funding_coin_select-Perm coins (5000 ∷ []) 1
