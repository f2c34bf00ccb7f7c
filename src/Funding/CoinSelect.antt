-- ===== src/Funding/CoinSelect.antt =====
-- packages/core/lib/dlc/CoinSelect.ts. Text is its character codes. Values are
-- whole numbers of any size, which doubles hold exactly below 2^53.
pub mod Enough
pub mod Spends
use node_dlc.Prelude.{
  ℕ, zero, suc, ◌+◌, ◌*◌, ◌≡◌, refl, Bool, true, false, ◌&&◌, ◌||◌, Option, none, some, List, [],
  ◌∷◌, ◌++◌, map, length, replicate, ltb, leb, ◌==◌, if◌then◌else◌,
}
use node_dlc.Funding.Finalizer.{
  ScriptType, p2wpkh, p2wsh, p2tr, get_max_witness_len, default_max_witness_len,
  funding_input_vbytes, funding_input_with_witness_len, WitnessLens, same, each, DualFunding,
  offer_fees,
}

-- The derivation path, which nothing here reads, is left out.
pub record Utxo : Type 0 where
  pub txid : List ℕ
  pub vout : ℕ
  pub value : ℕ
  pub address : List ℕ
  pub script_pub_key : Option (List ℕ)
  pub script_type : Option ScriptType

abbrev pub lower : ℕ → ℕ
lower c = if leb 65 c && leb c 90 then c + 32 else c

unfoldable pub starts_with : List ℕ → List ℕ → Bool
starts_with [] xs = true
starts_with (p ∷ ps) [] = false
starts_with (p ∷ ps) (x ∷ xs) = (p == lower x) && starts_with ps xs

-- The test `/^(bc|tb|bcrt)1p/i`.
unfoldable pub has_taproot_prefix : List ℕ → Bool
has_taproot_prefix a =
    starts_with (98 ∷ 99 ∷ 49 ∷ 112 ∷ []) a
    || starts_with (116 ∷ 98 ∷ 49 ∷ 112 ∷ []) a
    || starts_with (98 ∷ 99 ∷ 114 ∷ 116 ∷ 49 ∷ 112 ∷ []) a

abbrev pub by_address : List ℕ → ScriptType
by_address a = if has_taproot_prefix a then p2tr else p2wpkh

-- An empty script is false in the source's test only as a string: as bytes it falls through too.
unfoldable pub by_script : List ℕ → List ℕ → ScriptType
by_script (b ∷ c ∷ rest) a =
    if (length rest == 32) && (b == 0x51) && (c == 0x20)
    then p2tr
    else if (length rest == 32) && (b == 0) && (c == 0x20)
    then p2wsh
    else by_address a
by_script (b ∷ []) a = by_address a
by_script [] a = by_address a

unfoldable pub script_type_from_utxo : Option Utxo → ScriptType
script_type_from_utxo none = p2wpkh
script_type_from_utxo (some u) = elim u.script_type [
  | some t ↦ t
  | none ↦ elim u.script_pub_key [
    | some script ↦ by_script script u.address
    | none ↦ by_address u.address
  ]
]

unfoldable pub input_bytes : Option Utxo → ℕ
input_bytes u = funding_input_vbytes (get_max_witness_len (script_type_from_utxo u)) 0

unfoldable pub dust_threshold : ℕ → Option Utxo → ℕ
dust_threshold fee_rate u = input_bytes u * fee_rate

-- `utxoScore(x) >= utxoScore(y)`, the scores being below 0 where the fee exceeds the value.
unfoldable pub scores_at_least : ℕ → Utxo → Utxo → Bool
scores_at_least fee_rate x y =
    leb (y.value + fee_rate * input_bytes (some x)) (x.value + fee_rate * input_bytes (some y))

-- `sort` by descending score, which is stable.
unfoldable pub insert_by_score : ℕ → Utxo → List Utxo → List Utxo
insert_by_score fee_rate x [] = x ∷ []
insert_by_score fee_rate x (y ∷ ys) =
    let rest = insert_by_score fee_rate x ys in
    if scores_at_least fee_rate x y then x ∷ y ∷ ys else y ∷ rest

unfoldable pub sort_by_score : ℕ → List Utxo → List Utxo
sort_by_score fee_rate [] = []
sort_by_score fee_rate (x ∷ xs) = insert_by_score fee_rate x (sort_by_score fee_rate xs)

unfoldable pub witness_lens_from_input_count : WitnessLens → List ℕ
witness_lens_from_input_count (each lens) = lens
witness_lens_from_input_count (same count) = replicate count default_max_witness_len

-- `same` holds a number of inputs here.
unfoldable pub dual_fees : ℕ → WitnessLens → ℕ → ℕ
dual_fees fee_rate inputs num_contracts = offer_fees (record {
  offer_inputs = map funding_input_with_witness_len (witness_lens_from_input_count inputs);
  offer_payout_spk = 22;
  offer_change_spk = 22;
  accept_inputs = funding_input_with_witness_len default_max_witness_len ∷ [];
  accept_payout_spk = 22;
  accept_change_spk = 22;
  fee_rate = fee_rate;
  num_contracts = num_contracts;
})

pub record Selection : Type 0 where
  pub inputs : List Utxo
  pub fee : ℕ

unfoldable pub witness_len_of : Utxo → ℕ
witness_len_of u = get_max_witness_len (script_type_from_utxo (some u))

abbrev pub fee_of : ℕ → ℕ → List Utxo → ℕ
fee_of fee_rate num inputs = dual_fees fee_rate (each (map witness_len_of inputs)) num

abbrev pub nothing_selected : ℕ → ℕ → Selection
nothing_selected fee_rate num = record { inputs = []; fee = dual_fees fee_rate (same 1) num }

unfoldable pub is_empty {ℓ} : {A : Type ℓ} → List A → Bool
is_empty [] = true
is_empty (x ∷ xs) = false

-- The loop, on the UTXOs that are left.
unfoldable pub select_from : ℕ → ℕ → ℕ → List Utxo → ℕ → List Utxo → Selection
select_from fee_rate num out_accum [] in_accum inputs = nothing_selected fee_rate num
select_from fee_rate num out_accum (u ∷ us) in_accum inputs =
    let skipped = select_from fee_rate num out_accum us in_accum inputs in
    let inputs' = inputs ++ (u ∷ []) in
    let more = select_from fee_rate num out_accum us (in_accum + u.value) inputs' in
    let fee = fee_of fee_rate num inputs' in
    if ltb u.value (fee_rate * input_bytes (some u))
    then if is_empty us then nothing_selected fee_rate num else skipped
    else if ltb (in_accum + u.value) (out_accum + fee)
    then more
    else record { inputs = inputs'; fee = fee }

unfoldable pub sum_from : ℕ → List ℕ → ℕ
sum_from total [] = total
sum_from total (x ∷ xs) = sum_from (total + x) xs

unfoldable pub dual_funding_coin_select : List Utxo → List ℕ → ℕ → Selection
dual_funding_coin_select utxos collaterals fee_rate =
    select_from fee_rate (length collaterals)
      (sum_from 0 collaterals + dust_threshold fee_rate none) (sort_by_score fee_rate utxos) 0 []
