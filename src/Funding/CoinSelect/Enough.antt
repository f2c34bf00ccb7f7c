-- ===== src/Funding/CoinSelect/Enough.antt =====
-- What the selection promises: it pays for itself, and fails only where the UTXOs do not suffice.
use node_dlc.Prelude.{
  ℕ, ◌+◌, ◌*◌, ◌<◌, ◌≤◌, ◌≡◌, refl, arith, true, none, some, List, [], ◌∷◌, ◌++◌, length, All,
  append_assoc, ltb, ltb→lt, if◌then◌else◌, Bool-cases, ◌⊎◌, inl, inr,
}
use node_dlc.Funding.CoinSelect.{
  Utxo, input_bytes, dust_threshold, sort_by_score, Selection, fee_of, nothing_selected, is_empty,
  select_from, sum_from, dual_funding_coin_select,
}

-- The values together.
pub total_value : List Utxo → ℕ
total_value [] = 0
total_value (u ∷ us) = u.value + total_value us

pub IsWorthwhile : ℕ → Utxo → Type 0
IsWorthwhile fee_rate u = fee_rate * input_bytes (some u) ≤ u.value

-- The UTXOs that are worth their own fee.
pub worthwhile : ℕ → List Utxo → List Utxo
worthwhile fee_rate [] = []
worthwhile fee_rate (u ∷ us) =
    let rest = worthwhile fee_rate us in
    if ltb u.value (fee_rate * input_bytes (some u)) then rest else u ∷ rest

total_value-append : (xs ys : List Utxo) → total_value (xs ++ ys) ≡ total_value xs + total_value ys
unfolding total_value
total_value-append [] ys = omega arith
total_value-append (x ∷ xs) ys = omega (arith, total_value-append xs ys)

All-append : (P : Utxo → Type 0) (xs ys : List Utxo) → All P xs → All P ys → All P (xs ++ ys)
All-append P [] ys p q = q
All-append P (x ∷ xs) ys (a, p) q = (a, All-append P xs ys p q)

append_one-ne-nil : (xs : List Utxo) (u : Utxo) → xs ++ (u ∷ []) ≡ [] → ⊥
append_one-ne-nil [] u e = cc
append_one-ne-nil (x ∷ xs) u e = cc

-- A selection that is not empty covers its costs, and its inputs are worth their fee.
pub record Pays (fee_rate num out_accum : ℕ) (s : Selection) : Type 0 where
  pub fee_known : s.fee ≡ fee_of fee_rate num s.inputs
  pub covers : out_accum + s.fee ≤ total_value s.inputs
  pub worth : All (IsWorthwhile fee_rate) s.inputs

module _ (fee_rate num out_accum : ℕ) where
  select_from-Pays :
      (us : List Utxo) (in_accum : ℕ) (inputs : List Utxo)
      → in_accum ≡ total_value inputs
      → All (IsWorthwhile fee_rate) inputs
      → (select_from fee_rate num out_accum us in_accum inputs ≡ nothing_selected fee_rate num)
        ⊎ Pays fee_rate num out_accum (select_from fee_rate num out_accum us in_accum inputs)
  unfolding select_from IsWorthwhile is_empty total_value
  select_from-Pays [] in_accum inputs e v = inl refl
  select_from-Pays (u ∷ us) in_accum inputs e v =
      let size = total_value-append inputs (u ∷ []) in
      elim (Bool-cases (ltb u.value (fee_rate * input_bytes (some u)))) [
        | inl bad ↦ rw bad (elim (Bool-cases (is_empty us)) [
          | inl last ↦ rw last (inl refl)
          | inr more ↦ rw more (select_from-Pays us in_accum inputs e v)
        ])
        | inr good ↦
            let fair : fee_rate * input_bytes (some u) ≤ u.value = ground arith in
            let v' = All-append (IsWorthwhile fee_rate) inputs (u ∷ []) v (fair, tt) in
            rw good
              (elim (Bool-cases
                (ltb (in_accum + u.value) (out_accum + fee_of fee_rate num (inputs ++ (u ∷ []))))) [
                  | inl short ↦ rw short (
                      select_from-Pays us (in_accum + u.value) (inputs ++ (u ∷ []))
                        (omega (arith, size)) v')
                  | inr enough ↦
                      rw enough (
                        inr
                          (record { fee_known = refl; covers = ground (arith, size); worth = v' }))
                ])
      ]

  -- Where nothing is selected, what is left does not reach the costs with what was taken.
  Short : List Utxo → Type 0
  Short all = total_value all < out_accum + fee_of fee_rate num all

  Short-cons :
      (inputs ws : List Utxo) (u : Utxo)
      → Short (inputs ++ (u ∷ []))
      → (ws ≡ []) ⊎ Short ((inputs ++ (u ∷ [])) ++ ws)
      → Short (inputs ++ (u ∷ ws))
  Short-cons inputs ws u s (inl e) = rw e s
  Short-cons inputs ws u s (inr r) = rw (append_assoc inputs (u ∷ []) ws) at r

  select_from-Short :
      (us : List Utxo) (in_accum : ℕ) (inputs : List Utxo)
      → in_accum ≡ total_value inputs
      → (select_from fee_rate num out_accum us in_accum inputs).inputs ≡ []
      → (worthwhile fee_rate us ≡ []) ⊎ Short (inputs ++ worthwhile fee_rate us)
  unfolding select_from is_empty total_value worthwhile Short
  select_from-Short [] in_accum inputs e none_left = inl refl
  select_from-Short (u ∷ us) in_accum inputs e none_left =
      let size = total_value-append inputs (u ∷ []) in
      elim (Bool-cases (ltb u.value (fee_rate * input_bytes (some u)))) [
        | inl bad ↦ elim (Bool-cases (is_empty us)) [
          | inl last ↦ rw bad (inl (empty-worthwhile us last))
          | inr more ↦ rw bad (select_from-Short us in_accum inputs e (rw (bad, more) at none_left))
        ]
        | inr good ↦
            elim (Bool-cases
              (ltb (in_accum + u.value) (out_accum + fee_of fee_rate num (inputs ++ (u ∷ []))))) [
                | inl short ↦
                    let lt = ltb→lt _ _ short in
                    let now : Short (inputs ++ (u ∷ [])) = omega (arith, size) in
                    let rest =
                      select_from-Short us (in_accum + u.value) (inputs ++ (u ∷ []))
                        (omega (arith, size)) (rw (good, short) at none_left) in
                    rw good (inr (Short-cons inputs (worthwhile fee_rate us) u now rest))
                | inr enough ↦ absurd (append_one-ne-nil inputs u (rw (good, enough) at none_left))
              ]
      ]
    where
      empty-worthwhile : (vs : List Utxo) → is_empty vs ≡ true → worthwhile fee_rate vs ≡ []
      empty-worthwhile [] h = refl
      empty-worthwhile (v ∷ vs) h = cc

-- The collaterals and the dust threshold.
abbrev pub target : List ℕ → ℕ → ℕ
target collaterals fee_rate = sum_from 0 collaterals + dust_threshold fee_rate none

-- Of whatever UTXOs, collaterals and fee rate, dualFundingCoinSelect selects nothing, with the
-- fee of one input, or inputs whose values together reach the collaterals, the dust threshold and
-- the fee it returns, where this fee is dualFees of those inputs and each of them is worth its
-- own fee.
pub dual_funding_coin_select-Pays :
    (utxos : List Utxo) (collaterals : List ℕ) (fee_rate : ℕ)
    → (dual_funding_coin_select utxos collaterals fee_rate
        ≡ nothing_selected fee_rate (length collaterals))
      ⊎ Pays fee_rate
          (length collaterals)
          (target collaterals fee_rate)
          (dual_funding_coin_select utxos collaterals fee_rate)
unfolding dual_funding_coin_select total_value
dual_funding_coin_select-Pays utxos collaterals fee_rate =
    select_from-Pays fee_rate (length collaterals) (target collaterals fee_rate)
      (sort_by_score fee_rate utxos) 0 [] refl tt

-- Where dualFundingCoinSelect returns no inputs, none of the sorted UTXOs is worth its own fee,
-- or all that are together stay below the collaterals, the dust threshold and the fee of spending
-- them.
pub dual_funding_coin_select_short :
    (utxos : List Utxo) (collaterals : List ℕ) (fee_rate : ℕ)
    → (dual_funding_coin_select utxos collaterals fee_rate).inputs ≡ []
    → let all = worthwhile fee_rate (sort_by_score fee_rate utxos) in
      (all ≡ [])
      ⊎ (total_value all < target collaterals fee_rate + fee_of fee_rate (length collaterals) all)
unfolding dual_funding_coin_select total_value Short
dual_funding_coin_select_short utxos collaterals fee_rate =
    select_from-Short fee_rate (length collaterals) (target collaterals fee_rate)
      (sort_by_score fee_rate utxos) 0 [] refl
