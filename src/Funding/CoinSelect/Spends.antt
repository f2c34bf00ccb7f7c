-- ===== src/Funding/CoinSelect/Spends.antt =====
-- The selected inputs are some of the UTXOs, none more often than it was given.
use node_dlc.Prelude.{
  ℕ, ◌+◌, ◌*◌, some, List, [], ◌∷◌, ◌++◌, length, append_assoc, ltb, Bool-cases, inl, inr,
}
use mathlib.Core.List.{Perm, perm_middle}
use mathlib.Core.List.Perm
use node_dlc.Funding.CoinSelect.{
  Utxo, input_bytes, sort_by_score, insert_by_score, scores_at_least, fee_of, is_empty, select_from,
  dual_funding_coin_select,
}

insert_by_score-Perm :
    (fee_rate : ℕ) (x : Utxo) (xs : List Utxo) → Perm (insert_by_score fee_rate x xs) (x ∷ xs)
unfolding insert_by_score
insert_by_score-Perm fee_rate x [] = Perm.rfl
insert_by_score-Perm fee_rate x (y ∷ ys) = elim (Bool-cases (scores_at_least fee_rate x y)) [
  | inl a ↦ rw a Perm.rfl
  | inr a ↦ rw a (Perm.trans (Perm.cons y (insert_by_score-Perm fee_rate x ys)) (Perm.swap x y ys))
]

sort_by_score-Perm : (fee_rate : ℕ) (xs : List Utxo) → Perm (sort_by_score fee_rate xs) xs
unfolding sort_by_score
sort_by_score-Perm fee_rate [] = Perm.rfl
sort_by_score-Perm fee_rate (x ∷ xs) =
    Perm.trans (insert_by_score-Perm fee_rate x (sort_by_score fee_rate xs))
      (Perm.cons x (sort_by_score-Perm fee_rate xs))

-- A UTXO that is passed over stays with the others.
Perm-passed :
    (u : Utxo) (taken others inputs us : List Utxo)
    → Perm (taken ++ others) (inputs ++ us)
    → Perm (taken ++ (u ∷ others)) (inputs ++ (u ∷ us))
Perm-passed u taken others inputs us p =
    Perm.trans (perm_middle taken others)
      (Perm.trans (Perm.cons u p) (Perm.symm (perm_middle inputs us)))

module _ (fee_rate num out_accum : ℕ) where
  select_from-Perm :
      (us : List Utxo) (in_accum : ℕ) (inputs : List Utxo)
      → (others : List Utxo) × Perm
          ((select_from fee_rate num out_accum us in_accum inputs).inputs ++ others)
          (inputs ++ us)
  unfolding select_from is_empty
  select_from-Perm [] in_accum inputs = (inputs ++ [], Perm.rfl)
  select_from-Perm (u ∷ us) in_accum inputs =
      elim (Bool-cases (ltb u.value (fee_rate * input_bytes (some u)))) [
        | inl bad ↦ rw bad (elim (Bool-cases (is_empty us)) [
          | inl last ↦ rw last (inputs ++ (u ∷ us), Perm.rfl)
          | inr more ↦ rw more (
              let (others, p) = select_from-Perm us in_accum inputs in
              (u ∷ others, Perm-passed u _ others inputs us p))
        ])
        | inr good ↦
            rw good
              (elim (Bool-cases
                (ltb (in_accum + u.value) (out_accum + fee_of fee_rate num (inputs ++ (u ∷ []))))) [
                  | inl short ↦ rw short (
                      rw (append_assoc inputs (u ∷ []) us) at
                        (select_from-Perm us (in_accum + u.value) (inputs ++ (u ∷ []))))
                  | inr enough ↦ rw enough (us, rw (append_assoc inputs (u ∷ []) us) Perm.rfl)
                ])
      ]

-- The inputs that dualFundingCoinSelect returns make up, with some others, a permutation of the
-- given UTXOs: none is spent that was not given, and none more often than it was.
pub dual_funding_coin_select-Perm :
    (utxos : List Utxo) (collaterals : List ℕ) (fee_rate : ℕ)
    → (others : List Utxo) × Perm
        ((dual_funding_coin_select utxos collaterals fee_rate).inputs ++ others)
        utxos
unfolding dual_funding_coin_select
dual_funding_coin_select-Perm utxos collaterals fee_rate =
    let (others, p) =
      select_from-Perm fee_rate (length collaterals) _ (sort_by_score fee_rate utxos) 0 [] in
    (others, Perm.trans p (sort_by_score-Perm fee_rate utxos))
