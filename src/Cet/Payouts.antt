-- ===== src/Cet/Payouts.antt =====
-- CETCalculator.ts: CETPayout and mergePayouts. Outcomes and payouts are naturals: outcomes count
-- from 0, and payouts are clamped to the collateral. The code updates the last range in place,
-- which is the object of the input list too; no later step reads it there.
pub mod Merge
use node_dlc.Prelude.{ℕ, ◌+◌, Bool, ◌&&◌, ◌||◌, List, [], ◌∷◌, ◌==◌, if◌then◌else◌}
use mathlib.Core.List.{foldl}

pub record CetPayout : Type 0 where
  pub index_from : ℕ
  pub index_to : ℕ
  pub payout : ℕ

-- The range starts where `prev` ends or right behind it, and pays the same.
unfoldable pub joins : CetPayout → CetPayout → Bool
joins prev range =
    (prev.index_to == range.index_from || prev.index_to + 1 == range.index_from)
    && prev.payout == range.payout

-- One round of the reduction: `acc[acc.length - 1]` takes the range in, or it is added.
unfoldable pub merge_step : List CetPayout → CetPayout → List CetPayout
merge_step [] range = range ∷ []
merge_step (prev ∷ []) range =
    if joins prev range then record prev { index_to = range.index_to } ∷ [] else prev ∷ (range ∷ [])
merge_step (first ∷ (next ∷ acc)) range = first ∷ merge_step (next ∷ acc) range

unfoldable pub merge_payouts : List CetPayout → List CetPayout
merge_payouts payouts = foldl merge_step [] payouts
