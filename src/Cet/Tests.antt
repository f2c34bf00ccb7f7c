-- ===== src/Cet/Tests.antt =====
-- Concrete groupings and merges, and the theorems at concrete inputs.
use node_dlc.Prelude.{ℕ, ◌≡◌, ◌↔◌, refl, arith, ◌&&◌, List, [], ◌∷◌, leb, ◌==◌}
use node_dlc.Cet.Digits.{zip_with_index, drop_until, decompose, common_prefix, separate_prefix}
use node_dlc.Cet.Groupings.{
  flat_map, filter_index, every, count_up, count_down, fixed_digits, without_last, front_groupings,
  back_groupings, middle_groupings, first_digit, last_digit, group_by_ignoring_digits,
}
use node_dlc.Cet.Groupings.Order.{lex_le}
use node_dlc.Cet.Groupings.Cover.{hits, tally}
use node_dlc.Cet.Groupings.Sides.{hits-front_groupings, hits-back_groupings}
use node_dlc.Cet.Groupings.Exact.{hits-group_by_ignoring_digits}
use node_dlc.Cet.Payouts.{CetPayout, joins, merge_step, merge_payouts}
use node_dlc.Cet.Payouts.Merge.{IsMerged, pays, pays-merge_payouts, merge_payouts-IsMerged}

abbrev two : ℕ → ℕ → List ℕ
two a b = a ∷ b ∷ []

-- 171 to 210 in base 16, as in the library's own test.
hex_range :
    group_by_ignoring_digits 171 210 16 2
    ≡ two 10 11
      ∷ two 10 12
      ∷ two 10 13
      ∷ two 10 14
      ∷ two 10 15
      ∷ (11 ∷ [])
      ∷ (12 ∷ [])
      ∷ two 13 0
      ∷ two 13 1
      ∷ two 13 2
      ∷ []
unfolding group_by_ignoring_digits separate_prefix decompose common_prefix front_groupings
    back_groupings middle_groupings zip_with_index drop_until flat_map filter_index every count_up
    count_down fixed_digits without_last first_digit last_digit
hex_range = refl

hits-group_by_ignoring_digits_example :
    hits (group_by_ignoring_digits 171 210 16 2) (decompose 180 16 2)
    ≡ tally (leb 171 180 && leb 180 210)
hits-group_by_ignoring_digits_example =
    hits-group_by_ignoring_digits 171 210 16 2 180 (omega arith) (omega arith) (omega arith)
      (omega arith)

hits-front_groupings_example :
    hits (front_groupings (1 ∷ 7 ∷ []) 10) (1 ∷ 8 ∷ []) ≡ tally (1 == 1 && lex_le (7 ∷ []) (8 ∷ []))
hits-front_groupings_example = hits-front_groupings 10 1 1 (7 ∷ []) (8 ∷ []) refl (omega arith)

hits-back_groupings_example :
    hits (back_groupings (4 ∷ 7 ∷ []) 10) (4 ∷ 5 ∷ []) ≡ tally (4 == 4 && lex_le (5 ∷ []) (7 ∷ []))
hits-back_groupings_example = hits-back_groupings 10 4 4 (7 ∷ []) (5 ∷ []) refl (omega arith)

abbrev range : ℕ → ℕ → ℕ → CetPayout
range from to pay = record { index_from = from; index_to = to; payout = pay }

abbrev three_ranges : List CetPayout
three_ranges = range 0 0 5 ∷ range 1 4 5 ∷ range 4 9 7 ∷ []

merge_three : merge_payouts three_ranges ≡ range 0 4 5 ∷ range 4 9 7 ∷ []
unfolding merge_payouts merge_step joins
merge_three = refl

pays-merge_payouts_example : pays (merge_payouts three_ranges) 3 5 ≡ pays three_ranges 3 5
pays-merge_payouts_example = pays-merge_payouts three_ranges 3 5 (omega arith)

merge_payouts-IsMerged_example :
    IsMerged (merge_payouts three_ranges)
    × ((merge_payouts three_ranges ≡ three_ranges) ↔ IsMerged three_ranges)
merge_payouts-IsMerged_example = merge_payouts-IsMerged three_ranges
