-- ===== src/Cet/Digits.antt =====
-- CETCalculator.ts: zipWithIndex, dropUntil, decompose and separatePrefix.
use node_dlc.Prelude.{
  ℕ, zero, suc, ◌+◌, ◌/◌, ◌%◌, Bool, List, [], ◌∷◌, reverse, drop, length, ◌==◌, if◌then◌else◌,
}

-- The index counts from `i`.
unfoldable pub zip_from {ℓ} : {A : Type ℓ} → ℕ → List A → List (A × ℕ)
zip_from i [] = []
zip_from i (a ∷ xs) = (a, i) ∷ zip_from (i + 1) xs

unfoldable pub zip_with_index {ℓ} : {A : Type ℓ} → List A → List (A × ℕ)
unfolding zip_from
zip_with_index xs = zip_from 0 xs

unfoldable pub drop_until {ℓ} : {A : Type ℓ} → List A → (A → Bool) → List A
drop_until [] check = []
drop_until (x ∷ xs) check = if check x then x ∷ xs else drop_until xs check

-- The digits in the order that the loop pushes them, lowest first.
unfoldable pub push_digits : ℕ → ℕ → ℕ → List ℕ
push_digits current base zero = []
push_digits current base (suc digits) = current % base ∷ push_digits (current / base) base digits

unfoldable pub decompose : ℕ → ℕ → ℕ → List ℕ
unfolding push_digits
decompose num base num_digits = reverse (push_digits num base num_digits)

unfoldable pub common_prefix : List ℕ → List ℕ → List ℕ
common_prefix [] ys = []
common_prefix (x ∷ xs) [] = []
common_prefix (x ∷ xs) (y ∷ ys) = if x == y then x ∷ common_prefix xs ys else []

pub record Separated : Type 0 where
  pub prefix_digits : List ℕ
  pub start_digits : List ℕ
  pub end_digits : List ℕ

unfoldable pub separate_prefix : ℕ → ℕ → ℕ → ℕ → Separated
separate_prefix start end base num_digits =
    let xs = decompose start base num_digits in
    let ys = decompose end base num_digits in
    let common = common_prefix xs ys in
    record {
      prefix_digits = common;
      start_digits = drop (length common) xs;
      end_digits = drop (length common) ys;
    }
