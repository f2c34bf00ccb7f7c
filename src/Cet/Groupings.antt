-- ===== src/Cet/Groupings.antt =====
-- CETCalculator.ts: frontGroupings, backGroupings, middleGroupings and groupByIgnoringDigits.
pub mod Order
pub mod Trim
pub mod Cover
pub mod Sides
pub mod Ranges
pub mod Exact
use node_dlc.Prelude.{
  ℕ, zero, suc, ◌+◌, ◌-◌, Bool, true, false, not, ◌&&◌, ◌||◌, List, [], ◌∷◌, ◌++◌, map, reverse,
  take, length, ◌==◌, if◌then◌else◌,
}
use node_dlc.Cet.Digits.{zip_with_index, drop_until, separate_prefix}

unfoldable pub flat_map {ℓ κ} : {A : Type ℓ} {B : Type κ} → (A → List B) → List A → List B
flat_map f [] = []
flat_map f (x ∷ xs) = f x ++ flat_map f xs

-- `filter((_, i) => keep(i))`, the index counting from `i`.
unfoldable pub filter_index {ℓ} : {A : Type ℓ} → (ℕ → Bool) → ℕ → List A → List A
filter_index keep i [] = []
filter_index keep i (x ∷ xs) =
    if keep i then x ∷ filter_index keep (i + 1) xs else filter_index keep (i + 1) xs

-- `every`
unfoldable pub every : (ℕ → Bool) → List ℕ → Bool
every p [] = true
every p (x ∷ xs) = p x && every p xs

-- The groups `prefix, n` for `rounds` values of n from `from` on.
unfoldable pub count_up : List ℕ → ℕ → ℕ → List (List ℕ)
count_up prefix from zero = []
count_up prefix from (suc rounds) = (prefix ++ (from ∷ [])) ∷ count_up prefix (from + 1) rounds

-- The groups `prefix, n` for n from d - 1 down to 0.
unfoldable pub count_down : List ℕ → ℕ → List (List ℕ)
count_down prefix zero = []
count_down prefix (suc n) = (prefix ++ (n ∷ [])) ∷ count_down prefix n

-- The digits that stand in front of the one at index `i` from the right.
unfoldable pub fixed_digits : List ℕ → ℕ → List ℕ
fixed_digits digits i = take (length digits - (i + 1)) digits

unfoldable pub without_last {ℓ} : {A : Type ℓ} → List A → List A
without_last xs = filter_index (λ i. not (i + 1 == length xs)) 0 xs

unfoldable pub front_groupings : List ℕ → ℕ → List (List ℕ)
front_groupings digits base =
    let nonzero = drop_until (zip_with_index (reverse digits)) (λ a. not (a.0 == 0)) in
    if length nonzero == 0
    then (0 ∷ []) ∷ []
    else reverse (map (λ a. a.0) nonzero)
      ∷ flat_map (λ a. count_up (fixed_digits digits a.1) (a.0 + 1) (base - (a.0 + 1)))
          (without_last nonzero)

unfoldable pub back_groupings : List ℕ → ℕ → List (List ℕ)
back_groupings digits base =
    let nonmax = drop_until (zip_with_index (reverse digits)) (λ a. not (a.0 == base - 1)) in
    if length nonmax == 0
    then ((base - 1) ∷ []) ∷ []
    else reverse (flat_map (λ a. count_down (fixed_digits digits a.1) a.0) (without_last nonmax))
      ++ (reverse (map (λ a. a.0) nonmax) ∷ [])

-- `while (++first < last) result.push([first])`
unfoldable pub middle_groupings : ℕ → ℕ → List (List ℕ)
middle_groupings first_start first_end =
    count_up [] (first_start + 1) (first_end - (first_start + 1))

-- `digits[0]` and `digits[digits.length - 1]`, where the code has a digit there.
unfoldable pub first_digit : List ℕ → ℕ
first_digit [] = 0
first_digit (x ∷ xs) = x

unfoldable pub last_digit : List ℕ → ℕ
last_digit [] = 0
last_digit (x ∷ []) = x
last_digit (x ∷ (y ∷ ys)) = last_digit (y ∷ ys)

unfoldable pub group_by_ignoring_digits : ℕ → ℕ → ℕ → ℕ → List (List ℕ)
group_by_ignoring_digits start end base num_digits =
    let s = separate_prefix start end base num_digits in
    let low = first_digit s.start_digits in
    let high = first_digit s.end_digits in
    let from = last_digit s.start_digits in
    if start == end
      || (every (λ n. n == 0) s.start_digits
          && (every (λ n. n == base - 1) s.end_digits && not (length s.prefix_digits == 0)))
    then s.prefix_digits ∷ []
    else if length s.prefix_digits + 1 == num_digits
    then count_up s.prefix_digits from (last_digit s.end_digits + 1 - from)
    else map (λ g. s.prefix_digits ++ g)
        (front_groupings s.start_digits base
          ++ (middle_groupings low high ++ back_groupings s.end_digits base))
