-- ===== src/Cet/Groupings/Exact.antt =====
-- `groupByIgnoringDigits` covers the numbers from `start` to `end`, each by one group, and no other
-- number of that many digits.
use Prim.Native.Nat.{compare}
use node_dlc.Prelude.{
  ℕ, ◌+◌, ◌-◌, ◌^◌, ◌≤◌, ◌<◌, ◌≡◌, refl, sym, ap, ◌∙◌, arith, Bool, true, false, not, ◌&&◌, ◌||◌,
  List, [], ◌∷◌, ◌++◌, map, append-nil, drop, length, length-append, leb, ◌==◌, if◌then◌else◌,
  Bool-cases, inl, inr, ◌↔◌,
}
use mathlib.Core.Path.{ap₂}
use node_dlc.Cet.Digits.{common_prefix, decompose, separate_prefix}
use node_dlc.Cet.Groupings.{
  every, count_up, front_groupings, back_groupings, middle_groupings, first_digit, last_digit,
  group_by_ignoring_digits,
}
use node_dlc.Cet.Groupings.Order.{
  lex_compare, lex_le, lex_compare-decompose, lex_le-decompose, length-decompose,
  decompose-AreDigits,
}
use node_dlc.Cet.Groupings.Cover.{tally, hits}
use node_dlc.Cet.Groupings.Sides.{lex_le-cons}
use node_dlc.Cet.Groupings.Ranges.{
  Parted, common_prefix_lem, Covers, Covers-prefix, Covers-whole, Covers-nothing, Covers-last,
  Covers-sides, count_up-prefix,
}

-- Groups `out` that are a common prefix before groups covering the range between the suffixes.
record Splits (base : ℕ) (prefix low high : List ℕ) (out : List (List ℕ)) : Type 0 where
  inner : List (List ℕ)
  split : out ≡ map (λ g. prefix ++ g) inner
  covers : Covers base inner low high

-- The three branches of the code, once the common prefix is off.
branches : ℕ → ℕ → Bool → List ℕ → List ℕ → List ℕ → List (List ℕ)
branches base n same prefix low high =
    if same
      || (every (λ k. k == 0) low && (every (λ k. k == base - 1) high && not (length prefix == 0)))
    then prefix ∷ []
    else if length prefix + 1 == n
    then count_up prefix (last_digit low) (last_digit high + 1 - last_digit low)
    else map (λ g. prefix ++ g)
        (front_groupings low base
          ++ (middle_groupings (first_digit low) (first_digit high) ++ back_groupings high base))

Splits-whole :
    (base : ℕ) (prefix low high : List ℕ)
    → Covers base ([] ∷ []) low high
    → Splits base prefix low high (prefix ∷ [])
Splits-whole base prefix low high c = record {
  inner = [] ∷ [];
  split = ap (λ p. p ∷ []) (sym (append-nil prefix));
  covers = c;
}

and_left : (a b : Bool) → (a && b) ≡ true → a ≡ true
and_left a b h = ground arith

and_right : (a b : Bool) → (a && b) ≡ true → b ≡ true
and_right a b h = ground arith

Splits-last :
    (base s e : ℕ) (prefix low high : List ℕ)
    → s < e
    → length low ≡ 0
    → length high ≡ 0
    → Splits base prefix
        (s ∷ low)
        (e ∷ high)
        (count_up prefix (last_digit (s ∷ low)) (last_digit (e ∷ high) + 1 - last_digit (s ∷ low)))
unfolding last_digit
Splits-last base s e prefix [] [] lt hl hh = record {
  inner = count_up [] s (e + 1 - s);
  split = count_up-prefix prefix s (e + 1 - s);
  covers = Covers-last base s e lt;
}
Splits-last base s e prefix [] (y ∷ high) lt hl hh = absurd (omega arith)
Splits-last base s e prefix (x ∷ low) high lt hl hh = absurd (omega arith)

Splits-sides :
    (base s e : ℕ) (prefix low high : List ℕ)
    → s < e
    → length low ≡ length high
    → Splits base prefix (s ∷ low) (e ∷ high) (
        map
          (λ g. prefix ++ g)
          (front_groupings (s ∷ low) base
            ++ (middle_groupings s e ++ back_groupings (e ∷ high) base)))
Splits-sides base s e prefix low high lt lens = record {
  inner =
      front_groupings (s ∷ low) base ++ (middle_groupings s e ++ back_groupings (e ∷ high) base);
  split = refl;
  covers = Covers-sides base s e low high lt lens;
}

branches-Splits :
    (base n : ℕ) (same : Bool) (prefix low high : List ℕ)
    → length low ≡ length high
    → length prefix + length low ≡ n
    → Parted low high
    → lex_le low high ≡ true
    → (same ≡ true) ↔ (low ≡ [])
    → Splits base prefix low high (branches base n same prefix low high)
unfolding branches first_digit
branches-Splits base n same prefix [] [] lens size part le whole =
    rw (whole.1 refl) (Splits-whole base prefix [] [] (Covers-nothing base))
branches-Splits base n same prefix [] (e ∷ high) lens size part le whole = absurd (omega arith)
branches-Splits base n same prefix (s ∷ low) [] lens size part le whole = absurd (omega arith)
branches-Splits base n true prefix (s ∷ low) (e ∷ high) lens size part le whole = cc (whole.0 refl)
branches-Splits base n false prefix (s ∷ low) (e ∷ high) lens size part le whole =
    let lt : s < e = ground (arith, lex_le-cons s e low high) in
    let lo = every (λ k. k == 0) (s ∷ low) in
    let hi = every (λ k. k == base - 1) (e ∷ high) in
    elim (Bool-cases (lo && (hi && not (length prefix == 0)))) [
      | inl full ↦ rw full (
          Splits-whole base prefix (s ∷ low) (e ∷ high) (
            Covers-whole base (s ∷ low) (e ∷ high) lens (and_left lo _ full)
              (and_left hi _ (and_right lo _ full))))
      | inr part_only ↦ rw part_only (elim (Bool-cases (length prefix + 1 == n)) [
        | inl last ↦ rw last (Splits-last base s e prefix low high lt (ground arith) (ground arith))
        | inr inner ↦ rw inner (Splits-sides base s e prefix low high lt (omega arith))
      ])
    ]

lex_compare-prefix :
    (prefix low high : List ℕ) → lex_compare (prefix ++ low) (prefix ++ high) ≡ lex_compare low high
unfolding lex_compare
lex_compare-prefix [] low high = refl
lex_compare-prefix (p ∷ ps) low high = ground (arith, lex_compare-prefix ps low high)

-- Equal numbers leave nothing behind the common prefix of their digits, and others do.
rest_of_same :
    (low high : List ℕ) (start end : ℕ)
    → Parted low high
    → lex_compare low high ≡ compare start end
    → ((start == end) ≡ true) ↔ (low ≡ [])
unfolding lex_compare
rest_of_same [] [] start end part e = ((λ h. refl), (λ h. ground arith))
rest_of_same (x ∷ low) (y ∷ high) start end part e = ((λ h. ground arith), (λ h. cc))
rest_of_same [] (y ∷ high) start end part e = absurd part
rest_of_same (x ∷ low) [] start end part e = absurd part

lex_le_of_compare :
    (low high : List ℕ) (start end : ℕ)
    → start ≤ end
    → lex_compare low high ≡ compare start end
    → lex_le low high ≡ true
unfolding lex_le
lex_le_of_compare low high start end le e = rw (e, lex_le) (ground arith)

-- For a base of 2 at least and a range from start to end that fits the digits,
-- groupByIgnoringDigits covers a number x of that many digits by exactly one of its groups when
-- start ≤ x ≤ end, and by none otherwise. A group covers the numbers whose digits begin with it.
pub hits-group_by_ignoring_digits :
    (start end base n x : ℕ)
    → 2 ≤ base
    → start ≤ end
    → end < base ^ n
    → x < base ^ n
    → hits (group_by_ignoring_digits start end base n) (decompose x base n)
      ≡ tally (leb start x && leb x end)
unfolding group_by_ignoring_digits separate_prefix branches Covers
hits-group_by_ignoring_digits start end base n x hb le he hx =
    let xs = decompose start base n in
    let ys = decompose end base n in
    let c = common_prefix xs ys in
    let low = drop (length c) xs in
    let high = drop (length c) ys in
    let len_x : length xs ≡ n = length-decompose start base n in
    let len_y : length ys ≡ n = length-decompose end base n in
    let (ex, ey, part) = common_prefix_lem xs ys (len_x ∙ sym len_y) in
    let order : lex_compare low high ≡ compare start end =
      sym (lex_compare-prefix c low high)
      ∙ ap₂ lex_compare (sym ex) (sym ey)
      ∙ lex_compare-decompose n start end base (omega arith) (omega arith) he in
    let lens : length low ≡ length high = omega (
      arith,
      len_x,
      len_y,
      ap length ex,
      ap length ey,
      length-append c low,
      length-append c high,
    ) in
    let size : length c + length low ≡ n =
      omega (arith, len_x, ap length ex, length-append c low) in
    let s =
      branches-Splits base n (start == end) c low high lens size part
        (lex_le_of_compare low high start end le order)
        (rest_of_same low high start end part order) in
    let digits = decompose-AreDigits n x base (omega arith) in
    let whole =
      Covers-prefix base s.inner low high c s.covers (decompose x base n)
        (sym (ap length ex) ∙ len_x ∙ sym (length-decompose x base n)) digits in
    ap (λ t. hits t (decompose x base n)) s.split
    ∙ whole
    ∙ ap₂ (λ l h. tally (lex_le l (decompose x base n) && lex_le (decompose x base n) h)) (sym ex)
        (sym ey)
    ∙ ap₂ (λ a b. tally (a && b)) (lex_le-decompose n start x base (omega arith) (omega arith) hx)
        (lex_le-decompose n x end base (omega arith) hx he)
