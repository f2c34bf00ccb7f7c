-- ===== src/Cet/Groupings/Order.antt =====
-- Digit lists are ordered as the numbers that they stand for.
use Prim.Native.Nat.{compare, Ordering}
use node_dlc.Prelude.{
  ℕ, zero, suc, ◌+◌, ◌*◌, ◌/◌, ◌%◌, ◌^◌, ◌≤◌, ◌<◌, ◌≡◌, refl, sym, ap, ◌∙◌, arith, Bool, true,
  false, List, [], ◌∷◌, ◌++◌, reverse-append, length, length-reverse, All, leb,
}
use node_dlc.Cet.Digits.{push_digits, decompose}
use mathlib.Core.Path.{ap₂}
use native.Mathlib.Decide.{dec_lt, ℕ_discrete}
use native.Mathlib.Nat.{div-lt_iff_lt-mul, pow-zero, pow-suc, div-add-mod, mod-lt}

-- The first difference decides.
unfoldable pub lex_compare : List ℕ → List ℕ → Ordering
lex_compare [] ys = Ordering.eq
lex_compare (x ∷ xs) [] = Ordering.gt
lex_compare (x ∷ xs) (y ∷ ys) = elim (compare x y) [
  | Ordering.eq ↦ lex_compare xs ys
  | other ↦ other
]

unfoldable pub lex_le : List ℕ → List ℕ → Bool
lex_le xs ys = elim (lex_compare xs ys) [ Ordering.gt ↦ false | _ ↦ true ]

then_compare : Ordering → ℕ → ℕ → Ordering
then_compare o a b = elim o [ Ordering.eq ↦ compare a b | other ↦ other ]

lex_compare-snoc :
    (xs ys : List ℕ) (a b : ℕ)
    → length xs ≡ length ys
    → lex_compare (xs ++ (a ∷ [])) (ys ++ (b ∷ [])) ≡ then_compare (lex_compare xs ys) a b
unfolding lex_compare then_compare
lex_compare-snoc [] [] a b h = ground arith
lex_compare-snoc [] (y ∷ ys) a b h = absurd (omega arith)
lex_compare-snoc (x ∷ xs) [] a b h = absurd (omega arith)
lex_compare-snoc (x ∷ xs) (y ∷ ys) a b h = ground (arith, lex_compare-snoc xs ys a b)

mul_gap : (q r base : ℕ) → q < r → base * q + base ≤ base * r
mul_gap q r base h = grind arith

compare-mul_add :
    (q r s t base : ℕ)
    → s < base
    → t < base
    → then_compare (compare q r) s t ≡ compare (base * q + s) (base * r + t)
unfolding then_compare
compare-mul_add q r s t base hs ht = elim (dec_lt q r) [
  | yes lt ↦ ground (arith, mul_gap q r base lt)
  | no ge ↦ elim (ℕ_discrete q r) [
    | yes e ↦ rw e (ground arith)
    | no ne ↦ ground (arith, mul_gap r q base (omega arith))
  ]
]

-- Numbers compare by their quotients, and then by their remainders.
compare-div_mod :
    (x y base : ℕ)
    → 0 < base
    → then_compare (compare (x / base) (y / base)) (x % base) (y % base) ≡ compare x y
compare-div_mod x y base h =
    compare-mul_add (x / base) (y / base) (x % base) (y % base) base (mod-lt x h) (mod-lt y h)
    ∙ ap₂ compare (div-add-mod x base) (div-add-mod y base)

pub length-decompose : (x base n : ℕ) → length (decompose x base n) ≡ n
unfolding decompose
length-decompose x base n = length-reverse (push_digits x base n) ∙ pushed x n
  where
    pushed : (y k : ℕ) → length (push_digits y base k) ≡ k
    pushed y zero = refl
    pushed y (suc k) = ap suc (pushed (y / base) k)

decompose-suc :
    (x base n : ℕ) → decompose x base (suc n) ≡ decompose (x / base) base n ++ (x % base ∷ [])
unfolding decompose
decompose-suc x base n = reverse-append (x % base ∷ []) (push_digits (x / base) base n)

div_bound : (x base n : ℕ) → 0 < base → x < base ^ suc n → x / base < base ^ n
div_bound x base n h lt = (div-lt_iff_lt-mul h).1 (rw pow-suc at lt)

-- The digits of two numbers that fit compare as the numbers.
pub lex_compare-decompose :
    (n x y base : ℕ)
    → 0 < base
    → x < base ^ n
    → y < base ^ n
    → lex_compare (decompose x base n) (decompose y base n) ≡ compare x y
lex_compare-decompose zero x y base h hx hy =
    let ex : x ≡ 0 = omega (arith, pow-zero base) in
    let ey : y ≡ 0 = omega (arith, pow-zero base) in
    unfold lex_compare decompose push_digits in rw (ex, ey)
lex_compare-decompose (suc n) x y base h hx hy =
    let same = length-decompose (x / base) base n ∙ sym (length-decompose (y / base) base n) in
    rw (decompose-suc x base n, decompose-suc y base n)
      (lex_compare-snoc _ _ (x % base) (y % base) same
        ∙ ap (λ o. then_compare o (x % base) (y % base))
            (lex_compare-decompose n (x / base) (y / base) base h (div_bound x base n h hx)
              (div_bound y base n h hy))
        ∙ compare-div_mod x y base h)

pub lex_le-decompose :
    (n x y base : ℕ)
    → 0 < base
    → x < base ^ n
    → y < base ^ n
    → lex_le (decompose x base n) (decompose y base n) ≡ leb x y
unfolding lex_le
lex_le-decompose n x y base h hx hy = rw (lex_compare-decompose n x y base h hx hy, lex_le) refl

abbrev pub AreDigits : ℕ → List ℕ → Type 0
AreDigits base xs = All (λ d. d < base) xs

AreDigits-snoc :
    {base d : ℕ} (xs : List ℕ) → AreDigits base xs → d < base → AreDigits base (xs ++ (d ∷ []))
AreDigits-snoc [] h k = (k, tt)
AreDigits-snoc (x ∷ xs) (h, hs) k = (h, AreDigits-snoc xs hs k)

pub decompose-AreDigits : (n x base : ℕ) → 0 < base → AreDigits base (decompose x base n)
decompose-AreDigits zero x base h = unfold decompose push_digits in tt
decompose-AreDigits (suc n) x base h = rw (decompose-suc x base n) (
    AreDigits-snoc (decompose (x / base) base n) (decompose-AreDigits n (x / base) base h)
      (mod-lt x h))
