-- ===== src/Messages/Payouts/Validate.antt =====
-- `validate` of packages/messaging/lib/messages/RoundingIntervals.ts, on intervals as an object holds
-- them: a bigint may be negative, though none that was read is.
use node_dlc.Prelude.{
  ℕ, ◌<◌, ◌≡◌, refl, ◌↔◌, arith, Bool, true, false, not, List, [], ◌∷◌, All, ltb, ltb→lt, lt→ltb,
  bad_value, Result, value, guard, ◌also◌, guard-also, also-eq-value, check_each, guard-eq-value,
  check_each-eq-value,
}

-- `pos n` is n, and `negsuc n` is -1 - n.
pub data ℤ : Type 0 where
  pos negsuc : ℕ → ℤ

unfoldable pub ltbℤ : ℤ → ℤ → Bool
ltbℤ (pos a) (pos b) = ltb a b
ltbℤ (pos a) (negsuc b) = false
ltbℤ (negsuc a) (pos b) = true
ltbℤ (negsuc a) (negsuc b) = ltb b a

pub record AnyInterval : Type 0 where
  pub begin_interval : ℤ
  pub rounding_mod : ℤ

-- The second loop: `last` is where the interval before begins.
unfoldable pub strictly_after : ℤ → List AnyInterval → Result (Unit {0})
strictly_after last [] = value tt
strictly_after last (x ∷ xs) =
    guard (ltbℤ last x.begin_interval) bad_value also strictly_after x.begin_interval xs

unfoldable pub strictly_increasing : List AnyInterval → Result (Unit {0})
strictly_increasing [] = value tt
strictly_increasing (x ∷ xs) = strictly_after x.begin_interval xs

unfoldable pub check_begin : AnyInterval → Result (Unit {0})
check_begin x = guard (not (ltbℤ x.begin_interval (pos 0))) bad_value

unfoldable pub validate_rounding_intervals : List AnyInterval → Result (Unit {0})
validate_rounding_intervals xs = check_each check_begin xs also strictly_increasing xs

abbrev pub IsBelow : ℤ → ℤ → Type 0
IsBelow (pos a) (pos b) = a < b
IsBelow (pos a) (negsuc b) = ⊥
IsBelow (negsuc a) (pos b) = Unit {0}
IsBelow (negsuc a) (negsuc b) = b < a

-- It begins at 0 or later.
abbrev pub IsFromZero : AnyInterval → Type 0
IsFromZero x = (n : ℕ) × (x.begin_interval ≡ pos n)

-- Every interval begins before each of the later ones.
pub Ascends : List AnyInterval → Type 0
Ascends [] = Unit {0}
Ascends (x ∷ xs) = All (λ y. IsBelow x.begin_interval y.begin_interval) xs × Ascends xs

IsBelow-trans : (a b c : ℤ) → IsBelow a b → IsBelow b c → IsBelow a c
IsBelow-trans (pos a) (pos b) (pos c) h k = omega arith
IsBelow-trans (pos a) (pos b) (negsuc c) h k = k
IsBelow-trans (pos a) (negsuc b) c h k = absurd h
IsBelow-trans (negsuc a) b (pos c) h k = tt
IsBelow-trans (negsuc a) (pos b) (negsuc c) h k = absurd k
IsBelow-trans (negsuc a) (negsuc b) (negsuc c) h k = omega arith

ltbℤ-IsBelow : (a b : ℤ) → ltbℤ a b ≡ true → IsBelow a b
unfolding ltbℤ
ltbℤ-IsBelow (pos a) (pos b) h = ltb→lt a b h
ltbℤ-IsBelow (pos a) (negsuc b) h = absurd (let no = h in cc)
ltbℤ-IsBelow (negsuc a) (pos b) h = tt
ltbℤ-IsBelow (negsuc a) (negsuc b) h = ltb→lt b a h

IsBelow-ltbℤ : (a b : ℤ) → IsBelow a b → ltbℤ a b ≡ true
unfolding ltbℤ
IsBelow-ltbℤ (pos a) (pos b) h = lt→ltb a b h
IsBelow-ltbℤ (pos a) (negsuc b) h = absurd h
IsBelow-ltbℤ (negsuc a) (pos b) h = refl
IsBelow-ltbℤ (negsuc a) (negsuc b) h = lt→ltb b a h

All-after :
    (a b : ℤ) (xs : List AnyInterval)
    → IsBelow a b
    → All (λ y. IsBelow b y.begin_interval) xs
    → All (λ y. IsBelow a y.begin_interval) xs
All-after a b [] h v = tt
All-after a b (x ∷ xs) h (p, ps) = (IsBelow-trans a b x.begin_interval h p, All-after a b xs h ps)

strictly_after-Ascends :
    (last : ℤ) (xs : List AnyInterval)
    → strictly_after last xs ≡ value tt
    → All (λ y. IsBelow last y.begin_interval) xs × Ascends xs
unfolding strictly_after Ascends
strictly_after-Ascends last [] e = (tt, tt)
strictly_after-Ascends last (x ∷ xs) e =
    let (a, rest) = guard-also (ltbℤ last x.begin_interval) bad_value e in
    let (p, q) = strictly_after-Ascends x.begin_interval xs rest in
    let h = ltbℤ-IsBelow _ _ a in ((h, All-after _ _ xs h p), (p, q))

Ascends-strictly_after :
    (last : ℤ) (xs : List AnyInterval)
    → All (λ y. IsBelow last y.begin_interval) xs
    → Ascends xs
    → strictly_after last xs ≡ value tt
unfolding strictly_after Ascends
Ascends-strictly_after last [] p q = refl
Ascends-strictly_after last (x ∷ xs) (a, p) (q, r) =
    rw (IsBelow-ltbℤ _ _ a) (Ascends-strictly_after x.begin_interval xs q r)

strictly_increasing-Ascends :
    (xs : List AnyInterval) → (strictly_increasing xs ≡ value tt) ↔ Ascends xs
unfolding strictly_increasing Ascends
strictly_increasing-Ascends [] = ((λ e. tt), (λ u. refl))
strictly_increasing-Ascends (x ∷ xs) = (
  strictly_after-Ascends x.begin_interval xs,
  (λ (p, q). Ascends-strictly_after x.begin_interval xs p q),
)

from_zero : (a : ℤ) → (not (ltbℤ a (pos 0))) ≡ true → (n : ℕ) × (a ≡ pos n)
unfolding ltbℤ
from_zero (pos n) h = (n, refl)
from_zero (negsuc n) h = absurd (let no = h in cc)

check_each-IsFromZero :
    (xs : List AnyInterval) → All (λ x. check_begin x ≡ value tt) xs → All IsFromZero xs
unfolding check_begin
check_each-IsFromZero [] h = tt
check_each-IsFromZero (x ∷ xs) (h, hs) =
    (from_zero x.begin_interval (guard-eq-value _ bad_value h), check_each-IsFromZero xs hs)

IsFromZero-check_each :
    (xs : List AnyInterval) → All IsFromZero xs → check_each check_begin xs ≡ value tt
unfolding check_begin ltbℤ
IsFromZero-check_each [] h = refl
IsFromZero-check_each (x ∷ xs) ((n, e), hs) =
    let small : ltb n 0 ≡ false = ground arith in rw (e, small) (IsFromZero-check_each xs hs)

-- RoundingIntervals.validate accepts, of lists whose intervals may begin below zero, exactly
-- those in which every interval begins at zero or later and before each of the later ones.
pub validate_rounding_intervals-Ascends :
    (xs : List AnyInterval)
    → (validate_rounding_intervals xs ≡ value tt) ↔ (All IsFromZero xs × Ascends xs)
unfolding validate_rounding_intervals
validate_rounding_intervals-Ascends xs = (
  (λ e.
      let (a, b) = also-eq-value (check_each check_begin xs) e in
      (
        check_each-IsFromZero xs (check_each-eq-value check_begin xs a),
        (strictly_increasing-Ascends xs).0 b,
      )),
  (λ (p, q). rw (IsFromZero-check_each xs p) ((strictly_increasing-Ascends xs).1 q)),
)
