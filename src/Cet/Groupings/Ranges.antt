-- ===== src/Cet/Groupings/Ranges.antt =====
-- What each kind of group list covers, behind the common prefix of a range and with it.
use node_dlc.Prelude.{
  ℕ, zero, suc, ◌+◌, ◌-◌, ◌<◌, ◌≡◌, refl, ap, ◌∙◌, arith, true, false, ◌&&◌, List, [], ◌∷◌, ◌++◌,
  map, drop, length, ◌==◌, Bool-cases, inl, inr,
}
use mathlib.Core.Path.{ap₂}
use node_dlc.Cet.Digits.{common_prefix}
use node_dlc.Cet.Groupings.{every, count_up, front_groupings, back_groupings, middle_groupings}
use node_dlc.Cet.Groupings.Order.{AreDigits, lex_le}
use node_dlc.Cet.Groupings.Cover.{starts, tally, hits, hits-append, hits-map_cons, hits-count_up}
use node_dlc.Cet.Groupings.Sides.{
  lex_le-cons, lex_le-nil, hits-front_groupings, hits-back_groupings,
}

-- Two digit strings that part at once, or are both empty.
abbrev pub Parted : List ℕ → List ℕ → Type 0
Parted [] [] = Unit {0}
Parted (x ∷ xs) (y ∷ ys) = (x == y) ≡ false
Parted _ _ = ⊥

-- What `separatePrefix` does to two strings of one length.
pub common_prefix_lem :
    (xs ys : List ℕ)
    → length xs ≡ length ys
    → let c = common_prefix xs ys in
      (xs ≡ c ++ drop (length c) xs)
      × (ys ≡ c ++ drop (length c) ys)
      × Parted (drop (length c) xs) (drop (length c) ys)
unfolding common_prefix
common_prefix_lem [] [] h = (refl, refl, tt)
common_prefix_lem [] (y ∷ ys) h = absurd (omega arith)
common_prefix_lem (x ∷ xs) [] h = absurd (omega arith)
common_prefix_lem (x ∷ xs) (y ∷ ys) h =
    let (ex, ey, p) = common_prefix_lem xs ys (omega arith) in
    elim (Bool-cases (x == y)) [
      | inl same ↦ let e : y ≡ x = ground arith in rw same (ap (λ t. x ∷ t) ex, ap₂ ◌∷◌ e ey, p)
      | inr other ↦ rw other (refl, refl, other)
    ]

-- The groups `gs` cover, of the strings as long as `low`, those from `low` to `high`.
unfoldable pub Covers : ℕ → List (List ℕ) → List ℕ → List ℕ → Type 0
Covers base gs low high =
    (xs : List ℕ)
    → length low ≡ length xs
    → AreDigits base xs
    → hits gs xs ≡ tally (lex_le low xs && lex_le xs high)

map-cons_prefix :
    (p : ℕ) (ps : List ℕ) (gs : List (List ℕ))
    → map (λ g. (p ∷ ps) ++ g) gs ≡ map (λ g. p ∷ g) (map (λ g. ps ++ g) gs)
map-cons_prefix p ps [] = refl
map-cons_prefix p ps (g ∷ gs) = ap (λ t. (p ∷ (ps ++ g)) ∷ t) (map-cons_prefix p ps gs)

map-nil_prefix : (gs : List (List ℕ)) → map (λ g. [] ++ g) gs ≡ gs
map-nil_prefix [] = refl
map-nil_prefix (g ∷ gs) = ap (λ t. g ∷ t) (map-nil_prefix gs)

-- A common prefix put back in front of the groups.
pub Covers-prefix :
    (base : ℕ) (gs : List (List ℕ)) (low high prefix : List ℕ)
    → Covers base gs low high
    → Covers base (map (λ g. prefix ++ g) gs) (prefix ++ low) (prefix ++ high)
unfolding Covers
Covers-prefix base gs low high [] c xs n h = ap (λ t. hits t xs) (map-nil_prefix gs) ∙ c xs n h
Covers-prefix base gs low high (p ∷ ps) c [] n h = absurd (omega arith)
Covers-prefix base gs low high (p ∷ ps) c (x ∷ xs) n (hx, hxs) =
    ap (λ t. hits t (x ∷ xs)) (map-cons_prefix p ps gs)
    ∙ hits-map_cons p x (map (λ g. ps ++ g) gs) xs
    ∙ rw (lex_le-cons p x (ps ++ low) xs, lex_le-cons x p xs (ps ++ high))
        (ground (arith, Covers-prefix base gs low high ps c xs (omega arith) hxs))

lex_le-zeros :
    (low xs : List ℕ)
    → length low ≡ length xs
    → every (λ n. n == 0) low ≡ true
    → lex_le low xs ≡ true
unfolding every
lex_le-zeros [] [] n e = lex_le-nil
lex_le-zeros [] (x ∷ xs) n e = absurd (omega arith)
lex_le-zeros (d ∷ low) [] n e = absurd (omega arith)
lex_le-zeros (d ∷ low) (x ∷ xs) n e =
    ground (arith, lex_le-cons d x low xs, lex_le-zeros low xs (omega arith))

lex_le-maxima :
    (base : ℕ) (high xs : List ℕ)
    → length high ≡ length xs
    → AreDigits base xs
    → every (λ n. n == base - 1) high ≡ true
    → lex_le xs high ≡ true
unfolding every
lex_le-maxima base [] [] n h e = lex_le-nil
lex_le-maxima base [] (x ∷ xs) n h e = absurd (omega arith)
lex_le-maxima base (d ∷ high) [] n h e = absurd (omega arith)
lex_le-maxima base (d ∷ high) (x ∷ xs) n (hx, hxs) e =
    ground (arith, lex_le-cons x d xs high, lex_le-maxima base high xs (omega arith) hxs)

-- One group for all strings of the rest: where the range is all of them.
pub Covers-whole :
    (base : ℕ) (low high : List ℕ)
    → length low ≡ length high
    → every (λ n. n == 0) low ≡ true
    → every (λ n. n == base - 1) high ≡ true
    → Covers base ([] ∷ []) low high
unfolding Covers hits starts
Covers-whole base low high n lo hi xs nx h =
    rw (lex_le-zeros low xs nx lo, lex_le-maxima base high xs (omega arith) h hi) (omega arith)

pub Covers-nothing : (base : ℕ) → Covers base ([] ∷ []) [] []
Covers-nothing base = Covers-whole base [] [] refl (unfold every in refl) (unfold every in refl)

-- One group to a digit: where the range parts at the last digit.
pub Covers-last : (base s e : ℕ) → s < e → Covers base (count_up [] s (e + 1 - s)) (s ∷ []) (e ∷ [])
unfolding Covers
Covers-last base s e lt [] n h = absurd (omega arith)
Covers-last base s e lt (x ∷ (y ∷ ys)) n h = absurd (omega arith)
Covers-last base s e lt (x ∷ []) n h =
    hits-count_up s (e + 1 - s) x []
    ∙ rw (lex_le-cons s x [] [], lex_le-cons x e [] [], lex_le-nil) (ground arith)

-- The groups of both sides and those between.
pub Covers-sides :
    (base s e : ℕ) (low high : List ℕ)
    → s < e
    → length low ≡ length high
    → Covers base
        (front_groupings (s ∷ low) base ++ (middle_groupings s e ++ back_groupings (e ∷ high) base))
        (s ∷ low)
        (e ∷ high)
unfolding Covers middle_groupings
Covers-sides base s e low high lt same [] n h = absurd (omega arith)
Covers-sides base s e low high lt same (x ∷ xs) n h =
    hits-append (front_groupings (s ∷ low) base) _ (x ∷ xs)
    ∙ ap₂ ◌+◌ (hits-front_groupings base s x low xs (omega arith) h) (
        hits-append (count_up [] (s + 1) (e - (s + 1))) _ (x ∷ xs)
        ∙ ap₂ ◌+◌ (hits-count_up (s + 1) (e - (s + 1)) x xs)
            (hits-back_groupings base e x high xs (omega arith) h))
    ∙ rw (lex_le-cons s x low xs, lex_le-cons x e xs high) (ground arith)

pub count_up-prefix :
    (prefix : List ℕ) (from rounds : ℕ)
    → count_up prefix from rounds ≡ map (λ g. prefix ++ g) (count_up [] from rounds)
unfolding count_up
count_up-prefix prefix from zero = refl
count_up-prefix prefix from (suc rounds) =
    ap (λ t. (prefix ++ (from ∷ [])) ∷ t) (count_up-prefix prefix (from + 1) rounds)
