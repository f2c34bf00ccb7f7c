-- ===== src/Cet/Groupings/Cover.antt =====
-- How often a digit string is covered by a list of groups, and what trimmed blocks cover.
use node_dlc.Prelude.{
  ℕ, zero, suc, ◌+◌, ◌-◌, ◌<◌, ◌≡◌, refl, sym, ap, ◌∙◌, arith, Bool, true, false, ◌&&◌, List, [],
  ◌∷◌, ◌++◌, map, reverse, reverse-append, append-nil, append_assoc, length, All, ltb, leb, ◌==◌,
  if◌then◌else◌,
}
use node_dlc.Cet.Groupings.{flat_map, fixed_digits, count_up, count_down}
use node_dlc.Cet.Groupings.Trim.{trim, trimmed, trim-cons_more, trimmed-cons_more, trim-bound}
use mathlib.Core.List.{map-append}
use mathlib.Core.Path.{ap₂}

-- The digits begin with the group.
unfoldable pub starts : List ℕ → List ℕ → Bool
starts [] xs = true
starts (g ∷ gs) [] = false
starts (g ∷ gs) (x ∷ xs) = g == x && starts gs xs

abbrev pub tally : Bool → ℕ
tally b = if b then 1 else 0

-- The number of groups that the digits begin with.
unfoldable pub hits : List (List ℕ) → List ℕ → ℕ
unfolding starts
hits [] xs = 0
hits (g ∷ gs) xs = tally (starts g xs) + hits gs xs

pub hits-append :
    (gs hs : List (List ℕ)) (xs : List ℕ) → hits (gs ++ hs) xs ≡ hits gs xs + hits hs xs
unfolding hits
hits-append [] hs xs = omega arith
hits-append (g ∷ gs) hs xs = omega (arith, hits-append gs hs xs)

pub hits-reverse : (gs : List (List ℕ)) (xs : List ℕ) → hits (reverse gs) xs ≡ hits gs xs
unfolding hits
hits-reverse [] xs = refl
hits-reverse (g ∷ gs) xs =
    ap (λ t. hits t xs) (reverse-append (g ∷ []) gs)
    ∙ hits-append (reverse gs) (g ∷ []) xs
    ∙ omega (arith, hits-reverse gs xs)

pub hits-map_cons :
    (d x : ℕ) (gs : List (List ℕ)) (xs : List ℕ)
    → hits (map (λ g. d ∷ g) gs) (x ∷ xs) ≡ (if d == x then hits gs xs else 0)
unfolding hits
hits-map_cons d x [] xs = ground arith
hits-map_cons d x (g ∷ gs) xs = ground (arith, hits-map_cons d x gs xs)

pub hits-count_up :
    (from rounds x : ℕ) (xs : List ℕ)
    → hits (count_up [] from rounds) (x ∷ xs) ≡ tally (leb from x && ltb x (from + rounds))
unfolding hits count_up
hits-count_up from zero x xs = ground arith
hits-count_up from (suc rounds) x xs = ground (arith, hits-count_up (from + 1) rounds x xs)

pub hits-count_down : (d x : ℕ) (xs : List ℕ) → hits (count_down [] d) (x ∷ xs) ≡ tally (ltb x d)
unfolding hits count_down
hits-count_down zero x xs = ground arith
hits-count_down (suc d) x xs = ground (arith, hits-count_down d x xs)

pub count_up-cons :
    (d from rounds : ℕ) (p : List ℕ)
    → count_up (d ∷ p) from rounds ≡ map (λ g. d ∷ g) (count_up p from rounds)
unfolding count_up
count_up-cons d from zero p = refl
count_up-cons d from (suc rounds) p =
    ap (λ t. (d ∷ (p ++ (from ∷ []))) ∷ t) (count_up-cons d (from + 1) rounds p)

pub count_down-cons :
    (d n : ℕ) (p : List ℕ) → count_down (d ∷ p) n ≡ map (λ g. d ∷ g) (count_down p n)
unfolding count_down
count_down-cons d zero p = refl
count_down-cons d (suc n) p = ap (λ t. (d ∷ (p ++ (n ∷ []))) ∷ t) (count_down-cons d n p)

fixed_digits-cons :
    (d i : ℕ) (ds : List ℕ) → i < length ds → fixed_digits (d ∷ ds) i ≡ d ∷ fixed_digits ds i
unfolding fixed_digits
fixed_digits-cons d i ds h =
    let e : suc (length ds) - (i + 1) ≡ suc (length ds - (i + 1)) = omega arith in rw e

pub fixed_digits-head : (d : ℕ) (ds : List ℕ) → fixed_digits (d ∷ ds) (length ds) ≡ []
unfolding fixed_digits
fixed_digits-head d ds = let e : suc (length ds) - (length ds + 1) ≡ 0 = omega arith in rw e

flat_map-append {ℓ κ} :
    {A : Type ℓ} {B : Type κ} (f : A → List B) (xs ys : List A)
    → flat_map f (xs ++ ys) ≡ flat_map f xs ++ flat_map f ys
unfolding flat_map
flat_map-append f [] ys = refl
flat_map-append f (x ∷ xs) ys =
    ap (λ t. f x ++ t) (flat_map-append f xs ys) ∙ sym (append_assoc (f x) _ _)

-- What both sides of a range do, for the groups `runs p d` that stand beside the digit `d` behind
-- the fixed digits `p`.
module _ (runs : List ℕ → ℕ → List (List ℕ))
    (runs_cons : (d n : ℕ) (p : List ℕ) → runs (d ∷ p) n ≡ map (λ g. d ∷ g) (runs p n)) where
  abbrev pub spread : List ℕ → List (ℕ × ℕ) → List (List ℕ)
  spread digits pairs = flat_map (λ a. runs (fixed_digits digits a.1) a.0) pairs

  pub spread-cons :
      (d : ℕ) (ds : List ℕ) (pairs : List (ℕ × ℕ))
      → All (λ a. a.1 < length ds) pairs
      → spread (d ∷ ds) pairs ≡ map (λ g. d ∷ g) (spread ds pairs)
  unfolding flat_map
  spread-cons d ds [] h = refl
  spread-cons d ds ((n, i) ∷ pairs) (h, hs) =
      ap₂ ◌++◌ (ap (λ p. runs p n) (fixed_digits-cons d i ds h) ∙ runs_cons d n (fixed_digits ds i))
        (spread-cons d ds pairs hs)
      ∙ sym (map-append (λ g. d ∷ g) (runs (fixed_digits ds i) n) (spread ds pairs))

  -- The digits without their tail, and the groups beside them.
  abbrev pub block : (ℕ → Bool) → List ℕ → List (List ℕ)
  block stop ds = trimmed stop ds ∷ spread ds (trim stop ds)

  pub block-cons_more :
      (stop : ℕ → Bool) (d : ℕ) (ds : List ℕ) {p : ℕ × ℕ} {ps : List (ℕ × ℕ)}
      → trim stop ds ≡ p ∷ ps
      → block stop (d ∷ ds) ≡ map (λ g. d ∷ g) (block stop ds) ++ runs [] d
  block-cons_more stop d ds h = ap₂ ◌∷◌ (trimmed-cons_more stop d ds h) (
      ap (spread (d ∷ ds)) (trim-cons_more stop d ds h)
      ∙ flat_map-append _ (trim stop ds) _
      ∙ ap₂ ◌++◌ (spread-cons d ds (trim stop ds) (trim-bound stop ds))
          (unfold flat_map in append-nil _ ∙ ap (λ p. runs p d) (fixed_digits-head d ds)))
