-- ===== src/Cet/Groupings/Trim.antt =====
-- The trimmed digits that frontGroupings and backGroupings work on: their behaviour when one more
-- digit stands in front.
use node_dlc.Prelude.{
  ℕ, suc, ◌+◌, ◌≤◌, ◌<◌, ◌≡◌, refl, sym, ap, ◌∙◌, arith, Bool, true, false, not, List, [], ◌∷◌,
  ◌++◌, map, reverse, reverse-append, length, length-append, length-reverse, All, ◌==◌,
  if◌then◌else◌, Bool-cases, inl, inr,
}
use node_dlc.Cet.Digits.{zip_from, zip_with_index, drop_until}
use node_dlc.Cet.Groupings.{filter_index, without_last}
use mathlib.Core.List.{map-append}

zip_from-append {ℓ} :
    {A : Type ℓ} (i : ℕ) (xs : List A) (d : A)
    → zip_from i (xs ++ (d ∷ [])) ≡ zip_from i xs ++ ((d, i + length xs) ∷ [])
unfolding zip_from
zip_from-append i [] d = let e : i ≡ i + 0 = omega arith in ap (λ k. (d, k) ∷ []) e
zip_from-append i (x ∷ xs) d =
    let e : i + 1 + length xs ≡ i + suc (length xs) = omega arith in
    ap (λ t. (x, i) ∷ t)
      (zip_from-append (i + 1) xs d ∙ ap (λ k. zip_from (i + 1) xs ++ ((d, k) ∷ [])) e)

module _ {ℓ} {A : Type ℓ} (check : A → Bool) where
  drop_until-append_nil :
      (xs ys : List A)
      → drop_until xs check ≡ []
      → drop_until (xs ++ ys) check ≡ drop_until ys check
  unfolding drop_until
  drop_until-append_nil [] ys h = refl
  drop_until-append_nil (x ∷ xs) ys h = elim (Bool-cases (check x)) [
    | inl e ↦ cc (rw e at h)
    | inr e ↦ rw e (drop_until-append_nil xs ys (rw e at h))
  ]

  drop_until-append_cons :
      (xs ys : List A) {p : A} {ps : List A}
      → drop_until xs check ≡ p ∷ ps
      → drop_until (xs ++ ys) check ≡ (p ∷ ps) ++ ys
  unfolding drop_until
  drop_until-append_cons [] ys h = cc
  drop_until-append_cons (x ∷ xs) ys h = elim (Bool-cases (check x)) [
    | inl e ↦ rw e (ap (λ t. t ++ ys) (rw e at h))
    | inr e ↦ rw e (drop_until-append_cons xs ys (rw e at h))
  ]

  drop_until-All {κ} : (P : A → Type κ) (xs : List A) → All P xs → All P (drop_until xs check)
  unfolding drop_until
  drop_until-All P [] h = h
  drop_until-All P (x ∷ xs) (h, hs) = elim (Bool-cases (check x)) [
    | inl e ↦ rw e (h, hs)
    | inr e ↦ rw e (drop_until-All P xs hs)
  ]

zip_from-bound {ℓ} :
    {A : Type ℓ} (i n : ℕ) (xs : List A) → i + length xs ≤ n → All (λ a. a.1 < n) (zip_from i xs)
unfolding zip_from
zip_from-bound i n [] h = tt
zip_from-bound i n (x ∷ xs) h = (omega arith, zip_from-bound (i + 1) n xs (omega arith))

filter_index-snoc {ℓ} :
    {A : Type ℓ} (n i : ℕ) (xs : List A) (y : A)
    → i + length xs + 1 ≡ n
    → filter_index (λ k. not (k + 1 == n)) i (xs ++ (y ∷ [])) ≡ xs
unfolding filter_index
filter_index-snoc n i [] y h = let last : (i + 1 == n) ≡ true = ground arith in rw last
filter_index-snoc n i (x ∷ xs) y h =
    let inner : (i + 1 == n) ≡ false = ground arith in
    rw inner (ap (λ t. x ∷ t) (filter_index-snoc n (i + 1) xs y (omega arith)))

pub without_last-snoc {ℓ} : {A : Type ℓ} (xs : List A) (y : A) → without_last (xs ++ (y ∷ [])) ≡ xs
unfolding without_last
without_last-snoc xs y = filter_index-snoc _ 0 xs y (omega (arith, length-append xs (y ∷ [])))

-- The digits with their indices from the right, from the lowest one on that passes the test.
abbrev pub trim : (ℕ → Bool) → List ℕ → List (ℕ × ℕ)
trim stop ds = drop_until (zip_with_index (reverse ds)) (λ a. stop a.0)

abbrev pub trimmed : (ℕ → Bool) → List ℕ → List ℕ
trimmed stop ds = reverse (map (λ a. a.0) (trim stop ds))

module _ (stop : ℕ → Bool) (d : ℕ) (ds : List ℕ) where
  zipped : zip_with_index (reverse (d ∷ ds)) ≡ zip_with_index (reverse ds) ++ ((d, length ds) ∷ [])
  unfolding zip_with_index
  zipped =
      let size : 0 + length (reverse ds) ≡ length ds = omega (arith, length-reverse ds) in
      ap (zip_from 0) (reverse-append (d ∷ []) ds)
      ∙ zip_from-append 0 (reverse ds) d
      ∙ ap (λ k. zip_from 0 (reverse ds) ++ ((d, k) ∷ [])) size

  -- Where nothing was left, the new digit stands alone or goes too.
  pub trim-cons_nil :
      trim stop ds ≡ [] → trim stop (d ∷ ds) ≡ (if stop d then (d, length ds) ∷ [] else [])
  trim-cons_nil h =
      ap (λ t. drop_until t (λ a. stop a.0)) zipped
      ∙ drop_until-append_nil (λ a. stop a.0) (zip_with_index (reverse ds)) _ h
      ∙ unfold drop_until in refl

  pub trim-cons_more :
      {p : ℕ × ℕ} {ps : List (ℕ × ℕ)}
      → trim stop ds ≡ p ∷ ps
      → trim stop (d ∷ ds) ≡ trim stop ds ++ ((d, length ds) ∷ [])
  trim-cons_more h =
      ap (λ t. drop_until t (λ a. stop a.0)) zipped
      ∙ drop_until-append_cons (λ a. stop a.0) (zip_with_index (reverse ds)) _ h
      ∙ ap (λ t. t ++ ((d, length ds) ∷ [])) (sym h)

  pub trimmed-cons_more :
      {p : ℕ × ℕ} {ps : List (ℕ × ℕ)}
      → trim stop ds ≡ p ∷ ps
      → trimmed stop (d ∷ ds) ≡ d ∷ trimmed stop ds
  trimmed-cons_more h =
      ap (λ t. reverse (map (λ a. a.0) t)) (trim-cons_more h)
      ∙ ap reverse (map-append (λ a. a.0) (trim stop ds) ((d, length ds) ∷ []))
      ∙ reverse-append (map (λ a. a.0) (trim stop ds)) (d ∷ [])

-- Every index stays below the number of digits.
pub trim-bound : (stop : ℕ → Bool) (ds : List ℕ) → All (λ a. a.1 < length ds) (trim stop ds)
unfolding zip_with_index
trim-bound stop ds =
    drop_until-All (λ a. stop a.0) (λ a. a.1 < length ds) (zip_from 0 (reverse ds))
      (zip_from-bound 0 (length ds) (reverse ds) (omega (arith, length-reverse ds)))
