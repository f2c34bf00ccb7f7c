-- ===== src/Cet/Payouts/Merge.antt =====
-- Merging keeps what every outcome is paid, and leaves nothing more to merge.
use node_dlc.Prelude.{
  ℕ, ◌+◌, ◌≤◌, ◌≡◌, ◌↔◌, ◌⊎◌, refl, sym, ap, subst, ◌∙◌, arith, Bool, true, false, ◌&&◌, ◌||◌, List,
  [], ◌∷◌, ◌++◌, append-nil, append_assoc, All, leb, ◌==◌, Bool-cases, inl, inr,
}
use mathlib.Core.List.{foldl}
use node_dlc.Cet.Payouts.{CetPayout, joins, merge_step, merge_payouts}

abbrev pub IsRange : CetPayout → Type 0
IsRange p = p.index_from ≤ p.index_to

abbrev pub covers : CetPayout → ℕ → ℕ → Bool
covers p outcome pay = leb p.index_from outcome && (leb outcome p.index_to && p.payout == pay)

-- Some range of the list pays `pay` at the outcome.
unfoldable pub pays : List CetPayout → ℕ → ℕ → Bool
pays [] outcome pay = false
pays (p ∷ ps) outcome pay = covers p outcome pay || pays ps outcome pay

-- What no range and the one behind it may be: the second starts at the end of the first or right
-- behind it, and pays the same.
abbrev pub CanMerge : CetPayout → CetPayout → Type 0
CanMerge p q =
    ((q.index_from ≡ p.index_to) ⊎ (q.index_from ≡ p.index_to + 1)) × (p.payout ≡ q.payout)

abbrev pub IsMerged : List CetPayout → Type 0
IsMerged [] = Unit {0}
IsMerged (p ∷ []) = Unit {0}
IsMerged (p ∷ (q ∷ ps)) = ¬ CanMerge p q × IsMerged (q ∷ ps)

joins-CanMerge : (p q : CetPayout) → joins p q ≡ false → ¬ CanMerge p q
unfolding joins
joins-CanMerge p q h (inl a, b) = ground arith
joins-CanMerge p q h (inr a, b) = ground arith

CanMerge-joins : (p q : CetPayout) → ¬ CanMerge p q → joins p q ≡ false
unfolding joins
CanMerge-joins p q h = elim (Bool-cases (joins p q)) [
  | inl e ↦ absurd (h (near e, ground arith))
  | inr e ↦ e
]
  where
    near : joins p q ≡ true → (q.index_from ≡ p.index_to) ⊎ (q.index_from ≡ p.index_to + 1)
    near e = elim (Bool-cases (p.index_to == q.index_from)) [
      | inl a ↦ inl (ground arith)
      | inr a ↦ inr (ground arith)
    ]

covers_joined :
    (p r : CetPayout) (x v : ℕ)
    → IsRange p
    → IsRange r
    → joins p r ≡ true
    → covers (record p { index_to = r.index_to }) x v ≡ (covers p x v || covers r x v)
unfolding joins
covers_joined p r x v hp hr h = ground arith

pays-merge_step :
    (acc : List CetPayout) (r : CetPayout) (x v : ℕ)
    → All IsRange acc
    → IsRange r
    → pays (merge_step acc r) x v ≡ (pays acc x v || covers r x v)
unfolding merge_step pays
pays-merge_step [] r x v h hr = ground arith
pays-merge_step (p ∷ []) r x v (h, hs) hr = elim (Bool-cases (joins p r)) [
  | inl e ↦ rw e (ground (arith, covers_joined p r x v h hr e))
  | inr e ↦ rw e (ground arith)
]
pays-merge_step (p ∷ (q ∷ acc)) r x v (h, hs) hr =
    ground (arith, pays-merge_step (q ∷ acc) r x v hs hr)

merge_step-IsRange :
    (acc : List CetPayout) (r : CetPayout)
    → All IsRange acc
    → IsRange r
    → All IsRange (merge_step acc r)
unfolding merge_step
merge_step-IsRange [] r h hr = (hr, tt)
merge_step-IsRange (p ∷ []) r (h, hs) hr = elim (Bool-cases (joins p r)) [
  | inl e ↦ rw e (joined e, tt)
  | inr e ↦ rw e (h, (hr, tt))
]
  where
    joined : joins p r ≡ true → p.index_from ≤ r.index_to
    joined e = unfold joins in ground arith
merge_step-IsRange (p ∷ (q ∷ acc)) r (h, hs) hr = (h, merge_step-IsRange (q ∷ acc) r hs hr)

-- Only the end of the last range moves, so the one before it joins it no more than it did.
merge_step-IsMerged :
    (acc : List CetPayout) (r : CetPayout) → IsMerged acc → IsMerged (merge_step acc r)
unfolding merge_step
merge_step-IsMerged [] r h = tt
merge_step-IsMerged (p ∷ []) r h = elim (Bool-cases (joins p r)) [
  | inl e ↦ rw e tt
  | inr e ↦ rw e (joins-CanMerge p r e, tt)
]
merge_step-IsMerged (p ∷ (q ∷ [])) r (h, hs) = elim (Bool-cases (joins q r)) [
  | inl e ↦ rw e (h, tt)
  | inr e ↦ rw e (h, (joins-CanMerge q r e, tt))
]
merge_step-IsMerged (p ∷ (q ∷ (s ∷ acc))) r (h, hs) = (h, merge_step-IsMerged (q ∷ (s ∷ acc)) r hs)

pays-foldl :
    (ps acc : List CetPayout) (x v : ℕ)
    → All IsRange acc
    → All IsRange ps
    → pays (foldl merge_step acc ps) x v ≡ (pays acc x v || pays ps x v)
unfolding pays
pays-foldl [] acc x v ha hp = ground arith
pays-foldl (p ∷ ps) acc x v ha (h, hs) =
    pays-foldl ps (merge_step acc p) x v (merge_step-IsRange acc p ha h) hs
    ∙ ground (arith, pays-merge_step acc p x v ha h)

foldl-IsMerged : (ps acc : List CetPayout) → IsMerged acc → IsMerged (foldl merge_step acc ps)
foldl-IsMerged [] acc h = h
foldl-IsMerged (p ∷ ps) acc h = foldl-IsMerged ps (merge_step acc p) (merge_step-IsMerged acc p h)

-- Where no range ends before it begins, an outcome is paid an amount by some range of the merged
-- list exactly when it is by some range of the given one.
pub pays-merge_payouts :
    (ps : List CetPayout) (outcome pay : ℕ)
    → All IsRange ps
    → pays (merge_payouts ps) outcome pay ≡ pays ps outcome pay
unfolding merge_payouts
pays-merge_payouts ps outcome pay h = pays-foldl ps [] outcome pay tt h ∙ unfold pays in refl

-- A list that is merged goes through the rounds as it is.
merge_step-stays :
    (acc : List CetPayout) (r : CetPayout) (rest : List CetPayout)
    → IsMerged (acc ++ r ∷ rest)
    → merge_step acc r ≡ acc ++ r ∷ []
unfolding merge_step
merge_step-stays [] r rest h = refl
merge_step-stays (p ∷ []) r rest (h, hs) = rw (CanMerge-joins p r h) refl
merge_step-stays (p ∷ (q ∷ acc)) r rest (h, hs) =
    ap (λ t. p ∷ t) (merge_step-stays (q ∷ acc) r rest hs)

foldl-stays : (ps acc : List CetPayout) → IsMerged (acc ++ ps) → foldl merge_step acc ps ≡ acc ++ ps
foldl-stays [] acc h = sym (append-nil acc)
foldl-stays (p ∷ ps) acc h =
    let same = append_assoc acc (p ∷ []) ps in
    ap (λ t. foldl merge_step t ps) (merge_step-stays acc p ps h)
    ∙ foldl-stays ps (acc ++ p ∷ []) (subst IsMerged (sym same) h)
    ∙ same

-- Of whatever list, no range of what mergePayouts returns pays the same as the one in front of it
-- and starts at its end or right behind it; and mergePayouts returns a list as it is exactly when
-- none of its ranges does.
pub merge_payouts-IsMerged :
    (ps : List CetPayout) → IsMerged (merge_payouts ps) × ((merge_payouts ps ≡ ps) ↔ IsMerged ps)
unfolding merge_payouts
merge_payouts-IsMerged ps =
    let merged = foldl-IsMerged ps [] tt in
    (merged, ((λ e. subst IsMerged e merged), foldl-stays ps []))
