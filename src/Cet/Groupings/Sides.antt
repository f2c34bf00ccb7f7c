-- ===== src/Cet/Groupings/Sides.antt =====
-- What frontGroupings and backGroupings cover: of the digit strings with the same first digit,
-- those on the one side of the given digits, each by one group.
use node_dlc.Prelude.{
  ℕ, ◌+◌, ◌-◌, ◌<◌, ◌≡◌, refl, sym, ap, ◌∙◌, arith, Bool, true, false, not, ◌&&◌, List, [], ◌∷◌,
  ◌++◌, map, reverse, reverse-append, append-nil, length, ltb, ◌==◌, if◌then◌else◌, Bool-cases, inl,
  inr,
}
use mathlib.Core.Path.{ap₂}
use mathlib.Core.List.{map-append}
use node_dlc.Cet.Digits.{zip_from, zip_with_index, drop_until}
use node_dlc.Cet.Groupings.{
  flat_map, without_last, count_up, count_down, front_groupings, back_groupings,
}
use node_dlc.Cet.Groupings.Order.{AreDigits, lex_compare, lex_le}
use node_dlc.Cet.Groupings.Trim.{
  trim, trimmed, trim-cons_nil, trim-cons_more, trim-bound, without_last-snoc,
}
use node_dlc.Cet.Groupings.Cover.{
  tally, hits, hits-append, hits-reverse, hits-map_cons, hits-count_up, hits-count_down,
  count_up-cons, count_down-cons, spread, spread-cons, block, block-cons_more, fixed_digits-head,
}

-- A side of a range: which digits stand beside one, and the order of digit strings that it follows.
pub record Side (base : ℕ) : Type 0 where
  pub stop : ℕ → Bool
  pub low : ℕ
  pub runs : List ℕ → ℕ → List (List ℕ)
  pub beyond : ℕ → ℕ → Bool
  pub on_side : List ℕ → List ℕ → Bool
  pub runs_cons : (d n : ℕ) (p : List ℕ) → runs (d ∷ p) n ≡ map (λ g. d ∷ g) (runs p n)
  pub runs_hits :
      (d x : ℕ) (xs : List ℕ) → x < base → hits (runs [] d) (x ∷ xs) ≡ tally (beyond d x)
  pub beyond_self : (d x : ℕ) → (d == x) ≡ true → beyond d x ≡ false
  pub stops : (d : ℕ) → stop d ≡ false → d ≡ low
  pub beyond_low : (d x : ℕ) → stop d ≡ false → x < base → (d == x) ≡ false → beyond d x ≡ true
  pub on_side_nil : on_side [] [] ≡ true
  pub on_side_cons :
      (d x : ℕ) (ds xs : List ℕ)
      → on_side (d ∷ ds) (x ∷ xs) ≡ (if d == x then on_side ds xs else beyond d x)

module _ {base : ℕ} (s : Side base) where
  open s use {stop, low, runs, beyond, on_side, runs_cons, runs_hits}

  -- Digits of which nothing is left have every string on their side.
  on_side_all :
      (ds xs : List ℕ)
      → length ds ≡ length xs
      → AreDigits base xs
      → trim stop ds ≡ []
      → on_side ds xs ≡ true
  on_side_all [] [] n h e = s.on_side_nil
  on_side_all [] (x ∷ xs) n h e = absurd (omega arith)
  on_side_all (d ∷ ds) [] n h e = absurd (omega arith)
  on_side_all (d ∷ ds) (x ∷ xs) n (hx, hxs) e =
      go (trim stop ds) refl (on_side_all ds xs (omega arith) hxs)
    where
      go :
          (t : List (ℕ × ℕ))
          → trim stop ds ≡ t
          → (trim stop ds ≡ [] → on_side ds xs ≡ true)
          → on_side (d ∷ ds) (x ∷ xs) ≡ true
      go (p ∷ ps) et ih = cc (sym (trim-cons_more stop d ds et) ∙ e, et)
      go [] et ih =
          let stays : stop d ≡ false = elim (Bool-cases (stop d)) [
            | inl yes_stop ↦ cc (sym (trim-cons_nil stop d ds et) ∙ e, yes_stop)
            | inr no_stop ↦ no_stop
          ] in
          s.on_side_cons d x ds xs ∙ elim (Bool-cases (d == x)) [
            | inl same ↦ rw same (ih et)
            | inr other ↦ rw other (s.beyond_low d x stays hx other)
          ]

  -- One digit in front: its own groups and those beside it.
  hits-level :
      (d x : ℕ) (ds xs : List ℕ) (inner : List (List ℕ))
      → x < base
      → hits inner xs ≡ tally (on_side ds xs)
      → hits (map (λ g. d ∷ g) inner ++ runs [] d) (x ∷ xs) ≡ tally (on_side (d ∷ ds) (x ∷ xs))
  hits-level d x ds xs inner hx ih =
      hits-append (map (λ g. d ∷ g) inner) (runs [] d) (x ∷ xs)
      ∙ ap₂ ◌+◌ (hits-map_cons d x inner xs) (runs_hits d x xs hx)
      ∙ rw (s.on_side_cons d x ds xs) (elim (Bool-cases (d == x)) [
        | inl same ↦ rw (same, s.beyond_self d x same, ih) (omega arith)
        | inr other ↦ rw other (omega arith)
      ])

  single : (d x : ℕ) (xs : List ℕ) → hits ((d ∷ []) ∷ []) (x ∷ xs) ≡ (if d == x then 1 else 0)
  unfolding hits
  single d x xs = ground arith

  -- A digit that stays, before digits that all go.
  hits-edge :
      (d x : ℕ) (ds xs : List ℕ)
      → x < base
      → on_side ds xs ≡ true
      → hits ((d ∷ []) ∷ runs [] d) (x ∷ xs) ≡ tally (on_side (d ∷ ds) (x ∷ xs))
  hits-edge d x ds xs hx all =
      hits-append ((d ∷ []) ∷ []) (runs [] d) (x ∷ xs)
      ∙ ap₂ ◌+◌ (single d x xs) (runs_hits d x xs hx)
      ∙ rw (s.on_side_cons d x ds xs) (elim (Bool-cases (d == x)) [
        | inl same ↦ rw (same, s.beyond_self d x same, all) (omega arith)
        | inr other ↦ rw other (omega arith)
      ])

  -- Groups built over trimmed digits cover exactly the strings on their side, each once.
  hits-block :
      (ds xs : List ℕ) {p : ℕ × ℕ} {ps : List (ℕ × ℕ)}
      → length ds ≡ length xs
      → AreDigits base xs
      → trim stop ds ≡ p ∷ ps
      → hits (block runs runs_cons stop ds) xs ≡ tally (on_side ds xs)
  unfolding flat_map
  hits-block [] xs n h e = unfold zip_with_index drop_until zip_from in cc
  hits-block (d ∷ ds) [] n h e = absurd (omega arith)
  hits-block (d ∷ ds) (x ∷ xs) n (hx, hxs) e =
      go (trim stop ds) refl (λ q qs. hits-block ds xs {p = q} {ps = qs} (omega arith) hxs)
    where
      go :
          (t : List (ℕ × ℕ))
          → trim stop ds ≡ t
          → ((q : ℕ × ℕ) (qs : List (ℕ × ℕ))
              → trim stop ds ≡ q ∷ qs
              → hits (block runs runs_cons stop ds) xs ≡ tally (on_side ds xs))
          → hits (block runs runs_cons stop (d ∷ ds)) (x ∷ xs) ≡ tally (on_side (d ∷ ds) (x ∷ xs))
      go (q ∷ qs) et ih =
          ap (λ t. hits t (x ∷ xs)) (block-cons_more runs runs_cons stop d ds et)
          ∙ hits-level d x ds xs (block runs runs_cons stop ds) hx (ih q qs et)
      go [] et ih = elim (Bool-cases (stop d)) [
        | inl yes_stop ↦
            rw (trim-cons_nil stop d ds et, yes_stop, fixed_digits-head d ds, append-nil)
              (hits-edge d x ds xs hx (on_side_all ds xs (omega arith) hxs et))
        | inr no_stop ↦ cc (sym (trim-cons_nil stop d ds et) ∙ e, no_stop)
      ]

  -- The groups of a side that share the first digit, as both functions of the code choose them.
  abbrev chosen : List ℕ → List (List ℕ)
  chosen ds =
      let kept = trim stop ds in
      if length kept == 0
      then (low ∷ []) ∷ []
      else trimmed stop ds ∷ spread runs runs_cons ds (without_last kept)

  hits-chosen :
      (d x : ℕ) (ds xs : List ℕ)
      → length ds ≡ length xs
      → AreDigits base (x ∷ xs)
      → hits (chosen (d ∷ ds)) (x ∷ xs) ≡ tally (d == x && on_side ds xs)
  unfolding flat_map
  hits-chosen d x ds xs n (hx, hxs) = go (trim stop ds) refl
    where
      go :
          (t : List (ℕ × ℕ))
          → trim stop ds ≡ t
          → hits (chosen (d ∷ ds)) (x ∷ xs) ≡ tally (d == x && on_side ds xs)
      go (q ∷ qs) et =
          let more : (length (trim stop ds ++ ((d, length ds) ∷ [])) == 0) ≡ false =
            rw et (ground arith) in
          rw (trim-cons_more stop d ds et, more)
            (rw (without_last-snoc (trim stop ds) (d, length ds)) (
              ap (λ t. hits t (x ∷ xs))
                (ap₂ ◌∷◌
                  (ap reverse (map-append (λ a. a.0) (trim stop ds) _)
                    ∙ reverse-append (map (λ a. a.0) (trim stop ds)) (d ∷ []))
                  (spread-cons runs runs_cons d ds (trim stop ds) (trim-bound stop ds)))
              ∙ hits-map_cons d x (block runs runs_cons stop ds) xs
              ∙ rw (hits-block ds xs n hxs et) (ground arith)))
      go [] et = elim (Bool-cases (stop d)) [
        | inl yes_stop ↦
            rw (trim-cons_nil stop d ds et, yes_stop)
              (rw (without_last-snoc {A = ℕ × ℕ} [] (d, length ds))
                (single d x xs ∙ rw (on_side_all ds xs n hxs et) (ground arith)))
        | inr no_stop ↦
            rw (trim-cons_nil stop d ds et, no_stop)
              (rw (← s.stops d no_stop)
                (single d x xs ∙ rw (on_side_all ds xs n hxs et) (ground arith)))
      ]

pub lex_le-cons :
    (x y : ℕ) (xs ys : List ℕ)
    → lex_le (x ∷ xs) (y ∷ ys) ≡ (if x == y then lex_le xs ys else ltb x y)
unfolding lex_le lex_compare
lex_le-cons x y xs ys = ground arith

lex_le-cons_flip :
    (d x : ℕ) (ds xs : List ℕ)
    → lex_le (x ∷ xs) (d ∷ ds) ≡ (if d == x then lex_le xs ds else ltb x d)
unfolding lex_le lex_compare
lex_le-cons_flip d x ds xs = ground arith

pub lex_le-nil : lex_le [] [] ≡ true
unfolding lex_le lex_compare
lex_le-nil = refl

hits-above :
    (base d x : ℕ) (xs : List ℕ)
    → x < base
    → hits (count_up [] (d + 1) (base - (d + 1))) (x ∷ xs) ≡ tally (ltb d x)
hits-above base d x xs h = hits-count_up (d + 1) (base - (d + 1)) x xs ∙ ground arith

not_self : (d x : ℕ) → (d == x) ≡ true → (ltb d x ≡ false) × (ltb x d ≡ false)
not_self d x e = (ground arith, ground arith)

is_of_not : (d n : ℕ) → not (d == n) ≡ false → d ≡ n
is_of_not d n e = ground arith

above_zero : (d x : ℕ) → not (d == 0) ≡ false → (d == x) ≡ false → ltb d x ≡ true
above_zero d x e ne = ground arith

below_max :
    (base d x : ℕ) → not (d == base - 1) ≡ false → x < base → (d == x) ≡ false → ltb x d ≡ true
below_max base d x e h ne = ground arith

abbrev front_side : (base : ℕ) → Side base
front_side base = record {
  stop = λ d. not (d == 0);
  low = 0;
  runs = λ p d. count_up p (d + 1) (base - (d + 1));
  beyond = ltb;
  on_side = lex_le;
  runs_cons = λ d n p. count_up-cons d (n + 1) (base - (n + 1)) p;
  runs_hits = hits-above base;
  beyond_self = λ d x e. (not_self d x e).0;
  stops = λ d e. is_of_not d 0 e;
  beyond_low = λ d x e h ne. above_zero d x e ne;
  on_side_nil = lex_le-nil;
  on_side_cons = lex_le-cons;
}

abbrev back_side : (base : ℕ) → Side base
back_side base = record {
  stop = λ d. not (d == base - 1);
  low = base - 1;
  runs = count_down;
  beyond = λ d x. ltb x d;
  on_side = λ ds xs. lex_le xs ds;
  runs_cons = count_down-cons;
  runs_hits = λ d x xs h. hits-count_down d x xs;
  beyond_self = λ d x e. (not_self d x e).1;
  stops = λ d e. is_of_not d (base - 1) e;
  beyond_low = below_max base;
  on_side_nil = lex_le-nil;
  on_side_cons = lex_le-cons_flip;
}

-- Of the digit strings as long as the given one, frontGroupings covers those with its first digit
-- that are not below it, each by exactly one group, and no other.
pub hits-front_groupings :
    (base d x : ℕ) (ds xs : List ℕ)
    → length ds ≡ length xs
    → AreDigits base (x ∷ xs)
    → hits (front_groupings (d ∷ ds) base) (x ∷ xs) ≡ tally (d == x && lex_le ds xs)
unfolding front_groupings
hits-front_groupings base d x ds xs n h = hits-chosen (front_side base) d x ds xs n h

-- The order of the groups does not matter.
hits-reordered :
    (b : Bool) (few gs : List (List ℕ)) (g : List ℕ) (xs : List ℕ)
    → hits (if b then few else reverse gs ++ (g ∷ [])) xs ≡ hits (if b then few else g ∷ gs) xs
hits-reordered true few gs g xs = refl
hits-reordered false few gs g xs =
    hits-append (reverse gs) (g ∷ []) xs
    ∙ omega (arith, hits-reverse gs xs, hits-append (g ∷ []) gs xs)

-- Of the digit strings as long as the given one, backGroupings covers those with its first digit
-- that are not above it, each by exactly one group, and no other.
pub hits-back_groupings :
    (base d x : ℕ) (ds xs : List ℕ)
    → length ds ≡ length xs
    → AreDigits base (x ∷ xs)
    → hits (back_groupings (d ∷ ds) base) (x ∷ xs) ≡ tally (d == x && lex_le xs ds)
unfolding back_groupings
hits-back_groupings base d x ds xs n h =
    let stop : ℕ → Bool = λ k. not (k == base - 1) in
    let kept = trim stop (d ∷ ds) in
    hits-reordered (length kept == 0) (((base - 1) ∷ []) ∷ [])
      (spread count_down count_down-cons (d ∷ ds) (without_last kept)) (trimmed stop (d ∷ ds))
      (x ∷ xs)
    ∙ hits-chosen (back_side base) d x ds xs n h
