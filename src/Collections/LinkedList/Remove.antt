-- ===== src/Collections/LinkedList/Remove.antt =====
-- packages/core/lib/LinkedList.ts: `remove`, from the choice of the node on.
use node_dlc.Prelude.{
  ℕ, suc, ◌+◌, ◌-◌, ◌≡◌, refl, ap, ◌∙◌, arith, true, false, none, some, [], ◌∷◌, ◌++◌, length,
  length-append, append-nil, ltb, ok, >>=-ok, ◌==◌,
}
use node_dlc.Collections.Nodes.{Node, Heap, LinkedList, load}
use node_dlc.Collections.LinkedList.{Cut, remove, cut_first, cut_last, cut_middle, node_at}
use node_dlc.Collections.LinkedList.Chain.{
  Cells, has, first_of, last_of, Linked, Distinct, has-append, last_of-append, Linked-split,
  load-ok, walk-Linked,
}
use node_dlc.Collections.LinkedList.Splice.{cut_of, splice-Linked}
use node_dlc.Collections.LinkedList.Add.{as_list, Represents}

abbrev unset : Cut
unset = record { removed = none; before = none; after = none }

module _ {T : Type 0} where
  -- The object after the ends were moved: its list is one longer than what the ends say.
  abbrev moved : Heap T → ℕ → Cells T → ℕ → T → Cells T → LinkedList T
  moved h f xs a v ys = record {
    nodes = h;
    fresh = f;
    length = length (xs ++ ((a, v) ∷ ys));
    head = first_of (xs ++ ys) none;
    tail = last_of none (xs ++ ys);
  }

  abbrev first_cut : Cells T → ℕ → Cells T → Cut
  first_cut [] a ys = record { removed = some a; before = none; after = first_of ys none }
  first_cut (x ∷ xs) a ys = unset

  abbrev last_cut : Cells T → ℕ → Cells T → Cut → Cut
  last_cut xs a [] c = record c { removed = some a; before = last_of none xs }
  last_cut xs a (y ∷ ys) c = c

  abbrev half_moved : Heap T → ℕ → Cells T → ℕ → T → Cells T → LinkedList T
  half_moved h f xs a v ys = record (moved h f xs a v ys) {
    tail = last_of none (xs ++ ((a, v) ∷ ys));
  }

  cut_first-lem :
      (h : Heap T) (f : ℕ) (xs ys : Cells T) (a : ℕ) (v : T)
      → Linked h none (xs ++ ((a, v) ∷ ys)) none
      → cut_first (length xs == 0) unset (as_list h f (xs ++ ((a, v) ∷ ys)))
        ≡ ok (first_cut xs a ys) (half_moved h f xs a v ys)
  unfolding cut_first
  cut_first-lem h f [] ys a v (e, l) =
      >>=-ok (load (some a)) _ (load-ok (as_list h f ((a, v) ∷ ys)) a _ e)
  cut_first-lem h f ((b, w) ∷ xs) ys a v l =
      let later : (suc (length xs) == 0) ≡ false = ground arith in rw later refl

  cut_last-node :
      (s : LinkedList T) (c : Cut) (a : ℕ) (n : Node T)
      → s.tail ≡ some a
      → s.nodes a ≡ some n
      → cut_last true c s
        ≡ ok (record c { removed = some a; before = n.prev }) (record s { tail = n.prev })
  unfolding cut_last
  cut_last-node s c a n t e =
      >>=-ok (load s.tail) _ (ap (λ p. load p s) t ∙ load-ok s a n e)
      ∙ ap (λ p. ok (record c { removed = p; before = n.prev }) (record s { tail = n.prev })) t

  cut_last-lem :
      (h : Heap T) (f : ℕ) (xs ys : Cells T) (a : ℕ) (v : T) (c : Cut)
      → Linked h none (xs ++ ((a, v) ∷ ys)) none
      → cut_last (length xs + 1 == length (xs ++ ((a, v) ∷ ys))) c (half_moved h f xs a v ys)
        ≡ ok (last_cut xs a ys c) (moved h f xs a v ys)
  unfolding cut_last
  cut_last-lem h f xs [] a v c l =
      let (lx, (e, ly)) = Linked-split h none none xs ((a, v) ∷ []) l in
      let last : (length xs + 1 == length (xs ++ ((a, v) ∷ []))) ≡ true =
        rw (length-append xs ((a, v) ∷ [])) (ground arith) in
      rw last (
        cut_last-node (half_moved h f xs a v []) c a _ (last_of-append none xs ((a, v) ∷ [])) e
        ∙ rw (append-nil xs) refl)
  cut_last-lem h f xs ((b, w) ∷ ys) a v c l =
      let rest : Cells T = (a, v) ∷ (b, w) ∷ ys in
      let inner : (length xs + 1 == length (xs ++ rest)) ≡ false =
        rw (length-append xs rest) (ground arith) in
      rw (inner, last_of-append none xs rest, last_of-append none xs ((b, w) ∷ ys)) refl

  cut_middle-lem :
      (h : Heap T) (f : ℕ) (xs ys : Cells T) (a : ℕ) (v : T)
      → Linked h none (xs ++ ((a, v) ∷ ys)) none
      → (let c = last_cut xs a ys (first_cut xs a ys) in
          cut_middle (length xs) c.removed c (moved h f xs a v ys))
        ≡ ok (cut_of xs a ys) (moved h f xs a v ys)
  unfolding cut_middle node_at
  cut_middle-lem h f [] [] a v l = refl
  cut_middle-lem h f [] (y ∷ ys) a v l = refl
  cut_middle-lem h f (x ∷ xs) [] a v l = refl
  cut_middle-lem h f ((b, w) ∷ xs) ((d, z) ∷ ys) a v l =
      let cells : Cells T = ((b, w) ∷ xs) ++ ((a, v) ∷ (d, z) ∷ ys) in
      let s = moved h f ((b, w) ∷ xs) a v ((d, z) ∷ ys) in
      let inside : ltb (length cells) (suc (length xs)) ≡ false =
        rw (length-append xs ((a, v) ∷ (d, z) ∷ ys)) (ground arith) in
      let (lx, (e, ly)) = Linked-split h none none ((b, w) ∷ xs) ((a, v) ∷ (d, z) ∷ ys) l in
      >>=-ok (node_at (suc (length xs))) _
        (rw inside (walk-Linked s none none ((b, w) ∷ xs) ((d, z) ∷ ys) a v l))
      ∙ >>=-ok (load (some a)) _ (load-ok s a _ e)

  remove-cells :
      (h : Heap T) (f : ℕ) (xs ys : Cells T) (a : ℕ) (v : T)
      → Linked h none (xs ++ ((a, v) ∷ ys)) none
      → Distinct (xs ++ ((a, v) ∷ ys))
      → (g : Heap T) × (remove (length xs) (as_list h f (xs ++ ((a, v) ∷ ys)))
          ≡ ok v (as_list g f (xs ++ ys)))
        × Linked g none (xs ++ ys) none
  unfolding remove
  remove-cells h f xs ys a v l d =
      let cells : Cells T = xs ++ ((a, v) ∷ ys) in
      let inside : ltb (length cells) (length xs) ≡ false =
        rw (length-append xs ((a, v) ∷ ys)) (ground arith) in
      let s = moved h f xs a v ys in
      let (g, r, m) = splice-Linked s xs ys a v l d in
      let left : length cells - 1 ≡ length (xs ++ ys) =
        rw (length-append xs ((a, v) ∷ ys), length-append xs ys) (omega arith) in
      (
        g,
        rw inside (
            >>=-ok (cut_first (length xs == 0) unset) _ (cut_first-lem h f xs ys a v l)
            ∙ >>=-ok (cut_last (length xs + 1 == length cells) (first_cut xs a ys)) _
                (cut_last-lem h f xs ys a v (first_cut xs a ys) l)
            ∙ >>=-ok
                (let c = last_cut xs a ys (first_cut xs a ys) in cut_middle (length xs) c.removed c)
                _ (cut_middle-lem h f xs ys a v l)
            ∙ r
            ∙ rw left refl),
        m,
      )

  Distinct-join :
      (xs ys : Cells T) (a : ℕ) (v : T) → Distinct (xs ++ ((a, v) ∷ ys)) → Distinct (xs ++ ys)
  Distinct-join [] ys a v (o, d) = d
  Distinct-join ((b, w) ∷ xs) ys a v (o, d) =
      let p = rw (has-append b xs ((a, v) ∷ ys)) at o in
      (rw (has-append b xs ys) (ground arith), Distinct-join xs ys a v d)

  has-join :
      (xs ys : Cells T) (a c : ℕ) (v : T)
      → has c (xs ++ ((a, v) ∷ ys)) ≡ false
      → has c (xs ++ ys) ≡ false
  has-join xs ys a c v o =
      let p = rw (has-append c xs ((a, v) ∷ ys)) at o in rw (has-append c xs ys) (ground arith)

  -- From an object that is a well-formed doubly linked list, remove at the index of a node
  -- returns the value of that node and leaves a well-formed list of the other nodes in their
  -- order, whether the node is the first, the last, both or neither.
  pub remove-Represents :
      (s : LinkedList T) (xs ys : Cells T) (a : ℕ) (v : T)
      → Represents s (xs ++ ((a, v) ∷ ys))
      → (t : LinkedList T) × (remove (length xs) s ≡ ok v t) × Represents t (xs ++ ys)
  remove-Represents s xs ys a v (e, l, d, out) =
      let (g, r, m) = remove-cells s.nodes s.fresh xs ys a v l d in
      (
        as_list g s.fresh (xs ++ ys),
        ap (remove (length xs)) e ∙ r,
        (refl, m, Distinct-join xs ys a v d, λ c b. has-join xs ys a c v (out c b)),
      )
