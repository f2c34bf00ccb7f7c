-- ===== src/Collections/LinkedList/Splice.antt =====
-- packages/core/lib/LinkedList.ts: what the splice at the end of `remove` does to the chain.
use node_dlc.Prelude.{
  ℕ, ◌-◌, ◌≡◌, refl, ◌∙◌, arith, true, false, none, some, [], ◌∷◌, ◌++◌, ok, >>=-ok, >>-ok,
}
use node_dlc.Collections.Nodes.{Ptr, Heap, LinkedList, load, set_next}
use node_dlc.Collections.LinkedList.{Cut, splice, link_before, link_after, shorten}
use node_dlc.Collections.LinkedList.Chain.{
  Cells, has, first_of, last_of, Linked, Distinct, Outside, Linked-split, Linked-join, Linked-frame,
  Distinct-left, Distinct-right, Distinct-apart, Distinct-apart_left, load-ok, set_next-last,
  set_prev-first,
}

module _ {T : Type 0} where
  link_before-some :
      (a : ℕ) (xs : Cells T) (q : Ptr) (s : LinkedList T)
      → link_before (last_of (some a) xs) q s ≡ set_next (last_of (some a) xs) q s
  unfolding link_before
  link_before-some a [] q s = refl
  link_before-some a ((b, w) ∷ xs) q s = link_before-some b xs q s

  link_before-Linked :
      (s : LinkedList T) (end q : Ptr) (xs : Cells T)
      → Linked s.nodes none xs end
      → Distinct xs
      → (g : Heap T) × (link_before (last_of none xs) q s ≡ ok tt (record s { nodes = g }))
        × Linked g none xs q
        × Outside xs s.nodes g
  unfolding link_before
  link_before-Linked s end q [] l d = (s.nodes, refl, tt, λ c o. refl)
  link_before-Linked s end q ((a, v) ∷ xs) l d =
      let (g, r, m, same) = set_next-last s none end q a v xs l d in
      (g, link_before-some a xs q s ∙ r, m, same)

  link_after-Linked :
      (s : LinkedList T) (start q : Ptr) (ys : Cells T)
      → Linked s.nodes start ys none
      → Distinct ys
      → (g : Heap T) × (link_after (first_of ys none) q s ≡ ok tt (record s { nodes = g }))
        × Linked g q ys none
        × Outside ys s.nodes g
  unfolding link_after
  link_after-Linked s start q [] l d = (s.nodes, refl, tt, λ c o. refl)
  link_after-Linked s start q ((a, v) ∷ ys) l d = set_prev-first s start none q a v ys l d

  -- The node between `xs` and `ys`, with its neighbours.
  abbrev pub cut_of : Cells T → ℕ → Cells T → Cut
  cut_of xs a ys = record { removed = some a; before = last_of none xs; after = first_of ys none }

  -- The splice leaves one chain and returns the value of the node it took out.
  pub splice-Linked :
      (s : LinkedList T) (xs ys : Cells T) (a : ℕ) (v : T)
      → Linked s.nodes none (xs ++ ((a, v) ∷ ys)) none
      → Distinct (xs ++ ((a, v) ∷ ys))
      → (g : Heap T) × (splice (cut_of xs a ys) s
          ≡ ok v (record s { nodes = g; length = s.length - 1 }))
        × Linked g none (xs ++ ys) none
  unfolding splice shorten
  splice-Linked s xs ys a v l d =
      let (lx, (e, ly)) = Linked-split s.nodes none none xs ((a, v) ∷ ys) l in
      let (o, dy) = Distinct-right xs ((a, v) ∷ ys) d in
      let before = last_of none xs in
      let after = first_of ys none in
      let apart : (c : ℕ) → has c xs ≡ true → has c ((a, v) ∷ ys) ≡ false =
        λ c. Distinct-apart xs ((a, v) ∷ ys) c d in
      let out : has a xs ≡ false = Distinct-apart_left xs ((a, v) ∷ ys) a d (ground arith) in
      let (h, r, m, same) =
        link_before-Linked s (some a) after xs lx (Distinct-left xs ((a, v) ∷ ys) d) in
      let t = record s { nodes = h } in
      let ly₂ =
        Linked-frame s.nodes h (some a) none ys
          (λ c i. same c (Distinct-apart_left xs ((a, v) ∷ ys) c d (ground arith))) ly in
      let (g, r₂, m₂, same₂) = link_after-Linked t (some a) before ys ly₂ dy in
      let u = record s { nodes = g; length = s.length - 1 } in
      (
        g,
        >>-ok (link_before before after) _ r
            ∙ >>-ok (link_after after before) _ r₂
            ∙ >>=-ok (load (some a)) _ (load-ok u a _ (same₂ a o ∙ same a out ∙ e)),
        Linked-join g none none xs ys
            (Linked-frame h g none after xs (λ c i. let p = apart c i in same₂ c (ground arith)) m)
            m₂,
      )
