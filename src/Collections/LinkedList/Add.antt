-- ===== src/Collections/LinkedList/Add.antt =====
-- packages/core/lib/LinkedList.ts: what a list object stands for, and `add`.
use node_dlc.Prelude.{
  ℕ, suc, ◌+◌, ◌≤◌, ◌≡◌, refl, ap, ◌∙◌, arith, false, none, some, [], ◌∷◌, ◌++◌, length,
  length-append, ok, >>-ok,
}
use node_dlc.Collections.Nodes.{Node, Heap, write, LinkedList, create, set_next, set_prev}
use node_dlc.Collections.LinkedList.{add, append_node, set_ends}
use node_dlc.Collections.LinkedList.Chain.{
  Cells, has, first_of, last_of, Linked, Distinct, has-append, last_of-append, Linked-join,
  Linked-frame, write-other, set_prev-ok, set_next-last,
}

module _ {T : Type 0} where
  -- The object over a heap, as `cells` says it looks.
  abbrev pub as_list : Heap T → ℕ → Cells T → LinkedList T
  as_list h f cells = record {
    nodes = h;
    fresh = f;
    length = length cells;
    head = first_of cells none;
    tail = last_of none cells;
  }

  -- The object is a well-formed list of `cells`.
  abbrev pub Represents : LinkedList T → Cells T → Type 0
  Represents s cells =
      (s ≡ as_list s.nodes s.fresh cells)
      × Linked s.nodes none cells none
      × Distinct cells
      × ((c : ℕ) → s.fresh ≤ c → has c cells ≡ false)

  Distinct-append :
      (xs : Cells T) (a : ℕ) (v : T)
      → Distinct xs
      → has a xs ≡ false
      → Distinct (xs ++ ((a, v) ∷ []))
  Distinct-append [] a v d o = (refl, tt)
  Distinct-append ((b, w) ∷ xs) a v (p, d) o =
      (rw (has-append b xs ((a, v) ∷ [])) (ground arith), Distinct-append xs a v d (ground arith))

  has-append-fresh :
      (f : ℕ) (v : T) (xs : Cells T)
      → ((c : ℕ) → f ≤ c → has c xs ≡ false)
      → (c : ℕ) → f + 1 ≤ c
      → has c (xs ++ ((f, v) ∷ [])) ≡ false
  has-append-fresh f v xs out c b =
      let o = out c (omega arith) in rw (has-append c xs ((f, v) ∷ []), o) (ground arith)

  as_list-append :
      (h : Heap T) (f : ℕ) (a : ℕ) (v : T) (x : ℕ × T) (xs : Cells T)
      → record {
        nodes = h;
        fresh = f;
        length = length (x ∷ xs) + 1;
        head = first_of (x ∷ xs) none;
        tail = some a;
      }
        ≡ as_list h f ((x ∷ xs) ++ ((a, v) ∷ []))
  as_list-append h f a v (b, w) xs =
      rw (length-append xs ((a, v) ∷ []), last_of-append (some b) xs ((a, v) ∷ []))
        (let e : suc (length xs) + 1 ≡ suc (length xs + 1) = omega arith in rw e refl)

  add-cells :
      (h : Heap T) (f : ℕ) (xs : Cells T) (v : T)
      → Linked h none xs none
      → Distinct xs
      → ((c : ℕ) → f ≤ c → has c xs ≡ false)
      → (t : LinkedList T) × (add v (as_list h f xs) ≡ ok f t) × Represents t (xs ++ ((f, v) ∷ []))
  unfolding add append_node create set_ends
  add-cells h f [] v l d out =
      let t =
        as_list (write h f (record { value = v; prev = none; next = none })) (f + 1)
          ((f, v) ∷ []) in
      (t, refl, (refl, (ground arith, tt), (refl, tt), has-append-fresh f v [] out))
  add-cells h f ((a, w) ∷ xs) v l d out =
      let cells : Cells T = (a, w) ∷ xs in
      let o = out f (omega arith) in
      let n : Node T = record { value = v; prev = none; next = none } in
      let m : Node T = record { value = v; prev = last_of (some a) xs; next = none } in
      let s₁ = record (as_list h f cells) { nodes = write h f n; fresh = f + 1 } in
      let s₂ = record s₁ { nodes = write (write h f n) f m } in
      let l₁ =
        Linked-frame h (write h f n) none none cells (λ c i. write-other h f c n cells o i) l in
      let l₂ =
        Linked-frame (write h f n) s₂.nodes none none cells
          (λ c i. write-other (write h f n) f c m cells o i) l₁ in
      let (g, r, l₃, same) = set_next-last s₂ none none (some f) a w xs l₂ d in
      let t = record s₂ { nodes = g; length = length cells + 1; tail = some f } in
      (
        t,
        >>-ok (set_prev (some f) (last_of (some a) xs)) _
              (set_prev-ok s₁ f (last_of (some a) xs) n (ground arith))
            ∙ >>-ok (set_next (last_of (some a) xs) (some f)) _ r,
        (
          as_list-append g (f + 1) f v (a, w) xs,
          Linked-join g none none cells ((f, v) ∷ []) l₃ (same f o ∙ ground arith, tt),
          Distinct-append cells f v d o,
          has-append-fresh f v cells out,
        ),
      )

  -- From an object that is a well-formed doubly linked list, add returns the fresh address and
  -- leaves a well-formed list with a node of the value at its end.
  pub add-Represents :
      (s : LinkedList T) (xs : Cells T) (v : T)
      → Represents s xs
      → (t : LinkedList T) × (add v s ≡ ok s.fresh t) × Represents t (xs ++ ((s.fresh, v) ∷ []))
  add-Represents s xs v (e, l, d, out) =
      let (t, r, p) = add-cells s.nodes s.fresh xs v l d out in (t, ap (add v) e ∙ r, p)
