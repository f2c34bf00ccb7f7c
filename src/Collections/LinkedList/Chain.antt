-- ===== src/Collections/LinkedList/Chain.antt =====
-- Doubly linked chains of nodes on the heap, and what relinking an end does to them.
use node_dlc.Prelude.{
  ℕ, ◌≡◌, refl, sym, ap, ◌∙◌, arith, Bool, true, false, Bool-cases, inl, inr, subst, ◌||◌, some,
  List, [], ◌∷◌, ◌++◌, length, ◌==◌, ok, >>=-ok,
}
use mathlib.Core.Bool.{or_assoc}
use node_dlc.Collections.Nodes.{Ptr, Node, Heap, write, LinkedList, load, store, set_next, set_prev}
use node_dlc.Collections.LinkedList.{walk}

-- What a list stands for: the address and the value of each node, in order.
abbrev pub Cells : Type 0 → Type 0
Cells T = List (ℕ × T)

module _ {T : Type 0} where
  abbrev pub has : ℕ → Cells T → Bool
  has c [] = false
  has c ((a, v) ∷ xs) = (c == a) || has c xs

  abbrev pub first_of : Cells T → Ptr → Ptr
  first_of [] end = end
  first_of ((a, v) ∷ xs) end = some a

  abbrev pub last_of : Ptr → Cells T → Ptr
  last_of start [] = start
  last_of start ((a, v) ∷ xs) = last_of (some a) xs

  -- Each node points back to the one before, the first to `start`, and on to the next one, the
  -- last to `end`.
  abbrev pub Linked : Heap T → Ptr → Cells T → Ptr → Type 0
  Linked h start [] end = Unit {0}
  Linked h start ((a, v) ∷ xs) end =
      (h a ≡ some (record { value = v; prev = start; next = first_of xs end }))
      × Linked h (some a) xs end

  abbrev pub Distinct : Cells T → Type 0
  Distinct [] = Unit {0}
  Distinct ((a, v) ∷ xs) = (has a xs ≡ false) × Distinct xs

  abbrev pub Outside : Cells T → Heap T → Heap T → Type 0
  Outside xs h g = (c : ℕ) → has c xs ≡ false → g c ≡ h c

  pub has-append : (c : ℕ) (xs ys : Cells T) → has c (xs ++ ys) ≡ (has c xs || has c ys)
  has-append c [] ys = refl
  has-append c ((a, v) ∷ xs) ys = rw (has-append c xs ys, or_assoc) refl

  pub first_of-append :
      (xs ys : Cells T) (end : Ptr) → first_of (xs ++ ys) end ≡ first_of xs (first_of ys end)
  first_of-append [] ys end = refl
  first_of-append ((a, v) ∷ xs) ys end = refl

  pub last_of-append :
      (start : Ptr) (xs ys : Cells T) → last_of start (xs ++ ys) ≡ last_of (last_of start xs) ys
  last_of-append start [] ys = refl
  last_of-append start ((a, v) ∷ xs) ys = last_of-append (some a) xs ys

  -- A chain is two chains that meet.
  pub Linked-split :
      (h : Heap T) (start end : Ptr) (xs ys : Cells T)
      → Linked h start (xs ++ ys) end
      → Linked h start xs (first_of ys end) × Linked h (last_of start xs) ys end
  Linked-split h start end [] ys l = (tt, l)
  Linked-split h start end ((a, v) ∷ xs) ys (e, l) =
      let (l₁, l₂) = Linked-split h (some a) end xs ys l in
      ((rw (first_of-append xs ys end) at e, l₁), l₂)

  pub Linked-join :
      (h : Heap T) (start end : Ptr) (xs ys : Cells T)
      → Linked h start xs (first_of ys end)
      → Linked h (last_of start xs) ys end
      → Linked h start (xs ++ ys) end
  Linked-join h start end [] ys l m = m
  Linked-join h start end ((a, v) ∷ xs) ys (e, l) m =
      (rw (first_of-append xs ys end) e, Linked-join h (some a) end xs ys l m)

  -- A chain survives a change that spares its addresses.
  pub Linked-frame :
      (h g : Heap T) (start end : Ptr) (xs : Cells T)
      → ((c : ℕ) → has c xs ≡ true → g c ≡ h c)
      → Linked h start xs end
      → Linked g start xs end
  Linked-frame h g start end [] same l = tt
  Linked-frame h g start end ((a, v) ∷ xs) same (e, l) =
      (same a (ground arith) ∙ e, Linked-frame h g (some a) end xs (λ c i. same c (ground arith)) l)

  pub Distinct-left : (xs ys : Cells T) → Distinct (xs ++ ys) → Distinct xs
  Distinct-left [] ys d = tt
  Distinct-left ((a, v) ∷ xs) ys (o, d) =
      let both = rw (has-append a xs ys) at o in (ground arith, Distinct-left xs ys d)

  pub Distinct-right : (xs ys : Cells T) → Distinct (xs ++ ys) → Distinct ys
  Distinct-right [] ys d = d
  Distinct-right ((a, v) ∷ xs) ys (o, d) = Distinct-right xs ys d

  pub Distinct-apart :
      (xs ys : Cells T) (c : ℕ) → Distinct (xs ++ ys) → has c xs ≡ true → has c ys ≡ false
  Distinct-apart [] ys c d i = absurd (let e : false ≡ true = i in cc)
  Distinct-apart ((a, v) ∷ xs) ys c (o, d) i =
      let both = rw (has-append a xs ys) at o in
      elim (Bool-cases (c == a)) [
        | inl h ↦
            let same : c ≡ a = ground arith in
            subst (λ k. has k ys ≡ false) (sym same) (ground arith)
        | inr h ↦ Distinct-apart xs ys c d (ground arith)
      ]

  pub Distinct-apart_left :
      (xs ys : Cells T) (c : ℕ) → Distinct (xs ++ ys) → has c ys ≡ true → has c xs ≡ false
  Distinct-apart_left xs ys c d i = elim (Bool-cases (has c xs)) [
    | inl h ↦ let e : true ≡ false = sym i ∙ Distinct-apart xs ys c d h in absurd cc
    | inr h ↦ h
  ]

  pub load-ok :
      (s : LinkedList T) (a : ℕ) (n : Node T) → s.nodes a ≡ some n → load (some a) s ≡ ok n s
  unfolding load
  load-ok s a n e = rw (load, e) refl

  pub set_next-ok :
      (s : LinkedList T) (a : ℕ) (q : Ptr) (n : Node T)
      → s.nodes a ≡ some n
      → set_next (some a) q s ≡ ok tt (record s { nodes = write s.nodes a (record n { next = q }) })
  unfolding set_next store
  set_next-ok s a q n e = >>=-ok (load (some a)) _ (load-ok s a n e)

  pub set_prev-ok :
      (s : LinkedList T) (a : ℕ) (q : Ptr) (n : Node T)
      → s.nodes a ≡ some n
      → set_prev (some a) q s ≡ ok tt (record s { nodes = write s.nodes a (record n { prev = q }) })
  unfolding set_prev store
  set_prev-ok s a q n e = >>=-ok (load (some a)) _ (load-ok s a n e)

  -- A write spares the other addresses.
  pub write-other :
      (h : Heap T) (a c : ℕ) (n : Node T) (xs : Cells T)
      → has a xs ≡ false
      → has c xs ≡ true
      → write h a n c ≡ h c
  write-other h a c n xs o i = elim (Bool-cases (c == a)) [
    | inl h ↦
        let same : c ≡ a = ground arith in
        let e : true ≡ false = sym i ∙ ap (λ k. has k xs) same ∙ o in absurd cc
    | inr h ↦ rw h refl
  ]

  -- The last node of a chain is made to point to `q`.
  pub set_next-last :
      (s : LinkedList T) (start end q : Ptr) (a : ℕ) (v : T) (xs : Cells T)
      → Linked s.nodes start ((a, v) ∷ xs) end
      → Distinct ((a, v) ∷ xs)
      → (g : Heap T) × (set_next (last_of (some a) xs) q s ≡ ok tt (record s { nodes = g }))
        × Linked g start ((a, v) ∷ xs) q
        × Outside ((a, v) ∷ xs) s.nodes g
  set_next-last s start end q a v [] (e, l) d =
      let n : Node T = record { value = v; prev = start; next = q } in
      (write s.nodes a n, set_next-ok s a q _ e, (ground arith, tt), (λ c o. ground arith))
  set_next-last s start end q a v ((b, w) ∷ xs) (e, l) (o, d) =
      let (g, r, m, out) = set_next-last s (some a) end q b w xs l d in
      (g, r, (out a o ∙ e, m), (λ c i. out c (ground arith)))

  -- The first node of a chain is made to point back to `q`.
  pub set_prev-first :
      (s : LinkedList T) (start end q : Ptr) (a : ℕ) (v : T) (xs : Cells T)
      → Linked s.nodes start ((a, v) ∷ xs) end
      → Distinct ((a, v) ∷ xs)
      → (g : Heap T) × (set_prev (some a) q s ≡ ok tt (record s { nodes = g }))
        × Linked g q ((a, v) ∷ xs) end
        × Outside ((a, v) ∷ xs) s.nodes g
  set_prev-first s start end q a v xs (e, l) (o, d) =
      let n : Node T = record { value = v; prev = q; next = first_of xs end } in
      let g = write s.nodes a n in
      (
        g,
        set_prev-ok s a q _ e,
        (
          ground arith,
          Linked-frame s.nodes g (some a) end xs (λ c i. write-other s.nodes a c n xs o i) l,
        ),
        (λ c i. ground arith),
      )

  pub walk-Linked :
      (s : LinkedList T) (start end : Ptr) (xs ys : Cells T) (a : ℕ) (v : T)
      → Linked s.nodes start (xs ++ ((a, v) ∷ ys)) end
      → walk (length xs) (first_of (xs ++ ((a, v) ∷ ys)) end) s ≡ ok (some a) s
  unfolding walk load
  walk-Linked s start end [] ys a v l = refl
  walk-Linked s start end ((b, w) ∷ xs) ys a v (e, l) =
      rw e (walk-Linked s (some b) end xs ys a v l)
