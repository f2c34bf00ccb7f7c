-- ===== src/Collections/Queue.antt =====
-- packages/core/lib/Queue.ts: a run of calls against a first-in first-out list.
use node_dlc.Prelude.{
  ℕ, ◌≡◌, refl, ap, ◌∙◌, List, [], ◌∷◌, ◌++◌, Outcome, ok, err, null_pointer, ◌>>=◌, ◌>>◌, >>=-ok,
  >>-ok, pure, Result, value, error, and_then, result,
}
use node_dlc.Collections.Nodes.{LinkedList, Method, load}
use node_dlc.Collections.LinkedList.{enqueue, dequeue, remove, cut_first, add}
use node_dlc.Collections.LinkedList.Chain.{Cells}
use node_dlc.Collections.LinkedList.Add.{Represents, add-Represents}
use node_dlc.Collections.LinkedList.Remove.{remove-Represents}

pub data Call (T : Type 0) : Type 0 where
  push : T → Call T
  pop : Call T

module _ {T : Type 0} where
  -- The calls on the queue object, with the values that come out.
  abbrev pub run : List (Call T) → Method T (List T)
  run [] = pure []
  run (push v ∷ calls) = do enqueue v; run calls
  run (pop ∷ calls) = do v ← dequeue; vs ← run calls; pure (v ∷ vs)

  -- The same calls on a list; a pop on the empty list fails as `null.next` does.
  abbrev pub fifo : List (Call T) → List T → Result (List T)
  fifo [] q = value []
  fifo (push v ∷ calls) q = fifo calls (q ++ (v ∷ []))
  fifo (pop ∷ calls) [] = error null_pointer
  fifo (pop ∷ calls) (v ∷ q) = and_then (fifo calls q) (λ vs. value (v ∷ vs))

  abbrev pub values : Cells T → List T
  values [] = []
  values ((a, v) ∷ xs) = v ∷ values xs

  values-append :
      (xs : Cells T) (a : ℕ) (v : T) → values (xs ++ ((a, v) ∷ [])) ≡ values xs ++ (v ∷ [])
  values-append [] a v = refl
  values-append ((b, w) ∷ xs) a v = ap (λ q. w ∷ q) (values-append xs a v)

  result-then :
      (m : Outcome (LinkedList T) (List T)) (v : T)
      → result (elim m [ ok vs s ↦ ok (v ∷ vs) s | err e s ↦ err e s ])
        ≡ and_then (result m) (λ vs. value (v ∷ vs))
  result-then (ok vs s) v = refl
  result-then (err e s) v = refl

  -- From an object that is a well-formed list, whatever calls of enqueue and dequeue give the
  -- values that a first-in first-out list gives, and throw where it is empty.
  pub run-fifo :
      (calls : List (Call T)) (s : LinkedList T) (cells : Cells T)
      → Represents s cells
      → result (run calls s) ≡ fifo calls (values cells)
  unfolding enqueue dequeue remove cut_first load
  run-fifo [] s cells r = refl
  run-fifo (push v ∷ calls) s cells r =
      let (t, e, i) = add-Represents s cells v r in
      ap result (>>-ok (enqueue v) (run calls) (>>=-ok (add v) _ e))
      ∙ run-fifo calls t _ i
      ∙ rw (values-append cells s.fresh v) refl
  run-fifo (pop ∷ calls) s [] (e, l, d, out) = ap (λ s. result (run (pop ∷ calls) s)) e
  run-fifo (pop ∷ calls) s ((a, v) ∷ cells) r =
      let (t, e, i) = remove-Represents s [] cells a v r in
      ap result (>>=-ok dequeue (λ x. run calls >>= (λ vs. pure (x ∷ vs))) {s = s} e)
      ∙ result-then (run calls t) v
      ∙ ap (λ m. and_then m (λ vs. value (v ∷ vs))) (run-fifo calls t cells i)
