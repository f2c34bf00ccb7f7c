-- ===== src/Messages/Rounds.antt =====
-- The loop `while (!reader.eof)` of packages/messaging/lib, whose body changes a state. Each round
-- moves the reader on, so more rounds than there are bytes are never used.
use node_dlc.Prelude.{
  ℕ, zero, suc, ◌+◌, ◌≤◌, ◌<◌, ◌≡◌, refl, sym, ap, arith, true, false, List, [], ◌∷◌, ◌++◌, length,
  length-append, ◌==◌, if◌then◌else◌, ok, err, no_rounds, Error, ◌>>=◌, >>=-ok, >>=-err, Outcome,
  Bool-cases, inl, inr, subst,
}
use node_dlc.Bufio.Reader.{Reader, Read, eof}
use node_dlc.Bufio.Reader.Reads.{Reads, ReadsEnd, Reads-bind_end, ahead_fits}
use node_dlc.Bufio.Reader.Forward.{Goes}
use node_dlc.Bufio.Writer.Appends.{each_bytes}

unfoldable pub until_eof : {S : Type 0} → ℕ → (S → Read S) → S → Read S
until_eof zero body s r = err no_rounds r
until_eof (suc n) body s r =
    let more = (body s >>= until_eof n body) r in if eof r then ok s r else more

module _ {S X : Type 0} (body : S → Read S) (g : X → List ℕ) where
  -- The rounds take one piece after the other and go from one state to the other.
  abbrev pub Folds : S → List X → S → Type 0
  Folds s [] t = s ≡ t
  Folds s (x ∷ xs) t = (u : S) × (0 < length (g x)) × Reads (body s) (g x) u × Folds u xs t

  pub Folds-append :
      (s t u : S) (xs ys : List X) → Folds s xs t → Folds t ys u → Folds s (xs ++ ys) u
  Folds-append s t u [] ys p q = subst (λ v. Folds v ys u) (sym p) q
  Folds-append s t u (x ∷ xs) ys (v, n, p, ps) q = (v, n, p, Folds-append v t u xs ys ps q)

  pub Folds-length : (s t : S) (xs : List X) → Folds s xs t → length xs ≤ length (each_bytes g xs)
  Folds-length s t [] p = omega arith
  Folds-length s t (x ∷ xs) (u, n, p, ps) =
      omega (arith, Folds-length u t xs ps, length-append (g x) (each_bytes g xs))

  pub ReadsEnd-until :
      (n : ℕ) (s t : S) (xs : List X)
      → length xs < n
      → Folds s xs t
      → ReadsEnd (until_eof n body s) (each_bytes g xs) t
  unfolding until_eof eof
  ReadsEnd-until zero s t xs h p = elim h [ ]
  ReadsEnd-until (suc n) s t [] h p = record {
    run = λ r inside e.
        let size = ahead_fits r [] [] inside e in
        let done : (r.position == length r.buffer) ≡ true = ground arith in
        (
          r,
          rw done (ap (λ v. ok v r) p),
          record { same = refl; moved = omega arith; inside = inside },
        );
  }
  ReadsEnd-until (suc n) s t (x ∷ xs) h (u, some_byte, p, ps) = record {
    run = λ r inside e.
        let size = ahead_fits r (g x) (each_bytes g xs) inside e in
        let more : (r.position == length r.buffer) ≡ false = ground arith in
        let (r', e', moves) =
          (Reads-bind_end (until_eof n body) p (ReadsEnd-until n u t xs (omega arith) ps)).run r
            inside e in
        (r', rw more e', moves);
  }

-- The loop as the source has it, with no count of its rounds: it leaves at the end of the buffer or
-- with the error of a round, and goes on after any other.
pub data Loops {S : Type 0} (body : S → Read S) : S → Reader → Outcome Reader S → Type 0 where
  at_end : {s : S} {r : Reader} → eof r ≡ true → Loops body s r (ok s r)
  stopped :
      {s : S} {r u : Reader} {e : Error}
      → eof r ≡ false
      → body s r ≡ err e u
      → Loops body s r (err e u)
  one_round :
      {s t : S} {r u : Reader} {o : Outcome Reader S}
      → eof r ≡ false
      → body s r ≡ ok t u
      → Loops body t u o
      → Loops body s r o

module _ {S : Type 0} (body : S → Read S) (moving : (s : S) → Goes 1 (body s)) where
  -- With more rounds than bytes left, the loop ends as the source's does.
  pub until_eof-Loops :
      (n : ℕ) (s : S) (r : Reader)
      → r.position ≤ length r.buffer
      → length r.buffer < r.position + n
      → Loops body s r (until_eof n body s r)
  unfolding until_eof eof
  until_eof-Loops zero s r h p = absurd (omega arith)
  until_eof-Loops (suc n) s r h p = elim (Bool-cases (r.position == length r.buffer)) [
    | inl done ↦ rw done (at_end done)
    | inr more ↦ rw more (from more (λ u r' a b. until_eof-Loops n u r' a b) (body s r) refl)
  ]
    where
      from :
          (r.position == length r.buffer) ≡ false
          → ((u : S) (r' : Reader)
              → r'.position ≤ length r'.buffer
              → length r'.buffer < r'.position + n
              → Loops body u r' (until_eof n body u r'))
          → (o : Outcome Reader S) → body s r ≡ o
          → Loops body s r ((body s >>= until_eof n body) r)
      from more ih (ok u r') e =
          let (same, on, inside) = (moving s).goes r r' u h e in
          let size = ap length same in
          subst (Loops body s r) (sym (>>=-ok (body s) (until_eof n body) e))
            (one_round more e (ih u r' inside (omega arith)))
      from more ih (err x r') e =
          subst (Loops body s r) (sym (>>=-err (body s) (until_eof n body) e)) (stopped more e)
