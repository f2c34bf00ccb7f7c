-- ===== src/Bufio/Reader/Ends.antt =====
-- What the reader's methods return where the known bytes are all that is left, and nothing is said
-- of where the reader stands afterwards: a method that ends a message, and may give up early.
use node_dlc.Prelude.{
  ℕ, ◌≤◌, ◌≡◌, refl, ◌∙◌, arith, List, ◌++◌, length, ok, ◌>>=◌, ◌>>◌, >>=-ok, >>-ok, pure, value,
  result,
}
use node_dlc.Bufio.Reader.{Reader, Read, reader}
use node_dlc.Bufio.Reader.Reads.{Reads, ahead, ahead_after}

pub record Ends {A : Type 0} (m : Read A) (bs : List ℕ) (a : A) : Type 0 where
  pub run :
      (r : Reader) → r.position ≤ length r.buffer → ahead r ≡ bs → (r' : Reader) × (m r ≡ ok a r')

module _ {A B : Type 0} {m : Read A} {xs ys : List ℕ} {a : A} {b : B} where
  pub Ends-bind : (f : A → Read B) → Reads m xs a → Ends (f a) ys b → Ends (m >>= f) (xs ++ ys) b
  Ends-bind f p q = record {
    run = λ r h e.
        let (r₁, e₁, x) = p.run r ys h e in
        let (r₂, e₂) = q.run r₁ x.inside (ahead_after r r₁ xs ys e x) in (r₂, >>=-ok m f e₁ ∙ e₂);
  }

  pub Ends-seq : {k : Read B} → Reads m xs a → Ends k ys b → Ends (m >> k) (xs ++ ys) b
  Ends-seq {k} p q = record {
    run = λ r h e.
        let (r₁, e₁, x) = p.run r ys h e in
        let (r₂, e₂) = q.run r₁ x.inside (ahead_after r r₁ xs ys e x) in (r₂, >>-ok m k e₁ ∙ e₂);
  }

pub Ends-map :
    {A B : Type 0} {m : Read A} (g : A → B) {bs : List ℕ} {a : A}
    → Ends m bs a
    → Ends (m >>= λ x. pure (g x)) bs (g a)
Ends-map {m} g p = record {
  run = λ r h e. let (r', e') = p.run r h e in (r', >>=-ok m (λ x. pure (g x)) e');
}

pub Ends-result :
    {A : Type 0} {m : Read A} {bs : List ℕ} {a : A} → Ends m bs a → result (m (reader bs)) ≡ value a
Ends-result {bs} p = let (r', e) = p.run (reader bs) (omega arith) refl in rw e refl
