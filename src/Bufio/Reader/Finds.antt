-- ===== src/Bufio/Reader/Finds.antt =====
-- What the reader's methods return on a stream that begins with known bytes, where the method may
-- read past them: a value is found, and nothing is said of where the reader stands afterwards.
use node_dlc.Prelude.{
  ℕ, ◌≤◌, ◌≡◌, refl, ◌∙◌, arith, Option, none, some, List, ◌++◌, length, append_assoc, ok, ◌>>=◌,
  ◌>>◌, >>=-ok, >>-ok, pure, value, result,
}
use node_dlc.Bufio.Reader.{Reader, Read, reader, read_u8, read_optional, optional_rest}
use node_dlc.Bufio.Reader.Reads.{Reads, ahead, ahead_after}
use node_dlc.Bufio.Reader.Numbers.{Reads-u8, ReadsEnd-optional}
use node_dlc.Bufio.Bytes.{be_bytes}
use node_dlc.Bufio.Writer.Numbers.{optional}

pub record Finds {A : Type 0} (m : Read A) (bs : List ℕ) (a : A) : Type 0 where
  pub run :
      (r : Reader) (rest : List ℕ)
      → r.position ≤ length r.buffer
      → ahead r ≡ bs ++ rest
      → (r' : Reader) × (m r ≡ ok a r')

pub Reads-Finds : {A : Type 0} {m : Read A} {bs : List ℕ} {a : A} → Reads m bs a → Finds m bs a
Reads-Finds p = record { run = λ r rest h e. let (r', e', x) = p.run r rest h e in (r', e') }

module _ {A B : Type 0} {m : Read A} {xs ys : List ℕ} {a : A} {b : B} where
  pub Finds-bind : (f : A → Read B) → Reads m xs a → Finds (f a) ys b → Finds (m >>= f) (xs ++ ys) b
  Finds-bind f p q = record {
    run = λ r rest h e.
        let e' = e ∙ append_assoc xs ys rest in
        let (r₁, e₁, x) = p.run r (ys ++ rest) h e' in
        let (r₂, e₂) = q.run r₁ rest x.inside (ahead_after r r₁ xs (ys ++ rest) e' x) in
        (r₂, >>=-ok m f e₁ ∙ e₂);
  }

  pub Finds-seq : {k : Read B} → Reads m xs a → Finds k ys b → Finds (m >> k) (xs ++ ys) b
  Finds-seq {k} p q = record {
    run = λ r rest h e.
        let e' = e ∙ append_assoc xs ys rest in
        let (r₁, e₁, x) = p.run r (ys ++ rest) h e' in
        let (r₂, e₂) = q.run r₁ rest x.inside (ahead_after r r₁ xs (ys ++ rest) e' x) in
        (r₂, >>-ok m k e₁ ∙ e₂);
  }

-- A value that is only rearranged.
pub Finds-map :
    {A B : Type 0} {m : Read A} (g : A → B) {bs : List ℕ} {a : A}
    → Finds m bs a
    → Finds (m >>= λ x. pure (g x)) bs (g a)
Finds-map {m} g p = record {
  run = λ r rest h e. let (r', e') = p.run r rest h e in (r', >>=-ok m (λ x. pure (g x)) e');
}

-- A whole call on the bytes and what follows them.
pub Finds-result :
    {A : Type 0} {m : Read A} {bs : List ℕ} {a : A}
    → Finds m bs a
    → (rest : List ℕ) → result (m (reader (bs ++ rest))) ≡ value a
Finds-result {bs} p rest =
    let (r', e) = p.run (reader (bs ++ rest)) rest (omega arith) refl in rw e refl

-- A field that may be absent is read to the end of the buffer.
pub Finds-optional :
    {B : Type 0} (f : Option (List ℕ) → Read B) (bs : List ℕ) {b : B}
    → ((rest : List ℕ) (r : Reader) → f (some (bs ++ rest)) r ≡ ok b r)
    → Finds (read_optional >>= f) (optional (some bs)) b
Finds-optional f bs q = record {
  run = λ r rest h e.
      let (r', e', x) =
        (ReadsEnd-optional (some (bs ++ rest))).run r h (e ∙ append_assoc (be_bytes 1 1) bs rest) in
      (r', >>=-ok read_optional f e' ∙ q rest r');
}

pub Finds-absent :
    {B : Type 0} (f : Option (List ℕ) → Read B) {b : B}
    → ((r : Reader) → f none r ≡ ok b r)
    → Finds (read_optional >>= f) (optional none) b
unfolding read_optional optional_rest
Finds-absent f q = record {
  run = λ r rest h e.
      let (r', e', x) = (Reads-u8 0 (omega arith)).run r rest h e in
      (r', >>=-ok read_optional f (>>=-ok read_u8 optional_rest e') ∙ q r');
}
