-- ===== src/Bufio/Reader/Reads.antt =====
-- What the reader's methods return on a stream that begins with known bytes. `Reads m bs a`: where
-- `bs` lies ahead, `m` returns `a` and moves past it, whatever follows. `ReadsEnd` is the same for
-- a method that reads to the end of the buffer.
use node_dlc.Prelude.{
  ℕ, suc, ◌+◌, ◌≤◌, ◌≡◌, refl, sym, ap, ◌∙◌, arith, Bool, true, false, none, some, List, [], ◌∷◌,
  ◌++◌, length, take, drop, length-append, length-drop, append-nil, append_assoc, drop-drop,
  drop-append_eq, take-append_eq, drop_past, ltb, ◌==◌, if◌then◌else◌, ok, ◌>>=◌, ◌>>◌, >>=-ok,
  >>-ok, pure, value, result, Bool-cases, inl, inr,
}
use node_dlc.Bufio.Reader.{Reader, Read, reader, read_standard, read_bytes}

-- A reader at `r'` has gone `k` bytes on from `r`, and is not past the end.
pub record Advances (r r' : Reader) (k : ℕ) : Type 0 where
  pub same : r'.buffer ≡ r.buffer
  pub moved : r'.position ≡ r.position + k
  pub inside : r'.position ≤ length r'.buffer

abbrev pub ahead : Reader → List ℕ
ahead r = drop r.position r.buffer

pub record Reads {A : Type 0} (m : Read A) (bs : List ℕ) (a : A) : Type 0 where
  pub run :
      (r : Reader) (rest : List ℕ)
      → r.position ≤ length r.buffer
      → ahead r ≡ bs ++ rest
      → (r' : Reader) × (m r ≡ ok a r') × Advances r r' (length bs)

pub record ReadsEnd {A : Type 0} (m : Read A) (bs : List ℕ) (a : A) : Type 0 where
  pub run :
      (r : Reader)
      → r.position ≤ length r.buffer
      → ahead r ≡ bs
      → (r' : Reader) × (m r ≡ ok a r') × Advances r r' (length bs)

-- What follows the bytes that were read.
pub ahead_after :
    (r r' : Reader) (bs rest : List ℕ)
    → ahead r ≡ bs ++ rest
    → Advances r r' (length bs)
    → ahead r' ≡ rest
ahead_after r r' bs rest e x =
    rw (x.same, x.moved)
      (sym (drop-drop r.position (length bs) r.buffer)
        ∙ rw e (drop-append_eq (length bs) bs rest refl))

-- Room is left for what lies ahead.
pub ahead_fits :
    (r : Reader) (bs rest : List ℕ)
    → r.position ≤ length r.buffer
    → ahead r ≡ bs ++ rest
    → r.position + length bs + length rest ≡ length r.buffer
ahead_fits r bs rest h e =
    omega (arith, ap length e, length-append bs rest, length-drop r.position r.buffer)

pub Reads-end : {A : Type 0} {m : Read A} {bs : List ℕ} {a : A} → Reads m bs a → ReadsEnd m bs a
Reads-end {bs} p = record { run = λ r h e. p.run r [] h (e ∙ sym (append-nil bs)) }

pub Reads-pure : {A : Type 0} (a : A) → Reads (pure a) [] a
Reads-pure a = record {
  run = λ r rest h e. (r, refl, record { same = refl; moved = omega arith; inside = h });
}

Advances-trans :
    {r r₁ r₂ : Reader} (xs ys : List ℕ)
    → Advances r r₁ (length xs)
    → Advances r₁ r₂ (length ys)
    → Advances r r₂ (length (xs ++ ys))
Advances-trans xs ys x y = record {
  same = y.same ∙ x.same;
  moved = omega (arith, x.moved, y.moved, length-append xs ys);
  inside = y.inside;
}

module _ {A B : Type 0} {m : Read A} (f : A → Read B) {xs ys : List ℕ} {a : A} {b : B} where
  pub Reads-bind : Reads m xs a → Reads (f a) ys b → Reads (m >>= f) (xs ++ ys) b
  Reads-bind p q = record {
    run = λ r rest h e.
        let e' = e ∙ append_assoc xs ys rest in
        let (r₁, e₁, x) = p.run r (ys ++ rest) h e' in
        let (r₂, e₂, y) = q.run r₁ rest x.inside (ahead_after r r₁ xs (ys ++ rest) e' x) in
        (r₂, >>=-ok m f e₁ ∙ e₂, Advances-trans xs ys x y);
  }

  pub Reads-bind_end : Reads m xs a → ReadsEnd (f a) ys b → ReadsEnd (m >>= f) (xs ++ ys) b
  Reads-bind_end p q = record {
    run = λ r h e.
        let (r₁, e₁, x) = p.run r ys h e in
        let (r₂, e₂, y) = q.run r₁ x.inside (ahead_after r r₁ xs ys e x) in
        (r₂, >>=-ok m f e₁ ∙ e₂, Advances-trans xs ys x y);
  }

pub ReadsEnd-map :
    {A B : Type 0} {m : Read A} (g : A → B) {bs : List ℕ} {a : A}
    → ReadsEnd m bs a
    → ReadsEnd (m >>= λ x. pure (g x)) bs (g a)
ReadsEnd-map {m} g p = record {
  run = λ r h e. let (r', e', x) = p.run r h e in (r', >>=-ok m (λ v. pure (g v)) e', x);
}

module _ {A B : Type 0} {m : Read A} {k : Read B} {xs ys : List ℕ} {a : A} {b : B} where
  pub Reads-seq : Reads m xs a → Reads k ys b → Reads (m >> k) (xs ++ ys) b
  Reads-seq p q = record {
    run = λ r rest h e.
        let e' = e ∙ append_assoc xs ys rest in
        let (r₁, e₁, x) = p.run r (ys ++ rest) h e' in
        let (r₂, e₂, y) = q.run r₁ rest x.inside (ahead_after r r₁ xs (ys ++ rest) e' x) in
        (r₂, >>-ok m k e₁ ∙ e₂, Advances-trans xs ys x y);
  }

  pub Reads-seq_end : Reads m xs a → ReadsEnd k ys b → ReadsEnd (m >> k) (xs ++ ys) b
  Reads-seq_end p q = record {
    run = λ r h e.
        let (r₁, e₁, x) = p.run r ys h e in
        let (r₂, e₂, y) = q.run r₁ x.inside (ahead_after r r₁ xs ys e x) in
        (r₂, >>-ok m k e₁ ∙ e₂, Advances-trans xs ys x y);
  }

pub Reads-if :
    {A : Type 0} (c : Bool) {m k : Read A} {xs ys : List ℕ} {a b : A}
    → (c ≡ true → Reads m xs a)
    → (c ≡ false → Reads k ys b)
    → Reads (if c then m else k) (if c then xs else ys) (if c then a else b)
Reads-if true p q = p refl
Reads-if false p q = q refl

-- A whole call: a reader is made over the bytes, and the method run.
pub Reads-result :
    {A : Type 0} {m : Read A} {bs : List ℕ} {a : A}
    → ReadsEnd m bs a
    → result (m (reader bs)) ≡ value a
Reads-result {bs} p = let (r', e, x) = p.run (reader bs) (omega arith) refl in rw e

pub Reads-standard :
    (get : List ℕ → ℕ) (len : ℕ) (bs : List ℕ)
    → length bs ≡ len
    → Reads (read_standard get len) bs (get bs)
unfolding read_standard
Reads-standard get len bs n = record {
  run = λ r rest h e.
      let fits = ahead_fits r bs rest h e in
      let room : ltb (length r.buffer) (r.position + len) ≡ false = ground arith in
      let got : take len (ahead r) ≡ bs = rw e (take-append_eq len bs rest (sym n)) in
      (
        record r { position = r.position + len; last_read_bytes = len },
        simp (room, got),
        record { same = refl; moved = ap (λ k. r.position + k) (sym n); inside = omega arith },
      );
}

pub Reads-bytes : (bs : List ℕ) → Reads (read_bytes (some (length bs))) bs bs
unfolding read_bytes
Reads-bytes [] = record {
  run = λ r rest h e. (
    record r { last_read_bytes = 0 },
    refl,
    record { same = refl; moved = omega arith; inside = h },
  );
}
Reads-bytes (b ∷ bs) = record {
  run = λ r rest h e.
      let fits = ahead_fits r (b ∷ bs) rest h e in
      let n = suc (length bs) in
      let room : ltb (length r.buffer) (r.position + n) ≡ false = ground arith in
      let got : take n (ahead r) ≡ b ∷ bs = rw e (take-append_eq n (b ∷ bs) rest refl) in
      (
        record r { position = r.position + n; last_read_bytes = n },
        simp (room, got),
        record { same = refl; moved = refl; inside = omega arith },
      );
}

-- With no length, all that remains.
pub ReadsEnd-bytes : (bs : List ℕ) → ReadsEnd (read_bytes none) bs bs
unfolding read_bytes
ReadsEnd-bytes bs = record {
  run = λ r h e.
      let size : r.position + length bs ≡ length r.buffer =
        omega (arith, ap length e, length-drop r.position r.buffer) in
      elim (Bool-cases (r.position == length r.buffer)) [
        | inl done ↦
            let nothing : [] ≡ bs = sym (drop_past r.position r.buffer (ground arith)) ∙ e in
            (
              record r { last_read_bytes = 0 },
              simp done (ap (λ t. ok t (record r { last_read_bytes = 0 })) nothing),
              record { same = refl; moved = ground arith; inside = h },
            )
        | inr more ↦ (
          record r { position = length r.buffer; last_read_bytes = length (ahead r) },
          simp more (
              ap
                (λ t.
                  ok t
                    (record r { position = length r.buffer; last_read_bytes = length (ahead r) }))
                e),
          record { same = refl; moved = sym size; inside = omega arith },
        )
      ];
}
