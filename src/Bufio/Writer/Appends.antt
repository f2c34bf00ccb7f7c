-- ===== src/Bufio/Writer/Appends.antt =====
-- What the writer's methods append. `Appends m bs`: on a growing writer with room, `m` succeeds
-- and adds exactly the bytes `bs`. The rules follow the methods, so that a message's writer is
-- done by `search`-like composition.
use node_dlc.Prelude.{
  ℕ, ◌+◌, ◌^◌, ◌≤◌, ◌<◌, ◌≡◌, refl, sym, ap, ◌∙◌, arith, Bool, true, false, List, [], ◌∷◌, ◌++◌,
  length, take, All, length-append, append-nil, append_assoc, lt→ltb, if◌then◌else◌, ok, ◌>>◌,
  >>-ok, pure,
}
use node_dlc.Bufio.Writer.{Writer, Write, expand, overwrite, write_standard, copy_in, write_bytes}
use node_dlc.Bufio.Writer.Expand.{IsGrowing, max_size, expand_lem, overwrite_lem}

-- What was written so far.
abbrev pub written : Writer → List ℕ
written w = take w.position w.buffer

-- The writer `w'` has `bs` more than `w`.
pub record Extends (w w' : Writer) (bs : List ℕ) : Type 0 where
  pub still : IsGrowing w'
  pub holds : written w' ≡ written w ++ bs
  pub moved : w'.position ≡ w.position + length bs

pub record Appends (m : Write) (bs : List ℕ) : Type 0 where
  pub run :
      (w : Writer)
      → IsGrowing w
      → w.position + length bs ≤ max_size
      → (w' : Writer) × (m w ≡ ok tt w') × Extends w w' bs

pub Appends-pure : Appends (pure tt) []
Appends-pure = record {
  run = λ w g h.
      (w, refl, record { still = g; holds = sym (append-nil (written w)); moved = omega arith });
}

pub Appends-seq :
    {m k : Write} {xs bs : List ℕ} → Appends m xs → Appends k bs → Appends (m >> k) (xs ++ bs)
Appends-seq {m} {k} {xs} {bs} p q = record {
  run = λ w g h.
      let n = length-append xs bs in
      let (w₁, e₁, x₁) = p.run w g (omega (arith, n)) in
      let (w₂, e₂, x₂) = q.run w₁ x₁.still (omega (arith, n, x₁.moved)) in
      (
        w₂,
        >>-ok m k e₁ ∙ e₂,
        record {
          still = x₂.still;
          holds = x₂.holds ∙ rw x₁.holds (append_assoc (written w) xs bs);
          moved = omega (arith, n, x₁.moved, x₂.moved);
        },
      );
}

-- A branch on a test that the format makes too.
pub Appends-if :
    (b : Bool) {m k : Write} {xs ys : List ℕ}
    → (b ≡ true → Appends m xs)
    → (b ≡ false → Appends k ys)
    → Appends (if b then m else k) (if b then xs else ys)
Appends-if true p q = p refl
Appends-if false p q = q refl

-- The bytes go in at the position of a writer that has room for them.
overwrite-Extends :
    (w : Writer) (bs : List ℕ)
    → IsGrowing w
    → w.position + length bs ≤ length w.buffer
    → Extends w
        (record w { buffer = overwrite w.buffer w.position bs; position = w.position + length bs })
        bs
overwrite-Extends w bs g h =
    let (front, size) = overwrite_lem w.buffer w.position bs h in
    record {
      still = record { grows = g.grows; within = omega (arith, size) };
      holds = front;
      moved = refl;
    }

Extends-after :
    {w w₁ w₂ : Writer} {bs : List ℕ}
    → written w₁ ≡ written w
    → w₁.position ≡ w.position
    → Extends w₁ w₂ bs
    → Extends w w₂ bs
Extends-after {w} {w₁} {w₂} {bs} e p x = record {
  still = x.still;
  holds = x.holds ∙ ap (λ t. t ++ bs) e;
  moved = omega (arith, x.moved, p);
}

pub Appends-copy_in : (bs : List ℕ) → Appends (copy_in bs) bs
unfolding copy_in
Appends-copy_in bs = record {
  run = λ w g h.
      let (w₁, e, g₁, same, pos, room) = expand_lem (length bs) w g h in
      (
        record w₁ {
          buffer = overwrite w₁.buffer w₁.position bs;
          position = w₁.position + length bs;
        },
        >>-ok (expand (length bs)) _ e,
        Extends-after same pos (overwrite-Extends w₁ bs g₁ (omega (arith, pos))),
      );
}

pub Appends-write_bytes : (bs : List ℕ) → Appends (write_bytes bs) bs
unfolding write_bytes
Appends-write_bytes [] = Appends-pure
Appends-write_bytes (b ∷ bs) = Appends-copy_in (b ∷ bs)

-- A loop that writes each item of a list, and its bytes.
abbrev pub each_bytes {ℓ} : {A : Type ℓ} → (A → List ℕ) → List A → List ℕ
each_bytes f [] = []
each_bytes f (x ∷ xs) = f x ++ each_bytes f xs

unfoldable pub write_each {ℓ} : {A : Type ℓ} → (A → Write) → List A → Write
write_each f [] = pure tt
write_each f (x ∷ xs) = do f x; write_each f xs

pub Appends-each {ℓ κ} :
    {A : Type ℓ} {P : A → Type κ} (f : A → Write) (g : A → List ℕ) (xs : List A)
    → ((x : A) → P x → Appends (f x) (g x))
    → All P xs
    → Appends (write_each f xs) (each_bytes g xs)
unfolding write_each
Appends-each f g [] rule h = Appends-pure
Appends-each f g (x ∷ xs) rule (p, ps) = Appends-seq (rule x p) (Appends-each f g xs rule ps)

pub Appends-standard :
    (bytes : ℕ → List ℕ) (val len : ℕ)
    → length (bytes val) ≡ len
    → val < 256 ^ len
    → Appends (write_standard bytes val len) (bytes val)
unfolding write_standard
Appends-standard bytes val len n h = record {
  run = λ w g fits.
      let (w₁, e, g₁, same, pos, room) = expand_lem len w g (omega (arith, n)) in
      let free : w₁.position + length (bytes val) ≤ length w₁.buffer = omega (arith, n, pos) in
      let done =
        ap
          (λ k. record w₁ {
            buffer = overwrite w₁.buffer w₁.position (bytes val);
            position = w₁.position + k;
          })
          n in
      let ends : w₁.position + len < length w₁.buffer + 1 = omega (arith, n) in
      (
        record w₁ {
          buffer = overwrite w₁.buffer w₁.position (bytes val);
          position = w₁.position + length (bytes val);
        },
        >>-ok (expand len) _ e ∙ rw (lt→ltb _ _ h, lt→ltb _ _ ends) (ap (ok tt) (sym done)),
        Extends-after same pos (overwrite-Extends w₁ (bytes val) g₁ free),
      );
}
