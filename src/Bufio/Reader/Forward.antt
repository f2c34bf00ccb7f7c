-- ===== src/Bufio/Reader/Forward.antt =====
-- How far at least a read that succeeds moves its reader on in the buffer.
use node_dlc.Prelude.{
  ℕ, zero, suc, ◌+◌, ◌≤◌, ◌≡◌, refl, ◌∙◌, subst, arith, Bool, true, false, Bool-cases, inl, inr,
  some, List, length, ltb, ◌==◌, if◌then◌else◌, ok, Error, Result, value, error, ◌>>=◌, ◌>>◌,
  >>=-eq-ok, ok-injective, err-ne-ok, pure, throw, lift,
}
use node_dlc.Bufio.Bytes.{be_value}
use node_dlc.Bufio.Reader.{
  Reader, Read, read_standard, read_u8, read_u16_be, read_u32_be, read_u64_be, read_bytes, at_least,
  big_size_rest, read_big_size, set_last,
}

pub record Goes {A : Type 0} (k : ℕ) (m : Read A) : Type 0 where
  pub goes :
      (r r' : Reader) (a : A)
      → r.position ≤ length r.buffer
      → m r ≡ ok a r'
      → (r'.buffer ≡ r.buffer) × (r.position + k ≤ r'.position) × (r'.position ≤ length r'.buffer)

-- A state that was computed is where the reader went.
arrives :
    (r : Reader) (k : ℕ) {u r' : Reader}
    → u ≡ r'
    → (u.buffer ≡ r.buffer) × (r.position + k ≤ u.position) × (u.position ≤ length u.buffer)
    → (r'.buffer ≡ r.buffer) × (r.position + k ≤ r'.position) × (r'.position ≤ length r'.buffer)
arrives r k e p =
    subst
      (λ w. (w.buffer ≡ r.buffer) × (r.position + k ≤ w.position) × (w.position ≤ length w.buffer))
      e p

pub Goes-pure : {A : Type 0} (a : A) → Goes 0 (pure a)
Goes-pure a = record {
  goes = λ r r' b h e. arrives r 0 ((ok-injective e).1) (refl, omega arith, h);
}

pub Goes-throw : {A : Type 0} (k : ℕ) (x : Error) → Goes {A = A} k (throw x)
Goes-throw k x = record { goes = λ r r' b h e. absurd (err-ne-ok e) }

pub Goes-lift : {A : Type 0} (o : Result A) → Goes 0 (lift o)
Goes-lift (value a) = Goes-pure a
Goes-lift (error x) = Goes-throw 0 x

pub Goes-bind :
    {A B : Type 0} {k : ℕ} {m : Read A} {f : A → Read B}
    → Goes k m
    → ((a : A) → Goes 0 (f a))
    → Goes k (m >>= f)
Goes-bind {m} {f} p q = record {
  goes = λ r r' b h e.
      let (a, u, e₁, e₂) = >>=-eq-ok m f e in
      let (same, on, inside) = p.goes r u a h e₁ in
      let (same', on', inside') = (q a).goes u r' b inside e₂ in
      (same' ∙ same, omega arith, inside');
}

pub Goes-if :
    {A : Type 0} {k : ℕ} (c : Bool) {m n : Read A}
    → Goes k m
    → Goes k n
    → Goes k (if c then m else n)
Goes-if true p q = p
Goes-if false p q = q

pub Goes-standard : (get : List ℕ → ℕ) (len : ℕ) → Goes len (read_standard get len)
unfolding read_standard
Goes-standard get len = record {
  goes = λ r r' b h e. elim (Bool-cases (ltb (length r.buffer) (r.position + len))) [
    | inl past ↦ absurd (err-ne-ok (rw past at e))
    | inr room ↦ arrives r len ((ok-injective (rw room at e)).1) (refl, omega arith, ground arith)
  ];
}

pub Goes-bytes : (n : ℕ) → Goes 0 (read_bytes (some n))
unfolding read_bytes
Goes-bytes zero = record {
  goes = λ r r' b h e. arrives r 0 ((ok-injective e).1) (refl, omega arith, h);
}
Goes-bytes (suc n) = record {
  goes = λ r r' b h e. elim (Bool-cases (ltb (length r.buffer) (r.position + suc n))) [
    | inl past ↦ absurd (err-ne-ok (rw past at e))
    | inr room ↦ arrives r 0 ((ok-injective (rw room at e)).1) (refl, omega arith, ground arith)
  ];
}

pub Goes-weaker : {A : Type 0} (k : ℕ) {m : Read A} → Goes k m → Goes 0 m
Goes-weaker k p = record {
  goes = λ r r' a h e. let (same, on, inside) = p.goes r r' a h e in (same, omega arith, inside);
}

Goes-set_last : {A : Type 0} (n : ℕ) {m : Read A} → Goes 0 m → Goes 0 (set_last n >> m)
Goes-set_last n {m} p = record {
  goes = λ r r' a h e. p.goes (record r { last_read_bytes = n }) r' a h e;
}

Goes-at_least : (floor val : ℕ) → Goes 0 (at_least floor val)
unfolding at_least
Goes-at_least floor val = Goes-if (ltb val floor) (Goes-throw 0 _) (Goes-pure val)

Goes-big_size_rest : (size : ℕ) → Goes 0 (big_size_rest size)
unfolding big_size_rest read_u16_be read_u32_be read_u64_be
Goes-big_size_rest size = Goes-if (ltb size 0xfd) (Goes-set_last 1 (Goes-pure size)) (
    Goes-if (size == 0xfd)
      (Goes-set_last 3
        (Goes-bind (Goes-weaker 2 (Goes-standard be_value 2)) (λ v. Goes-at_least _ v)))
      (Goes-if (size == 0xfe)
        (Goes-set_last 5
          (Goes-bind (Goes-weaker 4 (Goes-standard be_value 4)) (λ v. Goes-at_least _ v)))
        (Goes-set_last 9 (
          Goes-bind (Goes-bind (Goes-bytes 8) (λ bs. Goes-pure (be_value bs)))
            (λ v. Goes-at_least _ v)))))

pub Goes-big_size : Goes 1 read_big_size
unfolding read_big_size read_u8
Goes-big_size = Goes-bind (Goes-standard be_value 1) Goes-big_size_rest
