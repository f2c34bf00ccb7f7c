-- ===== src/Bufio/Canonical.antt =====
-- The other direction: bytes that `readBigSize` accepts are the bytes that `writeBigSize` would
-- have written, and a reader never runs past its buffer.
use node_dlc.Prelude.{
  ℕ, zero, suc, ◌+◌, ◌^◌, ◌≤◌, ◌<◌, ◌≡◌, refl, sym, ap, ◌∙◌, arith, true, false, List, [], ◌∷◌,
  ◌++◌, length, take, drop, All, append_assoc, length-append, append-nil, length-take, length-drop,
  take-append-drop, drop-drop, ltb, ◌==◌, ok, ok-injective, err-ne-ok, >>=-eq-ok, ◌>>=◌, ◌>>◌,
  value, subst, Bool-cases, inl, inr,
}
use node_dlc.Bufio.Bytes.{IsByte, be_bytes, be_value, be_value_bound, be_bytes-be_value}
use node_dlc.Bufio.Reader.{
  Reader, Read, read_bytes, read_standard, read_u8, read_u16_be, read_u32_be, read_u64_be, set_last,
  at_least, big_size_rest, read_big_size,
}
use node_dlc.Bufio.Reader.Reads.{ahead}
use node_dlc.Bufio.Writer.{output, write_big_size}
use node_dlc.Bufio.Writer.Numbers.{big_size, Appends-big_size}
use node_dlc.Bufio.RoundTrip.{Appends-output, length-big_size_le}

-- The reader went from `r` to `r'` over exactly the bytes `bs`.
pub record Consumed (r r' : Reader) (bs : List ℕ) : Type 0 where
  pub ate : ahead r ≡ bs ++ ahead r'
  pub same : r'.buffer ≡ r.buffer
  pub moved : r'.position ≡ r.position + length bs
  pub inside : r'.position ≤ length r'.buffer

All-drop : (n : ℕ) (xs : List ℕ) → All IsByte xs → All IsByte (drop n xs)
All-drop zero xs h = h
All-drop (suc n) [] h = tt
All-drop (suc n) (x ∷ xs) (h, hs) = All-drop n xs hs

All-take : (n : ℕ) (xs : List ℕ) → All IsByte xs → All IsByte (take n xs)
All-take zero xs h = tt
All-take (suc n) [] h = tt
All-take (suc n) (x ∷ xs) (h, hs) = (h, All-take n xs hs)

-- A fixed-width read, and the slice that it took.
pub take-Consumed :
    (r r' : Reader) (n : ℕ)
    → r.position + n ≤ length r.buffer
    → r'.buffer ≡ r.buffer
    → r'.position ≡ r.position + n
    → Consumed r r' (take n (ahead r)) × (length (take n (ahead r)) ≡ n)
take-Consumed r r' n h same moved =
    let size : length (take n (ahead r)) ≡ n =
      omega (arith, length-take n (ahead r), length-drop r.position r.buffer) in
    (
      record {
        ate = sym (
            rw (same, moved)
              (rw (← drop-drop r.position n r.buffer) (take-append-drop n (ahead r))));
        same = same;
        moved = moved ∙ ap (λ k. r.position + k) (sym size);
        inside = rw same (omega arith);
      },
      size,
    )

standard_inv :
    (n : ℕ) (r r' : Reader) (v : ℕ)
    → All IsByte r.buffer
    → read_standard be_value n r ≡ ok v r'
    → Consumed r r' (be_bytes n v) × (v < 256 ^ n)
unfolding read_standard
standard_inv n r r' v bytes e = elim (Bool-cases (ltb (length r.buffer) (r.position + n))) [
  | inl short ↦ absurd (err-ne-ok (rw short at e))
  | inr fits ↦
      let (ev, er) = ok-injective (rw fits at e) in
      let bs = take n (ahead r) in
      let (c, size) =
        take-Consumed r r' n (ground arith) (sym (ap (λ q. q.buffer) er))
          (sym (ap (λ q. q.position) er)) in
      let all : All IsByte bs = All-take n (ahead r) (All-drop r.position r.buffer bytes) in
      let back : bs ≡ be_bytes n v = sym (be_bytes-be_value bs all) ∙ rw (size, ev) in
      (
        subst (λ t. Consumed r r' t) back c,
        rw (← ev) (subst (λ k. be_value bs < 256 ^ k) size (be_value_bound bs all)),
      )
]

pub Consumed-trans :
    {r s t : Reader} (xs ys : List ℕ) → Consumed r s xs → Consumed s t ys → Consumed r t (xs ++ ys)
Consumed-trans xs ys x y = record {
  ate = x.ate ∙ ap (λ z. xs ++ z) y.ate ∙ sym (append_assoc xs ys _);
  same = y.same ∙ x.same;
  moved = omega (arith, x.moved, y.moved, length-append xs ys);
  inside = y.inside;
}

-- `m` returns a number only if its `n` big endian bytes lie ahead, and it moves past them.
abbrev Inverts : Read ℕ → ℕ → Type 0
Inverts m n =
    (s t : Reader) (w : ℕ)
    → All IsByte s.buffer
    → m s ≡ ok w t
    → Consumed s t (be_bytes n w) × (w < 256 ^ n)

-- An eight-byte number is read as the fixed-width ones are.
read_u64_be_lem : (r : Reader) → read_u64_be r ≡ read_standard be_value 8 r
unfolding read_u64_be read_bytes read_standard
read_u64_be_lem r = ground arith

u64_inv : Inverts read_u64_be 8
u64_inv s t w h e = standard_inv 8 s t w h (sym (read_u64_be_lem s) ∙ e)

at_least_inv :
    (floor w v : ℕ) (s t : Reader)
    → at_least floor w s ≡ ok v t
    → (ltb v floor ≡ false) × (w ≡ v) × (s ≡ t)
unfolding at_least
at_least_inv floor w v s t e = elim (Bool-cases (ltb w floor)) [
  | inl low ↦ absurd (err-ne-ok (rw low at e))
  | inr high ↦ let (ev, et) = ok-injective (rw high at e) in (rw (← ev) high, ev, et)
]

-- The body of one wide form: mark its width, read, and refuse a value below its floor.
floor_inv :
    (m : Read ℕ) (n last floor v : ℕ) (s t : Reader)
    → Inverts m n
    → All IsByte s.buffer
    → (do set_last last; w ← m; at_least floor w) s ≡ ok v t
    → Consumed s t (be_bytes n v) × (v < 256 ^ n) × (ltb v floor ≡ false)
floor_inv m n last floor v s t inv bytes e =
    let s₁ = record s { last_read_bytes = last } in
    let (w, u, read, rest) = >>=-eq-ok m (at_least floor) {s = s₁} e in
    let (c, bound) = inv s₁ u w bytes read in
    let (high, ew, et) = at_least_inv floor w v u t rest in
    let c' : Consumed s u (be_bytes n w) = record {
      ate = c.ate;
      same = c.same;
      moved = c.moved;
      inside = c.inside;
    } in
    (
      subst (λ x. Consumed s t (be_bytes n x)) ew (subst (λ q. Consumed s q (be_bytes n w)) et c'),
      rw (← ew) bound,
      high,
    )

-- After the first byte `size`: the rest of the form, which completes the BigSize form of `v`.
big_size_rest_inv :
    (size v : ℕ) (u t : Reader)
    → All IsByte u.buffer
    → size < 256
    → u.position ≤ length u.buffer
    → big_size_rest size u ≡ ok v t
    → (bs : List ℕ) × (big_size v ≡ be_bytes 1 size ++ bs) × Consumed u t bs × (v < 2 ^ 64)
unfolding big_size_rest big_size read_u16_be read_u32_be
big_size_rest_inv size v u t bytes byte room e = elim (Bool-cases (ltb size 0xfd)) [
  | inl a ↦
      let (ev, et) = ok-injective (rw a at e) in
      let stay : Consumed u t [] =
        subst (λ q. Consumed u q []) et
          (record { ate = refl; same = refl; moved = omega arith; inside = room }) in
      let small : ltb v 0xfd ≡ true = rw (← ev) a in
      ([], rw small (sym (append-nil (be_bytes 1 size) ∙ ap (be_bytes 1) ev)), stay, ground arith)
  | inr a ↦ elim (Bool-cases (size == 0xfd)) [
    | inl b ↦
        let (d, bound, high) =
          floor_inv read_u16_be 2 3 0xfd v u t (standard_inv 2) bytes (rw (a, b) at e) in
        let low : ltb v 0x1_0000 ≡ true = ground arith in
        let mark : size ≡ 0xfd = ground arith in
        (be_bytes 2 v, rw (high, low, mark) refl, d, omega arith)
    | inr b ↦ elim (Bool-cases (size == 0xfe)) [
      | inl c ↦
          let (d, bound, high) =
            floor_inv read_u32_be 4 5 0x1_0000 v u t (standard_inv 4) bytes (rw (a, b, c) at e) in
          let above : ltb v 0xfd ≡ false = ground arith in
          let low : ltb v 0x1_0000_0000 ≡ true = ground arith in
          let mark : size ≡ 0xfe = ground arith in
          (be_bytes 4 v, rw (above, high, low, mark) refl, d, omega arith)
      | inr c ↦
          let (d, bound, high) =
            floor_inv read_u64_be 8 9 0x1_0000_0000 v u t u64_inv bytes (rw (a, b, c) at e) in
          let above : ltb v 0xfd ≡ false = ground arith in
          let above' : ltb v 0x1_0000 ≡ false = ground arith in
          let mark : size ≡ 0xff = ground arith in
          (be_bytes 8 v, rw (above, above', high, mark) refl, d, omega arith)
    ]
  ]
]

-- On any bytes, when readBigSize returns a number, that number has 64 bits, the bytes that were
-- moved over are its one BigSize form, and these are what writeBigSize writes of it to a new
-- writer.
pub read_big_size_canonical :
    (r r' : Reader) (v : ℕ)
    → All IsByte r.buffer
    → read_big_size r ≡ ok v r'
    → Consumed r r' (big_size v) × (v < 2 ^ 64) × (output (write_big_size v) ≡ value (big_size v))
unfolding read_big_size read_u8
read_big_size_canonical r r' v bytes e =
    let (size, u, first, rest) = >>=-eq-ok read_u8 big_size_rest e in
    let (c, byte) = standard_inv 1 r u size bytes first in
    let (bs, form, d, bound) = big_size_rest_inv size v u r' (rw c.same bytes) byte c.inside rest in
    (
      rw form (Consumed-trans (be_bytes 1 size) bs c d),
      bound,
      Appends-output _ _ (Appends-big_size v bound) (omega (arith, length-big_size_le v)),
    )
