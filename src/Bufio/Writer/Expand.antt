-- ===== src/Bufio/Writer/Expand.antt =====
-- `_expand` and the copies into the buffer: what they keep, while no more than 2 ^ 30 bytes are
-- asked for.
use node_dlc.Prelude.{
  ℕ, zero, suc, ◌+◌, ◌-◌, ◌%◌, ◌^◌, ◌≤◌, ◌<◌, ◌≡◌, refl, sym, ap, ◌∙◌, arith, false, some, List,
  ◌++◌, length, take, drop, replicate, length-append, length-take, length-drop, length-replicate,
  take_all, take-append_le, take-append_eq, append_assoc, ltb, ltb→lt, ◌==◌, ok, Bool-cases, inl,
  inr,
}
use node_dlc.Bufio.Writer.{
  Writer, ceil_log2_from, ceil_log2, shift_one, resized, grown, expand, overwrite,
}
use native.Mathlib.Nat.{pow-suc}
use native.Mathlib.Decide.{ℕ_discrete}

abbrev pub max_size : ℕ
max_size = 2 ^ 30

-- A writer that grows, with its position inside the buffer.
pub record IsGrowing (w : Writer) : Type 0 where
  pub grows : w.fixed ≡ false
  pub within : w.position ≤ length w.buffer

lt_pow : (n : ℕ) → n < 2 ^ n
lt_pow zero = omega arith
lt_pow (suc n) = omega (arith, lt_pow n, pow-suc 2 n)

ceil_log2_from_reaches : (fuel k n : ℕ) → n ≤ 2 ^ (k + fuel) → n ≤ 2 ^ ceil_log2_from fuel k n
unfolding ceil_log2_from
ceil_log2_from_reaches zero k n h = let e : k + 0 ≡ k = omega arith in rw e at h
ceil_log2_from_reaches (suc fuel) k n h =
    let e : k + suc fuel ≡ k + 1 + fuel = omega arith in
    ground (arith, ceil_log2_from_reaches fuel (k + 1) n (rw e at h))

below_thirty : (k n : ℕ) → k ≤ 30 → n ≤ max_size → 2 ^ k < n → k + 1 ≤ 30
below_thirty k n hk hn lt = elim (ℕ_discrete k 30) [
  | yes e ↦ absurd (let big : 2 ^ 30 < n = rw e at lt in omega arith)
  | no ne ↦ omega arith
]

ceil_log2_from_small : (fuel k n : ℕ) → k ≤ 30 → n ≤ max_size → ceil_log2_from fuel k n ≤ 30
unfolding ceil_log2_from
ceil_log2_from_small zero k n hk hn = hk
ceil_log2_from_small (suc fuel) k n hk hn = elim (Bool-cases (ltb (2 ^ k) n)) [
  | inl e ↦
      let lt = ltb→lt (2 ^ k) n e in
      rw e (ceil_log2_from_small fuel (k + 1) n (below_thirty k n hk hn lt) hn)
  | inr e ↦ rw e hk
]

pub resized_lem :
    (n : ℕ) (b : List ℕ) → length b ≤ n → resized n b ≡ b ++ replicate (n - length b) 0
unfolding resized
resized_lem n b h = rw (take_all n b h)

shift_one_lem : (k : ℕ) → k ≤ 30 → shift_one k ≡ some (2 ^ k)
unfolding shift_one
shift_one_lem k h =
    let same : k % 32 ≡ k = omega arith in
    let low : ((k % 32) == 31) ≡ false = ground arith in rw low (rw same)

-- The new buffer holds the old one at its front, and what is asked for fits.
grown_lem :
    (required : ℕ) (b : List ℕ)
    → required ≤ max_size
    → length b < required
    → (k : ℕ) × (required ≤ 2 ^ k) × (grown required b ≡ some (b ++ replicate (2 ^ k - length b) 0))
unfolding grown ceil_log2
grown_lem required b h short =
    let k = ceil_log2_from required 0 required in
    let reaches : required ≤ 2 ^ k =
      ceil_log2_from_reaches required 0 required
        (let e : 0 + required ≡ required = omega arith in rw e (omega (arith, lt_pow required))) in
    let small : k ≤ 30 = ceil_log2_from_small required 0 required (omega arith) h in
    (k, reaches, rw (shift_one_lem k small, grown) (ap some (resized_lem (2 ^ k) b (omega arith))))

-- Room for `needed` bytes is made, and what was written stays.
pub expand_lem :
    (needed : ℕ) (w : Writer)
    → IsGrowing w
    → w.position + needed ≤ max_size
    → (w' : Writer) × (expand needed w ≡ ok tt w')
      × IsGrowing w'
      × (take w'.position w'.buffer ≡ take w.position w.buffer)
      × (w'.position ≡ w.position)
      × (w.position + needed ≤ length w'.buffer)
unfolding expand
expand_lem needed w g h = elim (Bool-cases (ltb (length w.buffer) (w.position + needed))) [
  | inl short ↦
      let (k, fits, e) = grown_lem (w.position + needed) w.buffer h (ltb→lt _ _ short) in
      let b = w.buffer ++ replicate (2 ^ k - length w.buffer) 0 in
      let size : length b ≡ length w.buffer + (2 ^ k - length w.buffer) =
        length-append w.buffer (replicate (2 ^ k - length w.buffer) 0)
        ∙ ap (λ n. length w.buffer + n) (length-replicate (2 ^ k - length w.buffer) 0) in
      (
        record w { buffer = b },
        simp (g.grows, short, e),
        record { grows = g.grows; within = omega (arith, g.within) },
        take-append_le w.position w.buffer _ g.within,
        refl,
        omega (arith, g.within),
      )
  | inr fits ↦ (w, simp (g.grows, fits), g, refl, refl, ground arith)
]

-- What stands before the written bytes stays, and they follow.
pub overwrite_lem :
    (b : List ℕ) (at : ℕ) (bs : List ℕ)
    → at + length bs ≤ length b
    → (take (at + length bs) (overwrite b at bs) ≡ take at b ++ bs)
      × (length (overwrite b at bs) ≡ length b)
unfolding overwrite
overwrite_lem b at bs h =
    let front : length (take at b ++ bs) ≡ at + length bs =
      length-append (take at b) bs ∙ omega (arith, length-take at b) in
    let whole : length (take at b ++ (bs ++ drop (at + length bs) b)) ≡ length b =
      length-append (take at b) _
      ∙ omega (
        arith,
        length-take at b,
        length-append bs (drop (at + length bs) b),
        length-drop (at + length bs) b,
      ) in
    let whole_take =
      take_all (length b) (take at b ++ (bs ++ drop (at + length bs) b)) (omega (arith, whole)) in
    (
      rw whole_take
          (rw (← append_assoc) (take-append_eq (at + length bs) (take at b ++ bs) _ (sym front))),
      rw whole_take whole,
    )
