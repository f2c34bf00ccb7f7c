-- ===== src/Bufio/Truncated.antt =====
-- The truncated integers `tu16`, `tu32` and `tu64`: what the writer puts out the reader returns,
-- and what it returns has no second form.
use node_dlc.Prelude.{
  ℕ, zero, suc, ◌+◌, ◌-◌, ◌^◌, ◌≤◌, ◌<◌, ◌≡◌, refl, sym, ap, ◌∙◌, arith, true, false, List, [],
  length, take, min, length-drop, take_all, ltb, ◌==◌, if◌then◌else◌, ok, Error, Bool-cases, inl,
  inr, value, and_then, result, ltb→lt, subst,
}
use node_dlc.Bufio.Bytes.{
  be_bytes, be_value, le_value, le_short, be_short, be_value-be_short, length-be_short_le,
  lt-length-be_short, length-be_bytes, be_value-be_bytes,
}
use node_dlc.Bufio.Reader.{
  reader, minimal_from, is_minimal_tuint, read_tuint, read_tuint16, read_tuint32, read_tuint64,
}
use node_dlc.Bufio.Reader.Reads.{ahead, ReadsEnd}
use node_dlc.Bufio.Writer.{
  output, write_tuint16, write_tuint32, write_tuint64, tuint16_size, tuint32_size,
}
use node_dlc.Bufio.Writer.Numbers.{tuint, Appends-tuint16, Appends-tuint32, Appends-tuint64}
use node_dlc.Bufio.RoundTrip.{round_trip}
use native.Mathlib.Nat.{pow-suc}
use native.Mathlib.Decide.{dec_lt}

pow_mono : (j d : ℕ) → 256 ^ j ≤ 256 ^ (j + d)
pow_mono j zero = let e : j + 0 ≡ j = omega arith in rw e (omega arith)
pow_mono j (suc d) =
    let e : j + suc d ≡ suc (j + d) = omega arith in
    rw e (omega (arith, pow_mono j d, pow-suc 256 (j + d)))

-- Powers of 256 grow with the exponent.
pow_lt : (j k : ℕ) → 256 ^ j < 256 ^ k → j < k
pow_lt j k h = elim (dec_lt j k) [
  | yes lt ↦ lt
  | no ge ↦
      let e : k + (j - k) ≡ j = omega arith in
      absurd (let m = rw e at (pow_mono k (j - k)) in omega arith)
]

-- `k` is the least number of bytes that hold `v`.
pub record IsWidth (k v : ℕ) : Type 0 where
  pub holds : (j : ℕ) → v < 256 ^ j → k ≤ j
  pub needs : (j : ℕ) → 256 ^ j ≤ v → j < k

-- `k` bytes hold `v`, since fewer than `k + 1` are needed.
width_holds : (k v : ℕ) → IsWidth k v → v < 256 ^ k
width_holds k v w = elim (dec_lt v (256 ^ k)) [
  | yes lt ↦ lt
  | no ge ↦ absurd (let lt = w.needs k (omega arith) in omega arith)
]

minimal_from_lem : (rounds i num k : ℕ) → IsWidth k num → i ≤ k → minimal_from rounds i num k ≡ true
unfolding minimal_from
minimal_from_lem zero i num k w h = refl
minimal_from_lem (suc rounds) i num k w h = elim (Bool-cases (ltb num (256 ^ i))) [
  | inl a ↦ rw a (let le = w.holds i (ltb→lt _ _ a) in ground arith)
  | inr a ↦
      rw a
        (minimal_from_lem rounds (i + 1) num k w (let lt = w.needs i (ground arith) in omega arith))
]

is_minimal_lem : (k num : ℕ) → IsWidth k num → is_minimal_tuint num k ≡ true
unfolding is_minimal_tuint
is_minimal_lem k num w = minimal_from_lem 9 0 num k w (omega arith)

-- Bytes of the least width, up to the end of the buffer.
ReadsEnd-tuint :
    (e : Error) (width v : ℕ) (bs : List ℕ)
    → length bs ≤ width
    → be_value bs ≡ v
    → IsWidth (length bs) v
    → ReadsEnd (read_tuint e width) bs v
unfolding read_tuint
ReadsEnd-tuint e width v bs fits val w = record {
  run = λ r h eq.
      let left : length r.buffer - r.position ≡ length bs =
        sym (length-drop r.position r.buffer) ∙ ap length eq in
      let size : min width (length r.buffer - r.position) ≡ length bs = omega arith in
      let got : be_value (take (length bs) (ahead r)) ≡ v =
        rw eq (rw (take_all (length bs) bs (omega arith)) val) in
      let inside : ltb (length r.buffer) r.position ≡ false = ground arith in
      elim (Bool-cases (length bs == 0)) [
        | inl none_left ↦ (
          r,
          simp (inside, size, none_left) (ap (λ x. ok x r) (zero_of v w (ground arith))),
          record { same = refl; moved = ground arith; inside = h },
        )
        | inr some_left ↦ (
          record r { position = r.position + length bs },
          simp (inside, size, some_left, got, is_minimal_lem (length bs) v w),
          record { same = refl; moved = refl; inside = omega arith },
        )
      ];
}
  where
    zero_of : (x : ℕ) → IsWidth (length bs) x → length bs ≡ 0 → 0 ≡ x
    zero_of zero wx z = refl
    zero_of (suc x) wx z = absurd (let lt = wx.needs 0 (omega arith) in omega arith)

be_short-IsWidth : (v : ℕ) → IsWidth (length (be_short v)) v
be_short-IsWidth v = record {
  holds = λ j h. length-be_short_le j v h;
  needs = λ j h. lt-length-be_short j v h;
}

nonzero : (n : ℕ) → (suc n == 0) ≡ false
nonzero n = ground arith

short_form : (val : ℕ) → (if val == 0 then [] else be_short val) ≡ be_short val
unfolding be_short le_short
short_form zero = refl
short_form (suc n) = rw (nonzero n)

-- Every number below 2^64 that writeTUInt64 wrote to a new writer is what readTUInt64 returns
-- from those bytes.
pub read-write_tuint64 :
    (val : ℕ)
    → val < 2 ^ 64
    → and_then (output (write_tuint64 val)) (λ out. result (read_tuint64 (reader out))) ≡ value val
unfolding read_tuint64
read-write_tuint64 val h =
    let short = length-be_short_le 8 val h in
    round_trip _ _ (be_short val) val (rw (short_form val) at (Appends-tuint64 val))
      (ReadsEnd-tuint _ 8 val (be_short val) short (be_value-be_short val) (be_short-IsWidth val))
      (omega arith)

-- Two bounds make `k` bytes the least number for a value that is not 0.
IsWidth-pow : (k v : ℕ) → 256 ^ k ≤ v → v < 256 ^ suc k → IsWidth (suc k) v
IsWidth-pow k v lo hi = record {
  holds = λ j h. pow_lt k j (omega arith);
  needs = λ j h. pow_lt j (suc k) (omega arith);
}

IsWidth-zero : IsWidth 0 0
IsWidth-zero = record { holds = λ j h. omega arith; needs = λ j h. pow_lt j 0 (omega arith) }

tuint16_IsWidth : (val : ℕ) → 0 < val → val < 2 ^ 16 → IsWidth (tuint16_size val) val
unfolding tuint16_size
tuint16_IsWidth val pos h = elim (Bool-cases (ltb 0xff val)) [
  | inl a ↦ rw a (IsWidth-pow 1 val (ground arith) h)
  | inr a ↦ rw a (IsWidth-pow 0 val pos (ground arith))
]

tuint32_IsWidth : (val : ℕ) → 0 < val → val < 2 ^ 32 → IsWidth (tuint32_size val) val
unfolding tuint32_size
tuint32_IsWidth val pos h = elim (Bool-cases (ltb 0xff_ffff val)) [
  | inl a ↦ rw a (IsWidth-pow 3 val (ground arith) h)
  | inr a ↦ rw a (elim (Bool-cases (ltb 0xffff val)) [
    | inl b ↦ rw b (IsWidth-pow 2 val (ground arith) (ground arith))
    | inr b ↦ rw b (elim (Bool-cases (ltb 0xff val)) [
      | inl c ↦ rw c (IsWidth-pow 1 val (ground arith) (ground arith))
      | inr c ↦ rw c (IsWidth-pow 0 val pos (ground arith))
    ])
  ])
]

-- What the format `tuint` of a fixed list of sizes gives its reader.
ReadsEnd-format :
    (e : Error) (limit : ℕ) (width : ℕ → ℕ) (val : ℕ)
    → (0 < val → (IsWidth (width val) val) × (width val ≤ limit))
    → ReadsEnd (read_tuint e limit) (tuint width val) val
unfolding tuint
ReadsEnd-format e limit width zero w =
    ReadsEnd-tuint e limit 0 [] (omega arith) (unfold be_value le_value in refl) IsWidth-zero
ReadsEnd-format e limit width (suc n) w =
    let v = suc n in
    let (least, fits) = w (omega arith) in
    let size = length-be_bytes (width v) v in
    rw (nonzero n) (
      ReadsEnd-tuint e limit v (be_bytes (width v) v) (omega (arith, size))
        (be_value-be_bytes (width v) v (width_holds (width v) v least))
        (subst (λ k. IsWidth k v) (sym size) least))

length-tuint_le : (width : ℕ → ℕ) (val : ℕ) → length (tuint width val) ≤ width val
unfolding tuint
length-tuint_le width zero = omega arith
length-tuint_le width (suc n) =
    rw (nonzero n) (omega (arith, length-be_bytes (width (suc n)) (suc n)))

tuint16_size_le : (val : ℕ) → tuint16_size val ≤ 2
unfolding tuint16_size
tuint16_size_le val = ground arith

tuint32_size_le : (val : ℕ) → tuint32_size val ≤ 4
unfolding tuint32_size
tuint32_size_le val = ground arith

-- Every number below 2^16 that writeTUInt16 wrote to a new writer is what readTUInt16 returns
-- from those bytes.
pub read-write_tuint16 :
    (val : ℕ)
    → val < 2 ^ 16
    → and_then (output (write_tuint16 val)) (λ out. result (read_tuint16 (reader out))) ≡ value val
unfolding read_tuint16
read-write_tuint16 val h =
    round_trip _ _ (tuint tuint16_size val) val (Appends-tuint16 val h)
      (ReadsEnd-format _ 2 tuint16_size val
        (λ pos. (tuint16_IsWidth val pos h, tuint16_size_le val)))
      (omega (arith, length-tuint_le tuint16_size val, tuint16_size_le val))

-- Every number below 2^32 that writeTUInt32 wrote to a new writer is what readTUInt32 returns
-- from those bytes.
pub read-write_tuint32 :
    (val : ℕ)
    → val < 2 ^ 32
    → and_then (output (write_tuint32 val)) (λ out. result (read_tuint32 (reader out))) ≡ value val
unfolding read_tuint32
read-write_tuint32 val h =
    round_trip _ _ (tuint tuint32_size val) val (Appends-tuint32 val h)
      (ReadsEnd-format _ 4 tuint32_size val
        (λ pos. (tuint32_IsWidth val pos h, tuint32_size_le val)))
      (omega (arith, length-tuint_le tuint32_size val, tuint32_size_le val))
