-- ===== src/Bufio/Bytes.antt =====
-- Numbers as byte strings, little and big endian, of a fixed width or as short as possible. This
-- is what Node's `readUIntBE`, `writeUInt32LE` and the like compute, and what `BigInt('0x' + hex)`
-- and `toString(16)` do on whole bytes.
use node_dlc.Prelude.{
  All, reverse-append, ◌++◌, ℕ, zero, suc, ◌+◌, ◌*◌, ◌/◌, ◌%◌, ◌^◌, ◌≤◌, ◌<◌, ◌≡◌, refl, ap, ◌∙◌,
  arith, List, [], ◌∷◌, reverse, reverse-reverse, length, length-reverse, ◌==◌, if◌then◌else◌,
  Bool-cases, inl, inr,
}
use native.Mathlib.Nat.{pow-suc}

unfoldable pub le_value : List ℕ → ℕ
le_value [] = 0
le_value (b ∷ bs) = b + 256 * le_value bs

unfoldable pub le_bytes : ℕ → ℕ → List ℕ
le_bytes zero v = []
le_bytes (suc k) v = v % 256 ∷ le_bytes k (v / 256)

unfoldable pub be_value : List ℕ → ℕ
be_value bs = le_value (reverse bs)

unfoldable pub be_bytes : ℕ → ℕ → List ℕ
be_bytes k v = reverse (le_bytes k v)

-- The bytes of `v` without leading zeros, lowest first; `fuel` bounds their number.
unfoldable pub le_short : ℕ → ℕ → List ℕ
le_short zero v = []
le_short (suc fuel) v =
    let rest = le_short fuel (v / 256) in if v == 0 then [] else (v % 256) ∷ rest

-- `v` bytes are more than enough for `v`.
unfoldable pub be_short : ℕ → List ℕ
unfolding le_short
be_short v = reverse (le_short v v)

pub length-le_bytes : (k v : ℕ) → length (le_bytes k v) ≡ k
unfolding le_bytes
length-le_bytes zero v = refl
length-le_bytes (suc k) v = ap suc (length-le_bytes k (v / 256))

pub length-be_bytes : (k v : ℕ) → length (be_bytes k v) ≡ k
unfolding be_bytes
length-be_bytes k v = length-reverse (le_bytes k v) ∙ length-le_bytes k v

pub le_value-le_bytes : (k v : ℕ) → v < 256 ^ k → le_value (le_bytes k v) ≡ v
unfolding le_bytes le_value
le_value-le_bytes zero v h = omega arith
le_value-le_bytes (suc k) v h =
    omega (arith, le_value-le_bytes k (v / 256) (omega (arith, pow-suc 256 k)))

pub be_value-be_bytes : (k v : ℕ) → v < 256 ^ k → be_value (be_bytes k v) ≡ v
unfolding be_bytes be_value
be_value-be_bytes k v h = rw reverse-reverse (le_value-le_bytes k v h)

le_value-le_short : (fuel v : ℕ) → v ≤ fuel → le_value (le_short fuel v) ≡ v
unfolding le_short le_value
le_value-le_short zero v h = omega arith
le_value-le_short (suc fuel) v h = elim (Bool-cases (v == 0)) [
  | inl e ↦ rw e (ground arith)
  | inr e ↦ rw e (ground (arith, le_value-le_short fuel (v / 256) (ground arith)))
]

pub be_value-be_short : (v : ℕ) → be_value (be_short v) ≡ v
unfolding be_short be_value
be_value-be_short v = rw reverse-reverse (le_value-le_short v v (omega arith))

length-le_short : (fuel k v : ℕ) → v < 256 ^ k → length (le_short fuel v) ≤ k
unfolding le_short
length-le_short zero k v h = omega arith
length-le_short (suc fuel) zero v h = ground arith
length-le_short (suc fuel) (suc k) v h =
    ground (arith, length-le_short fuel k (v / 256) (omega (arith, pow-suc 256 k)))

-- A number below 256 ^ k takes `k` bytes at most.
pub length-be_short_le : (k v : ℕ) → v < 256 ^ k → length (be_short v) ≤ k
unfolding be_short
length-be_short_le k v h = rw length-reverse (length-le_short v k v h)

pow_pos : (j : ℕ) → 0 < 256 ^ j
pow_pos zero = omega arith
pow_pos (suc j) = omega (arith, pow-suc 256 j, pow_pos j)

le_short_floor : (fuel k v : ℕ) → v ≤ fuel → 256 ^ k ≤ v → k < length (le_short fuel v)
unfolding le_short
le_short_floor zero k v h lo = absurd (omega (arith, pow_pos k))
le_short_floor (suc fuel) zero v h lo = ground arith
le_short_floor (suc fuel) (suc k) v h lo = elim (Bool-cases (v == 0)) [
  | inl e ↦ absurd (ground (arith, pow_pos (suc k)))
  | inr e ↦ rw e (
      ground (arith, le_short_floor fuel k (v / 256) (ground arith) (omega (arith, pow-suc 256 k))))
]

-- A number from 256 ^ k on takes more than `k` bytes.
pub lt-length-be_short : (k v : ℕ) → 256 ^ k ≤ v → k < length (be_short v)
unfolding be_short
lt-length-be_short k v h = rw length-reverse (le_short_floor v k v (omega arith) h)

abbrev pub IsByte : ℕ → Type 0
IsByte b = b < 256

le_value_bound : (bs : List ℕ) → All IsByte bs → le_value bs < 256 ^ length bs
unfolding le_value
le_value_bound [] h = omega arith
le_value_bound (b ∷ bs) (h, hs) = omega (arith, le_value_bound bs hs, pow-suc 256 (length bs))

le_bytes-le_value : (bs : List ℕ) → All IsByte bs → le_bytes (length bs) (le_value bs) ≡ bs
unfolding le_value le_bytes
le_bytes-le_value [] h = refl
le_bytes-le_value (b ∷ bs) (h, hs) =
    let low : (b + 256 * le_value bs) % 256 ≡ b = omega arith in
    let high : (b + 256 * le_value bs) / 256 ≡ le_value bs = omega arith in
    rw (low, high) (ap (λ t. b ∷ t) (le_bytes-le_value bs hs))

All-append : (xs ys : List ℕ) → All IsByte xs → All IsByte ys → All IsByte (xs ++ ys)
All-append [] ys h k = k
All-append (x ∷ xs) ys (h, hs) k = (h, All-append xs ys hs k)

All-reverse : (xs : List ℕ) → All IsByte xs → All IsByte (reverse xs)
All-reverse [] h = tt
All-reverse (x ∷ xs) (h, hs) =
    rw (reverse-append (x ∷ []) xs) (All-append (reverse xs) (x ∷ []) (All-reverse xs hs) (h, tt))

-- Big endian bytes hold a number below 256 ^ their length, and are its only form of that length.
pub be_value_bound : (bs : List ℕ) → All IsByte bs → be_value bs < 256 ^ length bs
unfolding be_value
be_value_bound bs h = rw (← length-reverse bs) (le_value_bound (reverse bs) (All-reverse bs h))

pub be_bytes-be_value : (bs : List ℕ) → All IsByte bs → be_bytes (length bs) (be_value bs) ≡ bs
unfolding be_value be_bytes
be_bytes-be_value bs h =
    rw (← length-reverse bs)
      (rw (le_bytes-le_value (reverse bs) (All-reverse bs h)) (reverse-reverse bs))
