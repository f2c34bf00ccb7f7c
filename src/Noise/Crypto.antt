-- ===== src/Noise/Crypto.antt =====
-- packages/crypto/lib/chachapoly.ts and hkdf.ts over the primitives of Node and secp256k1, which
-- are the record `Primitives`, with what their documentation says of them in `Laws`.
use node_dlc.Prelude.{
  ℕ, zero, suc, ◌+◌, ◌-◌, ◌/◌, ◌≤◌, ◌≡◌, refl, ap, ◌∙◌, arith, Bool, true, false, ◌&&◌, Option,
  none, some, List, [], ◌∷◌, ◌++◌, length, take, drop, append-nil, length-append, take_all,
  take-append_eq, drop-append_eq, ltb, ◌==◌, if◌then◌else◌, Result, value, error, bad_tag, too_long,
}

-- The stream cipher, its authentication tag, the keyed hash, the hash and the curve.
pub record Primitives : Type 0 where
  pub chacha : List ℕ → List ℕ → List ℕ → List ℕ
  pub poly : List ℕ → List ℕ → List ℕ → List ℕ → List ℕ
  pub hmac : List ℕ → List ℕ → List ℕ
  pub sha256 : List ℕ → List ℕ
  pub public_key : List ℕ → List ℕ
  pub ecdh : List ℕ → List ℕ → Option (List ℕ)

-- ChaCha20 adds a key stream, so it undoes itself; a tag has 16 bytes, a keyed hash 32 and a
-- compressed key 33; two parties compute one secret.
pub record Laws (p : Primitives) : Type 0 where
  pub undoes : (k n text : List ℕ) → p.chacha k n (p.chacha k n text) ≡ text
  pub length-chacha : (k n text : List ℕ) → length (p.chacha k n text) ≡ length text
  pub length-poly : (k n ad text : List ℕ) → length (p.poly k n ad text) ≡ 16
  pub length-hmac : (k text : List ℕ) → length (p.hmac k text) ≡ 32
  pub length-public_key : (s : List ℕ) → length (p.public_key s) ≡ 33
  pub secret : List ℕ → List ℕ → List ℕ
  pub ecdh-public_key : (a b : List ℕ) → p.ecdh (p.public_key a) b ≡ some (secret a b)
  pub secret_comm : (a b : List ℕ) → secret a b ≡ secret b a

unfoldable pub same_bytes : List ℕ → List ℕ → Bool
same_bytes [] [] = true
same_bytes [] (y ∷ ys) = false
same_bytes (x ∷ xs) [] = false
same_bytes (x ∷ xs) (y ∷ ys) = x == y && same_bytes xs ys

pub same_bytes_refl : (xs : List ℕ) → same_bytes xs xs ≡ true
unfolding same_bytes
same_bytes_refl [] = refl
same_bytes_refl (x ∷ xs) =
    let same : (x == x) ≡ true = ground arith in rw (same, same_bytes_refl xs) refl

-- `Math.ceil(a / b)`.
abbrev pub ceil_div : ℕ → ℕ → ℕ
ceil_div a b = (a + (b - 1)) / b

module _ (p : Primitives) where
  unfoldable pub ccp_encrypt : List ℕ → List ℕ → List ℕ → List ℕ → List ℕ
  ccp_encrypt k n ad plaintext = let pad = p.chacha k n plaintext in pad ++ p.poly k n ad pad

  -- `final` throws unless the tag is right.
  unfoldable pub finish : List ℕ → List ℕ → List ℕ → List ℕ → List ℕ → Result (Option (List ℕ))
  finish k n ad pad tag =
      if same_bytes (p.poly k n ad pad) tag then value (some (p.chacha k n pad)) else error bad_tag

  -- Below 16 bytes the function ends without a value.
  unfoldable pub ccp_decrypt : List ℕ → List ℕ → List ℕ → List ℕ → Result (Option (List ℕ))
  ccp_decrypt k n ad ciphertext =
      let at = length ciphertext - 16 in
      if length ciphertext == 16
      then finish k n ad [] ciphertext
      else if ltb 16 (length ciphertext)
      then finish k n ad (take at ciphertext) (drop at ciphertext)
      else value none

  -- The blocks from the counter `i` on, `last` being the one before.
  unfoldable pub hkdf_blocks : List ℕ → List ℕ → ℕ → ℕ → List ℕ
  hkdf_blocks prk last i zero = []
  hkdf_blocks prk last i (suc rounds) =
      let t = p.hmac prk (last ++ (i ∷ [])) in t ++ hkdf_blocks prk t (i + 1) rounds

  -- The call with its default `info`, which is empty.
  unfoldable pub hkdf : List ℕ → ℕ → List ℕ → Result (List ℕ)
  hkdf ikm len salt =
      let prk = p.hmac salt ikm in
      let n = ceil_div len (length prk) in
      if ltb 255 n then error too_long else value (take len (hkdf_blocks prk [] 1 n))

module _ (p : Primitives) (laws : Laws p) where
  pub length-ccp_encrypt :
      (k n ad text : List ℕ) → length (ccp_encrypt p k n ad text) ≡ length text + 16
  unfolding ccp_encrypt
  length-ccp_encrypt k n ad text =
      length-append (p.chacha k n text) _
      ∙ omega (arith, laws.length-chacha k n text, laws.length-poly k n ad (p.chacha k n text))

  empty_of_length : (xs : List ℕ) → length xs ≡ 0 → xs ≡ []
  empty_of_length [] e = refl
  empty_of_length (x ∷ xs) e = absurd (omega (arith, e))

  finish_lem :
      (k n ad text : List ℕ)
      → finish p k n ad (p.chacha k n text) (p.poly k n ad (p.chacha k n text)) ≡ value (some text)
  unfolding finish
  finish_lem k n ad text =
      rw (same_bytes_refl (p.poly k n ad (p.chacha k n text)), laws.undoes k n text) refl

  pub ccp_decrypt-ccp_encrypt :
      (k n ad text : List ℕ) → ccp_decrypt p k n ad (ccp_encrypt p k n ad text) ≡ value (some text)
  unfolding ccp_decrypt ccp_encrypt
  ccp_decrypt-ccp_encrypt k n ad [] =
      let size : length (ccp_encrypt p k n ad []) ≡ 16 = length-ccp_encrypt k n ad [] in
      let nopad : p.chacha k n [] ≡ [] = empty_of_length _ (laws.length-chacha k n []) in
      let whole : ccp_encrypt p k n ad [] ≡ p.poly k n ad [] = rw (ccp_encrypt, nopad) refl in
      let good : finish p k n ad [] (p.poly k n ad []) ≡ value (some []) =
        rw nopad at (finish_lem k n ad []) in
      rw size (rw whole good)
  ccp_decrypt-ccp_encrypt k n ad (x ∷ xs) =
      let size = length-ccp_encrypt k n ad (x ∷ xs) in
      let long : (length (ccp_encrypt p k n ad (x ∷ xs)) == 16) ≡ false = ground (arith, size) in
      let more : ltb 16 (length (ccp_encrypt p k n ad (x ∷ xs))) ≡ true = ground (arith, size) in
      let pad = p.chacha k n (x ∷ xs) in
      let at : length (ccp_encrypt p k n ad (x ∷ xs)) - 16 ≡ length pad =
        omega (arith, size, laws.length-chacha k n (x ∷ xs)) in
      rw (long, more, at)
        (rw
          (
            ccp_encrypt,
            take-append_eq (length pad) pad (p.poly k n ad pad) refl,
            drop-append_eq (length pad) pad (p.poly k n ad pad) refl,
          )
          (finish_lem k n ad (x ∷ xs)))

  -- The 64 bytes of two keys.
  abbrev pub okm : List ℕ → List ℕ → List ℕ
  okm ikm salt =
      let prk = p.hmac salt ikm in let t = p.hmac prk (1 ∷ []) in t ++ p.hmac prk (t ++ (2 ∷ []))

  pub hkdf_64 : (ikm salt : List ℕ) → hkdf p ikm 64 salt ≡ value (okm ikm salt)
  unfolding hkdf hkdf_blocks
  hkdf_64 ikm salt =
      let prk = p.hmac salt ikm in
      let t = p.hmac prk (1 ∷ []) in
      let u = p.hmac prk (t ++ (2 ∷ [])) in
      let size : length (t ++ u) ≤ 64 = omega (
        arith,
        length-append t u,
        laws.length-hmac prk (1 ∷ []),
        laws.length-hmac prk (t ++ (2 ∷ [])),
      ) in
      rw (laws.length-hmac salt ikm) (rw append-nil (ap value (take_all 64 (t ++ u) size)))
