-- ===== src/Noise/Forgery.antt =====
-- packages/noise/lib/noise-state.ts: bytes that are read and were not sealed with the key.
use node_dlc.Prelude.{
  ℕ, ◌-◌, ◌≡◌, ◌≢◌, refl, ap, arith, true, false, Bool-cases, inl, inr, List, [], ◌∷◌, ◌++◌, length,
  length-append, take-append_eq, drop-append_eq, ltb, ◌==◌, err, error, bad_tag, lift, >>=-err,
}
use node_dlc.Noise.Crypto.{Primitives, same_bytes, finish, ccp_decrypt}
use node_dlc.Noise.State.{Noise}
use node_dlc.Noise.Cipher.{receive_part, decrypt_message, decrypt_length}

same_bytes-eq : (xs ys : List ℕ) → same_bytes xs ys ≡ true → xs ≡ ys
unfolding same_bytes
same_bytes-eq [] [] h = refl
same_bytes-eq [] (y ∷ ys) h = absurd (let e : false ≡ true = h in cc)
same_bytes-eq (x ∷ xs) [] h = absurd (let e : false ≡ true = h in cc)
same_bytes-eq (x ∷ xs) (y ∷ ys) h =
    let first : x ≡ y = ground arith in
    let more : same_bytes xs ys ≡ true = ground arith in
    rw first (ap (λ t. y ∷ t) (same_bytes-eq xs ys more))

module _ (p : Primitives) where
  finish-forged :
      (k n ad pad tag : List ℕ) → p.poly k n ad pad ≢ tag → finish p k n ad pad tag ≡ error bad_tag
  unfolding finish
  finish-forged k n ad pad tag wrong = elim (Bool-cases (same_bytes (p.poly k n ad pad) tag)) [
    | inl h ↦ absurd (wrong (same_bytes-eq _ _ h))
    | inr h ↦ rw h refl
  ]

  ccp_decrypt-forged :
      (k n ad pad tag : List ℕ)
      → length tag ≡ 16
      → p.poly k n ad pad ≢ tag
      → ccp_decrypt p k n ad (pad ++ tag) ≡ error bad_tag
  unfolding ccp_decrypt
  ccp_decrypt-forged k n ad [] tag h wrong = rw h (finish-forged k n ad [] tag wrong)
  ccp_decrypt-forged k n ad (x ∷ xs) tag h wrong =
      let pad : List ℕ = x ∷ xs in
      let size = length-append pad tag in
      let long : (length (pad ++ tag) == 16) ≡ false = ground (arith, size) in
      let more : ltb 16 (length (pad ++ tag)) ≡ true = ground (arith, size) in
      let at : length (pad ++ tag) - 16 ≡ length pad = omega (arith, size) in
      rw (long, more)
        (rw
          (
            take-append_eq (length (pad ++ tag) - 16) pad tag at,
            drop-append_eq (length (pad ++ tag) - 16) pad tag at,
          )
          (finish-forged k n ad pad tag wrong))

  receive_part-forged :
      (s : Noise) (pad tag : List ℕ)
      → length tag ≡ 16
      → p.poly s.rk s.rn [] pad ≢ tag
      → receive_part p (pad ++ tag) s ≡ err bad_tag s
  unfolding receive_part
  receive_part-forged s pad tag h wrong =
      >>=-err (lift (ccp_decrypt p s.rk s.rn [] (pad ++ tag))) _
        (ap (λ r. lift r s) (ccp_decrypt-forged s.rk s.rn [] pad tag h wrong))

  -- When the last 16 bytes differ from the tag of the bytes in front of them under the receiving
  -- key and nonce, decryptMessage and decryptLength throw, and leave keys and nonces as they
  -- were.
  pub decrypt_message-forged :
      (s : Noise) (pad tag : List ℕ)
      → length tag ≡ 16
      → p.poly s.rk s.rn [] pad ≢ tag
      → (decrypt_message p (pad ++ tag) s ≡ err bad_tag s)
        × (decrypt_length p (pad ++ tag) s ≡ err bad_tag s)
  unfolding decrypt_message decrypt_length
  decrypt_message-forged s pad tag h wrong =
      let e = receive_part-forged s pad tag h wrong in
      (e, >>=-err (receive_part p (pad ++ tag)) _ e)
