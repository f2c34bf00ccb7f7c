-- ===== src/Noise/Tests.antt =====
-- A connection over primitives that hide nothing, and the theorems at it.
use node_dlc.Prelude.{
  ℕ, ◌≢◌, err, bad_tag, ◌+◌, ◌≡◌, refl, arith, true, false, some, List, [], ◌∷◌, ap, replicate,
  value,
}
use node_dlc.Noise.Crypto.{Primitives, Laws}
use node_dlc.Noise.State.{Noise, noise_state, version_of}
use node_dlc.Noise.Cipher.{decrypt_message, decrypt_length}
use node_dlc.Noise.Handshake.{handshake, handshake-Agree, Agree}
use node_dlc.Noise.Transport.{InSync}
use node_dlc.Noise.Forgery.{decrypt_message-forged}
use node_dlc.Noise.Conversation.{connect, arriving, connect-arriving, Said}

abbrev plain : Primitives
plain = record {
  chacha = λ k n text. text;
  poly = λ k n ad text. replicate 16 0;
  hmac = λ k text. replicate 32 1;
  sha256 = λ text. replicate 32 2;
  public_key = λ s. replicate 33 (version_of s);
  ecdh = λ k s. some ((version_of k + version_of s) ∷ []);
}

plain-Laws : Laws plain
plain-Laws = record {
  undoes = λ k n text. refl;
  length-chacha = λ k n text. refl;
  length-poly = λ k n ad text. refl;
  length-hmac = λ k text. refl;
  length-public_key = λ s. refl;
  secret = λ a b. (version_of a + version_of b) ∷ [];
  ecdh-public_key = λ a b. refl;
  secret_comm = λ a b. ap (λ n. n ∷ []) (omega arith);
}

handshake-Agree_example :
    (i r : Noise) × (handshake plain
        (noise_state plain (1 ∷ []) (2 ∷ []))
        (noise_state plain (3 ∷ []) (4 ∷ []))
      ≡ value (i, r))
    × Agree i r
handshake-Agree_example = handshake-Agree plain plain-Laws (1 ∷ []) (2 ∷ []) (3 ∷ []) (4 ∷ [])

zeros_ones : (let zeros : List ℕ = replicate 16 0 in zeros) ≢ replicate 16 1
zeros_ones e = cc

abbrev said : List Said
said = (true, 7 ∷ 8 ∷ []) ∷ (false, []) ∷ (true, 9 ∷ []) ∷ []

connect-arriving_example :
    (a b : Noise) × (connect plain said
        (noise_state plain (1 ∷ []) (2 ∷ []))
        (noise_state plain (3 ∷ []) (4 ∷ []))
      ≡ value (arriving said, (a, b)))
    × InSync a b
connect-arriving_example =
    connect-arriving plain plain-Laws (1 ∷ []) (2 ∷ []) (3 ∷ []) (4 ∷ []) said
      (omega arith, (omega arith, (omega arith, tt)))

abbrev party : Noise
party = noise_state plain (1 ∷ []) (2 ∷ [])

decrypt_message-forged_example :
    (decrypt_message plain (5 ∷ replicate 16 1) party ≡ err bad_tag party)
    × (decrypt_length plain (5 ∷ replicate 16 1) party ≡ err bad_tag party)
decrypt_message-forged_example =
    decrypt_message-forged plain party (5 ∷ []) (replicate 16 1) refl zeros_ones
