-- ===== src/Noise/Transport.antt =====
-- Messages after the handshake: what one party encrypts the other decrypts, through the rotations
-- of the keys, as long as each message is read before the next one is sent.
use node_dlc.Prelude.{
  ℕ, ◌+◌, ◌<◌, ◌^◌, ◌≡◌, refl, sym, ap, ◌∙◌, arith, Bool, true, false, Option, some, List, [], ◌++◌,
  length, take, drop, replicate, take-append_eq, drop-append_eq, take_all, ltb, leb, lt→ltb,
  if◌then◌else◌, Bool-cases, inl, inr, ok, Result, value, and_then, >>=-ok, >>-ok, subst,
}
use node_dlc.Bufio.Bytes.{
  be_bytes, le_bytes, length-be_bytes, length-le_bytes, be_value-be_bytes, le_value-le_bytes,
}
use node_dlc.Noise.Crypto.{
  Primitives, Laws, ccp_encrypt, ccp_decrypt, okm, hkdf_64, length-ccp_encrypt,
  ccp_decrypt-ccp_encrypt,
}
use node_dlc.Noise.State.{Noise, zero_nonce}
use node_dlc.Noise.Cipher.{
  counter, with_counter, increment_sending_nonce, increment_receiving_nonce, rotate_sending_keys,
  rotate_receiving_keys, step_sending, step_receiving, send_part, receive_part, encrypt_message,
  read_length, decrypt_length, decrypt_message,
}
use node_dlc.Noise.Handshake.{finished}

-- The nonce after `n` parts.
abbrev pub nonce : ℕ → List ℕ
nonce n = replicate 4 0 ++ (le_bytes 2 n ++ replicate 6 0)

with_counter-nonce : (n k : ℕ) → with_counter k (nonce n) ≡ nonce k
unfolding with_counter le_bytes
with_counter-nonce n k = refl

counter-nonce : (n : ℕ) → n < 2 ^ 16 → counter (nonce n) ≡ n
unfolding counter
counter-nonce n h =
    rw (take-append_eq 2 (le_bytes 2 n) (replicate 6 0) (sym (length-le_bytes 2 n)))
      (le_value-le_bytes 2 n h)

ap₂ : {a b c d : List ℕ} → a ≡ b → c ≡ d → (f : List ℕ → List ℕ → List ℕ) → f a c ≡ f b d
ap₂ e h f = rw (e, h) refl

pub zero_is : zero_nonce ≡ nonce 0
unfolding le_bytes
zero_is = refl

-- The sender's half of `a` and the receiver's half of `b` are in step.
pub record InStep (a b : Noise) : Type 0 where
  pub sent : ℕ
  pub below : sent < 1000
  pub sending : a.sn ≡ nonce sent
  pub receiving : b.rn ≡ nonce sent
  pub key : a.sk ≡ b.rk
  pub chaining : a.ck ≡ b.ck

-- Both directions are in step.
abbrev pub InSync : Noise → Noise → Type 0
InSync a b = InStep a b × InStep b a

module _ (p : Primitives) where
  -- A message goes from `a` to `b`, who reads the length from 18 bytes and the text from as many
  -- as it says, and 16 for the tag.
  unfoldable pub deliver : List ℕ → Noise → Noise → Result ((ℕ × Option (List ℕ)) × (Noise × Noise))
  deliver m a b = and_then (finished (encrypt_message p m a)) (λ (out, a').
      and_then (finished (decrypt_length p (take 18 out) b)) (λ (n, b').
        and_then (finished (decrypt_message p (take (n + 16) (drop 18 out)) b'))
          (λ (text, b''). value ((n, text), (a', b'')))))

module _ (p : Primitives) (laws : Laws p) where
  abbrev more_sent : ℕ → Noise → Noise
  more_sent n a = record a { sn = nonce n }

  abbrev more_received : ℕ → Noise → Noise
  more_received n b = record b { rn = nonce n }

  abbrev rotated_sending : Noise → Noise
  rotated_sending a = record a {
    sk = drop 32 (okm p laws a.sk a.ck);
    ck = take 32 (okm p laws a.sk a.ck);
    sn = zero_nonce;
  }

  abbrev rotated_receiving : Noise → Noise
  rotated_receiving b = record b {
    rk = drop 32 (okm p laws b.rk b.ck);
    ck = take 32 (okm p laws b.rk b.ck);
    rn = zero_nonce;
  }

  module _ (n : ℕ) (small : n < 1000) where
    increment_sending :
        (a : Noise) → increment_sending_nonce p (more_sent n a) ≡ ok (n + 1) (more_sent (n + 1) a)
    unfolding increment_sending_nonce
    increment_sending a =
        let e = counter-nonce n (omega arith) in
        let fits : ltb (n + 1) 0x1_0000 ≡ true = ground arith in
        rw (e, fits, with_counter-nonce n (n + 1)) refl

    increment_receiving :
        (b : Noise)
        → increment_receiving_nonce p (more_received n b) ≡ ok (n + 1) (more_received (n + 1) b)
    unfolding increment_receiving_nonce
    increment_receiving b =
        let e = counter-nonce n (omega arith) in
        let fits : ltb (n + 1) 0x1_0000 ≡ true = ground arith in
        rw (e, fits, with_counter-nonce n (n + 1)) refl

    abbrev full : Bool
    full = leb 1000 (n + 1)

    step_sending-ok :
        (a : Noise)
        → step_sending p (more_sent n a)
          ≡ ok tt (if full then rotated_sending a else more_sent (n + 1) a)
    unfolding step_sending rotate_sending_keys
    step_sending-ok a =
        >>=-ok (increment_sending_nonce p) _ (increment_sending a) ∙ (elim (Bool-cases full) [
          | inl y ↦ rw y (rw (hkdf_64 p laws a.sk a.ck) refl)
          | inr y ↦ rw y refl
        ])

    step_receiving-ok :
        (b : Noise)
        → step_receiving p (more_received n b)
          ≡ ok tt (if full then rotated_receiving b else more_received (n + 1) b)
    unfolding step_receiving rotate_receiving_keys
    step_receiving-ok b =
        >>=-ok (increment_receiving_nonce p) _ (increment_receiving b) ∙ (elim (Bool-cases full) [
          | inl y ↦ rw y (rw (hkdf_64 p laws b.rk b.ck) refl)
          | inr y ↦ rw y refl
        ])

  -- One part goes over; the other direction is left alone.
  pub record Passed (a b a' b' : Noise) : Type 0 where
    pub in_step : InStep a' b'
    pub kept : (a'.rk ≡ a.rk) × (a'.rn ≡ a.rn) × (b'.sk ≡ b.sk) × (b'.sn ≡ b.sn)

  module _ (a b : Noise) (s : InStep a b) where
    after_a : Noise
    after_a = if full s.sent s.below then rotated_sending a else more_sent (s.sent + 1) a

    after_b : Noise
    after_b = if full s.sent s.below then rotated_receiving b else more_received (s.sent + 1) b

    a-more_sent : a ≡ more_sent s.sent a
    a-more_sent = ap (λ x. record a { sn = x }) s.sending

    b-more_received : b ≡ more_received s.sent b
    b-more_received = ap (λ x. record b { rn = x }) s.receiving

    after-Passed : Passed a b after_a after_b
    unfolding after_a after_b
    after-Passed = elim (Bool-cases (full s.sent s.below)) [
      | inl y ↦ rw y (record {
        in_step = record {
          sent = 0;
          below = omega arith;
          sending = zero_is;
          receiving = zero_is;
          key = ap₂ s.key s.chaining (λ k c. drop 32 (okm p laws k c));
          chaining = ap₂ s.key s.chaining (λ k c. take 32 (okm p laws k c));
        };
        kept = (refl, refl, refl, refl);
      })
      | inr y ↦ rw y (record {
        in_step = record {
          sent = s.sent + 1;
          below = ground arith;
          sending = refl;
          receiving = refl;
          key = s.key;
          chaining = s.chaining;
        };
        kept = (refl, refl, refl, refl);
      })
    ]

  -- A part that one side encrypts the other decrypts, and they stay in step.
  pub receive_part-send_part :
      (a b : Noise) (text : List ℕ)
      → InStep a b
      → (c : List ℕ) × (a' b' : Noise) × (send_part p text a ≡ ok c a')
        × (receive_part p c b ≡ ok (some text) b')
        × (length c ≡ length text + 16)
        × Passed a b a' b'
  unfolding send_part receive_part after_a after_b
  receive_part-send_part a b text s =
      let c = ccp_encrypt p a.sk a.sn [] text in
      let same : ccp_decrypt p b.rk b.rn [] c ≡ value (some text) =
        subst (λ k. ccp_decrypt p k b.rn [] c ≡ value (some text)) s.key
          (subst (λ n. ccp_decrypt p a.sk n [] c ≡ value (some text)) (s.sending ∙ sym s.receiving)
            (ccp_decrypt-ccp_encrypt p laws a.sk a.sn [] text)) in
      (
        c,
        after_a a b s,
        after_b a b s,
        >>-ok (step_sending p) _
            (ap (step_sending p) (a-more_sent a b s) ∙ step_sending-ok s.sent s.below a),
        rw same (
            >>-ok (step_receiving p) _
              (ap (step_receiving p) (b-more_received a b s) ∙ step_receiving-ok s.sent s.below b)),
        length-ccp_encrypt p laws a.sk a.sn [] text,
        after-Passed a b s,
      )

  encrypt_message-ok :
      (a a₁ a₂ : Noise) (m lc c : List ℕ)
      → length m < 2 ^ 16
      → send_part p (be_bytes 2 (length m)) a ≡ ok lc a₁
      → send_part p m a₁ ≡ ok c a₂
      → encrypt_message p m a ≡ ok (lc ++ c) a₂
  unfolding encrypt_message
  encrypt_message-ok a a₁ a₂ m lc c h e₁ e₂ =
      rw (lt→ltb _ _ h)
        (>>=-ok (send_part p (be_bytes 2 (length m))) _ e₁ ∙ >>=-ok (send_part p m) _ e₂)

  decrypt_length-ok :
      (b b₁ : Noise) (lc : List ℕ) (n : ℕ)
      → n < 2 ^ 16
      → receive_part p lc b ≡ ok (some (be_bytes 2 n)) b₁
      → decrypt_length p lc b ≡ ok n b₁
  unfolding decrypt_length read_length
  decrypt_length-ok b b₁ lc n h e =
      let size = length-be_bytes 2 n in
      let two : ltb (length (be_bytes 2 n)) 2 ≡ false = ground (arith, size) in
      >>=-ok (receive_part p lc) _ e
      ∙ rw (two, take_all 2 (be_bytes 2 n) (omega (arith, size)), be_value-be_bytes 2 n h) refl

  Passed-InSync : (a b a' b' : Noise) → Passed a b a' b' → InStep b a → InSync a' b'
  Passed-InSync a b a' b' x s =
      let (rk, rn, sk, sn) = x.kept in
      (
        x.in_step,
        record {
          sent = s.sent;
          below = s.below;
          sending = sn ∙ s.sending;
          receiving = rn ∙ s.receiving;
          key = sk ∙ s.key ∙ sym rk;
          chaining = sym x.in_step.chaining;
        },
      )

  pub deliver-InSync :
      (m : List ℕ) (a b : Noise)
      → length m < 2 ^ 16
      → InSync a b
      → (a' b' : Noise) × (deliver p m a b ≡ value ((length m, some m), (a', b'))) × InSync a' b'
  unfolding deliver decrypt_message
  deliver-InSync m a b h (s, t) =
      let (lc, a₁, b₁, e₁, d₁, n₁, x₁) = receive_part-send_part a b (be_bytes 2 (length m)) s in
      let (s₁, t₁) = Passed-InSync a b a₁ b₁ x₁ t in
      let (c, a₂, b₂, e₂, d₂, n₂, x₂) = receive_part-send_part a₁ b₁ m s₁ in
      let front : 18 ≡ length lc = omega (arith, n₁, length-be_bytes 2 (length m)) in
      let whole : take (length m + 16) c ≡ c = take_all _ c (omega (arith, n₂)) in
      (
        a₂,
        b₂,
        rw
            (
              encrypt_message-ok a a₁ a₂ m lc c h e₁ e₂,
              take-append_eq 18 lc c front,
              drop-append_eq 18 lc c front,
              decrypt_length-ok b b₁ lc (length m) h d₁,
              whole,
              d₂,
            )
            refl,
        Passed-InSync a₁ b₁ a₂ b₂ x₂ t₁,
      )
