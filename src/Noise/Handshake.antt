-- ===== src/Noise/Handshake.antt =====
-- The three acts between two parties: they end with the same keys, each knowing the other's.
use node_dlc.Prelude.{
  ℕ, ◌≡◌, refl, sym, ap, ◌∙◌, arith, some, List, [], ◌∷◌, ◌++◌, length, take, drop, length-append,
  take-append_eq, drop-append_eq, Outcome, ok, err, Result, value, error, and_then,
}
use node_dlc.Noise.Crypto.{Primitives, Laws, okm, length-ccp_encrypt}
use node_dlc.Noise.State.{
  Noise, noise_state, initialize, set_temp_k1, set_temp_k2, set_temp_k3, initiator_act1,
  initiator_act2, initiator_act3, receive_act1, receive_act2, receive_act3, zero_nonce, one_nonce,
}
use node_dlc.Noise.Acts.{
  sent1, sealed1, sent2, sealed2, sealed3, sent3, tag3, mixed, keyed, read_act-ok,
  initiator_act1-ok, receive_act2-ok, with_keys, initiator_act3-ok, read_act3-ok,
}

-- What a method returned, and the object after it.
abbrev pub finished : {A : Type 0} → Outcome Noise A → Result (A × Noise)
finished (ok a s) = value (a, s)
finished (err e s) = error e

module _ (p : Primitives) where
  -- The six calls, with each message handed to the other party.
  unfoldable pub handshake : Noise → Noise → Result (Noise × Noise)
  handshake i r = and_then (finished (initiator_act1 p r.lpk i)) (λ (m₁, i₁).
      and_then (finished (receive_act1 p m₁ r)) (λ (_, r₁).
        and_then (finished (receive_act2 p r₁)) (λ (m₂, r₂).
          and_then (finished (initiator_act2 p m₂ i₁)) (λ (_, i₂).
            and_then (finished (initiator_act3 p i₂)) (λ (m₃, i₃).
              and_then (finished (receive_act3 p m₃ r₂)) (λ (_, r₃). value (i₃, r₃)))))))

-- One party sends with the key that the other receives with, from nonce 0 on, both ways; the
-- chaining keys are the same; and each has the other's static key.
pub record Agree (i r : Noise) : Type 0 where
  pub forth : i.sk ≡ r.rk
  pub back : i.rk ≡ r.sk
  pub chaining : i.ck ≡ r.ck
  pub sends : (i.sn ≡ zero_nonce) × (r.sn ≡ zero_nonce)
  pub receives : (i.rn ≡ zero_nonce) × (r.rn ≡ zero_nonce)
  pub knows : (i.rpk ≡ r.lpk) × (r.rpk ≡ i.lpk)

module _ (p : Primitives) (laws : Laws p) where
  module _ (li ei lr er : List ℕ) where
    -- The three secrets.
    abbrev ss1 : List ℕ
    ss1 = laws.secret lr ei

    abbrev ss2 : List ℕ
    ss2 = laws.secret ei er

    abbrev ss3 : List ℕ
    ss3 = laws.secret er li

    -- The other side of an agreement.
    other : (a b : List ℕ) → p.ecdh (p.public_key a) b ≡ some (laws.secret b a)
    other a b = laws.ecdh-public_key a b ∙ ap some (laws.secret_comm a b)

    abbrev i0 : Noise
    i0 = noise_state p li ei

    abbrev r0 : Noise
    r0 = noise_state p lr er

    abbrev j0 : Noise
    j0 = initialize p r0.lpk (record i0 { rpk = r0.lpk })

    abbrev c1 : List ℕ
    c1 = sealed1 p laws j0 ss1

    abbrev j1 : Noise
    j1 = mixed p laws c1 (sent1 p laws j0 ss1)

    abbrev q1 : Noise
    q1 = mixed p laws c1 (
        keyed p laws set_temp_k1 ss1
          (mixed p laws i0.epk (record (initialize p r0.lpk r0) { repk = i0.epk })))

    abbrev c2 : List ℕ
    c2 = sealed2 p laws q1 ss2

    abbrev q2 : Noise
    q2 = mixed p laws c2 (sent2 p laws q1 ss2)

    abbrev j2 : Noise
    j2 =
        mixed p laws c2
          (keyed p laws set_temp_k2 ss2 (mixed p laws r0.epk (record j1 { repk = r0.epk })))

    abbrev c3 : List ℕ
    c3 = sealed3 p laws j2 ss3

    abbrev t3 : List ℕ
    t3 = tag3 p laws j2 ss3

    abbrev j3 : Noise
    j3 =
        let keys = okm p laws [] (sent3 p laws j2 ss3).ck in
        with_keys p laws (drop 32 keys) (take 32 keys) (sent3 p laws j2 ss3)

    abbrev q3 : Noise
    q3 =
        let u = keyed p laws set_temp_k3 ss3 (record (mixed p laws c3 q2) { rpk = i0.lpk }) in
        let keys = okm p laws [] u.ck in with_keys p laws (take 32 keys) (drop 32 keys) u

    act1_sent : initiator_act1 p r0.lpk i0 ≡ ok (0 ∷ (i0.epk ++ c1)) j1
    unfolding noise_state initialize
    act1_sent = initiator_act1-ok p laws r0.lpk ss1 i0 (laws.ecdh-public_key lr ei)

    act1_read : receive_act1 p (0 ∷ (i0.epk ++ c1)) r0 ≡ ok tt q1
    unfolding receive_act1 noise_state initialize
    act1_read =
        let size : length (i0.epk ++ c1) ≡ 49 = omega (
          arith,
          length-append i0.epk c1,
          laws.length-public_key ei,
          length-ccp_encrypt p laws (sent1 p laws j0 ss1).temp_k1 zero_nonce (sent1 p laws j0 ss1).h
              [],
        ) in
        rw size (
          read_act-ok p laws set_temp_k1 (λ t. t.temp_k1) i0.epk c1 lr ss1 (initialize p r0.lpk r0)
            (laws.length-public_key ei) (other ei lr) refl)

    act2_sent : receive_act2 p q1 ≡ ok (0 ∷ (r0.epk ++ c2)) q2
    unfolding noise_state initialize
    act2_sent = receive_act2-ok p laws ss2 q1 (laws.ecdh-public_key ei er)

    act2_read : initiator_act2 p (0 ∷ (r0.epk ++ c2)) j1 ≡ ok tt j2
    unfolding initiator_act2 noise_state initialize
    act2_read =
        let size : length (r0.epk ++ c2) ≡ 49 = omega (
          arith,
          length-append r0.epk c2,
          laws.length-public_key er,
          length-ccp_encrypt p laws (sent2 p laws q1 ss2).temp_k2 zero_nonce (sent2 p laws q1 ss2).h
              [],
        ) in
        rw size (
          read_act-ok p laws set_temp_k2 (λ t. t.temp_k2) r0.epk c2 ei ss2 j1
            (laws.length-public_key er) (other er ei) refl)

    act3_sent : initiator_act3 p j2 ≡ ok (0 ∷ (c3 ++ t3)) j3
    unfolding noise_state initialize
    act3_sent = initiator_act3-ok p laws ss3 j2 (laws.ecdh-public_key er li)

    act3_read : receive_act3 p (0 ∷ (c3 ++ t3)) q2 ≡ ok tt q3
    unfolding receive_act3 noise_state initialize
    act3_read =
        let n : length c3 ≡ 49 = omega (
          arith,
          laws.length-public_key li,
          length-ccp_encrypt p laws j2.temp_k2 one_nonce j2.h i0.lpk,
        ) in
        let size : length (c3 ++ t3) ≡ 65 = omega (
          arith,
          length-append c3 t3,
          length-ccp_encrypt p laws (sent3 p laws j2 ss3).temp_k3 zero_nonce (sent3 p laws j2 ss3).h
              [],
        ) in
        rw (size, take-append_eq 49 c3 t3 (sym n), drop-append_eq 49 c3 t3 (sym n))
          (read_act3-ok p laws i0.lpk c3 t3 ss3 q2 refl (other li er) refl)

    agreement : Agree j3 q3
    unfolding noise_state initialize
    agreement = record {
      forth = refl;
      back = refl;
      chaining = refl;
      sends = (refl, refl);
      receives = (refl, refl);
      knows = (refl, refl);
    }

  -- Where the stream cipher undoes itself, digests and keys have their lengths and both sides of
  -- a key exchange reach the same secret, the three acts of a handshake between two parties with
  -- whatever keys succeed, and leave them with each the other's receiving key for sending, one
  -- chaining key, and all nonces at zero.
  pub handshake-Agree :
      (li ei lr er : List ℕ)
      → (i r : Noise) × (handshake p (noise_state p li ei) (noise_state p lr er) ≡ value (i, r))
        × Agree i r
  unfolding handshake
  handshake-Agree li ei lr er = (
    j3 li ei lr er,
    q3 li ei lr er,
    rw
        (
          act1_sent li ei lr er,
          act1_read li ei lr er,
          act2_sent li ei lr er,
          act2_read li ei lr er,
          act3_sent li ei lr er,
          act3_read li ei lr er,
        )
        refl,
    agreement li ei lr er,
  )
