-- ===== src/Noise/Acts.antt =====
-- What each act of packages/noise/lib/noise-state.ts leaves, where the message is the other party's.
use node_dlc.Prelude.{
  ℕ, ◌≡◌, refl, sym, ◌∙◌, some, List, [], ◌∷◌, ◌++◌, length, take, drop, take-append_eq,
  drop-append_eq, ok, >>=-ok, >>-ok,
}
use node_dlc.Noise.Crypto.{Primitives, Laws, ccp_encrypt, okm, hkdf_64, ccp_decrypt-ccp_encrypt}
use node_dlc.Noise.State.{
  Noise, Cmd, initialize, mix_hash, mix_key, set_temp_k1, set_temp_k2, set_temp_k3, seal, unseal,
  read_act, initiator_act1, initiator_act3, receive_act2, read_act3, set_rpk, split_keys, set_keys,
  last_tag, check_tag, zero_nonce, one_nonce,
}

module _ (p : Primitives) (laws : Laws p) where
  -- The states after the steps.
  abbrev pub mixed : List ℕ → Noise → Noise
  mixed x s = record s { h = p.sha256 (s.h ++ x) }

  abbrev pub keyed : (List ℕ → Noise → Noise) → List ℕ → Noise → Noise
  keyed store ss s =
      store (drop 32 (okm p laws ss s.ck)) (record s { ck = take 32 (okm p laws ss s.ck) })

  pub mix_key-keyed :
      (key secret ss : List ℕ) (store : List ℕ → Noise → Noise) (s : Noise)
      → p.ecdh key secret ≡ some ss
      → mix_key p key secret store s ≡ ok tt (keyed store ss s)
  unfolding mix_key
  mix_key-keyed key secret ss store s e = rw (e, hkdf_64 p laws ss s.ck) refl

  -- What was sealed under the same key and hash.
  pub unseal-seal :
      (k n text c : List ℕ) (s : Noise)
      → c ≡ ccp_encrypt p k n s.h text
      → unseal p k n c s ≡ ok (some text) (mixed c s)
  unfolding unseal mix_hash
  unseal-seal k n text c s e = rw (e, ccp_decrypt-ccp_encrypt p laws k n s.h text) refl

  pub read_act-ok :
      (store : List ℕ → Noise → Noise) (temp : Noise → List ℕ) (re c secret ss : List ℕ) (s : Noise)
      → length re ≡ 33
      → p.ecdh re secret ≡ some ss
      → c
        ≡ ccp_encrypt p
            (temp (keyed store ss (mixed re (record s { repk = re }))))
            zero_nonce
            (keyed store ss (mixed re (record s { repk = re }))).h
            []
      → read_act p store temp (0 ∷ (re ++ c)) secret s
        ≡ ok tt (mixed c (keyed store ss (mixed re (record s { repk = re }))))
  unfolding read_act mix_hash
  read_act-ok store temp re c secret ss s n e g =
      rw (take-append_eq 33 re c (sym n), drop-append_eq 33 re c (sym n))
        (>>-ok (mix_key p re secret store) _ (mix_key-keyed re secret ss store _ e)
          ∙ >>-ok (λ t. unseal p (temp t) zero_nonce c t) _ (unseal-seal _ zero_nonce [] c _ g))

  module _ (s : Noise) (ss : List ℕ) where
    -- The states after the acts, and what they send.
    abbrev pub sent1 : Noise
    sent1 = keyed set_temp_k1 ss (mixed s.epk s)

    abbrev pub sealed1 : List ℕ
    sealed1 = ccp_encrypt p sent1.temp_k1 zero_nonce sent1.h []

    abbrev pub sent2 : Noise
    sent2 = keyed set_temp_k2 ss (mixed s.epk s)

    abbrev pub sealed2 : List ℕ
    sealed2 = ccp_encrypt p sent2.temp_k2 zero_nonce sent2.h []

  pub initiator_act1-ok :
      (rpk ss : List ℕ) (i : Noise)
      → let s = initialize p rpk (record i { rpk = rpk }) in
        p.ecdh rpk i.es ≡ some ss
        → initiator_act1 p rpk i
          ≡ ok (0 ∷ (i.epk ++ sealed1 s ss)) (mixed (sealed1 s ss) (sent1 s ss))
  unfolding initiator_act1 mix_hash seal initialize
  initiator_act1-ok rpk ss i e =
      >>-ok (mix_key p rpk i.es set_temp_k1) _ (mix_key-keyed rpk i.es ss set_temp_k1 _ e)

  pub receive_act2-ok :
      (ss : List ℕ) (r : Noise)
      → p.ecdh r.repk r.es ≡ some ss
      → receive_act2 p r ≡ ok (0 ∷ (r.epk ++ sealed2 r ss)) (mixed (sealed2 r ss) (sent2 r ss))
  unfolding receive_act2 mix_hash seal
  receive_act2-ok ss r e =
      >>-ok (mix_key p r.repk r.es set_temp_k2) _ (mix_key-keyed r.repk r.es ss set_temp_k2 _ e)

  abbrev pub with_keys : List ℕ → List ℕ → Noise → Noise
  with_keys rk sk s = record s { rk = rk; sk = sk; rn = zero_nonce; sn = zero_nonce }

  module _ (i : Noise) (ss : List ℕ) where
    abbrev pub sealed3 : List ℕ
    sealed3 = ccp_encrypt p i.temp_k2 one_nonce i.h i.lpk

    abbrev pub sent3 : Noise
    sent3 = keyed set_temp_k3 ss (mixed sealed3 i)

    abbrev pub tag3 : List ℕ
    tag3 = ccp_encrypt p sent3.temp_k3 zero_nonce sent3.h []

  pub split_keys-ok :
      (pick : List ℕ → Cmd (Unit {0})) (s : Noise)
      → split_keys p pick s ≡ pick (okm p laws [] s.ck) s
  unfolding split_keys
  split_keys-ok pick s = rw (hkdf_64 p laws [] s.ck) refl

  pub check_tag-ok :
      (t : List ℕ) (s : Noise)
      → t ≡ ccp_encrypt p s.temp_k3 zero_nonce s.h []
      → check_tag p t s ≡ ok tt s
  unfolding check_tag
  check_tag-ok t s e = rw (e, ccp_decrypt-ccp_encrypt p laws s.temp_k3 zero_nonce s.h []) refl

  pub initiator_act3-ok :
      (ss : List ℕ) (i : Noise)
      → p.ecdh i.repk i.ls ≡ some ss
      → let keys = okm p laws [] (sent3 i ss).ck in
        initiator_act3 p i
        ≡ ok
            (0 ∷ (sealed3 i ss ++ tag3 i ss))
            (with_keys (drop 32 keys) (take 32 keys) (sent3 i ss))
  unfolding initiator_act3 mix_hash seal last_tag set_keys
  initiator_act3-ok ss i e =
      >>-ok (mix_key p i.repk i.ls set_temp_k3) _ (mix_key-keyed i.repk i.ls ss set_temp_k3 _ e)
      ∙ >>-ok (split_keys p (λ keys. set_keys p (drop 32 keys) (take 32 keys))) _
          (split_keys-ok (λ keys. set_keys p (drop 32 keys) (take 32 keys)) (sent3 i ss))

  pub read_act3-ok :
      (rs c t ss : List ℕ) (r : Noise)
      → c ≡ ccp_encrypt p r.temp_k2 one_nonce r.h rs
      → p.ecdh rs r.es ≡ some ss
      → let u = keyed set_temp_k3 ss (record (mixed c r) { rpk = rs }) in
        t ≡ ccp_encrypt p u.temp_k3 zero_nonce u.h []
        → let keys = okm p laws [] u.ck in
          read_act3 p c t r ≡ ok tt (with_keys (take 32 keys) (drop 32 keys) u)
  unfolding read_act3 set_rpk set_keys
  read_act3-ok rs c t ss r g e g' =
      >>=-ok (unseal p r.temp_k2 one_nonce c) _ (unseal-seal r.temp_k2 one_nonce rs c r g)
      ∙ >>-ok (mix_key p rs r.es set_temp_k3) _ (mix_key-keyed rs r.es ss set_temp_k3 _ e)
      ∙ >>-ok (check_tag p t) _
          (check_tag-ok t (keyed set_temp_k3 ss (record (mixed c r) { rpk = rs })) g')
      ∙ split_keys-ok (λ keys. set_keys p (take 32 keys) (drop 32 keys))
          (keyed set_temp_k3 ss (record (mixed c r) { rpk = rs }))
