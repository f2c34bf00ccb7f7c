-- ===== src/Noise/State.antt =====
-- packages/noise/lib/noise-state.ts. A field is the empty list until an act has set it: each act
-- reads what the constructor or an earlier act of the protocol set. The logger is left out.
use node_dlc.Prelude.{
  ℕ, Option, none, some, List, [], ◌∷◌, ◌++◌, length, take, drop, replicate, ◌==◌, if◌then◌else◌,
  Outcome, ok, err, Error, read_failed, bad_version, bad_key, null_pointer, ◌>>=◌, ◌>>◌, pure,
  throw, lift,
}
use node_dlc.Noise.Crypto.{Primitives, ccp_encrypt, ccp_decrypt, hkdf}

pub record Noise : Type 0 where
  pub ls : List ℕ
  pub lpk : List ℕ
  pub es : List ℕ
  pub epk : List ℕ
  pub rpk : List ℕ
  pub repk : List ℕ
  pub h : List ℕ
  pub ck : List ℕ
  pub rk : List ℕ
  pub sk : List ℕ
  pub sn : List ℕ
  pub rn : List ℕ
  pub temp_k1 : List ℕ
  pub temp_k2 : List ℕ
  pub temp_k3 : List ℕ

abbrev pub Cmd : Type 0 → Type 0
Cmd A = Noise → Outcome Noise A

-- 'Noise_XK_secp256k1_ChaChaPoly_SHA256' and 'lightning'.
abbrev pub protocol_name : List ℕ
protocol_name =
    78 ∷ 111 ∷ 105 ∷ 115 ∷ 101 ∷ 95 ∷ 88 ∷ 75 ∷ 95 ∷ 115 ∷ 101 ∷ 99 ∷ 112 ∷ 50 ∷ 53 ∷ 54 ∷ 107 ∷ 49
    ∷ 95 ∷ 67 ∷ 104 ∷ 97 ∷ 67 ∷ 104 ∷ 97 ∷ 80 ∷ 111 ∷ 108 ∷ 121 ∷ 95 ∷ 83 ∷ 72 ∷ 65 ∷ 50 ∷ 53 ∷ 54
    ∷ []

abbrev pub prologue : List ℕ
prologue = 108 ∷ 105 ∷ 103 ∷ 104 ∷ 116 ∷ 110 ∷ 105 ∷ 110 ∷ 103 ∷ []

abbrev pub zero_nonce : List ℕ
zero_nonce = replicate 12 0

-- The nonce of the third act.
abbrev pub one_nonce : List ℕ
one_nonce = 0 ∷ 0 ∷ 0 ∷ 0 ∷ 1 ∷ 0 ∷ 0 ∷ 0 ∷ 0 ∷ 0 ∷ 0 ∷ 0 ∷ []

-- The version byte and what is behind it: `m.slice(0, 1)[0]`.
abbrev pub version_of : List ℕ → ℕ
version_of [] = 0
version_of (v ∷ rest) = v

-- What a call that may have no value gives to a caller that uses it.
abbrev pub present : {A : Type 0} → Error → Option A → Cmd A
present e none = throw e
present e (some a) = pure a

abbrev pub set_temp_k1 : List ℕ → Noise → Noise
set_temp_k1 k s = record s { temp_k1 = k }

abbrev pub set_temp_k2 : List ℕ → Noise → Noise
set_temp_k2 k s = record s { temp_k2 = k }

abbrev pub set_temp_k3 : List ℕ → Noise → Noise
set_temp_k3 k s = record s { temp_k3 = k }

module _ (p : Primitives) where
  -- The private keys are such that the library finds their public keys.
  unfoldable pub noise_state : List ℕ → List ℕ → Noise
  noise_state ls es = record {
    ls = ls;
    lpk = p.public_key ls;
    es = es;
    epk = p.public_key es;
    rpk = [];
    repk = [];
    h = [];
    ck = [];
    rk = [];
    sk = [];
    sn = [];
    rn = [];
    temp_k1 = [];
    temp_k2 = [];
    temp_k3 = [];
  }

  unfoldable pub initialize : List ℕ → Noise → Noise
  initialize pubkey s =
      let h = p.sha256 protocol_name in
      record s { ck = h; h = p.sha256 (p.sha256 (h ++ prologue) ++ pubkey) }

  -- `h = SHA-256(h || x)`.
  unfoldable pub mix_hash : List ℕ → Cmd (Unit {0})
  mix_hash x s = ok tt (record s { h = p.sha256 (s.h ++ x) })

  -- `ck, temp_k = HKDF(ck, ECDH(key, secret))`, with the temporary key stored by the act.
  unfoldable pub mix_key : List ℕ → List ℕ → (List ℕ → Noise → Noise) → Cmd (Unit {0})
  mix_key key secret store s =
      (do
        ss ← present bad_key (p.ecdh key secret)
        keys ← lift (hkdf p ss 64 s.ck)
        λ t. ok tt (store (drop 32 keys) (record t { ck = take 32 keys })))
        s

  -- Encrypts `text` with the hash as associated data, and mixes the result into the hash.
  unfoldable pub seal : List ℕ → List ℕ → List ℕ → Cmd (List ℕ)
  seal k n text s = let c = ccp_encrypt p k n s.h text in (do mix_hash c; pure c) s

  -- Decrypts, then mixes what was received into the hash.
  unfoldable pub unseal : List ℕ → List ℕ → List ℕ → Cmd (Option (List ℕ))
  unseal k n c s = (do text ← lift (ccp_decrypt p k n s.h c); mix_hash c; pure text) s

  unfoldable pub initiator_act1 : List ℕ → Cmd (List ℕ)
  initiator_act1 rpk start =
      let s = initialize rpk (record start { rpk = rpk }) in
      (do
        mix_hash s.epk
        mix_key rpk s.es set_temp_k1
        c ← (λ t. seal t.temp_k1 zero_nonce [] t)
        pure (0 ∷ (s.epk ++ c)))
        s

  -- The steps that both readers of 50 bytes share, after the length is checked.
  unfoldable pub read_act :
      (List ℕ → Noise → Noise) → (Noise → List ℕ) → List ℕ → List ℕ → Cmd (Unit {0})
  read_act store temp m secret s =
      let re = take 33 (drop 1 m) in
      let c = drop 34 m in
      (if version_of m == 0
          then (do
            mix_hash re
            mix_key re secret store
            (λ t. unseal (temp t) zero_nonce c t)
            pure tt)
          else throw bad_version)
        (record s { repk = re })

  unfoldable pub initiator_act2 : List ℕ → Cmd (Unit {0})
  initiator_act2 m s =
      if length m == 50 then read_act set_temp_k2 (λ t. t.temp_k2) m s.es s else err read_failed s

  -- `hkdf(ck, zero)`, handed to the part that picks the keys.
  unfoldable pub split_keys : (List ℕ → Cmd (Unit {0})) → Cmd (Unit {0})
  split_keys pick s = (do keys ← lift (hkdf p [] 64 s.ck); pick keys) s

  unfoldable pub set_keys : List ℕ → List ℕ → Cmd (Unit {0})
  set_keys rk sk s = ok tt (record s { rk = rk; sk = sk; rn = zero_nonce; sn = zero_nonce })

  -- The last tag, which is not mixed into the hash.
  unfoldable pub last_tag : Cmd (List ℕ)
  last_tag s = ok (ccp_encrypt p s.temp_k3 zero_nonce s.h []) s

  unfoldable pub check_tag : List ℕ → Cmd (Unit {0})
  check_tag t s = (do lift (ccp_decrypt p s.temp_k3 zero_nonce s.h t); pure tt) s

  unfoldable pub initiator_act3 : Cmd (List ℕ)
  initiator_act3 s =
      (do
        c ← seal s.temp_k2 one_nonce s.lpk
        mix_key s.repk s.ls set_temp_k3
        t ← last_tag
        split_keys (λ keys. set_keys (drop 32 keys) (take 32 keys))
        pure (0 ∷ (c ++ t)))
        s

  unfoldable pub receive_act1 : List ℕ → Cmd (Unit {0})
  receive_act1 m start =
      let s = initialize start.lpk start in
      if length m == 50 then read_act set_temp_k1 (λ t. t.temp_k1) m s.ls s else err read_failed s

  unfoldable pub receive_act2 : Cmd (List ℕ)
  receive_act2 s =
      (do
        mix_hash s.epk
        mix_key s.repk s.es set_temp_k2
        c ← (λ t. seal t.temp_k2 zero_nonce [] t)
        pure (0 ∷ (s.epk ++ c)))
        s

  unfoldable pub set_rpk : List ℕ → Cmd (Unit {0})
  set_rpk rs s = ok tt (record s { rpk = rs })

  unfoldable pub read_act3 : List ℕ → List ℕ → Cmd (Unit {0})
  read_act3 c t s =
      (do
        found ← unseal s.temp_k2 one_nonce c
        rs ← present null_pointer found
        set_rpk rs
        mix_key rs s.es set_temp_k3
        check_tag t
        split_keys (λ keys. set_keys (take 32 keys) (drop 32 keys)))
        s

  unfoldable pub receive_act3 : List ℕ → Cmd (Unit {0})
  receive_act3 m s =
      if length m == 66
      then (if version_of m == 0
          then read_act3 (take 49 (drop 1 m)) (drop 50 m) s
          else err bad_version s)
      else err read_failed s
