-- ===== src/Noise/Cipher.antt =====
-- packages/noise/lib/noise-state.ts: messages, nonces and key rotation, after the handshake.
use node_dlc.Prelude.{
  ℕ, ◌+◌, Option, List, [], ◌++◌, length, take, drop, ltb, leb, if◌then◌else◌, ok, err,
  null_pointer, out_of_range, ◌>>=◌, ◌>>◌, pure, throw, lift,
}
use node_dlc.Bufio.Bytes.{be_bytes, be_value, le_bytes, le_value}
use node_dlc.Noise.Crypto.{Primitives, ccp_encrypt, ccp_decrypt, hkdf}
use node_dlc.Noise.State.{Cmd, present, zero_nonce}

-- `readUInt16LE(4)`, and `writeUInt16LE(value, 4)`, which refuses a value of more than 16 bits.
unfoldable pub counter : List ℕ → ℕ
counter nonce = le_value (take 2 (drop 4 nonce))

unfoldable pub with_counter : ℕ → List ℕ → List ℕ
with_counter n nonce = take 4 nonce ++ (le_bytes 2 n ++ drop 6 nonce)

module _ (p : Primitives) where
  unfoldable pub increment_sending_nonce : Cmd ℕ
  increment_sending_nonce s =
      let new = counter s.sn + 1 in
      if ltb new 0x1_0000
      then ok new (record s { sn = with_counter new s.sn })
      else err out_of_range s

  unfoldable pub increment_receiving_nonce : Cmd ℕ
  increment_receiving_nonce s =
      let new = counter s.rn + 1 in
      if ltb new 0x1_0000
      then ok new (record s { rn = with_counter new s.rn })
      else err out_of_range s

  unfoldable pub rotate_sending_keys : Cmd (Unit {0})
  rotate_sending_keys s =
      (do
        keys ← lift (hkdf p s.sk 64 s.ck)
        λ t. ok tt (record t { sk = drop 32 keys; ck = take 32 keys; sn = zero_nonce }))
        s

  unfoldable pub rotate_receiving_keys : Cmd (Unit {0})
  rotate_receiving_keys s =
      (do
        keys ← lift (hkdf p s.rk 64 s.ck)
        λ t. ok tt (record t { rk = drop 32 keys; ck = take 32 keys; rn = zero_nonce }))
        s

  -- `if (increment() >= 1000) rotate()`.
  unfoldable pub step_sending : Cmd (Unit {0})
  step_sending = do n ← increment_sending_nonce; if leb 1000 n then rotate_sending_keys else pure tt

  unfoldable pub step_receiving : Cmd (Unit {0})
  step_receiving = do
    n ← increment_receiving_nonce
    if leb 1000 n then rotate_receiving_keys else pure tt

  unfoldable pub send_part : List ℕ → Cmd (List ℕ)
  send_part text s = let c = ccp_encrypt p s.sk s.sn [] text in (do step_sending; pure c) s

  unfoldable pub receive_part : List ℕ → Cmd (Option (List ℕ))
  receive_part c s = (do text ← lift (ccp_decrypt p s.rk s.rn [] c); step_receiving; pure text) s

  -- `writeUInt16BE` refuses a length of more than 16 bits.
  unfoldable pub encrypt_message : List ℕ → Cmd (List ℕ)
  encrypt_message m =
      if ltb (length m) 0x1_0000
      then (do lc ← send_part (be_bytes 2 (length m)); c ← send_part m; pure (lc ++ c))
      else throw out_of_range

  -- `readUInt16BE(0)`, which needs two bytes.
  unfoldable pub read_length : List ℕ → Cmd ℕ
  read_length l = if ltb (length l) 2 then throw out_of_range else pure (be_value (take 2 l))

  unfoldable pub decrypt_length : List ℕ → Cmd ℕ
  decrypt_length lc = do found ← receive_part lc; l ← present null_pointer found; read_length l

  unfoldable pub decrypt_message : List ℕ → Cmd (Option (List ℕ))
  decrypt_message c = receive_part c
