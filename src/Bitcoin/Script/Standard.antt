-- ===== src/Bitcoin/Script/Standard.antt =====
-- packages/bitcoin/lib/Script.ts: the makers of standard locking scripts, for one key or hash.
use node_dlc.Prelude.{
  ℕ, Bool, List, [], ◌∷◌, length, ◌==◌, if◌then◌else◌, Result, value, error, bad_key, bad_length,
  and_then,
}
use node_dlc.Bitcoin.Script.{ScriptCmd, op_code, push_data, serialize_cmds}

-- What the makers use of packages/crypto, which calls native libraries.
pub record Hashes : Type 0 where
  pub valid_public_key : List ℕ → Bool
  pub hash160 : List ℕ → List ℕ
  pub sha256 : List ℕ → List ℕ

module _ (k : Hashes) where
  -- A hash of 20 bytes, or the hash of a key that has to be valid.
  unfoldable pub key_hash : List ℕ → Result (List ℕ)
  key_hash v =
      if length v == 20
      then value v
      else if k.valid_public_key v
      then value (k.hash160 v)
      else error bad_key

  unfoldable pub p2pk_lock : List ℕ → Result (List ScriptCmd)
  p2pk_lock key =
      if k.valid_public_key key then value (push_data key ∷ op_code 0xac ∷ []) else error bad_key

  unfoldable pub p2pkh_lock : List ℕ → Result (List ScriptCmd)
  p2pkh_lock v =
      and_then (key_hash v)
        (λ h. value (op_code 0x76 ∷ op_code 0xa9 ∷ push_data h ∷ op_code 0x88 ∷ op_code 0xac ∷ []))

  unfoldable pub p2wpkh_lock : List ℕ → Result (List ScriptCmd)
  p2wpkh_lock v = and_then (key_hash v) (λ h. value (op_code 0x00 ∷ push_data h ∷ []))

unfoldable pub p2sh_lock : List ℕ → Result (List ScriptCmd)
p2sh_lock h =
    if length h == 20
    then value (op_code 0xa9 ∷ push_data h ∷ op_code 0x87 ∷ [])
    else error bad_length

unfoldable pub p2wsh_lock : List ℕ → Result (List ScriptCmd)
p2wsh_lock h = if length h == 32 then value (op_code 0x00 ∷ push_data h ∷ []) else error bad_length

-- The lock on a script, by its hash.
unfoldable pub p2wsh_lock_script : Hashes → List ScriptCmd → Result (List ScriptCmd)
p2wsh_lock_script k script = and_then (serialize_cmds script) (λ bytes. p2wsh_lock (k.sha256 bytes))

unfoldable pub p2sh_lock_script : Hashes → List ScriptCmd → Result (List ScriptCmd)
p2sh_lock_script k script = and_then (serialize_cmds script) (λ bytes. p2sh_lock (k.hash160 bytes))

unfoldable pub p2tr_lock : List ℕ → Result (List ScriptCmd)
p2tr_lock key =
    if length key == 32 then value (op_code 0x51 ∷ push_data key ∷ []) else error bad_length
