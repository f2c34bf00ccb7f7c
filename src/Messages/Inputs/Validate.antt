-- ===== src/Messages/Inputs/Validate.antt =====
-- packages/messaging/lib/messages/FundingInput.ts: `validate`, and the locks it is made for.
use node_dlc.Prelude.{
  ℕ, zero, suc, ◌%◌, ◌<◌, ◌≤◌, ◌⊎◌, bad_key, ◌≡◌, refl, arith, Bool, true, false, ◌&&◌, ◌||◌,
  Bool-cases, inl, inr, Option, none, some, List, [], ◌∷◌, length, append-nil, leb, ◌==◌,
  if◌then◌else◌, Result, value, error, bad_type, bad_value, and_then,
}
use node_dlc.Bufio.Bytes.{be_bytes, le_bytes}
use node_dlc.Bitcoin.Script.{ScriptCmd, op_code, push_data, serialize_cmds, serialize_cmd}
use node_dlc.Bitcoin.Script.Standard.{
  Hashes, key_hash, p2pkh_lock, p2wpkh_lock, p2sh_lock, p2wsh_lock, p2tr_lock,
}
use node_dlc.Bitcoin.Tx.{TxOut}
use node_dlc.Messages.Inputs.{FundingInput}

unfoldable pub output_at : List TxOut → ℕ → Option TxOut
output_at [] n = none
output_at (x ∷ xs) zero = some x
output_at (x ∷ xs) (suc n) = output_at xs n

-- `n` bytes that begin with `a` and `b`.
unfoldable pub is_program : ℕ → ℕ → ℕ → List ℕ → Bool
is_program n a b [] = false
is_program n a b (x ∷ []) = false
is_program n a b (x ∷ y ∷ rest) = suc (suc (length rest)) == n && (x == a && y == b)

unfoldable pub is_seg_wit_output : List ℕ → Bool
is_seg_wit_output spk =
    is_program 22 0x00 0x14 spk || (is_program 34 0x00 0x20 spk || is_program 34 0x51 0x20 spk)

unfoldable pub validate_output : Option TxOut → Result (Unit {0})
validate_output none = error bad_value
validate_output (some o) =
    and_then (serialize_cmds o.script_pub_key)
      (λ spk. if is_seg_wit_output spk then value tt else error bad_type)

unfoldable pub validate_funding_input : FundingInput → Result (Unit {0})
validate_funding_input x = validate_output (output_at x.prev_tx.outputs x.prev_tx_vout)

-- Short data is pushed by its length.
push-short :
    (d : List ℕ) (n : ℕ)
    → length d ≡ n
    → (leb 1 n && leb n 75) ≡ true
    → serialize_cmd (push_data d) ≡ value (n ∷ d)
unfolding serialize_cmd be_bytes le_bytes
push-short d n e h =
    let small : n ≤ 75 = ground arith in
    let same : n % 256 ≡ n = omega arith in rw (e, h, same) refl

-- An output of any value with a lock, put to the test.
abbrev pub checked : ℕ → Result (List ScriptCmd) → Result (Unit {0})
checked amount made =
    and_then made (λ cs. validate_output (some (record { value = amount; script_pub_key = cs })))

checked_program :
    (amount a n : ℕ) (d : List ℕ)
    → a < 256
    → length d ≡ n
    → (leb 1 n && leb n 75) ≡ true
    → is_seg_wit_output (a ∷ n ∷ d) ≡ true
    → checked amount (value (op_code a ∷ push_data d ∷ [])) ≡ value tt
unfolding validate_output serialize_cmds serialize_cmd be_bytes le_bytes
checked_program amount a n d small e h good =
    let same : a % 256 ≡ a = omega arith in
    rw (push-short d n e h, same) (rw (append-nil d, good) refl)

program_20 : (d : List ℕ) → length d ≡ 20 → is_seg_wit_output (0x00 ∷ 20 ∷ d) ≡ true
unfolding is_seg_wit_output is_program
program_20 d e = rw e refl

program_32 : (d : List ℕ) → length d ≡ 32 → is_seg_wit_output (0x00 ∷ 32 ∷ d) ≡ true
unfolding is_seg_wit_output is_program
program_32 d e = rw e refl

program_tr : (d : List ℕ) → length d ≡ 32 → is_seg_wit_output (0x51 ∷ 32 ∷ d) ≡ true
unfolding is_seg_wit_output is_program
program_tr d e = rw e refl

-- A first byte that no program has.
no_program :
    (x : ℕ) (rest : List ℕ)
    → (x == 0x00) ≡ false
    → (x == 0x51) ≡ false
    → is_seg_wit_output (x ∷ rest) ≡ false
unfolding is_seg_wit_output is_program
no_program x [] f g = refl
no_program x (y ∷ rest) f g = rw (f, g) (ground arith)

checked-p2wsh_lock :
    (amount : ℕ) (h : List ℕ)
    → checked amount (p2wsh_lock h) ≡ and_then (p2wsh_lock h) (λ _. value tt)
unfolding p2wsh_lock
checked-p2wsh_lock amount h = elim (Bool-cases (length h == 32)) [
  | inl e ↦
      let n : length h ≡ 32 = ground arith in
      rw e (checked_program amount 0x00 32 h (omega arith) n refl (program_32 h n))
  | inr e ↦ rw e refl
]

checked-p2tr_lock :
    (amount : ℕ) (h : List ℕ)
    → checked amount (p2tr_lock h) ≡ and_then (p2tr_lock h) (λ _. value tt)
unfolding p2tr_lock
checked-p2tr_lock amount h = elim (Bool-cases (length h == 32)) [
  | inl e ↦
      let n : length h ≡ 32 = ground arith in
      rw e (checked_program amount 0x51 32 h (omega arith) n refl (program_tr h n))
  | inr e ↦ rw e refl
]

checked-p2sh_lock :
    (amount : ℕ) (h : List ℕ)
    → checked amount (p2sh_lock h) ≡ and_then (p2sh_lock h) (λ _. error bad_type)
unfolding p2sh_lock validate_output serialize_cmds serialize_cmd be_bytes le_bytes
checked-p2sh_lock amount h = elim (Bool-cases (length h == 20)) [
  | inl e ↦
      let n : length h ≡ 20 = ground arith in
      rw e (rw (push-short h 20 n refl) (rw (no_program 0xa9 _ refl refl) refl))
  | inr e ↦ rw e refl
]

module _ (k : Hashes) (size : (v : List ℕ) → length (k.hash160 v) ≡ 20) where
  -- A hash of 20 bytes comes out, or the error of an invalid key.
  key_hash-cases :
      (v : List ℕ)
      → ((h : List ℕ) × (key_hash k v ≡ value h) × (length h ≡ 20)) ⊎ (key_hash k v ≡ error bad_key)
  unfolding key_hash
  key_hash-cases v = elim (Bool-cases (length v == 20)) [
    | inl e ↦ inl (v, rw e refl, ground arith)
    | inr e ↦ elim (Bool-cases (k.valid_public_key v)) [
      | inl g ↦ inl (k.hash160 v, rw (e, g) refl, size v)
      | inr g ↦ inr (rw (e, g) refl)
    ]
  ]

  checked-p2wpkh_lock :
      (amount : ℕ) (v : List ℕ)
      → checked amount (p2wpkh_lock k v) ≡ and_then (p2wpkh_lock k v) (λ _. value tt)
  unfolding p2wpkh_lock
  checked-p2wpkh_lock amount v = elim (key_hash-cases v) [
    | inl (h, e, n) ↦ rw e (checked_program amount 0x00 20 h (omega arith) n refl (program_20 h n))
    | inr e ↦ rw e refl
  ]

  checked-p2pkh_lock :
      (amount : ℕ) (v : List ℕ)
      → checked amount (p2pkh_lock k v) ≡ and_then (p2pkh_lock k v) (λ _. error bad_type)
  unfolding p2pkh_lock validate_output serialize_cmds serialize_cmd be_bytes le_bytes
  checked-p2pkh_lock amount v = elim (key_hash-cases v) [
    | inl (h, e, n) ↦ rw e (rw (push-short h 20 n refl) (rw (no_program 0x76 _ refl refl) refl))
    | inr e ↦ rw e refl
  ]

  -- Where a key hash has 20 bytes, validate of a funding input accepts an output of any amount
  -- whose lock p2wpkhLock, p2wshLock or p2trLock makes, and refuses it where p2pkhLock or
  -- p2shLock makes it, of whatever bytes; where they make none, their error is the outcome.
  pub validate_output-locks :
      (amount : ℕ) (v : List ℕ)
      → (checked amount (p2wpkh_lock k v) ≡ and_then (p2wpkh_lock k v) (λ _. value tt))
        × (checked amount (p2wsh_lock v) ≡ and_then (p2wsh_lock v) (λ _. value tt))
        × (checked amount (p2tr_lock v) ≡ and_then (p2tr_lock v) (λ _. value tt))
        × (checked amount (p2pkh_lock k v) ≡ and_then (p2pkh_lock k v) (λ _. error bad_type))
        × (checked amount (p2sh_lock v) ≡ and_then (p2sh_lock v) (λ _. error bad_type))
  validate_output-locks amount v = (
    checked-p2wpkh_lock amount v,
    checked-p2wsh_lock amount v,
    checked-p2tr_lock amount v,
    checked-p2pkh_lock amount v,
    checked-p2sh_lock amount v,
  )
