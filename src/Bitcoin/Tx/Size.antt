-- ===== src/Bitcoin/Tx/Size.antt =====
-- The sizes that are computed for a transaction against the bytes that are written for it.
use node_dlc.Prelude.{
  ℕ, inl, inr, ◌+◌, ◌*◌, ◌/◌, ◌^◌, ◌≤◌, ◌<◌, ◌≡◌, refl, sym, ap, arith, Bool, true, false, List, [],
  ◌∷◌, ◌++◌, length, All, length-append, Bool-cases, ltb, if◌then◌else◌, Result, value,
}
use node_dlc.Bufio.Bytes.{be_bytes, le_bytes, length-be_bytes, length-le_bytes}
use node_dlc.Bufio.Writer.Expand.{max_size}
use node_dlc.Bufio.Writer.Appends.{each_bytes}
use node_dlc.Bufio.Writer.Numbers.{var_int}
use node_dlc.Bitcoin.Script.{ScriptCmd}
use node_dlc.Bitcoin.Script.RoundTrip.{IsScript, script_bytes, framed_script, serialize_cmds-bytes}
use node_dlc.Bitcoin.Tx.{TxIn, TxOut, Tx, is_seg_wit, serialize_tx, serialize_legacy}
use node_dlc.Bitcoin.Tx.Weight.{
  SizeResult, var_int_bytes, script_size, input_size, output_size, item_size, sum_sizes, stack_size,
  input_sizes, calc_size,
}
use node_dlc.Bitcoin.Tx.Format.{
  outpoint_bytes, input_bytes, output_bytes, witness_bytes, list_bytes, stack_bytes, legacy_bytes,
  seg_wit_bytes, tx_bytes, IsItem, IsTxIn, IsTxOut, IsTx, serialize_tx-bytes,
  serialize_legacy-bytes,
}

length-form : (m k : ℕ) (bs : List ℕ) → length bs ≡ k → length (be_bytes 1 m ++ bs) ≡ 1 + k
length-form m k bs h = omega (arith, length-append (be_bytes 1 m) bs, length-be_bytes 1 m, h)

var_int_bytes-var_int : (i : ℕ) → i < 2 ^ 64 → var_int_bytes i ≡ value (length (var_int i))
unfolding var_int_bytes var_int
var_int_bytes-var_int i h = elim (Bool-cases (ltb i 0xfd)) [
  | inl a ↦ rw a (ap value (sym (length-be_bytes 1 i)))
  | inr a ↦ rw a (elim (Bool-cases (ltb i 0x1_0000)) [
    | inl b ↦ rw b (ap value (sym (length-form 0xfd 2 (le_bytes 2 i) (length-le_bytes 2 i))))
    | inr b ↦ rw b (elim (Bool-cases (ltb i 0x1_0000_0000)) [
      | inl c ↦ rw c (ap value (sym (length-form 0xfe 4 (le_bytes 4 i) (length-le_bytes 4 i))))
      | inr c ↦
          let d : ltb i (2 ^ 64) ≡ true = ground arith in
          rw (c, d) (ap value (sym (length-form 0xff 8 (le_bytes 8 i) (length-le_bytes 8 i))))
    ])
  ])
]

script_size-framed :
    (cs : List ScriptCmd) → IsScript cs → script_size cs ≡ value (length (framed_script cs))
unfolding script_size
script_size-framed cs (h, k) = rw (serialize_cmds-bytes cs h) (
    rw (var_int_bytes-var_int _ k)
      (ap value (sym (length-append (var_int (length (script_bytes cs))) (script_bytes cs)))))

input_size-bytes : (x : TxIn) → IsTxIn x → input_size x ≡ value (length (input_bytes x))
unfolding input_size
input_size-bytes x v =
    let script = framed_script x.script_sig in
    let total : 32 + 4 + length script + 4 ≡ length (input_bytes x) = omega (
      arith,
      length-append (outpoint_bytes x.outpoint) (script ++ le_bytes 4 x.sequence),
      length-append x.outpoint.txid (le_bytes 4 x.outpoint.output_index),
      length-append script (le_bytes 4 x.sequence),
      length-le_bytes 4 x.sequence,
      length-le_bytes 4 x.outpoint.output_index,
      v.txid,
    ) in
    rw (script_size-framed x.script_sig v.script) (ap value total)

output_size-bytes : (x : TxOut) → IsTxOut x → output_size x ≡ value (length (output_bytes x))
unfolding output_size
output_size-bytes x v =
    let script = framed_script x.script_pub_key in
    let total : 8 + length script ≡ length (output_bytes x) =
      omega (arith, length-append (le_bytes 8 x.value) script, length-le_bytes 8 x.value) in
    rw (script_size-framed x.script_pub_key v.script) (ap value total)

item_size-bytes : (d : List ℕ) → IsItem d → item_size d ≡ value (length (witness_bytes d))
unfolding item_size
item_size-bytes d h =
    rw (var_int_bytes-var_int _ h) (ap value (sym (length-append (var_int (length d)) d)))

sum_sizes-each {κ} :
    {A : Type 0} {P : A → Type κ} (f : A → Result ℕ) (g : A → List ℕ) (xs : List A)
    → ((x : A) → P x → f x ≡ value (length (g x)))
    → All P xs
    → sum_sizes f xs ≡ value (length (each_bytes g xs))
unfolding sum_sizes
sum_sizes-each f g [] rule h = refl
sum_sizes-each f g (x ∷ xs) rule (h, hs) =
    rw (rule x h, sum_sizes-each f g xs rule hs)
      (ap value (sym (length-append (g x) (each_bytes g xs))))

stack_size-bytes : (x : TxIn) → IsTxIn x → stack_size x ≡ value (length (stack_bytes x))
unfolding stack_size
stack_size-bytes x v =
    rw
      (
        var_int_bytes-var_int _ v.count,
        sum_sizes-each item_size witness_bytes x.witness item_size-bytes v.items,
      )
      (ap value
        (sym (length-append (var_int (length x.witness)) (each_bytes witness_bytes x.witness))))

-- The bytes that only the witness format has, less the marker and the flag.
abbrev witness_part : Bool → List TxIn → ℕ
witness_part true xs = length (each_bytes stack_bytes xs)
witness_part false xs = 0

input_sizes-bytes :
    (seg : Bool) (xs : List TxIn)
    → All IsTxIn xs
    → input_sizes seg xs ≡ value (length (each_bytes input_bytes xs), witness_part seg xs)
unfolding input_sizes
input_sizes-bytes true [] h = refl
input_sizes-bytes false [] h = refl
input_sizes-bytes true (x ∷ xs) (h, hs) =
    rw (input_size-bytes x h, stack_size-bytes x h, input_sizes-bytes true xs hs)
      (rw
        (
          length-append (input_bytes x) (each_bytes input_bytes xs),
          length-append (stack_bytes x) (each_bytes stack_bytes xs),
        )
        refl)
input_sizes-bytes false (x ∷ xs) (h, hs) =
    rw (input_size-bytes x h, input_sizes-bytes false xs hs)
      (rw (length-append (input_bytes x) (each_bytes input_bytes xs)) refl)

abbrev pub sizes : ℕ → ℕ → SizeResult
sizes size weight = record { size = size; vsize = (weight + 3) / 4; weight = weight }

sizes-same : (a b c d : ℕ) → a ≡ c → b ≡ d → value (sizes a b) ≡ value (sizes c d)
sizes-same a b c d e f = rw (e, f) refl

module _ (t : Tx) where
  abbrev ins : ℕ
  ins = length (each_bytes input_bytes t.inputs)

  abbrev outs : ℕ
  outs = length (each_bytes output_bytes t.outputs)

  abbrev standard : ℕ
  standard =
      4 + length (var_int (length t.inputs)) + ins + length (var_int (length t.outputs)) + outs + 4

  length-list : (n : ℕ) (bs : List ℕ) → length (var_int n ++ bs) ≡ length (var_int n) + length bs
  length-list n bs = length-append (var_int n) bs

  length-legacy_bytes : length (legacy_bytes t) ≡ standard
  length-legacy_bytes =
      let i = list_bytes input_bytes t.inputs in
      let o = list_bytes output_bytes t.outputs in
      let l = le_bytes 4 t.locktime in
      omega (
        arith,
        length-append (le_bytes 4 t.version) (i ++ (o ++ l)),
        length-append i (o ++ l),
        length-append o l,
        length-le_bytes 4 t.version,
        length-le_bytes 4 t.locktime,
        length-list (length t.inputs) (each_bytes input_bytes t.inputs),
        length-list (length t.outputs) (each_bytes output_bytes t.outputs),
      )

  length-seg_wit_bytes :
      length (seg_wit_bytes t) ≡ standard + 2 + length (each_bytes stack_bytes t.inputs)
  length-seg_wit_bytes =
      let i = list_bytes input_bytes t.inputs in
      let o = list_bytes output_bytes t.outputs in
      let w = each_bytes stack_bytes t.inputs in
      let l = le_bytes 4 t.locktime in
      omega (
        arith,
        length-append (le_bytes 4 t.version) (0x00 ∷ 0x01 ∷ (i ++ (o ++ (w ++ l)))),
        length-append i (o ++ (w ++ l)),
        length-append o (w ++ l),
        length-append w l,
        length-le_bytes 4 t.version,
        length-le_bytes 4 t.locktime,
        length-list (length t.inputs) (each_bytes input_bytes t.inputs),
        length-list (length t.outputs) (each_bytes output_bytes t.outputs),
      )

  length-tx_bytes :
      length (tx_bytes t)
      ≡ length (legacy_bytes t)
        + ((if is_seg_wit t then 2 else 0) + witness_part (is_seg_wit t) t.inputs)
  length-tx_bytes = elim (Bool-cases (is_seg_wit t)) [
    | inl seg ↦ rw seg (omega (arith, length-seg_wit_bytes, length-legacy_bytes))
    | inr plain ↦ rw plain (omega arith)
  ]

  calc_size-bytes :
      IsTx t
      → calc_size t
        ≡ value (sizes (length (tx_bytes t)) (3 * length (legacy_bytes t) + length (tx_bytes t)))
  unfolding calc_size
  calc_size-bytes v =
      let extra = (if is_seg_wit t then 2 else 0) + witness_part (is_seg_wit t) t.inputs in
      let whole : standard + extra ≡ length (tx_bytes t) =
        omega (arith, length-tx_bytes, length-legacy_bytes) in
      let weighed : standard * 4 + extra ≡ 3 * length (legacy_bytes t) + length (tx_bytes t) =
        omega (arith, length-tx_bytes, length-legacy_bytes) in
      rw
        (
          var_int_bytes-var_int (length t.inputs) v.input_count,
          input_sizes-bytes (is_seg_wit t) t.inputs v.inputs,
          var_int_bytes-var_int (length t.outputs) v.output_count,
          sum_sizes-each output_size output_bytes t.outputs output_size-bytes v.outputs,
        )
        (sizes-same _ _ _ _ whole weighed)

  -- Of every such transaction, with inputs or without, the computed size is the number of bytes
  -- that serialize writes, and the weight is that number and three times what serializing without
  -- witnesses writes; the virtual size is a quarter of it, rounded up.
  pub calc_size-serialize_tx :
      IsTx t
      → length (tx_bytes t) ≤ max_size
      → (full legacy : List ℕ) × (serialize_tx t ≡ value full)
        × (serialize_legacy t ≡ value legacy)
        × (calc_size t ≡ value (sizes (length full) (3 * length legacy + length full)))
  calc_size-serialize_tx v size =
      let short : length (legacy_bytes t) ≤ max_size = omega (arith, length-tx_bytes) in
      (
        tx_bytes t,
        legacy_bytes t,
        serialize_tx-bytes t v size,
        serialize_legacy-bytes t v short,
        calc_size-bytes v,
      )
