-- ===== src/Bitcoin/Tx/Weight.antt =====
-- packages/bitcoin/lib/Tx.ts: the sizes of a transaction, counted without writing it.
use node_dlc.Prelude.{
  ℕ, ◌+◌, ◌*◌, ◌/◌, ◌^◌, Bool, List, [], ◌∷◌, length, ltb, if◌then◌else◌, out_of_range, Result,
  value, error, and_then,
}
use node_dlc.Bitcoin.Script.{ScriptCmd, serialize_cmds}
use node_dlc.Bitcoin.Tx.{TxIn, TxOut, Tx, is_seg_wit}

pub record SizeResult : Type 0 where
  pub size : ℕ
  pub vsize : ℕ
  pub weight : ℕ

-- packages/bufio/lib/varIntBytes.ts.
unfoldable pub var_int_bytes : ℕ → Result ℕ
var_int_bytes val =
    if ltb val 0xfd
    then value 1
    else if ltb val 0x1_0000
    then value 3
    else if ltb val 0x1_0000_0000
    then value 5
    else if ltb val (2 ^ 64)
    then value 9
    else error out_of_range

-- A script's length and bytes.
unfoldable pub script_size : List ScriptCmd → Result ℕ
script_size cmds =
    and_then (serialize_cmds cmds)
      (λ buf. and_then (var_int_bytes (length buf)) (λ n. value (n + length buf)))

unfoldable pub input_size : TxIn → Result ℕ
input_size x = and_then (script_size x.script_sig) (λ n. value (32 + 4 + n + 4))

unfoldable pub output_size : TxOut → Result ℕ
output_size x = and_then (script_size x.script_pub_key) (λ n. value (8 + n))

unfoldable pub item_size : List ℕ → Result ℕ
item_size d = and_then (var_int_bytes (length d)) (λ n. value (n + length d))

unfoldable pub sum_sizes : {A : Type 0} → (A → Result ℕ) → List A → Result ℕ
sum_sizes f [] = value 0
sum_sizes f (x ∷ xs) = and_then (f x) (λ n. and_then (sum_sizes f xs) (λ m. value (n + m)))

unfoldable pub stack_size : TxIn → Result ℕ
stack_size x =
    and_then (var_int_bytes (length x.witness))
      (λ n. and_then (sum_sizes item_size x.witness) (λ m. value (n + m)))

-- The standard bytes and the witness bytes that the loop over the inputs adds.
unfoldable pub input_sizes : Bool → List TxIn → Result (ℕ × ℕ)
input_sizes seg [] = value (0, 0)
input_sizes seg (x ∷ xs) = and_then (input_size x) (λ n.
    and_then (if seg then stack_size x else value 0)
      (λ w. and_then (input_sizes seg xs) (λ (ns, ws). value (n + ns, w + ws))))

unfoldable pub calc_size : Tx → Result SizeResult
calc_size t = and_then (var_int_bytes (length t.inputs)) (λ count.
    and_then (input_sizes (is_seg_wit t) t.inputs) (λ (ins, wits).
      and_then (var_int_bytes (length t.outputs)) (λ out_count.
        and_then (sum_sizes output_size t.outputs) (λ outs.
          let standard_bytes = 4 + count + ins + out_count + outs + 4 in
          let witness_bytes = (if is_seg_wit t then 2 else 0) + wits in
          let weight = standard_bytes * 4 + witness_bytes in
          value (record {
            size = standard_bytes + witness_bytes;
            vsize = (weight + 3) / 4;
            weight = weight;
          })))))
