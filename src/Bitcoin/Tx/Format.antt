-- ===== src/Bitcoin/Tx/Format.antt =====
-- The bytes of a transaction, and that the writers of packages/bitcoin/lib write them.
use node_dlc.Prelude.{
  ℕ, inl, inr, ◌^◌, ◌≤◌, ◌<◌, ◌≡◌, refl, sym, ap, ◌∙◌, arith, true, List, [], ◌∷◌, ◌++◌, length,
  take, replicate, All, length-append, length-take, take_all, Bool-cases, lt→ltb, if◌then◌else◌, ok,
  Result, value, ◌>>◌, >>-ok,
}
use node_dlc.Bufio.Bytes.{le_bytes, length-le_bytes}
use node_dlc.Bufio.Writer.{Writer, Write, output, over, to_buffer, write_bytes, write_u32_le}
use node_dlc.Bufio.Writer.Expand.{max_size}
use node_dlc.Bufio.Writer.Appends.{
  Appends, Appends-seq, Appends-write_bytes, Appends-each, each_bytes,
}
use node_dlc.Bufio.Writer.Numbers.{var_int, Appends-u32_le, Appends-u64_le, Appends-var_int}
use node_dlc.Bufio.Fixed.{write_bytes-fixed_fits, write_standard-fixed_fits}
use node_dlc.Bufio.RoundTrip.{Appends-output}
use node_dlc.Messages.Codec.{Appends-inner, write_inner}
use node_dlc.Bitcoin.Script.RoundTrip.{IsScript, framed_script, serialize_script-framed}
use node_dlc.Bitcoin.Tx.{
  OutPoint, TxIn, TxOut, Tx, output_over, serialize_outpoint, serialize_sequence,
  serialize_locktime, write_part, serialize_input, serialize_output, serialize_witness,
  write_inputs, write_outputs, write_witness, write_witnesses, is_seg_wit, serialize_legacy,
  serialize_seg_wit, serialize_tx,
}

abbrev pub outpoint_bytes : OutPoint → List ℕ
outpoint_bytes o = o.txid ++ le_bytes 4 o.output_index

abbrev pub input_bytes : TxIn → List ℕ
input_bytes x = outpoint_bytes x.outpoint ++ (framed_script x.script_sig ++ le_bytes 4 x.sequence)

abbrev pub output_bytes : TxOut → List ℕ
output_bytes x = le_bytes 8 x.value ++ framed_script x.script_pub_key

abbrev pub witness_bytes : List ℕ → List ℕ
witness_bytes d = var_int (length d) ++ d

-- A list behind its VarInt count.
abbrev pub list_bytes : {A : Type 0} → (A → List ℕ) → List A → List ℕ
list_bytes g xs = var_int (length xs) ++ each_bytes g xs

abbrev pub stack_bytes : TxIn → List ℕ
stack_bytes x = list_bytes witness_bytes x.witness

abbrev pub legacy_bytes : Tx → List ℕ
legacy_bytes t =
    le_bytes 4 t.version
    ++ (list_bytes input_bytes t.inputs
        ++ (list_bytes output_bytes t.outputs ++ le_bytes 4 t.locktime))

abbrev pub seg_wit_bytes : Tx → List ℕ
seg_wit_bytes t =
    le_bytes 4 t.version
    ++ ((0x00 ∷ 0x01 ∷ [])
        ++ (list_bytes input_bytes t.inputs
            ++ (list_bytes output_bytes t.outputs
                ++ (each_bytes stack_bytes t.inputs ++ le_bytes 4 t.locktime))))

abbrev pub tx_bytes : Tx → List ℕ
tx_bytes t = if is_seg_wit t then seg_wit_bytes t else legacy_bytes t

abbrev pub IsItem : List ℕ → Type 0
IsItem d = length d < 2 ^ 64

pub record IsTxIn (x : TxIn) : Type 0 where
  pub txid : length x.outpoint.txid ≡ 32
  pub index : x.outpoint.output_index < 2 ^ 32
  pub script : IsScript x.script_sig
  pub sequence : x.sequence < 2 ^ 32
  pub items : All IsItem x.witness
  pub count : length x.witness < 2 ^ 64

pub record IsTxOut (x : TxOut) : Type 0 where
  pub amount : x.value < 2 ^ 64
  pub script : IsScript x.script_pub_key

pub record IsTx (t : Tx) : Type 0 where
  pub version : t.version < 2 ^ 32
  pub inputs : All IsTxIn t.inputs
  pub input_count : length t.inputs < 2 ^ 64
  pub outputs : All IsTxOut t.outputs
  pub output_count : length t.outputs < 2 ^ 64
  pub locktime : t.locktime < 2 ^ 32

-- A writer over `n` bytes that has filled them puts them out.
output_over-filled :
    (n : ℕ) (m : Write) (w : Writer) (bs : List ℕ)
    → m (over (replicate n 0)) ≡ ok tt w
    → take w.position w.buffer ≡ bs
    → length w.buffer ≡ n
    → length bs ≡ n
    → w.fixed ≡ true
    → output_over n m ≡ value bs
unfolding output_over to_buffer
output_over-filled n m w bs e front size whole fix =
    let at_end : length w.buffer ≤ w.position =
      omega (arith, sym (length-take w.position w.buffer) ∙ ap length front) in
    rw (e, output_over) (rw (fix) (ap value (sym (take_all w.position w.buffer at_end) ∙ front)))

serialize_locktime-bytes : (n : ℕ) → n < 2 ^ 32 → serialize_locktime n ≡ value (le_bytes 4 n)
unfolding serialize_locktime write_u32_le
serialize_locktime-bytes n h =
    let (w, e, front, size, fix) =
      write_standard-fixed_fits (le_bytes 4) n 4 (over (replicate 4 0)) refl (length-le_bytes 4 n) h
        (omega arith) in
    output_over-filled 4 (write_u32_le n) w (le_bytes 4 n) e front size (length-le_bytes 4 n) fix

serialize_outpoint-bytes :
    (o : OutPoint)
    → length o.txid ≡ 32
    → o.output_index < 2 ^ 32
    → serialize_outpoint o ≡ value (outpoint_bytes o)
unfolding serialize_outpoint write_u32_le
serialize_outpoint-bytes o n h =
    let start = over (replicate 36 0) in
    let (w, e, front, size, fix) = write_bytes-fixed_fits o.txid start refl (omega (arith, n)) in
    let at : w.position ≡ 32 =
      omega (arith, n, size, sym (length-take w.position w.buffer) ∙ ap length front) in
    let (w₂, e₂, front₂, size₂, fix₂) =
      write_standard-fixed_fits (le_bytes 4) o.output_index 4 w fix
        (length-le_bytes 4 o.output_index) h (omega (arith, at, size)) in
    output_over-filled 36 (write_bytes o.txid >> write_u32_le o.output_index) w₂ (outpoint_bytes o)
      (>>-ok (write_bytes o.txid) (write_u32_le o.output_index) e ∙ e₂)
      (front₂ ∙ ap (λ t. t ++ le_bytes 4 o.output_index) front) (size₂ ∙ size)
      (omega (
        arith,
        n,
        length-append o.txid (le_bytes 4 o.output_index),
        length-le_bytes 4 o.output_index,
      ))
      fix₂

Appends-part : {r : Result (List ℕ)} {bs : List ℕ} → r ≡ value bs → Appends (write_part r) bs
unfolding write_part
Appends-part {bs} e = rw e (Appends-write_bytes bs)

Appends-output_part : {m : Write} {bs : List ℕ} → Appends m bs → Appends (write_part (output m)) bs
unfolding write_part write_inner
Appends-output_part p = Appends-inner p

Appends-input : (x : TxIn) → IsTxIn x → Appends (write_part (serialize_input x)) (input_bytes x)
unfolding serialize_input serialize_sequence
Appends-input x v = Appends-output_part (
    Appends-seq (Appends-part (serialize_outpoint-bytes x.outpoint v.txid v.index)) (
      Appends-seq (Appends-part (serialize_script-framed x.script_sig v.script))
        (Appends-part (rw (lt→ltb _ _ v.sequence) refl))))

Appends-txout : (x : TxOut) → IsTxOut x → Appends (write_part (serialize_output x)) (output_bytes x)
unfolding serialize_output
Appends-txout x v = Appends-output_part (
    Appends-seq (Appends-u64_le x.value v.amount)
      (Appends-part (serialize_script-framed x.script_pub_key v.script)))

Appends-item :
    (d : List ℕ) → IsItem d → Appends (write_part (serialize_witness d)) (witness_bytes d)
unfolding serialize_witness
Appends-item d h =
    Appends-output_part (Appends-seq (Appends-var_int (length d) h) (Appends-write_bytes d))

Appends-stack : (x : TxIn) → IsTxIn x → Appends (write_witness x) (stack_bytes x)
unfolding write_witness
Appends-stack x v = Appends-seq (Appends-var_int (length x.witness) v.count) (
    Appends-each (λ d. write_part (serialize_witness d)) witness_bytes x.witness Appends-item
      v.items)

module _ (t : Tx) (v : IsTx t) where
  Appends-inputs : Appends (write_inputs t.inputs) (list_bytes input_bytes t.inputs)
  unfolding write_inputs
  Appends-inputs = Appends-seq (Appends-var_int _ v.input_count) (
      Appends-each (λ x. write_part (serialize_input x)) input_bytes t.inputs Appends-input
        v.inputs)

  Appends-outputs : Appends (write_outputs t.outputs) (list_bytes output_bytes t.outputs)
  unfolding write_outputs
  Appends-outputs = Appends-seq (Appends-var_int _ v.output_count) (
      Appends-each (λ x. write_part (serialize_output x)) output_bytes t.outputs Appends-txout
        v.outputs)

  pub serialize_legacy-bytes :
      length (legacy_bytes t) ≤ max_size → serialize_legacy t ≡ value (legacy_bytes t)
  unfolding serialize_legacy
  serialize_legacy-bytes size =
      Appends-output _ (legacy_bytes t)
        (Appends-seq (Appends-u32_le _ v.version) (
          Appends-seq Appends-inputs
            (Appends-seq Appends-outputs (Appends-part (serialize_locktime-bytes _ v.locktime)))))
        size

  serialize_seg_wit-bytes :
      is_seg_wit t ≡ true
      → length (seg_wit_bytes t) ≤ max_size
      → serialize_seg_wit t ≡ value (seg_wit_bytes t)
  unfolding serialize_seg_wit write_witnesses
  serialize_seg_wit-bytes seg size =
      Appends-output _ (seg_wit_bytes t)
        (Appends-seq (Appends-u32_le _ v.version) (
          Appends-seq (Appends-write_bytes (0x00 ∷ 0x01 ∷ [])) (
            Appends-seq Appends-inputs (
              Appends-seq Appends-outputs (
                Appends-seq
                  (rw (write_witnesses, seg)
                    (Appends-each write_witness stack_bytes t.inputs Appends-stack v.inputs))
                  (Appends-part (serialize_locktime-bytes _ v.locktime)))))))
        size

  pub serialize_tx-bytes : length (tx_bytes t) ≤ max_size → serialize_tx t ≡ value (tx_bytes t)
  unfolding serialize_tx
  serialize_tx-bytes size = elim (Bool-cases (is_seg_wit t)) [
    | inl seg ↦ rw seg (serialize_seg_wit-bytes seg (rw seg at size))
    | inr plain ↦ rw plain (serialize_legacy-bytes (rw plain at size))
  ]
