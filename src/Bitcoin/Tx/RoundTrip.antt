-- ===== src/Bitcoin/Tx/RoundTrip.antt =====
-- What a transaction writes it reads back, with witnesses and without.
use node_dlc.Prelude.{
  ℕ, inl, inr, ◌^◌, ◌≤◌, ◌<◌, ◌≡◌, refl, ap, ◌∙◌, subst, arith, true, false, List, [], ◌∷◌, ◌++◌,
  length, map, All, append_assoc, append-nil, Bool-cases, ok, value, and_then, ◌>>=◌, pure,
}
use node_dlc.Bufio.Bytes.{le_bytes, be_bytes}
use node_dlc.Bufio.Writer.Expand.{max_size}
use node_dlc.Bufio.Writer.Appends.{each_bytes}
use node_dlc.Bufio.Writer.Numbers.{var_int}
use node_dlc.Bitcoin.Stream.{
  Takes, Takes-pure, Takes-bind, Takes-map, Takes-bytes, Takes-u8, Takes-u32_le, Takes-u64_le,
  Takes-var_int, Takes-times, stream_bytes, stream_rest, stream_u32_le, stream_times,
}
use node_dlc.Bitcoin.Script.RoundTrip.{Takes-script}
use node_dlc.Bitcoin.Tx.{
  OutPoint, TxIn, TxOut, Tx, has_witness, is_seg_wit, serialize_tx, parse_outpoint, parse_input,
  parse_inputs, parse_output, parse_outputs, parse_witness, parse_items, parse_witnesses,
  parse_flagged, parse_body, finish_tx, parse_tx, decode_tx, decode, from_buffer,
}
use node_dlc.Bitcoin.Tx.Format.{
  outpoint_bytes, input_bytes, output_bytes, witness_bytes, list_bytes, stack_bytes, legacy_bytes,
  seg_wit_bytes, tx_bytes, IsItem, IsTxIn, IsTxOut, IsTx, serialize_tx-bytes,
}

-- An input as it stands in the transaction, before its witness is read.
abbrev bare : TxIn → TxIn
bare x = record x { witness = [] }

Takes-outpoint :
    (o : OutPoint)
    → length o.txid ≡ 32
    → o.output_index < 2 ^ 32
    → Takes parse_outpoint (outpoint_bytes o) o
unfolding parse_outpoint
Takes-outpoint o n h =
    Takes-bind (λ txid. stream_u32_le >>= λ i. pure (record { txid = txid; output_index = i }))
      (Takes-bytes 32 o.txid n)
      (Takes-map (λ i. record { txid = o.txid; output_index = i }) (Takes-u32_le _ h))

Takes-input : (x : TxIn) → IsTxIn x → Takes parse_input (input_bytes x) (bare x)
unfolding parse_input
Takes-input x v =
    Takes-bind _ (Takes-outpoint x.outpoint v.txid v.index)
      (Takes-bind _ (Takes-script x.script_sig v.script) (Takes-map _ (Takes-u32_le _ v.sequence)))

Takes-output : (x : TxOut) → IsTxOut x → Takes parse_output (output_bytes x) x
unfolding parse_output
Takes-output x v =
    Takes-bind _ (Takes-u64_le _ v.amount) (Takes-map _ (Takes-script x.script_pub_key v.script))

Takes-item : (d : List ℕ) → IsItem d → Takes parse_witness (witness_bytes d) d
unfolding parse_witness
Takes-item d h = Takes-bind stream_bytes (Takes-var_int _ h) (Takes-bytes (length d) d refl)

Takes-items : (x : TxIn) → IsTxIn x → Takes parse_items (stack_bytes x) x.witness
unfolding parse_items
Takes-items x v =
    Takes-bind (λ n. stream_times n parse_witness) (Takes-var_int _ v.count)
      (Takes-times parse_witness witness_bytes x.witness Takes-item v.items)

Takes-bare :
    (xs : List TxIn)
    → All IsTxIn xs
    → Takes (stream_times (length xs) parse_input) (each_bytes input_bytes xs) (map bare xs)
unfolding stream_times
Takes-bare [] h = Takes-pure []
Takes-bare (x ∷ xs) (v, vs) =
    Takes-bind _ (Takes-input x v) (Takes-map (λ t. bare x ∷ t) (Takes-bare xs vs))

Takes-inputs :
    (xs : List TxIn)
    → All IsTxIn xs
    → length xs < 2 ^ 64
    → Takes parse_inputs (list_bytes input_bytes xs) (map bare xs)
unfolding parse_inputs
Takes-inputs xs vs h =
    Takes-bind (λ n. stream_times n parse_input) (Takes-var_int _ h) (Takes-bare xs vs)

Takes-outputs :
    (xs : List TxOut)
    → All IsTxOut xs
    → length xs < 2 ^ 64
    → Takes parse_outputs (list_bytes output_bytes xs) xs
unfolding parse_outputs
Takes-outputs xs vs h =
    Takes-bind (λ n. stream_times n parse_output) (Takes-var_int _ h)
      (Takes-times parse_output output_bytes xs Takes-output vs)

Takes-witnesses :
    (xs : List TxIn)
    → All IsTxIn xs
    → Takes (parse_witnesses (map bare xs)) (each_bytes stack_bytes xs) xs
unfolding parse_witnesses
Takes-witnesses [] h = Takes-pure []
Takes-witnesses (x ∷ xs) (v, vs) =
    Takes-bind _ (Takes-items x v) (Takes-map (λ rest. x ∷ rest) (Takes-witnesses xs vs))

nil_of_length : (ws : List (List ℕ)) → length ws ≡ 0 → [] ≡ ws
nil_of_length [] h = refl
nil_of_length (w ∷ ws) h = absurd (omega arith)

-- Without witnesses nothing is lost.
map-bare : (xs : List TxIn) → has_witness xs ≡ false → map bare xs ≡ xs
unfolding has_witness
map-bare [] h = refl
map-bare (x ∷ xs) h =
    let empty : length x.witness ≡ 0 = ground arith in
    let none_of : has_witness xs ≡ false = ground arith in
    ap (λ w. record x { witness = w } ∷ map bare xs) (nil_of_length x.witness empty)
    ∙ ap (λ ys. x ∷ ys) (map-bare xs none_of)

Takes-finish_plain :
    (t : Tx)
    → t.locktime < 2 ^ 32
    → Takes (finish_tx true t.version (0, t.inputs, t.outputs)) (le_bytes 4 t.locktime) t
unfolding finish_tx
Takes-finish_plain t h = Takes-map (λ l. record t { locktime = l }) (Takes-u32_le t.locktime h)

Takes-finish_witness :
    (t : Tx)
    → All IsTxIn t.inputs
    → t.locktime < 2 ^ 32
    → Takes
        (finish_tx true t.version (1, map bare t.inputs, t.outputs))
        (each_bytes stack_bytes t.inputs ++ le_bytes 4 t.locktime)
        t
unfolding finish_tx
Takes-finish_witness t vs h =
    Takes-bind _ (Takes-witnesses t.inputs vs) (Takes-map _ (Takes-u32_le t.locktime h))

-- The marker is read as an empty list of inputs.
Takes-marker : Takes parse_inputs (0x00 ∷ []) []
unfolding parse_inputs var_int be_bytes le_bytes stream_times
Takes-marker =
    Takes-bind (λ n. stream_times n parse_input) {ys = []} (Takes-var_int 0 (omega arith))
      (Takes-pure [])

Takes-body_plain :
    (vins : List TxIn) (vouts : List TxOut)
    → 0 < length vins
    → All IsTxOut vouts
    → length vouts < 2 ^ 64
    → Takes (parse_body true vins) (list_bytes output_bytes vouts) (0, vins, vouts)
unfolding parse_body
Takes-body_plain [] vouts some_in vs h = absurd (omega arith)
Takes-body_plain (x ∷ xs) vouts some_in vs h =
    Takes-map (λ vouts. (0, x ∷ xs, vouts)) (Takes-outputs vouts vs h)

module _ (t : Tx) (v : IsTx t) where
  Takes-body_flagged :
      Takes
        (parse_body true [])
        ((0x01 ∷ []) ++ (list_bytes input_bytes t.inputs ++ list_bytes output_bytes t.outputs))
        (1, map bare t.inputs, t.outputs)
  unfolding parse_body parse_flagged be_bytes le_bytes
  Takes-body_flagged = Takes-bind (parse_flagged []) (Takes-u8 1 (omega arith)) (
      Takes-bind _ (Takes-inputs t.inputs v.inputs v.input_count) (
        Takes-map (λ vouts. (1, map bare t.inputs, vouts))
          (Takes-outputs t.outputs v.outputs v.output_count)))

  Takes-legacy :
      is_seg_wit t ≡ false → 0 < length t.inputs → Takes (parse_tx true) (legacy_bytes t) t
  unfolding parse_tx is_seg_wit
  Takes-legacy plain some_in =
      let whole =
        subst (Takes parse_inputs (list_bytes input_bytes t.inputs)) (map-bare t.inputs plain)
          (Takes-inputs t.inputs v.inputs v.input_count) in
      Takes-bind _ (Takes-u32_le t.version v.version) (
        Takes-bind _ whole (
          Takes-bind (finish_tx true t.version)
            (Takes-body_plain t.inputs t.outputs some_in v.outputs v.output_count)
            (Takes-finish_plain t v.locktime)))

  Takes-seg_wit : Takes (parse_tx true) (seg_wit_bytes t) t
  unfolding parse_tx
  Takes-seg_wit =
      let ins = list_bytes input_bytes t.inputs in
      let outs = list_bytes output_bytes t.outputs in
      let after = each_bytes stack_bytes t.inputs ++ le_bytes 4 t.locktime in
      Takes-bind _ (Takes-u32_le t.version v.version) (
        Takes-bind _ Takes-marker (
          rw (← append_assoc ins outs after) (
            Takes-bind (finish_tx true t.version) Takes-body_flagged
              (Takes-finish_witness t v.inputs v.locktime))))

  from_buffer-Takes : (bs : List ℕ) → Takes (parse_tx true) bs t → from_buffer bs ≡ value t
  unfolding from_buffer decode decode_tx stream_rest
  from_buffer-Takes bs p =
      let e = subst (λ s. parse_tx true s ≡ ok t []) (append-nil bs) (p.run []) in
      rw (e, decode_tx) refl

  pub from_buffer-tx_bytes : 0 < length t.inputs → from_buffer (tx_bytes t) ≡ value t
  from_buffer-tx_bytes some_in = from_buffer-Takes (tx_bytes t) (elim (Bool-cases (is_seg_wit t)) [
    | inl seg ↦ rw seg Takes-seg_wit
    | inr plain ↦ rw plain (Takes-legacy plain some_in)
  ])

  -- Of every transaction with at least one input, whose fields are in range, whose scripts hold
  -- opcodes and data of 1 to 520 bytes, and that fits in 2^30 bytes, fromBuffer returns it from
  -- what serialize wrote, in the witness format when some input has a witness and in the old one
  -- when none has.
  pub from_buffer-serialize_tx :
      0 < length t.inputs
      → length (tx_bytes t) ≤ max_size
      → and_then (serialize_tx t) from_buffer ≡ value t
  from_buffer-serialize_tx some_in size =
      rw (serialize_tx-bytes t v size) (from_buffer-tx_bytes some_in)
