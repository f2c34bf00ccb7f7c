-- ===== src/Messages/Signatures/RoundTrip.antt =====
-- What the signature messages and the DLC input write they read back.
use node_dlc.Prelude.{
  ℕ, ◌^◌, ◌≤◌, ◌<◌, ◌≡◌, refl, sym, ap, arith, List, ◌++◌, length, length-append, All, value,
  and_then, result,
}
use node_dlc.Bufio.Reader.{reader}
use node_dlc.Bufio.Reader.Reads.{Reads, Reads-bind, Reads-seq, Reads-end, Reads-bytes}
use node_dlc.Bufio.Reader.Numbers.{Reads-map, Reads-big_size, Reads-exactly}
use node_dlc.Bufio.Writer.{output}
use node_dlc.Bufio.Writer.Expand.{max_size}
use node_dlc.Bufio.Writer.Appends.{Appends, Appends-seq, Appends-write_bytes}
use node_dlc.Bufio.Writer.Numbers.{big_size, Appends-big_size}
use node_dlc.Bufio.RoundTrip.{round_trip, length-big_size_le}
use node_dlc.Messages.Codec.{
  counted, Appends-counted, Reads-counted, prefixed, Appends-inner, Appends-data,
}
use node_dlc.Messages.Signatures.{
  input_type, DlcInput, write_dlc_input_body, write_dlc_input, read_dlc_input_body, read_dlc_input,
  ScriptWitness, write_script_witness, read_script_witness, AdaptorSig, write_adaptor_sig,
  read_adaptor_sig, write_cet_adaptor_signatures, read_cet_adaptor_signatures,
  write_funding_signatures, read_funding_signatures,
}

pub record IsInput (x : DlcInput) : Type 0 where
  pub local_key : length x.local_fund_pubkey ≡ 33
  pub remote_key : length x.remote_fund_pubkey ≡ 33
  pub id : length x.contract_id ≡ 32

abbrev pub input_bytes : DlcInput → List ℕ
input_bytes x = x.local_fund_pubkey ++ (x.remote_fund_pubkey ++ x.contract_id)

module _ (x : DlcInput) (v : IsInput x) where
  pub length-input_bytes : length (input_bytes x) ≡ 98
  length-input_bytes = simp (length-append, v.local_key, v.remote_key, v.id) refl

  pub Appends-dlc_input_body : Appends (write_dlc_input_body x) (input_bytes x)
  unfolding write_dlc_input_body
  Appends-dlc_input_body =
      Appends-seq (Appends-write_bytes x.local_fund_pubkey)
        (Appends-seq (Appends-write_bytes x.remote_fund_pubkey) (Appends-write_bytes x.contract_id))

  pub Reads-dlc_input_body : Reads read_dlc_input_body (input_bytes x) x
  unfolding read_dlc_input_body
  Reads-dlc_input_body = Reads-bind _ (Reads-exactly 33 x.local_fund_pubkey v.local_key) (
      Reads-bind _ (Reads-exactly 33 x.remote_fund_pubkey v.remote_key)
        (Reads-map _ (Reads-exactly 32 x.contract_id v.id)))

  -- Of every dlc_input with keys of 33 bytes and an id of 32, deserializeBody returns it from what
  -- serializeBody wrote.
  pub read-write_dlc_input_body :
      and_then (output (write_dlc_input_body x)) (λ out. result (read_dlc_input_body (reader out)))
      ≡ value x
  read-write_dlc_input_body =
      round_trip _ _ _ x Appends-dlc_input_body (Reads-end Reads-dlc_input_body)
        (omega (arith, length-input_bytes))

  -- Of every dlc_input with keys of 33 bytes and an id of 32, deserialize returns it from what
  -- serialize wrote.
  pub read-write_dlc_input :
      and_then (output (write_dlc_input x)) (λ out. result (read_dlc_input (reader out))) ≡ value x
  unfolding write_dlc_input read_dlc_input
  read-write_dlc_input =
      let h : length (input_bytes x) < 2 ^ 64 = omega (arith, length-input_bytes) in
      round_trip _ _ (big_size input_type ++ prefixed (input_bytes x)) x
        (Appends-seq (Appends-big_size input_type (omega arith))
          (Appends-data Appends-dlc_input_body))
        (Reads-end (
          Reads-seq (Reads-big_size input_type (omega arith))
            (Reads-seq (Reads-big_size (length (input_bytes x)) h) Reads-dlc_input_body)))
        (omega (
          arith,
          length-append (big_size input_type) (prefixed (input_bytes x)),
          length-append (big_size (length (input_bytes x))) (input_bytes x),
          length-big_size_le input_type,
          length-big_size_le (length (input_bytes x)),
          length-input_bytes,
        ))

abbrev pub IsWitness : ScriptWitness → Type 0
IsWitness x = (x.size ≡ length x.witness) × (length x.witness < 2 ^ 64)

abbrev pub witness_bytes : ScriptWitness → List ℕ
witness_bytes x = prefixed x.witness

pub Appends-script_witness :
    (x : ScriptWitness) → IsWitness x → Appends (write_script_witness x) (witness_bytes x)
unfolding write_script_witness
Appends-script_witness x (e, h) = Appends-seq (Appends-big_size _ h) (Appends-write_bytes x.witness)

pub Reads-script_witness :
    (x : ScriptWitness) → IsWitness x → Reads read_script_witness (witness_bytes x) x
unfolding read_script_witness
Reads-script_witness x (e, h) = rw e' at read
  where
    kept : ScriptWitness
    kept = record { size = length x.witness; witness = x.witness }

    read : Reads read_script_witness (witness_bytes x) kept
    read = Reads-bind _ (Reads-big_size (length x.witness) h) (
        Reads-map {B = ScriptWitness} (λ w. record { size = length x.witness; witness = w })
          (Reads-bytes x.witness))

    e' : kept ≡ x
    e' = ap {B = ScriptWitness} (λ n. record { size = n; witness = x.witness }) (sym e)

abbrev pub IsAdaptorSig : AdaptorSig → Type 0
IsAdaptorSig x = (length x.encrypted_sig ≡ 65) × (length x.dleq_proof ≡ 97)

abbrev pub adaptor_sig_bytes : AdaptorSig → List ℕ
adaptor_sig_bytes x = x.encrypted_sig ++ x.dleq_proof

Appends-adaptor_sig :
    (x : AdaptorSig) → IsAdaptorSig x → Appends (write_adaptor_sig x) (adaptor_sig_bytes x)
unfolding write_adaptor_sig
Appends-adaptor_sig x v =
    Appends-seq (Appends-write_bytes x.encrypted_sig) (Appends-write_bytes x.dleq_proof)

Reads-adaptor_sig :
    (x : AdaptorSig) → IsAdaptorSig x → Reads read_adaptor_sig (adaptor_sig_bytes x) x
unfolding read_adaptor_sig
Reads-adaptor_sig x (a, b) =
    Reads-bind _ (Reads-exactly 65 x.encrypted_sig a)
      (Reads-map _ (Reads-exactly 97 x.dleq_proof b))

module _ (sigs : List AdaptorSig) (valid : All IsAdaptorSig sigs) (h : length sigs < 2 ^ 64) where
  pub Appends-cet_adaptor_signatures :
      Appends (write_cet_adaptor_signatures sigs) (counted adaptor_sig_bytes sigs)
  unfolding write_cet_adaptor_signatures
  Appends-cet_adaptor_signatures =
      Appends-inner
        (Appends-counted adaptor_sig_bytes sigs write_adaptor_sig Appends-adaptor_sig h valid)

  pub Reads-cet_adaptor_signatures :
      Reads read_cet_adaptor_signatures (counted adaptor_sig_bytes sigs) sigs
  unfolding read_cet_adaptor_signatures
  Reads-cet_adaptor_signatures =
      Reads-counted adaptor_sig_bytes sigs read_adaptor_sig Reads-adaptor_sig h valid

  -- Of every list of adaptor signatures of 65 bytes with proofs of 97 bytes, shorter than 2^64
  -- and written in 2^30 bytes, CetAdaptorSignatures.deserialize returns it from what serialize
  -- wrote.
  pub read-write_cet_adaptor_signatures :
      length (counted adaptor_sig_bytes sigs) ≤ max_size
      → and_then
          (output (write_cet_adaptor_signatures sigs))
          (λ out. result (read_cet_adaptor_signatures (reader out)))
        ≡ value sigs
  read-write_cet_adaptor_signatures size =
      round_trip _ _ _ sigs Appends-cet_adaptor_signatures (Reads-end Reads-cet_adaptor_signatures)
        size

abbrev pub stack_bytes : List ScriptWitness → List ℕ
stack_bytes stack = counted witness_bytes stack

abbrev pub IsStack : List ScriptWitness → Type 0
IsStack stack = (length stack < 2 ^ 64) × All IsWitness stack

module _ (stacks : List (List ScriptWitness)) (valid : All IsStack stacks)
    (h : length stacks < 2 ^ 64) where
  pub Appends-funding_signatures :
      Appends (write_funding_signatures stacks) (counted stack_bytes stacks)
  unfolding write_funding_signatures
  Appends-funding_signatures = Appends-inner (
      Appends-counted stack_bytes stacks _
        (λ stack (n, w).
          Appends-counted witness_bytes stack _ (λ x v. Appends-inner (Appends-script_witness x v))
            n w)
        h valid)

  pub Reads-funding_signatures : Reads read_funding_signatures (counted stack_bytes stacks) stacks
  unfolding read_funding_signatures
  Reads-funding_signatures =
      Reads-counted stack_bytes stacks _
        (λ stack (n, w).
          Reads-counted witness_bytes stack read_script_witness Reads-script_witness n w)
        h valid

  -- Of every list of witness stacks whose elements carry their own length, whose lengths have 64
  -- bits and which fits in 2^30 bytes, FundingSignatures.deserialize returns it from what
  -- serialize wrote.
  pub read-write_funding_signatures :
      length (counted stack_bytes stacks) ≤ max_size
      → and_then
          (output (write_funding_signatures stacks))
          (λ out. result (read_funding_signatures (reader out)))
        ≡ value stacks
  read-write_funding_signatures size =
      round_trip _ _ _ stacks Appends-funding_signatures (Reads-end Reads-funding_signatures) size
