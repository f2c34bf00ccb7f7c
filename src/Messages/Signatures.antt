-- ===== src/Messages/Signatures.antt =====
-- packages/messaging/lib/messages/DlcInput.ts, ScriptWitnessV0.ts, CetAdaptorSignatures.ts and
-- FundingSignatures.ts. The field `length` that reading sets and writing ignores is left out,
-- except in a witness element, where it is the length of the witness.
pub mod RoundTrip
use node_dlc.Prelude.{
  ℕ, ◌^◌, ◌≤◌, ◌<◌, ◌≡◌, refl, sym, ap, arith, some, List, ◌++◌, length, length-append, All, value,
  and_then, result, ◌>>=◌, ◌>>◌, pure,
}
use node_dlc.Bufio.Reader.{Read, reader, read_bytes, read_big_size}
use node_dlc.Bufio.Reader.Reads.{Reads, Reads-bind, Reads-seq, Reads-end, Reads-bytes}
use node_dlc.Bufio.Reader.Numbers.{Reads-map, Reads-big_size, Reads-exactly}
use node_dlc.Bufio.Writer.{Write, output, write_bytes, write_big_size}
use node_dlc.Bufio.Writer.Expand.{max_size}
use node_dlc.Bufio.Writer.Appends.{Appends, Appends-seq, Appends-write_bytes}
use node_dlc.Bufio.Writer.Numbers.{big_size, Appends-big_size}
use node_dlc.Bufio.RoundTrip.{round_trip, length-big_size_le}
use node_dlc.Messages.Codec.{
  write_counted, read_counted, counted, Appends-counted, Reads-counted, prefixed, write_inner,
  Appends-inner, write_data, Appends-data,
}

abbrev pub input_type : ℕ
input_type = 42773

pub record DlcInput : Type 0 where
  pub local_fund_pubkey : List ℕ
  pub remote_fund_pubkey : List ℕ
  pub contract_id : List ℕ

unfoldable pub write_dlc_input_body : DlcInput → Write
write_dlc_input_body x = do
  write_bytes x.local_fund_pubkey
  write_bytes x.remote_fund_pubkey
  write_bytes x.contract_id

unfoldable pub write_dlc_input : DlcInput → Write
write_dlc_input x = do write_big_size input_type; write_data (write_dlc_input_body x)

unfoldable pub read_dlc_input_body : Read DlcInput
read_dlc_input_body = do
  local_key ← read_bytes (some 33)
  remote_key ← read_bytes (some 33)
  contract_id ← read_bytes (some 32)
  pure (record {
    local_fund_pubkey = local_key;
    remote_fund_pubkey = remote_key;
    contract_id = contract_id;
  })

unfoldable pub read_dlc_input : Read DlcInput
read_dlc_input = do read_big_size; read_big_size; read_dlc_input_body

-- `serialize`, `deserialize` and `getWitness` of an element: bytes behind their length. Reading
-- keeps the length that stood in front.
pub record ScriptWitness : Type 0 where
  pub size : ℕ
  pub witness : List ℕ

unfoldable pub write_script_witness : ScriptWitness → Write
write_script_witness x = do write_big_size (length x.witness); write_bytes x.witness

unfoldable pub read_script_witness : Read ScriptWitness
read_script_witness = do
  size ← read_big_size
  witness ← read_bytes (some size)
  pure (record { size = size; witness = witness })

-- The signatures of the contract execution transactions.
pub record AdaptorSig : Type 0 where
  pub encrypted_sig : List ℕ
  pub dleq_proof : List ℕ

unfoldable pub write_adaptor_sig : AdaptorSig → Write
write_adaptor_sig x = do write_bytes x.encrypted_sig; write_bytes x.dleq_proof

unfoldable pub read_adaptor_sig : Read AdaptorSig
read_adaptor_sig = do
  encrypted_sig ← read_bytes (some 65)
  dleq_proof ← read_bytes (some 97)
  pure (record { encrypted_sig = encrypted_sig; dleq_proof = dleq_proof })

unfoldable pub write_cet_adaptor_signatures : List AdaptorSig → Write
write_cet_adaptor_signatures sigs = write_inner (write_counted write_adaptor_sig sigs)

unfoldable pub read_cet_adaptor_signatures : Read (List AdaptorSig)
read_cet_adaptor_signatures = read_counted read_adaptor_sig

-- The witness stacks of the funding inputs.
unfoldable pub write_funding_signatures : List (List ScriptWitness) → Write
write_funding_signatures stacks = write_inner (
    write_counted (λ stack. write_counted (λ x. write_inner (write_script_witness x)) stack) stacks)

unfoldable pub read_funding_signatures : Read (List (List ScriptWitness))
read_funding_signatures = read_counted (read_counted read_script_witness)
