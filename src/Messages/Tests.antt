-- ===== src/Messages/Tests.antt =====
-- The round trips of the messages at concrete inputs.
mod Contracts
mod Offers
mod Acceptances
use node_dlc.Prelude.{
  ok, ℕ, ◌==◌, error, bad_type, length, ◌<◌, ◌^◌, ◌≡◌, refl, ◌↔◌, All, true, arith, false, some,
  List, [], ◌∷◌, ◌++◌, replicate, value, and_then, result,
}
use node_dlc.Bufio.Bytes.{be_bytes, le_bytes, be_value, le_value}
use node_dlc.Bufio.Reader.{
  Reader, reader, read_big_size, read_u8, big_size_rest, read_standard, read_bytes,
}
use node_dlc.Bufio.Writer.{
  output, write_big_size, write_u8, write_bytes, write_standard, copy_in, expand, grown, shift_one,
  ceil_log2, ceil_log2_from, resized, overwrite, to_buffer,
}
use node_dlc.Bufio.Writer.Numbers.{big_size}
use node_dlc.Bufio.Writer.Numbers.{var_int}
use node_dlc.Bitcoin.Tx.{Tx, is_seg_wit, has_witness}
use node_dlc.Bitcoin.Tx.Format.{IsTx, tx_bytes}
use node_dlc.Messages.Control.{DlcCancel, DlcInfo}
use node_dlc.Messages.Signatures.{
  DlcInput, AdaptorSig, write_cet_adaptor_signatures, read_cet_adaptor_signatures, ScriptWitness,
  write_funding_signatures, read_funding_signatures,
}
use node_dlc.Messages.Signatures.RoundTrip.{
  read-write_cet_adaptor_signatures, read-write_funding_signatures,
}
use node_dlc.Messages.Inputs.{
  FundingInput, write_funding_input, read_funding_input, write_funding_input_body,
  read_funding_input_body,
}
use node_dlc.Messages.Inputs.RoundTrip.{
  IsFunding, read-write_funding_input, read-write_funding_input_body,
}
use node_dlc.Messages.Inputs.Validate.{checked, validate_output-locks}
use node_dlc.Bitcoin.Script.Standard.{
  Hashes, p2pkh_lock, p2wpkh_lock, p2sh_lock, p2wsh_lock, p2tr_lock,
}
use node_dlc.Messages.Payouts.{
  Interval, Point, polynomial, hyperbola, Hyperbola, serialize_piece, deserialize_piece,
  PayoutFunction, write_payout_function, read_payout_function,
}
use node_dlc.Messages.Payouts.RoundTrip.{
  deserialize-serialize_piece, read-write_payout_function, IsPoint, IsPiece,
}
use node_dlc.Messages.Payouts.EndPoints.{cleared_piece, cleared_function}
use node_dlc.Messages.Tlv.{Tlv, get_tlv, write_tlv}
use node_dlc.Messages.Tlv.Exact.{Got, get_tlv-Got}
use node_dlc.Messages.Payouts.Validate.{
  ℤ, pos, negsuc, AnyInterval, IsFromZero, Ascends, validate_rounding_intervals,
  validate_rounding_intervals-Ascends,
}
use node_dlc.Messages.Transactions.{
  BlockEpoch, DlcTransactions, write_dlc_transactions, read_dlc_transactions,
}
use node_dlc.Messages.Transactions.RoundTrip.{IsFramedTx, kept_cets, read-write_dlc_transactions}

abbrev id_32 : List ℕ
id_32 = replicate 32 7

abbrev key_33 : List ℕ
key_33 = replicate 33 3

abbrev cancel : DlcCancel
cancel = record { contract_id = id_32; reason = 1 }

abbrev info : DlcInfo
info = record {
  num_dlc_offers = 6;
  num_dlc_accepts = 5;
  num_dlc_signs = 4;
  num_dlc_cancels = 3;
  num_dlc_closes = 2;
  num_dlc_transactions = 1;
}

abbrev input : DlcInput
input = record { local_fund_pubkey = key_33; remote_fund_pubkey = key_33; contract_id = id_32 }

abbrev sigs : List AdaptorSig
sigs = record { encrypted_sig = replicate 65 1; dleq_proof = replicate 97 2 } ∷ []

abbrev stacks : List (List ScriptWitness)
stacks = (record { size = 2; witness = 1 ∷ 2 ∷ [] } ∷ []) ∷ [] ∷ []

-- A transaction with one input, told apart by its locktime.
abbrev coin : ℕ → Tx
coin n = record {
  version = 2;
  inputs =
      record {
        outpoint = record { txid = id_32; output_index = 0 };
        script_sig = [];
        sequence = 0xffff_ffff;
        witness = [];
      }
      ∷ [];
  outputs = [];
  locktime = n;
}

coin-IsTx : (n : ℕ) → n < 2 ^ 32 → IsTx (coin n)
coin-IsTx n h = record {
  version = omega arith;
  inputs = (
    record {
      txid = refl;
      index = omega arith;
      script = (tt, omega arith);
      sequence = omega arith;
      items = tt;
      count = omega arith;
    },
    tt,
  );
  input_count = omega arith;
  outputs = tt;
  output_count = omega arith;
  locktime = h;
}

length-coin : (n : ℕ) → length (tx_bytes (coin n)) ≡ 51
unfolding is_seg_wit has_witness var_int be_bytes le_bytes
length-coin n = refl

coin-IsFramedTx : (n : ℕ) → n < 2 ^ 32 → IsFramedTx (coin n)
coin-IsFramedTx n h = record {
  fields = coin-IsTx n h;
  some_in = omega arith;
  size = omega (arith, length-coin n);
}

abbrev funding : FundingInput
funding = record {
  input_serial_id = 1;
  prev_tx = coin 9;
  prev_tx_vout = 2;
  sequence = 3;
  max_witness_len = 108;
  redeem_script = 4 ∷ [];
  dlc_input = some input;
}

funding-IsFunding : IsFunding funding
funding-IsFunding = record {
  fields = coin-IsTx 9 (omega arith);
  some_in = omega arith;
  size = omega (arith, length-coin 9);
  serial = omega arith;
  vout = omega arith;
  sequence = omega arith;
  witness_len = omega arith;
  script_len = omega arith;
  input = record { local_key = refl; remote_key = refl; id = refl };
}

read-write_funding_input_example :
    and_then
      (output (write_funding_input funding))
      (λ out. result (read_funding_input (reader out)))
    ≡ value funding
unfolding be_bytes le_bytes big_size var_int is_seg_wit has_witness
read-write_funding_input_example =
    read-write_funding_input funding funding-IsFunding (omega arith) (omega arith)

read-write_funding_input_body_example :
    and_then
      (output (write_funding_input_body funding))
      (λ out. result (read_funding_input_body (reader out)))
    ≡ value funding
unfolding be_bytes le_bytes big_size var_int is_seg_wit has_witness
read-write_funding_input_body_example =
    read-write_funding_input_body funding funding-IsFunding (omega arith) (omega arith)

abbrev intervals : List Interval
intervals =
    record { begin_interval = 0; rounding_mod = 1 }
    ∷ record { begin_interval = 5; rounding_mod = 10 }
    ∷ []

abbrev mixed : List AnyInterval
mixed =
    record { begin_interval = negsuc 0; rounding_mod = pos 1 }
    ∷ record { begin_interval = pos 3; rounding_mod = pos 1 }
    ∷ []

validate_rounding_intervals-Ascends_example :
    (validate_rounding_intervals mixed ≡ value tt) ↔ (All IsFromZero mixed × Ascends mixed)
validate_rounding_intervals-Ascends_example = validate_rounding_intervals-Ascends mixed

abbrev point : Point
point = record { event_outcome = 1; outcome_payout = 2; extra_precision = 3 }

point-IsPoint : IsPoint point
point-IsPoint = record { outcome = omega arith; payout = omega arith; precision = omega arith }

abbrev zeros : List ℕ
zeros = replicate 8 0

-- With end points that are not zeros.
abbrev half : Hyperbola
half = record {
  left_end_point = point;
  right_end_point = point;
  use_positive_piece = true;
  translate_outcome = zeros;
  translate_payout = zeros;
  a = zeros;
  b = zeros;
  c = zeros;
  d = zeros;
}

half-IsPiece : IsPiece (cleared_piece (hyperbola half))
half-IsPiece = record {
  left = refl;
  right = refl;
  outcome = refl;
  payout = refl;
  at_a = refl;
  at_b = refl;
  at_c = refl;
  at_d = refl;
}

abbrev curve : PayoutFunction
curve = record {
  pieces =
      record { end_point = point; curve = polynomial (point ∷ []) }
      ∷ record { end_point = point; curve = hyperbola half }
      ∷ [];
  last_endpoint = point;
}

read-write_payout_function_example :
    and_then
      (output (write_payout_function curve))
      (λ out. result (read_payout_function (reader out)))
    ≡ value (cleared_function curve)
unfolding be_bytes le_bytes big_size
read-write_payout_function_example =
    read-write_payout_function curve
      (
        (point-IsPoint, ((point-IsPoint, tt), omega arith, omega arith)),
        ((point-IsPoint, half-IsPiece), tt),
      )
      point-IsPoint (omega arith) (omega arith)

abbrev epoch : BlockEpoch
epoch = record { hash = id_32; height = 800000 }

abbrev transactions : DlcTransactions
transactions = record {
  contract_id = id_32;
  fund_tx = coin 1;
  fund_tx_vout = 0;
  fund_epoch = epoch;
  fund_broadcast_height = 5;
  refund_tx = coin 2;
  cets = coin 3 ∷ coin 4 ∷ [];
  close_epoch = epoch;
  close_tx_hash = id_32;
  close_type = 1;
  close_broadcast_height = 6;
}

read-write_dlc_transactions_example :
    and_then
      (output (write_dlc_transactions transactions))
      (λ out. result (read_dlc_transactions false (reader out)))
    ≡ value (record transactions { cets = coin 3 ∷ [] })
unfolding kept_cets be_bytes le_bytes big_size var_int is_seg_wit has_witness
read-write_dlc_transactions_example =
    read-write_dlc_transactions transactions
      (record {
        id = refl;
        fund = coin-IsFramedTx 1 (omega arith);
        vout = omega arith;
        fund_at = (refl, omega arith);
        fund_broadcast = omega arith;
        refund = coin-IsFramedTx 2 (omega arith);
        each = (coin-IsFramedTx 3 (omega arith), (coin-IsFramedTx 4 (omega arith), tt));
        count = omega arith;
        close_at = (refl, omega arith);
        close_hash = refl;
        close_kind = omega arith;
        close_broadcast = omega arith;
      })
      false (omega arith)

abbrev after_tlv : Reader
after_tlv = record { buffer = 1 ∷ 2 ∷ 7 ∷ 8 ∷ 9 ∷ []; position = 4; last_read_bytes = 2 }

-- A record of type 1 with two bytes.
get_tlv_one : get_tlv (reader (1 ∷ 2 ∷ 7 ∷ 8 ∷ 9 ∷ [])) ≡ ok (1 ∷ 2 ∷ 7 ∷ 8 ∷ []) after_tlv
unfolding get_tlv read_big_size read_u8 big_size_rest read_standard be_value le_value read_bytes
    write_tlv write_big_size write_u8 write_bytes write_standard copy_in expand grown shift_one
    ceil_log2 ceil_log2_from resized overwrite output to_buffer be_bytes le_bytes
get_tlv_one = refl

get_tlv-Got_example :
    (t : Tlv) × Got (reader (1 ∷ 2 ∷ 7 ∷ 8 ∷ 9 ∷ [])) after_tlv (1 ∷ 2 ∷ 7 ∷ 8 ∷ []) t
get_tlv-Got_example =
    get_tlv-Got (reader (1 ∷ 2 ∷ 7 ∷ 8 ∷ 9 ∷ [])) after_tlv (1 ∷ 2 ∷ 7 ∷ 8 ∷ [])
      (omega arith, (omega arith, (omega arith, (omega arith, (omega arith, tt))))) (omega arith)
      get_tlv_one

abbrev hashes : Hashes
hashes = record {
  valid_public_key = λ v. length v == 33;
  hash160 = λ v. replicate 20 5;
  sha256 = λ v. replicate 32 6;
}

validate_output-locks_example :
    (checked 1000 (p2wpkh_lock hashes key_33)
      ≡ and_then (p2wpkh_lock hashes key_33) (λ _. value tt))
    × (checked 1000 (p2wsh_lock key_33) ≡ and_then (p2wsh_lock key_33) (λ _. value tt))
    × (checked 1000 (p2tr_lock key_33) ≡ and_then (p2tr_lock key_33) (λ _. value tt))
    × (checked 1000 (p2pkh_lock hashes key_33)
        ≡ and_then (p2pkh_lock hashes key_33) (λ _. error bad_type))
    × (checked 1000 (p2sh_lock key_33) ≡ and_then (p2sh_lock key_33) (λ _. error bad_type))
validate_output-locks_example = validate_output-locks hashes (λ v. refl) 1000 key_33
