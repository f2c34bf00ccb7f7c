-- ===== src/Messages/Tests/Acceptances.antt =====
-- An acceptance and a signing message in the theorems about them.
use node_dlc.Prelude.{
  ◌≡◌, refl, arith, true, false, none, some, [], ◌∷◌, replicate, value, and_then, result,
}
use node_dlc.Bufio.Bytes.{be_bytes, le_bytes}
use node_dlc.Bufio.Reader.{reader}
use node_dlc.Bufio.Writer.{output}
use node_dlc.Bufio.Writer.Numbers.{big_size, var_int}
use node_dlc.Bitcoin.Tx.{is_seg_wit, has_witness}
use node_dlc.Messages.Tail.{Tail, IsTail, IsForeign}
use node_dlc.Messages.Sign.{DlcSign, write_sign, read_sign}
use node_dlc.Messages.Sign.RoundTrip.{IsSign, AreSignatures, AreStacks, read-write_sign}
use node_dlc.Messages.Accept.{
  DlcAccept, single_fields, Ending, no_ending, write_accept, read_accept,
}
use node_dlc.Messages.Accept.RoundTrip.{IsAccept, read-write_accept}
use node_dlc.Messages.Accept.Dropped.{read-write_accept_dropped}
use node_dlc.Messages.Tests.{id_32, key_33, funding, sigs, stacks, intervals}
use node_dlc.Messages.Tests.Contracts.{utf, utf-Laws, funding-IsEmbedded, unknown}

sigs-AreSignatures : AreSignatures sigs
unfolding be_bytes le_bytes big_size
sigs-AreSignatures = record { valid = ((refl, refl), tt); count = omega arith; fits = omega arith }

stacks-AreStacks : AreStacks stacks
unfolding be_bytes le_bytes big_size
stacks-AreStacks = record {
  valid = ((omega arith, ((refl, omega arith), tt)), ((omega arith, tt), tt));
  count = omega arith;
  fits = omega arith;
}

abbrev tail : Tail
tail = record { batch_funding_groups = []; unknown_tlvs = unknown ∷ [] }

unknown-IsForeign : IsForeign unknown
unfolding be_bytes le_bytes big_size
unknown-IsForeign = record {
  body = 9 ∷ [];
  whole = refl;
  small = omega arith;
  not_group = λ e. omega arith;
}

tail-IsTail : IsTail tail
unfolding be_bytes le_bytes big_size
tail-IsTail = record { groups = tt; unknown = (unknown-IsForeign, tt); fits = omega arith }

abbrev signing_message : DlcSign
signing_message = record {
  protocol_version = 1;
  contract_id = id_32;
  cet_adaptor_signatures = sigs;
  refund_signature = replicate 64 8;
  funding_signatures = stacks;
  tail = tail;
}

signing_message-IsSign : IsSign signing_message
signing_message-IsSign = record {
  version = omega arith;
  id = refl;
  cets = sigs-AreSignatures;
  refund = refl;
  funding = stacks-AreStacks;
  tail = tail-IsTail;
}

read-write_sign_example :
    and_then (output (write_sign utf signing_message)) (λ out. result (read_sign utf (reader out)))
    ≡ value signing_message
unfolding be_bytes le_bytes big_size
read-write_sign_example =
    read-write_sign utf utf-Laws signing_message signing_message-IsSign (omega arith)

abbrev acceptance : DlcAccept
acceptance = record {
  protocol_version = 1;
  temporary_contract_id = id_32;
  accept_collateral = 100000;
  funding_pubkey = key_33;
  payout_spk = 1 ∷ 2 ∷ [];
  payout_serial_id = 4;
  funding_inputs = funding ∷ [];
  change_spk = 3 ∷ [];
  change_serial_id = 5;
  cet_adaptor_signatures = sigs;
  refund_signature = replicate 64 8;
  ending = record { negotiation_fields = none; tail = tail };
  single_funded = false;
}

accepting-IsAccept : (e : Ending) → IsTail e.tail → IsAccept (record acceptance { ending = e })
accepting-IsAccept e v = record {
  version = omega arith;
  id = refl;
  collateral = omega arith;
  key = refl;
  payout_spk = omega arith;
  payout_serial = omega arith;
  input_count = omega arith;
  inputs = (funding-IsEmbedded, tt);
  change_spk = omega arith;
  change_serial = omega arith;
  cets = sigs-AreSignatures;
  refund = refl;
  tail = v;
  single = refl;
}

read-write_accept_example :
    and_then
      (output (write_accept utf acceptance))
      (λ out. result (read_accept utf true (reader out)))
    ≡ value acceptance
unfolding is_seg_wit has_witness var_int be_bytes le_bytes big_size
read-write_accept_example =
    read-write_accept utf utf-Laws acceptance (accepting-IsAccept _ tail-IsTail) refl (omega arith)

abbrev negotiating : DlcAccept
negotiating = record acceptance {
  ending = record { negotiation_fields = some (single_fields intervals); tail = tail };
}

read-write_accept_dropped_example :
    and_then
      (output (write_accept utf negotiating))
      (λ out. result (read_accept utf true (reader out)))
    ≡ value (record negotiating { ending = no_ending })
unfolding is_seg_wit has_witness var_int be_bytes le_bytes big_size
read-write_accept_dropped_example =
    read-write_accept_dropped utf utf-Laws negotiating (accepting-IsAccept _ tail-IsTail) intervals
      refl ((omega arith, omega arith), ((omega arith, omega arith), tt)) (omega arith)
      (omega arith) (omega arith)
