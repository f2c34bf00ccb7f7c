-- ===== src/Messages/Oracle/Validate.antt =====
-- `validate` of packages/messaging/lib/messages/EventDescriptor.ts, OracleEvent.ts and
-- OracleAnnouncement.ts. The tagged hash and the Schnorr signature are parameters.
use node_dlc.Prelude.{
  ℕ, ◌+◌, ◌<◌, ◌≡◌, arith, Bool, true, false, not, List, [], ◌∷◌, length, All, ltb, ◌==◌,
  if◌then◌else◌, bad_value, bad_length, bad_key, Result, value, and_then, guard, ◌also◌,
  guard-eq-value, guard-also, also-eq-value, check_each, check_each-eq-value,
}
use node_dlc.Bufio.Writer.{output}
use node_dlc.Messages.Text.{Utf8}
use node_dlc.Messages.Oracle.{
  DigitDecomposition, EventDescriptor, enum_event, digit_decomposition, OracleEvent,
  OracleAnnouncement, write_event,
}

-- Of the signature library: the hash of an announcement's event, and the check of a signature by a
-- key over a hash, which throws where this is false.
pub record Signing : Type 0 where
  pub event_hash : List ℕ → List ℕ
  pub verify : List ℕ → List ℕ → List ℕ → Bool

unfoldable pub validate_digits : DigitDecomposition → Result (Unit {0})
validate_digits x = guard (ltb 0 x.base) bad_value also guard (not x.is_signed) bad_value

unfoldable pub expected_nonces : EventDescriptor → ℕ
expected_nonces (enum_event outcomes) = 1
expected_nonces (digit_decomposition x) = if x.is_signed then x.nb_digits + 1 else x.nb_digits

unfoldable pub validate_descriptor : EventDescriptor → Result (Unit {0})
validate_descriptor (enum_event outcomes) = value tt
validate_descriptor (digit_decomposition x) = validate_digits x

-- A number that was read is not negative, so the check of the epoch passes.
unfoldable pub validate_event : OracleEvent → Result (Unit {0})
validate_event x =
    guard (ltb 0 (length x.event_id)) bad_length
    also guard (ltb 0 (length x.oracle_nonces)) bad_length
    also check_each (λ n. guard (length n == 32) bad_length) x.oracle_nonces
    also guard (expected_nonces x.event_descriptor == length x.oracle_nonces) bad_length
    also validate_descriptor x.event_descriptor

-- The text of an event, and the hash and signature of its bytes.
unfoldable pub validate_announcement : Utf8 → Signing → OracleAnnouncement → Result (Unit {0})
validate_announcement utf signing x =
    validate_event x.oracle_event
    also guard (length x.oracle_public_key == 32) bad_length
    also guard (length x.announcement_sig == 64) bad_length
    also and_then (output (write_event utf x.oracle_event)) (λ bytes.
      guard (signing.verify x.oracle_public_key (signing.event_hash bytes) x.announcement_sig)
        bad_key)

-- One nonce for an enumeration, and one for each digit, unsigned and in a base.
abbrev pub Attestable : EventDescriptor → ℕ → Type 0
Attestable (enum_event outcomes) nonces = nonces ≡ 1
Attestable (digit_decomposition x) nonces =
    (nonces ≡ x.nb_digits) × (0 < x.base) × (x.is_signed ≡ false)

pub record IsAttestable (x : OracleEvent) : Type 0 where
  pub named : 0 < length x.event_id
  pub some_nonce : 0 < length x.oracle_nonces
  pub nonces : All (λ n. length n ≡ 32) x.oracle_nonces
  pub count : Attestable x.event_descriptor (length x.oracle_nonces)

all_nonces :
    (ns : List (List ℕ))
    → All (λ n. guard (length n == 32) bad_length ≡ value tt) ns
    → All (λ n. length n ≡ 32) ns
all_nonces [] h = tt
all_nonces (n ∷ ns) (h, hs) =
    let same = guard-eq-value (length n == 32) bad_length h in (ground arith, all_nonces ns hs)

attested :
    (d : EventDescriptor) (n : ℕ)
    → (expected_nonces d == n) ≡ true
    → validate_descriptor d ≡ value tt
    → Attestable d n
unfolding expected_nonces validate_descriptor validate_digits
attested (enum_event outcomes) n same valid = ground arith
attested (digit_decomposition x) n same valid =
    let (a, unsigned) = guard-also (ltb 0 x.base) bad_value valid in
    let b = guard-eq-value (not x.is_signed) bad_value unsigned in
    (ground arith, ground arith, ground arith)

-- What validate accepts.
pub validate_event-IsAttestable : (x : OracleEvent) → validate_event x ≡ value tt → IsAttestable x
unfolding validate_event
validate_event-IsAttestable x h =
    let (named, h₁) = guard-also (ltb 0 (length x.event_id)) bad_length h in
    let (some_nonce, h₂) = guard-also (ltb 0 (length x.oracle_nonces)) bad_length h₁ in
    let (each, h₃) =
      also-eq-value (check_each (λ n. guard (length n == 32) bad_length) x.oracle_nonces) h₂ in
    let (same, valid) =
      guard-also (expected_nonces x.event_descriptor == length x.oracle_nonces) bad_length h₃ in
    record {
      named = ground arith;
      some_nonce = ground arith;
      nonces = all_nonces x.oracle_nonces (check_each-eq-value _ x.oracle_nonces each);
      count = attested x.event_descriptor (length x.oracle_nonces) same valid;
    }
