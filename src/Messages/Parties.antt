-- ===== src/Messages/Parties.antt =====
-- What `validate` of packages/messaging/lib/messages/DlcOffer.ts and DlcAccept.ts have in common:
-- the version, the scripts and key of a party, and its funding inputs. Address and key checks of
-- third-party libraries are a parameter.
use node_dlc.Prelude.{
  ℕ, ◌+◌, ◌≤◌, ◌≡◌, ◌≢◌, arith, Bool, true, false, ◌||◌, Bool-cases, inl, inr, none, some, List, [],
  ◌∷◌, length, All, map, ◌==◌, if◌then◌else◌, null_pointer, bad_version, bad_length, bad_key,
  bad_value, Result, value, error, guard, ◌also◌, guard-also, guard-eq-value,
}
use node_dlc.Messages.Inputs.{FundingInput}
use node_dlc.Messages.Inputs.Validate.{output_at}

-- Whether a script has an address, and whether bytes are a public key.
pub record Standards : Type 0 where
  pub has_address : List ℕ → Bool
  pub is_public_key : List ℕ → Bool

abbrev pub current_version : ℕ
current_version = 1

abbrev pub begins_with : List ℕ → ℕ → Bool
begins_with [] b = false
begins_with (a ∷ bs) b = a == b

unfoldable pub validate_key : Standards → List ℕ → Result (Unit {0})
validate_key std key =
    guard (std.is_public_key key) bad_key
    also guard (begins_with key 2 || begins_with key 3) bad_key

-- The checks that both messages begin with.
unfoldable pub validate_party :
    Standards → ℕ → List ℕ → List ℕ → List ℕ → List ℕ → Result (Unit {0})
validate_party std version id payout_spk change_spk key =
    guard (version == current_version) bad_version
    also guard (length id == 32) bad_length
    also guard (std.has_address payout_spk) bad_value
    also guard (std.has_address change_spk) bad_value
    also validate_key std key

unfoldable pub elem : ℕ → List ℕ → Bool
elem a [] = false
elem a (x ∷ xs) = a == x || elem a xs

-- `new Set(ids)`: an item goes in unless it is there.
unfoldable pub set_from : List ℕ → List ℕ → List ℕ
set_from s [] = s
set_from s (x ∷ xs) = set_from (if elem x s then s else x ∷ s) xs

unfoldable pub validate_serial_ids : List FundingInput → Result (Unit {0})
validate_serial_ids inputs =
    let ids = map (λ (i : FundingInput). i.input_serial_id) inputs in
    guard (length (set_from [] ids) == length ids) bad_value

-- The sum of the outputs that the inputs spend; one that is not there has no value to read.
unfoldable pub funding_from : ℕ → List FundingInput → Result ℕ
funding_from acc [] = value acc
funding_from acc (x ∷ xs) = elim (output_at x.prev_tx.outputs x.prev_tx_vout) [
  | none ↦ error null_pointer
  | some o ↦ funding_from (acc + o.value) xs
]

unfoldable pub funding_amount : List FundingInput → Result ℕ
funding_amount inputs = funding_from 0 inputs

-- No item twice.
abbrev pub Distinct : List ℕ → Type 0
Distinct [] = Unit
Distinct (x ∷ xs) = All (λ y. x ≢ y) xs × Distinct xs

length-set_from : (s xs : List ℕ) → length (set_from s xs) ≤ length s + length xs
unfolding set_from
length-set_from s [] = omega arith
length-set_from s (x ∷ xs) = elim (Bool-cases (elem x s)) [
  | inl in_it ↦ rw in_it (omega (arith, length-set_from s xs))
  | inr new ↦ rw new (omega (arith, length-set_from (x ∷ s) xs))
]

abbrev New : List ℕ → List ℕ → Type 0
New s xs = All (λ y. elem y s ≡ false) xs

New-apart : (x : ℕ) (s ys : List ℕ) → New (x ∷ s) ys → All (λ y. x ≢ y) ys × New s ys
unfolding elem
New-apart x s [] h = (tt, tt)
New-apart x s (y ∷ ys) (h, hs) =
    let (a, b) = New-apart x s ys hs in (((λ e. apart e), a), (rest, b))
  where
    apart : x ≡ y → ⊥
    apart e = ground (arith, h)

    rest : elem y s ≡ false
    rest = ground (arith, h)

set_from_full :
    (s xs : List ℕ) → length (set_from s xs) ≡ length s + length xs → Distinct xs × New s xs
unfolding set_from
set_from_full s [] h = (tt, tt)
set_from_full s (x ∷ xs) h = elim (Bool-cases (elem x s)) [
  | inl in_it ↦ absurd (omega (arith, rw in_it at h, length-set_from s xs))
  | inr new ↦
      let (d, n) = set_from_full (x ∷ s) xs (omega (arith, rw new at h)) in
      let (a, b) = New-apart x s xs n in ((a, d), (new, b))
]

-- A set that is as large as the list holds no item twice.
set_from-Distinct : (xs : List ℕ) → (length (set_from [] xs) == length xs) ≡ true → Distinct xs
set_from-Distinct xs h = (set_from_full [] xs (ground arith)).0

pub record IsParty (std : Standards) (version : ℕ) (id payout_spk change_spk key : List ℕ)
    : Type 0 where
  pub version_is : version ≡ current_version
  pub id_size : length id ≡ 32
  pub payout_address : std.has_address payout_spk ≡ true
  pub change_address : std.has_address change_spk ≡ true
  pub valid_key : std.is_public_key key ≡ true
  pub compressed : (begins_with key 2 || begins_with key 3) ≡ true

pub validate_party-IsParty :
    (std : Standards) (version : ℕ) (id payout_spk change_spk key : List ℕ)
    → validate_party std version id payout_spk change_spk key ≡ value tt
    → IsParty std version id payout_spk change_spk key
unfolding validate_party validate_key
validate_party-IsParty std version id payout_spk change_spk key h =
    let (a, h₁) = guard-also (version == current_version) bad_version h in
    let (b, h₂) = guard-also (length id == 32) bad_length h₁ in
    let (c, h₃) = guard-also (std.has_address payout_spk) bad_value h₂ in
    let (d, h₄) = guard-also (std.has_address change_spk) bad_value h₃ in
    let (e, h₅) = guard-also (std.is_public_key key) bad_key h₄ in
    record {
      version_is = ground arith;
      id_size = ground arith;
      payout_address = c;
      change_address = d;
      valid_key = e;
      compressed = guard-eq-value (begins_with key 2 || begins_with key 3) bad_key h₅;
    }

pub validate_serial_ids-Distinct :
    (inputs : List FundingInput)
    → validate_serial_ids inputs ≡ value tt
    → Distinct (map (λ i. i.input_serial_id) inputs)
unfolding validate_serial_ids
validate_serial_ids-Distinct inputs h =
    set_from-Distinct (map (λ i. i.input_serial_id) inputs) (guard-eq-value _ bad_value h)
