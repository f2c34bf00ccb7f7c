-- ===== src/Messages/Offer/Version.antt =====
-- The version of an offer in packages/messaging/lib/messages/DlcOffer.ts, and the guess whether there
-- is one.
use node_dlc.Prelude.{
  ℕ, ◌^◌, ◌≤◌, ◌<◌, ◌≡◌, ◌⊎◌, refl, sym, ap, ◌∙◌, arith, true, false, ◌&&◌, List, ◌++◌, length,
  take, take-append_eq, leb, ok, ◌>>=◌, >>=-ok, pure,
}
use node_dlc.Bufio.Bytes.{be_bytes, be_value, length-be_bytes, be_value-be_bytes}
use node_dlc.Bufio.Reader.{Reader, Read, read_u32_be}
use node_dlc.Bufio.Reader.Reads.{Reads, ReadsEnd, ahead, Reads-end, Reads-result, Reads-standard}
use node_dlc.Bufio.Reader.Numbers.{Reads-u32}
use node_dlc.Messages.Codec.{look_ahead}
use node_dlc.Messages.Offer.{peek_version, version_by, read_version}

-- What four bytes at the front show, with the position left where it is.
peek_lem :
    (four rest : List ℕ) (r : Reader)
    → length four ≡ 4
    → ahead r ≡ four ++ rest
    → peek_version r ≡ ok (be_value four) r
unfolding peek_version look_ahead read_u32_be
peek_lem four rest r n e =
    let front : take 4 (ahead r) ≡ four = ap (take 4) e ∙ take-append_eq 4 four rest (sym n) in
    rw (front, Reads-result (Reads-end (Reads-standard be_value 4 four n))) refl

-- The numbers that are taken for a version.
abbrev pub IsVersion : ℕ → Type 0
IsVersion v = (1 ≤ v) × (v ≤ 10)

version_by_new : (n : ℕ) → IsVersion n → version_by n ≡ read_u32_be
unfolding version_by
version_by_new n (a, b) = let test : (leb 1 n && leb n 10) ≡ true = ground arith in rw test refl

version_by_old : (n : ℕ) → (n < 1) ⊎ (10 < n) → version_by n ≡ pure 1
unfolding version_by
version_by_old n outside = let test : (leb 1 n && leb n 10) ≡ false = ground arith in rw test refl

pub Reads-version : (v : ℕ) → IsVersion v → Reads read_version (be_bytes 4 v) v
unfolding read_version
Reads-version v is = record {
  run = λ r rest h e.
      let small : v < 2 ^ 32 = omega (arith, is.1) in
      let back : be_value (be_bytes 4 v) ≡ v = be_value-be_bytes 4 v small in
      let (r', e', x) = (Reads-u32 v small).run r rest h e in
      (
        r',
        >>=-ok peek_version version_by (peek_lem (be_bytes 4 v) rest r (length-be_bytes 4 v) e)
            ∙ ap (λ n. version_by n r) back
            ∙ ap (λ (m : Read ℕ). m r) (version_by_new v is)
            ∙ e',
        x,
      );
}

-- Four bytes that are no version stay where they are.
pub ReadsEnd-no_version :
    {A : Type 0} (k : ℕ → Read A) (four rest : List ℕ) {a : A}
    → length four ≡ 4
    → (be_value four < 1) ⊎ (10 < be_value four)
    → ReadsEnd (k 1) (four ++ rest) a
    → ReadsEnd (read_version >>= k) (four ++ rest) a
unfolding read_version
ReadsEnd-no_version k four rest n outside p = record {
  run = λ r h e.
      let (r', e', x) = p.run r h e in
      (
        r',
        >>=-ok read_version k (
              >>=-ok peek_version version_by (peek_lem four rest r n e)
              ∙ ap (λ (m : Read ℕ). m r) (version_by_old (be_value four) outside))
            ∙ e',
        x,
      );
}
