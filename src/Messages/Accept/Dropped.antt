-- ===== src/Messages/Accept/Dropped.antt =====
-- The negotiation fields that a dlc_accept writes have no length, and getTlv takes the number of
-- rounding intervals for one: what it cuts out is too short, and the error is ignored.
use node_dlc.Prelude.{
  ℕ, ◌*◌, ◌^◌, ◌≤◌, ◌<◌, ◌≡◌, refl, sym, ap, subst, ◌∙◌, arith, true, some, List, [], ◌∷◌, ◌++◌,
  length, take, drop, length-append, length-take, take-append-drop, append_assoc, All, ok, value,
  and_then, result,
}
use node_dlc.Bufio.Bytes.{be_bytes, length-be_bytes}
use node_dlc.Bufio.Reader.{reader}
use node_dlc.Bufio.Reader.Ends.{Ends, Ends-result}
use node_dlc.Bufio.Writer.{output}
use node_dlc.Bufio.Writer.Expand.{max_size}
use node_dlc.Bufio.Writer.Appends.{Appends, Appends-seq, each_bytes}
use node_dlc.Bufio.Writer.Numbers.{big_size, Appends-u8, Appends-big_size}
use node_dlc.Bufio.RoundTrip.{Appends-output}
use node_dlc.Messages.Codec.{counted, prefixed, Appends-inner}
use node_dlc.Messages.Tagged.{tagged}
use node_dlc.Messages.Text.{Utf8, Utf8Laws}
use node_dlc.Messages.Payouts.{Interval}
use node_dlc.Messages.Payouts.RoundTrip.{IsInterval, interval_bytes, Appends-rounding_intervals}
use node_dlc.Messages.Tail.{tail_bytes}
use node_dlc.Messages.Accept.{
  single_fields, write_negotiation, write_negotiation_option, no_ending, ending_after, read_ending,
  DlcAccept, write_accept, read_accept,
}
use node_dlc.Messages.Accept.RoundTrip.{
  IsAccept, accept_bytes, Appends-accept, Ends-accept, read_ending_some,
}
use node_dlc.Messages.Accept.Misread.{read_negotiation_short}

length-intervals : (xs : List Interval) → length (each_bytes interval_bytes xs) ≡ 16 * length xs
length-intervals [] = refl
length-intervals (x ∷ xs) = omega (
  arith,
  length-append (interval_bytes x) (each_bytes interval_bytes xs),
  length-append (be_bytes 8 x.begin_interval) (be_bytes 8 x.rounding_mod),
  length-be_bytes 8 x.begin_interval,
  length-be_bytes 8 x.rounding_mod,
  length-intervals xs,
)

-- The fields with their marker.
abbrev pub negotiation_bytes : List Interval → List ℕ
negotiation_bytes xs = be_bytes 1 1 ++ (big_size 0 ++ counted interval_bytes xs)

module _ (xs : List Interval) where
  -- What getTlv takes for the body.
  abbrev cut : List ℕ
  cut = take (length xs) (each_bytes interval_bytes xs)

  length-cut : length cut ≡ length xs
  length-cut =
      omega (arith, length-take (length xs) (each_bytes interval_bytes xs), length-intervals xs)

  negotiation_cut :
      (after : List ℕ)
      → negotiation_bytes xs ++ after
        ≡ be_bytes 1 1
          ++ (tagged 0 cut ++ (drop (length xs) (each_bytes interval_bytes xs) ++ after))
  negotiation_cut after =
      let each = each_bytes interval_bytes xs in
      let n = big_size (length xs) in
      let halves : each ≡ cut ++ drop (length xs) each = sym (take-append-drop (length xs) each) in
      let front : n ++ each ≡ prefixed cut ++ drop (length xs) each =
        rw length-cut
          (ap (λ t. n ++ t) halves ∙ sym (append_assoc n cut (drop (length xs) each))) in
      append_assoc (be_bytes 1 1) (big_size 0 ++ (n ++ each)) after
      ∙ ap (λ t. be_bytes 1 1 ++ ((big_size 0 ++ t) ++ after)) front
      ∙ ap (λ t. be_bytes 1 1 ++ (t ++ after))
          (sym (append_assoc (big_size 0) (prefixed cut) (drop (length xs) each)))
      ∙ ap (λ t. be_bytes 1 1 ++ t) (append_assoc (tagged 0 cut) (drop (length xs) each) after)

  cut_fits : length (negotiation_bytes xs) ≤ max_size → length (tagged 0 cut) ≤ max_size
  cut_fits h =
      let each = each_bytes interval_bytes xs in
      rw length-cut (
        omega (
          arith,
          length-append (be_bytes 1 1) (big_size 0 ++ (big_size (length xs) ++ each)),
          length-append (big_size 0) (big_size (length xs) ++ each),
          length-append (big_size (length xs)) each,
          length-append (big_size 0) (big_size (length xs) ++ cut),
          length-append (big_size (length xs)) cut,
          length-intervals xs,
          length-cut,
        ))

  Appends-negotiation :
      All IsInterval xs
      → length xs < 2 ^ 64
      → Appends (write_negotiation_option (some (single_fields xs))) (negotiation_bytes xs)
  unfolding write_negotiation_option write_negotiation
  Appends-negotiation valid h = Appends-seq (Appends-u8 1 (omega arith)) (
      Appends-inner (
        Appends-seq (Appends-big_size 0 (omega arith))
          (Appends-inner (Appends-rounding_intervals xs valid h))))

length-accept_ge :
    (x : DlcAccept) (negotiation : List ℕ)
    → length negotiation ≤ length (accept_bytes x negotiation)
length-accept_ge x negotiation = simp length-append (omega arith)

module _ (utf : Utf8) (laws : Utf8Laws utf) (x : DlcAccept) (v : IsAccept x)
    (xs : List Interval) where
  Ends-dropped :
      0 < length xs
      → length xs < 2 ^ 64
      → length (negotiation_bytes xs) ≤ max_size
      → Ends (read_ending utf) (negotiation_bytes xs ++ tail_bytes x.ending.tail) no_ending
  unfolding ending_after
  Ends-dropped some_one h fits = record {
    run = λ r inside a.
        let after = tail_bytes x.ending.tail in
        let (e, u, failed) =
          read_negotiation_short (cut xs) (omega (arith, length-cut xs))
            (omega (arith, length-cut xs)) r _ (cut_fits xs fits) inside
            (a ∙ negotiation_cut xs after) in
        (
          r,
          read_ending_some utf laws r (negotiation_bytes xs ++ after) a (
                omega (
                  arith,
                  length-append (negotiation_bytes xs) after,
                  length-append (be_bytes 1 1) (big_size 0 ++ counted interval_bytes xs),
                  length-be_bytes 1 1,
                ))
              ∙ ap (λ o. ok (ending_after utf o) r) failed,
        );
  }

  -- Of every acceptance with fields in range that fits in 2^30 bytes and has negotiation fields
  -- of a single contract with one interval at least, deserialize returns, from what serialize
  -- wrote, the same acceptance without its negotiation fields, its funding groups and its unknown
  -- TLVs.
  pub read-write_accept_dropped :
      x.ending.negotiation_fields ≡ some (single_fields xs)
      → All IsInterval xs
      → 0 < length xs
      → length xs < 2 ^ 64
      → length (accept_bytes x (negotiation_bytes xs)) ≤ max_size
      → and_then (output (write_accept utf x)) (λ out. result (read_accept utf true (reader out)))
        ≡ value (record x { ending = no_ending })
  read-write_accept_dropped present valid some_one h size =
      let written : Appends (write_negotiation_option x.ending.negotiation_fields)
          (negotiation_bytes xs) =
        subst (λ o. Appends (write_negotiation_option o) (negotiation_bytes xs)) (sym present)
          (Appends-negotiation xs valid h) in
      let fits : length (negotiation_bytes xs) ≤ max_size =
        omega (arith, length-accept_ge x (negotiation_bytes xs)) in
      rw (Appends-output _ _ (Appends-accept utf laws x v (negotiation_bytes xs) written) size) (
        Ends-result (
          Ends-accept utf laws x v (negotiation_bytes xs) no_ending (Ends-dropped some_one h fits)))
