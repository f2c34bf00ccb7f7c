-- ===== src/Messages/Accept/Misread.antt =====
-- What getTlv and the readers behind it make of negotiation fields in
-- packages/messaging/lib/messages/DlcAccept.ts whose interval count stands for a length.
use node_dlc.Prelude.{
  ℕ, zero, suc, ◌+◌, ◌*◌, ◌^◌, ◌≤◌, ◌<◌, ◌≡◌, refl, ap, subst, ◌∙◌, arith, none, some, List, ◌++◌,
  length, length-append, Error, ok, err, Outcome, error, lift, result, >>=-ok, >>-ok, >>=-err,
  >>=-eq-ok, ok-injective, pure,
}
use node_dlc.Bufio.Bytes.{be_bytes, be_value}
use node_dlc.Bufio.Reader.{Reader, reader, read_bytes, read_big_size, read_u8, read_u64_be}
use node_dlc.Bufio.Reader.Reads.{ahead, ahead_after, ReadsEnd-bytes}
use node_dlc.Bufio.Reader.Numbers.{Reads-u8, Reads-big_size}
use node_dlc.Bufio.Writer.Expand.{max_size}
use node_dlc.Bufio.Writer.Numbers.{big_size}
use node_dlc.Messages.Codec.{read_times, read_counted, prefixed}
use node_dlc.Messages.Tlv.{get_tlv}
use node_dlc.Messages.Tlv.Exact.{read_bytes_inv}
use node_dlc.Messages.Tagged.{tagged, tagged_type, Reads-get_tlv}
use node_dlc.Messages.Payouts.{Interval, read_interval, read_rounding_intervals}
use node_dlc.Messages.Contract.{deserialize_intervals}
use node_dlc.Messages.Accept.{
  single_fields, read_single_fields, deserialize_negotiation, negotiation_by, read_negotiation,
}

-- How far a read went that succeeded.
record Went (r r' : Reader) (k : ℕ) : Type 0 where
  same : r'.buffer ≡ r.buffer
  moved : r'.position ≡ r.position + k
  inside : r'.position ≤ length r'.buffer

read_u64_be-Went :
    (r r' : Reader) (n : ℕ) → r.position ≤ length r.buffer → read_u64_be r ≡ ok n r' → Went r r' 8
unfolding read_u64_be
read_u64_be-Went r r' n h e =
    let (bs, u, e₁, rest) = >>=-eq-ok (read_bytes (some 8)) (λ bs. pure (be_value bs)) e in
    let (c, size) = read_bytes_inv 8 r u bs h e₁ in
    let (value_same, at) = ok-injective rest in
    subst (λ q. Went r q 8) at
      (record { same = c.same; moved = omega (arith, c.moved, size); inside = c.inside })

read_interval-Went :
    (r r' : Reader) (x : Interval)
    → r.position ≤ length r.buffer
    → read_interval r ≡ ok x r'
    → Went r r' 16
unfolding read_interval
read_interval-Went r r' x h e =
    let (a, u, e₁, rest) = >>=-eq-ok read_u64_be _ e in
    let p = read_u64_be-Went r u a h e₁ in
    let (b, w, e₂, last) = >>=-eq-ok read_u64_be _ rest in
    let q = read_u64_be-Went u w b p.inside e₂ in
    let (made, at) = ok-injective last in
    subst (λ t. Went r t 16) at
      (record {
        same = q.same ∙ p.same;
        moved = omega (arith, p.moved, q.moved);
        inside = q.inside;
      })

intervals_fit :
    (n : ℕ) (r r' : Reader) (xs : List Interval)
    → r.position ≤ length r.buffer
    → read_times n read_interval r ≡ ok xs r'
    → r.position + 16 * n ≤ length r.buffer
unfolding read_times
intervals_fit zero r r' xs h e = omega arith
intervals_fit (suc n) r r' xs h e =
    let (x, u, e₁, rest) = >>=-eq-ok read_interval _ e in
    let p = read_interval-Went r u x h e₁ in
    let (ys, w, e₂, last) = >>=-eq-ok (read_times n read_interval) _ rest in
    omega (arith, intervals_fit n u w ys p.inside e₂, p.moved, ap length p.same)

module _ (body : List ℕ) (some_byte : 0 < length body) (h : length body < 2 ^ 64) where
  -- As many bytes as intervals are too few.
  intervals_short : (e : Error) × (deserialize_intervals (prefixed body) ≡ error e)
  unfolding deserialize_intervals read_rounding_intervals read_counted
  intervals_short =
      let (u, e₁, x) =
        (Reads-big_size (length body) h).run (reader (prefixed body)) body (omega arith) refl in
      let (e, failed) =
        from u x.inside x.same x.moved (read_times (length body) read_interval u) refl in
      (e, ap result (>>=-ok read_big_size (λ n. read_times n read_interval) e₁) ∙ failed)
    where
      from :
          (u : Reader)
          → u.position ≤ length u.buffer
          → u.buffer ≡ prefixed body
          → u.position ≡ 0 + length (big_size (length body))
          → (o : Outcome Reader (List Interval)) → read_times (length body) read_interval u ≡ o
          → (e : Error) × (result o ≡ error e)
      from u inside same moved (ok xs w) got = absurd (
          omega (
            arith,
            intervals_fit (length body) u w xs inside got,
            ap length same,
            length-append (big_size (length body)) body,
          ))
      from u inside same moved (err e w) got = (e, refl)

  single_short : (e : Error) × (result (read_single_fields (reader (tagged 0 body))) ≡ error e)
  unfolding read_single_fields
  single_short =
      let (u, e₁, x) =
        (Reads-big_size 0 (omega arith)).run (reader (tagged 0 body)) (prefixed body) (omega arith)
          refl in
      let left = ahead_after (reader (tagged 0 body)) u (big_size 0) (prefixed body) refl x in
      let (w, e₂, y) = (ReadsEnd-bytes (prefixed body)).run u x.inside left in
      let (e, failed) = intervals_short in
      (
        e,
        ap result (
            >>-ok read_big_size _ e₁
            ∙ >>=-ok (read_bytes none) _ e₂
            ∙ >>=-err (lift (deserialize_intervals (prefixed body))) (λ xs. pure (single_fields xs))
                (ap (λ o. lift o w) failed)),
      )

  negotiation_short : (e : Error) × (deserialize_negotiation (tagged 0 body) ≡ error e)
  unfolding deserialize_negotiation
  negotiation_short =
      let (e, failed) = single_short in (e, rw (tagged_type 0 body (omega arith)) failed)

  -- The marker, the misread TLV, and whatever follows.
  pub read_negotiation_short :
      (r : Reader) (rest : List ℕ)
      → length (tagged 0 body) ≤ max_size
      → r.position ≤ length r.buffer
      → ahead r ≡ be_bytes 1 1 ++ (tagged 0 body ++ rest)
      → (e : Error) × (u : Reader) × (read_negotiation r ≡ err e u)
  unfolding read_negotiation negotiation_by
  read_negotiation_short r rest fits inside a =
      let (u, e₁, x) = (Reads-u8 1 (omega arith)).run r (tagged 0 body ++ rest) inside a in
      let left = ahead_after r u (be_bytes 1 1) (tagged 0 body ++ rest) a x in
      let (w, e₂, y) = (Reads-get_tlv 0 body (omega arith) fits).run u rest x.inside left in
      let (e, failed) = negotiation_short in
      (
        e,
        w,
        >>=-ok read_u8 negotiation_by e₁
            ∙ >>=-ok get_tlv _ e₂
            ∙ >>=-err (lift (deserialize_negotiation (tagged 0 body))) (λ f. pure (some f))
                (ap (λ o. lift o w) failed),
      )
