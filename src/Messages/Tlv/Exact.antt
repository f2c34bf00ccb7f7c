-- ===== src/Messages/Tlv/Exact.antt =====
-- The bytes that `getTlv` returns are those it moved over.
use node_dlc.Prelude.{
  ℕ, zero, suc, ◌+◌, ◌^◌, ◌≤◌, ◌<◌, ◌≡◌, sym, ap, ◌∙◌, arith, some, List, ◌++◌, length, All, ltb,
  ok, ok-injective, err-ne-ok, >>=-ok, >>-ok, >>=-eq-ok, value, result, Bool-cases, inl, inr, subst,
}
use node_dlc.Bufio.Bytes.{IsByte}
use node_dlc.Bufio.Reader.{Reader, reader, read_big_size, read_bytes}
use node_dlc.Bufio.Reader.Reads.{Reads, Reads-bind, Reads-end, Reads-result}
use node_dlc.Bufio.Reader.Numbers.{Reads-big_size, Reads-exactly, Reads-map}
use node_dlc.Bufio.Writer.{output}
use node_dlc.Bufio.Writer.Expand.{max_size}
use node_dlc.Bufio.Writer.Appends.{Appends-seq, Appends-write_bytes}
use node_dlc.Bufio.Writer.Numbers.{big_size, Appends-big_size}
use node_dlc.Bufio.RoundTrip.{Appends-output}
use node_dlc.Bufio.Canonical.{Consumed, Consumed-trans, take-Consumed, read_big_size_canonical}
use node_dlc.Messages.Tlv.{Tlv, deserialize_tlv, write_tlv, get_tlv, skip_tlv}

pub read_bytes_inv :
    (n : ℕ) (r r' : Reader) (v : List ℕ)
    → r.position ≤ length r.buffer
    → read_bytes (some n) r ≡ ok v r'
    → Consumed r r' v × (length v ≡ n)
unfolding read_bytes
read_bytes_inv zero r r' v h e =
    let (ev, er) = ok-injective e in
    let (c, size) =
      take-Consumed r r' 0 (omega (arith, h)) (sym (ap (λ q. q.buffer) er))
        (sym (ap (λ q. q.position) er) ∙ omega arith) in
    (subst (Consumed r r') ev c, subst (λ x. length x ≡ 0) ev size)
read_bytes_inv (suc n) r r' v h e = elim (Bool-cases (ltb (length r.buffer) (r.position + suc n))) [
  | inl past ↦ absurd (err-ne-ok (rw past at e))
  | inr room ↦
      let (ev, er) = ok-injective (rw room at e) in
      let (c, size) =
        take-Consumed r r' (suc n) (ground arith) (sym (ap (λ q. q.buffer) er))
          (sym (ap (λ q. q.position) er)) in
      (rw ev at c, rw ev at size)
]

abbrev pub tlv_bytes : Tlv → List ℕ
tlv_bytes t = big_size t.type_id ++ (big_size t.size ++ t.body)

output-write_tlv :
    (t : Tlv)
    → t.type_id < 2 ^ 64
    → t.size < 2 ^ 64
    → length (tlv_bytes t) ≤ max_size
    → output (write_tlv t.type_id t.size t.body) ≡ value (tlv_bytes t)
unfolding write_tlv
output-write_tlv t a b size =
    Appends-output _ _
      (Appends-seq (Appends-big_size _ a)
        (Appends-seq (Appends-big_size _ b) (Appends-write_bytes t.body)))
      size

pub Reads-tlv :
    (t : Tlv)
    → t.type_id < 2 ^ 64
    → t.size < 2 ^ 64
    → length t.body ≡ t.size
    → Reads deserialize_tlv (tlv_bytes t) t
unfolding deserialize_tlv
Reads-tlv t a b e =
    Reads-bind _ (Reads-big_size _ a)
      (Reads-bind _ (Reads-big_size _ b) (Reads-map _ (Reads-exactly t.size t.body e)))

length-Consumed : (r r' : Reader) (bs : List ℕ) → Consumed r r' bs → length bs ≤ length r.buffer
length-Consumed r r' bs c = let e = ap length c.same in omega (arith, c.moved, c.inside, e)

-- What `getTlv` got from `r`, and where it left the reader.
pub record Got (r r' : Reader) (out : List ℕ) (t : Tlv) : Type 0 where
  pub exact : Consumed r r' out
  pub read_again : result (deserialize_tlv (reader out)) ≡ value t
  pub read_here : deserialize_tlv r ≡ ok t r'
  pub skipped : skip_tlv r ≡ ok tt r'

Got-from :
    (r u v w r' : Reader) (t : Tlv) (out : List ℕ)
    → read_big_size r ≡ ok t.type_id u
    → read_big_size u ≡ ok t.size v
    → read_bytes (some t.size) v ≡ ok t.body w
    → result (deserialize_tlv (reader (tlv_bytes t))) ≡ value t
    → Consumed r w (tlv_bytes t)
    → (tlv_bytes t ≡ out) × (w ≡ r')
    → Got r r' out t
unfolding deserialize_tlv skip_tlv
Got-from r u v w r' t out e₁ e₂ e₃ again all (eo, er) = record {
  exact = subst (Consumed r r') eo (subst (λ q. Consumed r q (tlv_bytes t)) er all);
  read_again = subst (λ o. result (deserialize_tlv (reader o)) ≡ value t) eo again;
  read_here =
      >>=-ok read_big_size _ e₁
      ∙ >>=-ok read_big_size _ e₂
      ∙ >>=-ok (read_bytes (some t.size)) _ e₃
      ∙ ap (ok t) er;
  skipped =
      >>-ok read_big_size _ e₁
      ∙ >>=-ok read_big_size _ e₂
      ∙ >>-ok (read_bytes (some t.size)) _ e₃
      ∙ ap (ok tt) er;
}

-- On a buffer of bytes no longer than 2^30, when getTlv returns bytes, they are exactly those the
-- reader was moved over; deserializeTlv returns one and the same record from them and from the
-- reader, and skipTlv leaves the reader in the same state.
pub get_tlv-Got :
    (r r' : Reader) (out : List ℕ)
    → All IsByte r.buffer
    → length r.buffer ≤ max_size
    → get_tlv r ≡ ok out r'
    → (t : Tlv) × Got r r' out t
unfolding get_tlv
get_tlv-Got r r' out bytes fits e =
    let (type_id, u, e₁, rest₁) = >>=-eq-ok read_big_size _ e in
    let (c₁, a, _) = read_big_size_canonical r u type_id bytes e₁ in
    let (size, v, e₂, rest₂) = >>=-eq-ok read_big_size _ rest₁ in
    let (c₂, b, _) = read_big_size_canonical u v size (subst (All IsByte) (sym c₁.same) bytes) e₂ in
    let (body, w, e₃, rest₃) = >>=-eq-ok (read_bytes (some size)) _ rest₂ in
    let (c₃, n) = read_bytes_inv size v w body c₂.inside e₃ in
    let t : Tlv = record { type_id = type_id; size = size; body = body } in
    let all = Consumed-trans (big_size type_id) _ c₁ (Consumed-trans (big_size size) body c₂ c₃) in
    let small : length (tlv_bytes t) ≤ max_size =
      omega (arith, length-Consumed r w (tlv_bytes t) all) in
    (
      t,
      Got-from r u v w r' t out e₁ e₂ e₃ (Reads-result (Reads-end (Reads-tlv t a b n))) all
          (ok-injective (rw (output-write_tlv t a b small) at rest₃)),
    )
