-- ===== src/Bufio/RoundTrip.antt =====
-- What `BufferWriter` writes `BufferReader` reads back.
use node_dlc.Prelude.{
  ℕ, ◌+◌, ◌^◌, ◌≤◌, ◌<◌, ◌≡◌, refl, ap, ◌∙◌, arith, Option, none, some, List, [], ◌∷◌, ◌++◌, length,
  All, length-append, value, and_then, result, ◌>>=◌, ◌>>◌, pure, ltb, Bool-cases, inl, inr,
}
use node_dlc.Bufio.Bytes.{be_bytes, le_bytes, length-be_bytes, length-le_bytes}
use node_dlc.Bufio.Reader.{
  Read, reader, read_bytes, read_big_size, read_var_uint, read_optional, read_sibling_type,
  big_size_bytes,
}
use node_dlc.Bufio.Reader.Reads.{
  Reads, ReadsEnd, Reads-bind_end, ReadsEnd-map, ReadsEnd-bytes, Reads-result,
}
use node_dlc.Bufio.Reader.Numbers.{Reads-big_size, Reads-var_int, ReadsEnd-optional}
use node_dlc.Bufio.Writer.{
  Write, growing, to_buffer, output, write_bytes, write_big_size, write_var_int, write_optional,
  write_sibling_type,
}
use node_dlc.Bufio.Writer.Expand.{max_size}
use node_dlc.Bufio.Writer.Appends.{
  Appends, Appends-seq, Appends-write_bytes, Appends-each, each_bytes, write_each,
}
use node_dlc.Bufio.Writer.Numbers.{
  big_size, var_int, optional, Appends-big_size, Appends-var_int, Appends-optional, Appends-sibling,
}

-- Bytes that are appended to a new writer are what it puts out.
pub Appends-output :
    (m : Write) (bs : List ℕ) → Appends m bs → length bs ≤ max_size → output m ≡ value bs
unfolding output to_buffer
Appends-output m bs p h =
    let (w, e, x) = p.run growing (record { grows = refl; within = omega arith }) (omega arith) in
    rw (e, output) (rw (x.still.grows) (ap value x.holds))

-- Written and read again by a matching reader.
pub round_trip :
    {A : Type 0} (m : Write) (k : Read A) (bs : List ℕ) (a : A)
    → Appends m bs
    → ReadsEnd k bs a
    → length bs ≤ max_size
    → and_then (output m) (λ out. result (k (reader out))) ≡ value a
round_trip m k bs a p q h = rw (Appends-output m bs p h) (Reads-result q)

length-form : (m k val : ℕ) → length (be_bytes 1 m ++ be_bytes k val) ≡ 1 + k
length-form m k val =
    length-append (be_bytes 1 m) (be_bytes k val)
    ∙ omega (arith, length-be_bytes 1 m, length-be_bytes k val)

pub length-big_size : (val : ℕ) → length (big_size val) ≡ big_size_bytes val
unfolding big_size big_size_bytes
length-big_size val = elim (Bool-cases (ltb val 0xfd)) [
  | inl a ↦ rw a (length-be_bytes 1 val)
  | inr a ↦ rw a (elim (Bool-cases (ltb val 0x1_0000)) [
    | inl b ↦ rw b (length-form _ _ val)
    | inr b ↦ rw b (elim (Bool-cases (ltb val 0x1_0000_0000)) [
      | inl c ↦ rw c (length-form _ _ val)
      | inr c ↦ rw c (length-form _ _ val)
    ])
  ])
]

pub big_size_bytes_le : (val : ℕ) → big_size_bytes val ≤ 9
unfolding big_size_bytes
big_size_bytes_le val = ground arith

pub length-big_size_le : (val : ℕ) → length (big_size val) ≤ 9
length-big_size_le val = omega (arith, length-big_size val, big_size_bytes_le val)

big_size_bytes_pos : (val : ℕ) → 1 ≤ big_size_bytes val
unfolding big_size_bytes
big_size_bytes_pos val = ground arith

pub length-big_size_pos : (val : ℕ) → 1 ≤ length (big_size val)
length-big_size_pos val = omega (arith, length-big_size val, big_size_bytes_pos val)

-- A number and whatever follows it.
abbrev pub with_rest : Read ℕ → Read (ℕ × List ℕ)
with_rest m = do n ← m; rest ← read_bytes none; pure (n, rest)

ReadsEnd-with_rest :
    (m : Read ℕ) (bs rest : List ℕ) (n : ℕ)
    → Reads m bs n
    → ReadsEnd (with_rest m) (bs ++ rest) (n, rest)
ReadsEnd-with_rest m bs rest n p =
    Reads-bind_end _ p (ReadsEnd-map (λ r. (n, r)) (ReadsEnd-bytes rest))

-- Of every 64-bit number that writeBigSize wrote to a new writer, followed by any bytes that fit
-- in 2^30, readBigSize returns the number and stops in front of those bytes.
pub read-write_big_size :
    (val : ℕ) (rest : List ℕ)
    → val < 2 ^ 64
    → length rest + 9 ≤ max_size
    → and_then
        (output (do write_big_size val; write_bytes rest))
        (λ out. result (with_rest read_big_size (reader out)))
      ≡ value (val, rest)
read-write_big_size val rest h n =
    round_trip _ _ (big_size val ++ rest) (val, rest)
      (Appends-seq (Appends-big_size val h) (Appends-write_bytes rest))
      (ReadsEnd-with_rest read_big_size _ rest val (Reads-big_size val h))
      (omega (arith, length-append (big_size val) rest, length-big_size_le val))

-- For every 64-bit number writeBigSize succeeds on a new writer and writes as many bytes as
-- bigSizeBytes foretells.
pub length-write_big_size :
    (val : ℕ)
    → val < 2 ^ 64
    → (bs : List ℕ) × (output (write_big_size val) ≡ value bs) × (length bs ≡ big_size_bytes val)
length-write_big_size val h = (
  big_size val,
  Appends-output _ _ (Appends-big_size val h) (omega (arith, length-big_size_le val)),
  length-big_size val,
)

length-var_int_le : (val : ℕ) → length (var_int val) ≤ 9
unfolding var_int
length-var_int_le val = ground (arith, length-be_bytes 1 val, form 2 0xfd, form 4 0xfe, form 8 0xff)
  where
    form : (k m : ℕ) → length (be_bytes 1 m ++ le_bytes k val) ≡ 1 + k
    form k m =
        length-append (be_bytes 1 m) (le_bytes k val)
        ∙ omega (arith, length-be_bytes 1 m, length-le_bytes k val)

-- Of every 64-bit number that writeVarInt wrote to a new writer, followed by any bytes that fit
-- in 2^30, readVarUint returns the number and stops in front of those bytes.
pub read-write_var_int :
    (val : ℕ) (rest : List ℕ)
    → val < 2 ^ 64
    → length rest + 9 ≤ max_size
    → and_then
        (output (do write_var_int val; write_bytes rest))
        (λ out. result (with_rest read_var_uint (reader out)))
      ≡ value (val, rest)
read-write_var_int val rest h n =
    round_trip _ _ (var_int val ++ rest) (val, rest)
      (Appends-seq (Appends-var_int val h) (Appends-write_bytes rest))
      (ReadsEnd-with_rest read_var_uint _ rest val (Reads-var_int val h))
      (omega (arith, length-append (var_int val) rest, length-var_int_le val))

abbrev pub field_size : Option (List ℕ) → ℕ
field_size none = 1
field_size (some body) = 1 + length body

-- The absent field, and the field of any bytes that fit in 2^30 with their marker, is what
-- readOptional returns from what writeOptional wrote.
pub read-write_optional :
    (o : Option (List ℕ))
    → field_size o ≤ max_size
    → and_then (output (write_optional o)) (λ out. result (read_optional (reader out))) ≡ value o
read-write_optional o h =
    round_trip _ _ (optional o) o (Appends-optional o) (ReadsEnd-optional o) (fits o h)
  where
    fits : (p : Option (List ℕ)) → field_size p ≤ max_size → length (optional p) ≤ max_size
    fits none k = omega (arith, length-be_bytes 1 0)
    fits (some body) k = omega (arith, length-append (be_bytes 1 1) body, length-be_bytes 1 1)

-- A 64-bit type number and any bytes that fit in 2^30 behind it are what readSiblingType returns
-- from what writeSiblingType wrote.
pub read-write_sibling_type :
    (type_id : ℕ) (body : List ℕ)
    → type_id < 2 ^ 64
    → length body + 9 ≤ max_size
    → and_then
        (output (write_sibling_type type_id body))
        (λ out. result (read_sibling_type (reader out)))
      ≡ value (record { type_id = type_id; body = body })
unfolding read_sibling_type
read-write_sibling_type type_id body h n =
    round_trip _ _ (big_size type_id ++ body) _ (Appends-sibling type_id body h)
      (Reads-bind_end _ (Reads-big_size type_id h)
        (ReadsEnd-map (λ b. record { type_id = type_id; body = b }) (ReadsEnd-bytes body)))
      (omega (arith, length-append (big_size type_id) body, length-big_size_le type_id))

-- Whatever pieces of 2^30 bytes together at most are written one after the other, a growing
-- writer puts out their concatenation.
pub output-write_each :
    (pieces : List (List ℕ))
    → length (each_bytes (λ p. p) pieces) ≤ max_size
    → output (write_each write_bytes pieces) ≡ value (each_bytes (λ p. p) pieces)
output-write_each pieces h =
    Appends-output _ _
      (Appends-each write_bytes (λ p. p) pieces (λ p _. Appends-write_bytes p) (trivial pieces)) h
  where
    trivial : (ps : List (List ℕ)) → All (λ _. Unit {0}) ps
    trivial [] = tt
    trivial (p ∷ ps) = (tt, trivial ps)
