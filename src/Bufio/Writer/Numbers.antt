-- ===== src/Bufio/Writer/Numbers.antt =====
-- What the writer's numeric methods, prefixed fields and loops append, with the format of each
-- written out as bytes.
use node_dlc.Prelude.{
  ℕ, ◌^◌, ◌<◌, arith, Option, none, some, List, [], ◌++◌, reverse-reverse, ltb, ◌==◌, lt→ltb,
  if◌then◌else◌, Bool-cases, inl, inr,
}
use node_dlc.Bufio.Bytes.{be_bytes, le_bytes, be_short, length-be_bytes, length-le_bytes}
use node_dlc.Bufio.Writer.{
  write_u8, write_u16_le, write_u16_be, write_u32_le, write_u32_be, write_u64_le, write_u64_be,
  write_var_int, write_big_size, write_optional, write_sibling_type, write_tuint16, write_tuint32,
  write_tuint64, tuint16_size, tuint32_size,
}
use node_dlc.Bufio.Writer.Appends.{
  Appends, Appends-pure, Appends-seq, Appends-if, Appends-standard, Appends-write_bytes,
}

-- The BigSize format of BOLT 1: the shortest of four forms, big endian.
unfoldable pub big_size : ℕ → List ℕ
big_size num =
    if ltb num 0xfd
    then be_bytes 1 num
    else if ltb num 0x1_0000
    then be_bytes 1 0xfd ++ be_bytes 2 num
    else if ltb num 0x1_0000_0000
    then be_bytes 1 0xfe ++ be_bytes 4 num
    else be_bytes 1 0xff ++ be_bytes 8 num

-- The VarInt format of Bitcoin: the same forms, little endian.
unfoldable pub var_int : ℕ → List ℕ
var_int num =
    if ltb num 0xfd
    then be_bytes 1 num
    else if ltb num 0x1_0000
    then be_bytes 1 0xfd ++ le_bytes 2 num
    else if ltb num 0x1_0000_0000
    then be_bytes 1 0xfe ++ le_bytes 4 num
    else be_bytes 1 0xff ++ le_bytes 8 num

-- A field that may be absent: a marker byte, and the bytes.
abbrev pub optional : Option (List ℕ) → List ℕ
optional none = be_bytes 1 0
optional (some body) = be_bytes 1 1 ++ body

Appends-marker : (m : ℕ) → m < 256 → Appends (write_u8 m) (be_bytes 1 m)
unfolding write_u8
Appends-marker m h = Appends-standard (be_bytes 1) m 1 (length-be_bytes 1 m) h

module _ (val : ℕ) where
  pub Appends-u8 : val < 256 → Appends (write_u8 val) (be_bytes 1 val)
  unfolding write_u8
  Appends-u8 h = Appends-standard (be_bytes 1) val 1 (length-be_bytes 1 val) h

  pub Appends-u16_le : val < 2 ^ 16 → Appends (write_u16_le val) (le_bytes 2 val)
  unfolding write_u16_le
  Appends-u16_le h = Appends-standard (le_bytes 2) val 2 (length-le_bytes 2 val) h

  pub Appends-u16 : val < 2 ^ 16 → Appends (write_u16_be val) (be_bytes 2 val)
  unfolding write_u16_be
  Appends-u16 h = Appends-standard (be_bytes 2) val 2 (length-be_bytes 2 val) h

  pub Appends-u32_le : val < 2 ^ 32 → Appends (write_u32_le val) (le_bytes 4 val)
  unfolding write_u32_le
  Appends-u32_le h = Appends-standard (le_bytes 4) val 4 (length-le_bytes 4 val) h

  pub Appends-u32 : val < 2 ^ 32 → Appends (write_u32_be val) (be_bytes 4 val)
  unfolding write_u32_be
  Appends-u32 h = Appends-standard (be_bytes 4) val 4 (length-be_bytes 4 val) h

  pub Appends-u64 : val < 2 ^ 64 → Appends (write_u64_be val) (be_bytes 8 val)
  unfolding write_u64_be
  Appends-u64 h = rw (lt→ltb _ _ h) (Appends-write_bytes (be_bytes 8 val))

  pub Appends-u64_le : val < 2 ^ 64 → Appends (write_u64_le val) (le_bytes 8 val)
  unfolding write_u64_le be_bytes
  Appends-u64_le h = rw (lt→ltb _ _ h) (rw reverse-reverse (Appends-write_bytes (le_bytes 8 val)))

  pub Appends-big_size : val < 2 ^ 64 → Appends (write_big_size val) (big_size val)
  unfolding write_big_size big_size
  Appends-big_size h =
      Appends-if (ltb val 0xfd) (λ a. Appends-u8 (ground arith))
        λ a.
          Appends-if (ltb val 0x1_0000)
            (λ b. Appends-seq (Appends-marker 0xfd (omega arith)) (Appends-u16 (ground arith)))
            λ b.
              Appends-if (ltb val 0x1_0000_0000)
                (λ c. Appends-seq (Appends-marker 0xfe (omega arith)) (Appends-u32 (ground arith)))
                (λ c. Appends-seq (Appends-marker 0xff (omega arith)) (Appends-u64 h))

  pub Appends-var_int : val < 2 ^ 64 → Appends (write_var_int val) (var_int val)
  unfolding write_var_int var_int
  Appends-var_int h =
      Appends-if (ltb val 0xfd) (λ a. Appends-u8 (ground arith))
        λ a.
          Appends-if (ltb val 0x1_0000)
            (λ b. Appends-seq (Appends-marker 0xfd (omega arith)) (Appends-u16_le (ground arith)))
            λ b.
              Appends-if (ltb val 0x1_0000_0000)
                (λ c.
                  Appends-seq (Appends-marker 0xfe (omega arith)) (Appends-u32_le (ground arith)))
                (λ c. Appends-seq (Appends-marker 0xff (omega arith)) (Appends-u64_le h))

pub Appends-optional : (o : Option (List ℕ)) → Appends (write_optional o) (optional o)
unfolding write_optional
Appends-optional none = Appends-marker 0 (omega arith)
Appends-optional (some body) =
    Appends-seq (Appends-marker 1 (omega arith)) (Appends-write_bytes body)

pub Appends-sibling :
    (type_id : ℕ) (body : List ℕ)
    → type_id < 2 ^ 64
    → Appends (write_sibling_type type_id body) (big_size type_id ++ body)
unfolding write_sibling_type
Appends-sibling type_id body h = Appends-seq (Appends-big_size type_id h) (Appends-write_bytes body)

-- The truncated integers of BOLT 1: no byte for 0, else big endian without leading zeros.
unfoldable pub tuint : (ℕ → ℕ) → ℕ → List ℕ
tuint width val = if val == 0 then [] else be_bytes (width val) val

pub Appends-tuint16 :
    (val : ℕ) → val < 2 ^ 16 → Appends (write_tuint16 val) (tuint tuint16_size val)
unfolding write_tuint16 tuint tuint16_size
Appends-tuint16 val h =
    Appends-if (val == 0) (λ a. Appends-pure)
      λ a. Appends-standard (be_bytes _) val _ (length-be_bytes _ val) (fits val h)
  where
    fits : (v : ℕ) → v < 2 ^ 16 → v < 256 ^ tuint16_size v
    fits v h' = elim (Bool-cases (ltb 0xff v)) [ inl e ↦ rw e h' | inr e ↦ rw e (ground arith) ]

pub Appends-tuint32 :
    (val : ℕ) → val < 2 ^ 32 → Appends (write_tuint32 val) (tuint tuint32_size val)
unfolding write_tuint32 tuint tuint32_size
Appends-tuint32 val h =
    Appends-if (val == 0) (λ a. Appends-pure)
      λ a. Appends-standard (be_bytes _) val _ (length-be_bytes _ val) (fits val h)
  where
    fits : (v : ℕ) → v < 2 ^ 32 → v < 256 ^ tuint32_size v
    fits v h' = elim (Bool-cases (ltb 0xff_ffff v)) [
      | inl a ↦ rw a h'
      | inr a ↦ elim (Bool-cases (ltb 0xffff v)) [
        | inl b ↦ rw (a, b) (ground arith)
        | inr b ↦ elim (Bool-cases (ltb 0xff v)) [
          | inl c ↦ rw (a, b, c) (ground arith)
          | inr c ↦ rw (a, b, c) (ground arith)
        ]
      ]
    ]

pub Appends-tuint64 :
    (val : ℕ) → Appends (write_tuint64 val) (if val == 0 then [] else be_short val)
unfolding write_tuint64
Appends-tuint64 val =
    Appends-if (val == 0) (λ a. Appends-pure) (λ a. Appends-write_bytes (be_short val))
