-- ===== src/Bufio/Reader/Numbers.antt =====
-- What the reader's numeric methods and prefixed fields return on the bytes that the formats of
-- the writer prescribe.
use node_dlc.Prelude.{
  ℕ, ◌^◌, ◌<◌, ◌≡◌, refl, arith, false, Option, none, some, List, [], ◌++◌, reverse, length,
  reverse-reverse, append-nil, ltb, ◌>>=◌, ◌>>◌, pure, Bool-cases, inl, inr,
}
use node_dlc.Bufio.Bytes.{
  be_bytes, le_bytes, be_value, le_value, length-be_bytes, length-le_bytes, be_value-be_bytes,
  le_value-le_bytes,
}
use node_dlc.Bufio.Reader.{
  Read, read_bytes, read_u8, read_u16_le, read_u16_be, read_u32_le, read_u32_be, read_u64_be,
  read_u64_le, set_last, var_uint_rest, read_var_uint, at_least, big_size_rest, read_big_size,
  optional_rest, read_optional,
}
use node_dlc.Bufio.Reader.Reads.{
  Reads, ReadsEnd, Reads-end, Reads-pure, Reads-bind, Reads-bind_end, Reads-seq, Reads-standard,
  Reads-bytes, ReadsEnd-bytes, ReadsEnd-map,
}
use node_dlc.Bufio.Writer.Numbers.{big_size, var_int, optional}

Reads-as : {A : Type 0} {m : Read A} {bs : List ℕ} {a b : A} → a ≡ b → Reads m bs a → Reads m bs b
Reads-as e p = rw e at p

pub Reads-append_nil :
    {A : Type 0} {m : Read A} {bs : List ℕ} {a : A} → Reads m (bs ++ []) a → Reads m bs a
Reads-append_nil {bs} p = rw (append-nil bs) at p

-- A value that is only rearranged.
pub Reads-map :
    {A B : Type 0} {m : Read A} (g : A → B) {bs : List ℕ} {a : A}
    → Reads m bs a
    → Reads (m >>= λ x. pure (g x)) bs (g a)
Reads-map g p = Reads-append_nil (Reads-bind (λ x. pure (g x)) p (Reads-pure (g _)))

-- The length given by number, the bytes known by their length.
pub Reads-exactly : (n : ℕ) (bs : List ℕ) → length bs ≡ n → Reads (read_bytes (some n)) bs bs
Reads-exactly n bs e = rw e at (Reads-bytes bs)

module _ (val : ℕ) where
  pub Reads-u8 : val < 256 → Reads read_u8 (be_bytes 1 val) val
  unfolding read_u8
  Reads-u8 h =
      Reads-as (be_value-be_bytes 1 val h) (Reads-standard be_value 1 _ (length-be_bytes 1 val))

  pub Reads-u16 : val < 2 ^ 16 → Reads read_u16_be (be_bytes 2 val) val
  unfolding read_u16_be
  Reads-u16 h =
      Reads-as (be_value-be_bytes 2 val h) (Reads-standard be_value 2 _ (length-be_bytes 2 val))

  pub Reads-u32 : val < 2 ^ 32 → Reads read_u32_be (be_bytes 4 val) val
  unfolding read_u32_be
  Reads-u32 h =
      Reads-as (be_value-be_bytes 4 val h) (Reads-standard be_value 4 _ (length-be_bytes 4 val))

  pub Reads-u16_le : val < 2 ^ 16 → Reads read_u16_le (le_bytes 2 val) val
  unfolding read_u16_le
  Reads-u16_le h =
      Reads-as (le_value-le_bytes 2 val h) (Reads-standard le_value 2 _ (length-le_bytes 2 val))

  pub Reads-u32_le : val < 2 ^ 32 → Reads read_u32_le (le_bytes 4 val) val
  unfolding read_u32_le
  Reads-u32_le h =
      Reads-as (le_value-le_bytes 4 val h) (Reads-standard le_value 4 _ (length-le_bytes 4 val))

  pub Reads-u64 : val < 2 ^ 64 → Reads read_u64_be (be_bytes 8 val) val
  unfolding read_u64_be
  Reads-u64 h = Reads-append_nil (
      Reads-bind (λ bs. pure (be_value bs)) (Reads-exactly 8 _ (length-be_bytes 8 val))
        (Reads-as (be_value-be_bytes 8 val h) (Reads-pure (be_value (be_bytes 8 val)))))

  pub Reads-u64_le : val < 2 ^ 64 → Reads read_u64_le (le_bytes 8 val) val
  unfolding read_u64_le be_value
  Reads-u64_le h = Reads-append_nil (
      Reads-bind (λ bs. pure (be_value (reverse bs))) (Reads-exactly 8 _ (length-le_bytes 8 val))
        (Reads-as back (Reads-pure (be_value (reverse (le_bytes 8 val))))))
    where
      back : be_value (reverse (le_bytes 8 val)) ≡ val
      back = rw reverse-reverse (le_value-le_bytes 8 val h)

Reads-set_last : (n : ℕ) → Reads (set_last n) [] tt
Reads-set_last n = record {
  run = λ r rest h e. (
    record r { last_read_bytes = n },
    refl,
    record { same = refl; moved = omega arith; inside = h },
  );
}

Reads-at_least : (floor val : ℕ) → ltb val floor ≡ false → Reads (at_least floor val) [] val
unfolding at_least
Reads-at_least floor val h = rw h (Reads-pure val)

module _ (val : ℕ) where
  Reads-then_floor :
      (m : Read ℕ) (floor last : ℕ) (bs : List ℕ)
      → ltb val floor ≡ false
      → Reads m bs val
      → Reads (do set_last last; v ← m; at_least floor v) bs val
  Reads-then_floor m floor last bs h p =
      Reads-seq (Reads-set_last last)
        (Reads-append_nil (Reads-bind (at_least floor) p (Reads-at_least floor val h)))

  -- `readBigSize` gives back every 64-bit number from its BigSize form.
  pub Reads-big_size : val < 2 ^ 64 → Reads read_big_size (big_size val) val
  unfolding read_big_size big_size big_size_rest
  Reads-big_size h = elim (Bool-cases (ltb val 0xfd)) [
    | inl a ↦ rw a (
        Reads-append_nil (
          Reads-bind big_size_rest (Reads-u8 val (ground arith))
            (rw a (Reads-seq (Reads-set_last 1) (Reads-pure val)))))
    | inr a ↦ rw a (elim (Bool-cases (ltb val 0x1_0000)) [
      | inl b ↦ rw b (
          Reads-bind big_size_rest (Reads-u8 0xfd (omega arith))
            (Reads-then_floor read_u16_be 0xfd 3 _ a (Reads-u16 val (ground arith))))
      | inr b ↦ rw b (elim (Bool-cases (ltb val 0x1_0000_0000)) [
        | inl c ↦ rw c (
            Reads-bind big_size_rest (Reads-u8 0xfe (omega arith))
              (Reads-then_floor read_u32_be 0x1_0000 5 _ b (Reads-u32 val (ground arith))))
        | inr c ↦ rw c (
            Reads-bind big_size_rest (Reads-u8 0xff (omega arith))
              (Reads-then_floor read_u64_be 0x1_0000_0000 9 _ c (Reads-u64 val h)))
      ])
    ])
  ]

  -- `readVarUint` gives back every 64-bit number from its VarInt form.
  pub Reads-var_int : val < 2 ^ 64 → Reads read_var_uint (var_int val) val
  unfolding read_var_uint var_int var_uint_rest
  Reads-var_int h = elim (Bool-cases (ltb val 0xfd)) [
    | inl a ↦ rw a (
        Reads-append_nil (
          Reads-bind var_uint_rest (Reads-u8 val (ground arith))
            (rw a (Reads-seq (Reads-set_last 1) (Reads-pure val)))))
    | inr a ↦ rw a (elim (Bool-cases (ltb val 0x1_0000)) [
      | inl b ↦ rw b (
          Reads-bind var_uint_rest (Reads-u8 0xfd (omega arith))
            (Reads-seq (Reads-set_last 3) (Reads-u16_le val (ground arith))))
      | inr b ↦ rw b (elim (Bool-cases (ltb val 0x1_0000_0000)) [
        | inl c ↦ rw c (
            Reads-bind var_uint_rest (Reads-u8 0xfe (omega arith))
              (Reads-seq (Reads-set_last 5) (Reads-u32_le val (ground arith))))
        | inr c ↦ rw c (
            Reads-bind var_uint_rest (Reads-u8 0xff (omega arith))
              (Reads-seq (Reads-set_last 9) (Reads-u64_le val h)))
      ])
    ])
  ]

-- `readOptional` reads a present field to the end of the buffer.
pub ReadsEnd-optional : (o : Option (List ℕ)) → ReadsEnd read_optional (optional o) o
unfolding read_optional optional_rest
ReadsEnd-optional none =
    Reads-end
      (Reads-append_nil (Reads-bind optional_rest (Reads-u8 0 (omega arith)) (Reads-pure none)))
ReadsEnd-optional (some body) =
    Reads-bind_end optional_rest (Reads-u8 1 (omega arith))
      (ReadsEnd-map some (ReadsEnd-bytes body))
