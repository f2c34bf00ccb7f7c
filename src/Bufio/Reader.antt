-- ===== src/Bufio/Reader.antt =====
-- packages/bufio/lib/BufferReader.ts: the reader's state and its methods. A buffer is a list of
-- bytes. A method is a run over the reader, so that an exception keeps what was already consumed.
-- `readDoubleBE` is left out: there are no floats.
pub mod Reads
pub mod Finds
pub mod Forward
pub mod Ends
pub mod Numbers
use node_dlc.Prelude.{
  ℕ, zero, suc, ◌+◌, ◌-◌, ◌^◌, Bool, Option, none, some, List, [], length, take, drop, reverse, ltb,
  ◌==◌, if◌then◌else◌, min, Outcome, ok, err, Error, out_of_range, not_canonical, not_minimal,
  bad_marker, ◌>>=◌, ◌>>◌, pure, throw,
}
use node_dlc.Bufio.Bytes.{be_value, le_value}

pub record Reader : Type 0 where
  pub buffer : List ℕ
  pub position : ℕ
  pub last_read_bytes : ℕ

abbrev pub Read : Type 0 → Type 0
Read A = Reader → Outcome Reader A

abbrev pub reader : List ℕ → Reader
reader b = record { buffer = b; position = 0; last_read_bytes = 0 }

unfoldable pub eof : Reader → Bool
eof r = r.position == length r.buffer

abbrev pub set_last : ℕ → Read (Unit {0})
set_last n r = ok tt (record r { last_read_bytes = n })

unfoldable pub big_size_bytes : ℕ → ℕ
big_size_bytes num =
    if ltb num 0xfd
    then 1
    else if ltb num 0x1_0000
    then 3
    else if ltb num 0x1_0000_0000
    then 5
    else 9

-- `get` is Node's method on the `len` bytes at the position.
unfoldable pub read_standard : (List ℕ → ℕ) → ℕ → Read ℕ
read_standard get len r =
    if ltb (length r.buffer) (r.position + len)
    then err out_of_range r
    else ok (get (take len (drop r.position r.buffer)))
        (record r { position = r.position + len; last_read_bytes = len })

unfoldable pub read_u8 : Read ℕ
read_u8 = read_standard be_value 1

unfoldable pub read_u16_le : Read ℕ
read_u16_le = read_standard le_value 2

unfoldable pub read_u16_be : Read ℕ
read_u16_be = read_standard be_value 2

unfoldable pub read_u32_le : Read ℕ
read_u32_le = read_standard le_value 4

unfoldable pub read_u32_be : Read ℕ
read_u32_be = read_standard be_value 4

-- `none` is the call with no length, which reads what remains.
unfoldable pub read_bytes : Option ℕ → Read (List ℕ)
read_bytes (some zero) r = ok [] (record r { last_read_bytes = 0 })
read_bytes (some (suc n)) r =
    if ltb (length r.buffer) (r.position + suc n)
    then err out_of_range r
    else ok (take (suc n) (drop r.position r.buffer))
        (record r { position = r.position + suc n; last_read_bytes = suc n })
read_bytes none r =
    if r.position == length r.buffer
    then ok [] (record r { last_read_bytes = 0 })
    else let rest = drop r.position r.buffer in
      ok rest (record r { position = length r.buffer; last_read_bytes = length rest })

unfoldable pub peak_bytes : Option ℕ → Read (List ℕ)
peak_bytes (some zero) r = ok [] r
peak_bytes (some (suc n)) r =
    if ltb (length r.buffer) (r.position + suc n)
    then err out_of_range r
    else ok (take (suc n) (drop r.position r.buffer)) r
peak_bytes none r =
    if r.position == length r.buffer then err out_of_range r else ok (drop r.position r.buffer) r

unfoldable pub read_u64_be : Read ℕ
read_u64_be = do bs ← read_bytes (some 8); pure (be_value bs)

unfoldable pub read_u64_le : Read ℕ
read_u64_le = do bs ← read_bytes (some 8); pure (be_value (reverse bs))

-- `size` is the first byte, already read.
unfoldable pub var_uint_rest : ℕ → Read ℕ
var_uint_rest size =
    if ltb size 0xfd
    then (do set_last 1; pure size)
    else if size == 0xfd
    then (do set_last 3; read_u16_le)
    else if size == 0xfe
    then (do set_last 5; read_u32_le)
    else (do set_last 9; read_u64_le)

unfoldable pub read_var_uint : Read ℕ
read_var_uint = do size ← read_u8; var_uint_rest size

-- Refuses a value that a shorter form would hold.
unfoldable pub at_least : ℕ → ℕ → Read ℕ
at_least floor val = if ltb val floor then throw not_canonical else pure val

unfoldable pub big_size_rest : ℕ → Read ℕ
big_size_rest size =
    if ltb size 0xfd
    then (do set_last 1; pure size)
    else if size == 0xfd
    then (do set_last 3; val ← read_u16_be; at_least 0xfd val)
    else if size == 0xfe
    then (do set_last 5; val ← read_u32_be; at_least 0x1_0000 val)
    else (do set_last 9; val ← read_u64_be; at_least 0x1_0000_0000 val)

unfoldable pub read_big_size : Read ℕ
read_big_size = do size ← read_u8; big_size_rest size

pub record Sibling : Type 0 where
  pub type_id : ℕ
  pub body : List ℕ

unfoldable pub read_sibling_type : Read Sibling
read_sibling_type = do
  type_id ← read_big_size
  body ← read_bytes none
  pure (record { type_id = type_id; body = body })

unfoldable pub optional_rest : ℕ → Read (Option (List ℕ))
optional_rest present =
    if present == 0
    then pure none
    else if present == 1
    then (do body ← read_bytes none; pure (some body))
    else throw bad_marker

unfoldable pub read_optional : Read (Option (List ℕ))
read_optional = do present ← read_u8; optional_rest present

-- The loop `for (i = 0; i < 9; i++)`: `rounds` are left, and the bound is 256 ^ i.
unfoldable pub minimal_from : ℕ → ℕ → ℕ → ℕ → Bool
minimal_from zero i num bytes = Bool.true
minimal_from (suc rounds) i num bytes =
    let rest = minimal_from rounds (i + 1) num bytes in
    if ltb num (256 ^ i) then bytes == i else rest

-- `_assertMinimalTUInt` passes.
unfoldable pub is_minimal_tuint : ℕ → ℕ → Bool
is_minimal_tuint num bytes = minimal_from 9 0 num bytes

-- The common body of readTUInt16, readTUInt32 and readTUInt64, which differ in `width`. A position
-- past the end makes the size negative, and `past_end` is then thrown: by Node's `readUIntBE` for
-- the two numbers, by the assertion for the bigint.
unfoldable pub read_tuint : Error → ℕ → Read ℕ
read_tuint past_end width r =
    let size = min width (length r.buffer - r.position) in
    let val = be_value (take size (drop r.position r.buffer)) in
    if ltb (length r.buffer) r.position
    then err past_end r
    else if size == 0
    then ok 0 r
    else if is_minimal_tuint val size
    then ok val (record r { position = r.position + size })
    else err not_minimal r

unfoldable pub read_tuint16 : Read ℕ
read_tuint16 = read_tuint out_of_range 2

unfoldable pub read_tuint32 : Read ℕ
read_tuint32 = read_tuint out_of_range 4

unfoldable pub read_tuint64 : Read ℕ
read_tuint64 = read_tuint not_minimal 8
