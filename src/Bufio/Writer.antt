-- ===== src/Bufio/Writer.antt =====
-- packages/bufio/lib/BufferWriter.ts: the writer's state and its methods. The buffer grows to the
-- next power of two unless it was given to the constructor. `writeDoubleBE` is left out: there are
-- no floats.
pub mod Expand
pub mod Appends
pub mod Numbers
use node_dlc.Prelude.{
  ℕ, zero, suc, ◌+◌, ◌-◌, ◌%◌, ◌^◌, Bool, true, false, ◌&&◌, Option, none, some, List, [], ◌∷◌,
  ◌++◌, length, take, drop, replicate, reverse, ltb, ◌==◌, if◌then◌else◌, Outcome, ok, err,
  out_of_range, ◌>>◌, pure, throw, Result, value, error,
}
use node_dlc.Bufio.Bytes.{be_bytes, le_bytes, be_short}

pub record Writer : Type 0 where
  pub buffer : List ℕ
  pub position : ℕ
  pub fixed : Bool

abbrev pub Write : Type 0
Write = Writer → Outcome Writer (Unit {0})

abbrev pub growing : Writer
growing = record { buffer = []; position = 0; fixed = false }

abbrev pub over : List ℕ → Writer
over b = record { buffer = b; position = 0; fixed = true }

unfoldable pub size : Writer → ℕ
size w = w.position

unfoldable pub to_buffer : Writer → List ℕ
to_buffer w = if w.fixed then w.buffer else take w.position w.buffer

-- A whole use of a writer: make one that grows, write, and take its bytes.
unfoldable pub output : Write → Result (List ℕ)
output m = elim (m growing) [ ok _ w ↦ value (to_buffer w) | err e _ ↦ error e ]

-- `Math.ceil(Math.log2(n))`: the rounds of doubling from 2 ^ k until `n` is reached.
unfoldable pub ceil_log2_from : ℕ → ℕ → ℕ → ℕ
ceil_log2_from zero k n = k
ceil_log2_from (suc fuel) k n =
    let more = ceil_log2_from fuel (k + 1) n in if ltb (2 ^ k) n then more else k

unfoldable pub ceil_log2 : ℕ → ℕ
ceil_log2 n = ceil_log2_from n 0 n

-- `1 << k` on 32-bit integers; the negative result at bit 31 is `none`.
unfoldable pub shift_one : ℕ → Option ℕ
shift_one k = if (k % 32) == 31 then none else some (2 ^ (k % 32))

-- A new buffer of `n` zeros that the old one is copied into.
unfoldable pub resized : ℕ → List ℕ → List ℕ
resized n b = take n b ++ replicate (n - length b) 0

-- The buffer that `_expand` puts in the place of `b`. `Buffer.alloc` throws at a negative length.
unfoldable pub grown : ℕ → List ℕ → Option (List ℕ)
grown required b = elim (shift_one (ceil_log2 required)) [
  | none ↦ none
  | some n ↦ some (resized n b)
]

unfoldable pub expand : ℕ → Write
expand needed w =
    let required = w.position + needed in
    if w.fixed && ltb (length w.buffer) required
    then err out_of_range w
    else if ltb (length w.buffer) required
    then elim (grown required w.buffer) [
      | none ↦ err out_of_range w
      | some b ↦ ok tt (record w { buffer = b })
    ]
    else ok tt w

-- Bytes copied over the buffer from an offset on; what does not fit is dropped.
unfoldable pub overwrite : List ℕ → ℕ → List ℕ → List ℕ
overwrite b at bs = take (length b) (take at b ++ (bs ++ drop (at + length bs) b))

-- `bs` are the bytes of `val`, `len` of them. Node refuses a value that is too large, and an
-- offset past the end.
unfoldable pub write_standard : (ℕ → List ℕ) → ℕ → ℕ → Write
write_standard bytes val len = do
  expand len
  λ w.
      if ltb val (256 ^ len) && ltb (w.position + len) (length w.buffer + 1)
      then ok tt (record w {
        buffer = overwrite w.buffer w.position (bytes val);
        position = w.position + len;
      })
      else err out_of_range w

unfoldable pub write_u8 : ℕ → Write
write_u8 val = write_standard (be_bytes 1) val 1

unfoldable pub write_u16_le : ℕ → Write
write_u16_le val = write_standard (le_bytes 2) val 2

unfoldable pub write_u16_be : ℕ → Write
write_u16_be val = write_standard (be_bytes 2) val 2

unfoldable pub write_u32_le : ℕ → Write
write_u32_le val = write_standard (le_bytes 4) val 4

unfoldable pub write_u32_be : ℕ → Write
write_u32_be val = write_standard (be_bytes 4) val 4

-- The copy of a non-empty buffer.
unfoldable pub copy_in : List ℕ → Write
copy_in bs = do
  expand (length bs)
  λ w.
      ok tt
        (record w { buffer = overwrite w.buffer w.position bs; position = w.position + length bs })

unfoldable pub write_bytes : List ℕ → Write
write_bytes [] = pure tt
write_bytes (b ∷ bs) = copy_in (b ∷ bs)

unfoldable pub write_u64_le : ℕ → Write
write_u64_le val =
    if ltb val (2 ^ 64) then write_bytes (reverse (be_bytes 8 val)) else throw out_of_range

unfoldable pub write_u64_be : ℕ → Write
write_u64_be val = if ltb val (2 ^ 64) then write_bytes (be_bytes 8 val) else throw out_of_range

unfoldable pub write_var_int : ℕ → Write
write_var_int num =
    if ltb num 0xfd
    then write_u8 num
    else if ltb num 0x1_0000
    then (do write_u8 0xfd; write_u16_le num)
    else if ltb num 0x1_0000_0000
    then (do write_u8 0xfe; write_u32_le num)
    else (do write_u8 0xff; write_u64_le num)

unfoldable pub write_big_size : ℕ → Write
write_big_size num =
    if ltb num 0xfd
    then write_u8 num
    else if ltb num 0x1_0000
    then (do write_u8 0xfd; write_u16_be num)
    else if ltb num 0x1_0000_0000
    then (do write_u8 0xfe; write_u32_be num)
    else (do write_u8 0xff; write_u64_be num)

unfoldable pub write_sibling_type : ℕ → List ℕ → Write
write_sibling_type type_id body = do write_big_size type_id; write_bytes body

unfoldable pub write_optional : Option (List ℕ) → Write
write_optional none = write_u8 0x00
write_optional (some body) = do write_u8 0x01; write_bytes body

-- The size that writeTUInt16 picks.
unfoldable pub tuint16_size : ℕ → ℕ
tuint16_size val = if ltb 0xff val then 2 else 1

unfoldable pub tuint32_size : ℕ → ℕ
tuint32_size val =
    if ltb 0xff_ffff val then 4 else if ltb 0xffff val then 3 else if ltb 0xff val then 2 else 1

unfoldable pub write_tuint16 : ℕ → Write
write_tuint16 val =
    if val == 0 then pure tt else let n = tuint16_size val in write_standard (be_bytes n) val n

unfoldable pub write_tuint32 : ℕ → Write
write_tuint32 val =
    if val == 0 then pure tt else let n = tuint32_size val in write_standard (be_bytes n) val n

unfoldable pub write_tuint64 : ℕ → Write
write_tuint64 val = if val == 0 then pure tt else write_bytes (be_short val)
