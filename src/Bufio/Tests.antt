-- ===== src/Bufio/Tests.antt =====
-- Concrete runs of the reader and the writer, and the theorems at concrete inputs.
use node_dlc.Prelude.{
  ◌^◌, ◌<◌, ◌≡◌, refl, arith, [], ◌∷◌, ok, not_canonical, value, error, and_then, result, ◌>>◌,
}
use node_dlc.Bufio.Bytes.{le_value, be_value}
use node_dlc.Bufio.Reader.{
  Reader, reader, read_standard, read_u8, read_u16_be, at_least, big_size_rest, read_big_size,
  read_var_uint,
}
use node_dlc.Bufio.Writer.{Writer, over, output, write_bytes, write_big_size, write_var_int}
use node_dlc.Bufio.Writer.Appends.{each_bytes, write_each}
use node_dlc.Bufio.Writer.Numbers.{big_size}
use node_dlc.Bufio.RoundTrip.{with_rest, read-write_big_size, read-write_var_int, output-write_each}
use node_dlc.Bufio.Canonical.{Consumed, read_big_size_canonical}

abbrev after_300 : Reader
after_300 = record { buffer = 0xfd ∷ 1 ∷ 44 ∷ 9 ∷ []; position = 3; last_read_bytes = 2 }

-- 300 takes the three-byte form.
read_300 : read_big_size (reader (0xfd ∷ 1 ∷ 44 ∷ 9 ∷ [])) ≡ ok 300 after_300
unfolding read_big_size read_u8 big_size_rest read_u16_be at_least read_standard be_value le_value
read_300 = refl

-- A padded form is refused, with its bytes consumed.
read_padded : result (read_big_size (reader (0xfd ∷ 0 ∷ 44 ∷ []))) ≡ error not_canonical
unfolding read_big_size read_u8 big_size_rest read_u16_be at_least read_standard be_value le_value
read_padded = refl

read_big_size_canonical_example :
    Consumed (reader (0xfd ∷ 1 ∷ 44 ∷ 9 ∷ [])) after_300 (big_size 300)
    × (300 < 2 ^ 64)
    × (output (write_big_size 300) ≡ value (big_size 300))
read_big_size_canonical_example =
    read_big_size_canonical (reader (0xfd ∷ 1 ∷ 44 ∷ 9 ∷ [])) after_300 300 (omega arith) read_300

read-write_big_size_example :
    and_then
      (output (do write_big_size 70000; write_bytes (1 ∷ 2 ∷ [])))
      (λ out. result (with_rest read_big_size (reader out)))
    ≡ value (70000, 1 ∷ 2 ∷ [])
read-write_big_size_example = read-write_big_size 70000 (1 ∷ 2 ∷ []) (omega arith) (omega arith)

read-write_var_int_example :
    and_then
      (output (do write_var_int 70000; write_bytes (1 ∷ 2 ∷ [])))
      (λ out. result (with_rest read_var_uint (reader out)))
    ≡ value (70000, 1 ∷ 2 ∷ [])
read-write_var_int_example = read-write_var_int 70000 (1 ∷ 2 ∷ []) (omega arith) (omega arith)

output-write_each_example :
    output (write_each write_bytes ((1 ∷ 2 ∷ []) ∷ [] ∷ (3 ∷ []) ∷ []))
    ≡ value (each_bytes (λ p. p) ((1 ∷ 2 ∷ []) ∷ [] ∷ (3 ∷ []) ∷ []))
output-write_each_example = output-write_each ((1 ∷ 2 ∷ []) ∷ [] ∷ (3 ∷ []) ∷ []) (omega arith)

abbrev two_left : Writer
two_left = record (over (5 ∷ 6 ∷ 7 ∷ [])) { position = 1 }
