-- ===== src/Messages/Tlv.antt =====
-- packages/messaging/lib/serialize/deserializeTlv.ts and getTlv.ts: a type, a length and a body.
pub mod Exact
use node_dlc.Prelude.{ℕ, some, List, ◌>>=◌, ◌>>◌, pure, lift}
use node_dlc.Bufio.Reader.{Read, read_big_size, read_bytes}
use node_dlc.Bufio.Writer.{Write, output, write_big_size, write_bytes}

pub record Tlv : Type 0 where
  pub type_id : ℕ
  pub size : ℕ
  pub body : List ℕ

unfoldable pub deserialize_tlv : Read Tlv
deserialize_tlv = do
  type_id ← read_big_size
  size ← read_big_size
  body ← read_bytes (some size)
  pure (record { type_id = type_id; size = size; body = body })

-- The part that is written again.
unfoldable pub write_tlv : ℕ → ℕ → List ℕ → Write
write_tlv type_id size body = do write_big_size type_id; write_big_size size; write_bytes body

unfoldable pub get_tlv : Read (List ℕ)
get_tlv = do
  type_id ← read_big_size
  size ← read_big_size
  body ← read_bytes (some size)
  lift (output (write_tlv type_id size body))

unfoldable pub skip_tlv : Read (Unit {0})
skip_tlv = do read_big_size; size ← read_big_size; read_bytes (some size); pure tt
