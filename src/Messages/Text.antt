-- ===== src/Messages/Text.antt =====
-- Text in the messages of packages/messaging/lib: a string behind a BigSize of its length. A string
-- is the list of its UTF-16 units. Node's `Buffer.from` of a string and a buffer's `toString` are
-- a parameter; of these the code relies on their being inverse on ASCII, where a unit is a byte.
use node_dlc.Prelude.{ℕ, ◌^◌, ◌<◌, ◌≡◌, some, List, length, All, ◌>>=◌, ◌>>◌, pure, subst}
use node_dlc.Bufio.Reader.{Read, read_big_size, read_bytes}
use node_dlc.Bufio.Reader.Reads.{Reads, Reads-bind, Reads-bytes}
use node_dlc.Bufio.Reader.Numbers.{Reads-map, Reads-big_size}
use node_dlc.Bufio.Writer.{Write, write_bytes, write_big_size}
use node_dlc.Bufio.Writer.Appends.{Appends}
use node_dlc.Messages.Codec.{read_prefixed, prefixed, Appends-prefixed, write_prefixed}

pub record Utf8 : Type 0 where
  pub encode : List ℕ → List ℕ
  pub decode : List ℕ → List ℕ

abbrev pub IsAscii : List ℕ → Type 0
IsAscii s = All (λ c. c < 128) s

pub record Utf8Laws (utf : Utf8) : Type 0 where
  pub encode_ascii : (s : List ℕ) → IsAscii s → utf.encode s ≡ s
  pub decode_ascii : (s : List ℕ) → IsAscii s → utf.decode s ≡ s

-- A short ASCII text.
abbrev pub IsText : List ℕ → Type 0
IsText s = IsAscii s × (length s < 2 ^ 64)

module _ (utf : Utf8) where
  -- The length that is written is that of the string, and not of its bytes.
  unfoldable pub write_text : List ℕ → Write
  write_text s = do write_big_size (length s); write_bytes (utf.encode s)

  unfoldable pub read_text : Read (List ℕ)
  read_text = do n ← read_big_size; bytes ← read_bytes (some n); pure (utf.decode bytes)

  module _ (laws : Utf8Laws utf) (s : List ℕ) where
    pub Appends-text : IsText s → Appends (write_text s) (prefixed s)
    unfolding write_text write_prefixed
    Appends-text (a, h) = rw (laws.encode_ascii s a) (Appends-prefixed s h)

    pub Reads-text : IsText s → Reads read_text (prefixed s) s
    unfolding read_text read_prefixed
    Reads-text (a, h) =
        subst (Reads read_text (prefixed s)) (laws.decode_ascii s a)
          (Reads-bind _ (Reads-big_size _ h) (Reads-map utf.decode (Reads-bytes s)))
