-- ===== src/Messages/Tagged.antt =====
-- A type, a BigSize length and a body, as most messages of packages/messaging/lib write themselves,
-- and what getTlv and a look at the type make of such bytes.
use node_dlc.Prelude.{
  ℕ, ◌+◌, ◌^◌, ◌≤◌, ◌<◌, ◌≡◌, arith, List, ◌++◌, length, length-append, append_assoc, Result, value,
  result, lift, ◌>>=◌, ◌>>◌,
}
use node_dlc.Bufio.Reader.{Read, reader, read_big_size}
use node_dlc.Bufio.Reader.Reads.{Reads, ReadsEnd, Reads-bind, Reads-seq, Reads-seq_end, Reads-bytes}
use node_dlc.Bufio.Reader.Numbers.{Reads-big_size, Reads-append_nil}
use node_dlc.Bufio.Writer.{Write, write_big_size}
use node_dlc.Bufio.Writer.Expand.{max_size}
use node_dlc.Bufio.Writer.Appends.{Appends, Appends-seq, Appends-write_bytes}
use node_dlc.Bufio.Writer.Numbers.{big_size, Appends-big_size}
use node_dlc.Bufio.RoundTrip.{Appends-output, length-big_size_le}
use node_dlc.Messages.Codec.{write_data, prefixed, Appends-data, Reads-lift, Reads-result_front}
use node_dlc.Messages.Tlv.{write_tlv, get_tlv}

unfoldable pub write_tagged : ℕ → Write → Write
write_tagged type_id m = do write_big_size type_id; write_data m

abbrev pub tagged : ℕ → List ℕ → List ℕ
tagged type_id bs = big_size type_id ++ prefixed bs

-- The type is looked at, whatever follows.
pub tagged_front :
    (type_id : ℕ)
    → type_id < 2 ^ 64
    → (tail rest : List ℕ)
    → result (read_big_size (reader ((big_size type_id ++ tail) ++ rest))) ≡ value type_id
tagged_front type_id small tail rest =
    rw (append_assoc (big_size type_id) tail rest)
      (Reads-result_front (Reads-big_size type_id small) (tail ++ rest))

module _ (type_id : ℕ) (bs : List ℕ) where
  pub length-tagged :
      (length bs ≤ length (tagged type_id bs)) × (length (tagged type_id bs) ≤ 18 + length bs)
  length-tagged = (
    omega (arith, sizes),
    omega (arith, sizes, length-big_size_le type_id, length-big_size_le (length bs)),
  )
    where
      sizes :
          length (tagged type_id bs)
          ≡ length (big_size type_id) + (length (big_size (length bs)) + length bs)
      sizes = omega (
        arith,
        length-append (big_size type_id) (prefixed bs),
        length-append (big_size (length bs)) bs,
      )

  module _ (small : type_id < 2 ^ 64) where
    pub Appends-tagged :
        {m : Write} → Appends m bs → Appends (write_tagged type_id m) (tagged type_id bs)
    unfolding write_tagged
    Appends-tagged p = Appends-seq (Appends-big_size type_id small) (Appends-data p)

    pub tagged_type : result (read_big_size (reader (tagged type_id bs))) ≡ value type_id
    tagged_type = Reads-result_front (Reads-big_size type_id small) (prefixed bs)

    module _ (fits : length (tagged type_id bs) ≤ max_size) where
      pub length-body_lt : length bs < 2 ^ 64
      length-body_lt = omega (arith, length-tagged)

      module _ {A : Type 0} {m : Read A} {a : A} where
        pub Reads-tagged :
            Reads m bs a → Reads (do read_big_size; read_big_size; m) (tagged type_id bs) a
        Reads-tagged p =
            Reads-seq (Reads-big_size type_id small) (Reads-seq (Reads-big_size _ length-body_lt) p)

        pub ReadsEnd-tagged :
            ReadsEnd m bs a → ReadsEnd (do read_big_size; read_big_size; m) (tagged type_id bs) a
        ReadsEnd-tagged p =
            Reads-seq_end (Reads-big_size type_id small)
              (Reads-seq_end (Reads-big_size _ length-body_lt) p)

      pub Reads-get_tlv : Reads get_tlv (tagged type_id bs) (tagged type_id bs)
      unfolding get_tlv write_tlv
      Reads-get_tlv = Reads-bind _ (Reads-big_size type_id small) (
          Reads-bind _ (Reads-big_size _ length-body_lt) (
            Reads-append_nil (
              Reads-bind _ (Reads-bytes bs) (
                Reads-lift (
                  Appends-output _ _
                    (Appends-seq (Appends-big_size type_id small)
                      (Appends-seq (Appends-big_size _ length-body_lt) (Appends-write_bytes bs)))
                    fits)))))

      -- A part that is cut out by getTlv and read from there.
      pub Reads-tlv_then :
          {A : Type 0} (deserialize : List ℕ → Result A) {a : A}
          → deserialize (tagged type_id bs) ≡ value a
          → Reads (do buf ← get_tlv; lift (deserialize buf)) (tagged type_id bs) a
      Reads-tlv_then deserialize e = Reads-append_nil (Reads-bind _ Reads-get_tlv (Reads-lift e))
