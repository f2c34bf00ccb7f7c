-- ===== src/Messages/Control.antt =====
-- packages/messaging/lib/messages/DlcCancel.ts, DlcIds.ts and DlcInfo.ts: the messages about
-- negotiations as a whole. The type in front is a 16-bit number.
use node_dlc.Prelude.{
  ℕ, ◌^◌, ◌≤◌, ◌<◌, ◌≡◌, refl, ◌∙◌, arith, some, List, ◌++◌, length, length-append, All, Result,
  value, and_then, result, ◌>>=◌, ◌>>◌, pure,
}
use node_dlc.Bufio.Bytes.{be_bytes, length-be_bytes}
use node_dlc.Bufio.Reader.{Read, reader, read_u8, read_u16_be, read_u32_be, read_bytes}
use node_dlc.Bufio.Reader.Reads.{Reads, Reads-bind, Reads-seq, Reads-end, Reads-result}
use node_dlc.Bufio.Reader.Numbers.{Reads-map, Reads-u8, Reads-u16, Reads-u32, Reads-exactly}
use node_dlc.Bufio.Writer.{Write, output, write_u8, write_u16_be, write_u32_be, write_bytes}
use node_dlc.Bufio.Writer.Expand.{max_size}
use node_dlc.Bufio.Writer.Appends.{Appends, Appends-seq, Appends-write_bytes}
use node_dlc.Bufio.Writer.Numbers.{Appends-u8, Appends-u16, Appends-u32}
use node_dlc.Bufio.RoundTrip.{round_trip, Appends-output}
use node_dlc.Messages.Codec.{
  write_counted, read_counted, counted, Appends-counted, Reads-counted, dispatch, dispatch_lem,
}

abbrev pub cancel_type : ℕ
cancel_type = 52172

abbrev pub ids_type : ℕ
ids_type = 61232

abbrev pub info_type : ℕ
info_type = 61234

-- The enum `CancelType` is not checked on reading: any byte passes.
pub record DlcCancel : Type 0 where
  pub contract_id : List ℕ
  pub reason : ℕ

unfoldable pub write_dlc_cancel : DlcCancel → Write
write_dlc_cancel x = do write_u16_be cancel_type; write_bytes x.contract_id; write_u8 x.reason

unfoldable pub read_dlc_cancel : Read DlcCancel
read_dlc_cancel = do
  read_u16_be
  contract_id ← read_bytes (some 32)
  reason ← read_u8
  pure (record { contract_id = contract_id; reason = reason })

-- Of every dlc_cancel with a contract id of 32 bytes and a cancel type of one byte, deserialize
-- returns it from what serialize wrote.
pub read-write_dlc_cancel :
    (x : DlcCancel)
    → length x.contract_id ≡ 32
    → x.reason < 256
    → and_then (output (write_dlc_cancel x)) (λ out. result (read_dlc_cancel (reader out)))
      ≡ value x
unfolding write_dlc_cancel read_dlc_cancel
read-write_dlc_cancel x n h =
    round_trip _ _ _ x
      (Appends-seq (Appends-u16 cancel_type (omega arith))
        (Appends-seq (Appends-write_bytes x.contract_id) (Appends-u8 x.reason h)))
      (Reads-end (
        Reads-seq (Reads-u16 cancel_type (omega arith)) (
          Reads-bind _ (Reads-exactly 32 x.contract_id n) (
            Reads-map (λ v. record { contract_id = x.contract_id; reason = v })
              (Reads-u8 x.reason h)))))
      (omega (
        arith,
        length-append (be_bytes 2 cancel_type) (x.contract_id ++ be_bytes 1 x.reason),
        length-append x.contract_id (be_bytes 1 x.reason),
        length-be_bytes 2 cancel_type,
        length-be_bytes 1 x.reason,
      ))

-- The list of contract ids.
unfoldable pub write_dlc_ids : List (List ℕ) → Write
write_dlc_ids ids = do write_u16_be ids_type; write_counted write_bytes ids

unfoldable pub read_dlc_ids : Read (List (List ℕ))
read_dlc_ids = do read_u16_be; read_counted (read_bytes (some 32))

unfoldable pub deserialize_dlc_ids : List ℕ → Result (List (List ℕ))
deserialize_dlc_ids = dispatch ids_type read_dlc_ids

abbrev pub dlc_ids_bytes : List (List ℕ) → List ℕ
dlc_ids_bytes ids = be_bytes 2 ids_type ++ counted (λ id. id) ids

-- Of every list of 32-byte ids, shorter than 2^64 and written in 2^30 bytes, DlcIds.deserialize
-- returns it from what serialize wrote.
pub deserialize-write_dlc_ids :
    (ids : List (List ℕ))
    → All (λ id. length id ≡ 32) ids
    → length ids < 2 ^ 64
    → length (dlc_ids_bytes ids) ≤ max_size
    → and_then (output (write_dlc_ids ids)) deserialize_dlc_ids ≡ value ids
unfolding write_dlc_ids read_dlc_ids deserialize_dlc_ids
deserialize-write_dlc_ids ids lens h size =
    rw
      (Appends-output _ (dlc_ids_bytes ids)
        (Appends-seq (Appends-u16 ids_type (omega arith))
          (Appends-counted (λ id. id) ids write_bytes (λ id _. Appends-write_bytes id) h lens))
        size)
      (dispatch_lem ids_type read_dlc_ids (counted (λ id. id) ids) (omega arith)
        ∙ Reads-result (
            Reads-end (
              Reads-seq (Reads-u16 ids_type (omega arith)) (
                Reads-counted (λ id. id) ids (read_bytes (some 32)) (λ id n. Reads-exactly 32 id n)
                  h lens))))

pub record DlcInfo : Type 0 where
  pub num_dlc_offers : ℕ
  pub num_dlc_accepts : ℕ
  pub num_dlc_signs : ℕ
  pub num_dlc_cancels : ℕ
  pub num_dlc_closes : ℕ
  pub num_dlc_transactions : ℕ

pub record IsInfo (x : DlcInfo) : Type 0 where
  pub offers : x.num_dlc_offers < 2 ^ 32
  pub accepts : x.num_dlc_accepts < 2 ^ 32
  pub signs : x.num_dlc_signs < 2 ^ 32
  pub cancels : x.num_dlc_cancels < 2 ^ 32
  pub closes : x.num_dlc_closes < 2 ^ 32
  pub transactions : x.num_dlc_transactions < 2 ^ 32

unfoldable pub write_dlc_info : DlcInfo → Write
write_dlc_info x = do
  write_u16_be info_type
  write_u32_be x.num_dlc_offers
  write_u32_be x.num_dlc_accepts
  write_u32_be x.num_dlc_signs
  write_u32_be x.num_dlc_cancels
  write_u32_be x.num_dlc_closes
  write_u32_be x.num_dlc_transactions

unfoldable pub read_dlc_info : Read DlcInfo
read_dlc_info = do
  read_u16_be
  offers ← read_u32_be
  accepts ← read_u32_be
  signs ← read_u32_be
  cancels ← read_u32_be
  closes ← read_u32_be
  transactions ← read_u32_be
  pure (record {
    num_dlc_offers = offers;
    num_dlc_accepts = accepts;
    num_dlc_signs = signs;
    num_dlc_cancels = cancels;
    num_dlc_closes = closes;
    num_dlc_transactions = transactions;
  })

unfoldable pub deserialize_dlc_info : List ℕ → Result DlcInfo
deserialize_dlc_info = dispatch info_type read_dlc_info

abbrev dlc_info_bytes : DlcInfo → List ℕ
dlc_info_bytes x =
    be_bytes 4 x.num_dlc_offers
    ++ (be_bytes 4 x.num_dlc_accepts
        ++ (be_bytes 4 x.num_dlc_signs
            ++ (be_bytes 4 x.num_dlc_cancels
                ++ (be_bytes 4 x.num_dlc_closes ++ be_bytes 4 x.num_dlc_transactions))))

length-dlc_info_bytes : (x : DlcInfo) → length (dlc_info_bytes x) ≡ 24
length-dlc_info_bytes x = simp (length-append, length-be_bytes) refl

Reads-dlc_info :
    (x : DlcInfo) → IsInfo x → Reads read_dlc_info (be_bytes 2 info_type ++ dlc_info_bytes x) x
unfolding read_dlc_info
Reads-dlc_info x v = Reads-seq (Reads-u16 info_type (omega arith)) (
    Reads-bind _ (Reads-u32 _ v.offers) (
      Reads-bind _ (Reads-u32 _ v.accepts) (
        Reads-bind _ (Reads-u32 _ v.signs) (
          Reads-bind _ (Reads-u32 _ v.cancels)
            (Reads-bind _ (Reads-u32 _ v.closes) (Reads-map _ (Reads-u32 _ v.transactions)))))))

Appends-dlc_info :
    (x : DlcInfo) → IsInfo x → Appends (write_dlc_info x) (be_bytes 2 info_type ++ dlc_info_bytes x)
unfolding write_dlc_info
Appends-dlc_info x v = Appends-seq (Appends-u16 info_type (omega arith)) (
    Appends-seq (Appends-u32 _ v.offers) (
      Appends-seq (Appends-u32 _ v.accepts) (
        Appends-seq (Appends-u32 _ v.signs) (
          Appends-seq (Appends-u32 _ v.cancels)
            (Appends-seq (Appends-u32 _ v.closes) (Appends-u32 _ v.transactions))))))

-- Of every dlc_info whose counts have 32 bits, DlcInfo.deserialize returns it from what serialize
-- wrote.
pub deserialize-write_dlc_info :
    (x : DlcInfo) → IsInfo x → and_then (output (write_dlc_info x)) deserialize_dlc_info ≡ value x
unfolding deserialize_dlc_info
deserialize-write_dlc_info x v =
    rw
      (Appends-output _ _ (Appends-dlc_info x v) (
        omega (
          arith,
          length-append (be_bytes 2 info_type) (dlc_info_bytes x),
          length-be_bytes 2 info_type,
          length-dlc_info_bytes x,
        )))
      (dispatch_lem info_type read_dlc_info (dlc_info_bytes x) (omega arith)
        ∙ Reads-result (Reads-end (Reads-dlc_info x v)))
