-- ===== src/Messages/Payouts.antt =====
-- packages/messaging/lib/messages/RoundingIntervals.ts, PayoutCurvePiece.ts and PayoutFunction.ts.
-- An `F64` is its eight bytes.
pub mod EndPoints
pub mod RoundTrip
pub mod Validate
use node_dlc.Prelude.{
  ℕ, suc, ◌+◌, append_assoc, length-append, ◌^◌, ◌≤◌, ◌<◌, ◌≡◌, refl, sym, ap, ◌∙◌, arith, Bool,
  true, false, some, List, [], ◌∷◌, ◌++◌, length, All, ltb, ◌==◌, if◌then◌else◌, ok, err, Error,
  bad_type, bad_value, Result, value, error, and_then, result, ◌>>=◌, ◌>>◌, pure,
}
use node_dlc.Bufio.Bytes.{be_bytes, length-be_bytes}
use node_dlc.Bufio.Reader.{
  Reader, Read, reader, read_bytes, read_big_size, read_u8, read_u16_be, read_u64_be,
}
use node_dlc.Bufio.Reader.Reads.{Reads, Reads-bind, Reads-seq, Reads-end, Reads-pure, Reads-result}
use node_dlc.Bufio.Reader.Numbers.{
  Reads-map, Reads-big_size, Reads-exactly, Reads-u8, Reads-u16, Reads-u64,
}
use node_dlc.Bufio.Writer.{
  Write, output, write_bytes, write_big_size, write_u8, write_u16_be, write_u64_be,
}
use node_dlc.Bufio.Writer.Expand.{max_size}
use node_dlc.Bufio.Writer.Appends.{Appends, Appends-seq, Appends-write_bytes}
use node_dlc.Bufio.Writer.Numbers.{big_size, Appends-big_size, Appends-u8, Appends-u16, Appends-u64}
use node_dlc.Bufio.RoundTrip.{round_trip, Appends-output, length-big_size_le}
use node_dlc.Messages.Codec.{
  write_counted, read_counted, counted, Appends-counted, Reads-counted, write_inner, Appends-inner,
  read_ahead, Reads-ahead, Reads-result_front,
}

pub record Interval : Type 0 where
  pub begin_interval : ℕ
  pub rounding_mod : ℕ

unfoldable pub write_interval : Interval → Write
write_interval x = do write_u64_be x.begin_interval; write_u64_be x.rounding_mod

unfoldable pub read_interval : Read Interval
read_interval = do
  begin_interval ← read_u64_be
  rounding_mod ← read_u64_be
  pure (record { begin_interval = begin_interval; rounding_mod = rounding_mod })

unfoldable pub write_rounding_intervals : List Interval → Write
write_rounding_intervals intervals = write_counted write_interval intervals

unfoldable pub read_rounding_intervals : Read (List Interval)
read_rounding_intervals = read_counted read_interval

pub record Point : Type 0 where
  pub event_outcome : ℕ
  pub outcome_payout : ℕ
  pub extra_precision : ℕ

unfoldable pub write_point : Point → Write
write_point x = do
  write_u64_be x.event_outcome
  write_u64_be x.outcome_payout
  write_u16_be x.extra_precision

unfoldable pub read_point : Read Point
read_point = do
  event_outcome ← read_u64_be
  outcome_payout ← read_u64_be
  extra_precision ← read_u16_be
  pure (record {
    event_outcome = event_outcome;
    outcome_payout = outcome_payout;
    extra_precision = extra_precision;
  })

-- What reading sets an end point of a hyperbola to.
abbrev pub zero_point : Point
zero_point = record { event_outcome = 0; outcome_payout = 0; extra_precision = 0 }

pub record Hyperbola : Type 0 where
  pub left_end_point : Point
  pub right_end_point : Point
  pub use_positive_piece : Bool
  pub translate_outcome : List ℕ
  pub translate_payout : List ℕ
  pub a : List ℕ
  pub b : List ℕ
  pub c : List ℕ
  pub d : List ℕ

pub data PayoutCurvePiece : Type 0 where
  polynomial : List Point → PayoutCurvePiece
  hyperbola : Hyperbola → PayoutCurvePiece

unfoldable pub write_piece : PayoutCurvePiece → Write
write_piece (polynomial points) = do write_big_size 0; write_counted write_point points
write_piece (hyperbola x) = do
  write_big_size 1
  write_u8 (if x.use_positive_piece then 1 else 0)
  write_bytes x.translate_outcome
  write_bytes x.translate_payout
  write_bytes x.a
  write_bytes x.b
  write_bytes x.c
  write_bytes x.d

unfoldable pub read_polynomial : Read PayoutCurvePiece
read_polynomial = do read_big_size; points ← read_counted read_point; pure (polynomial points)

-- The end points are not in the bytes.
unfoldable pub read_hyperbola : Read PayoutCurvePiece
read_hyperbola = do
  read_big_size
  positive ← read_u8
  translate_outcome ← read_bytes (some 8)
  translate_payout ← read_bytes (some 8)
  a ← read_bytes (some 8)
  b ← read_bytes (some 8)
  c ← read_bytes (some 8)
  d ← read_bytes (some 8)
  pure (
      hyperbola (record {
        left_end_point = zero_point;
        right_end_point = zero_point;
        use_positive_piece = positive == 1;
        translate_outcome = translate_outcome;
        translate_payout = translate_payout;
        a = a;
        b = b;
        c = c;
        d = d;
      }))

-- The type is looked at with a reader of its own.
unfoldable pub deserialize_piece : List ℕ → Result PayoutCurvePiece
deserialize_piece buf = and_then (result (read_big_size (reader buf))) (λ type_id.
    if type_id == 0
    then result (read_polynomial (reader buf))
    else if type_id == 1
    then result (read_hyperbola (reader buf))
    else error bad_type)

unfoldable pub serialize_piece : PayoutCurvePiece → Result (List ℕ)
serialize_piece x = output (write_piece x)

pub record FunctionPiece : Type 0 where
  pub end_point : Point
  pub curve : PayoutCurvePiece

pub record PayoutFunction : Type 0 where
  pub pieces : List FunctionPiece
  pub last_endpoint : Point

unfoldable pub write_function_piece : FunctionPiece → Write
write_function_piece x = do write_point x.end_point; write_inner (write_piece x.curve)

unfoldable pub read_function_piece : Read FunctionPiece
read_function_piece = do
  end_point ← read_point
  curve ← read_ahead deserialize_piece serialize_piece
  pure (record { end_point = end_point; curve = curve })

unfoldable pub write_payout_function : PayoutFunction → Write
write_payout_function x = do
  write_counted write_function_piece x.pieces
  write_point x.last_endpoint

unfoldable pub read_payout_function : Read PayoutFunction
read_payout_function = do
  pieces ← read_counted read_function_piece
  last_endpoint ← read_point
  pure (record { pieces = pieces; last_endpoint = last_endpoint })
