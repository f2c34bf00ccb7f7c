-- ===== src/Messages/Payouts/RoundTrip.antt =====
-- What the messages of a payout curve write they read back.
use node_dlc.Prelude.{
  ℕ, ◌+◌, length-append, ◌^◌, ◌≤◌, ◌<◌, ◌≡◌, refl, sym, ◌∙◌, ap, length-map, arith, List, ◌++◌,
  length, All, ◌==◌, if◌then◌else◌, value, and_then, result,
}
use node_dlc.Bufio.Bytes.{be_bytes, length-be_bytes}
use node_dlc.Bufio.Reader.{reader}
use node_dlc.Bufio.Reader.Reads.{Reads, Reads-bind, Reads-seq, Reads-end}
use node_dlc.Bufio.Reader.Numbers.{
  Reads-map, Reads-big_size, Reads-exactly, Reads-u8, Reads-u16, Reads-u64,
}
use node_dlc.Bufio.Writer.{output}
use node_dlc.Bufio.Writer.Expand.{max_size}
use node_dlc.Bufio.Writer.Appends.{Appends, Appends-seq, Appends-write_bytes}
use node_dlc.Bufio.Writer.Numbers.{big_size, Appends-big_size, Appends-u8, Appends-u16, Appends-u64}
use node_dlc.Bufio.RoundTrip.{round_trip, Appends-output, length-big_size_le}
use node_dlc.Messages.Codec.{
  flag_bytes, flag_small, flag_back, counted, Appends-counted, Reads-counted, Appends-inner,
  Reads-ahead, Reads-result_front,
}
use node_dlc.Messages.Tagged.{tagged_front}
use node_dlc.Messages.Payouts.{
  zero_point, Interval, write_interval, read_interval, write_rounding_intervals,
  read_rounding_intervals, Point, write_point, read_point, Hyperbola, PayoutCurvePiece, polynomial,
  hyperbola, write_piece, read_polynomial, read_hyperbola, deserialize_piece, serialize_piece,
  FunctionPiece, PayoutFunction, write_function_piece, read_function_piece, write_payout_function,
  read_payout_function,
}
use node_dlc.Messages.Payouts.EndPoints.{
  cleared_function, cleared_function_piece, write_payout_function-cleared,
}

abbrev pub IsInterval : Interval → Type 0
IsInterval x = (x.begin_interval < 2 ^ 64) × (x.rounding_mod < 2 ^ 64)

abbrev pub interval_bytes : Interval → List ℕ
interval_bytes x = be_bytes 8 x.begin_interval ++ be_bytes 8 x.rounding_mod

Appends-interval : (x : Interval) → IsInterval x → Appends (write_interval x) (interval_bytes x)
unfolding write_interval
Appends-interval x (a, b) = Appends-seq (Appends-u64 _ a) (Appends-u64 _ b)

Reads-interval : (x : Interval) → IsInterval x → Reads read_interval (interval_bytes x) x
unfolding read_interval
Reads-interval x (a, b) = Reads-bind _ (Reads-u64 _ a) (Reads-map _ (Reads-u64 _ b))

module _ (xs : List Interval) (valid : All IsInterval xs) (h : length xs < 2 ^ 64) where
  pub Appends-rounding_intervals : Appends (write_rounding_intervals xs) (counted interval_bytes xs)
  unfolding write_rounding_intervals
  Appends-rounding_intervals =
      Appends-counted interval_bytes xs write_interval Appends-interval h valid

  pub Reads-rounding_intervals : Reads read_rounding_intervals (counted interval_bytes xs) xs
  unfolding read_rounding_intervals
  Reads-rounding_intervals = Reads-counted interval_bytes xs read_interval Reads-interval h valid

-- Of every list of rounding intervals of 64-bit numbers, shorter than 2^64 and written in 2^30
-- bytes, deserialize returns it from what serialize wrote.
pub read-write_rounding_intervals :
    (xs : List Interval)
    → All IsInterval xs
    → length xs < 2 ^ 64
    → length (counted interval_bytes xs) ≤ max_size
    → and_then
        (output (write_rounding_intervals xs))
        (λ out. result (read_rounding_intervals (reader out)))
      ≡ value xs
read-write_rounding_intervals xs valid h size =
    round_trip _ _ _ xs (Appends-rounding_intervals xs valid h)
      (Reads-end (Reads-rounding_intervals xs valid h)) size

pub record IsPoint (x : Point) : Type 0 where
  pub outcome : x.event_outcome < 2 ^ 64
  pub payout : x.outcome_payout < 2 ^ 64
  pub precision : x.extra_precision < 2 ^ 16

abbrev pub point_bytes : Point → List ℕ
point_bytes x =
    be_bytes 8 x.event_outcome ++ (be_bytes 8 x.outcome_payout ++ be_bytes 2 x.extra_precision)

Appends-point : (x : Point) → IsPoint x → Appends (write_point x) (point_bytes x)
unfolding write_point
Appends-point x v =
    Appends-seq (Appends-u64 _ v.outcome)
      (Appends-seq (Appends-u64 _ v.payout) (Appends-u16 _ v.precision))

Reads-point : (x : Point) → IsPoint x → Reads read_point (point_bytes x) x
unfolding read_point
Reads-point x v =
    Reads-bind _ (Reads-u64 _ v.outcome)
      (Reads-bind _ (Reads-u64 _ v.payout) (Reads-map _ (Reads-u16 _ v.precision)))

pub record IsHyperbola (x : Hyperbola) : Type 0 where
  pub left : x.left_end_point ≡ zero_point
  pub right : x.right_end_point ≡ zero_point
  pub outcome : length x.translate_outcome ≡ 8
  pub payout : length x.translate_payout ≡ 8
  pub at_a : length x.a ≡ 8
  pub at_b : length x.b ≡ 8
  pub at_c : length x.c ≡ 8
  pub at_d : length x.d ≡ 8

abbrev pub hyperbola_fields : Hyperbola → List ℕ
hyperbola_fields x =
    flag_bytes x.use_positive_piece
    ++ (x.translate_outcome ++ (x.translate_payout ++ (x.a ++ (x.b ++ (x.c ++ x.d)))))

abbrev pub piece_bytes : PayoutCurvePiece → List ℕ
piece_bytes (polynomial points) = big_size 0 ++ counted point_bytes points
piece_bytes (hyperbola x) = big_size 1 ++ hyperbola_fields x

abbrev pub IsPiece : PayoutCurvePiece → Type 0
IsPiece (polynomial points) =
    All IsPoint points
    × (length points < 2 ^ 64)
    × (length (piece_bytes (polynomial points)) ≤ max_size)
IsPiece (hyperbola x) = IsHyperbola x

Appends-piece : (x : PayoutCurvePiece) → IsPiece x → Appends (write_piece x) (piece_bytes x)
unfolding write_piece
Appends-piece (polynomial points) (valid, h, size) =
    Appends-seq (Appends-big_size 0 (omega arith))
      (Appends-counted point_bytes points write_point Appends-point h valid)
Appends-piece (hyperbola x) v = Appends-seq (Appends-big_size 1 (omega arith)) (
    Appends-seq (Appends-u8 _ (flag_small x.use_positive_piece)) (
      Appends-seq (Appends-write_bytes x.translate_outcome) (
        Appends-seq (Appends-write_bytes x.translate_payout) (
          Appends-seq (Appends-write_bytes x.a) (
            Appends-seq (Appends-write_bytes x.b)
              (Appends-seq (Appends-write_bytes x.c) (Appends-write_bytes x.d)))))))

Reads-polynomial :
    (points : List Point)
    → All IsPoint points
    → length points < 2 ^ 64
    → Reads read_polynomial (piece_bytes (polynomial points)) (polynomial points)
unfolding read_polynomial
Reads-polynomial points valid h =
    Reads-seq (Reads-big_size 0 (omega arith))
      (Reads-map polynomial (Reads-counted point_bytes points read_point Reads-point h valid))

Reads-hyperbola :
    (x : Hyperbola) → IsHyperbola x → Reads read_hyperbola (piece_bytes (hyperbola x)) (hyperbola x)
unfolding read_hyperbola
Reads-hyperbola x v = rw same at read
  where
    kept : PayoutCurvePiece
    kept = hyperbola (record x {
      left_end_point = zero_point;
      right_end_point = zero_point;
      use_positive_piece = (if x.use_positive_piece then 1 else 0) == 1;
    })

    same : kept ≡ hyperbola x
    same =
        ap
          (λ b. hyperbola (record x {
            left_end_point = zero_point;
            right_end_point = zero_point;
            use_positive_piece = b;
          }))
          (flag_back x.use_positive_piece)
        ∙ ap (λ p. hyperbola (record x { left_end_point = p; right_end_point = zero_point }))
            (sym v.left)
        ∙ ap (λ p. hyperbola (record x { right_end_point = p })) (sym v.right)

    read : Reads read_hyperbola (piece_bytes (hyperbola x)) kept
    read = Reads-seq (Reads-big_size 1 (omega arith)) (
        Reads-bind _ (Reads-u8 _ (flag_small x.use_positive_piece)) (
          Reads-bind _ (Reads-exactly 8 x.translate_outcome v.outcome) (
            Reads-bind _ (Reads-exactly 8 x.translate_payout v.payout) (
              Reads-bind _ (Reads-exactly 8 x.a v.at_a) (
                Reads-bind _ (Reads-exactly 8 x.b v.at_b) (
                  Reads-bind _ (Reads-exactly 8 x.c v.at_c)
                    (Reads-map _ (Reads-exactly 8 x.d v.at_d))))))))

length-hyperbola : (x : Hyperbola) → IsHyperbola x → length (piece_bytes (hyperbola x)) ≤ 58
length-hyperbola x v =
    simp (length-append, length-be_bytes, v.outcome, v.payout, v.at_a, v.at_b, v.at_c, v.at_d)
      (omega (arith, length-big_size_le 1))

serialize_piece_lem : (x : PayoutCurvePiece) → IsPiece x → serialize_piece x ≡ value (piece_bytes x)
unfolding serialize_piece
serialize_piece_lem (polynomial points) (valid, h, size) =
    Appends-output _ _ (Appends-piece (polynomial points) (valid, h, size)) size
serialize_piece_lem (hyperbola x) v =
    Appends-output _ _ (Appends-piece (hyperbola x) v) (omega (arith, length-hyperbola x v))

deserialize_piece_lem :
    (x : PayoutCurvePiece) (rest : List ℕ)
    → IsPiece x
    → deserialize_piece (piece_bytes x ++ rest) ≡ value x
unfolding deserialize_piece
deserialize_piece_lem (polynomial points) rest (valid, h, size) =
    rw (tagged_front 0 (omega arith) (counted point_bytes points) rest)
      (Reads-result_front (Reads-polynomial points valid h) rest)
deserialize_piece_lem (hyperbola x) rest v =
    rw (tagged_front 1 (omega arith) (hyperbola_fields x) rest)
      (Reads-result_front (Reads-hyperbola x v) rest)

-- Of every valid payout curve piece, PayoutCurvePiece.deserialize returns it from what serialize
-- wrote, whatever bytes follow; a piece is valid when a polynomial is in range and fits in 2^30
-- bytes, or a hyperbola has six numbers of 8 bytes.
pub deserialize-serialize_piece :
    (x : PayoutCurvePiece) (rest : List ℕ)
    → IsPiece x
    → and_then (serialize_piece x) (λ out. deserialize_piece (out ++ rest)) ≡ value x
deserialize-serialize_piece x rest v = rw (serialize_piece_lem x v) (deserialize_piece_lem x rest v)

-- A piece of the payout function, with its end point in front.
abbrev pub function_piece_bytes : FunctionPiece → List ℕ
function_piece_bytes x = point_bytes x.end_point ++ piece_bytes x.curve

abbrev pub IsFunctionPiece : FunctionPiece → Type 0
IsFunctionPiece x = IsPoint x.end_point × IsPiece x.curve

Appends-function_piece :
    (x : FunctionPiece)
    → IsFunctionPiece x
    → Appends (write_function_piece x) (function_piece_bytes x)
unfolding write_function_piece
Appends-function_piece x (p, c) =
    Appends-seq (Appends-point x.end_point p) (Appends-inner (Appends-piece x.curve c))

Reads-function_piece :
    (x : FunctionPiece) → IsFunctionPiece x → Reads read_function_piece (function_piece_bytes x) x
unfolding read_function_piece
Reads-function_piece x (p, c) = Reads-bind _ (Reads-point x.end_point p) (
    Reads-map _ (
      Reads-ahead deserialize_piece serialize_piece (piece_bytes x.curve) x.curve
        (λ rest. deserialize_piece_lem x.curve rest c) (serialize_piece_lem x.curve c)))

abbrev pub function_bytes : PayoutFunction → List ℕ
function_bytes x = counted function_piece_bytes x.pieces ++ point_bytes x.last_endpoint

module _ (x : PayoutFunction) (valid : All IsFunctionPiece x.pieces)
    (last : IsPoint x.last_endpoint) (h : length x.pieces < 2 ^ 64) where
  pub Appends-payout_function : Appends (write_payout_function x) (function_bytes x)
  unfolding write_payout_function
  Appends-payout_function =
      Appends-seq
        (Appends-counted function_piece_bytes x.pieces write_function_piece Appends-function_piece h
          valid)
        (Appends-point x.last_endpoint last)

  pub Reads-payout_function : Reads read_payout_function (function_bytes x) x
  unfolding read_payout_function
  Reads-payout_function =
      Reads-bind _
        (Reads-counted function_piece_bytes x.pieces read_function_piece Reads-function_piece h
          valid)
        (Reads-map _ (Reads-point x.last_endpoint last))

-- Of every payout_function whose points are in range, whose pieces are valid and which fits in
-- 2^30 bytes, deserialize returns from what serialize wrote the same one, but with zeros for both
-- end points of every hyperbola; a piece is valid when a polynomial is in range and fits in 2^30
-- bytes, or a hyperbola, of whatever end points, has six numbers of 8 bytes.
pub read-write_payout_function :
    (x : PayoutFunction)
    → All IsFunctionPiece (cleared_function x).pieces
    → IsPoint x.last_endpoint
    → length x.pieces < 2 ^ 64
    → length (counted function_piece_bytes (cleared_function x).pieces) + 18 ≤ max_size
    → and_then
        (output (write_payout_function x))
        (λ out. result (read_payout_function (reader out)))
      ≡ value (cleared_function x)
read-write_payout_function x valid last h size =
    let y = cleared_function x in
    let n : length y.pieces < 2 ^ 64 = omega (arith, length-map cleared_function_piece x.pieces) in
    rw (← write_payout_function-cleared x) (
      round_trip _ _ (function_bytes y) y (Appends-payout_function y valid last n)
        (Reads-end (Reads-payout_function y valid last n))
        (omega (
          arith,
          length-append (counted function_piece_bytes y.pieces) (point_bytes x.last_endpoint),
          length-point x.last_endpoint,
        )))
  where
    length-point : (p : Point) → length (point_bytes p) ≡ 18
    length-point p = simp (length-append, length-be_bytes) refl
