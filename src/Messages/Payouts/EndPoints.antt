-- ===== src/Messages/Payouts/EndPoints.antt =====
-- The end points of a hyperbola, which serialize of
-- packages/messaging/lib/messages/PayoutCurvePiece.ts does not write: with zeros in their place the
-- same is written.
use node_dlc.Prelude.{◌≡◌, refl, ap, map, ◌>>◌}
use node_dlc.Bufio.Writer.{Write}
use node_dlc.Messages.Codec.{write_inner, write_counted-map}
use node_dlc.Messages.Payouts.{
  zero_point, PayoutCurvePiece, polynomial, hyperbola, write_piece, FunctionPiece, PayoutFunction,
  write_point, write_function_piece, write_payout_function,
}

abbrev pub cleared_piece : PayoutCurvePiece → PayoutCurvePiece
cleared_piece (polynomial points) = polynomial points
cleared_piece (hyperbola x) =
    hyperbola (record x { left_end_point = zero_point; right_end_point = zero_point })

abbrev pub cleared_function_piece : FunctionPiece → FunctionPiece
cleared_function_piece x = record x { curve = cleared_piece x.curve }

abbrev pub cleared_function : PayoutFunction → PayoutFunction
cleared_function x = record x { pieces = map cleared_function_piece x.pieces }

write_piece-cleared : (x : PayoutCurvePiece) → write_piece (cleared_piece x) ≡ write_piece x
unfolding write_piece
write_piece-cleared (polynomial points) = refl
write_piece-cleared (hyperbola x) = refl

write_function_piece-cleared :
    (x : FunctionPiece) → write_function_piece (cleared_function_piece x) ≡ write_function_piece x
unfolding write_function_piece
write_function_piece-cleared x =
    ap {B = Write} (λ m. write_function_piece_with x m) (write_piece-cleared x.curve)
  where
    write_function_piece_with : FunctionPiece → Write → Write
    write_function_piece_with x m = do write_point x.end_point; write_inner m

pub write_payout_function-cleared :
    (x : PayoutFunction) → write_payout_function (cleared_function x) ≡ write_payout_function x
unfolding write_payout_function
write_payout_function-cleared x =
    ap {B = Write} (λ m. do m; write_point x.last_endpoint)
      (write_counted-map write_function_piece cleared_function_piece write_function_piece-cleared
        x.pieces)
