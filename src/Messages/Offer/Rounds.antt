-- ===== src/Messages/Offer/Rounds.antt =====
-- The loop over the messages at the end of an offer ends: every round moves the reader on.
use node_dlc.Prelude.{suc, ◌≤◌, arith, length}
use node_dlc.Bufio.Reader.{Reader}
use node_dlc.Bufio.Reader.Forward.{
  Goes, Goes-lift, Goes-bind, Goes-bytes, Goes-weaker, Goes-big_size,
}
use node_dlc.Bufio.Writer.{output}
use node_dlc.Messages.Tlv.{write_tlv, get_tlv}
use node_dlc.Messages.Text.{Utf8}
use node_dlc.Messages.Rounds.{Loops, until_eof-Loops}
use node_dlc.Messages.Offer.{Extras, no_extras, add_tlv, take_tlv, read_extras}

Goes-get_tlv : Goes 1 get_tlv
unfolding get_tlv
Goes-get_tlv = Goes-bind Goes-big_size (λ type_id. Goes-bind (Goes-weaker 1 Goes-big_size) (λ size.
    Goes-bind (Goes-bytes size) (λ body. Goes-lift (output (write_tlv type_id size body)))))

module _ (utf : Utf8) where
  Goes-take_tlv : (x : Extras) → Goes 1 (take_tlv utf x)
  unfolding take_tlv
  Goes-take_tlv x = Goes-bind Goes-get_tlv (λ buf. Goes-lift (add_tlv utf x buf))

  -- From any reader that is not past its end, the loop over the messages at the end of an offer,
  -- taken as a loop that counts no rounds, ends after finitely many, at the end of the buffer or
  -- with the error of a round, and with the outcome that the rounds given in the model lead to.
  pub read_extras-Loops :
      (r : Reader)
      → r.position ≤ length r.buffer
      → Loops (take_tlv utf) no_extras r (read_extras utf r)
  unfolding read_extras
  read_extras-Loops r inside =
      until_eof-Loops (take_tlv utf) Goes-take_tlv (suc (length r.buffer)) no_extras r inside
        (omega arith)
