-- ===== src/Bufio/Fixed.antt =====
-- A writer over a buffer of the caller's: it never grows, and what does not fit is refused.
use node_dlc.Prelude.{
  ℕ, ◌+◌, ◌^◌, lt→ltb, ◌∙◌, ◌≤◌, ◌<◌, ◌≡◌, refl, arith, true, Bool, List, [], ◌∷◌, ◌++◌, length,
  take, ltb, ok, err, out_of_range, >>-ok, >>-err, sym, append-nil,
}
use node_dlc.Bufio.Writer.{Writer, overwrite, write_standard, expand, copy_in, write_bytes}
use node_dlc.Bufio.Writer.Expand.{overwrite_lem}

expand-fixed_fits :
    (needed : ℕ) (w : Writer)
    → w.fixed ≡ true
    → w.position + needed ≤ length w.buffer
    → expand needed w ≡ ok tt w
unfolding expand
expand-fixed_fits needed w fix h =
    let room : ltb (length w.buffer) (w.position + needed) ≡ Bool.false = ground arith in
    simp (fix, room)

expand-fixed_full :
    (needed : ℕ) (w : Writer)
    → w.fixed ≡ true
    → length w.buffer < w.position + needed
    → expand needed w ≡ err out_of_range w
unfolding expand
expand-fixed_full needed w fix h =
    let short : ltb (length w.buffer) (w.position + needed) ≡ true = ground arith in
    simp (fix, short)

-- On a writer over a given buffer, bytes that do not fit behind the position are refused with a
-- range error and the writer is left as it was.
pub write_bytes-fixed_full :
    (bs : List ℕ) (w : Writer)
    → w.fixed ≡ true
    → 0 < length bs
    → length w.buffer < w.position + length bs
    → write_bytes bs w ≡ err out_of_range w
unfolding write_bytes copy_in
write_bytes-fixed_full [] w fix pos h = absurd (omega arith)
write_bytes-fixed_full (b ∷ bs) w fix pos h =
    >>-err (expand (length (b ∷ bs))) _ (expand-fixed_full (length (b ∷ bs)) w fix h)

-- On a writer over a given buffer, bytes that fit are written right behind the position: what
-- stands before stays, the buffer keeps its length, and the writer stays fixed.
pub write_bytes-fixed_fits :
    (bs : List ℕ) (w : Writer)
    → w.fixed ≡ true
    → w.position + length bs ≤ length w.buffer
    → (w' : Writer) × (write_bytes bs w ≡ ok tt w')
      × (take w'.position w'.buffer ≡ take w.position w.buffer ++ bs)
      × (length w'.buffer ≡ length w.buffer)
      × (w'.fixed ≡ true)
unfolding write_bytes copy_in
write_bytes-fixed_fits [] w fix h = (w, refl, sym (append-nil _), refl, fix)
write_bytes-fixed_fits (b ∷ bs) w fix h =
    let (front, size) = overwrite_lem w.buffer w.position (b ∷ bs) h in
    (_, >>-ok (expand (length (b ∷ bs))) _ (expand-fixed_fits _ w fix h), front, size, fix)

-- The same for a number of `len` bytes.
pub write_standard-fixed_fits :
    (bytes : ℕ → List ℕ) (val len : ℕ) (w : Writer)
    → w.fixed ≡ true
    → length (bytes val) ≡ len
    → val < 256 ^ len
    → w.position + len ≤ length w.buffer
    → (w' : Writer) × (write_standard bytes val len w ≡ ok tt w')
      × (take w'.position w'.buffer ≡ take w.position w.buffer ++ bytes val)
      × (length w'.buffer ≡ length w.buffer)
      × (w'.fixed ≡ true)
unfolding write_standard
write_standard-fixed_fits bytes val len w fix n h fits =
    let (front, size) = overwrite_lem w.buffer w.position (bytes val) (omega (arith, n)) in
    let small : ltb val (256 ^ len) ≡ true = lt→ltb _ _ h in
    let ends : ltb (w.position + len) (length w.buffer + 1) ≡ true = ground arith in
    (
      record w { buffer = overwrite w.buffer w.position (bytes val); position = w.position + len },
      >>-ok (expand len) _ (expand-fixed_fits len w fix fits) ∙ rw (small, ends) refl,
      rw (← n) front,
      size,
      fix,
    )
