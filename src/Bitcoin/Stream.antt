-- ===== src/Bitcoin/Stream.antt =====
-- packages/bufio/lib/StreamReader.ts over a stream made by bufToStream.ts, which has ended: its
-- state is what is left of it. The unused methods of other widths are left out.
use node_dlc.Prelude.{
  ℕ, subst, zero, suc, ◌^◌, ◌<◌, ◌≡◌, refl, ap, ◌∙◌, arith, false, List, [], ◌∷◌, ◌++◌, length,
  take, drop, All, length-append, append_assoc, append-nil, take-append, drop-append, ltb, ◌==◌,
  if◌then◌else◌, Outcome, ok, err, out_of_range, ◌>>=◌, >>=-ok, pure, Result, value, lift,
  Bool-cases, inl, inr,
}
use node_dlc.Bufio.Bytes.{
  le_value, le_bytes, be_value, be_bytes, length-le_bytes, length-be_bytes, le_value-le_bytes,
  be_value-be_bytes,
}
use node_dlc.Bufio.Writer.Appends.{each_bytes}
use node_dlc.Bufio.Writer.Numbers.{var_int}

abbrev pub Parse : Type 0 → Type 0
Parse A = List ℕ → Outcome (List ℕ) A

-- A stream that has ended gives what it has, and then nothing is left.
unfoldable pub stream_bytes : ℕ → Parse (List ℕ)
stream_bytes n s = if ltb (length s) n then err out_of_range [] else ok (take n s) (drop n s)

unfoldable pub stream_rest : Parse (List ℕ)
stream_rest s = ok s []

unfoldable pub stream_u8 : Parse ℕ
stream_u8 = do bytes ← stream_bytes 1; pure (be_value bytes)

unfoldable pub stream_u16_le : Parse ℕ
stream_u16_le = do bytes ← stream_bytes 2; pure (le_value bytes)

unfoldable pub stream_u32_le : Parse ℕ
stream_u32_le = do bytes ← stream_bytes 4; pure (le_value bytes)

unfoldable pub stream_u64_le : Parse ℕ
stream_u64_le = do bytes ← stream_bytes 8; pure (le_value bytes)

unfoldable pub var_int_from : ℕ → Parse ℕ
var_int_from byte =
    if ltb byte 0xfd
    then pure byte
    else if byte == 0xfd
    then stream_u16_le
    else if byte == 0xfe
    then stream_u32_le
    else stream_u64_le

unfoldable pub stream_var_int : Parse ℕ
stream_var_int = do byte ← stream_u8; var_int_from byte

-- The loop that parses an item each round.
unfoldable pub stream_times : {A : Type 0} → ℕ → Parse A → Parse (List A)
stream_times zero m = pure []
stream_times (suc n) m = do x ← m; xs ← stream_times n m; pure (x ∷ xs)

-- Where `bs` comes next, `m` returns `a` and leaves what follows.
pub record Takes {A : Type 0} (m : Parse A) (bs : List ℕ) (a : A) : Type 0 where
  pub run : (rest : List ℕ) → m (bs ++ rest) ≡ ok a rest

pub Takes-pure : {A : Type 0} (a : A) → Takes (pure a) [] a
Takes-pure a = record { run = λ rest. refl }

pub Takes-bind :
    {A B : Type 0} {m : Parse A} (f : A → Parse B) {xs ys : List ℕ} {a : A} {b : B}
    → Takes m xs a
    → Takes (f a) ys b
    → Takes (m >>= f) (xs ++ ys) b
Takes-bind {m} f {xs} {ys} p q = record {
  run = λ rest. rw (append_assoc xs ys rest) (>>=-ok m f (p.run (ys ++ rest)) ∙ q.run rest);
}

pub Takes-map :
    {A B : Type 0} {m : Parse A} (g : A → B) {bs : List ℕ} {a : A}
    → Takes m bs a
    → Takes (m >>= λ x. pure (g x)) bs (g a)
Takes-map {m} g p = record { run = λ rest. >>=-ok m (λ x. pure (g x)) (p.run rest) }

pub Takes-append_nil :
    {A : Type 0} {m : Parse A} {bs : List ℕ} {a : A} → Takes m (bs ++ []) a → Takes m bs a
Takes-append_nil {bs} p = rw (append-nil bs) at p

Takes-as : {A : Type 0} {m : Parse A} {bs : List ℕ} {a b : A} → a ≡ b → Takes m bs a → Takes m bs b
Takes-as {m} {bs} e p = subst (Takes m bs) e p

-- A call on bytes that were taken.
pub Takes-lift : {A : Type 0} {o : Result A} {a : A} → o ≡ value a → Takes (lift o) [] a
Takes-lift {a} e = record { run = λ rest. ap (λ r. lift r rest) e }

pub Takes-bytes : (n : ℕ) (bs : List ℕ) → length bs ≡ n → Takes (stream_bytes n) bs bs
unfolding stream_bytes
Takes-bytes n bs e = record {
  run = λ rest.
      let enough : ltb (length (bs ++ rest)) (length bs) ≡ false =
        rw (length-append bs rest) (ground arith) in
      rw (← e) (rw (enough, take-append bs rest, drop-append bs rest) refl);
}

pub Takes-u8 : (val : ℕ) → val < 256 → Takes stream_u8 (be_bytes 1 val) val
unfolding stream_u8
Takes-u8 val h =
    Takes-as (be_value-be_bytes 1 val h)
      (Takes-map be_value (Takes-bytes 1 (be_bytes 1 val) (length-be_bytes 1 val)))

module _ (val : ℕ) where
  pub Takes-u16_le : val < 2 ^ 16 → Takes stream_u16_le (le_bytes 2 val) val
  unfolding stream_u16_le
  Takes-u16_le h =
      Takes-as (le_value-le_bytes 2 val h)
        (Takes-map le_value (Takes-bytes 2 (le_bytes 2 val) (length-le_bytes 2 val)))

  pub Takes-u32_le : val < 2 ^ 32 → Takes stream_u32_le (le_bytes 4 val) val
  unfolding stream_u32_le
  Takes-u32_le h =
      Takes-as (le_value-le_bytes 4 val h)
        (Takes-map le_value (Takes-bytes 4 (le_bytes 4 val) (length-le_bytes 4 val)))

  pub Takes-u64_le : val < 2 ^ 64 → Takes stream_u64_le (le_bytes 8 val) val
  unfolding stream_u64_le
  Takes-u64_le h =
      Takes-as (le_value-le_bytes 8 val h)
        (Takes-map le_value (Takes-bytes 8 (le_bytes 8 val) (length-le_bytes 8 val)))

  pub Takes-var_int : val < 2 ^ 64 → Takes stream_var_int (var_int val) val
  unfolding stream_var_int var_int_from var_int
  Takes-var_int h = elim (Bool-cases (ltb val 0xfd)) [
    | inl a ↦ rw a (
        Takes-append_nil
          (Takes-bind var_int_from (Takes-u8 val (ground arith)) (rw a (Takes-pure val))))
    | inr a ↦ rw a (elim (Bool-cases (ltb val 0x1_0000)) [
      | inl b ↦
          rw b (Takes-bind var_int_from (Takes-u8 0xfd (omega arith)) (Takes-u16_le (ground arith)))
      | inr b ↦ rw b (elim (Bool-cases (ltb val 0x1_0000_0000)) [
        | inl c ↦
            rw c
              (Takes-bind var_int_from (Takes-u8 0xfe (omega arith)) (Takes-u32_le (ground arith)))
        | inr c ↦ rw c (Takes-bind var_int_from (Takes-u8 0xff (omega arith)) (Takes-u64_le h))
      ])
    ])
  ]

pub Takes-times {κ} :
    {A : Type 0} {P : A → Type κ} (m : Parse A) (g : A → List ℕ) (xs : List A)
    → ((x : A) → P x → Takes m (g x) x)
    → All P xs
    → Takes (stream_times (length xs) m) (each_bytes g xs) xs
unfolding stream_times
Takes-times m g [] rule h = Takes-pure []
Takes-times m g (x ∷ xs) rule (p, ps) =
    Takes-bind (λ x. stream_times (length xs) m >>= λ xs. pure (x ∷ xs)) (rule x p)
      (Takes-map (λ t. x ∷ t) (Takes-times m g xs rule ps))
