-- ===== src/Messages/Codec.antt =====
-- What the messages of packages/messaging/lib have in common: loops that read a counted list, a
-- second writer whose bytes go into the first, and a reader made to look at the type alone.
use node_dlc.Prelude.{
  ℕ, zero, suc, ◌+◌, drop, err, ◌^◌, ◌≤◌, ◌<◌, ◌≡◌, refl, sym, subst, ap, ◌∙◌, arith, Bool, true,
  false, some, List, [], ◌∷◌, ◌++◌, length, map, length-map, All, length-append, ◌==◌,
  if◌then◌else◌, bad_type, ok, Result, value, error, and_then, lift, result, ◌>>=◌, ◌>>◌, >>=-ok,
  pure,
}
use node_dlc.Bufio.Bytes.{be_bytes}
use node_dlc.Bufio.Reader.{Reader, Read, reader, read_u16_be, read_bytes, read_big_size}
use node_dlc.Bufio.Reader.Reads.{Reads, ReadsEnd, Reads-bind, Reads-pure, Reads-bytes, ahead_fits}
use node_dlc.Bufio.Reader.Finds.{Finds}
use node_dlc.Bufio.Reader.Numbers.{Reads-map, Reads-u16, Reads-big_size}
use node_dlc.Bufio.Writer.{Write, output, write_bytes, write_big_size}
use node_dlc.Bufio.Writer.Expand.{max_size}
use node_dlc.Bufio.Writer.Appends.{
  Appends, Appends-seq, Appends-write_bytes, Appends-each, each_bytes, write_each,
}
use node_dlc.Bufio.Writer.Numbers.{big_size, Appends-big_size}
use node_dlc.Bufio.RoundTrip.{Appends-output}

-- The loop `for (let i = 0; i < n; i++)` that reads an item each round.
unfoldable pub read_times : {A : Type 0} → ℕ → Read A → Read (List A)
read_times zero m = pure []
read_times (suc n) m = do x ← m; xs ← read_times n m; pure (x ∷ xs)

pub Reads-times {κ} :
    {A : Type 0} {P : A → Type κ} (m : Read A) (g : A → List ℕ) (xs : List A)
    → ((x : A) → P x → Reads m (g x) x)
    → All P xs
    → Reads (read_times (length xs) m) (each_bytes g xs) xs
unfolding read_times
Reads-times m g [] rule h = Reads-pure []
Reads-times m g (x ∷ xs) rule (p, ps) =
    Reads-bind _ (rule x p) (Reads-map (λ t. x ∷ t) (Reads-times m g xs rule ps))

-- A list behind its BigSize count.
unfoldable pub write_counted : {A : Type 0} → (A → Write) → List A → Write
write_counted f xs = do write_big_size (length xs); write_each f xs

-- What a change of the items leaves as it is written.
module _ {A : Type 0} (f : A → Write) (c : A → A) (same : (x : A) → f (c x) ≡ f x) where
  write_each-map : (xs : List A) → write_each f (map c xs) ≡ write_each f xs
  unfolding write_each
  write_each-map [] = refl
  write_each-map (x ∷ xs) = rw (same x, write_each-map xs) refl

  pub write_counted-map : (xs : List A) → write_counted f (map c xs) ≡ write_counted f xs
  unfolding write_counted
  write_counted-map xs = rw (length-map c xs, write_each-map xs) refl

unfoldable pub read_counted : {A : Type 0} → Read A → Read (List A)
read_counted m = do n ← read_big_size; read_times n m

abbrev pub counted : {A : Type 0} → (A → List ℕ) → List A → List ℕ
counted g xs = big_size (length xs) ++ each_bytes g xs

module _ {κ} {A : Type 0} {P : A → Type κ} (g : A → List ℕ) (xs : List A) where
  pub Appends-counted :
      (f : A → Write)
      → ((x : A) → P x → Appends (f x) (g x))
      → length xs < 2 ^ 64
      → All P xs
      → Appends (write_counted f xs) (counted g xs)
  unfolding write_counted
  Appends-counted f rule h ps = Appends-seq (Appends-big_size _ h) (Appends-each f g xs rule ps)

  pub Reads-counted :
      (m : Read A)
      → ((x : A) → P x → Reads m (g x) x)
      → length xs < 2 ^ 64
      → All P xs
      → Reads (read_counted m) (counted g xs) xs
  unfolding read_counted
  Reads-counted m rule h ps = Reads-bind _ (Reads-big_size _ h) (Reads-times m g xs rule ps)

-- Bytes behind their BigSize length.
unfoldable pub write_prefixed : List ℕ → Write
write_prefixed bs = do write_big_size (length bs); write_bytes bs

unfoldable pub read_prefixed : Read (List ℕ)
read_prefixed = do n ← read_big_size; read_bytes (some n)

abbrev pub prefixed : List ℕ → List ℕ
prefixed bs = big_size (length bs) ++ bs

pub Appends-prefixed :
    (bs : List ℕ) → length bs < 2 ^ 64 → Appends (write_prefixed bs) (prefixed bs)
unfolding write_prefixed
Appends-prefixed bs h = Appends-seq (Appends-big_size _ h) (Appends-write_bytes bs)

pub Reads-prefixed : (bs : List ℕ) → length bs < 2 ^ 64 → Reads read_prefixed (prefixed bs) bs
unfolding read_prefixed
Reads-prefixed bs h = Reads-bind _ (Reads-big_size _ h) (Reads-bytes bs)

-- A second writer is filled, and its bytes written.
unfoldable pub write_inner : Write → Write
write_inner m = do out ← lift (output m); write_bytes out

-- The same, with the BigSize length in front.
unfoldable pub write_data : Write → Write
write_data m = do out ← lift (output m); write_prefixed out

pub Appends-from :
    {m : Write} {bs cs : List ℕ} (k : List ℕ → Write)
    → Appends m bs
    → length bs ≤ length cs
    → (length bs ≤ max_size → Appends (k bs) cs)
    → Appends (lift (output m) >>= k) cs
Appends-from {m} {bs} k p n q = record {
  run = λ w g h.
      let fits : length bs ≤ max_size = omega arith in
      let (w', e, x) = (q fits).run w g h in
      (w', >>=-ok (lift (output m)) k (ap (λ r. lift r w) (Appends-output m bs p fits)) ∙ e, x);
}

-- A call that succeeds before the rest is written.
pub Appends-lift :
    {A : Type 0} {r : Result A} {a : A} (k : A → Write) {bs : List ℕ}
    → r ≡ value a
    → Appends (k a) bs
    → Appends (lift r >>= k) bs
Appends-lift k {bs} e p = subst (λ r. Appends (lift r >>= k) bs) (sym e) p

pub Appends-inner : {m : Write} {bs : List ℕ} → Appends m bs → Appends (write_inner m) bs
unfolding write_inner
Appends-inner {bs} p = Appends-from write_bytes p (omega arith) (λ _. Appends-write_bytes bs)

pub Appends-data : {m : Write} {bs : List ℕ} → Appends m bs → Appends (write_data m) (prefixed bs)
unfolding write_data
Appends-data {bs} p =
    Appends-from write_prefixed p (omega (arith, length-append (big_size (length bs)) bs))
      (λ h. Appends-prefixed bs (omega arith))

-- A call on bytes that were read already.
pub Reads-lift : {A : Type 0} {o : Result A} {a : A} → o ≡ value a → Reads (lift o) [] a
Reads-lift {a} e = rw e (Reads-pure a)

-- A step after the last bytes that reads nothing.
pub ReadsEnd-then :
    {A B : Type 0} {m : Read A} {bs : List ℕ} {a : A} {b : B} (f : A → Read B)
    → ReadsEnd m bs a
    → ((r : Reader) → f a r ≡ ok b r)
    → ReadsEnd (m >>= f) bs b
ReadsEnd-then {m} f p q = record {
  run = λ r h e. let (r', e', x) = p.run r h e in (r', >>=-ok m f e' ∙ q r', x);
}

-- `deserialize` that looks at the type with a reader of its own before it reads the message.
unfoldable pub dispatch : {A : Type 0} → ℕ → Read A → List ℕ → Result A
dispatch type_id m buf =
    and_then (result (read_u16_be (reader buf)))
      (λ found. if found == type_id then result (m (reader buf)) else error bad_type)

pub dispatch_lem :
    {A : Type 0} (type_id : ℕ) (m : Read A) (rest : List ℕ)
    → type_id < 2 ^ 16
    → dispatch type_id m (be_bytes 2 type_id ++ rest)
      ≡ result (m (reader (be_bytes 2 type_id ++ rest)))
unfolding dispatch
dispatch_lem type_id m rest h =
    let (r, e, x) =
      (Reads-u16 type_id h).run (reader (be_bytes 2 type_id ++ rest)) rest (omega arith) refl in
    let same : (type_id == type_id) ≡ true = ground arith in rw e (rw same refl)

-- A part is read from what lies ahead, and the position moved by as much as it takes to write it.
unfoldable pub read_ahead : {A : Type 0} → (List ℕ → Result A) → (A → Result (List ℕ)) → Read A
read_ahead deserialize serialize r = elim (deserialize (drop r.position r.buffer)) [
  | error e ↦ err e r
  | value a ↦ elim (serialize a) [
    | error e ↦ err e r
    | value out ↦ ok a (record r { position = r.position + length out })
  ]
]

pub Reads-ahead :
    {A : Type 0} (deserialize : List ℕ → Result A) (serialize : A → Result (List ℕ)) (bs : List ℕ)
    (a : A)
    → ((rest : List ℕ) → deserialize (bs ++ rest) ≡ value a)
    → serialize a ≡ value bs
    → Reads (read_ahead deserialize serialize) bs a
unfolding read_ahead
Reads-ahead deserialize serialize bs a p q = record {
  run = λ r rest h e.
      let got : deserialize (drop r.position r.buffer) ≡ value a = ap deserialize e ∙ p rest in
      (
        record r { position = r.position + length bs },
        rw (read_ahead, got, q) refl,
        record { same = refl; moved = refl; inside = omega (arith, ahead_fits r bs rest h e) },
      );
}

-- A part is read from what lies ahead, and the position left where it is.
unfoldable pub look_ahead : {A : Type 0} → (List ℕ → Result A) → Read A
look_ahead deserialize r = lift (deserialize (drop r.position r.buffer)) r

pub Finds-look_ahead :
    {A : Type 0} (deserialize : List ℕ → Result A) (bs : List ℕ) {a : A}
    → ((rest : List ℕ) → deserialize (bs ++ rest) ≡ value a)
    → Finds (look_ahead deserialize) bs a
unfolding look_ahead
Finds-look_ahead deserialize bs p = record {
  run = λ r rest h e. (r, ap (λ o. lift o r) (ap deserialize e ∙ p rest));
}

-- The first bytes decide, whatever comes after.
pub Reads-result_front :
    {A : Type 0} {m : Read A} {bs : List ℕ} {a : A}
    → Reads m bs a
    → (rest : List ℕ) → result (m (reader (bs ++ rest))) ≡ value a
Reads-result_front {bs} p rest =
    let (r', e, x) = p.run (reader (bs ++ rest)) rest (omega arith) refl in rw e refl

-- A flag is a byte, and set when that is 1.
abbrev pub flag_bytes : Bool → List ℕ
flag_bytes b = be_bytes 1 (if b then 1 else 0)

pub flag_small : (b : Bool) → (if b then 1 else 0) < 256
flag_small true = omega arith
flag_small false = omega arith

pub flag_back : (b : Bool) → ((if b then 1 else 0) == 1) ≡ b
flag_back true = refl
flag_back false = refl
