-- ===== src/Prelude/Run.antt =====
-- A run of a stateful operation that may throw: the value and the state it leaves, or the error
-- and the state that the object is left in.
use mathlib.Core.Path.{◌≡◌, refl}
use mathlib.Core.Bool.{Bool, true, false}
use mathlib.Core.List.{List, [], ◌∷◌}
use node_dlc.Prelude.Lists.{All}

-- The exceptions that the modelled code throws, by their messages.
pub data Error : Type 0 where
  out_of_range not_canonical not_minimal bad_marker : Error
  bad_stream unknown_even bad_length : Error
  bad_type bad_value : Error
  no_rounds read_failed bad_version bad_tag bad_key too_long null_pointer : Error

pub data Outcome {ℓ κ} (S : Type ℓ) (A : Type κ) : Type (ℓ ⊔ κ) where
  ok : A → S → Outcome S A
  err : Error → S → Outcome S A

module _ {ℓ κ μ} {S : Type ℓ} {A : Type κ} {B : Type μ} where
  infixl 5 ◌>>=◌ ◌>>◌
  abbrev pub ◌>>=◌ : (S → Outcome S A) → (A → S → Outcome S B) → S → Outcome S B
  ◌>>=◌ m f s = elim (m s) [ ok a s' ↦ f a s' | err e s' ↦ err e s' ]

  abbrev pub ◌>>◌ : (S → Outcome S A) → (S → Outcome S B) → S → Outcome S B
  ◌>>◌ m k s = elim (m s) [ ok a s' ↦ k s' | err e s' ↦ err e s' ]

module _ {ℓ κ μ} {S : Type ℓ} {A : Type κ} {B : Type μ} where
  -- A step that succeeds hands its value and state on.
  pub >>=-ok :
      (m : S → Outcome S A) (f : A → S → Outcome S B) {s t : S} {a : A}
      → m s ≡ ok a t
      → (m >>= f) s ≡ f a t
  >>=-ok m f e = rw (e, ◌>>=◌)

  pub >>-ok :
      (m : S → Outcome S A) (k : S → Outcome S B) {s t : S} {a : A}
      → m s ≡ ok a t
      → (m >> k) s ≡ k t
  >>-ok m k e = rw (e, ◌>>◌)

  -- A step that throws ends the run.
  pub >>=-err :
      (m : S → Outcome S A) (f : A → S → Outcome S B) {s t : S} {x : Error}
      → m s ≡ err x t
      → (m >>= f) s ≡ err x t
  >>=-err m f e = rw (e, ◌>>=◌)

  pub >>-err :
      (m : S → Outcome S A) (k : S → Outcome S B) {s t : S} {x : Error}
      → m s ≡ err x t
      → (m >> k) s ≡ err x t
  >>-err m k e = rw (e, ◌>>◌)

module _ {ℓ κ} {S : Type ℓ} {A : Type κ} where
  abbrev pub pure : A → S → Outcome S A
  pure a s = ok a s

  abbrev pub throw : Error → S → Outcome S A
  throw e s = err e s

module _ {ℓ κ} {S : Type ℓ} {A : Type κ} where
  -- One outcome is not both, and determines its parts.
  pub ok-injective : {a b : A} {s t : S} → ok a s ≡ ok b t → (a ≡ b) × (s ≡ t)
  ok-injective e = (cc, cc)

  pub err-ne-ok : {x : Error} {b : A} {s t : S} → err x s ≡ ok b t → ⊥
  err-ne-ok e = cc

module _ {ℓ κ μ} {S : Type ℓ} {A : Type κ} {B : Type μ} where
  -- A run that succeeded came through its first step.
  pub >>=-eq-ok :
      (m : S → Outcome S A) (f : A → S → Outcome S B) {s t : S} {b : B}
      → (m >>= f) s ≡ ok b t
      → (a : A) × (u : S) × (m s ≡ ok a u) × (f a u ≡ ok b t)
  >>=-eq-ok m f {s} {t} {b} e = from (m s) refl e
    where
      from :
          (o : Outcome S A)
          → m s ≡ o
          → elim o [ ok a s' ↦ f a s' | err x s' ↦ err x s' ] ≡ ok b t
          → (a : A) × (u : S) × (m s ≡ ok a u) × (f a u ≡ ok b t)
      from (ok a u) h k = (a, u, h, k)
      from (err x u) h k = cc

  pub >>-eq-ok :
      (m : S → Outcome S A) (k : S → Outcome S B) {s t : S} {b : B}
      → (m >> k) s ≡ ok b t
      → (a : A) × (u : S) × (m s ≡ ok a u) × (k u ≡ ok b t)
  >>-eq-ok m k e = >>=-eq-ok m (λ _. k) e

-- What a whole call returns or throws, with no object left to look at.
pub data Result {ℓ} (A : Type ℓ) : Type ℓ where
  value : A → Result A
  error : Error → Result A

module _ {ℓ κ} {A : Type ℓ} {B : Type κ} where
  -- The value of one call is used by the next.
  abbrev pub and_then : Result A → (A → Result B) → Result B
  and_then (value a) f = f a
  and_then (error e) f = error e

module _ {ℓ κ} {S : Type ℓ} {A : Type κ} where
  -- A finished call inside a method.
  abbrev pub lift : Result A → S → Outcome S A
  lift (value a) s = ok a s
  lift (error e) s = err e s

  -- The result of a run, its object dropped.
  abbrev pub result : Outcome S A → Result A
  result (ok a s) = value a
  result (err e s) = error e

-- A check that throws where it fails, and one check after another.
abbrev pub guard : Bool → Error → Result (Unit {0})
guard true e = value tt
guard false e = error e

infixr 5 ◌also◌
abbrev pub ◌also◌ : Result (Unit {0}) → Result (Unit {0}) → Result (Unit {0})
value u also k = k
error e also k = error e

pub guard-eq-value : (b : Bool) (e : Error) → guard b e ≡ value tt → b ≡ true
guard-eq-value true e h = refl
guard-eq-value false e h = cc

pub also-eq-value :
    (m : Result (Unit {0})) {k : Result (Unit {0})}
    → (m also k) ≡ value tt
    → (m ≡ value tt) × (k ≡ value tt)
also-eq-value (value u) h = (refl, h)
also-eq-value (error e) h = cc

pub guard-also :
    (b : Bool) (e : Error) {k : Result (Unit {0})}
    → (guard b e also k) ≡ value tt
    → (b ≡ true) × (k ≡ value tt)
guard-also b e h = let (c, d) = also-eq-value (guard b e) h in (guard-eq-value b e c, d)

-- Every item passes, in order.
abbrev pub check_each : {A : Type 0} → (A → Result (Unit {0})) → List A → Result (Unit {0})
check_each f [] = value tt
check_each f (x ∷ xs) = f x also check_each f xs

pub check_each-eq-value :
    {A : Type 0} (f : A → Result (Unit {0})) (xs : List A)
    → check_each f xs ≡ value tt
    → All (λ x. f x ≡ value tt) xs
check_each-eq-value f [] h = tt
check_each-eq-value f (x ∷ xs) h =
    let (a, b) = also-eq-value (f x) h in (a, check_each-eq-value f xs b)
