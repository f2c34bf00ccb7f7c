-- ===== src/Noise/Conversation.antt =====
-- A whole connection: the handshake, and then messages in both directions.
use node_dlc.Prelude.{
  ℕ, ◌^◌, ◌<◌, ◌≡◌, refl, sym, ◌∙◌, arith, Bool, true, false, Option, some, List, [], ◌∷◌, length,
  All, Result, value, and_then,
}
use node_dlc.Noise.Crypto.{Primitives, Laws}
use node_dlc.Noise.State.{Noise, noise_state}
use node_dlc.Noise.Handshake.{handshake, handshake-Agree, Agree}
use node_dlc.Noise.Transport.{zero_is, InSync, deliver, deliver-InSync}

-- A message with its direction: true is from the first party to the second.
abbrev pub Said : Type 0
Said = Bool × List ℕ

module _ (p : Primitives) where
  -- Each message is read before the next one is sent.
  unfoldable pub converse :
      List Said → Noise → Noise → Result (List (ℕ × Option (List ℕ)) × (Noise × Noise))
  converse [] a b = value ([], (a, b))
  converse ((true, m) ∷ ms) a b =
      and_then (deliver p m a b)
        (λ (got, (a', b')). and_then (converse ms a' b') (λ (rest, end). value (got ∷ rest, end)))
  converse ((false, m) ∷ ms) a b =
      and_then (deliver p m b a)
        (λ (got, (b', a')). and_then (converse ms a' b') (λ (rest, end). value (got ∷ rest, end)))

  unfoldable pub connect :
      List Said → Noise → Noise → Result (List (ℕ × Option (List ℕ)) × (Noise × Noise))
  connect ms i r = and_then (handshake p i r) (λ (a, b). converse ms a b)

-- What is to arrive: every message whole, behind its length.
abbrev pub arriving : List Said → List (ℕ × Option (List ℕ))
arriving [] = []
arriving ((d, m) ∷ ms) = (length m, some m) ∷ arriving ms

abbrev pub IsShort : Said → Type 0
IsShort (d, m) = length m < 2 ^ 16

InSync-swap : (a b : Noise) → InSync a b → InSync b a
InSync-swap a b (s, t) = (t, s)

Agree-InSync : (i r : Noise) → Agree i r → InSync i r
Agree-InSync i r g =
    let (si, sr) = g.sends in
    let (ri, rr) = g.receives in
    (
      record {
        sent = 0;
        below = omega arith;
        sending = si ∙ zero_is;
        receiving = rr ∙ zero_is;
        key = g.forth;
        chaining = g.chaining;
      },
      record {
        sent = 0;
        below = omega arith;
        sending = sr ∙ zero_is;
        receiving = ri ∙ zero_is;
        key = sym g.back;
        chaining = sym g.chaining;
      },
    )

module _ (p : Primitives) (laws : Laws p) where
  converse-InSync :
      (ms : List Said) (a b : Noise)
      → All IsShort ms
      → InSync a b
      → (a' b' : Noise) × (converse p ms a b ≡ value (arriving ms, (a', b'))) × InSync a' b'
  unfolding converse
  converse-InSync [] a b h s = (a, b, refl, s)
  converse-InSync ((true, m) ∷ ms) a b (h, hs) s =
      let (a₁, b₁, e, s₁) = deliver-InSync p laws m a b h s in
      let (a₂, b₂, e₂, s₂) = converse-InSync ms a₁ b₁ hs s₁ in (a₂, b₂, rw (e, e₂) refl, s₂)
  converse-InSync ((false, m) ∷ ms) a b (h, hs) s =
      let (b₁, a₁, e, s₁) = deliver-InSync p laws m b a h (InSync-swap a b s) in
      let (a₂, b₂, e₂, s₂) = converse-InSync ms a₁ b₁ hs (InSync-swap b₁ a₁ s₁) in
      (a₂, b₂, rw (e, e₂) refl, s₂)

  -- Under the same conditions, after the handshake any sequence of messages shorter than 2^16
  -- bytes in either direction, each read before the next is sent, arrives whole and in order with
  -- its length, through whatever key rotations it takes, and leaves the two parties in step.
  pub connect-arriving :
      (li ei lr er : List ℕ) (ms : List Said)
      → All IsShort ms
      → (a b : Noise) × (connect p ms (noise_state p li ei) (noise_state p lr er)
          ≡ value (arriving ms, (a, b)))
        × InSync a b
  unfolding connect
  connect-arriving li ei lr er ms h =
      let (i, r, e, g) = handshake-Agree p laws li ei lr er in
      let (a, b, e₂, s) = converse-InSync ms i r h (Agree-InSync i r g) in
      (a, b, rw (e, e₂) refl, s)
