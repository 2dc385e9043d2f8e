-- ===== src/Network/Registry/Streams.antt =====
-- Opening and closing streams.
use sandpolis.Prelude.{
  ℕ, ◌*◌, ◌%◌, ◌^◌, ◌<◌, ◌≡◌, refl, ap, ◌≢◌, true, Option, none, some, List, [], ◌∷◌, arith,
}
use Prim.Native.Nat.{bit_or}
use sandpolis.Prelude.Maps.{remove}
use sandpolis.Prelude.Bits.{or_low}
use sandpolis.Network.Message.{StreamMessage, routed, tag, generate_id}
use sandpolis.Network.Relay.{Relay, Heap}
use sandpolis.Network.Registry.{Registry, deliver, dispatch, register_to, emit, close}

-- The two halves of a generated id are the type's tag and the random number, both of 32 bits.
pub generate_id_halves :
    (type_tag random : ℕ)
    → type_tag < 2 ^ 32
    → random < 2 ^ 32
    → (tag (generate_id type_tag random) ≡ type_tag)
      × (generate_id type_tag random % 2 ^ 32 ≡ random)
unfolding tag generate_id
generate_id_halves t x h k = omega (
  arith,
  or_low 32 t x k,
  ap (λ (v : ℕ). bit_or v x) {x = t * 2 ^ 32 % 2 ^ 64} {y = t * 2 ^ 32} (omega arith),
  half,
)
  where
    half : generate_id t x ≡ bit_or (t * 2 ^ 32 % 2 ^ 64) x
    half = refl

module _ {H F : Type 0} (create : F → H) (heap : Heap) (rl : Option Relay) where
  -- A stream that this side opens toward `dst`: its requests carry `dst`, the answers to it reach
  -- its handler and nothing else whatever the gate says, and no other stream is touched.
  pub register_to_opens :
      (r : Registry H F) (type_tag random : ℕ) (h : H) (dst : Option ℕ) (request : List ℕ)
      (answer : StreamMessage)
      → let (id, r') = register_to type_tag random h dst r in
        answer.stream_id ≡ id
        → (emit id request r' ≡ some (routed id request dst))
          × (dispatch create heap r' rl answer
              ≡ record { registry = r'; relay = rl; effects = deliver h answer.payload ∷ [] })
          × ((s : ℕ) → s ≢ id → r'.streams s ≡ r.streams s)
  unfolding register_to emit dispatch
  register_to_opens r t x h dst request answer e = ground arith

-- After `close` the connection has no handler and no byte count for the stream, and the relay that
-- it is attached to has no return route for it; all other streams are as they were.
pub close_forgets :
    {H F : Type 0} (id : ℕ) (r : Registry H F) (l : Relay)
    → r.has_relay ≡ true
    → let (r', rl') = close id r (some l) in
      (r'.streams id ≡ none)
      × (r'.traffic id ≡ none)
      × ((l' : Relay) × (rl' ≡ some l')
          × (l'.routes id ≡ none)
          × ((s : ℕ) → s ≢ id → l'.routes s ≡ l.routes s))
      × ((s : ℕ) → s ≢ id → (r'.streams s ≡ r.streams s) × (r'.traffic s ≡ r.traffic s))
unfolding close
close_forgets id r l a = (
  ground arith,
  ground arith,
  (record l { routes = remove id l.routes }, ground arith, ground arith, λ s n. ground arith),
  λ s n. ground arith,
)
