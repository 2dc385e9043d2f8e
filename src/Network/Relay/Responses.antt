-- ===== src/Network/Relay/Responses.antt =====
-- Responses on a relayed stream find their way back.
use sandpolis.Prelude.{ℕ, suc, ◌<◌, ◌≡◌, ◌≢◌, true, none, some, [], ◌∷◌, arith}
use sandpolis.Network.Message.{StreamMessage, local, max_hops}
use sandpolis.Network.Relay.{Connection, Heap, Relay, route, next_hop}

-- An addressed message with hops left, for which there is a next hop `c`, goes to `c` and nowhere
-- else. From then on, whatever connections come and go, a message on that stream that has no
-- destination goes to the sender of the first and nowhere else, as a local message; the return
-- routes of other streams stay as they were.
pub route_and_back :
    (heap later : Heap) (r : Relay) (m answer : StreamMessage) (origin peer : ℕ) {target : ℕ}
    {c : Connection}
    → m.dst ≡ some target
    → m.hops < max_hops
    → next_hop heap r target origin ≡ some c
    → answer.stream_id ≡ m.stream_id
    → answer.dst ≡ none
    → let first = route heap r m origin in
      (first.handled ≡ true)
      × (first.sends
          ≡ record { chan = c.tx; message = record m { dst = some target; hops = suc m.hops } }
            ∷ [])
      × (route later first.relay answer peer ≡ record {
        handled = true;
        relay = first.relay;
        sends = record { chan = origin; message = local answer.stream_id answer.payload } ∷ [];
      })
      × ((s : ℕ) → s ≢ m.stream_id → first.relay.routes s ≡ r.routes s)
unfolding route
route_and_back heap later r m answer origin peer d h n i a = ground arith
