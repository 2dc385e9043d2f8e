-- ===== src/Network/Relay/Hops.antt =====
-- How often a message can be relayed, over any network of servers.
use sandpolis.Prelude.{
  ℕ, zero, suc, ◌+◌, ◌-◌, ◌≤◌, ◌<◌, ◌≡◌, refl, inl, inr, Option, none, some, In, arith,
  Option-cases,
}
use sandpolis.Network.Message.{StreamMessage, max_hops}
use sandpolis.Network.Relay.{Heap, Relay, Send, route, route_dst, next_hop}

abbrev pub IsAddressed : StreamMessage → Type 0
IsAddressed m = (d : ℕ) × (m.dst ≡ some d)

-- Some server, in any state, relays `m` on as `m'`.
pub data Hop (m m' : StreamMessage) : Type 0 where
  hop :
      (heap : Heap) (r : Relay) (origin : ℕ) (s : Send)
      → In s (route heap r m origin).sends
      → m' ≡ s.message
      → IsAddressed m'
      → Hop m m'

-- `m` becomes `m'` over `n` servers, one after the other.
pub data Trail (m : StreamMessage) : ℕ → StreamMessage → Type 0 where
  here : Trail m zero m
  next : {n : ℕ} {m' m'' : StreamMessage} → Trail m n m' → Hop m' m'' → Trail m (suc n) m''

-- What a relayed copy has in common with the message, and that the hop is counted.
pub record Relayed (m m' : StreamMessage) : Type 0 where
  pub room : m.hops < max_hops
  pub counted : m'.hops ≡ m.hops + 1
  pub same_dst : m'.dst ≡ m.dst
  pub same_stream : m'.stream_id ≡ m.stream_id
  pub same_payload : m'.payload ≡ m.payload

route-Relayed :
    (heap : Heap) (r : Relay) (m : StreamMessage) (origin : ℕ) (o : Option ℕ) (s : Send)
    → m.dst ≡ o
    → In s (route_dst heap r m origin o).sends
    → IsAddressed s.message
    → Relayed m s.message
unfolding route_dst
route-Relayed heap r m origin none s e i a = ground arith
route-Relayed heap r m origin (some target) s e i a =
    elim (Option-cases (next_hop heap r target origin)) [
      | inl p ↦ ground arith
      | inr (c, p) ↦ ground arith
    ]

Hop-Relayed : {m m' : StreamMessage} → Hop m m' → Relayed m m'
unfolding route
Hop-Relayed {m} (hop heap r origin s i e a) =
    let p = route-Relayed heap r m origin m.dst s refl i (rw (← e) a) in ground (arith, p)

Trail-Relayed :
    {m : StreamMessage} {n : ℕ} {m' : StreamMessage}
    → Trail m n m'
    → (m'.hops ≡ m.hops + n)
      × (m'.dst ≡ m.dst)
      × (m'.stream_id ≡ m.stream_id)
      × (m'.payload ≡ m.payload)
      × (n ≤ max_hops - m.hops)
Trail-Relayed here = ground arith
Trail-Relayed (next p h) = ground (arith, Trail-Relayed p, Hop-Relayed h)

-- However the servers are connected and whatever they advertise, a message that has been relayed
-- over `n` servers arrived with its destination, stream and payload as they were sent, and `n` is
-- at most the hops that `MAX_HOPS` leaves it: no routing loop goes on forever.
pub Trail-bounded :
    {m : StreamMessage} {n : ℕ} {m' : StreamMessage}
    → Trail m n m'
    → (n ≤ max_hops - m.hops)
      × (m'.dst ≡ m.dst)
      × (m'.stream_id ≡ m.stream_id)
      × (m'.payload ≡ m.payload)
Trail-bounded p = let (_, d, s, b, n) = Trail-Relayed p in (n, d, s, b)
