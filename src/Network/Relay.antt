-- ===== src/Network/Relay.antt =====
-- The server-side stream router (`Relay` of sandpolis-instance/src/network/stream.rs).
-- A channel is known by a number, and two senders are the same channel when their numbers are
-- equal (`same_channel`). A `Weak` handle is the address of a connection, and a `Heap` says which
-- addresses can still be upgraded. Sends are returned as values, in order.
pub mod Choice
pub mod Hops
pub mod Advertise
pub mod Responses
use sandpolis.Prelude.{
  ℕ, ◌+◌, ◌%◌, Bool, true, false, not, ◌&&◌, Option, none, some, List, [], ◌∷◌, find, leb, ◌==◌,
  if◌then◌else◌,
}
use sandpolis.Prelude.Maps.{Table, empty, insert, remove, retain}
use sandpolis.Network.Message.{StreamMessage, local, max_hops}

-- What the relay reads of an `InstanceConnection`.
pub record Connection : Type 0 where
  pub addr : ℕ
  pub remote_instance : ℕ
  pub tx : ℕ

abbrev pub Heap : Type 0
Heap = ℕ → Option Connection

pub record Relay : Type 0 where
  pub connections : List Connection
  pub routes : Table ℕ
  pub reachable : Table ℕ
  pub upstream : Option ℕ

pub record Send : Type 0 where
  pub chan : ℕ
  pub message : StreamMessage

unfoldable pub new : List Connection → Relay
new cs = record { connections = cs; routes = empty; reachable = empty; upstream = none }

-- Whether an advertised handle still leads to a peer other than `via`.
unfoldable pub not_through : Heap → ℕ → ℕ → Bool
not_through heap via h = elim (heap h) [ none ↦ false | some c ↦ not (c.remote_instance == via) ]

insert_all : ℕ → List ℕ → Table ℕ → Table ℕ
insert_all h [] m = m
insert_all h (i ∷ is) m = insert_all h is (insert i h m)

-- The loop `for instance in instances` runs over the retained table.
unfoldable pub advertise : Heap → Connection → List ℕ → Relay → Relay
unfolding insert_all not_through
advertise heap via instances r = record r {
  reachable =
      insert_all via.addr instances (retain (not_through heap via.remote_instance) r.reachable);
}

unfoldable pub withdraw : Heap → ℕ → Relay → Relay
unfolding not_through
withdraw heap via r = record r { reachable = retain (not_through heap via) r.reachable }

unfoldable pub set_upstream : ℕ → Relay → Relay
set_upstream h r = record r { upstream = some h }

abbrev pub or_else {ℓ} : {A : Type ℓ} → Option A → Option A → Option A
or_else none b = b
or_else (some a) b = some a

-- `StreamRegistry::is_origin`.
unfoldable pub is_origin : Connection → ℕ → Bool
is_origin c origin = c.tx == origin

not_origin : ℕ → Option Connection → Option Connection
unfolding is_origin
not_origin origin none = none
not_origin origin (some c) = if is_origin c origin then none else some c

-- `.and_then(|entry| entry.upgrade()).filter(|c| !c.streams.is_origin(origin_tx))`.
through : Heap → ℕ → Option ℕ → Option Connection
unfolding not_origin
through heap origin none = none
through heap origin (some h) = not_origin origin (heap h)

unfoldable pub next_hop : Heap → Relay → ℕ → ℕ → Option Connection
unfolding through is_origin
next_hop heap r target origin =
    or_else (find (λ c. c.remote_instance == target && not (is_origin c origin)) r.connections)
      (or_else (through heap origin (r.reachable target)) (through heap origin r.upstream))

-- What `route` did: whether the message is handled, the relay after it, and what was sent.
pub record Routed : Type 0 where
  pub handled : Bool
  pub relay : Relay
  pub sends : List Send

abbrev pub swallowed : Relay → Routed
swallowed r = record { handled = true; relay = r; sends = [] }

forward : Relay → StreamMessage → ℕ → ℕ → Option Connection → Routed
forward r m target origin none = swallowed r
forward r m target origin (some c) = record {
  handled = true;
  relay = record r { routes = insert m.stream_id origin r.routes };
  sends =
      record { chan = c.tx; message = record m { dst = some target; hops = (m.hops + 1) % 256 } }
      ∷ [];
}

reply : Relay → StreamMessage → Option ℕ → Routed
reply r m none = record { handled = false; relay = r; sends = [] }
reply r m (some origin) = record {
  handled = true;
  relay = r;
  sends = record { chan = origin; message = local m.stream_id m.payload } ∷ [];
}

route_dst : Heap → Relay → StreamMessage → ℕ → Option ℕ → Routed
unfolding forward reply
route_dst heap r m origin none = reply r m (r.routes m.stream_id)
route_dst heap r m origin (some target) =
    if leb max_hops m.hops
    then swallowed r
    else forward r m target origin (next_hop heap r target origin)

unfoldable pub route : Heap → Relay → StreamMessage → ℕ → Routed
unfolding route_dst
route heap r m origin = route_dst heap r m origin m.dst
