-- ===== src/Network/Registry.antt =====
-- The streams of one connection (`StreamRegistry` of sandpolis-instance/src/network/stream.rs).
-- `H` stands for the type-erased handlers and `F` for the responder factories, with `create` of the
-- factory trait. What a call delivers to a handler or sends on a channel is returned as a list of
-- effects, in order. The relay that a server's registries share is passed beside the registry,
-- as `none` once it has been dropped.
pub mod Gate
pub mod Traffic
pub mod Streams
use sandpolis.Prelude.{
  ℕ, ◌+◌, ◌%◌, ◌^◌, Bool, true, false, not, Option, none, some, List, [], ◌∷◌, map, if◌then◌else◌,
}
use sandpolis.Prelude.Maps.{Table, empty, insert, remove}
use sandpolis.Network.Message.{StreamMessage, routed, tag, generate_id}
use sandpolis.Network.Relay.{Relay, Heap, Send, Routed, route}

pub record StreamCounters : Type 0 where
  pub rx : ℕ
  pub tx : ℕ

abbrev pub no_traffic : StreamCounters
no_traffic = record { rx = 0; tx = 0 }

-- A registered stream: its handler, and the destination that the task which forwards the handler's
-- messages stamps on them.
pub record Entry (H : Type 0) : Type 0 where
  pub handler : H
  pub dst : Option ℕ

pub record Registry (H F : Type 0) : Type 0 where
  pub streams : Table (Entry H)
  pub responder_factories : Table F
  pub tx : ℕ
  pub has_relay : Bool
  pub traffic : Table StreamCounters
  pub gate : Option (ℕ → Bool)

pub data Effect (H : Type 0) : Type 0 where
  deliver : H → List ℕ → Effect H
  sent : Send → Effect H

pub record Outcome (H F : Type 0) : Type 0 where
  pub registry : Registry H F
  pub relay : Option Relay
  pub effects : List (Effect H)

abbrev pub or_default : Option StreamCounters → StreamCounters
or_default none = no_traffic
or_default (some c) = c

abbrev pub loaded : Option StreamCounters → Option (ℕ × ℕ)
loaded none = none
loaded (some c) = some (c.rx, c.tx)

forwarded : {H : Type 0} → ℕ → List ℕ → Option (Entry H) → Option StreamMessage
forwarded id payload none = none
forwarded id payload (some e) = some (routed id payload e.dst)

abbrev pub allows : Option (ℕ → Bool) → ℕ → Bool
allows none type_tag = true
allows (some g) type_tag = g type_tag

forget_route : ℕ → Bool → Option Relay → Option Relay
forget_route id false rl = rl
forget_route id true none = none
forget_route id true (some l) = some (record l { routes = remove id l.routes })

module _ {H F : Type 0} where
  unfoldable pub new : ℕ → Registry H F
  new tx = record {
    streams = empty;
    responder_factories = empty;
    tx = tx;
    has_relay = false;
    traffic = empty;
    gate = none;
  }

  unfoldable pub set_gate : (ℕ → Bool) → Registry H F → Registry H F
  set_gate g r = record r { gate = some g }

  unfoldable pub set_relay : Registry H F → Registry H F
  set_relay r = record r { has_relay = true }

  -- `counters`: the entry, made on first use.
  counters : ℕ → Registry H F → StreamCounters
  counters id r = or_default (r.traffic id)

  -- `fetch_add` on an `AtomicU64` wraps.
  unfoldable pub record_tx : ℕ → ℕ → Registry H F → Registry H F
  unfolding counters
  record_tx id bytes r =
      let c = counters id r in
      record r { traffic = insert id (record c { tx = (c.tx + bytes) % 2 ^ 64 }) r.traffic }

  unfoldable pub record_rx : ℕ → ℕ → Registry H F → Registry H F
  unfolding counters
  record_rx id bytes r =
      let c = counters id r in
      record r { traffic = insert id (record c { rx = (c.rx + bytes) % 2 ^ 64 }) r.traffic }

  -- `traffic`: received, then sent.
  unfoldable pub traffic : ℕ → Registry H F → Option (ℕ × ℕ)
  traffic id r = loaded (r.traffic id)

  unfoldable pub register_responder : ℕ → F → Registry H F → Registry H F
  register_responder type_tag f r = record r {
    responder_factories = insert type_tag f r.responder_factories;
  }

  -- `register_to`, with the type's tag and the random half of the new id as arguments.
  unfoldable pub register_to : ℕ → ℕ → H → Option ℕ → Registry H F → ℕ × Registry H F
  register_to type_tag random handler dst r =
      let id = generate_id type_tag random in
      (id, record r { streams = insert id (record { handler = handler; dst = dst }) r.streams })

  unfoldable pub register : ℕ → ℕ → H → Registry H F → ℕ × Registry H F
  unfolding register_to
  register type_tag random handler r = register_to type_tag random handler none r

  -- What the forwarding task of a stream sends for a payload that its handler emits.
  unfoldable pub emit : ℕ → List ℕ → Registry H F → Option StreamMessage
  unfolding forwarded
  emit id payload r = forwarded id payload (r.streams id)

  dispatch_new : (F → H) → Registry H F → Option Relay → StreamMessage → Option F → Outcome H F
  dispatch_new create r rl m none = record { registry = r; relay = rl; effects = [] }
  dispatch_new create r rl m (some f) =
      let h = create f in
      record {
        registry = record r {
          streams = insert m.stream_id (record { handler = h; dst = none }) r.streams;
        };
        relay = rl;
        effects = deliver h m.payload ∷ [];
      }

  local_dispatch : (F → H) → Registry H F → Option Relay → StreamMessage → Outcome H F
  unfolding dispatch_new
  local_dispatch create r rl m =
      dispatch_new create r rl m (r.responder_factories (tag m.stream_id))

  relay_dispatch : (F → H) → Registry H F → StreamMessage → Routed → Outcome H F
  unfolding local_dispatch
  relay_dispatch create r m done =
      if done.handled
      then record { registry = r; relay = some done.relay; effects = map sent done.sends }
      else local_dispatch create r (some done.relay) m

  -- `relay.and_then(|r| r.upgrade())`.
  abbrev attached : Registry H F → Option Relay → Option Relay
  attached r rl = if r.has_relay then rl else none

  attached_dispatch :
      (F → H) → Heap → Registry H F → Option Relay → StreamMessage → Option Relay → Outcome H F
  unfolding relay_dispatch
  attached_dispatch create heap r rl m none = local_dispatch create r rl m
  attached_dispatch create heap r rl m (some l) = relay_dispatch create r m (route heap l m r.tx)

  allowed_dispatch : (F → H) → Heap → Registry H F → Option Relay → StreamMessage → Outcome H F
  unfolding attached_dispatch
  allowed_dispatch create heap r rl m = attached_dispatch create heap r rl m (attached r rl)

  dispatch_known :
      (F → H) → Heap → Registry H F → Option Relay → StreamMessage → Option (Entry H) → Outcome H F
  unfolding allowed_dispatch
  dispatch_known create heap r rl m (some e) = record {
    registry = r;
    relay = rl;
    effects = deliver e.handler m.payload ∷ [];
  }
  dispatch_known create heap r rl m none =
      if not (allows r.gate (tag m.stream_id))
      then record { registry = r; relay = rl; effects = [] }
      else allowed_dispatch create heap r rl m

  unfoldable pub dispatch :
      (F → H) → Heap → Registry H F → Option Relay → StreamMessage → Outcome H F
  unfolding dispatch_known
  dispatch create heap r rl m = dispatch_known create heap r rl m (r.streams m.stream_id)

  -- The registry and the shared relay after `close`.
  unfoldable pub close : ℕ → Registry H F → Option Relay → Registry H F × Option Relay
  unfolding forget_route
  close id r rl = (
    record r { streams = remove id r.streams; traffic = remove id r.traffic },
    forget_route id r.has_relay rl,
  )
