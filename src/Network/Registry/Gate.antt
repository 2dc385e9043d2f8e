-- ===== src/Network/Registry/Gate.antt =====
-- What an incoming message can do to a connection's registry.
use sandpolis.Prelude.{
  ℕ, ◌≡◌, ◌≢◌, inl, inr, Bool, true, false, Option, none, some, List, [], ◌∷◌, map, arith,
  Option-cases, Bool-cases,
}
use sandpolis.Network.Message.{StreamMessage, tag}
use sandpolis.Network.Relay.{Relay, Heap, Send, Routed, route}
use sandpolis.Network.Registry.{
  Registry, Outcome, Entry, deliver, sent, allows, dispatch, local_dispatch, relay_dispatch,
  attached_dispatch, attached,
}

module _ {H : Type 0} (h : H) (p : List ℕ) where
  sent-ne-deliver : (xs : List Send) → map sent xs ≢ deliver h p ∷ []
  sent-ne-deliver [] = λ e. cc
  sent-ne-deliver (x ∷ xs) = λ e. cc

addressed_handled :
    (heap : Heap) (l : Relay) (m : StreamMessage) (origin : ℕ) {target : ℕ}
    → m.dst ≡ some target
    → (route heap l m origin).handled ≡ true
unfolding route
addressed_handled heap l m origin d = ground arith

module _ {H F : Type 0} where
  known_deliver :
      (create : F → H) (heap : Heap) (r : Registry H F) (rl : Option Relay) (m : StreamMessage)
      {e : Entry H} {h : H}
      → r.streams m.stream_id ≡ some e
      → e.handler ≡ h
      → dispatch create heap r rl m
        ≡ record { registry = r; relay = rl; effects = deliver h m.payload ∷ [] }
  unfolding dispatch
  known_deliver create heap r rl m p q = ground arith

  addressed_kept :
      (create : F → H) (heap : Heap) (r : Registry H F) (rl : Option Relay) (m : StreamMessage)
      (l : Relay) {target : ℕ}
      → m.dst ≡ some target
      → (attached_dispatch create heap r rl m (some l)).registry ≡ r
  unfolding attached_dispatch
  addressed_kept create heap r rl m l d = ground (arith, addressed_handled heap l m r.tx d)

module _ {H F : Type 0} (create : F → H) (heap : Heap) (r : Registry H F) (rl : Option Relay) where
  -- A message whose stream the connection does not know and whose type the gate refuses changes
  -- neither the registry nor the relay, is delivered to no handler and is sent nowhere.
  pub dispatch_refused :
      (m : StreamMessage) {g : ℕ → Bool}
      → r.streams m.stream_id ≡ none
      → r.gate ≡ some g
      → g (tag m.stream_id) ≡ false
      → dispatch create heap r rl m ≡ record { registry = r; relay = rl; effects = [] }
  unfolding dispatch
  dispatch_refused m u g f = ground arith

  -- `m` went to the handler that the registry has for its stream now.
  abbrev Delivered : StreamMessage → Outcome H F → H → Type 0
  Delivered m o h = (e : Entry H) × (o.registry.streams m.stream_id ≡ some e) × (e.handler ≡ h)

  local-Delivered :
      (l : Option Relay) (m : StreamMessage) {h : H}
      → (local_dispatch create r l m).effects ≡ deliver h m.payload ∷ []
      → Delivered m (local_dispatch create r l m) h
  unfolding local_dispatch
  local-Delivered l m {h} d = elim (Option-cases (r.responder_factories (tag m.stream_id))) [
    | inl e ↦ ground arith
    | inr (f, e) ↦ (record { handler = create f; dst = none }, ground arith, ground arith)
  ]

  relay-Delivered :
      (m : StreamMessage) (done : Routed) {h : H}
      → (relay_dispatch create r m done).effects ≡ deliver h m.payload ∷ []
      → Delivered m (relay_dispatch create r m done) h
  unfolding relay_dispatch
  relay-Delivered m done {h} d = elim (Bool-cases done.handled) [
    | inl e ↦ absurd (sent-ne-deliver h m.payload done.sends (ground arith))
    | inr e ↦ rw e (local-Delivered (some done.relay) m {h = h} (rw e at d))
  ]

  attached-Delivered :
      (m : StreamMessage) (o : Option Relay) {h : H}
      → (attached_dispatch create heap r rl m o).effects ≡ deliver h m.payload ∷ []
      → Delivered m (attached_dispatch create heap r rl m o) h
  unfolding attached_dispatch
  attached-Delivered m none {h} d = local-Delivered rl m {h = h} d
  attached-Delivered m (some l) {h} d = relay-Delivered m (route heap l m r.tx) {h = h} d

  dispatch-Delivered :
      (m : StreamMessage) {h : H}
      → (dispatch create heap r rl m).effects ≡ deliver h m.payload ∷ []
      → Delivered m (dispatch create heap r rl m) h
  unfolding dispatch
  dispatch-Delivered m {h} d = elim (Option-cases (r.streams m.stream_id)) [
    | inr (e, p) ↦ (e, ground arith, ground arith)
    | inl p ↦ elim (Bool-cases (allows r.gate (tag m.stream_id))) [
      | inl a ↦ rw (p, a) (attached-Delivered m (attached r rl) {h = h} (rw (p, a) at d))
      | inr b ↦ ground arith
    ]
  ]

  -- Once a message of a stream has been delivered to a handler, every later message of the stream
  -- is delivered to that handler and has no other effect, whatever has become of the relay, of
  -- the connections and of the gate in between.
  pub dispatch_sticky :
      (m later : StreamMessage) (heap' : Heap) (rl' : Option Relay) (gate' : Option (ℕ → Bool))
      {h : H}
      → (dispatch create heap r rl m).effects ≡ deliver h m.payload ∷ []
      → later.stream_id ≡ m.stream_id
      → let r' = record (dispatch create heap r rl m).registry { gate = gate' } in
        dispatch create heap' r' rl' later
        ≡ record { registry = r'; relay = rl'; effects = deliver h later.payload ∷ [] }
  unfolding dispatch
  dispatch_sticky m later heap' rl' gate' {h} d s =
      let (e, p, q) = dispatch-Delivered m {h = h} d in
      known_deliver create heap' (record (dispatch create heap r rl m).registry { gate = gate' })
        rl' later {e = e} (rw s p) q

  -- A server that relays never handles an addressed message of a stream it does not know itself.
  pub dispatch_addressed :
      (m : StreamMessage) {target : ℕ}
      → r.streams m.stream_id ≡ none
      → m.dst ≡ some target
      → r.has_relay ≡ true
      → rl ≢ none
      → (dispatch create heap r rl m).registry ≡ r
  unfolding dispatch
  dispatch_addressed m u d a n = elim (Option-cases rl) [
    | inl e ↦ absurd (n e)
    | inr (l, e) ↦ ground (arith, addressed_kept create heap r rl m l d)
  ]
