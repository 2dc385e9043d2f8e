-- ===== src/Examples/Network.antt =====
-- The network layer's theorems at concrete inputs: a server with two agents (5 and 6) and an
-- upstream server (9).
use sandpolis.Prelude.{
  ℕ, ◌-◌, ◌≤◌, ◌≡◌, ◌≢◌, refl, inl, ◌↔◌, true, false, none, some, List, [], ◌∷◌, find, arith,
  if◌then◌else◌, ◌==◌,
}
use sandpolis.Network.Message.{StreamMessage, max_hops, tag, local}
use sandpolis.Network.Relay.{Connection, Heap, Relay, next_hop, route}
use sandpolis.Network.Relay.Choice.{Chosen, next_hop-Chosen}
use sandpolis.Network.Relay.Hops.{Hop, hop, here, next, Trail-bounded}
use sandpolis.Network.Relay.Responses.{route_and_back}
use sandpolis.Network.Registry.{Registry, deliver, dispatch, traffic}
use sandpolis.Network.Registry.Traffic.{received, sent, account_all, traffic_total}
use sandpolis.Network.Liveness.{LivenessData, reachable, contains}
use sandpolis.Network.Liveness.Closure.{IsReachable, reachable_iff}

abbrev agent_five : Connection
agent_five = record { addr = 1; remote_instance = 5; tx = 11 }

abbrev agent_six : Connection
agent_six = record { addr = 2; remote_instance = 6; tx = 12 }

abbrev upstream_nine : Connection
upstream_nine = record { addr = 3; remote_instance = 9; tx = 13 }

abbrev live : Heap
live h =
    if h == 1
    then some agent_five
    else if h == 2
    then some agent_six
    else if h == 3
    then some upstream_nine
    else none

abbrev two_agents : Relay
two_agents = record {
  connections = agent_five ∷ agent_six ∷ [];
  routes = λ s. none;
  reachable = λ i. if i == 7 then some 2 else none;
  upstream = some 3;
}

abbrev to_six : StreamMessage
to_six = record { stream_id = 100; payload = 1 ∷ 2 ∷ []; dst = some 6; hops = 0 }

abbrev relayed : StreamMessage
relayed = record { stream_id = 100; payload = 1 ∷ 2 ∷ []; dst = some 6; hops = 1 }

abbrev answer : StreamMessage
answer = record { stream_id = 100; payload = 3 ∷ []; dst = none; hops = 0 }

next_hop-Chosen_example : Chosen live two_agents 6 11 (next_hop live two_agents 6 11)
next_hop-Chosen_example = next_hop-Chosen live two_agents 6 11

one-Hop : Hop to_six relayed
unfolding route next_hop find
one-Hop = hop live two_agents 11 (record { chan = 12; message = relayed }) (inl refl) refl (6, refl)

Trail-bounded_example :
    (1 ≤ max_hops - 0)
    × (relayed.dst ≡ to_six.dst)
    × (relayed.stream_id ≡ to_six.stream_id)
    × (relayed.payload ≡ to_six.payload)
Trail-bounded_example = Trail-bounded (next here one-Hop)

abbrev behind_five : List ℕ
behind_five = 8 ∷ []

to_six_next : next_hop live two_agents 6 11 ≡ some agent_six
unfolding next_hop find
to_six_next = refl

route_and_back_example :
    let first = route live two_agents to_six 11 in
    (first.handled ≡ true)
    × (first.sends ≡ record { chan = 12; message = relayed } ∷ [])
    × (route live first.relay answer 12 ≡ record {
      handled = true;
      relay = first.relay;
      sends = record { chan = 11; message = local 100 (3 ∷ []) } ∷ [];
    })
    × ((s : ℕ) → s ≢ 100 → first.relay.routes s ≡ none)
route_and_back_example =
    route_and_back live live two_agents to_six answer 11 12 refl (omega arith) to_six_next refl refl

-- A registry with a responder of type 0, a stream 100 and a gate that allows nothing.
abbrev gated : Registry ℕ ℕ
gated = record {
  streams = λ s. if s == 100 then some (record { handler = 42; dst = none }) else none;
  responder_factories = λ t. if t == 0 then some 7 else none;
  tx = 11;
  has_relay = true;
  traffic = λ s. none;
  gate = some (λ t. false);
}

abbrev opened : Registry ℕ ℕ
opened = record gated { gate = none }

abbrev fresh_message : StreamMessage
fresh_message = record { stream_id = 200; payload = 9 ∷ []; dst = none; hops = 0 }

abbrev create : ℕ → ℕ
create f = f

responded : (dispatch create live opened none fresh_message).effects ≡ deliver 7 (9 ∷ []) ∷ []
unfolding dispatch tag
responded = refl

traffic_total_example :
    traffic 100 (account_all (received 100 5 ∷ sent 100 3 ∷ received 100 2 ∷ []) opened)
    ≡ some (7, 3)
traffic_total_example =
    traffic_total 100 (received 100 5 ∷ sent 100 3 ∷ received 100 2 ∷ []) opened refl

-- The upstream server 9 vouches for server 8, which vouches for agent 6; the row on 5 is of an
-- observer that nobody vouches for.
abbrev opinion : ℕ → ℕ → LivenessData
opinion observer subject = record {
  instance_id = observer;
  subject = subject;
  online = true;
  last_seen = 0;
  poll_schedule = none;
  expected_next = none;
}

abbrev opinions : List LivenessData
opinions = opinion 8 6 ∷ opinion 9 8 ∷ opinion 4 5 ∷ []

reachable_iff_example :
    (out : List ℕ) × (reachable opinions (9 ∷ []) ≡ some out)
    × ((i : ℕ) → (contains i out ≡ true) ↔ IsReachable opinions (9 ∷ []) i)
reachable_iff_example = reachable_iff opinions (9 ∷ [])
