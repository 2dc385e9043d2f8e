-- ===== src/Network/Relay/Choice.antt =====
-- Which connection `next_hop` picks.
use sandpolis.Prelude.{
  ℕ, ◌≡◌, refl, ◌≢◌, inl, inr, Bool, ◌&&◌, not, Option, none, some, In, find, find-some, find-none,
  arith, ◌==◌, Option-cases,
}
use sandpolis.Network.Relay.{Connection, Heap, Relay, is_origin, through, next_hop}

module _ (heap : Heap) (r : Relay) (target origin : ℕ) where
  -- A live socket of the target, other than the sender's.
  abbrev pub IsDirect : Connection → Type 0
  IsDirect c = In c r.connections × (c.remote_instance ≡ target) × (c.tx ≢ origin)

  -- A handle that leads to a connection other than the sender's.
  abbrev pub Leads : Option ℕ → Connection → Type 0
  Leads o c = (h : ℕ) × (o ≡ some h) × (heap h ≡ some c) × (c.tx ≢ origin)

  -- The routing policy: direct connections first, then the advertised peer, then the default route.
  pub data Chosen : Option Connection → Type 0 where
    direct : (c : Connection) → IsDirect c → Chosen (some c)
    advertised :
        (c : Connection)
        → ((d : Connection) → ¬ IsDirect d)
        → Leads (r.reachable target) c
        → Chosen (some c)
    default :
        (c : Connection)
        → ((d : Connection) → ¬ IsDirect d)
        → ((d : Connection) → ¬ Leads (r.reachable target) d)
        → Leads r.upstream c
        → Chosen (some c)
    unknown :
        ((d : Connection) → ¬ IsDirect d)
        → ((d : Connection) → ¬ Leads (r.reachable target) d)
        → ((d : Connection) → ¬ Leads r.upstream d)
        → Chosen none

  through-Leads : (o : Option ℕ) {c : Connection} → through heap origin o ≡ some c → Leads o c
  unfolding through
  through-Leads none e = cc
  through-Leads (some h) e = (h, refl, ground arith, ground arith)

  through-none : (o : Option ℕ) → through heap origin o ≡ none → (c : Connection) → ¬ Leads o c
  unfolding through
  through-none o e c (h, p, q, n) = ground arith

  is_direct : Connection → Bool
  is_direct c = c.remote_instance == target && not (is_origin c origin)

  find-IsDirect : {c : Connection} → find is_direct r.connections ≡ some c → IsDirect c
  unfolding is_direct is_origin
  find-IsDirect {c} e =
      let f = find-some is_direct r.connections e in (f.0, ground (arith, f.1), ground (arith, f.1))

  find-none-IsDirect : find is_direct r.connections ≡ none → (c : Connection) → ¬ IsDirect c
  unfolding is_direct is_origin
  find-none-IsDirect e c (i, t, o) = ground (arith, find-none is_direct r.connections {a = c} e i)

  -- The connection that a message is forwarded through is the one that the policy names.
  pub next_hop-Chosen : Chosen (next_hop heap r target origin)
  unfolding next_hop is_direct
  next_hop-Chosen = elim (Option-cases (find is_direct r.connections)) [
    | inr (c, e) ↦ rw e (direct c (find-IsDirect e))
    | inl e ↦ rw e (elim (Option-cases (through heap origin (r.reachable target))) [
      | inr (c, f) ↦ rw f (advertised c (find-none-IsDirect e) (through-Leads _ f))
      | inl f ↦ rw f (elim (Option-cases (through heap origin r.upstream)) [
        | inr (c, g) ↦
            rw g (default c (find-none-IsDirect e) (through-none _ f) (through-Leads _ g))
        | inl g ↦ rw g (unknown (find-none-IsDirect e) (through-none _ f) (through-none _ g))
      ])
    ])
  ]
