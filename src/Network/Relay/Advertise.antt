-- ===== src/Network/Relay/Advertise.antt =====
-- What the table of advertised routes holds after `advertise` and `withdraw`.
use sandpolis.Prelude.{
  ℕ, ◌≡◌, refl, ◌≢◌, ◌↔◌, inl, inr, true, Option, none, some, List, [], ◌∷◌, In, arith, ◌==◌,
  if◌then◌else◌, any, any-In, In-any, eqb_true, eqb_self, Bool-cases,
}
use sandpolis.Prelude.Maps.{Table, insert, retain, keep_if}
use sandpolis.Network.Relay.{Connection, Heap, Relay, not_through, insert_all, advertise, withdraw}

insert_all_lem :
    (h : ℕ) (is : List ℕ) (m : Table ℕ) (j : ℕ)
    → insert_all h is m j ≡ (if any (λ i. i == j) is then some h else m j)
unfolding insert_all any
insert_all_lem h [] m j = refl
insert_all_lem h (i ∷ is) m j = ground (arith, insert_all_lem h is (insert i h m) j)

-- An old entry that is kept: its handle leads to a live connection of another peer.
abbrev pub IsKept : Heap → ℕ → Option ℕ → ℕ → Type 0
IsKept heap via old h =
    (old ≡ some h) × ((c : Connection) × (heap h ≡ some c) × (c.remote_instance ≢ via))

kept-not_through :
    (heap : Heap) (via h : ℕ) (o : Option Connection)
    → heap h ≡ o
    → not_through heap via h ≡ true
    → (c : Connection) × (heap h ≡ some c) × (c.remote_instance ≢ via)
unfolding not_through
kept-not_through heap via h none e t = ground arith
kept-not_through heap via h (some c) e t = (c, e, ground arith)

keep_if-some :
    (heap : Heap) (via : ℕ) (old : Option ℕ) (h : ℕ)
    → keep_if (not_through heap via) old ≡ some h
    → (old ≡ some h) × (not_through heap via h ≡ true)
keep_if-some heap via none h e = cc
keep_if-some heap via (some g) h e = ground arith

retain-IsKept :
    (heap : Heap) (via : ℕ) (old : Option ℕ) (h : ℕ)
    → (keep_if (not_through heap via) old ≡ some h) ↔ IsKept heap via old h
retain-IsKept heap via old h = (to_kept, from_kept)
  where
    to_kept : keep_if (not_through heap via) old ≡ some h → IsKept heap via old h
    to_kept e =
        let (p, t) = keep_if-some heap via old h e in
        (p, kept-not_through heap via h (heap h) refl t)

    from_kept : IsKept heap via old h → keep_if (not_through heap via) old ≡ some h
    from_kept (p, (c, q, n)) = rw p (kept c q n)
      where
        kept :
            (c : Connection)
            → heap h ≡ some c
            → c.remote_instance ≢ via
            → keep_if (not_through heap via) (some h) ≡ some h
        kept c q n = unfold not_through in ground arith

In-any_id : (j : ℕ) (is : List ℕ) → any (λ i. i == j) is ≡ true → In j is
In-any_id j is e = let (a, i, t) = In-any (λ i. i == j) is e in let p = eqb_true a j t in rw p at i

-- After a peer advertises, exactly the instances of its latest list are routed through it: an
-- instance on the list is, whatever stood there before; any other keeps its entry when that leads
-- to a live connection of another peer, and loses it otherwise.
pub advertise_routes :
    (heap : Heap) (via : Connection) (instances : List ℕ) (r : Relay) (j : ℕ)
    → (In j instances → (advertise heap via instances r).reachable j ≡ some via.addr)
      × (¬ In j instances
          → (h : ℕ)
          → ((advertise heap via instances r).reachable j ≡ some h)
            ↔ IsKept heap via.remote_instance (r.reachable j) h)
unfolding advertise
advertise_routes heap via instances r j = (listed, other)
  where
    kept : Table ℕ
    kept = retain (not_through heap via.remote_instance) r.reachable

    listed : In j instances → insert_all via.addr instances kept j ≡ some via.addr
    listed i =
        rw (insert_all_lem via.addr instances kept j)
          (rw (any-In (λ i. i == j) instances i (eqb_self j)) refl)

    other :
        ¬ In j instances
        → (h : ℕ)
        → (insert_all via.addr instances kept j ≡ some h)
          ↔ IsKept heap via.remote_instance (r.reachable j) h
    other n h =
        rw (insert_all_lem via.addr instances kept j)
          (elim (Bool-cases (any (λ i. i == j) instances)) [
            | inl t ↦ absurd (n (In-any_id j instances t))
            | inr f ↦ rw f (retain-IsKept heap via.remote_instance (r.reachable j) h)
          ])

-- After `withdraw`, exactly the entries that lead to a live connection of another peer are left.
pub withdraw_routes :
    (heap : Heap) (via : ℕ) (r : Relay) (j h : ℕ)
    → ((withdraw heap via r).reachable j ≡ some h) ↔ IsKept heap via (r.reachable j) h
unfolding withdraw
withdraw_routes heap via r j h = retain-IsKept heap via (r.reachable j) h
