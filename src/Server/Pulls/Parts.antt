-- ===== src/Server/Pulls/Parts.antt =====
-- What the loops of a turn leave, instance by instance.
use sandpolis.Prelude.{
  ℕ, ◌≡◌, ◌≢◌, refl, sym, inl, inr, true, false, not, ◌&&◌, Option, none, some, List, [], ◌∷◌,
  arith, ◌==◌, if◌then◌else◌, Bool-cases, Option-cases, eqb_self, eqb_true,
}
use sandpolis.Prelude.Maps.{
  Assoc, get, get-store, Above, Ascending, get-Above, store-Ascending, keep_if,
}
use sandpolis.Instance.Id.{is_type, server}
use sandpolis.Database.Scope.{ScopeTable, may_write, of_instance}
use sandpolis.Server.Pulls.{
  Heap, OpenPull, Connection, is_live, is_some, connections, add_inbound, keep, kept_pulls,
  stale_pulls, open_pulls, add_pull,
}

module _ (heap : Heap) where
  add_inbound-Ascending :
      (a : ℕ) (c : Option Connection) (m : Assoc ℕ) → Ascending m → Ascending (add_inbound a c m)
  add_inbound-Ascending a none m w = w
  add_inbound-Ascending a (some c) m w = ground (arith, store-Ascending c.remote_instance a m w)

  pub connections-Ascending :
      (inbound : List ℕ) (m : Assoc ℕ) → Ascending m → Ascending (connections heap inbound m)
  unfolding connections
  connections-Ascending [] m w = w
  connections-Ascending (a ∷ inbound) m w =
      connections-Ascending inbound (add_inbound a (heap a) m)
        (add_inbound-Ascending a (heap a) m w)

module _ (heap : Heap) (table : ScopeTable) (conns : Assoc ℕ) where
  kept-Above : (k : ℕ) (m : Assoc OpenPull) → Above k m → Above k (kept_pulls heap table conns m)
  unfolding kept_pulls
  kept-Above k [] w = tt
  kept-Above k ((j, p) ∷ m) (l, w) = ground (arith, kept-Above k m w)

  pub kept-Ascending :
      (m : Assoc OpenPull) → Ascending m → Ascending (kept_pulls heap table conns m)
  unfolding kept_pulls
  kept-Ascending [] w = tt
  kept-Ascending ((j, p) ∷ m) (b, w) = ground (arith, kept-Above j m b, kept-Ascending m w)

  get-Above-none : (k : ℕ) (m : Assoc OpenPull) → Above k m → get k m ≡ none
  get-Above-none k m b = elim (Option-cases (get k m)) [
    | inl n ↦ n
    | inr (v, e) ↦ absurd (omega (arith, get-Above k m k {v = v} b e))
  ]

  pub get-kept :
      (id : ℕ) (m : Assoc OpenPull)
      → Ascending m
      → get id (kept_pulls heap table conns m) ≡ keep_if (keep heap table conns id) (get id m)
  unfolding kept_pulls get
  get-kept id [] w = refl
  get-kept id ((j, p) ∷ m) (b, w) = elim (Bool-cases (j == id)) [
    | inl y ↦
        let e = eqb_true j id y in
        ground (
          arith,
          e,
          get-Above-none j (kept_pulls heap table conns m) (kept-Above j m b),
          eqb_self j,
          eqb_self id,
        )
    | inr f ↦ ground (arith, f, get-kept id m w)
  ]

module _ (table : ScopeTable) (open_sync : ℕ → ℕ → Option ℕ) where
  abbrev pub as_pull : ℕ → Option ℕ → Option OpenPull
  as_pull a none = none
  as_pull a (some stream) = some (record { connection = a; id = stream })

  -- The pull of one instance after the loop over the connections.
  unfoldable pub opened_pull : ℕ → Option ℕ → Option OpenPull → Option OpenPull
  opened_pull id conn (some pull) = some pull
  opened_pull id none none = none
  opened_pull id (some a) none =
      if may_write table (of_instance id) then as_pull a (open_sync a id) else none

  opened-none : (j : ℕ) (o : Option OpenPull) → opened_pull j none o ≡ o
  unfolding opened_pull
  opened-none j none = refl
  opened-none j (some p) = refl

  add_pull-Ascending :
      (id a : ℕ) (o : Option ℕ) (m : Assoc OpenPull)
      → Ascending m
      → Ascending (add_pull table open_sync id a o m)
  unfolding add_pull
  add_pull-Ascending id a none m w = w
  add_pull-Ascending id a (some stream) m w =
      store-Ascending id (record { connection = a; id = stream }) m w

  get-add_pull :
      (id j a : ℕ) (o : Option ℕ) (m : Assoc OpenPull)
      → get id m ≡ none
      → get j (add_pull table open_sync id a o m) ≡ (if id == j then as_pull a o else get j m)
  unfolding add_pull
  get-add_pull id j a none m n = ground (arith, n, eqb_true id j)
  get-add_pull id j a (some stream) m n = get-store id j (record { connection = a; id = stream }) m

  open_step :
      (id a j : ℕ) (conns : Assoc ℕ) (m : Assoc OpenPull)
      → Above id conns
      → Ascending m
      → ((m' : Assoc OpenPull)
          → Ascending m'
          → get j (open_pulls table open_sync conns m').0 ≡ opened_pull j (get j conns) (get j m'))
      → get j (open_pulls table open_sync ((id, a) ∷ conns) m).0
        ≡ opened_pull j (get j ((id, a) ∷ conns)) (get j m)
  unfolding open_pulls get opened_pull may_write
  open_step id a j conns m b w rest =
      let absent : get id conns ≡ none = elim (Option-cases (get id conns)) [
        | inl n ↦ n
        | inr (v, e) ↦ absurd (omega (arith, get-Above id conns id {v = v} b e))
      ] in
      let grown = add_pull table open_sync id a (open_sync a id) m in
      elim (Bool-cases (may_write table (of_instance id) && not (is_some (get id m)))) [
        | inl t ↦
            let free : get id m ≡ none = ground (arith, t) in
            let at = get-add_pull id j a (open_sync a id) m free in
            let later = rest grown (add_pull-Ascending id a (open_sync a id) m w) in
            elim (Bool-cases (id == j)) [
              | inl y ↦ ground (arith, t, y, at, later, absent, free, eqb_true id j y)
              | inr n ↦ ground (arith, t, n, at, later)
            ]
        | inr f ↦ elim (Bool-cases (id == j)) [
          | inl y ↦ ground (arith, f, y, rest m w, absent, eqb_true id j y)
          | inr n ↦ ground (arith, f, n, rest m w)
        ]
      ]

  pub get-open_pulls :
      (conns : Assoc ℕ) (m : Assoc OpenPull) (j : ℕ)
      → Ascending conns
      → Ascending m
      → get j (open_pulls table open_sync conns m).0 ≡ opened_pull j (get j conns) (get j m)
  unfolding open_pulls get opened_pull
  get-open_pulls [] m j v w = sym (opened-none j (get j m))
  get-open_pulls ((id, a) ∷ conns) m j (b, v) w =
      open_step id a j conns m b w (λ m' w'. get-open_pulls conns m' j v w')

  pub open_pulls-Ascending :
      (conns : Assoc ℕ) (m : Assoc OpenPull)
      → Ascending m
      → Ascending (open_pulls table open_sync conns m).0
  unfolding open_pulls
  open_pulls-Ascending [] m w = w
  open_pulls-Ascending ((id, a) ∷ conns) m w =
      let grown = add_pull table open_sync id a (open_sync a id) m in
      ground (
        arith,
        open_pulls-Ascending conns m w,
        open_pulls-Ascending conns grown (add_pull-Ascending id a (open_sync a id) m w),
      )

  -- Nothing is opened where every connection whose scope is writable has a pull.
  pub open_pulls-settled :
      (conns : Assoc ℕ) (m : Assoc OpenPull)
      → Ascending conns
      → ((id a : ℕ)
          → get id conns ≡ some a
          → may_write table (of_instance id) ≡ true
          → get id m ≢ none)
      → open_pulls table open_sync conns m ≡ (m, [])
  unfolding open_pulls get
  open_pulls-settled [] m v h = refl
  open_pulls-settled ((id, a) ∷ conns) m (b, v) h =
      let rest =
        open_pulls-settled conns m v
          (λ j c e t. h j c (ground (arith, e, get-Above id conns j {v = c} b e)) t) in
      elim (Bool-cases (may_write table (of_instance id) && not (is_some (get id m)))) [
        | inl t ↦
            absurd (h id a (ground (arith, eqb_self id)) (ground (arith, t)) (ground (arith, t)))
        | inr f ↦ ground (arith, f, rest)
      ]

module _ (heap : Heap) (table : ScopeTable) (conns : Assoc ℕ) where
  pub kept-settled :
      (m : Assoc OpenPull)
      → Ascending m
      → ((id : ℕ) (p : OpenPull) → get id m ≡ some p → keep heap table conns id p ≡ true)
      → (kept_pulls heap table conns m ≡ m) × (stale_pulls heap table conns m ≡ [])
  unfolding kept_pulls stale_pulls get
  kept-settled [] w h = (refl, refl)
  kept-settled ((id, p) ∷ m) (b, w) h =
      let (x, y) =
        kept-settled m w (λ j q e. h j q (ground (arith, e, get-Above id m j {v = q} b e))) in
      let t = h id p (ground (arith, eqb_self id)) in (ground (arith, t, x), ground (arith, t, y))

module _ (heap : Heap) where
  -- Whatever connection stands at an address is one of the peer.
  abbrev pub ConnectsTo : ℕ → ℕ → Type 0
  ConnectsTo id a = (c : Connection) → heap a ≡ some c → c.remote_instance ≡ id

  -- What the map of the connections leads to: live connections of that peer, which is no server.
  abbrev pub LeadsToPeers : Assoc ℕ → Type 0
  LeadsToPeers m =
      (id a : ℕ)
      → get id m ≡ some a
      → (is_live (heap a) ≡ true) × (is_type id server ≡ false) × ConnectsTo id a

  add_inbound-live :
      (a : ℕ) (c : Option Connection) (m : Assoc ℕ)
      → heap a ≡ c
      → LeadsToPeers m
      → LeadsToPeers (add_inbound a c m)
  add_inbound-live a none m e w = λ id b h. w id b h
  add_inbound-live a (some c) m e w = λ id b h.
      elim (Bool-cases (not c.cancelled && not (is_type c.remote_instance server))) [
        | inr n ↦ w id b (ground (arith, h, n))
        | inl y ↦
            let at = get-store c.remote_instance id a m in
            elim (Bool-cases (c.remote_instance == id)) [
              | inr n ↦ w id b (ground (arith, h, y, n, at))
              | inl s ↦
                  let same = eqb_true c.remote_instance id s in
                  let here : a ≡ b = ground (arith, h, y, s, at) in
                  (
                    ground (arith, e, y, here),
                    ground (arith, y, same),
                    λ d q. ground (arith, e, q, here, same),
                  )
            ]
      ]

  pub connections-live :
      (inbound : List ℕ) (m : Assoc ℕ) → LeadsToPeers m → LeadsToPeers (connections heap inbound m)
  unfolding connections
  connections-live [] m w = w
  connections-live (a ∷ inbound) m w =
      connections-live inbound (add_inbound a (heap a) m) (add_inbound-live a (heap a) m refl w)
