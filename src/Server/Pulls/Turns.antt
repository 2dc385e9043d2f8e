-- ===== src/Server/Pulls/Turns.antt =====
-- What one turn leaves open, and that the next one finds nothing to do.
use sandpolis.Prelude.{
  ℕ, ◌≡◌, ◌≢◌, refl, sym, ap, ◌∙◌, ◌⊎◌, inl, inr, true, false, Option, none, some, List, [], arith,
  Bool-cases, Option-cases,
}
use sandpolis.Prelude.Maps.{Assoc, get, Ascending, keep_if}
use sandpolis.Instance.Id.{is_type, server}
use sandpolis.Database.Scope.{ScopeTable, may_write, of_instance}
use sandpolis.Server.Pulls.{
  Heap, OpenPull, is_live, connections, keep, kept_pulls, close_stale, turn,
}
use sandpolis.Server.Pulls.Parts.{
  ConnectsTo, connections-Ascending, connections-live, kept-Ascending, get-kept, opened_pull,
  get-open_pulls, open_pulls-Ascending, open_pulls-settled, kept-settled,
}

module _ (heap : Heap) (table : ScopeTable) (open_sync : ℕ → ℕ → Option ℕ) (inbound : List ℕ) where
  abbrev pub conns : Assoc ℕ
  conns = connections heap inbound []

  -- The pull of an instance belongs there: the instance is attached and no server, its scope is
  -- writable, and the pull's connection is live.
  abbrev pub Belongs : ℕ → OpenPull → Type 0
  Belongs id p =
      (get id conns ≢ none)
      × (may_write table (of_instance id) ≡ true)
      × (is_live (heap p.connection) ≡ true)
      × (is_type id server ≡ false)

  get-turn :
      (m : Assoc OpenPull) (id : ℕ)
      → Ascending m
      → get id (turn heap table open_sync inbound m).0
        ≡ opened_pull table open_sync id
            (get id conns)
            (keep_if (keep heap table conns id) (get id m))
  unfolding turn
  get-turn m id w =
      get-open_pulls table open_sync conns (kept_pulls heap table conns m) id
        (connections-Ascending heap inbound [] tt) (kept-Ascending heap table conns m w)
      ∙ ap (opened_pull table open_sync id (get id conns)) (get-kept heap table conns id m w)

  attached_peer :
      (id a : ℕ)
      → get id conns ≡ some a
      → (is_live (heap a) ≡ true) × (is_type id server ≡ false) × ConnectsTo heap id a
  unfolding get
  attached_peer id a e = connections-live heap inbound [] (λ j b x. absurd (cc x)) id a e

  keep-Belongs : (id : ℕ) (p : OpenPull) → Belongs id p → keep heap table conns id p ≡ true
  unfolding keep
  keep-Belongs id p (n, t, l, s) = elim (Option-cases (get id conns)) [
    | inl e ↦ absurd (n e)
    | inr (a, e) ↦ ground (arith, e, t, l)
  ]

  still :
      (id : ℕ) (p : OpenPull)
      → Belongs id p
      → opened_pull table open_sync id (get id conns) (keep_if (keep heap table conns id) (some p))
        ≡ some p
  unfolding opened_pull
  still id p b = ground (arith, keep-Belongs id p b)

  pull-Belongs :
      (id : ℕ) (p : OpenPull) (conn : Option ℕ) (o : Option OpenPull)
      → get id conns ≡ conn
      → opened_pull table open_sync id conn (keep_if (keep heap table conns id) o) ≡ some p
      → Belongs id p
  unfolding opened_pull keep
  pull-Belongs id p none none e h = absurd (ground (arith, h))
  pull-Belongs id p none (some q) e h = absurd (ground (arith, h, e))
  pull-Belongs id p (some a) none e h =
      let (live, peer, tie) = attached_peer id a e in
      elim (Option-cases (open_sync a id)) [
        | inl n ↦ absurd (ground (arith, h, n))
        | inr (x, y) ↦ (λ n. cc (n, e), ground (arith, h), ground (arith, h, y, live), peer)
      ]
  pull-Belongs id p (some a) (some q) e h =
      let (live, peer, tie) = attached_peer id a e in
      elim (Option-cases (open_sync a id)) [
        | inl n ↦ (λ x. cc (x, e), ground (arith, h, n), ground (arith, h, n), peer)
        | inr (x, y) ↦ (λ n. cc (n, e), ground (arith, h, y, e), ground (arith, h, y, live), peer)
      ]

  -- A pull is one from before, or on the connection of its instance.
  pull-from :
      (id : ℕ) (p : OpenPull) (conn : Option ℕ) (o : Option OpenPull)
      → opened_pull table open_sync id conn (keep_if (keep heap table conns id) o) ≡ some p
      → (o ≡ some p) ⊎ (conn ≡ some p.connection)
  unfolding opened_pull
  pull-from id p none none h = absurd (ground (arith, h))
  pull-from id p none (some q) h = inl (ground (arith, h))
  pull-from id p (some a) none h = elim (Option-cases (open_sync a id)) [
    | inl n ↦ absurd (ground (arith, h, n))
    | inr (x, y) ↦ inr (ground (arith, h, y))
  ]
  pull-from id p (some a) (some q) h = elim (Bool-cases (keep heap table conns id q)) [
    | inl k ↦ inl (ground (arith, h, k))
    | inr k ↦ elim (Option-cases (open_sync a id)) [
      | inl n ↦ absurd (ground (arith, h, k, n))
      | inr (x, y) ↦ inr (ground (arith, h, k, y))
    ]
  ]

  complete :
      (id a : ℕ) (o : Option OpenPull)
      → may_write table (of_instance id) ≡ true
      → open_sync a id ≢ none
      → opened_pull table open_sync id (some a) o ≢ none
  unfolding opened_pull
  complete id a none t n e = elim (Option-cases (open_sync a id)) [
    | inl y ↦ n y
    | inr (x, y) ↦ ground (arith, e, t, y)
  ]
  complete id a (some p) t n e = cc e

  turn-Ascending :
      (m : Assoc OpenPull) → Ascending m → Ascending (turn heap table open_sync inbound m).0
  unfolding turn
  turn-Ascending m w =
      open_pulls-Ascending table open_sync conns (kept_pulls heap table conns m)
        (kept-Ascending heap table conns m w)

  turn-settled :
      (m : Assoc OpenPull)
      → Ascending m
      → ((id : ℕ) (p : OpenPull) → get id m ≡ some p → Belongs id p)
      → ((id a : ℕ)
          → get id conns ≡ some a
          → may_write table (of_instance id) ≡ true
          → get id m ≢ none)
      → turn heap table open_sync inbound m ≡ (m, [])
  unfolding turn close_stale
  turn-settled m w belongs opens =
      let (x, y) =
        kept-settled heap table conns m w (λ id p e. keep-Belongs id p (belongs id p e)) in
      let z =
        open_pulls-settled table open_sync conns m (connections-Ascending heap inbound [] tt)
          opens in
      rw (x, y, z) refl

  -- After a turn an instance has a pull only if it is attached and no server, its scope is writable
  -- here and the pull's connection is live; it has one if it is attached, its scope is writable and
  -- opening one succeeds; and a pull whose instance is attached and writable and whose connection
  -- is live stays as it is, also when a newer connection of the instance is the one in the map. If
  -- every pull was on a connection of its instance, every pull is. A second turn in the same situation,
  -- when no opening fails, neither closes nor opens anything.
  pub turn_pulls :
      (m : Assoc OpenPull)
      → Ascending m
      → let m' = (turn heap table open_sync inbound m).0 in
        ((id : ℕ) (p : OpenPull) → get id m' ≡ some p → Belongs id p)
        × ((id a : ℕ)
            → get id conns ≡ some a
            → may_write table (of_instance id) ≡ true
            → open_sync a id ≢ none
            → get id m' ≢ none)
        × ((id : ℕ) (p : OpenPull) → get id m ≡ some p → Belongs id p → get id m' ≡ some p)
        × (((id : ℕ) (p : OpenPull) → get id m ≡ some p → ConnectsTo heap id p.connection)
            → (id : ℕ) (p : OpenPull) → get id m' ≡ some p
            → ConnectsTo heap id p.connection)
        × (((id a : ℕ) → open_sync a id ≢ none) → turn heap table open_sync inbound m' ≡ (m', []))
  turn_pulls m w = (
    belongs,
    opens,
    stays,
    tied,
    λ h.
        turn-settled (turn heap table open_sync inbound m).0 (turn-Ascending m w) belongs
          (λ id a e t. opens id a e t (h id a)),
  )
    where
      belongs :
          (id : ℕ) (p : OpenPull)
          → get id (turn heap table open_sync inbound m).0 ≡ some p
          → Belongs id p
      belongs id p e = pull-Belongs id p (get id conns) (get id m) refl (sym (get-turn m id w) ∙ e)

      opens :
          (id a : ℕ)
          → get id conns ≡ some a
          → may_write table (of_instance id) ≡ true
          → open_sync a id ≢ none
          → get id (turn heap table open_sync inbound m).0 ≢ none
      opens id a e t n x = complete id a (keep_if (keep heap table conns id) (get id m)) t n (
          ap (λ c. opened_pull table open_sync id c (keep_if (keep heap table conns id) (get id m)))
            (sym e)
          ∙ sym (get-turn m id w)
          ∙ x)

      stays :
          (id : ℕ) (p : OpenPull)
          → get id m ≡ some p
          → Belongs id p
          → get id (turn heap table open_sync inbound m).0 ≡ some p
      stays id p e b =
          get-turn m id w
          ∙ ap
              (λ o.
                opened_pull table open_sync id (get id conns)
                  (keep_if (keep heap table conns id) o))
              e
          ∙ still id p b

      tied :
          ((id : ℕ) (p : OpenPull) → get id m ≡ some p → ConnectsTo heap id p.connection)
          → (id : ℕ) (p : OpenPull) → get id (turn heap table open_sync inbound m).0 ≡ some p
          → ConnectsTo heap id p.connection
      tied before id p e =
          elim (pull-from id p (get id conns) (get id m) (sym (get-turn m id w) ∙ e)) [
            | inl old ↦ before id p old
            | inr new ↦ let (live, peer, tie) = attached_peer id p.connection new in tie
          ]
