-- ===== src/Server/User/Connect/Guarded.antt =====
-- What guards the streams of an accepted client (`connect` of sandpolis-server/src/user/server.rs
-- over `dispatch` of sandpolis-instance/src/network/stream.rs).
use sandpolis.Prelude.{
  ℕ, ◌≡◌, ◌≢◌, ◌↔◌, refl, ap, ◌∙◌, inl, inr, true, false, not, ◌&&◌, Option, none, some, List, [],
  In, any-In, In-any, arith, Bool-cases,
}
use sandpolis.Prelude.Maps.{Assoc}
use sandpolis.Database.Resident.{Row}
use sandpolis.Instance.Permission.{
  Permission, same_string, same_string_refl, same_string-true, grants,
}
use sandpolis.Network.Message.{StreamMessage, tag}
use sandpolis.Network.Relay.{Relay, Heap}
use sandpolis.Network.Registry.{Registry, dispatch, set_gate, set_relay}
use sandpolis.Network.Registry.Gate.{dispatch_refused}
use sandpolis.Server.User.{or_empty, UserData, UserManager, Claims, users_configured}
use sandpolis.Server.User.Connect.{
  Headers, Accepted, upgraded, user_gate, declared, live_user_holds, holds, rows_of, token_claims,
  admit, with_claims, upgrade, connect, peer_is_client, peer_is_server, is_agent, accepted_registry,
  gated_registry, global_name,
}

-- A user of this name holds, now, a permission that covers the required one.
abbrev pub Holds : List ℕ → Permission → Option (Assoc (Row UserData)) → Type 0
Holds username required none = ⊥
Holds username required (some users) =
    (r : Row UserData) × In r (rows_of users)
    × (r.content.username ≡ username)
    × (g : Permission) × In g r.content.permissions
    × (grants g required ≡ true)

-- What a layer requires of streams of a type: nothing is declared, or nothing is required, or a
-- permission is.
abbrev pub Meets : List ℕ → Option (Assoc (Row UserData)) → Option (Option Permission) → Type 0
Meets username users none = ⊥
Meets username users (some none) = Unit
Meets username users (some (some required)) = Holds username required users

abbrev pub MayOpen : UserManager → ℕ → List ℕ → ℕ → Type 0
MayOpen m realm username type_tag = Meets username (m.users realm) (m.stream_permissions type_tag)

holds-Holds :
    (username : List ℕ) (required : Permission) (r : Row UserData)
    → holds username required r ≡ true
    → (r.content.username ≡ username)
      × (g : Permission) × In g r.content.permissions
      × (grants g required ≡ true)
unfolding holds
holds-Holds username required r h =
    let (g, i, t) =
      In-any (λ granted. grants granted required) r.content.permissions (ground arith) in
    (same_string-true r.content.username username (ground arith), g, i, t)

live-Holds :
    (username : List ℕ) (required : Permission) (users : Option (Assoc (Row UserData)))
    → (live_user_holds username required users ≡ true) ↔ Holds username required users
unfolding live_user_holds
live-Holds username required none = (λ h. cc h, λ h. absurd h)
live-Holds username required (some users) = (
  λ h.
      let (r, i, t) = In-any (holds username required) (rows_of users) h in
      let (n, g, j, c) = holds-Holds username required r t in (r, i, n, g, j, c),
  λ h.
      let (r, i, n, g, j, c) = h in
      any-In (holds username required) (rows_of users) {a = r} i (
        unfold holds in
        ground (
          arith,
          ap (λ s. same_string s username) n ∙ same_string_refl username,
          any-In (λ granted. grants granted required) r.content.permissions {a = g} j c,
        )),
)

declared-Meets :
    (username : List ℕ) (users : Option (Assoc (Row UserData))) (o : Option (Option Permission))
    → (declared username users o ≡ true) ↔ Meets username users o
unfolding declared
declared-Meets username users none = (λ h. cc h, λ h. absurd h)
declared-Meets username users (some none) = (λ h. tt, λ h. refl)
declared-Meets username users (some (some required)) = live-Holds username required users

-- The gate lets a stream pass exactly when its type requires nothing, or a user of this name holds
-- what it requires now.
pub user_gate-MayOpen :
    (m : UserManager) (realm : ℕ) (username : List ℕ) (type_tag : ℕ)
    → (user_gate m.stream_permissions username (m.users realm) type_tag ≡ true)
      ↔ MayOpen m realm username type_tag
unfolding user_gate
user_gate-MayOpen m realm username type_tag =
    declared-Meets username (m.users realm) (m.stream_permissions type_tag)

module _ (decode : List ℕ → List ℕ → Option Claims) (m : UserManager) (realm : ℕ)
    (h : Headers) where
  admit-upgraded :
      (gated : Option (List ℕ)) {a : Accepted}
      → admit decode m realm h gated ≡ upgraded a
      → (a ≡ upgrade decode m realm h gated)
        × (same_string (or_empty h.stratum) global_name ≡ false)
        × ((m.is_local && peer_is_server h) ≡ false)
  unfolding admit
  admit-upgraded gated {a} q = elim (Bool-cases (same_string (or_empty h.stratum) global_name)) [
    | inl g ↦ absurd (ground arith)
    | inr g ↦ elim (Bool-cases (m.is_local && peer_is_server h)) [
      | inl l ↦ absurd (ground arith)
      | inr l ↦ (ground arith, g, l)
    ]
  ]

  with_claims-upgraded :
      (o : Option Claims) {a : Accepted}
      → with_claims decode m realm h o ≡ upgraded a
      → (c : Claims) × (o ≡ some c) × (admit decode m realm h (some c.sub) ≡ upgraded a)
  unfolding with_claims
  with_claims-upgraded none q = cc q
  with_claims-upgraded (some c) q = (c, refl, q)

  -- A client of a realm with users is accepted with the name of a token that the realm's key decodes,
  -- and neither advertises, nor claims, nor is pulled from.
  pub client-gated :
      {a : Accepted}
      → connect decode m realm h ≡ upgraded a
      → peer_is_client h ≡ true
      → users_configured m realm ≡ true
      → (c : Claims) × (token_claims decode m realm h ≡ some c)
        × (a.gated ≡ some c.sub)
        × (a.accepts_advertisements ≡ false)
        × (a.accepts_claims ≡ false)
        × (a.pulls ≡ none)
  unfolding connect
  client-gated {a} q p u =
      let (c, o, t) = with_claims-upgraded (token_claims decode m realm h) {a = a} (ground arith) in
      let (w, g, l) = admit-upgraded (some c.sub) {a = a} t in
      (
        c,
        o,
        unfold upgrade in ap (λ (b : Accepted). b.gated) w,
        unfold upgrade in ap (λ (b : Accepted). b.accepts_advertisements) w ∙ not_server,
        unfold upgrade in ap (λ (b : Accepted). b.accepts_claims) w ∙ not_server,
        unfold upgrade in ap (λ (b : Accepted). b.pulls) w ∙ ground arith,
      )
    where
      not_server : peer_is_server h ≡ false
      not_server = ground arith

  module _ {H F : Type 0} (create : F → H) (heap : Heap) (r : Registry H F) (rl : Option Relay)
      (now : UserManager) where
    accepted-gate :
        (a : Accepted) {username : List ℕ}
        → a.gated ≡ some username
        → ((accepted_registry now realm a r).streams ≡ r.streams)
          × ((accepted_registry now realm a r).gate
              ≡ some (user_gate now.stream_permissions username (now.users realm)))
    unfolding accepted_registry gated_registry set_gate set_relay
    accepted-gate a g = rw g (refl, refl)

    -- Whatever users there are now, a message of an accepted client that would open a stream which
    -- the user of its token may not open is delivered to nobody, sent nowhere, and changes nothing.
    pub client-refused :
        (message : StreamMessage) {a : Accepted}
        → connect decode m realm h ≡ upgraded a
        → peer_is_client h ≡ true
        → users_configured m realm ≡ true
        → r.streams message.stream_id ≡ none
        → ((c : Claims)
            → token_claims decode m realm h ≡ some c
            → ¬ MayOpen now realm c.sub (tag message.stream_id))
        → dispatch create heap (accepted_registry now realm a r) rl message
          ≡ record { registry = accepted_registry now realm a r; relay = rl; effects = [] }
    client-refused message {a} q p u s refused =
        let (c, o, g, d, v, w) = client-gated {a = a} q p u in
        let (streams, gate) = accepted-gate a {username = c.sub} g in
        dispatch_refused create heap (accepted_registry now realm a r) rl message
          {g = user_gate now.stream_permissions c.sub (now.users realm)}
          (ap (λ f. f message.stream_id) streams ∙ s) gate (closed c o)
      where
        closed :
            (c : Claims)
            → token_claims decode m realm h ≡ some c
            → user_gate now.stream_permissions c.sub (now.users realm) (tag message.stream_id)
              ≡ false
        closed c o =
            elim (Bool-cases
              (user_gate now.stream_permissions c.sub (now.users realm) (tag message.stream_id))) [
                | inr f ↦ f
                | inl t ↦
                    absurd (
                      refused c o ((user_gate-MayOpen now realm c.sub (tag message.stream_id)).0 t))
              ]

  connect-admit :
      {a : Accepted}
      → connect decode m realm h ≡ upgraded a
      → (gated : Option (List ℕ)) × (admit decode m realm h gated ≡ upgraded a)
  unfolding connect
  connect-admit {a} q = elim (Bool-cases (peer_is_client h && users_configured m realm)) [
    | inr n ↦ (none, ground arith)
    | inl y ↦
        let (c, o, t) =
          with_claims-upgraded (token_claims decode m realm h) {a = a} (ground arith) in
        (some c.sub, t)
  ]

  -- A peer that is accepted does not call itself the global server, may claim and advertise exactly
  -- when it says that it is a server, and is pulled from only if it says that it is an agent. A local
  -- stratum server accepts advertisements and claims of nobody and pulls from nobody here.
  pub upgraded-shape :
      {a : Accepted}
      → connect decode m realm h ≡ upgraded a
      → (same_string (or_empty h.stratum) global_name ≡ false)
        × (a.accepts_advertisements ≡ peer_is_server h)
        × (a.accepts_claims ≡ peer_is_server h)
        × (m.is_local ≡ true
            → (a.accepts_advertisements ≡ false) × (a.accepts_claims ≡ false) × (a.pulls ≡ none))
        × (a.pulls ≢ none → (a.pulls ≡ h.instance_id) × (is_agent h.instance_id ≡ true))
  unfolding upgrade
  upgraded-shape {a} q =
      let (gated, t) = connect-admit {a = a} q in
      let (w, g, l) = admit-upgraded gated {a = a} t in
      let routes = ap (λ (b : Accepted). b.accepts_advertisements) w in
      let claims = ap (λ (b : Accepted). b.accepts_claims) w in
      let pulls = ap (λ (b : Accepted). b.pulls) w in
      (
        g,
        routes,
        claims,
        λ local. (routes ∙ only_up local l, claims ∙ only_up local l, pulls ∙ ground arith),
        λ some_pull. elim (Bool-cases (is_agent h.instance_id && not m.is_local)) [
          | inl y ↦ (ground arith, ground arith)
          | inr n ↦ absurd (some_pull (ground arith))
        ],
      )
    where
      only_up :
          m.is_local ≡ true → (m.is_local && peer_is_server h) ≡ false → peer_is_server h ≡ false
      only_up local l = ground arith
