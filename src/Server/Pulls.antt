-- ===== src/Server/Pulls.antt =====
-- The pull subscriptions of a local server toward its agents (`maintain_agent_sync` of
-- sandpolis-server/src/ownership.rs): one turn of its loop. A connection is an address; a heap says
-- of an address whether its connection still exists and whether it has been cancelled. The scope
-- table is as it stands at this turn. What `open_sync` returns, a stream or an error, is an argument,
-- and what is opened and closed is returned in order. A `HashMap` is a list with ascending keys,
-- since its order does not matter.
pub mod Parts
pub mod Turns
use sandpolis.Prelude.{
  ℕ, Bool, true, false, not, ◌&&◌, Option, none, some, List, [], ◌∷◌, ◌++◌, if◌then◌else◌,
}
use sandpolis.Prelude.Maps.{Assoc, get, store}
use sandpolis.Instance.Id.{is_type, server}
use sandpolis.Database.Scope.{ScopeTable, may_write, of_instance}
use sandpolis.Database.Sync.{SyncFilter, filter_instance}

-- What stands at an address: nothing any more, or a connection with its peer and its token.
pub record Connection : Type 0 where
  pub remote_instance : ℕ
  pub cancelled : Bool

abbrev pub Heap : Type 0
Heap = ℕ → Option Connection

pub record OpenPull : Type 0 where
  pub connection : ℕ
  pub id : ℕ

-- `close_sync` on a connection, and `open_sync` with its filters.
pub data Action : Type 0 where
  closed : (connection id : ℕ) → Action
  opened : ℕ → List SyncFilter → Action

-- A connection that is upgraded and has not been cancelled.
abbrev pub is_live : Option Connection → Bool
is_live none = false
is_live (some c) = not c.cancelled

abbrev pub exists_at : Option Connection → Bool
exists_at none = false
exists_at (some c) = true

abbrev pub is_some : {A : Type 0} → Option A → Bool
is_some none = false
is_some (some a) = true

abbrev add_inbound : ℕ → Option Connection → Assoc ℕ → Assoc ℕ
add_inbound a none m = m
add_inbound a (some c) m =
    if not c.cancelled && not (is_type c.remote_instance server)
    then store c.remote_instance a m
    else m

module _ (heap : Heap) where
  -- The live inbound connections by instance, of the addresses in `inbound`; the last one stands.
  unfoldable pub connections : List ℕ → Assoc ℕ → Assoc ℕ
  unfolding store is_type
  connections [] m = m
  connections (a ∷ inbound) m = connections inbound (add_inbound a (heap a) m)

  unfoldable pub close_stale : List OpenPull → List Action
  close_stale [] = []
  close_stale (pull ∷ stale) =
      let rest = close_stale stale in
      if exists_at (heap pull.connection) then closed pull.connection pull.id ∷ rest else rest

module _ (heap : Heap) (table : ScopeTable) where
  unfoldable pub keep : Assoc ℕ → ℕ → OpenPull → Bool
  unfolding get may_write
  keep conns id pull =
      is_some (get id conns) && may_write table (of_instance id) && is_live (heap pull.connection)

  -- `open.retain`: the pulls kept and the stale ones.
  unfoldable pub kept_pulls : Assoc ℕ → Assoc OpenPull → Assoc OpenPull
  unfolding keep
  kept_pulls conns [] = []
  kept_pulls conns ((id, pull) ∷ m) =
      let rest = kept_pulls conns m in if keep conns id pull then (id, pull) ∷ rest else rest

  unfoldable pub stale_pulls : Assoc ℕ → Assoc OpenPull → List OpenPull
  unfolding keep
  stale_pulls conns [] = []
  stale_pulls conns ((id, pull) ∷ m) =
      let rest = stale_pulls conns m in if keep conns id pull then rest else pull ∷ rest

module _ (table : ScopeTable) (open_sync : ℕ → ℕ → Option ℕ) where
  add_pull : ℕ → ℕ → Option ℕ → Assoc OpenPull → Assoc OpenPull
  unfolding store
  add_pull id a none m = m
  add_pull id a (some stream) m = store id (record { connection = a; id = stream }) m

  -- The last loop, over the connections.
  unfoldable pub open_pulls : Assoc ℕ → Assoc OpenPull → Assoc OpenPull × List Action
  unfolding get may_write add_pull
  open_pulls [] m = (m, [])
  open_pulls ((id, a) ∷ conns) m =
      let skipped = open_pulls conns m in
      let (m', actions) = open_pulls conns (add_pull id a (open_sync a id) m) in
      if may_write table (of_instance id) && not (is_some (get id m))
      then (m', opened a (filter_instance id ∷ []) ∷ actions)
      else skipped

module _ (heap : Heap) (table : ScopeTable) (open_sync : ℕ → ℕ → Option ℕ) where
  unfoldable pub turn : List ℕ → Assoc OpenPull → Assoc OpenPull × List Action
  unfolding connections kept_pulls stale_pulls close_stale open_pulls
  turn inbound m =
      let conns = connections heap inbound [] in
      let (m', actions) = open_pulls table open_sync conns (kept_pulls heap table conns m) in
      (m', close_stale heap (stale_pulls heap table conns m) ++ actions)
