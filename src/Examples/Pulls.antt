-- ===== src/Examples/Pulls.antt =====
-- The reconcilers of a server's claims and pulls at concrete inputs: agent 17 is connected at address
-- 1, agent 33 was connected at address 2.
use sandpolis.Prelude.{
  ℕ, ◌+◌, ◌≡◌, ◌≢◌, refl, Bool, true, false, Option, none, some, List, [], ◌∷◌, In, ok, arith, ◌==◌,
  if◌then◌else◌,
}
use sandpolis.Prelude.Maps.{Assoc, get, put, store}
use sandpolis.Instance.Id.{is_type, server}
use sandpolis.Database.Scope.{ScopeTable, no_scopes, set_owned, may_write, of_instance, full}
use sandpolis.Database.Resident.{Write}
use sandpolis.Database.Sync.{filter_instance}
use sandpolis.Server.Ownership.{OwnershipData, grant_env, claim}
use sandpolis.Server.Ownership.Grants.{lookup, IsValid}
use sandpolis.Server.Ownership.Local.{
  LocalClaims, Turn, attached_instances, local_turns, local_turns-claim,
}
use sandpolis.Server.Pulls.{Heap, Connection, OpenPull, closed, opened, turn}
use sandpolis.Server.Pulls.Parts.{ConnectsTo}
use sandpolis.Server.Pulls.Turns.{conns, Belongs, turn_pulls}

abbrev peer : ℕ → Bool → Option Connection
peer i cancelled = some (record { remote_instance = i; cancelled = cancelled })

abbrev heap : Heap
heap a = if a == 1 then peer 17 false else if a == 2 then peer 33 true else none

abbrev table : ScopeTable
table = set_owned 17 1 (set_owned 33 2 no_scopes)

abbrev open_sync : ℕ → ℕ → Option ℕ
open_sync a i = some (100 + i)

abbrev inbound : List ℕ
inbound = 1 ∷ 2 ∷ []

abbrev pulls : Assoc OpenPull
pulls = (33, record { connection = 2; id = 5 }) ∷ []

-- The turn closes the pull of the connection that is gone and opens one toward agent 17.
turn_computed : turn heap table open_sync inbound pulls ≡ (
  (17, record { connection = 1; id = 117 }) ∷ [],
  closed 2 5 ∷ opened 1 (filter_instance 17 ∷ []) ∷ [],
)
unfolding turn get store set_owned put
turn_computed = refl

turn_pulls_example :
    let m' = (turn heap table open_sync inbound pulls).0 in
    ((id : ℕ) (p : OpenPull) → get id m' ≡ some p → Belongs heap table open_sync inbound id p)
    × ((id a : ℕ)
        → get id (conns heap table open_sync inbound) ≡ some a
        → may_write table (of_instance id) ≡ true
        → open_sync a id ≢ none
        → get id m' ≢ none)
    × ((id : ℕ) (p : OpenPull)
        → get id pulls ≡ some p
        → Belongs heap table open_sync inbound id p
        → get id m' ≡ some p)
    × (((id : ℕ) (p : OpenPull) → get id pulls ≡ some p → ConnectsTo heap id p.connection)
        → (id : ℕ) (p : OpenPull) → get id m' ≡ some p
        → ConnectsTo heap id p.connection)
    × (((id a : ℕ) → open_sync a id ≢ none) → turn heap table open_sync inbound m' ≡ (m', []))
turn_pulls_example = turn_pulls heap table open_sync inbound pulls (tt, tt)

-- The server 4 claims what attaches to it; the server 20 is among its peers.
abbrev commits : List (Write OwnershipData) → Bool
commits ws = true

abbrev see : List ℕ → Turn
see peers = record { authority = full; commits = commits; fresh = λ i. 1000 + i; peers = peers }

abbrev unclaimed : LocalClaims
unclaimed = record { previous = none; grants = [] }

unclaimed-IsValid : IsValid unclaimed.grants
unfolding get
unclaimed-IsValid = (tt, λ k j r s p q e. absurd (ground (arith, p)))

abbrev peers : List ℕ
peers = 33 ∷ 20 ∷ 17 ∷ []

seen_peers : attached_instances peers ≡ 17 ∷ 33 ∷ []
unfolding attached_instances
seen_peers = refl

local_turns-claim_example :
    let result =
      claim
        (grant_env full commits)
        (λ i. 1000 + i)
        4
        (attached_instances peers)
        unclaimed.grants in
    (result.0 ≡ ok tt
      → (i : ℕ) → In i peers
      → is_type i server ≡ false
      → i ≢ 4
      → (d : OwnershipData) × (lookup i
            (local_turns 4 (see peers ∷ see peers ∷ []) unclaimed).grants
          ≡ some d)
        × (d.owner ≡ 4))
    × ((local_turns 4 (see peers ∷ see peers ∷ []) unclaimed).grants ≡ result.1)
local_turns-claim_example =
    local_turns-claim 4 (see peers) (see peers ∷ []) unclaimed unclaimed-IsValid refl (refl, tt)
