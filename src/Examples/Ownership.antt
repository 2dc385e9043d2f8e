-- ===== src/Examples/Ownership.antt =====
-- The theorems on the grant table at concrete inputs: server 1 owns instance 6 at epoch 1, server 2
-- owns instance 5 at epoch 3.
use sandpolis.Prelude.{
  Option, ◌⊎◌, ℕ, ◌+◌, ◌≡◌, refl, inl, Bool, true, none, some, List, [], ◌∷◌, ok, find, arith,
}
use sandpolis.Prelude.Maps.{get, store}
use sandpolis.Database.Revision.{latest}
use sandpolis.Database.Scope.{full, no_scopes, set_self, state, owned_at, permits}
use sandpolis.Database.Resident.{Write}
use sandpolis.Server.Hydration.{OwnedScope, Edge, on_message, lists}
use sandpolis.Server.Hydration.Grants.{at}
use sandpolis.Server.Ownership.{
  OwnershipData, Grants, grant_env, claim, find_grant, owned_by, mirror_set, restore,
}
use sandpolis.Server.Ownership.Grants.{IsValid, lookup}
use sandpolis.Server.Ownership.Claims.{after_claim, claim_grants}
use sandpolis.Server.Ownership.Fencing.{
  History, at_first, claimed_next, reported_next, IsLater, claims_fence,
}
use sandpolis.Database.Resident.{Row}
use sandpolis.Server.Ownership.{new_grant}
use sandpolis.Database.Resident.Vec.{on_update, handle_event}
use sandpolis.Server.Ownership.Handover.{claim_revokes}
use sandpolis.Server.Ownership.Watcher.{
  Responder, Act, sends, closes, opens, watch_turn, deliver, claim_told,
}
use sandpolis.Database.Sync.{filter_instance}
use sandpolis.Database.Scope.{set_owned}
use sandpolis.Server.Ownership.Mirror.{write_rows, AreFiled, mirror_restores}

abbrev two_grants : Grants
two_grants =
    (
      10,
      record {
        id = 10;
        revision = latest 1;
        content = record { instance_id = 6; owner = 1; epoch = 1 };
      },
    )
    ∷ (
      20,
      record {
        id = 20;
        revision = latest 2;
        content = record { instance_id = 5; owner = 2; epoch = 3 };
      },
    )
    ∷ []

two_grants-IsValid : IsValid two_grants
unfolding get
two_grants-IsValid = (((omega arith, tt), (tt, tt)), λ k j r s p q e. ground arith)

abbrev commits : List (Write OwnershipData) → Bool
commits ws = true

abbrev fresh : ℕ → ℕ
fresh i = 1000 + i

abbrev six : List ℕ
six = 6 ∷ []

-- Instance 6 attaches to server 2.
claimed_six : (claim (grant_env full commits) fresh 2 six two_grants).0 ≡ ok tt
unfolding claim find permits
claimed_six = refl

nothing_owned : Edge
nothing_owned = record { table = no_scopes; tasks = []; writes = [] }

claim_revokes_example :
    let g' = (claim (grant_env full commits) fresh 2 six two_grants).1 in
    (at 6 (on_message true (owned_by 1 g') nothing_owned) ≡ none) × (lists (owned_by 2 g') 6 ≡ true)
claim_revokes_example =
    claim_revokes full commits fresh 2 1 six 6 two_grants true nothing_owned two_grants-IsValid
      claimed_six (inl refl) (λ e. omega (arith, e)) (λ e. omega (arith, e))

claim_grants_example :
    let g' = (claim (grant_env full commits) fresh 2 six two_grants).1 in
    IsValid g' × ((j : ℕ) → lookup j g' ≡ after_claim 2 six j (lookup j two_grants))
claim_grants_example =
    claim_grants full commits fresh 2 six two_grants two_grants-IsValid claimed_six

grant_six : lookup 6 two_grants ≡ some (record { instance_id = 6; owner = 1; epoch = 1 })
unfolding lookup find_grant find
grant_six = refl

abbrev first_grant : Grants → Row OwnershipData
first_grant [] = new_grant 0 0 0 0
first_grant ((k, r) ∷ g) = r

-- Server 2 claims instance 6, the watcher reports the table's first row as it was before, and server 1
-- claims the instance back.
abbrev by_two : Grants
by_two = (claim (grant_env full commits) fresh 2 six two_grants).1

abbrev by_one : Grants
by_one = (claim (grant_env full commits) fresh 1 six by_two).1

two_ways : History full commits fresh two_grants by_one
unfolding claim find permits get store handle_event
two_ways = claimed_next by_two 1 six (
    reported_next by_two by_two [] (on_update (first_grant two_grants)) []
      (claimed_next two_grants 2 six at_first) (first_grant by_two, refl, inl refl) refl)

claims_fence_example :
    IsValid by_one × IsLater (record { instance_id = 6; owner = 1; epoch = 1 }) (lookup 6 by_one)
claims_fence_example =
    claims_fence full commits fresh two_grants by_one 6
      (record { instance_id = 6; owner = 1; epoch = 1 }) two_ways two_grants-IsValid grant_six

abbrev scope_six : OwnedScope
scope_six = record { instance_id = 6; epoch = 1 }

abbrev scope_seven : OwnedScope
scope_seven = record { instance_id = 7; epoch = 4 }

two_grants-AreFiled : AreFiled two_grants
unfolding get
two_grants-AreFiled k r h = ground arith

mirrored_seven : (mirror_set (grant_env full commits) fresh 1 scope_seven two_grants).result ≡ ok tt
unfolding mirror_set find permits get
mirrored_seven = refl

mirror_restores_example :
    let d =
      write_rows
        (mirror_set (grant_env full commits) fresh 1 scope_seven two_grants).writes
        two_grants in
    state 7 (restore d (set_self 1 no_scopes)) ≡ some (owned_at 4)
mirror_restores_example =
    mirror_restores full commits fresh 1 scope_seven two_grants 7 two_grants-IsValid
      two_grants-AreFiled mirrored_seven

-- Server 1 had been told that it owns instance 6 and holds it; the watcher has a pull.
abbrev watcher : Responder
watcher = record {
  watching = true;
  previous = some (record { instance_id = 6; epoch = 1 } ∷ []);
  pull = some 40;
}

abbrev owner_of_six : Edge
owner_of_six = record { table = set_owned 6 1 no_scopes; tasks = []; writes = [] }

abbrev moved_six : Grants
moved_six = (claim (grant_env full commits) fresh 2 six two_grants).1

abbrev taken_turn : Option (Responder × List Act) → Responder × List Act
taken_turn none = (watcher, [])
taken_turn (some m) = m

abbrev next_turn : Responder × List Act
next_turn = taken_turn (watch_turn 1 true true (some 41) moved_six watcher)

next_computed : watch_turn 1 true true (some 41) moved_six watcher ≡ some (next_turn.0, next_turn.1)
unfolding watch_turn claim find permits store
next_computed = refl

next_acts : next_turn.1 ≡ sends [] ∷ closes 40 ∷ opens (filter_instance 1 ∷ []) ∷ []
unfolding watch_turn claim find permits store
next_acts = refl

claim_told_example :
    (next_turn.0.previous ≡ some (owned_by 1 moved_six))
    × (((next_turn.0.previous ≡ watcher.previous) × (next_turn.1 ≡ []))
        ⊎ (at 6 (deliver true next_turn.1 owner_of_six) ≡ none))
claim_told_example =
    claim_told full commits fresh 2 1 six 6 two_grants true true true (some 41) watcher next_turn.0
      next_turn.1 owner_of_six two_grants-IsValid claimed_six (inl refl) (λ e. omega (arith, e))
      (λ e. omega (arith, e)) next_computed
