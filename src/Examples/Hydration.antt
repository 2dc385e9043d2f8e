-- ===== src/Examples/Hydration.antt =====
-- The theorems on scopes and hydrations at concrete inputs.
use sandpolis.Prelude.{◌↔◌, ◌⊎◌, ℕ, ◌≡◌, refl, true, false, none, some, [], ◌∷◌, In, any, arith}
use sandpolis.Prelude.Maps.{get, erase}
use sandpolis.Database.Scope.{
  release, tracked, global, of_instance, hydrating, owned_at, state, tracked, may_write,
}
use sandpolis.Database.Scope.History.{granted, hydrated, revoked, run, latest, may_write_history}
use sandpolis.Server.Hydration.{OwnedScope, Edge, lists, on_message, complete}
use sandpolis.Server.Hydration.Grants.{at, IsUnderWay, Agrees, after_grant}
use sandpolis.Server.Hydration.Event.{on_message_states}
use sandpolis.Server.Hydration.Tasks.{Step, event, here, next, IsServed, Reach-IsServed}
use sandpolis.Server.Hydration.Epochs.{stale_epoch}

abbrev old_six : OwnedScope
old_six = record { instance_id = 6; epoch = 1 }

abbrev new_six : OwnedScope
new_six = record { instance_id = 6; epoch = 3 }

-- Server 1 has just started: it owns instance 5, and instance 6 is hydrating.
abbrev starting : Edge
starting = record {
  table = record { self_id = some 1; scopes = (6, hydrating) ∷ (5, owned_at 2) ∷ [] };
  tasks = old_six ∷ [];
  writes = [];
}

six_hydrating : at 6 starting ≡ some hydrating
unfolding state get
six_hydrating = refl

starting-IsServed : IsServed starting
unfolding state get lists any
starting-IsServed j h = ground arith

on_message_states_example :
    (lists (new_six ∷ []) 5 ≡ false → at 5 (on_message true (new_six ∷ []) starting) ≡ none)
    × ((s : OwnedScope)
        → In s (new_six ∷ [])
        → true ≡ true
        → IsUnderWay s.epoch (at s.instance_id (on_message true (new_six ∷ []) starting)))
    × ((epoch : ℕ)
        → at 5 (on_message true (new_six ∷ []) starting) ≡ some (owned_at epoch)
        → at 5 starting ≡ some (owned_at epoch))
    × ((s : OwnedScope)
        → In s (new_six ∷ [])
        → Agrees s (new_six ∷ [])
        → at s.instance_id (on_message true (new_six ∷ []) starting)
          ≡ after_grant true s (at s.instance_id starting))
on_message_states_example = on_message_states true (new_six ∷ []) starting 5

granted_again : Step starting (on_message true (new_six ∷ []) starting)
granted_again = event true (new_six ∷ [])

Reach-IsServed_example : IsServed (on_message true (new_six ∷ []) starting)
Reach-IsServed_example = Reach-IsServed (next here granted_again) starting-IsServed

-- Instance 5 is listed at its epoch and stays owned.
five_kept :
    at 5 (on_message true (record { instance_id = 5; epoch = 2 } ∷ []) starting) ≡ some (owned_at 2)
unfolding on_message state get any tracked lists release erase
five_kept = refl

stale_epoch_example :
    let e' = complete old_six (on_message true (new_six ∷ []) starting) in
    ((on_message true (new_six ∷ []) starting).tasks ≡ old_six ∷ [])
    × (e'.tasks ≡ old_six ∷ [])
    × (at 6 e' ≡ some (owned_at 1))
    × (may_write e'.table (of_instance 6) ≡ true)
    × (at 6 (on_message true (new_six ∷ []) e') ≡ some hydrating)
stale_epoch_example = stale_epoch starting old_six new_six refl (λ q. cc q) six_hydrating

may_write_history_example :
    let cs = granted 6 ∷ hydrated 6 1 ∷ revoked 5 ∷ [] in
    (may_write (run cs starting.table) global ≡ false)
    × ((may_write (run cs starting.table) (of_instance 6) ≡ true) ↔ (
        (starting.table.self_id ≡ some 6)
        ⊎ ((epoch : ℕ) × (latest 6 cs (state 6 starting.table) ≡ some (owned_at epoch)))))
may_write_history_example =
    may_write_history (granted 6 ∷ hydrated 6 1 ∷ revoked 5 ∷ []) starting.table 6
